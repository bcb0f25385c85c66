-- ===== src/Demo/Primes.antt =====
-- demo/find-primes/main.c, `is_prime`: trial division by the odd numbers up to the square root.
use dicon.Base.{
  ℕ, zero, suc, ◌+◌, ◌*◌, ◌%◌, ◌/◌, ◌^◌, ◌≤◌, ◌<◌, ◌≡◌, refl, ◌↔◌, ◌⊎◌, inl, inr, Bool, true, false,
  Bool-cases, Option, none, some, arith, leb, ltb, ◌==◌, if◌then◌else◌, ◌||◌,
}
use mathlib.Core.Path.{subst}
use Prim.Native.Nat.{◌∣◌}
use native.Mathlib.Nat.{
  dvd_of_mod-eq-zero, mod-eq-zero_of_dvd, mul-div_cancel', le_of_dvd, dvd-mul_left,
  pos_of_dvd_of_pos, mul-le-mul, dvd_trans,
}

-- The test `i <= sqrt(n)` of the C library, for an `int` that is not negative: `sqrt` is rounded
-- correctly and `i` is a `double` itself, so rounding does not change the outcome.
abbrev pub IsSqrt : (ℕ → ℕ → Bool) → Type 0
IsSqrt le_sqrt = (i n : ℕ) → n < 2 ^ 31 → (le_sqrt i n ≡ true) ↔ (i * i ≤ n)

module _ (le_sqrt : ℕ → ℕ → Bool) where
  -- The loop; it is given `k` rounds.
  pub trial : ℕ → ℕ → ℕ → Option Bool
  trial zero i n = none
  trial (suc k) i n = elim (le_sqrt i n) [
    | false ↦ some true
    | true ↦ elim (n % i == 0) [ true ↦ some false | false ↦ trial k (i + 2) n ]
  ]

  -- `n` is the bit pattern of the `int`.
  unfoldable pub is_prime : ℕ → Option Bool
  unfolding trial
  is_prime n =
      if leb (2 ^ 31) n || ltb n 2
      then some false
      else (if n == 2 then some true else (if n % 2 == 0 then some false else trial n 3 n))

pub record Prime (n : ℕ) : Type 0 where
  pub at_least : 2 ≤ n
  pub divisors : (d : ℕ) → d ∣ n → (d ≡ 1) ⊎ (d ≡ n)

-- No number from 2 on and below `i` divides `n`.
abbrev NoneBelow : ℕ → ℕ → Type 0
NoneBelow i n = (d : ℕ) → 2 ≤ d → d < i → ¬ (d ∣ n)

-- A divisor and its cofactor are not both as large as `i`.
NoneBelow-Prime : (i n : ℕ) → 2 ≤ n → n < i * i → NoneBelow i n → Prime n
NoneBelow-Prime i n least small out = record {
  at_least = least;
  divisors = λ d divides. cofactor d divides;
}
  where
    cofactor : (d : ℕ) → d ∣ n → (d ≡ 1) ⊎ (d ≡ n)
    cofactor d divides =
        let q = n / d in
        let e : d * q ≡ n = mul-div_cancel' d divides in
        let pos : 0 < d = pos_of_dvd_of_pos divides (omega arith) in
        let q_divides : q ∣ n = subst (λ m. q ∣ m) e (dvd-mul_left q d) in
        let q_pos : 0 < q = pos_of_dvd_of_pos q_divides (omega arith) in
        elim (Bool-cases (d == 1)) [
          | inl one ↦ inl (ground (arith, one))
          | inr not_one ↦ elim (Bool-cases (q == 1)) [
            | inl one ↦
                let is : q ≡ 1 = ground (arith, one) in
                inr (omega (arith, subst (λ k. d * k ≡ n) is e))
            | inr not_one' ↦ elim (Bool-cases (ltb d i)) [
              | inl below ↦ absurd (out d (ground (arith, not_one)) (ground (arith, below)) divides)
              | inr from ↦ elim (Bool-cases (ltb q i)) [
                | inl below ↦
                    absurd (out q (ground (arith, not_one')) (ground (arith, below)) q_divides)
                | inr from' ↦
                    let big : i * i ≤ d * q =
                      mul-le-mul (ground (arith, from)) (ground (arith, from')) in
                    absurd (omega (arith, big, e))
              ]
            ]
          ]
        ]

divides-not-Prime : (i n : ℕ) → 2 ≤ i → i < n → i ∣ n → ¬ Prime n
divides-not-Prime i n least less divides prime = elim (prime.divisors i divides) [
  | inl one ↦ omega arith
  | inr same ↦ omega arith
]

odd_divisor : (d n : ℕ) → d ∣ n → n % 2 ≡ 1 → d % 2 ≡ 1
odd_divisor d n divides odd = elim (Bool-cases (d % 2 == 1)) [
  | inl is ↦ ground (arith, is)
  | inr other ↦
      let even_d : d % 2 ≡ 0 = ground (arith, other) in
      let two : 2 ∣ n = dvd_trans 2 (dvd_of_mod-eq-zero 2 even_d) divides in
      let even = mod-eq-zero_of_dvd 2 two in absurd (omega (arith, even))
]

NoneBelow-step :
    (i n : ℕ) → n % 2 ≡ 1 → i % 2 ≡ 1 → (n % i == 0) ≡ false → NoneBelow i n → NoneBelow (i + 2) n
NoneBelow-step i n odd odd' apart out d least less divides = elim (Bool-cases (ltb d i)) [
  | inl below ↦ out d least (ground (arith, below)) divides
  | inr from ↦ elim (Bool-cases (d == i)) [
    | inl same ↦
        let is : d ≡ i = ground (arith, same) in
        let zero_ = mod-eq-zero_of_dvd i (subst (λ m. m ∣ n) is divides) in
        ground (arith, zero_, apart)
    | inr other ↦
        let odd'' = odd_divisor d n divides odd in
        let next : d ≡ i + 1 = ground (arith, from, other, less) in omega (arith, odd'', next)
  ]
]

-- A result that says whether `n` is a prime number.
abbrev Decides : ℕ → Option Bool → Type 0
Decides n o = (b : Bool) × (o ≡ some b) × ((b ≡ true) ↔ Prime n)

yes : (n : ℕ) → Prime n → Decides n (some true)
yes n prime = (true, refl, ((λ _. prime), (λ _. refl)))

no : (n : ℕ) → ¬ Prime n → Decides n (some false)
no n not_prime =
    (false, refl, ((λ e. absurd (ground (arith, e))), (λ prime. absurd (not_prime prime))))

two_Prime : (n : ℕ) → n ≡ 2 → Prime n
two_Prime n is = record {
  at_least = omega arith;
  divisors = λ d divides.
      let most = le_of_dvd (omega arith) divides in
      let pos = pos_of_dvd_of_pos divides (omega arith) in
      elim (Bool-cases (d == 1)) [
        | inl one ↦ inl (ground (arith, one))
        | inr other ↦ inr (ground (arith, other, most, pos, is))
      ];
}

NoneBelow-three : (n : ℕ) → n % 2 ≡ 1 → NoneBelow 3 n
NoneBelow-three n odd d least less divides =
    let odd' = odd_divisor d n divides odd in omega (arith, odd')

module _ (le_sqrt : ℕ → ℕ → Bool) (is_sqrt : IsSqrt le_sqrt) where
  trial-Decides :
      (k i n : ℕ)
      → n < 2 ^ 31
      → n % 2 ≡ 1
      → i % 2 ≡ 1
      → 3 ≤ i
      → i ≤ n
      → n < i + 2 * k
      → NoneBelow i n
      → Decides n (trial le_sqrt k i n)
  unfolding trial
  trial-Decides zero i n fits odd odd' least upto rounds out = absurd (omega arith)
  trial-Decides (suc k) i n fits odd odd' least upto rounds out = elim (Bool-cases (le_sqrt i n)) [
    | inl low ↦
        let square : i * i ≤ n = (is_sqrt i n fits).0 low in
        let more : 3 * i ≤ i * i = mul-le-mul least (omega arith) in
        elim (Bool-cases (n % i == 0)) [
          | inl divides ↦
              rw (trial, low, divides)
                (no n (
                  divides-not-Prime i n (omega arith) (omega arith)
                    (dvd_of_mod-eq-zero i (ground (arith, divides)))))
          | inr other ↦
              rw (trial, low, other)
                (trial-Decides k (i + 2) n fits odd (omega arith) (omega arith) (omega arith)
                  (omega arith) (NoneBelow-step i n odd odd' other out))
        ]
    | inr high ↦
        let big : n < i * i = elim (Bool-cases (leb (i * i) n)) [
          | inl low ↦
              let is = (is_sqrt i n fits).1 (ground (arith, low)) in
              absurd (ground (arith, is, high))
          | inr over ↦ ground (arith, over)
        ] in
        rw (trial, high) (yes n (NoneBelow-Prime i n (omega arith) big out))
  ]

  -- `is_prime` returns, and for an `int` that is not negative it says whether it is a prime number; of the
  -- patterns of negative ones it says no. The condition: the C library's `sqrt` is rounded correctly.
  pub is_prime-Prime :
      (n : ℕ) → (b : Bool) × (is_prime le_sqrt n ≡ some b) × ((b ≡ true) ↔ ((n < 2 ^ 31) × Prime n))
  unfolding is_prime
  is_prime-Prime n = elim (Bool-cases (leb (2 ^ 31) n || ltb n 2)) [
    | inl outside ↦ (
      false,
      rw outside,
      (
        (λ e. absurd (ground (arith, e))),
        (λ (fits, prime). let least = prime.at_least in ground (arith, outside, fits, least)),
      ),
    )
    | inr inside ↦
        let fits : n < 2 ^ 31 = ground (arith, inside) in
        let least : 2 ≤ n = ground (arith, inside) in
        let (b, ran, is) = decides n fits least in
        (b, rw (inside, ran), ((λ e. (fits, is.0 e)), (λ (_, prime). is.1 prime)))
  ]
    where
      decides :
          (n : ℕ)
          → n < 2 ^ 31
          → 2 ≤ n
          → Decides n (
              if n == 2
              then some true
              else (if n % 2 == 0 then some false else trial le_sqrt n 3 n))
      decides n fits least = elim (Bool-cases (n == 2)) [
        | inl two ↦ rw two (yes n (two_Prime n (ground (arith, two))))
        | inr other ↦ elim (Bool-cases (n % 2 == 0)) [
          | inl even ↦
              rw (other, even)
                (no n (
                  divides-not-Prime 2 n (omega arith) (ground (arith, least, other))
                    (dvd_of_mod-eq-zero 2 (ground (arith, even)))))
          | inr odd ↦
              rw (other, odd)
                (trial-Decides n 3 n fits (ground (arith, odd)) refl (omega arith)
                  (ground (arith, least, other)) (omega arith)
                  (NoneBelow-three n (ground (arith, odd))))
        ]
      ]
