-- ===== src/Start/Numbers.antt =====
-- Numbers in arguments: "%d" of `asprintf`, and `atoi`.
use dicon.Base.{
  ℕ, zero, suc, ◌+◌, ◌*◌, ◌-◌, ◌/◌, ◌%◌, ◌^◌, ◌<◌, ◌≡◌, refl, Bool, true, ◌&&◌, Option, none, some,
  [], ◌∷◌, ◌++◌, arith, ltb, leb, ◌==◌, if◌then◌else◌, All, inl, inr, Bool-cases, lt→ltb,
}
use native.Mathlib.Nat.{pow-suc}
use dicon.Wire.{Bytes}

-- The digits of a number, without those before the first; `k` is more than there are.
unfoldable pub digits : (k : ℕ) → ℕ → Bytes
digits zero n = []
digits (suc k) n =
    let before = digits k (n / 10) in
    if ltb n 10 then (b'0' + n) ∷ [] else before ++ (b'0' + n % 10) ∷ []

-- "%d" of an `int`, given by its bit pattern.
unfoldable pub decimal : ℕ → Bytes
decimal n = if ltb n (2 ^ 31) then digits 10 n else b'-' ∷ digits 10 (2 ^ 32 - n)

abbrev pub is_digit : ℕ → Bool
is_digit c = leb b'0' c && leb c b'9'

-- The digits at the front of a string, after the value that was read.
unfoldable pub digits_value : ℕ → Bytes → ℕ
digits_value n [] = n
digits_value n (c ∷ cs) =
    let rest = digits_value (n * 10 + (c - b'0')) cs in if is_digit c then rest else n

abbrev is_space : ℕ → Bool
is_space c = if c == b' ' then true else leb 9 c && leb c 13

-- A value with its sign, as the bit pattern of an `int`; outside of that, `atoi` is undefined.
abbrev positive : ℕ → Option ℕ
positive n = if ltb n (2 ^ 31) then some n else none

abbrev negative : ℕ → Option ℕ
negative n = if leb n (2 ^ 31) then some ((2 ^ 32 - n) % 2 ^ 32) else none

unfoldable pub atoi : Bytes → Option ℕ
atoi [] = some 0
atoi (c ∷ cs) =
    let skipped = atoi cs in
    if is_space c
    then skipped
    else if c == b'-'
    then negative (digits_value 0 cs)
    else if c == b'+'
    then positive (digits_value 0 cs)
    else positive (digits_value 0 (c ∷ cs))

digits_value-append :
    (ds : Bytes) (v d : ℕ)
    → All (λ c. is_digit c ≡ true) ds
    → is_digit d ≡ true
    → digits_value v (ds ++ d ∷ []) ≡ digits_value v ds * 10 + (d - b'0')
unfolding digits_value
digits_value-append [] v d all is = ground (arith, is)
digits_value-append (c ∷ ds) v d (first, all) is =
    rw first (digits_value-append ds (v * 10 + (c - b'0')) d all is)

All-append :
    (ds : Bytes) (d : ℕ)
    → All (λ c. is_digit c ≡ true) ds
    → is_digit d ≡ true
    → All (λ c. is_digit c ≡ true) (ds ++ d ∷ [])
All-append [] d all is = (is, tt)
All-append (c ∷ ds) d (first, all) is = (first, All-append ds d all is)

-- The digits of a number are digits, and are not none.
pub digits-All : (k n : ℕ) → All (λ c. is_digit c ≡ true) (digits k n)
unfolding digits
digits-All zero n = tt
digits-All (suc k) n = elim (Bool-cases (ltb n 10)) [
  | inl below ↦ rw below (ground (arith, below), tt)
  | inr above ↦
      rw above
        (All-append (digits k (n / 10)) (b'0' + n % 10) (digits-All k (n / 10)) (ground arith))
]

digits-value : (k n : ℕ) → n < 10 ^ k → digits_value 0 (digits k n) ≡ n
unfolding digits digits_value
digits-value zero n fits = omega (arith, fits)
digits-value (suc k) n fits = elim (Bool-cases (ltb n 10)) [
  | inl below ↦ rw below (ground (arith, below))
  | inr above ↦
      let low : n / 10 < 10 ^ k = omega (arith, pow-suc 10 k, fits) in
      let digit : is_digit (b'0' + n % 10) ≡ true = ground arith in
      let value =
        digits_value-append (digits k (n / 10)) 0 (b'0' + n % 10) (digits-All k (n / 10)) digit in
      rw above (omega (arith, value, digits-value k (n / 10) low))
]

atoi-digit :
    (s : Bytes)
    → All (λ c. is_digit c ≡ true) s
    → digits_value 0 s < 2 ^ 31
    → atoi s ≡ some (digits_value 0 s)
unfolding atoi digits_value
atoi-digit [] all fits = refl
atoi-digit (c ∷ s) (first, all) fits = ground (arith, first, fits)

-- What is printed is read back.
pub atoi-decimal : (n : ℕ) → n < 2 ^ 31 → atoi (decimal n) ≡ some n
unfolding decimal
atoi-decimal n fits =
    let value = digits-value 10 n (omega (arith, fits)) in
    let read = atoi-digit (digits 10 n) (digits-All 10 n) (omega (arith, value, fits)) in
    rw (lt→ltb n (2 ^ 31) fits, read, value)
