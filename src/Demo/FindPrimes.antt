-- ===== src/Demo/FindPrimes.antt =====
-- demo/find-primes/main.c, `find_primes`, which the nodes run: it collects primes in an array that grows.
pub mod Store
pub mod Collects
use dicon.Base.{
  ℕ, zero, suc, ◌+◌, ◌*◌, ◌-◌, ◌%◌, ◌^◌, ◌≤◌, ◌<◌, ◌≡◌, refl, sym, ap, ◌∙◌, inl, inr, Bool, true,
  false, Bool-cases, Option, none, some, List, [], ◌∷◌, ◌++◌, arith, leb, ltb, ◌==◌, if◌then◌else◌,
  length, length-append, append_assoc, append-nil,
}
use mathlib.Core.Path.{subst}
use dicon.Wire.{◌>>=◌}
use dicon.Demo.Primes.{IsSqrt, is_prime, Prime, is_prime-Prime}

-- A write to a cell of an array, and a read of its first one; `none` outside of it.
abbrev pub set : ℕ → ℕ → List ℕ → Option (List ℕ)
set i v [] = none
set zero v (b ∷ bs) = some (v ∷ bs)
set (suc i) v (b ∷ bs) = do bs' ← set i v bs; some (b ∷ bs')

abbrev pub first : List ℕ → Option ℕ
first [] = none
first (b ∷ bs) = some b

-- `realloc` to `n` cells, or `malloc` where there are none; it is taken to grant them. What a new cell
-- holds is `junk`.
abbrev pub resize : (ℕ → ℕ) → ℕ → List ℕ → List ℕ
resize junk zero bs = []
resize junk (suc n) [] = junk n ∷ resize junk n []
resize junk (suc n) (b ∷ bs) = b ∷ resize junk n bs

module _ (junk : ℕ → ℕ) where
  -- The array and `allocated_len`, an `int`, with room for one more prime.
  pub make_room : ℕ → ℕ → List ℕ → Option (ℕ × List ℕ)
  make_room count len block =
      if leb len count
      then (if ltb (len + 16) (2 ^ 31)
          then some (len + 16, resize junk (len + 16 + 1) block)
          else none)
      else some (len, block)

  -- What the body of the loop does with a prime.
  pub store_prime : ℕ → ℕ → List ℕ → Option (ℕ × List ℕ)
  unfolding make_room
  store_prime i len block = do
    count ← first block
    let count' = (count + 1) % 2 ^ 64
    counted ← set 0 count' block
    (len', roomy) ← make_room count' len counted
    stored ← set count' i roomy
    some (len', stored)

module _ (le_sqrt : ℕ → ℕ → Bool) (junk : ℕ → ℕ) where
  -- The loop; it is given `k` rounds.
  pub find_loop : ℕ → (i end len : ℕ) → List ℕ → Option (List ℕ)
  unfolding store_prime
  find_loop zero i end len block = none
  find_loop (suc k) i end len block = elim (leb i end) [
    | false ↦ some block
    | true ↦ elim (is_prime le_sqrt i) [
      | none ↦ none
      | some false ↦ find_loop k ((i + 1) % 2 ^ 32) end len block
      | some true ↦ do
        (len', stored) ← store_prime junk i len block
        find_loop k ((i + 1) % 2 ^ 32) end len' stored
    ]
  ]

  unfoldable pub find_primes : ℕ → (range_start range_end : ℕ) → Option (List ℕ)
  unfolding find_loop
  find_primes k range_start range_end = do
    let start = range_start % 2 ^ 32
    let end = range_end % 2 ^ 32
    counted ← set 0 0 (resize junk 17 [])
    block ← find_loop k start end 16 counted
    count ← first block
    some (resize junk (count + 1) block)
