-- ===== src/Demo/Arrays.antt =====
-- demo/find-primes/main.c: what the threads return for their parts, and the primes of the whole range.
use dicon.Base.{
  Bool, append-nil, ℕ, ◌+◌, ◌-◌, ◌^◌, ◌≤◌, ◌<◌, ◌≡◌, Option, some, List, [], ◌∷◌, ◌++◌, arith,
  length,
}
use mathlib.Core.Path.{subst}
use mathlib.Core.List.{flatten}
use dicon.Demo.Primes.{IsSqrt}
use dicon.Demo.FindPrimes.{find_primes}
use dicon.Demo.FindPrimes.Collects.{Primes, finished, found, passed, find_primes-Primes}
use dicon.Demo.Work.Tiles.{Tiles, last, next}

-- A thread with a part of these returns an array: the number of elements of a list, which fits the calls
-- that copy it, and then these.
pub data Arrays (task : ℕ → ℕ → Option (List ℕ)) : List (ℕ × ℕ) → List (List ℕ) → Type 0 where
  no_array : Arrays task [] []
  array :
      {start end : ℕ} {ps : List ℕ} {parts : List (ℕ × ℕ)} {pss : List (List ℕ)}
      → task start end ≡ some (length ps ∷ ps)
      → length ps < 2 ^ 27
      → Arrays task parts pss
      → Arrays task ((start, end) ∷ parts) (ps ∷ pss)

Primes-append :
    {m e s : ℕ} {ps qs : List ℕ}
    → m ≤ e
    → s ≤ m + 1
    → Primes m s ps
    → Primes e (m + 1) qs
    → Primes e s (ps ++ qs)
Primes-append {e} {qs} within reach (finished over) there =
    subst (λ i. Primes e i qs) (omega (arith, over, reach)) there
Primes-append within reach (found low prime rest) there =
    found (omega (arith, low, within)) prime (Primes-append within (omega (arith, low)) rest there)
Primes-append within reach (passed low composite rest) there =
    passed (omega (arith, low, within)) composite
      (Primes-append within (omega (arith, low)) rest there)

pub Primes-length : {e s : ℕ} {ps : List ℕ} → Primes e s ps → length ps ≤ e + 1 - s
Primes-length (finished over) = omega arith
Primes-length (found low prime rest) = let short = Primes-length rest in omega (arith, short, low)
Primes-length (passed low composite rest) =
    let short = Primes-length rest in omega (arith, short, low)

module _ (le_sqrt : ℕ → ℕ → Bool) (is_sqrt : IsSqrt le_sqrt) (junk : ℕ → ℕ) (k : ℕ) (end : ℕ)
    (end_fits : end < 2 ^ 31) (some_rounds : 1 ≤ k) where
  -- The arrays for the parts of a range hold its primes in order, none twice.
  pub Tiles-Arrays :
      (start : ℕ) (parts : List (ℕ × ℕ))
      → Tiles end start parts
      → end + 1 < 2 ^ 27 + start
      → end + 2 ≤ start + k
      → start ≤ end + 1
      → (pss : List (List ℕ)) × Arrays (find_primes le_sqrt junk k) parts pss
        × Primes end start (flatten pss)
        × (length pss ≡ length parts)
  unfolding flatten
  Tiles-Arrays start _ last few rounds reach =
      let (ps, primes, ran) =
        find_primes-Primes le_sqrt is_sqrt junk k start end (omega arith) end_fits (omega arith)
          rounds some_rounds in
      let short = Primes-length primes in
      (ps ∷ [], array ran (omega (arith, short, few)) no_array, rw append-nil primes, omega arith)
  Tiles-Arrays start _ (next m {ts} from upto rest) few rounds reach =
      let (ps, primes, ran) =
        find_primes-Primes le_sqrt is_sqrt junk k start m (omega arith) (omega arith) (omega arith)
          (omega arith) some_rounds in
      let short = Primes-length primes in
      let (pss, arrays, primes', size) =
        Tiles-Arrays (m + 1) ts rest (omega arith) (omega arith) (omega arith) in
      (
        ps ∷ pss,
        array ran (omega (arith, short, few)) arrays,
        Primes-append upto from primes primes',
        omega (arith, size),
      )
