-- ===== src/Demo/FindPrimes/Collects.antt =====
-- What `find_primes` of demo/find-primes/main.c collects.
use dicon.Base.{
  ℕ, zero, suc, ◌+◌, ◌%◌, ◌^◌, ◌≤◌, ◌<◌, ◌≡◌, ◌∙◌, inl, inr, Bool, Bool-cases, some, List, [], ◌∷◌,
  ◌++◌, arith, leb, length, length-append, append_assoc, append-nil,
}
use mathlib.Core.Path.{subst}
use dicon.Demo.Primes.{IsSqrt, Prime, is_prime-Prime}
use dicon.Demo.FindPrimes.{resize, find_loop, find_primes}
use dicon.Demo.FindPrimes.Store.{length-resize, resize-append, store_prime-append}

-- The prime numbers from `i` on and up to `end`, in their order.
pub data Primes (end : ℕ) : ℕ → List ℕ → Type 0 where
  finished : {i : ℕ} → end < i → Primes end i []
  found : {i : ℕ} {ps : List ℕ} → i ≤ end → Prime i → Primes end (i + 1) ps → Primes end i (i ∷ ps)
  passed : {i : ℕ} {ps : List ℕ} → i ≤ end → ¬ Prime i → Primes end (i + 1) ps → Primes end i ps

module _ (le_sqrt : ℕ → ℕ → Bool) (is_sqrt : IsSqrt le_sqrt) (junk : ℕ → ℕ) where
  -- Where the loop goes on with `fs` found, `len` cells of room and `rest` in what is not used of it.
  find_loop-Primes :
      (k i end len : ℕ) (fs rest : List ℕ)
      → end < 2 ^ 31
      → length fs < len
      → length rest + length fs ≡ len
      → len ≤ length fs + 16
      → length fs + end + 33 < 2 ^ 31 + i
      → end + 2 ≤ i + k
      → 1 ≤ k
      → (ps rest' : List ℕ) × Primes end i ps
        × (find_loop le_sqrt junk k i end len (length fs ∷ (fs ++ rest))
            ≡ some (length (fs ++ ps) ∷ ((fs ++ ps) ++ rest')))
  unfolding find_loop
  find_loop-Primes zero i end len fs rest fits room size small most rounds some_rounds =
      absurd (omega arith)
  find_loop-Primes (suc k) i end len fs [] fits room size small most rounds some_rounds =
      absurd (omega arith)
  find_loop-Primes (suc k) i end len fs (r ∷ rest) fits room size small most rounds some_rounds =
      let again = find_loop-Primes k (i + 1) end in
      let wrap : i ≤ end → (i + 1) % 2 ^ 32 ≡ i + 1 = λ low. omega arith in
      let (b, tested, is) = is_prime-Prime le_sqrt is_sqrt i in
      elim (Bool-cases (leb i end)) [
        | inr over ↦
            ([], r ∷ rest, finished (ground (arith, over)), rw (find_loop, over, append-nil))
        | inl below ↦
            let low : i ≤ end = ground (arith, below) in
            elim (Bool-cases b) [
              | inr composite ↦
                  let (ps, rest', primes, ran) =
                    again len fs (r ∷ rest) fits room size small (omega arith) (omega arith)
                      (omega arith) in
                  (
                    ps,
                    rest',
                    passed low
                        (λ prime.
                          let yes = is.1 (omega arith, prime) in ground (arith, yes, composite))
                        primes,
                    rw (find_loop, below, tested, composite, wrap low, ran),
                  )
              | inl prime ↦
                  let (len', rest'', stored, room', size', small') =
                    store_prime-append junk i len r fs rest room size small (omega arith) in
                  let grown = length-append fs (i ∷ []) in
                  let (ps, rest', primes, ran) =
                    again len' (fs ++ i ∷ []) rest'' fits (omega (arith, grown))
                      (omega (arith, grown)) (omega (arith, grown)) (omega (arith, grown))
                      (omega arith) (omega arith) in
                  let count : length (fs ++ i ∷ []) ≡ suc (length fs) = omega (arith, grown) in
                  let ran' =
                    subst
                      (λ c.
                        find_loop le_sqrt junk k (i + 1) end len' (c ∷ ((fs ++ i ∷ []) ++ rest''))
                        ≡ some (length ((fs ++ i ∷ []) ++ ps) ∷ (((fs ++ i ∷ []) ++ ps) ++ rest')))
                      count ran in
                  let joined = append_assoc fs (i ∷ []) ps in
                  (
                    i ∷ ps,
                    rest',
                    found low (is.0 prime).1 primes,
                    rw (find_loop, below, tested, prime, stored, wrap low, ran', joined),
                  )
            ]
      ]

  -- `find_primes` returns the number of the prime numbers in its range and then these, in order, and
  -- writes to no cell outside its array, however often that grows. The conditions: the C library's
  -- `sqrt` is rounded correctly, `malloc` and `realloc` give blocks, the range ends below 2^31 and has
  -- fewer than 2^31 - 33 numbers, and the loop is given a round more than these.
  pub find_primes-Primes :
      (k range_start range_end : ℕ)
      → range_start < 2 ^ 32
      → range_end < 2 ^ 31
      → range_end + 33 < 2 ^ 31 + range_start
      → range_end + 2 ≤ range_start + k
      → 1 ≤ k
      → (ps : List ℕ) × Primes range_end range_start ps
        × (find_primes le_sqrt junk k range_start range_end ≡ some (length ps ∷ ps))
  unfolding find_primes
  find_primes-Primes k range_start range_end start_fits end_fits few rounds some_rounds =
      let room = resize junk 16 [] in
      let (ps, rest, primes, ran) =
        find_loop-Primes k range_start range_end 16 [] room end_fits (omega arith)
          (omega (arith, length-resize junk 16 [])) (omega arith) (omega arith) rounds
          some_rounds in
      let start_same : range_start % 2 ^ 32 ≡ range_start = omega arith in
      let end_same : range_end % 2 ^ 32 ≡ range_end = omega arith in
      let cut : resize junk (length ps + 1) (length ps ∷ (ps ++ rest)) ≡ length ps ∷ ps =
        resize-append junk (length ps + 1) 0 (length ps ∷ ps) rest (omega arith) ∙ append-nil _ in
      (ps, primes, rw (start_same, end_same, ran, cut))
