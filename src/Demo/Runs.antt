-- ===== src/Demo/Runs.antt =====
-- The demos' theorems at small inputs, with a square root that is computed by squares.
use dicon.Base.{
  ℕ, ◌+◌, ◌*◌, ◌≡◌, ◌≢◌, ◌↔◌, Bool, some, List, [], ◌∷◌, ◌++◌, arith, leb, leb→le, le→leb, length,
  All, ◌≤◌, refl, ap, true,
}
use dicon.Wire.{Bytes}
use dicon.Demo.Primes.{IsSqrt}
use dicon.Demo.FindPrimes.{find_primes}
use dicon.Demo.FindPrimes.Collects.{Primes, find_primes-Primes}
use dicon.Demo.Cracker.{max_len, characters, index_to_string, same_bytes, matches, crack_thread}
use dicon.Demo.Cracker.Strings.{
  string_index, string_index-index_to_string, index_to_string_injective,
}
use dicon.Demo.Cracker.Search.{Ends, crack_thread-Ends}
use dicon.Demo.CrackWork.{crack_work, Found, IsEnd, crack_work-Found}

abbrev le_sqrt : ℕ → ℕ → Bool
le_sqrt i n = leb (i * i) n

is_sqrt : IsSqrt le_sqrt
is_sqrt i n fits = (leb→le (i * i) n, le→leb (i * i) n)

abbrev junk : ℕ → ℕ
junk i = 170 + i

find_primes-Primes_example :
    (ps : List ℕ) × Primes 300 100 ps
    × (find_primes le_sqrt junk 202 100 300 ≡ some (length ps ∷ ps))
find_primes-Primes_example =
    find_primes-Primes le_sqrt is_sqrt junk 202 100 300 (omega arith) (omega arith) (omega arith)
      (omega arith) (omega arith)

string_index-index_to_string_example :
    (cs : Bytes) × (index_to_string 1234567 6 ≡ cs ++ 0 ∷ [])
    × (length cs ≡ 6)
    × All (λ c. c ≢ 0) cs
    × (string_index 0 cs ≡ 1234567)
string_index-index_to_string_example = string_index-index_to_string 1234567 6 (omega arith)

crack_thread-Ends_example :
    (j : ℕ) × Ends (λ s. s) (97 ∷ 97 ∷ 97 ∷ 97 ∷ 98 ∷ 97 ∷ []) 30 50 j
    × (crack_thread (λ s. s) (97 ∷ 97 ∷ 97 ∷ 97 ∷ 98 ∷ 97 ∷ []) 21 [] 30 50
        ≡ some (index_to_string j 6))
crack_thread-Ends_example =
    crack_thread-Ends (λ s. s) (97 ∷ 97 ∷ 97 ∷ 97 ∷ 98 ∷ 97 ∷ []) 21 30 50 [] (omega arith)
      (omega arith) (omega arith)

-- The string of the index that is looked for.
abbrev sought : ℕ → Bytes
sought i = characters max_len i

same_bytes-eq : (as_ bs : Bytes) → same_bytes as_ bs ≡ true → as_ ≡ bs
same_bytes-eq [] [] same = refl
same_bytes-eq [] (b ∷ bs) same = absurd (ground (arith, same))
same_bytes-eq (a ∷ as_) [] same = absurd (ground (arith, same))
same_bytes-eq (a ∷ as_) (b ∷ bs) same =
    let first : a ≡ b = ground (arith, same) in
    let rest = same_bytes-eq as_ bs (ground (arith, same)) in cc

same_bytes_refl : (bs : Bytes) → same_bytes bs bs ≡ true
same_bytes_refl [] = refl
same_bytes_refl (b ∷ bs) = let rest = same_bytes_refl bs in ground (arith, rest)

-- A hash that keeps its string has no collisions.
only :
    (i : ℕ)
    → i ≤ 100000000
    → (j : ℕ) → 1 ≤ j
    → j ≤ 100000000
    → matches (λ s. s) (sought i) j ≡ true
    → j ≡ i
unfolding index_to_string
only i high j low small same =
    index_to_string_injective j i max_len (omega arith) (omega arith)
      (ap (λ cs. cs ++ 0 ∷ []) (same_bytes-eq (sought j) (sought i) same))

crack_work-Found_example :
    (parts : List (ℕ × ℕ)) × (crack_work (8 ∷ 2 ∷ []) ≡ some parts)
    × (length parts ≡ 10)
    × (Found (λ s. s) (sought 10000000) 100000000 [] 10000000 parts ↔ (¬ IsEnd 10000000 parts))
crack_work-Found_example =
    crack_work-Found (λ s. s) (sought 10000000) 100000000 [] 10000000 (omega arith) (omega arith)
      (same_bytes_refl (sought 10000000)) (only 10000000 (omega arith)) (omega arith)
      (λ e. absurd (ground (arith, e))) (8 ∷ 2 ∷ []) (omega arith) (omega arith)
