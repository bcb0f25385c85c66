-- ===== src/Demo/CrackWork.antt =====
-- demo/hash-cracker/main.c and cracker.c: which strings are found when the range is divided among
-- `crack_thread`s.
use dicon.Base.{
  ℕ, ◌+◌, ◌≤◌, ◌<◌, ◌^◌, ◌≡◌, ◌≢◌, ◌↔◌, ◌⊎◌, sym, ap, ◌∙◌, inl, inr, true, Bool-cases, Option, some,
  List, [], ◌∷◌, arith, ltb, ◌==◌, length,
}
use mathlib.Core.Logic.{⊎_map}
use mathlib.Core.Bool.{true≢false}
use dicon.Wire.{Bytes}
use dicon.Demo.Work.{assign_work}
use dicon.Demo.Work.Tiles.{Tiles, last, next, sum, assign_work-Tiles}
use dicon.Demo.Cracker.{max_len, index_to_string, strcpy, matches, crack_thread}
use dicon.Demo.Cracker.Strings.{index_to_string_injective}
use dicon.Demo.Cracker.Search.{Ends, crack_thread-Ends, crack_thread-empty}

-- RANGE_START and RANGE_END are 1 and 100000000.
unfoldable pub crack_work : List ℕ → Option (List (ℕ × ℕ))
crack_work cores = assign_work 1 100000000 cores

abbrev IsInside : ℕ → List (ℕ × ℕ) → Type 0
IsInside i [] = ⊥
IsInside i ((start, end) ∷ parts) = ((start ≤ i) × (i < end)) ⊎ IsInside i parts

abbrev pub IsEnd : ℕ → List (ℕ × ℕ) → Type 0
IsEnd i [] = ⊥
IsEnd i ((start, end) ∷ parts) = (i ≡ end) ⊎ IsEnd i parts

IsInside-from : {e s : ℕ} {ts : List (ℕ × ℕ)} → Tiles e s ts → (i : ℕ) → IsInside i ts → s ≤ i
IsInside-from last i (inl (low, high)) = low
IsInside-from last i (inr t) = absurd t
IsInside-from (next m from upto rest) i (inl (low, high)) = low
IsInside-from (next m from upto rest) i (inr t) = omega (arith, IsInside-from rest i t)

IsEnd-from :
    {e s : ℕ} {ts : List (ℕ × ℕ)} → Tiles e s ts → s ≤ e + 1 → (i : ℕ) → IsEnd i ts → s ≤ i + 1
IsEnd-from last reach i (inl is) = omega arith
IsEnd-from last reach i (inr t) = absurd t
IsEnd-from (next m from upto rest) reach i (inl is) = omega arith
IsEnd-from (next m from upto rest) reach i (inr t) =
    omega (arith, IsEnd-from rest (omega arith) i t)

not-IsEnd : {e s : ℕ} {ts : List (ℕ × ℕ)} → Tiles e s ts → (i : ℕ) → IsInside i ts → ¬ IsEnd i ts
not-IsEnd last i (inl (low, high)) (inl is) = omega arith
not-IsEnd last i (inl _) (inr t) = t
not-IsEnd last i (inr t) _ = t
not-IsEnd (next m from upto rest) i (inl (low, high)) (inl is) = omega arith
not-IsEnd (next m from upto rest) i (inl (low, high)) (inr t) =
    omega (arith, IsEnd-from rest (omega arith) i t)
not-IsEnd (next m from upto rest) i (inr t) (inl is) = omega (arith, IsInside-from rest i t)
not-IsEnd (next m from upto rest) i (inr t) (inr t') = not-IsEnd rest i t t'

IsInside-of_not-IsEnd :
    {e s : ℕ} {ts : List (ℕ × ℕ)}
    → Tiles e s ts
    → (i : ℕ) → s ≤ i
    → i ≤ e
    → ¬ IsEnd i ts
    → IsInside i ts
IsInside-of_not-IsEnd {e} last i low high other = elim (Bool-cases (i == e)) [
  | inl is ↦ absurd (other (inl (ground (arith, is))))
  | inr ne ↦ inl (low, ground (arith, ne, high))
]
IsInside-of_not-IsEnd (next m from upto rest) i low high other = elim (Bool-cases (i == m)) [
  | inl is ↦ absurd (other (inl (ground (arith, is))))
  | inr ne ↦ elim (Bool-cases (ltb i m)) [
    | inl below ↦ inl (low, ground (arith, below))
    | inr above ↦
        inr (IsInside-of_not-IsEnd rest i (ground (arith, ne, above)) high λ t. other (inr t))
  ]
]

module _ (md5 : Bytes → Bytes) (target_hash : Bytes) (k : ℕ) (stale : Bytes) where
  -- The `crack_thread` of one of the parts returns the string of the index.
  abbrev pub Found : ℕ → List (ℕ × ℕ) → Type 0
  Found i [] = ⊥
  Found i ((start, end) ∷ parts) =
      (crack_thread md5 target_hash k stale start end ≡ some (index_to_string i max_len))
      ⊎ Found i parts

  module _ (i : ℕ) (low : 1 ≤ i) (high : i ≤ 100000000) (hit : matches md5 target_hash i ≡ true)
      (only : (j : ℕ) → 1 ≤ j → j ≤ 100000000 → matches md5 target_hash j ≡ true → j ≡ i)
      (rounds : 100000000 ≤ k) (unset : strcpy stale ≢ some (index_to_string i max_len)) where
    Ends-here :
        (start end j : ℕ)
        → 1 ≤ start
        → end ≤ 100000000
        → Ends md5 target_hash start end j
        → start ≤ i
        → i < end
        → j ≡ i
    Ends-here start end j least most ends from below = elim ends.outcome [
      | inl found ↦ only j (omega (arith, ends.from)) (omega (arith, ends.below)) found
      | inr (missed, final) ↦ elim (Bool-cases (ltb i j)) [
        | inl before ↦
            let other = ends.first i from (ground (arith, before)) in
            absurd (true≢false (sym hit ∙ other))
        | inr behind ↦ ground (arith, behind, final)
      ]
    ]

    crack_thread-IsInside :
        (start end : ℕ)
        → 1 ≤ start
        → end ≤ 100000000
        → (crack_thread md5 target_hash k stale start end ≡ some (index_to_string i max_len))
          ↔ ((start ≤ i) × (i < end))
    crack_thread-IsInside start end least most = elim (Bool-cases (ltb start end)) [
      | inl less ↦
          let (j, ends, ran) =
            crack_thread-Ends md5 target_hash k start end stale (ground (arith, less)) (omega arith)
              (omega arith) in
          (
            λ returned.
                let strings : index_to_string j max_len ≡ index_to_string i max_len = cc in
                let same : j ≡ i =
                  index_to_string_injective j i max_len (omega (arith, ends.below)) (omega arith)
                    strings in
                (omega (arith, ends.from, same), omega (arith, ends.below, same)),
            λ (from, below).
                let same : j ≡ i = Ends-here start end j least most ends from below in
                ran ∙ ap (λ n. some (index_to_string n max_len)) same,
          )
      | inr more ↦
          let empty =
            crack_thread-empty md5 target_hash k start end stale (ground (arith, more))
              (omega arith) in
          (
            λ returned. absurd (unset (sym empty ∙ returned)),
            λ (from, below). absurd (ground (arith, more, from, below)),
          )
    ]

    Found-IsInside :
        {e s : ℕ} {ts : List (ℕ × ℕ)}
        → Tiles e s ts
        → 1 ≤ s
        → e ≤ 100000000
        → Found i ts ↔ IsInside i ts
    Found-IsInside {e} {s} last least most =
        let (in_, out) = crack_thread-IsInside s e least most in
        (⊎_map in_ (λ t. t), ⊎_map out (λ t. t))
    Found-IsInside {e} {s} (next m from upto rest) least most =
        let (in_, out) = crack_thread-IsInside s m least (omega arith) in
        let (ins, outs) = Found-IsInside rest (omega arith) most in (⊎_map in_ ins, ⊎_map out outs)

    -- Of the strings with indices from 1 to 100000000, a thread returns the one that has the hash just
    -- where its index is not the end of a thread's range: the ranges are meant to include their ends, and
    -- the loop of `crack_thread` leaves them out, so that a string with the last index of a range is not
    -- found. The conditions: no other string of the range has the hash; what the array of a thread holds
    -- before the loop is not the string, which a thread with an empty range would return; a thread's loop
    -- is given at least 100000000 rounds; there is a core, and there are fewer than 2^31.
    pub crack_work-Found :
        (cores : List ℕ)
        → 0 < sum cores
        → sum cores < 2 ^ 31
        → (parts : List (ℕ × ℕ)) × (crack_work cores ≡ some parts)
          × (length parts ≡ sum cores)
          × (Found i parts ↔ (¬ IsEnd i parts))
    unfolding crack_work
    crack_work-Found cores some_core few =
        let (parts, assigned, count, tiles) =
          assign_work-Tiles 1 100000000 cores some_core few (omega arith) (omega arith)
            (omega arith) in
        let (ins, outs) = Found-IsInside tiles (omega arith) (omega arith) in
        (
          parts,
          assigned,
          count,
          (
            λ found. not-IsEnd tiles i (ins found),
            λ other. outs (IsInside-of_not-IsEnd tiles i low high other),
          ),
        )
