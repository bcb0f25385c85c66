-- ===== src/Demo/Cracker/Search.antt =====
-- What `crack_thread` of demo/hash-cracker/cracker.c returns.
use dicon.Base.{
  ℕ, zero, suc, ◌+◌, ◌%◌, ◌^◌, ◌≤◌, ◌<◌, ◌≡◌, ◌⊎◌, inl, inr, true, false, Bool-cases, some, arith,
  ltb, ◌==◌,
}
use dicon.Wire.{Bytes}
use dicon.Demo.Cracker.{max_len, index_to_string, strcpy, matches, crack_loop, crack_thread}
use dicon.Demo.Cracker.Strings.{strcpy-index_to_string}

module _ (md5 : Bytes → Bytes) (target_hash : Bytes) where
  -- The string at which a search from `idx` on ends: it is the first one with the hash, or none has it
  -- and it is the last one that was tried.
  pub record Ends (idx end_index j : ℕ) : Type 0 where
    pub from : idx ≤ j
    pub below : j < end_index
    pub first : (i : ℕ) → idx ≤ i → i < j → matches md5 target_hash i ≡ false
    pub outcome :
        (matches md5 target_hash j ≡ true)
        ⊎ ((matches md5 target_hash j ≡ false) × (suc j ≡ end_index))

  crack_loop_end :
      (k end_index : ℕ) (candidate : Bytes)
      → 1 ≤ k
      → crack_loop md5 target_hash k end_index end_index candidate ≡ some candidate
  unfolding crack_loop
  crack_loop_end zero end_index candidate some_rounds = absurd (omega arith)
  crack_loop_end (suc k) end_index candidate some_rounds = ground arith

  Ends-later :
      (idx end_index j : ℕ)
      → matches md5 target_hash idx ≡ false
      → Ends (idx + 1) end_index j
      → Ends idx end_index j
  Ends-later idx end_index j missed e = record {
    from = omega (arith, e.from);
    below = e.below;
    first = λ i low high. elim (Bool-cases (i == idx)) [
      | inl here ↦ let is : i ≡ idx = ground (arith, here) in rw (is, missed)
      | inr other ↦ e.first i (ground (arith, low, other)) high
    ];
    outcome = e.outcome;
  }

  crack_loop-Ends :
      (k idx end_index : ℕ) (candidate : Bytes)
      → idx < end_index
      → end_index < 2 ^ 64
      → end_index + 1 ≤ idx + k
      → (j : ℕ) × Ends idx end_index j
        × (crack_loop md5 target_hash k idx end_index candidate ≡ some (index_to_string j max_len))
  unfolding crack_loop
  crack_loop-Ends zero idx end_index candidate less fits rounds = absurd (omega arith)
  crack_loop-Ends (suc k) idx end_index candidate less fits rounds =
      let low : ltb idx end_index ≡ true = ground arith in
      elim (Bool-cases (matches md5 target_hash idx)) [
        | inl hit ↦ (
          idx,
          record {
            from = omega arith;
            below = less;
            first = λ i f b. absurd (omega (arith, f, b));
            outcome = inl hit;
          },
          rw (crack_loop, low, hit),
        )
        | inr missed ↦ elim (Bool-cases (idx + 1 == end_index)) [
          | inl final ↦
              let is : idx + 1 ≡ end_index = ground (arith, final) in
              let wrap : (idx + 1) % 2 ^ 64 ≡ idx + 1 = omega arith in
              (
                idx,
                record {
                  from = omega arith;
                  below = less;
                  first = λ i f b. absurd (omega (arith, f, b));
                  outcome = inr (missed, omega (arith, is));
                },
                rw (
                  crack_loop,
                  low,
                  missed,
                  wrap,
                  is,
                  crack_loop_end k end_index (index_to_string idx max_len) (omega arith),
                ),
              )
          | inr more ↦
              let (j, ends, ran) =
                crack_loop-Ends k (idx + 1) end_index (index_to_string idx max_len)
                  (ground (arith, more, less)) fits (omega arith) in
              let wrap : (idx + 1) % 2 ^ 64 ≡ idx + 1 = omega arith in
              (j, Ends-later idx end_index j missed ends, rw (crack_loop, low, missed, wrap, ran))
        ]
      ]

  -- `crack_thread` returns the string of the first index of its range, `end_index` left out, whose hash is
  -- the target; where there is none it returns the string of the last index that it tried, and so does
  -- not say that it has found nothing. The conditions: the range is not empty and ends below 2^64, and
  -- the loop is given a round more than there are indices.
  pub crack_thread-Ends :
      (k start_index end_index : ℕ) (stale : Bytes)
      → start_index < end_index
      → end_index < 2 ^ 64
      → end_index + 1 ≤ start_index + k
      → (j : ℕ) × Ends start_index end_index j
        × (crack_thread md5 target_hash k stale start_index end_index
            ≡ some (index_to_string j max_len))
  unfolding crack_thread
  crack_thread-Ends k start_index end_index stale less fits rounds =
      let (j, ends, ran) = crack_loop-Ends k start_index end_index stale less fits rounds in
      (j, ends, rw (ran, strcpy-index_to_string j max_len))

  -- A thread whose range is empty returns what its array held.
  pub crack_thread-empty :
      (k start_index end_index : ℕ) (stale : Bytes)
      → end_index ≤ start_index
      → 1 ≤ k
      → crack_thread md5 target_hash k stale start_index end_index ≡ strcpy stale
  unfolding crack_thread crack_loop
  crack_thread-empty zero start_index end_index stale none_left some_rounds = absurd (omega arith)
  crack_thread-empty (suc k) start_index end_index stale none_left some_rounds =
      let high : ltb start_index end_index ≡ false = ground arith in rw (crack_loop, high)
