-- ===== src/Memory/Fresh.antt =====
-- A block from `malloc` to `free`: it holds what is written to it, and the rest of the memory is as before.
use dicon.Base.{
  ℕ, ◌+◌, ◌<◌, ◌≤◌, ◌≡◌, ◌≢◌, ◌⊎◌, inl, inr, ◌∙◌, true, false, Bool-cases, none, some, arith, ◌==◌,
  if◌then◌else◌, length,
}
use dicon.Wire.{Bytes}
use dicon.Memory.{Memory, store_bytes, allocate, within, update, release, free}
use dicon.Memory.Access.{store_bytes-allocated, store_bytes-outside, store_bytes-block}

pub within-cases :
    (p n q : ℕ)
    → ((within p n q ≡ true) × (p ≤ q) × (q < p + n))
      ⊎ ((within p n q ≡ false) × ((q < p) ⊎ (p + n ≤ q)))
within-cases p n q = ground arith

pub allocate-within :
    (junk : ℕ → ℕ) (p n : ℕ) (m : Memory) (q : ℕ)
    → p ≤ q
    → q < p + n
    → (allocate junk p n m).cell q ≢ none
unfolding allocate
allocate-within junk p n m q from to = ground arith

pub allocate-outside :
    (junk : ℕ → ℕ) (p n : ℕ) (m : Memory) (q : ℕ)
    → (q < p) ⊎ (p + n ≤ q)
    → (allocate junk p n m).cell q ≡ m.cell q
unfolding allocate
allocate-outside junk p n m q outside = ground arith

pub allocate-block : (junk : ℕ → ℕ) (p n : ℕ) (m : Memory) → (allocate junk p n m).block p ≡ some n
unfolding allocate
allocate-block junk p n m = ground arith

pub free-block :
    (p n : ℕ) (m : Memory)
    → p ≢ 0
    → m.block p ≡ some n
    → free p m
      ≡ some (record {
        cell = λ q. if within p n q then none else m.cell q;
        block = update m.block p none;
      })
unfolding free release
free-block p n m some_block is = elim (Bool-cases (p == 0)) [
  | inl null ↦ ground (arith, null)
  | inr given ↦ rw (given, is)
]

pub allocated_junk :
    (junk : ℕ → ℕ) (p n : ℕ) (m : Memory) (q : ℕ)
    → p ≤ q
    → q < p + n
    → (allocate junk p n m).cell q ≡ some (junk q)
unfolding allocate
allocated_junk junk p n m q from to = ground arith

module _ (junk : ℕ → ℕ) (p : ℕ) (bytes : Bytes) (m : Memory) (given : p ≢ 0)
    (unused : (q : ℕ) → p ≤ q → q < p + length bytes → m.cell q ≡ none) where
  restored :
      (m' : Memory) (q : ℕ)
      → store_bytes bytes p (allocate junk p (length bytes) m) ≡ some m'
      → (if within p (length bytes) q then none else m'.cell q) ≡ m.cell q
  restored m' q stored = elim (within-cases p (length bytes) q) [
    | inl (inside, from, to) ↦ rw (inside, unused q from to)
    | inr (apart, outside) ↦ rw apart (
        store_bytes-outside bytes p (allocate junk p (length bytes) m) q outside stored
        ∙ allocate-outside junk p (length bytes) m q outside)
  ]

  -- The bytes are written to a new block, and after `free` each address holds what it held.
  pub store_bytes-fresh :
      (m' m'' : Memory) × (store_bytes bytes p (allocate junk p (length bytes) m) ≡ some m')
      × (free p m' ≡ some m'')
      × ((q : ℕ) → m''.cell q ≡ m.cell q)
  store_bytes-fresh =
      let (m', stored) =
        store_bytes-allocated bytes p (allocate junk p (length bytes) m)
          (allocate-within junk p (length bytes) m) in
      let block : m'.block p ≡ some (length bytes) =
        rw (store_bytes-block bytes p (allocate junk p (length bytes) m) stored)
          (allocate-block junk p (length bytes) m) in
      (m', _, stored, free-block p (length bytes) m' given block, λ q. restored m' q stored)
