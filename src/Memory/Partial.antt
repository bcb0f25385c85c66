-- ===== src/Memory/Partial.antt =====
-- A block that is written in part.
use dicon.Base.{ℕ, ◌+◌, ◌≤◌, ◌≡◌, ◌≢◌, ◌∙◌, ap, inr, none, some, ◌++◌, arith, length, if◌then◌else◌}
use dicon.Wire.{Bytes}
use dicon.Memory.{Memory, load_bytes, store_bytes, allocate, free, within, update}
use dicon.Memory.Access.{
  load_bytes-store_bytes, store_bytes-outside, store_bytes-block, store_bytes-allocated,
  load_bytes-join, load_bytes-allocated,
}
use dicon.Memory.Fresh.{allocate-within, allocate-block, free-block, allocated_junk}

-- The block at `p` is free.
abbrev pub without_block : ℕ → ℕ → Memory → Memory
without_block p n m = record {
  cell = λ q. if within p n q then none else m.cell q;
  block = update m.block p none;
}

module _ (junk : ℕ → ℕ) (p n : ℕ) (text : Bytes) (m : Memory) (short : length text ≤ n) where
  pub store_bytes-part : (m2 : Memory) × (store_bytes text p (allocate junk p n m) ≡ some m2)
  store_bytes-part =
      store_bytes-allocated text p (allocate junk p n m)
        (λ q from to. allocate-within junk p n m q from (omega (arith, to, short)))

  -- A longer read gives the text, and what is there behind it.
  pub load_bytes-part :
      (b count : ℕ) (m2 : Memory)
      → count ≡ length text + b
      → count ≤ n
      → store_bytes text p (allocate junk p n m) ≡ some m2
      → (rest : Bytes) × (load_bytes count p m2 ≡ some (text ++ rest))
  load_bytes-part b count m2 is fits stored =
      let (rest, loaded) = load_bytes-allocated b (p + length text) m2 junk (λ q from to.
        store_bytes-outside text p (allocate junk p n m) q (inr (omega (arith, from))) stored
        ∙ allocated_junk junk p n m q (omega (arith, from)) (omega (arith, to, is, fits))) in
      (
        rest,
        load_bytes-join (length text) b count p m2 text rest is
            (load_bytes-store_bytes text p (allocate junk p n m) stored) loaded,
      )

  pub free-part :
      (m2 : Memory)
      → p ≢ 0
      → store_bytes text p (allocate junk p n m) ≡ some m2
      → free p m2 ≡ some (without_block p n m2)
  free-part m2 given stored = free-block p n m2 given (
      ap (λ f. f p) (store_bytes-block text p (allocate junk p n m) stored)
      ∙ allocate-block junk p n m)
