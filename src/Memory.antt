-- ===== src/Memory.antt =====
-- The memory of the node process that its clients work on: `malloc`, `realloc`, `free` and `memcpy` as
-- node/src/node_client_communication.c uses them. `none` is undefined behaviour, such as an access to
-- memory that is not allocated. Which address `malloc` picks and what a new block holds are arguments.
pub mod Access
pub mod Fresh
pub mod Partial
use dicon.Base.{
  ℕ, zero, suc, ◌+◌, ◌-◌, Bool, true, false, ◌&&◌, Option, none, some, List, [], ◌∷◌, ltb, leb,
  ◌==◌, if◌then◌else◌, length, take,
}
use dicon.Wire.{Bytes, ◌>>=◌}

-- The byte at each allocated address, and the size of the block that starts at an address.
pub record Memory : Type 0 where
  pub cell : ℕ → Option ℕ
  pub block : ℕ → Option ℕ

abbrev pub update {ℓ} : {A : Type ℓ} → (ℕ → A) → ℕ → A → ℕ → A
update f p a q = if q == p then a else f q

abbrev pub within : ℕ → ℕ → ℕ → Bool
within p n q = leb p q && ltb q (p + n)

-- Reads `n` bytes from `p` on.
unfoldable pub load_bytes : ℕ → ℕ → Memory → Option Bytes
load_bytes zero p m = some []
load_bytes (suc n) p m = do b ← m.cell p; bs ← load_bytes n (p + 1) m; some (b ∷ bs)

-- Writes bytes from `p` on.
unfoldable pub store_bytes : Bytes → ℕ → Memory → Option Memory
store_bytes [] p m = some m
store_bytes (b ∷ bs) p m = do
  old ← m.cell p
  store_bytes bs (p + 1) (record m { cell = update m.cell p (some b) })

-- A block of `n` bytes at `p`.
unfoldable pub allocate : (ℕ → ℕ) → ℕ → ℕ → Memory → Memory
allocate junk p n m = record {
  cell = λ q. if within p n q then some (junk q) else m.cell q;
  block = update m.block p (some n);
}

-- `malloc(n)` where the allocator answers `p`; 0 is NULL.
unfoldable pub malloc : (ℕ → ℕ) → ℕ → ℕ → Memory → ℕ × Memory
malloc junk p n m = if p == 0 then (0, m) else (p, allocate junk p n m)

unfoldable release : Option ℕ → ℕ → Memory → Option Memory
release none p m = none
release (some n) p m =
    some (record {
      cell = λ q. if within p n q then none else m.cell q;
      block = update m.block p none;
    })

-- `free(p)`: nothing for NULL, undefined for what is not the start of a block.
unfoldable pub free : ℕ → Memory → Option Memory
unfolding release
free p m = if p == 0 then some m else release (m.block p) p m

moved : (ℕ → ℕ) → Option ℕ → ℕ → ℕ → ℕ → Memory → Option (ℕ × Memory)
moved junk none q p n m = none
moved junk (some old) q p n m = do
  kept ← load_bytes (if ltb n old then n else old) p m
  freed ← free p m
  stored ← store_bytes kept q (allocate junk q n freed)
  some (q, stored)

-- `realloc(p, n)` where the allocator answers `q`: the contents move to a block at `q`, which may be
-- `p`; where it answers NULL the old block stays. What `realloc(p, 0)` does is undefined.
unfoldable pub realloc : (ℕ → ℕ) → ℕ → ℕ → ℕ → Memory → Option (ℕ × Memory)
unfolding moved
realloc junk q p n m =
    if p == 0
    then some (malloc junk q n m)
    else (if n == 0
        then none
        else (if q == 0
            then (do size ← m.block p; some (0, m))
            else moved junk (m.block p) q p n m))
