-- ===== src/Demo/Work.antt =====
-- The division of a range among the cores of the nodes, in demo/find-primes/main.c and, word for word,
-- in demo/hash-cracker/main.c. The range is an argument: it is a macro in each.
pub mod Tiles
use dicon.Base.{
  ℕ, zero, suc, ◌+◌, ◌*◌, ◌-◌, ◌/◌, ◌%◌, ◌^◌, Bool, true, false, Option, none, some, List, [], ◌∷◌,
  ◌++◌, leb, ◌==◌, if◌then◌else◌,
}
use dicon.Socket.{size_of_int}

-- `total_cores_count`, an `int` by its bit pattern.
unfoldable pub total_cores : List ℕ → ℕ
total_cores [] = 0
total_cores (c ∷ cores) = (c + total_cores cores) % 2 ^ 32

-- A division of an `int` that is not negative by one that is not 0.
pub int_div : ℕ → ℕ → ℕ
int_div a b = if leb (2 ^ 31) b then (2 ^ 32 - a / (2 ^ 32 - b)) % 2 ^ 32 else a / b

module _ (range_start range_end total range_size : ℕ) where
  -- `start` and `end` for a thread, as they go into the fields of 64 bits of its arguments.
  unfoldable pub part : ℕ → ℕ × ℕ
  part thread_i =
      let start = (range_start + thread_i * range_size) % 2 ^ 32 in
      let end =
        if thread_i == total - 1 then range_end else (start + range_size + (2 ^ 32 - 1)) % 2 ^ 32 in
      (size_of_int start, size_of_int end)

  -- The threads of one node, and those of all nodes.
  unfoldable pub core_loop : ℕ → ℕ → List (ℕ × ℕ)
  core_loop zero thread_i = []
  core_loop (suc cores) thread_i = part thread_i ∷ core_loop cores (thread_i + 1)

  unfoldable pub node_loop : List ℕ → ℕ → List (ℕ × ℕ)
  node_loop [] thread_i = []
  node_loop (c ∷ cores) thread_i = core_loop c thread_i ++ node_loop cores (thread_i + c)

-- The arguments of all threads, in their order; `none` is a division by 0.
unfoldable pub assign_work : (range_start range_end : ℕ) → List ℕ → Option (List (ℕ × ℕ))
unfolding total_cores int_div node_loop
assign_work range_start range_end cores =
    let total = total_cores cores in
    let size = int_div (range_end - range_start) total in
    if total == 0 then none else some (node_loop range_start range_end total size cores 0)
