-- ===== src/Demo/PrimesClient.antt =====
-- demo/find-primes/main.c, `main`, from where the client is connected to its nodes: the shared object goes to
-- each node, each core of a node gets a thread with a part of the range, and what the threads return is
-- collected and added up.
pub mod Worker
pub mod Start
pub mod StartAll
pub mod Collect
pub mod CollectAll
pub mod Assigned
pub mod Load
pub mod Lookup
pub mod Unload
pub mod Whole
use dicon.Base.{
  ℕ, zero, suc, ◌+◌, ◌*◌, ◌-◌, ◌%◌, ◌^◌, Option, none, some, List, [], ◌∷◌, ◌++◌, ltb, leb, ◌==◌,
  false, length, if◌then◌else◌,
}
use dicon.Wire.{Bytes, le_bytes, get_field, ◌>>=◌, ◌>>◌, guard}
use dicon.Client.Transport.{Peer}
use dicon.Client.Devices.{
  RvoidPtr, Rthread, OnNodes, rmalloc, rfree, memcpy, so_upload, so_load, so_unload, func_load,
  destroy, rthread_run, rthread_join,
}
use dicon.Demo.Work.{total_cores, int_div, part}

-- `struct find_primes_args`.
unfoldable pub encode_args : (range_start range_end : ℕ) → Bytes
encode_args range_start range_end = le_bytes 8 range_start ++ le_bytes 8 range_end

-- REMOTE_NAME, and the symbol, which has the same name.
abbrev pub remote_name : Bytes
remote_name = b'f' ∷ b'i' ∷ b'n' ∷ b'd' ∷ b'_' ∷ b'p' ∷ b'r' ∷ b'i' ∷ b'm' ∷ b'e' ∷ b's' ∷ []

-- `local` is what a variable or a new block of the client of so many bytes holds.
module _ (slack : ℕ → Bytes) {World : Type 0} (peer : Peer World) (local : ℕ → Bytes) where
  -- The loop that loads the shared object on the nodes from `device` on; the client's file is `so_file`.
  unfoldable pub load_objects :
      Bytes → Option Bytes → (count device : ℕ) → OnNodes World (List RvoidPtr)
  load_objects name so_file zero device nodes = some ([], nodes)
  load_objects name so_file (suc count) device nodes = do
    (success, nodes1) ← so_upload slack peer device so_file name nodes
    (handle, nodes2) ← so_load slack peer device name nodes1
    (handles, nodes3) ← load_objects name so_file count (device + 1) nodes2
    some (handle ∷ handles, nodes3)

  unfoldable pub load_functions : Bytes → List RvoidPtr → OnNodes World (List RvoidPtr)
  load_functions symbol [] nodes = some ([], nodes)
  load_functions symbol (handle ∷ handles) nodes = do
    (func_ptr, nodes1) ← func_load slack peer handle symbol nodes
    (func_ptrs, nodes2) ← load_functions symbol handles nodes1
    some (func_ptr ∷ func_ptrs, nodes2)

  -- The body of the loop over the cores of the node at `node_i`.
  unfoldable pub start_thread : ℕ → RvoidPtr → ℕ × ℕ → OnNodes World Rthread
  start_thread node_i func_ptr (start, end) nodes = do
    (r_args, nodes1) ← rmalloc slack peer node_i 16 nodes
    (copied, nodes2) ← memcpy slack peer (encode_args start end) r_args 16 0 nodes1
    rthread_run slack peer func_ptr r_args nodes2

  -- The body of the loop that collects: `arr_size`, and what `arr` holds.
  unfoldable pub collect_thread : Rthread → OnNodes World (ℕ × Bytes)
  collect_thread thread nodes = do
    (ret, nodes1) ← rthread_join slack peer thread nodes
    (size_copied, nodes2) ← memcpy slack peer (local 8) ret 8 1 nodes1
    (arr_size, rest) ← get_field 8 size_copied.1
    let size = (arr_size * 8) % 2 ^ 64
    let behind : RvoidPtr = record { ptr = (ret.ptr + 8) % 2 ^ 64; device = ret.device }
    (arr_copied, nodes3) ← memcpy slack peer (local size) behind (size % 2 ^ 32) 1 nodes2
    (freed, nodes4) ← rfree slack peer ret nodes3
    some ((arr_size, arr_copied.1), nodes4)

  -- The loop that collects, and `primes_total`, an `int` by its bit pattern; `arrs` is what the arrays
  -- held, one after the other.
  unfoldable pub collect : (count : ℕ) → List Rthread → ℕ → Bytes → OnNodes World (ℕ × Bytes)
  collect zero rthreads primes_total arrs nodes = some ((primes_total, arrs), nodes)
  collect (suc count) [] primes_total arrs nodes = none
  collect (suc count) (thread ∷ rthreads) primes_total arrs nodes = do
    (got, nodes1) ← collect_thread thread nodes
    collect count rthreads ((primes_total + got.0) % 2 ^ 32) (arrs ++ got.1) nodes1

  -- The loop at the end, from the node at `node_i` on: the object is unloaded and the connection is
  -- destroyed. `open_fds` are the client's descriptors, as they are where no receive has failed: one that
  -- fails closes its own.
  unfoldable pub unload_objects :
      List RvoidPtr → (node_i : ℕ) → (open_fds : List ℕ) → OnNodes World (List ℕ)
  unload_objects [] node_i open_fds nodes = some (open_fds, nodes)
  unload_objects (handle ∷ handles) node_i open_fds nodes = do
    (success, nodes1) ← so_unload slack peer handle nodes
    (open_fds', nodes2) ← destroy node_i open_fds nodes1
    unload_objects handles (node_i + 1) open_fds' nodes2

  module _ (range_start range_end total range_size : ℕ) where
    unfoldable pub start_cores :
        (cores node_i thread_i : ℕ) → RvoidPtr → OnNodes World (List Rthread)
    start_cores zero node_i thread_i func_ptr nodes = some ([], nodes)
    start_cores (suc cores) node_i thread_i func_ptr nodes = do
      (thread, nodes1) ←
          start_thread node_i func_ptr (part range_start range_end total range_size thread_i) nodes
      (rthreads, nodes2) ← start_cores cores node_i (thread_i + 1) func_ptr nodes1
      some (thread ∷ rthreads, nodes2)

    -- `cores` are the numbers of cores in `nodes_info`, and `func_ptrs` has as many elements.
    unfoldable pub start_nodes :
        List ℕ → List RvoidPtr → (node_i thread_i : ℕ) → OnNodes World (List Rthread)
    start_nodes [] func_ptrs node_i thread_i nodes = some ([], nodes)
    start_nodes (c ∷ cores) [] node_i thread_i nodes = none
    start_nodes (c ∷ cores) (func_ptr ∷ func_ptrs) node_i thread_i nodes = do
      (rthreads, nodes1) ← start_cores c node_i thread_i func_ptr nodes
      (rthreads', nodes2) ← start_nodes cores func_ptrs (node_i + 1) (thread_i + c) nodes1
      some (rthreads ++ rthreads', nodes2)

  -- The work is assigned, and collected. The array of threads has `total` elements: a negative number
  -- of them is not granted, and no more are written.
  unfoldable pub work :
      (range_start range_end : ℕ) → List ℕ → List RvoidPtr → OnNodes World (ℕ × Bytes)
  work range_start range_end cores func_ptrs nodes = do
    let total = total_cores cores
    guard (if total == 0 then false else ltb total (2 ^ 31))
    let range_size = int_div (range_end - range_start) total
    (rthreads, nodes1) ←
        start_nodes range_start range_end total range_size cores func_ptrs 0 0 nodes
    guard (leb (length rthreads) total)
    collect total rthreads 0 [] nodes1

  unfoldable pub main :
      (range_start range_end : ℕ)
      → Option Bytes
      → List ℕ
      → List ℕ
      → OnNodes World ((ℕ × Bytes) × List ℕ)
  main range_start range_end so_file cores open_fds nodes = do
    (handles, nodes1) ← load_objects remote_name so_file (length cores) 0 nodes
    (func_ptrs, nodes2) ← load_functions remote_name handles nodes1
    (result, nodes3) ← work range_start range_end cores func_ptrs nodes2
    (open_fds', nodes4) ← unload_objects handles 0 open_fds nodes3
    some ((result, open_fds'), nodes4)
