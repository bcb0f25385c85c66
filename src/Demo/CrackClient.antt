-- ===== src/Demo/CrackClient.antt =====
-- demo/hash-cracker/main.c, `main`, from where the client is connected to its nodes. It is the code of
-- demo/find-primes/main.c but for the arguments of a thread, which point to a hash on the node.
pub mod Unset
use dicon.Base.{
  ℕ, zero, suc, ◌+◌, ◌-◌, ◌^◌, false, Option, none, some, List, [], ◌∷◌, ◌++◌, ltb, leb, ◌==◌,
  length, if◌then◌else◌,
}
use dicon.Wire.{Bytes, le_bytes, ◌>>=◌, ◌>>◌, guard}
use dicon.Protocol.{code, dic_memcpy_c2n}
use dicon.Client.Transport.{Peer}
use dicon.Client.Devices.{RvoidPtr, Rthread, OnNodes, rmalloc, memcpy, rthread_run}
use dicon.Demo.Work.{total_cores, int_div, part}
use dicon.Demo.PrimesClient.{load_objects, load_functions, collect, unload_objects}

-- `CrackArgs`.
unfoldable pub encode_crack_args : (start_index end_index target_hash : ℕ) → Bytes
encode_crack_args start_index end_index target_hash =
    le_bytes 8 start_index ++ (le_bytes 8 end_index ++ le_bytes 8 target_hash)

abbrev pub cracker_name : Bytes
cracker_name = b'c' ∷ b'r' ∷ b'a' ∷ b'c' ∷ b'k' ∷ b'e' ∷ b'r' ∷ []

abbrev pub cracker_symbol : Bytes
cracker_symbol =
    b'c' ∷ b'r' ∷ b'a' ∷ b'c' ∷ b'k' ∷ b'_' ∷ b't' ∷ b'h' ∷ b'r' ∷ b'e' ∷ b'a' ∷ b'd' ∷ []

module _ (slack : ℕ → Bytes) {World : Type 0} (peer : Peer World) (local : ℕ → Bytes)
    (target_hash : Bytes) where
  -- The body of the loop over the cores of the node at `node_i`. The mode of the first `dic_memcpy` is
  -- the number of an operation of the protocol.
  unfoldable pub start_cracker : ℕ → RvoidPtr → ℕ × ℕ → OnNodes World Rthread
  start_cracker node_i func_ptr (start, end) nodes = do
    (remote_target_hash, nodes1) ← rmalloc slack peer node_i 16 nodes
    (hash_copied, nodes2) ←
        memcpy slack peer target_hash remote_target_hash 16 (code dic_memcpy_c2n) nodes1
    (r_args, nodes3) ← rmalloc slack peer node_i 24 nodes2
    (copied, nodes4) ←
        memcpy slack peer (encode_crack_args start end remote_target_hash.ptr) r_args 24 0 nodes3
    rthread_run slack peer func_ptr r_args nodes4

  module _ (range_start range_end total range_size : ℕ) where
    unfoldable pub start_crack_cores :
        (cores node_i thread_i : ℕ) → RvoidPtr → OnNodes World (List Rthread)
    start_crack_cores zero node_i thread_i func_ptr nodes = some ([], nodes)
    start_crack_cores (suc cores) node_i thread_i func_ptr nodes = do
      (thread, nodes1) ←
          start_cracker node_i func_ptr (part range_start range_end total range_size thread_i) nodes
      (rthreads, nodes2) ← start_crack_cores cores node_i (thread_i + 1) func_ptr nodes1
      some (thread ∷ rthreads, nodes2)

    unfoldable pub start_crack_nodes :
        List ℕ → List RvoidPtr → (node_i thread_i : ℕ) → OnNodes World (List Rthread)
    start_crack_nodes [] func_ptrs node_i thread_i nodes = some ([], nodes)
    start_crack_nodes (c ∷ cores) [] node_i thread_i nodes = none
    start_crack_nodes (c ∷ cores) (func_ptr ∷ func_ptrs) node_i thread_i nodes = do
      (rthreads, nodes1) ← start_crack_cores c node_i thread_i func_ptr nodes
      (rthreads', nodes2) ← start_crack_nodes cores func_ptrs (node_i + 1) (thread_i + c) nodes1
      some (rthreads ++ rthreads', nodes2)

  -- RANGE_START and RANGE_END are 1 and 100000000. The array of threads is as in find-primes.
  unfoldable pub crack_main : Option Bytes → List ℕ → List ℕ → OnNodes World ((ℕ × Bytes) × List ℕ)
  crack_main so_file cores open_fds nodes = do
    (handles, nodes1) ← load_objects slack peer local cracker_name so_file (length cores) 0 nodes
    (func_ptrs, nodes2) ← load_functions slack peer local cracker_symbol handles nodes1
    let total = total_cores cores
    guard (if total == 0 then false else ltb total (2 ^ 31))
    let range_size = int_div (100000000 - 1) total
    (rthreads, nodes3) ← start_crack_nodes 1 100000000 total range_size cores func_ptrs 0 0 nodes2
    guard (leb (length rthreads) total)
    (result, nodes4) ← collect slack peer local total rthreads 0 [] nodes3
    (open_fds', nodes5) ← unload_objects slack peer local handles 0 open_fds nodes4
    some ((result, open_fds'), nodes5)
