-- ===== src/Demo/PrimesClient/Start.antt =====
-- The threads that the client starts on its nodes.
use dicon.Base.{
  ℕ, suc, ◌<◌, ◌^◌, ◌≡◌, ◌≢◌, Option, some, List, [], ◌∷◌, ◌++◌, arith, length, length-append, take,
  take_all,
}
use mathlib.Core.Path.{subst}
use dicon.Wire.{Bytes, le_bytes}
use dicon.Wire.Fields.{length-le_bytes}
use dicon.Memory.{Memory, store_bytes, allocate}
use dicon.Memory.Fresh.{store_bytes-fresh}
use dicon.Platform.{Platform, Process, Allocates}
use dicon.Protocol.{dic_malloc, dic_memcpy_c2n, dic_run}
use dicon.Protocol.MemoryBodies.{encode_req_malloc, encode_resp_malloc}
use dicon.Protocol.CopyBodies.{encode_req_memcpy_c2n, encode_resp_memcpy_c2n}
use dicon.Protocol.FunctionBodies.{encode_req_run, encode_resp_run}
use dicon.Client.Transport.{Session}
use dicon.Client.MemoryCalls.{dic_rmalloc, dic_memcpy}
use dicon.Client.ThreadCalls.{dic_rthread_run}
use dicon.Client.Devices.{Nodes, on-append, rmalloc, memcpy, rthread_run}
use dicon.Rpc.{NodeEnd, Wire, node_peer, IsIdle}
use dicon.Rpc.Transparent.{reply, after_call, after_call-IsIdle}
use dicon.Rpc.Calls.{message}
use dicon.Rpc.MemoryOps.{dic_rmalloc-malloc}
use dicon.Rpc.Copies.{dic_memcpy_c2n-store}
use dicon.Rpc.Threads.{dic_rthread_run-pthread_create}
use dicon.Rpc.Lifecycle.{granted_block}
use dicon.Demo.PrimesClient.{encode_args, start_thread}
use dicon.Demo.PrimesClient.Worker.{Job, Worker, Runs}

pub length-encode_args : (start end : ℕ) → length (encode_args start end) ≡ 16
unfolding encode_args
length-encode_args start end = omega (
  arith,
  length-append (le_bytes 8 start) (le_bytes 8 end),
  length-le_bytes 8 start,
  length-le_bytes 8 end,
)

module _ {Host : Type 0} (os : Platform Host) (al : Allocates os) where
  -- Bytes fit the block that the node's allocator gives for as many.
  pub args_stored :
      (bytes : Bytes) (n : ℕ) (m : Memory)
      → length bytes ≡ n
      → os.place m n ≢ 0
      → (m' : Memory) × (store_bytes bytes (os.place m n) (allocate os.junk (os.place m n) n m)
          ≡ some m')
  args_stored bytes n m size given =
      let (m', m'', stored, freed, same) =
        store_bytes-fresh os.junk (os.place m n) bytes m given
          (λ q from to. al.unused m n given q from (omega (arith, to, size))) in
      (
        m',
        subst
            (λ k. store_bytes bytes (os.place m n) (allocate os.junk (os.place m n) k m) ≡ some m')
            size stored,
      )

module _ {Host : Type 0} (slack : ℕ → Bytes) (os : Platform Host) (wire : Wire) (al : Allocates os)
    (local : ℕ → Bytes) {task : ℕ → ℕ → Option (List ℕ)} (func : ℕ)
    {Holds : Process Host → ℕ → List Job → Type 0} (worker : Worker os task func Holds) where
  -- The body of the loop over the cores starts a job on its node, and no other node is touched.
  pub start_thread-Runs :
      {fd : ℕ} (left right : Nodes (NodeEnd Host)) (s : Session (NodeEnd Host)) (room : ℕ)
      (jobs : List Job) (start end : ℕ)
      → Runs Holds fd (suc room) jobs s
      → start < 2 ^ 64
      → end < 2 ^ 64
      → (tid : ℕ) × (s' : Session (NodeEnd Host)) × Runs Holds fd room
          (jobs ++ (tid, start, end) ∷ [])
          s'
        × (start_thread slack
              (node_peer os wire)
              local
              (length left)
              (record { ptr = func; device = length left })
              (start, end)
              (left ++ s ∷ right)
            ≡ some (record { tid = tid; device = length left }, left ++ s' ∷ right))
  unfolding start_thread rmalloc memcpy rthread_run dic_memcpy
  start_thread-Runs left right s room jobs start end runs start_fits end_fits =
      let m = s.world.process.memory in
      let r = os.place m 16 in
      let idle = runs.idle in
      let args = encode_args start end in
      let (given, creates) =
        worker.started s.world.process room jobs start end runs.held start_fits end_fits in
      let addressable : r < 2 ^ 64 = omega (arith, al.addressable m 16 given) in
      let got = granted_block os 16 m (omega arith) given in
      let (m2, stored) = args_stored os al args 16 m (length-encode_args start end) given in
      let (tid, p3, created, tid_fits, held) = creates m2 stored in
      let s1 =
        after_call s (message dic_malloc (encode_req_malloc (record { size = 16 })))
          (reply (encode_resp_malloc (record { mem_address = r })))
          (record s.world.process { memory = allocate os.junk r 16 m }) in
      let idle1 : IsIdle s1 = after_call-IsIdle s _ _ _ idle in
      let s2 =
        after_call s1
          (message dic_memcpy_c2n
            (encode_req_memcpy_c2n (record { dest = r; data_size = 16; content = take 16 args })))
          (reply (encode_resp_memcpy_c2n (record { err = 0 })))
          (record s.world.process { memory = m2 }) in
      let idle2 : IsIdle s2 = after_call-IsIdle s1 _ _ _ idle1 in
      let s3 =
        after_call s2 (message dic_run (encode_req_run (record { func_ptr = func; args_ptr = r })))
          (reply (encode_resp_run (record { tid = tid }))) p3 in
      let allocated : dic_rmalloc slack (node_peer os wire) 16 s ≡ some (r, s1) =
        rw (dic_rmalloc-malloc slack os wire s idle 16 al (omega arith), got) in
      let size = length-encode_args start end in
      let whole : take 16 args ≡ args = take_all 16 args (omega (arith, size)) in
      let copied : dic_memcpy slack (node_peer os wire) args r 16 0 s1 ≡ some ((0, args), s2) = rw (
        dic_memcpy_c2n-store slack os wire s1 idle1 args r 16 m2 addressable (omega arith)
          (omega (arith, size)) (rw (whole, stored))) in
      let run : dic_rthread_run slack (node_peer os wire) func r s2 ≡ some (tid, s3) =
        dic_rthread_run-pthread_create slack os wire s2 idle2 func r tid p3 worker.func_fits
          addressable tid_fits created in
      (
        tid,
        s3,
        record { idle = after_call-IsIdle s2 _ _ _ idle2; open_ = runs.open_; held = held },
        rw (
          on-append (dic_rmalloc slack (node_peer os wire) 16) left right allocated,
          on-append (dic_memcpy slack (node_peer os wire) args r 16 0) left right copied,
          on-append (dic_rthread_run slack (node_peer os wire) func r) left right run,
        ),
      )
