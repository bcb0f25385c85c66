-- ===== src/Demo/CrackClient/Unset.antt =====
-- The hash that the threads of demo/hash-cracker are to find.
use dicon.Base.{
  ℕ, ◌+◌, ◌<◌, ◌≤◌, ◌^◌, ◌≡◌, ◌≢◌, refl, ◌∙◌, inl, inr, some, ◌∷◌, ◌++◌, arith, length,
  length-append, take, take_all,
}
use mathlib.Core.Path.{subst}
use dicon.Wire.{Bytes, le_bytes}
use dicon.Wire.Fields.{length-le_bytes}
use dicon.Memory.{Memory, load_bytes, store_bytes, allocate}
use dicon.Memory.Access.{load_bytes-store_bytes, store_bytes-outside}
use dicon.Memory.Fresh.{within-cases, allocate-outside, allocated_junk}
use dicon.Platform.{Platform, Process, Allocates}
use dicon.Protocol.{code, dic_malloc, dic_memcpy_c2n, dic_run}
use dicon.Protocol.MemoryBodies.{encode_req_malloc, encode_resp_malloc}
use dicon.Protocol.CopyBodies.{encode_req_memcpy_c2n, encode_resp_memcpy_c2n}
use dicon.Protocol.FunctionBodies.{encode_req_run, encode_resp_run}
use dicon.Client.Transport.{Peer, Session}
use dicon.Client.MemoryCalls.{dic_rmalloc, dic_memcpy}
use dicon.Client.ThreadCalls.{dic_rthread_run}
use dicon.Client.Devices.{Nodes, on-append, rmalloc, memcpy, rthread_run}
use dicon.Rpc.{NodeEnd, Wire, node_peer, IsIdle}
use dicon.Rpc.Transparent.{reply, after_call, after_call-IsIdle}
use dicon.Rpc.Calls.{message}
use dicon.Rpc.MemoryOps.{dic_rmalloc-malloc}
use dicon.Rpc.Copies.{dic_memcpy_c2n-store}
use dicon.Rpc.Threads.{dic_rthread_run-pthread_create}
use dicon.Rpc.Lifecycle.{granted_block}
use dicon.Demo.PrimesClient.Start.{args_stored}
use dicon.Demo.CrackClient.{encode_crack_args, start_cracker}

length-encode_crack_args : (start end hash : ℕ) → length (encode_crack_args start end hash) ≡ 24
unfolding encode_crack_args
length-encode_crack_args start end hash = omega (
  arith,
  length-append (le_bytes 8 start) (le_bytes 8 end ++ le_bytes 8 hash),
  length-append (le_bytes 8 end) (le_bytes 8 hash),
  length-le_bytes 8 start,
  length-le_bytes 8 end,
  length-le_bytes 8 hash,
)

-- The number of an operation is no mode.
operation-none :
    (slack : ℕ → Bytes) {World : Type 0} (peer : Peer World) (local : Bytes) (remote size : ℕ)
    (s : Session World)
    → dic_memcpy slack peer local remote size (code dic_memcpy_c2n) s ≡ some ((1, local), s)
unfolding dic_memcpy code
operation-none slack peer local remote size s = refl

module _ {Host : Type 0} (slack : ℕ → Bytes) (os : Platform Host) (wire : Wire) (al : Allocates os)
    (local : ℕ → Bytes) (target_hash : Bytes) where
  -- A second block leaves the bytes of the first one, whatever is stored in it.
  second_apart :
      (m m2 : Memory) (bytes : Bytes) (q : ℕ)
      → let h = os.place m 16 in
        let m1 = allocate os.junk h 16 m in
        let r = os.place m1 24 in
        r ≢ 0
        → length bytes ≡ 24
        → store_bytes bytes r (allocate os.junk r 24 m1) ≡ some m2
        → h ≤ q
        → q < h + 16
        → m2.cell q ≡ some (os.junk q)
  second_apart m m2 bytes q given size stored from to =
      let h = os.place m 16 in
      let m1 = allocate os.junk h 16 m in
      let r = os.place m1 24 in
      let held : m1.cell q ≡ some (os.junk q) = allocated_junk os.junk h 16 m q from to in
      elim (within-cases r 24 q) [
        | inl (inside, low, high) ↦
            let free = al.unused m1 24 given q low high in absurd (ground (arith, held, free))
        | inr (apart, outside) ↦
            store_bytes-outside bytes r (allocate os.junk r 24 m1) q (ground (arith, outside, size))
              stored
            ∙ allocate-outside os.junk r 24 m1 q outside
            ∙ held
      ]

  -- The hash never reaches the node: `main` copies it by a mode that `dic_memcpy` does not know, so that, when the
  -- thread is created, its arguments are in the node's memory and point to a block that holds what
  -- `malloc` left there. The conditions: the connection is idle, the node's allocator gives free
  -- addressable blocks for the hash and for the arguments, and a thread's identity has 64 bits.
  pub start_cracker-junk :
      (left right : Nodes (NodeEnd Host)) (s : Session (NodeEnd Host)) (func start end : ℕ)
      → IsIdle s
      → func < 2 ^ 64
      → os.place s.world.process.memory 16 ≢ 0
      → os.place
          (allocate os.junk (os.place s.world.process.memory 16) 16 s.world.process.memory)
          24
        ≢ 0
      → ((arg : ℕ) (p : Process Host) → (os.pthread_create func arg p).0 < 2 ^ 64)
      → let h = os.place s.world.process.memory 16 in
        let r = os.place (allocate os.junk h 16 s.world.process.memory) 24 in
        (m : Memory) × (s' : Session (NodeEnd Host)) × (load_bytes 24 r m
          ≡ some (encode_crack_args start end h))
        × ((q : ℕ) → h ≤ q → q < h + 16 → m.cell q ≡ some (os.junk q))
        × (s'.world.process ≡ (os.pthread_create func r (record s.world.process { memory = m })).1)
        × (start_cracker slack
              (node_peer os wire)
              local
              target_hash
              (length left)
              (record { ptr = func; device = length left })
              (start, end)
              (left ++ s ∷ right)
            ≡ some (
              record {
                tid = (os.pthread_create func r (record s.world.process { memory = m })).0;
                device = length left;
              },
              left ++ s' ∷ right,
            ))
  unfolding start_cracker rmalloc memcpy rthread_run dic_memcpy
  start_cracker-junk left right s func start end idle func_fits given given2 tids =
      let m = s.world.process.memory in
      let h = os.place m 16 in
      let m1 = allocate os.junk h 16 m in
      let r = os.place m1 24 in
      let args = encode_crack_args start end h in
      let peer = node_peer os wire in
      let size = length-encode_crack_args start end h in
      let addressable : r < 2 ^ 64 = omega (arith, al.addressable m1 24 given2) in
      let (m2, stored) = args_stored os al args 24 m1 size given2 in
      let created = os.pthread_create func r (record s.world.process { memory = m2 }) in
      let s1 =
        after_call s (message dic_malloc (encode_req_malloc (record { size = 16 })))
          (reply (encode_resp_malloc (record { mem_address = h })))
          (record s.world.process { memory = m1 }) in
      let idle1 : IsIdle s1 = after_call-IsIdle s _ _ _ idle in
      let s2 =
        after_call s1 (message dic_malloc (encode_req_malloc (record { size = 24 })))
          (reply (encode_resp_malloc (record { mem_address = r })))
          (record s.world.process { memory = allocate os.junk r 24 m1 }) in
      let idle2 : IsIdle s2 = after_call-IsIdle s1 _ _ _ idle1 in
      let s3 =
        after_call s2
          (message dic_memcpy_c2n
            (encode_req_memcpy_c2n (record { dest = r; data_size = 24; content = take 24 args })))
          (reply (encode_resp_memcpy_c2n (record { err = 0 })))
          (record s.world.process { memory = m2 }) in
      let idle3 : IsIdle s3 = after_call-IsIdle s2 _ _ _ idle2 in
      let s4 =
        after_call s3 (message dic_run (encode_req_run (record { func_ptr = func; args_ptr = r })))
          (reply (encode_resp_run (record { tid = created.0 }))) created.1 in
      let for_hash : dic_rmalloc slack peer 16 s ≡ some (h, s1) = rw (
        dic_rmalloc-malloc slack os wire s idle 16 al (omega arith),
        granted_block os 16 m (omega arith) given,
      ) in
      let not_copied = operation-none slack peer target_hash h 16 s1 in
      let for_args : dic_rmalloc slack peer 24 s1 ≡ some (r, s2) = rw (
        dic_rmalloc-malloc slack os wire s1 idle1 24 al (omega arith),
        granted_block os 24 m1 (omega arith) given2,
      ) in
      let whole : take 24 args ≡ args = take_all 24 args (omega (arith, size)) in
      let copied : dic_memcpy slack peer args r 24 0 s2 ≡ some ((0, args), s3) = rw (
        dic_memcpy_c2n-store slack os wire s2 idle2 args r 24 m2 addressable (omega arith)
          (omega (arith, size)) (rw (whole, stored))) in
      let run : dic_rthread_run slack peer func r s3 ≡ some (created.0, s4) =
        dic_rthread_run-pthread_create slack os wire s3 idle3 func r created.0 created.1 func_fits
          addressable (tids r (record s.world.process { memory = m2 })) refl in
      (
        m2,
        s4,
        subst (λ n. load_bytes n r m2 ≡ some args) size
            (load_bytes-store_bytes args r (allocate os.junk r 24 m1) stored),
        λ q from to. second_apart m m2 args q given2 size stored from to,
        refl,
        rw (
          on-append (dic_rmalloc slack peer 16) left right for_hash,
          on-append (dic_memcpy slack peer target_hash h 16 (code dic_memcpy_c2n)) left right
              not_copied,
          on-append (dic_rmalloc slack peer 24) left right for_args,
          on-append (dic_memcpy slack peer args r 24 0) left right copied,
          on-append (dic_rthread_run slack peer func r) left right run,
        ),
      )
