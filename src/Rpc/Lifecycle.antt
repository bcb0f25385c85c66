-- ===== src/Rpc/Lifecycle.antt =====
-- The life of a remote buffer, as in demo/mem_manipulation/comm_tst.c.
use dicon.Base.{ℕ, ◌<◌, ◌≤◌, ◌^◌, ◌≡◌, ◌≢◌, some, ◌++◌, arith, length, take, drop, take_all}
use dicon.Wire.{Bytes}
use dicon.Memory.{Memory, malloc, allocate}
use dicon.Memory.Access.{load_bytes-store_bytes}
use dicon.Memory.Fresh.{store_bytes-fresh}
use dicon.Platform.{Platform, Allocates}
use dicon.Protocol.{dic_malloc, dic_memcpy_c2n, dic_memcpy_n2c}
use dicon.Protocol.MemoryBodies.{encode_req_malloc, encode_resp_malloc}
use dicon.Protocol.CopyBodies.{
  encode_req_memcpy_c2n, encode_resp_memcpy_c2n, encode_req_memcpy_n2c, encode_resp_memcpy_n2c,
}
use dicon.Client.Transport.{Session}
use dicon.Client.MemoryCalls.{dic_rmalloc, dic_rfree, dic_memcpy_c2n_call, dic_memcpy_n2c_call}
use dicon.Rpc.{NodeEnd, Wire, node_peer, IsIdle}
use dicon.Rpc.Transparent.{reply, after_call, after_call-IsIdle}
use dicon.Rpc.Calls.{message}
use dicon.Rpc.MemoryOps.{granted, dic_rmalloc-malloc, dic_rfree-free}
use dicon.Rpc.Copies.{dic_memcpy_c2n-store, dic_memcpy_n2c-load}

pub granted_block :
    {Host : Type 0} (os : Platform Host) (size : ℕ) (m : Memory)
    → size ≢ 0
    → os.place m size ≢ 0
    → granted os size m ≡ (os.place m size, allocate os.junk (os.place m size) size m)
unfolding malloc
granted_block os size m some_size given = ground (arith, some_size, given)

-- A buffer on a node works as one in the client: where the node's allocator has a block for it,
-- `dic_rmalloc` returns the address of that block, the bytes that `dic_memcpy_c2n` copies there are
-- those that `dic_memcpy_n2c` copies back, `dic_rfree` returns 0, and then each address of the node
-- holds what it held before, so no other client's data is touched. The conditions: both ends are idle,
-- and the buffer is not empty and is shorter than 2^30 bytes.
pub remote_buffer :
    {Host : Type 0} (slack : ℕ → Bytes) (os : Platform Host) (wire : Wire)
    (s : Session (NodeEnd Host)) (bytes buffer : Bytes)
    → IsIdle s
    → Allocates os
    → length bytes ≢ 0
    → length bytes < 2 ^ 30
    → length bytes ≤ length buffer
    → os.place s.world.process.memory (length bytes) ≢ 0
    → let p = os.place s.world.process.memory (length bytes) in
      (s1 s2 s3 s4 : Session (NodeEnd Host)) × (dic_rmalloc slack
          (node_peer os wire)
          (length bytes)
          s
        ≡ some (p, s1))
      × (dic_memcpy_c2n_call slack (node_peer os wire) bytes p (length bytes) s1 ≡ some (0, s2))
      × (dic_memcpy_n2c_call slack (node_peer os wire) buffer p (length bytes) s2
          ≡ some ((0, bytes ++ drop (length bytes) buffer), s3))
      × (dic_rfree slack (node_peer os wire) p s3 ≡ some (0, s4))
      × ((q : ℕ) → s4.world.process.memory.cell q ≡ s.world.process.memory.cell q)
remote_buffer {Host = Host} slack os wire s bytes buffer idle al filled fits room given =
    let n = length bytes in
    let m = s.world.process.memory in
    let p = os.place m n in
    let addressable : p < 2 ^ 64 = omega (arith, al.addressable m n given) in
    let got = granted_block os n m filled given in
    let (m2, m3, stored, freed, same) =
      store_bytes-fresh os.junk p bytes m given (λ q from to. al.unused m n given q from to) in
    let s1 =
      after_call s (message dic_malloc (encode_req_malloc (record { size = n })))
        (reply (encode_resp_malloc (record { mem_address = p })))
        (record s.world.process { memory = allocate os.junk p n m }) in
    let idle1 : IsIdle s1 = after_call-IsIdle s _ _ _ idle in
    let s2 =
      after_call s1
        (message dic_memcpy_c2n
          (encode_req_memcpy_c2n (record { dest = p; data_size = n; content = take n bytes })))
        (reply (encode_resp_memcpy_c2n (record { err = 0 })))
        (record s.world.process { memory = m2 }) in
    let idle2 : IsIdle s2 = after_call-IsIdle s1 _ _ _ idle1 in
    let s3 =
      after_call s2
        (message dic_memcpy_n2c (encode_req_memcpy_n2c (record { src = p; data_size = n })))
        (reply (encode_resp_memcpy_n2c (record { data_size = n; content = bytes })))
        (record s.world.process { memory = m2 }) in
    (
      s1,
      s2,
      s3,
      _,
      rw (dic_rmalloc-malloc slack os wire s idle n al (omega arith), got),
      dic_memcpy_c2n-store slack os wire s1 idle1 bytes p n m2 addressable fits (omega arith)
          (rw (take_all n bytes (omega arith), stored)),
      dic_memcpy_n2c-load slack os wire s2 idle2 buffer p n bytes addressable fits room
          (load_bytes-store_bytes bytes p (allocate os.junk p n m) stored),
      dic_rfree-free slack os wire s3 (after_call-IsIdle s2 _ _ _ idle2) p m3 addressable freed,
      same,
    )
