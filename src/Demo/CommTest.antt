-- ===== src/Demo/CommTest.antt =====
-- demo/mem_manipulation/comm_tst.c: a string goes to a node and back.
use dicon.Base.{ℕ, ◌<◌, ◌^◌, ◌≡◌, ◌≢◌, refl, none, some, [], ◌∷◌, ◌++◌, arith, length, take, drop}
use dicon.Wire.{Bytes, ◌>>=◌}
use dicon.Memory.{allocate}
use dicon.Memory.Partial.{store_bytes-part, load_bytes-part, free-part, without_block}
use dicon.Platform.{Platform, Allocates}
use dicon.Protocol.{dic_malloc, dic_free, dic_memcpy_c2n, dic_memcpy_n2c}
use dicon.Protocol.MemoryBodies.{
  encode_req_malloc, encode_resp_malloc, encode_req_free, encode_resp_free,
}
use dicon.Protocol.CopyBodies.{
  encode_req_memcpy_c2n, encode_resp_memcpy_c2n, encode_req_memcpy_n2c, encode_resp_memcpy_n2c,
}
use dicon.Handlers.Reply.{c_string}
use dicon.Client.Transport.{Peer, Call, Session}
use dicon.Client.MemoryCalls.{dic_rmalloc, dic_memcpy, dic_rfree}
use dicon.Rpc.{NodeEnd, Wire, node_peer, IsIdle}
use dicon.Rpc.Transparent.{reply, after_call, after_call-IsIdle}
use dicon.Rpc.Calls.{message}
use dicon.Rpc.MemoryOps.{dic_rmalloc-malloc, dic_rfree-free}
use dicon.Rpc.Copies.{dic_memcpy_c2n-store, dic_memcpy_n2c-load}
use dicon.Rpc.Lifecycle.{granted_block}

abbrev pub hello : Bytes
hello = b'h' ∷ b'e' ∷ b'l' ∷ b'l' ∷ b'o' ∷ b' ' ∷ b'w' ∷ b'o' ∷ b'r' ∷ b'l' ∷ b'd' ∷ []

-- `test`, with its NUL.
abbrev pub test : Bytes
test = hello ++ 0 ∷ []

-- `main`, on a connection that is established; `test2` is what that array holds at first. The result is
-- what it holds when it is printed.
unfoldable pub comm_test :
    (slack : ℕ → Bytes) {World : Type 0} (peer : Peer World) (test2 : Bytes) → Call World Bytes
comm_test slack peer test2 s = do
  (rtest, s1) ← dic_rmalloc slack peer 32 s
  (copied, s2) ← dic_memcpy slack peer test rtest 12 0 s1
  (back, s3) ← dic_memcpy slack peer test2 rtest 30 1 s2
  (freed, s4) ← dic_rfree slack peer rtest s3
  some (back.1, s4)

read_back : (rest : Bytes) → c_string (test ++ rest) ≡ some hello
unfolding c_string
read_back rest = refl

-- The program prints "hello world": the string that it sends to a node comes back with its NUL, before
-- what else the node's block held, and the block is freed. The conditions: the connection is idle, the
-- node's allocator gives a free addressable block, and `test2` has 32 bytes.
pub comm_test-hello :
    {Host : Type 0} (slack : ℕ → Bytes) (os : Platform Host) (wire : Wire)
    (s : Session (NodeEnd Host)) (test2 : Bytes)
    → IsIdle s
    → Allocates os
    → length test2 ≡ 32
    → os.place s.world.process.memory 32 ≢ 0
    → (printed : Bytes) × (s' : Session (NodeEnd Host)) × (comm_test slack
          (node_peer os wire)
          test2
          s
        ≡ some (printed, s'))
      × (c_string printed ≡ some hello)
      × (s'.world.process.memory.block (os.place s.world.process.memory 32) ≡ none)
      × IsIdle s'
unfolding comm_test dic_memcpy
comm_test-hello slack os wire s test2 idle al sized given =
    let m = s.world.process.memory in
    let p = os.place m 32 in
    let m1 = allocate os.junk p 32 m in
    let peer = node_peer os wire in
    let addressable : p < 2 ^ 64 = omega (arith, al.addressable m 32 given) in
    let (m2, stored) = store_bytes-part os.junk p 32 test m (omega arith) in
    let (rest, loaded) =
      load_bytes-part os.junk p 32 test m (omega arith) 18 30 m2 refl (omega arith) stored in
    let m4 = without_block p 32 m2 in
    let freed = free-part os.junk p 32 test m (omega arith) m2 given stored in
    let s1 =
      after_call s (message dic_malloc (encode_req_malloc (record { size = 32 })))
        (reply (encode_resp_malloc (record { mem_address = p })))
        (record s.world.process { memory = m1 }) in
    let idle1 : IsIdle s1 = after_call-IsIdle s _ _ _ idle in
    let s2 =
      after_call s1
        (message dic_memcpy_c2n
          (encode_req_memcpy_c2n (record { dest = p; data_size = 12; content = take 12 test })))
        (reply (encode_resp_memcpy_c2n (record { err = 0 })))
        (record s.world.process { memory = m2 }) in
    let idle2 : IsIdle s2 = after_call-IsIdle s1 _ _ _ idle1 in
    let s3 =
      after_call s2
        (message dic_memcpy_n2c (encode_req_memcpy_n2c (record { src = p; data_size = 30 })))
        (reply (encode_resp_memcpy_n2c (record { data_size = 30; content = test ++ rest })))
        (record s.world.process { memory = m2 }) in
    let idle3 : IsIdle s3 = after_call-IsIdle s2 _ _ _ idle2 in
    (
      (test ++ rest) ++ drop 30 test2,
      after_call s3 (message dic_free (encode_req_free (record { void_ptr = p })))
          (reply (encode_resp_free (record { err = 0 }))) (record s.world.process { memory = m4 }),
      rw (
        dic_rmalloc-malloc slack os wire s idle 32 al (omega arith),
        granted_block os 32 m (omega arith) given,
        dic_memcpy_c2n-store slack os wire s1 idle1 test p 12 m2 addressable (omega arith)
            (omega arith) stored,
        dic_memcpy_n2c-load slack os wire s2 idle2 test2 p 30 (test ++ rest) addressable
            (omega arith) (omega (arith, sized)) loaded,
        dic_rfree-free slack os wire s3 idle3 p m4 addressable freed,
      ),
      read_back (rest ++ drop 30 test2),
      ground arith,
      after_call-IsIdle s3 _ _ _ idle3,
    )
