-- ===== src/Demo/HelloWorld/Printed.antt =====
-- What demo/hello_world prints.
use dicon.Base.{
  ℕ, ◌+◌, ◌<◌, ◌≤◌, ◌^◌, ◌≡◌, ◌≢◌, refl, sym, some, [], ◌∷◌, ◌++◌, arith, length, drop,
}
use mathlib.Core.Path.{subst}
use dicon.Wire.{Bytes, ◌>>=◌}
use dicon.Memory.{Memory, malloc, store_bytes, allocate}
use dicon.Memory.Partial.{store_bytes-part, load_bytes-part, free-part, without_block}
use dicon.Platform.{Platform, Process, Allocates}
use dicon.Protocol.{dic_func_load, dic_run, dic_join, dic_memcpy_n2c, dic_free}
use dicon.Protocol.MemoryBodies.{encode_req_free, encode_resp_free}
use dicon.Protocol.CopyBodies.{encode_req_memcpy_n2c, encode_resp_memcpy_n2c}
use dicon.Protocol.FunctionBodies.{
  encode_req_func_load, encode_resp_func_load, encode_req_run, encode_resp_run, encode_req_join,
  encode_resp_join,
}
use dicon.Handlers.Reply.{c_string}
use dicon.Handlers.ObjectHandlers.{so_path, so_path_capacity}
use dicon.Client.Transport.{Session}
use dicon.Client.MemoryCalls.{dic_memcpy}
use dicon.Client.ThreadCalls.{dic_func_load_call}
use dicon.Rpc.{NodeEnd, Wire, node_peer, IsIdle}
use dicon.Rpc.Transparent.{reply, after_call, after_call-IsIdle}
use dicon.Rpc.Calls.{message}
use dicon.Rpc.MemoryOps.{dic_rfree-free}
use dicon.Rpc.Copies.{dic_memcpy_n2c-load}
use dicon.Rpc.Objects.{IsCString, after_load, dic_so_load-dlopen}
use dicon.Rpc.Threads.{
  dic_func_load-dlsym, dic_rthread_run-pthread_create, dic_rthread_join-pthread_join,
}
use dicon.Demo.HelloWorld.{hello_dicon_text, hello_dicon, hello_name, hello_symbol, hello_main}

abbrev text : Bytes
text = hello_dicon_text ++ 0 ∷ []

hello_name-IsCString : IsCString hello_name
hello_name-IsCString = (
  omega arith,
  (
    omega arith,
    (
      omega arith,
      (
        omega arith,
        (
          omega arith,
          (
            omega arith,
            (omega arith, (omega arith, (omega arith, (omega arith, (omega arith, tt))))),
          ),
        ),
      ),
    ),
  ),
)

read_text : (rest : Bytes) → c_string (text ++ rest) ≡ some hello_dicon_text
unfolding c_string
read_text rest = refl

hello_dicon-text :
    (junk : ℕ → ℕ) (place : ℕ) (m m2 : Memory)
    → place ≢ 0
    → store_bytes text place (allocate junk place 32 m) ≡ some m2
    → hello_dicon junk place m ≡ some (place, m2)
unfolding hello_dicon malloc
hello_dicon-text junk place m m2 given stored = ground (arith, given, stored)

-- The program prints what its function writes on the node: it opens the shared object there, finds the
-- function, runs it in a thread, joins that, and what it copies back starts with the text and its NUL.
-- The conditions: the connection is idle; the node has the object, and the function in it, and grants the
-- bytes that loading them takes beyond its blocks, as the client does; the thread that is created runs
-- `hello_dicon` until it is joined, and the node's allocator has a block for it; and `ret_local` has 32
-- bytes.
pub hello_main-printed :
    {Host : Type 0} (slack : ℕ → Bytes) (os : Platform Host) (wire : Wire)
    (s : Session (NodeEnd Host)) (ret_local : Bytes) (handle func tid : ℕ) (host : Host)
    (p : Process Host)
    → IsIdle s
    → Allocates os
    → 2 ≤ length (os.slack (so_path_capacity (length hello_name + 1)))
    → 1 ≤ length (slack (8 + (12 + length hello_symbol)))
    → c_string (hello_symbol ++ os.slack (12 + length hello_symbol)) ≡ some hello_symbol
    → os.dlopen (so_path hello_name) s.world.process.host ≡ (handle, host)
    → handle < 2 ^ 64
    → os.dlsym handle hello_symbol host ≡ func
    → func < 2 ^ 64
    → os.pthread_create func 0 (record s.world.process { host = host }) ≡ (tid, p)
    → tid < 2 ^ 64
    → os.place p.memory 32 ≢ 0
    → os.pthread_join tid p ≡ (
        hello_dicon os.junk (os.place p.memory 32) p.memory >>= λ ran.
        some (ran.0, record p { memory = ran.1 }))
    → length ret_local ≡ 32
    → (printed : Bytes) × (s' : Session (NodeEnd Host)) × (hello_main slack
          (node_peer os wire)
          ret_local
          s
        ≡ some (printed, s'))
      × (c_string printed ≡ some hello_dicon_text)
      × IsIdle s'
unfolding hello_main dic_memcpy
hello_main-printed slack os wire s ret_local handle func tid host p idle al path_granted granted
      nul_granted opened h_handle found h_func created h_tid given joined sized =
    let ret = os.place p.memory 32 in
    let addressable : ret < 2 ^ 64 = omega (arith, al.addressable p.memory 32 given) in
    let (m2, stored) = store_bytes-part os.junk ret 32 text p.memory (omega arith) in
    let (rest, loaded) =
      load_bytes-part os.junk ret 32 text p.memory (omega arith) 19 32 m2 refl (omega arith)
        stored in
    let freed = free-part os.junk ret 32 text p.memory (omega arith) m2 given stored in
    let ran : os.pthread_join tid p ≡ some (ret, record p { memory = m2 }) =
      rw (joined, hello_dicon-text os.junk ret p.memory m2 given stored) in
    let s1 = after_load slack os wire s idle hello_name handle host in
    let idle1 : IsIdle s1 = after_call-IsIdle s _ _ _ idle in
    let asked : Bytes = message dic_func_load (
      encode_req_func_load
        (record { so_handle = handle; symlen = length hello_symbol; symbol = hello_symbol })) in
    let s2 =
      after_call s1 asked (reply (encode_resp_func_load (record { func_ptr = func })))
        s1.world.process in
    let looked_up : dic_func_load_call slack (node_peer os wire) handle hello_symbol s1
        ≡ some (func, s2) =
      subst
        (λ f.
          dic_func_load_call slack (node_peer os wire) handle hello_symbol s1
          ≡ some (
            f,
            after_call s1 asked (reply (encode_resp_func_load (record { func_ptr = f })))
                s1.world.process,
          ))
        found
        (dic_func_load-dlsym slack os wire s1 idle1 handle hello_symbol hello_symbol h_handle
          (omega arith) granted nul_granted (subst (λ f. f < 2 ^ 64) (sym found) h_func)) in
    let idle2 : IsIdle s2 = after_call-IsIdle s1 _ _ _ idle1 in
    let s3 =
      after_call s2 (message dic_run (encode_req_run (record { func_ptr = func; args_ptr = 0 })))
        (reply (encode_resp_run (record { tid = tid }))) p in
    let idle3 : IsIdle s3 = after_call-IsIdle s2 _ _ _ idle2 in
    let s4 =
      after_call s3 (message dic_join (encode_req_join (record { tid = tid })))
        (reply (encode_resp_join (record { ret_ptr = ret }))) (record p { memory = m2 }) in
    let idle4 : IsIdle s4 = after_call-IsIdle s3 _ _ _ idle3 in
    let s5 =
      after_call s4
        (message dic_memcpy_n2c (encode_req_memcpy_n2c (record { src = ret; data_size = 32 })))
        (reply (encode_resp_memcpy_n2c (record { data_size = 32; content = text ++ rest })))
        (record p { memory = m2 }) in
    let idle5 : IsIdle s5 = after_call-IsIdle s4 _ _ _ idle4 in
    (
      (text ++ rest) ++ drop 32 ret_local,
      after_call s5 (message dic_free (encode_req_free (record { void_ptr = ret })))
          (reply (encode_resp_free (record { err = 0 })))
          (record p { memory = without_block ret 32 m2 }),
      rw (
        dic_so_load-dlopen slack os wire s idle hello_name handle host hello_name-IsCString
            (omega arith) path_granted h_handle opened,
        looked_up,
        dic_rthread_run-pthread_create slack os wire s2 idle2 func 0 tid p h_func (omega arith)
            h_tid created,
        dic_rthread_join-pthread_join slack os wire s3 idle3 tid ret (record p { memory = m2 })
            h_tid addressable ran,
        dic_memcpy_n2c-load slack os wire s4 idle4 ret_local ret 32 (text ++ rest) addressable
            (omega arith) (omega (arith, sized)) loaded,
        dic_rfree-free slack os wire s5 idle5 ret (without_block ret 32 m2) addressable freed,
      ),
      read_text (rest ++ drop 32 ret_local),
      after_call-IsIdle s5 _ _ _ idle5,
    )
