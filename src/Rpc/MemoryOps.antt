-- ===== src/Rpc/MemoryOps.antt =====
-- `dic_rmalloc`, `dic_rrealloc` and `dic_rfree` between a client and a node.
use dicon.Base.{ℕ, ◌<◌, ◌^◌, ◌≡◌, refl, inl, inr, Bool-cases, some, arith, ◌==◌, if◌then◌else◌}
use dicon.Wire.{Bytes}
use dicon.Memory.{Memory, malloc, realloc, free}
use dicon.Platform.{Platform, Process, Allocates}
use dicon.Protocol.{dic_malloc, dic_realloc, dic_free}
use dicon.Protocol.MemoryBodies.{
  ReqMalloc, encode_req_malloc, decode_req_malloc-encode_req_malloc, length-encode_req_malloc,
  RespMalloc, encode_resp_malloc, decode_resp_malloc-encode_resp_malloc, length-encode_resp_malloc,
  ReqRealloc, encode_req_realloc, decode_req_realloc-encode_req_realloc, length-encode_req_realloc,
  RespRealloc, encode_resp_realloc, decode_resp_realloc-encode_resp_realloc,
  length-encode_resp_realloc, ReqFree, encode_req_free, decode_req_free-encode_req_free,
  length-encode_req_free, RespFree, encode_resp_free, decode_resp_free-encode_resp_free,
  length-encode_resp_free,
}
use dicon.Handlers.MemoryHandlers.{handle_malloc, handle_realloc, handle_free}
use dicon.Node.{handler_of}
use dicon.Client.Transport.{Session}
use dicon.Client.MemoryCalls.{
  build_rmalloc_req, build_rrealloc_req, build_rfree_req, dic_rmalloc, dic_rrealloc, dic_rfree,
}
use dicon.Rpc.{NodeEnd, Wire, node_peer, IsIdle}
use dicon.Rpc.Transparent.{reply, after_call}
use dicon.Rpc.Calls.{message, request-message, response-reply, call_handler}

-- What the node does for `dic_rmalloc`: nothing for 0 bytes.
abbrev pub granted : {Host : Type 0} → Platform Host → ℕ → Memory → ℕ × Memory
granted os size m = if size == 0 then (0, m) else malloc os.junk (os.place m size) size m

granted_addressable :
    {Host : Type 0} (os : Platform Host) (size : ℕ) (m : Memory)
    → Allocates os
    → (granted os size m).0 < 2 ^ 64
unfolding malloc
granted_addressable os size m al = elim (Bool-cases (os.place m size == 0)) [
  | inl null ↦ ground (arith, null)
  | inr given ↦
      let addressable = al.addressable m size (ground (arith, given)) in
      ground (arith, given, addressable)
]

module _ {Host : Type 0} (os : Platform Host) where
  handle_malloc-granted :
      (size : ℕ) (p : Process Host)
      → Allocates os
      → size < 2 ^ 32
      → handle_malloc os (encode_req_malloc (record { size = size })) p
        ≡ some (
          reply (encode_resp_malloc (record { mem_address = (granted os size p.memory).0 })),
          record p { memory = (granted os size p.memory).1 },
        )
  unfolding handle_malloc
  handle_malloc-granted size p al fits = elim (Bool-cases (size == 0)) [
    | inl nothing ↦ rw (
      decode_req_malloc-encode_req_malloc (record { size = size }) fits,
      nothing,
      response-reply os 8 (encode_resp_malloc (record { mem_address = 0 }))
          (length-encode_resp_malloc (record { mem_address = 0 })) (omega arith),
    )
    | inr something ↦
        let got : RespMalloc = record {
          mem_address = (malloc os.junk (os.place p.memory size) size p.memory).0;
        } in
        rw (
          decode_req_malloc-encode_req_malloc (record { size = size }) fits,
          something,
          response-reply os 8 (encode_resp_malloc got) (length-encode_resp_malloc got)
              (omega arith),
        )
  ]

  handle_realloc-moved :
      (ptr size : ℕ) (p : Process Host) {q : ℕ} {m : Memory}
      → ptr < 2 ^ 64
      → size < 2 ^ 32
      → realloc os.junk (os.replace p.memory ptr size) ptr size p.memory ≡ some (q, m)
      → handle_realloc os (encode_req_realloc (record { void_ptr = ptr; size = size })) p
        ≡ some (reply (encode_resp_realloc (record { mem_address = q })), record p { memory = m })
  unfolding handle_realloc
  handle_realloc-moved ptr size p {q} h_ptr h_size done =
      let got : RespRealloc = record { mem_address = q } in
      rw (
        decode_req_realloc-encode_req_realloc (record { void_ptr = ptr; size = size }) h_ptr h_size,
        done,
        response-reply os 8 (encode_resp_realloc got) (length-encode_resp_realloc got)
            (omega arith),
      )

  pub handle_free-freed :
      (ptr : ℕ) (p : Process Host) {m : Memory}
      → ptr < 2 ^ 64
      → free ptr p.memory ≡ some m
      → handle_free os (encode_req_free (record { void_ptr = ptr })) p
        ≡ some (reply (encode_resp_free (record { err = 0 })), record p { memory = m })
  unfolding handle_free
  handle_free-freed ptr p h_ptr done =
      let got : RespFree = record { err = 0 } in
      rw (
        decode_req_free-encode_req_free (record { void_ptr = ptr }) h_ptr,
        done,
        response-reply os 1 (encode_resp_free got) (length-encode_resp_free got) (omega arith),
      )

module _ {Host : Type 0} (slack : ℕ → Bytes) (os : Platform Host) (wire : Wire)
    (s : Session (NodeEnd Host)) (idle : IsIdle s) where
  abbrev before : Process Host
  before = s.world.process

  -- `dic_rmalloc` is `malloc` on the node: for every size it returns the address that the node's
  -- allocator picks, or NULL for size 0, and the node's memory is as after that allocation. The
  -- conditions: both ends are idle, and the allocator gives addressable blocks.
  pub dic_rmalloc-malloc :
      (size : ℕ)
      → Allocates os
      → size < 2 ^ 32
      → let got = granted os size s.world.process.memory in
        dic_rmalloc slack (node_peer os wire) size s
        ≡ some (
          got.0,
          after_call s
              (message dic_malloc (encode_req_malloc (record { size = size })))
              (reply (encode_resp_malloc (record { mem_address = got.0 })))
              (record s.world.process { memory = got.1 }),
        )
  unfolding dic_rmalloc build_rmalloc_req handler_of
  dic_rmalloc-malloc size al fits =
      let req : ReqMalloc = record { size = size } in
      let got : RespMalloc = record { mem_address = (granted os size before.memory).0 } in
      rw (
        request-message slack dic_malloc 4 (encode_req_malloc req) (length-encode_req_malloc req)
            (omega arith),
        call_handler os wire s dic_malloc (encode_req_malloc req) (handle_malloc os)
            (encode_resp_malloc got) (record before { memory = (granted os size before.memory).1 })
            idle refl (handle_malloc-granted os size before al fits)
            (omega (arith, length-encode_req_malloc req))
            (omega (arith, length-encode_resp_malloc got)),
        decode_resp_malloc-encode_resp_malloc got (granted_addressable os size before.memory al),
      )

  -- `dic_rrealloc` is `realloc` on the node, wherever that is defined.
  pub dic_rrealloc-realloc :
      (ptr size q : ℕ) (m : Memory)
      → ptr < 2 ^ 64
      → size < 2 ^ 32
      → q < 2 ^ 64
      → realloc os.junk (os.replace s.world.process.memory ptr size) ptr size s.world.process.memory
        ≡ some (q, m)
      → dic_rrealloc slack (node_peer os wire) ptr size s
        ≡ some (
          q,
          after_call s
              (message dic_realloc (encode_req_realloc (record { void_ptr = ptr; size = size })))
              (reply (encode_resp_realloc (record { mem_address = q })))
              (record s.world.process { memory = m }),
        )
  unfolding dic_rrealloc build_rrealloc_req handler_of
  dic_rrealloc-realloc ptr size q m h_ptr h_size h_q done =
      let req : ReqRealloc = record { void_ptr = ptr; size = size } in
      let got : RespRealloc = record { mem_address = q } in
      rw (
        request-message slack dic_realloc 12 (encode_req_realloc req)
            (length-encode_req_realloc req) (omega arith),
        call_handler os wire s dic_realloc (encode_req_realloc req) (handle_realloc os)
            (encode_resp_realloc got) (record before { memory = m }) idle refl
            (handle_realloc-moved os ptr size before h_ptr h_size done)
            (omega (arith, length-encode_req_realloc req))
            (omega (arith, length-encode_resp_realloc got)),
        decode_resp_realloc-encode_resp_realloc got h_q,
      )

  -- `dic_rfree` is `free` on the node, wherever that is defined, and returns 0.
  pub dic_rfree-free :
      (ptr : ℕ) (m : Memory)
      → ptr < 2 ^ 64
      → free ptr s.world.process.memory ≡ some m
      → dic_rfree slack (node_peer os wire) ptr s
        ≡ some (
          0,
          after_call s
              (message dic_free (encode_req_free (record { void_ptr = ptr })))
              (reply (encode_resp_free (record { err = 0 })))
              (record s.world.process { memory = m }),
        )
  unfolding dic_rfree build_rfree_req handler_of
  dic_rfree-free ptr m h_ptr done =
      let req : ReqFree = record { void_ptr = ptr } in
      let got : RespFree = record { err = 0 } in
      rw (
        request-message slack dic_free 8 (encode_req_free req) (length-encode_req_free req)
            (omega arith),
        call_handler os wire s dic_free (encode_req_free req) (handle_free os)
            (encode_resp_free got) (record before { memory = m }) idle refl
            (handle_free-freed os ptr before h_ptr done) (omega (arith, length-encode_req_free req))
            (omega (arith, length-encode_resp_free got)),
        decode_resp_free-encode_resp_free got (omega arith),
      )
