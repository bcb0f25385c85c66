-- ===== src/Rpc/Copies.antt =====
-- `dic_memcpy_c2n` and `dic_memcpy_n2c` between a client and a node.
use dicon.Base.{
  ℕ, ◌+◌, ◌<◌, ◌≤◌, ◌^◌, ◌≡◌, ◌≢◌, refl, none, some, ◌++◌, arith, le→leb, lt→ltb, length, take,
  drop, take-append_at, length-append, length-take, take_all,
}
use dicon.Wire.{Bytes}
use dicon.Memory.{Memory, load_bytes, store_bytes}
use dicon.Memory.Access.{load_bytes-store_bytes, length-load_bytes, store_bytes-allocated}
use dicon.Platform.{Platform, Process}
use dicon.Protocol.{dic_memcpy_c2n, dic_memcpy_n2c}
use dicon.Protocol.CopyBodies.{
  ReqMemcpyC2n, encode_req_memcpy_c2n, decode_req_memcpy_c2n-encode_req_memcpy_c2n,
  length-encode_req_memcpy_c2n, RespMemcpyC2n, encode_resp_memcpy_c2n,
  decode_resp_memcpy_c2n-encode_resp_memcpy_c2n, length-encode_resp_memcpy_c2n, ReqMemcpyN2c,
  encode_req_memcpy_n2c, decode_req_memcpy_n2c-encode_req_memcpy_n2c, length-encode_req_memcpy_n2c,
  RespMemcpyN2c, encode_resp_memcpy_n2c, decode_resp_memcpy_n2c-encode_resp_memcpy_n2c,
  length-encode_resp_memcpy_n2c,
}
use dicon.Handlers.MemoryHandlers.{handle_memcpy_c2n, handle_memcpy_n2c}
use dicon.Node.{handler_of}
use dicon.Client.Transport.{Session}
use dicon.Client.MemoryCalls.{
  build_memcpy_c2n_req, build_memcpy_n2c_req, dic_memcpy_c2n_call, dic_memcpy_n2c_call,
}
use dicon.Rpc.{NodeEnd, Wire, node_peer, IsIdle}
use dicon.Rpc.Transparent.{reply, after_call, after_call-IsIdle}
use dicon.Rpc.Calls.{message, request-message, response-reply, call_handler}

module _ {Host : Type 0} (os : Platform Host) where
  handle_memcpy_c2n-stored :
      (req : ReqMemcpyC2n) (p : Process Host) {m : Memory}
      → req.dest < 2 ^ 64
      → length req.content ≡ req.data_size
      → req.data_size < 2 ^ 31
      → store_bytes req.content req.dest p.memory ≡ some m
      → handle_memcpy_c2n os (encode_req_memcpy_c2n req) p
        ≡ some (reply (encode_resp_memcpy_c2n (record { err = 0 })), record p { memory = m })
  unfolding handle_memcpy_c2n
  handle_memcpy_c2n-stored req p h_dest is fits stored =
      let got : RespMemcpyC2n = record { err = 0 } in
      let body = encode_req_memcpy_c2n req in
      let all : take req.data_size (req.content ++ os.slack (length body)) ≡ req.content =
        take-append_at req.data_size req.content (os.slack (length body)) is in
      let room =
        le→leb req.data_size (length (req.content ++ os.slack (length body)))
          (omega (arith, length-append req.content (os.slack (length body)))) in
      rw (
        decode_req_memcpy_c2n-encode_req_memcpy_c2n req h_dest (omega arith),
        room,
        all,
        stored,
        response-reply os 4 (encode_resp_memcpy_c2n got) (length-encode_resp_memcpy_c2n got)
            (omega arith),
      )

  handle_memcpy_n2c-loaded :
      (req : ReqMemcpyN2c) (p : Process Host) {bytes : Bytes}
      → req.src < 2 ^ 64
      → req.data_size < 2 ^ 30
      → load_bytes req.data_size req.src p.memory ≡ some bytes
      → handle_memcpy_n2c os (encode_req_memcpy_n2c req) p
        ≡ some (
          reply (encode_resp_memcpy_n2c (record { data_size = req.data_size; content = bytes })),
          p,
        )
  unfolding handle_memcpy_n2c
  handle_memcpy_n2c-loaded req p {bytes} h_src fits loaded =
      let got : RespMemcpyN2c = record { data_size = req.data_size; content = bytes } in
      let size : length (encode_resp_memcpy_n2c got) ≡ 4 + req.data_size = omega (
        arith,
        length-encode_resp_memcpy_n2c got,
        length-load_bytes req.data_size req.src p.memory bytes loaded,
      ) in
      rw (
        decode_req_memcpy_n2c-encode_req_memcpy_n2c req h_src (omega arith),
        loaded,
        response-reply os (4 + req.data_size) (encode_resp_memcpy_n2c got) size (omega arith),
      )

module _ {Host : Type 0} (slack : ℕ → Bytes) (os : Platform Host) (wire : Wire)
    (s : Session (NodeEnd Host)) (idle : IsIdle s) where
  abbrev before : Process Host
  before = s.world.process

  -- `dic_memcpy_c2n` writes the first `size` bytes of `local` to the node's memory at `remote` and returns
  -- 0. The conditions: both ends are idle, the size is less than 2^30, `local` has that many bytes, the
  -- address has 64 bits, and the addresses from it on are allocated on the node.
  pub dic_memcpy_c2n-store :
      (local : Bytes) (remote size : ℕ) (m : Memory)
      → remote < 2 ^ 64
      → size < 2 ^ 30
      → size ≤ length local
      → store_bytes (take size local) remote s.world.process.memory ≡ some m
      → dic_memcpy_c2n_call slack (node_peer os wire) local remote size s
        ≡ some (
          0,
          after_call s
              (message dic_memcpy_c2n (
                encode_req_memcpy_c2n
                  (record { dest = remote; data_size = size; content = take size local })))
              (reply (encode_resp_memcpy_c2n (record { err = 0 })))
              (record s.world.process { memory = m }),
        )
  unfolding dic_memcpy_c2n_call build_memcpy_c2n_req handler_of
  dic_memcpy_c2n-store local remote size m h_remote fits within stored =
      let req : ReqMemcpyC2n = record {
        dest = remote;
        data_size = size;
        content = take size local;
      } in
      let got : RespMemcpyC2n = record { err = 0 } in
      let body = encode_req_memcpy_c2n req in
      let taken : length (take size local) ≡ size = omega (arith, length-take size local) in
      let sized : length body ≡ 12 + size =
        omega (arith, length-encode_req_memcpy_c2n req, taken) in
      rw (
        lt→ltb size (2 ^ 31) (omega arith),
        le→leb size (length local) within,
        request-message slack dic_memcpy_c2n (12 + size) body sized (omega arith),
        call_handler os wire s dic_memcpy_c2n body (handle_memcpy_c2n os)
            (encode_resp_memcpy_c2n got) (record before { memory = m }) idle refl
            (handle_memcpy_c2n-stored os req before h_remote taken (omega arith) stored)
            (omega arith) (omega (arith, length-encode_resp_memcpy_c2n got)),
        decode_resp_memcpy_c2n-encode_resp_memcpy_c2n got (omega arith),
      )

  -- `dic_memcpy_n2c` puts the `size` bytes of the node's memory at `remote` at the front of the local
  -- buffer, leaves what follows there, changes nothing in the node's process, and returns 0. The conditions:
  -- both ends are idle, the size is less than 2^30, the local buffer has that many bytes, the address has 64
  -- bits, and the addresses from it on are allocated on the node.
  pub dic_memcpy_n2c-load :
      (local : Bytes) (remote size : ℕ) (bytes : Bytes)
      → remote < 2 ^ 64
      → size < 2 ^ 30
      → size ≤ length local
      → load_bytes size remote s.world.process.memory ≡ some bytes
      → dic_memcpy_n2c_call slack (node_peer os wire) local remote size s
        ≡ some (
          (0, bytes ++ drop size local),
          after_call s
              (message dic_memcpy_n2c
                (encode_req_memcpy_n2c (record { src = remote; data_size = size })))
              (reply (encode_resp_memcpy_n2c (record { data_size = size; content = bytes })))
              s.world.process,
        )
  unfolding dic_memcpy_n2c_call build_memcpy_n2c_req handler_of
  dic_memcpy_n2c-load local remote size bytes h_remote fits within loaded =
      let req : ReqMemcpyN2c = record { src = remote; data_size = size } in
      let got : RespMemcpyN2c = record { data_size = size; content = bytes } in
      let body = encode_req_memcpy_n2c req in
      let sized = length-load_bytes size remote before.memory bytes loaded in
      rw (
        request-message slack dic_memcpy_n2c 12 body (length-encode_req_memcpy_n2c req)
            (omega arith),
        call_handler os wire s dic_memcpy_n2c body (handle_memcpy_n2c os)
            (encode_resp_memcpy_n2c got) before idle refl
            (handle_memcpy_n2c-loaded os req before h_remote fits loaded)
            (omega (arith, length-encode_req_memcpy_n2c req))
            (omega (arith, length-encode_resp_memcpy_n2c got)),
        decode_resp_memcpy_n2c-encode_resp_memcpy_n2c got (omega arith),
        le→leb size (length bytes) (omega arith),
        le→leb size (length local) within,
        take_all size bytes (omega arith),
      )

-- What is copied to the node is what is copied back: after `dic_memcpy_c2n` of any bytes to allocated
-- memory, `dic_memcpy_n2c` of the same range puts those bytes at the front of the local buffer.
pub dic_memcpy_n2c-dic_memcpy_c2n :
    {Host : Type 0} (slack : ℕ → Bytes) (os : Platform Host) (wire : Wire)
    (s : Session (NodeEnd Host)) (bytes buffer : Bytes) (remote : ℕ)
    → IsIdle s
    → remote < 2 ^ 64
    → length bytes < 2 ^ 30
    → length bytes ≤ length buffer
    → ((q : ℕ) → remote ≤ q → q < remote + length bytes → s.world.process.memory.cell q ≢ none)
    → (after after' : Session (NodeEnd Host)) × (dic_memcpy_c2n_call slack
          (node_peer os wire)
          bytes
          remote
          (length bytes)
          s
        ≡ some (0, after))
      × (dic_memcpy_n2c_call slack (node_peer os wire) buffer remote (length bytes) after
          ≡ some ((0, bytes ++ drop (length bytes) buffer), after'))
dic_memcpy_n2c-dic_memcpy_c2n {Host = Host} slack os wire s bytes buffer remote idle h_remote fits
      room allocated =
    let all = take_all (length bytes) bytes (omega arith) in
    let (m, stored) = store_bytes-allocated bytes remote s.world.process.memory allocated in
    let p : Process Host = record s.world.process { memory = m } in
    let msg = message dic_memcpy_c2n (
      encode_req_memcpy_c2n (record {
        dest = remote;
        data_size = length bytes;
        content = take (length bytes) bytes;
      })) in
    let answered = reply (encode_resp_memcpy_c2n (record { err = 0 })) in
    (
      _,
      _,
      dic_memcpy_c2n-store slack os wire s idle bytes remote (length bytes) m h_remote fits
          (omega arith) (rw (all, stored)),
      dic_memcpy_n2c-load slack os wire (after_call s msg answered p)
          (after_call-IsIdle s msg answered p idle) buffer remote (length bytes) bytes h_remote fits
          room (load_bytes-store_bytes bytes remote s.world.process.memory stored),
    )
