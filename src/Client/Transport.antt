-- ===== src/Client/Transport.antt =====
-- REQ_BUILDER_INIT, REQ_BUILDER_SET_HEAD and REQ_BUILDER_RET, and `dic_atomic_send_recv`.
use dicon.Base.{ℕ, ◌+◌, ◌-◌, ◌%◌, ◌^◌, Option, some, List, ◌++◌, false, ltb, leb, length, take}
use dicon.Wire.{Bytes, ◌>>=◌, ◌>>◌, guard}
use dicon.Socket.{Conn, dic_conn_recv, dic_conn_send}
use dicon.Protocol.{Operation, code}
use dicon.Protocol.Heads.{ReqHead, encode_req_head, decode_resp_head}

-- A connection, and the state of the peer at its other end.
pub record Session (World : Type 0) : Type 0 where
  pub conn : Conn
  pub world : World

-- What the peer does with a message: the segments that it sends. `none` where it crashes.
abbrev pub Peer : Type 0 → Type 0
Peer World = Bytes → World → Option (List Bytes × World)

-- A call on a session; `none` is undefined behaviour, on either side.
abbrev pub Call : Type 0 → Type 0 → Type 0
Call World A = Session World → Option (A × Session World)

-- A request whose structure and flexible array take `size` bytes, with `body` written into it.
-- `slack` is what the client's allocator grants behind a request of `n` bytes. The `int` that holds the
-- length must not be negative, and the writes must stay in the block.
unfoldable pub request : (ℕ → Bytes) → Operation → ℕ → Bytes → Option Bytes
request slack operation size body = do
  let msg_len = (8 + size) % 2 ^ 32
  guard (ltb msg_len (2 ^ 31))
  guard (leb (8 + length body) (msg_len + length (slack msg_len)))
  let head : ReqHead = record {
    operation = code operation;
    version = 0;
    body_size = (msg_len + 2 ^ 32 - 8) % 2 ^ 32;
  }
  some (take msg_len (encode_req_head head ++ body))

module _ {World : Type 0} (peer : Peer World) where
  -- The body of the answer. Between the send and the receive the peer acts. The result of
  -- `dic_conn_recv` is not looked at: bytes that did not arrive are not there to be read.
  unfoldable pub dic_atomic_send_recv : Bytes → Call World Bytes
  dic_atomic_send_recv msg s = do
    let sent = dic_conn_send s.conn msg (length msg)
    (segments, world) ← peer msg s.world
    let head_got = dic_conn_recv (record sent { incoming = sent.incoming ++ segments }) 4 false
    head ← decode_resp_head head_got.buffer
    let body_got = dic_conn_recv head_got.conn head.body_size false
    guard (leb (length body_got.buffer) head.body_size)
    some (body_got.buffer, record { conn = body_got.conn; world = world })
