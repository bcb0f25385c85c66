-- ===== src/Node/Announce.antt =====
-- node/src/node_main_communication.c: the node tells the main server that it is there.
use dicon.Base.{ℕ, some, ◌++◌, false, leb, length}
use dicon.Wire.{le_bytes, get_field, ◌>>=◌, ◌>>◌, guard}
use dicon.Socket.{dic_conn_recv, dic_conn_send}
use dicon.Protocol.Heads.{ReqHead, encode_req_head, decode_resp_head}
use dicon.Client.Transport.{Peer, Call}

-- The head of the announcement: DIC_ANNOUNCE_INFO, over the number of cores.
abbrev pub announce_head : ReqHead
announce_head = record { operation = 0; version = 1; body_size = 4 }

-- `cores` is what `sysconf` answers, as the bit pattern of an `int`; the result is `res_body.error`, as
-- its bit pattern. Both messages are sent before the server acts. The response is received into a
-- structure of four bytes: what goes beyond that is a fault.
unfoldable pub notify_main_server : {World : Type 0} → Peer World → ℕ → Call World ℕ
notify_main_server peer cores s = do
  let body = le_bytes 4 cores
  let head_sent = dic_conn_send s.conn (encode_req_head announce_head) 8
  let body_sent = dic_conn_send head_sent body 4
  (segments, world) ← peer (encode_req_head announce_head ++ body) s.world
  let head_got =
      dic_conn_recv (record body_sent { incoming = body_sent.incoming ++ segments }) 4 false
  head ← decode_resp_head head_got.buffer
  let body_got = dic_conn_recv head_got.conn head.body_size false
  guard (leb (length body_got.buffer) 4)
  (error, rest) ← get_field 4 body_got.buffer
  some (error, record { conn = body_got.conn; world = world })
