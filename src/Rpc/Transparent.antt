-- ===== src/Rpc/Transparent.antt =====
-- A call over the wire is the handler on the node.
use dicon.Base.{
  ℕ, ◌+◌, ◌<◌, ◌^◌, ◌≡◌, refl, some, [], ◌++◌, arith, le→leb, length, append-nil, length-append,
}
use dicon.Wire.{Bytes}
use dicon.Socket.{Conn}
use dicon.Socket.Replies.{receive_reply}
pub use dicon.Socket.Replies.{reply}
use dicon.Socket.Recv.{stream}
use dicon.Socket.Send.{dic_conn_send_whole}
use dicon.Socket.Open.{nil_of_stream}
use dicon.Platform.{Platform, Process}
use dicon.Protocol.{operation_of}
use dicon.Protocol.Heads.{
  ReqHead, RespHead, encode_req_head, encode_resp_head, decode_resp_head-encode_resp_head,
  length-encode_resp_head, length-encode_req_head,
}
use dicon.Handlers.Reply.{Handler}
use dicon.Node.{handler_of, answer}
use dicon.Node.Serve.{IsRequest, dic_node_recv_send-answer}
use dicon.Client.Transport.{Session, dic_atomic_send_recv}
use dicon.Rpc.{NodeEnd, Wire, node_peer, IsIdle}

-- The session after a call: the message is sent, the answer is read, and nothing is under way.
abbrev pub after_call :
    {Host : Type 0} → Session (NodeEnd Host) → Bytes → Bytes → Process Host → Session (NodeEnd Host)
after_call s msg answered p = record {
  conn = record s.conn { incoming = []; sent = s.conn.sent ++ msg };
  world = record { conn = record s.world.conn { incoming = []; sent = answered }; process = p };
}

pub after_call-IsIdle :
    {Host : Type 0} (s : Session (NodeEnd Host)) (msg answered : Bytes) (p : Process Host)
    → IsIdle s
    → IsIdle (after_call s msg answered p)
after_call-IsIdle s msg answered p idle = record {
  client_fd = idle.client_fd;
  client_open = idle.client_open;
  client_done = refl;
  node_fd = idle.node_fd;
  node_open = idle.node_open;
  node_done = refl;
}

module _ {Host : Type 0} (os : Platform Host) (wire : Wire) where
  -- The node's round on a request that its handler answers.
  node_peer-reply :
      (w : NodeEnd Host) (fd : ℕ) (head : ReqHead) (body : Bytes) (handler : Handler Host)
      (answered : Bytes) (p : Process Host)
      → w.conn.sockfd ≡ some fd
      → w.conn.incoming ≡ []
      → IsRequest head body
      → handler_of os (operation_of head.operation) ≡ some handler
      → handler body w.process ≡ some (answered, p)
      → length answered < 2 ^ 31
      → node_peer os wire (encode_req_head head ++ body) w
        ≡ some (
          wire.cut answered,
          record { conn = record w.conn { incoming = []; sent = answered }; process = p },
        )
  unfolding node_peer answer
  node_peer-reply w fd head body handler answered p open_ waiting is chosen handled fits =
      let msg = encode_req_head head ++ body in
      let arriving : Conn = record w.conn {
        incoming = w.conn.incoming ++ wire.cut msg;
        sent = [];
      } in
      let e : stream arriving.incoming ≡ encode_req_head head ++ (body ++ []) =
        rw (waiting, wire.whole msg, append-nil) in
      let (left, served, remains, still) =
        dic_node_recv_send-answer os arriving fd w.process head body [] open_ is e in
      let done : left ≡ [] = nil_of_stream left (still (rw waiting (wire.no_end msg))) remains in
      rw (
        served,
        chosen,
        handled,
        dic_conn_send_whole (record arriving { incoming = left }) fd answered open_ fits,
        done,
      )

  -- Between an idle client and an idle node a call is transparent: for every request, `dic_atomic_send_recv`
  -- returns the body that the handler of its operation answers on the node's process, the process is
  -- as the handler leaves it, and both ends are idle again, however TCP cuts the bytes. The conditions:
  -- the request is well formed, and the two messages are shorter than 2^31 bytes.
  pub dic_atomic_send_recv-handler :
      (s : Session (NodeEnd Host)) (head : ReqHead) (body : Bytes) (handler : Handler Host)
      (answered : Bytes) (p : Process Host)
      → IsIdle s
      → IsRequest head body
      → handler_of os (operation_of head.operation) ≡ some handler
      → handler body s.world.process ≡ some (reply answered, p)
      → length body + 8 < 2 ^ 31
      → length answered + 4 < 2 ^ 31
      → dic_atomic_send_recv (node_peer os wire) (encode_req_head head ++ body) s
        ≡ some (answered, after_call s (encode_req_head head ++ body) (reply answered) p)
  unfolding dic_atomic_send_recv
  dic_atomic_send_recv-handler s head body handler answered p idle is chosen handled fits fits' =
      let msg = encode_req_head head ++ body in
      let resp : RespHead = record { body_size = length answered } in
      let msg_fits : length msg < 2 ^ 31 =
        omega (arith, length-append (encode_req_head head) body, length-encode_req_head head) in
      let reply_fits : length (reply answered) < 2 ^ 31 =
        omega
          (arith, length-append (encode_resp_head resp) answered, length-encode_resp_head resp) in
      let conn : Conn = record s.conn {
        incoming = s.conn.incoming ++ wire.cut (reply answered);
        sent = s.conn.sent ++ msg;
      } in
      let (left, got, got') =
        receive_reply conn idle.client_fd answered idle.client_open
          (rw idle.client_done (wire.no_end (reply answered)))
          (rw (idle.client_done, wire.whole (reply answered))) (omega arith) in
      rw (
        dic_conn_send_whole s.conn idle.client_fd msg idle.client_open msg_fits,
        node_peer-reply s.world idle.node_fd head body handler (reply answered) p idle.node_open
            idle.node_done is chosen handled reply_fits,
        got,
        decode_resp_head-encode_resp_head resp (omega arith),
        got',
        le→leb (length answered) (length answered) (omega arith),
      )
