-- ===== src/Node/Loop.antt =====
-- `client_handling_loop` on the requests of a client that then hangs up.
use dicon.Base.{
  ℕ, suc, ◌<◌, ◌^◌, ◌≡◌, sym, ◌∙◌, false, none, some, List, [], ◌∷◌, ◌++◌, append_assoc, append-nil,
  arith, length,
}
use dicon.Wire.{Bytes}
use dicon.Socket.{Conn}
use dicon.Socket.Recv.{stream, dic_conn_recv_ended}
use dicon.Socket.Send.{dic_conn_send_whole}
use dicon.Platform.{Platform, Process}
use dicon.Protocol.{operation_of}
use dicon.Protocol.Heads.{ReqHead, encode_req_head}
use dicon.Handlers.Reply.{Handler}
use dicon.Node.{handler_of, answer, dic_node_recv_send, client_handling_loop}
use dicon.Node.Serve.{IsRequest, dic_node_recv_send-answer}

pub record Request : Type 0 where
  pub head : ReqHead
  pub body : Bytes

-- The requests as they follow each other on the stream.
abbrev pub requests : List Request → Bytes
requests [] = []
requests (r ∷ rs) = encode_req_head r.head ++ (r.body ++ requests rs)

-- What a node should do: answer each request in order, each on the process that the last one left.
-- An operation without a handler is passed over.
pub data Serves {Host : Type 0} (os : Platform Host)
    : List Request → Process Host → Bytes → Process Host → Type 0 where
  finished : {p : Process Host} → Serves os [] p [] p
  answered :
      (r : Request) {rs : List Request} {p p' p'' : Process Host} {out : Bytes}
      (handler : Handler Host) (msg : Bytes)
      → IsRequest r.head r.body
      → handler_of os (operation_of r.head.operation) ≡ some handler
      → handler r.body p ≡ some (msg, p')
      → length msg < 2 ^ 31
      → Serves os rs p' out p''
      → Serves os (r ∷ rs) p (msg ++ out) p''
  passed_over :
      (r : Request) {rs : List Request} {p p' : Process Host} {out : Bytes}
      → IsRequest r.head r.body
      → handler_of os (operation_of r.head.operation) ≡ none
      → Serves os rs p out p'
      → Serves os (r ∷ rs) p out p'

module _ {Host : Type 0} (os : Platform Host) where
  -- A round that answers.
  round_answered :
      (conn : Conn) (fd : ℕ) (p p' : Process Host) (r : Request) (rest : Bytes)
      (handler : Handler Host) (msg : Bytes)
      → conn.sockfd ≡ some fd
      → stream conn.incoming ≡ encode_req_head r.head ++ (r.body ++ rest)
      → IsRequest r.head r.body
      → handler_of os (operation_of r.head.operation) ≡ some handler
      → handler r.body p ≡ some (msg, p')
      → length msg < 2 ^ 31
      → (left : List Bytes) × (dic_node_recv_send os conn p
          ≡ some (record {
            res = 0;
            conn = record conn { incoming = left; sent = conn.sent ++ msg };
            process = p';
          }))
        × (stream left ≡ rest)
  unfolding answer
  round_answered conn fd p p' r rest handler msg open_ e is chosen handled fits =
      let (left, served, remains, _) =
        dic_node_recv_send-answer os conn fd p r.head r.body rest open_ is e in
      (
        left,
        rw (
          served,
          chosen,
          handled,
          dic_conn_send_whole (record conn { incoming = left }) fd msg open_ fits,
        ),
        remains,
      )

  -- A round at the end of the stream.
  round_ended :
      (conn : Conn) (fd : ℕ) (p : Process Host)
      → conn.sockfd ≡ some fd
      → stream conn.incoming ≡ []
      → (left : List Bytes) × (dic_node_recv_send os conn p
          ≡ some (record {
            res = 1;
            conn = record conn { sockfd = none; incoming = left };
            process = p;
          }))
  unfolding dic_node_recv_send
  round_ended conn fd p open_ e =
      let (left, got) =
        dic_conn_recv_ended conn fd 8 open_ (omega arith) false (rw e (omega arith)) in
      (left, rw got)

  -- Where the client has sent requests, in whatever segments, and hung up, `client_handling_loop` ends
  -- after one round more than there are requests, with result 1: the node has done for each request
  -- in turn what its handler does, and has sent exactly their answers, in order. The condition: the
  -- requests are well formed, none makes the node crash, and the answers are shorter than 2^31 bytes.
  pub client_handling_loop-Serves :
      (rs : List Request) (conn : Conn) (fd : ℕ) (p p' : Process Host) (out : Bytes)
      → Serves os rs p out p'
      → conn.sockfd ≡ some fd
      → stream conn.incoming ≡ requests rs
      → (last : Conn) × (client_handling_loop os (suc (length rs)) conn p
          ≡ some (some (record { res = 1; conn = last; process = p' })))
        × (last.sent ≡ conn.sent ++ out)
  unfolding client_handling_loop answer
  client_handling_loop-Serves [] conn fd p p' out finished open_ e =
      let (left, ended) = round_ended conn fd p open_ e in
      (
        record conn { sockfd = none; incoming = left },
        rw (client_handling_loop, ended),
        sym (append-nil conn.sent),
      )
  client_handling_loop-Serves (r ∷ rs) conn fd p p' _
        (answered _ handler msg is chosen handled fits serves) open_ e =
      let (left, round, remains) =
        round_answered conn fd p _ r (requests rs) handler msg open_ e is chosen handled fits in
      let (last, looped, sent) =
        client_handling_loop-Serves rs (record conn { incoming = left; sent = conn.sent ++ msg }) fd
          _ p' _ serves open_ remains in
      (last, rw (client_handling_loop, round, looped), sent ∙ append_assoc conn.sent msg _)
  client_handling_loop-Serves (r ∷ rs) conn fd p p' out (passed_over _ is chosen serves) open_ e =
      let (left, served, remains, _) =
        dic_node_recv_send-answer os conn fd p r.head r.body (requests rs) open_ is e in
      let (last, looped, sent) =
        client_handling_loop-Serves rs (record conn { incoming = left }) fd p p' out serves open_
          remains in
      (last, rw (client_handling_loop, served, chosen, looped), sent)
