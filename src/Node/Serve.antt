-- ===== src/Node/Serve.antt =====
-- The node serves the request that is on the stream, whatever the segments.
use dicon.Base.{◌⊎◌, inl, inr, none, ℕ, ◌+◌, ◌<◌, ◌^◌, ◌≡◌, some, List, ◌++◌, arith, le→leb, length}
use dicon.Wire.{Bytes}
use dicon.Socket.{Conn}
use dicon.Socket.Recv.{stream}
use dicon.Socket.Open.{IsOpen, dic_conn_recv_whole}
use dicon.Platform.{Platform, Process}
use dicon.Protocol.{dic_so_verify, operation_of}
use dicon.Protocol.Heads.{
  ReqHead, encode_req_head, decode_req_head-encode_req_head, length-encode_req_head,
}
use dicon.Node.{handler_of, answer, receive_body, dic_node_recv_send}

-- A head whose fields fit, over a body of the size that it states.
pub record IsRequest (head : ReqHead) (body : Bytes) : Type 0 where
  pub operation : head.operation < 2 ^ 16
  pub version : head.version < 2 ^ 16
  pub body_size : head.body_size < 2 ^ 31
  pub length_body : length body ≡ head.body_size

module _ {Host : Type 0} (os : Platform Host) (conn : Conn) (fd : ℕ) (open_ : conn.sockfd ≡ some fd)
    (p : Process Host) where
  receive_body-answer :
      (head : ReqHead) (body rest : Bytes)
      → IsRequest head body
      → stream conn.incoming ≡ body ++ rest
      → (left : List Bytes) × (receive_body os head conn p
          ≡ answer os
              (handler_of os (operation_of head.operation))
              body
              (record conn { incoming = left })
              p)
        × (stream left ≡ rest)
        × (IsOpen conn.incoming → IsOpen left)
  unfolding receive_body
  receive_body-answer head body rest is e =
      let (left, got, remains, still) =
        dic_conn_recv_whole conn fd head.body_size body rest open_ is.body_size e is.length_body in
      let room =
        le→leb (length body) (head.body_size + length (os.slack head.body_size))
          (omega (arith, is.length_body)) in
      (left, rw (got, room), remains, still)

-- Where a well-formed request stands at the front of the stream, in whatever segments,
-- `dic_node_recv_send` reads exactly that request, answers it by the handler of its operation, and
-- leaves what follows on the stream; no segment that is left is empty if none was.
pub dic_node_recv_send-answer :
    {Host : Type 0} (os : Platform Host) (conn : Conn) (fd : ℕ) (p : Process Host) (head : ReqHead)
    (body rest : Bytes)
    → conn.sockfd ≡ some fd
    → IsRequest head body
    → stream conn.incoming ≡ encode_req_head head ++ (body ++ rest)
    → (left : List Bytes) × (dic_node_recv_send os conn p
        ≡ answer os
            (handler_of os (operation_of head.operation))
            body
            (record conn { incoming = left })
            p)
      × (stream left ≡ rest)
      × (IsOpen conn.incoming → IsOpen left)
unfolding dic_node_recv_send
dic_node_recv_send-answer os conn fd p head body rest open_ is e =
    let (left, got, remains, still) =
      dic_conn_recv_whole conn fd 8 (encode_req_head head) (body ++ rest) open_ (omega arith) e
        (length-encode_req_head head) in
    let (left', answered, remains', still') =
      receive_body-answer os (record conn { incoming = left }) fd open_ p head body rest is
        remains in
    (
      left',
      rw (
        got,
        decode_req_head-encode_req_head head is.operation is.version (omega (arith, is.body_size)),
        answered,
      ),
      remains',
      λ o. still' (still o),
    )

-- A well-formed request with the operation DIC_SO_VERIFY, or with a value that is no operation, is
-- read and gets no response: `dic_node_recv_send` returns 0, has sent nothing, and the process is as it was.
pub dic_node_recv_send-unanswered :
    {Host : Type 0} (os : Platform Host) (conn : Conn) (fd : ℕ) (p : Process Host) (head : ReqHead)
    (body rest : Bytes)
    → conn.sockfd ≡ some fd
    → IsRequest head body
    → (operation_of head.operation ≡ some dic_so_verify) ⊎ (operation_of head.operation ≡ none)
    → stream conn.incoming ≡ encode_req_head head ++ (body ++ rest)
    → (left : List Bytes) × (dic_node_recv_send os conn p
        ≡ some (record { res = 0; conn = record conn { incoming = left }; process = p }))
      × (stream left ≡ rest)
unfolding handler_of answer
dic_node_recv_send-unanswered os conn fd p head body rest open_ is odd e =
    let (left, served, remains, _) =
      dic_node_recv_send-answer os conn fd p head body rest open_ is e in
    elim odd [
      | inl verify ↦ (left, rw (served, verify), remains)
      | inr unknown ↦ (left, rw (served, unknown), remains)
    ]
