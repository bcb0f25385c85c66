-- ===== src/Socket/Replies.antt =====
-- A response is its head, which states the size of the body, and the body.
use dicon.Base.{
  ℕ, ◌+◌, ◌<◌, ◌^◌, ◌≡◌, refl, false, some, List, [], ◌++◌, arith, length, append-nil,
  length-append,
}
use dicon.Wire.{Bytes}
use dicon.Socket.{Conn, dic_conn_recv}
use dicon.Socket.Recv.{stream}
use dicon.Socket.Open.{IsOpen, dic_conn_recv_whole, nil_of_stream}
use dicon.Protocol.Heads.{RespHead, encode_resp_head, length-encode_resp_head}

-- A response over a body.
abbrev pub reply : Bytes → Bytes
reply body = encode_resp_head (record { body_size = length body }) ++ body

pub length-reply : (body : Bytes) → length (reply body) ≡ 4 + length body
length-reply body = omega (
  arith,
  length-append (encode_resp_head (record { body_size = length body })) body,
  length-encode_resp_head (record { body_size = length body }),
)

-- The receiver's half: head and body are received from a stream that holds just a response.
pub receive_reply :
    (conn : Conn) (fd : ℕ) (body : Bytes)
    → conn.sockfd ≡ some fd
    → IsOpen conn.incoming
    → stream conn.incoming ≡ reply body
    → length body < 2 ^ 31
    → (left : List Bytes) × (dic_conn_recv conn 4 false ≡ record {
      res = 0;
      buffer = encode_resp_head (record { body_size = length body });
      conn = record conn { incoming = left };
    })
      × (dic_conn_recv (record conn { incoming = left }) (length body) false
          ≡ record { res = 0; buffer = body; conn = record conn { incoming = [] } })
receive_reply conn fd body open_ o e fits =
    let head : RespHead = record { body_size = length body } in
    let (left, got, remains, still) =
      dic_conn_recv_whole conn fd 4 (encode_resp_head head) body open_ (omega arith) e
        (length-encode_resp_head head) in
    let (left', got', remains', still') =
      dic_conn_recv_whole (record conn { incoming = left }) fd (length body) body [] open_ fits
        (rw append-nil remains) refl in
    let done : left' ≡ [] = nil_of_stream left' (still' (still o)) remains' in
    (left, got, rw (← done) got')
