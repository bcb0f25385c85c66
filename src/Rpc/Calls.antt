-- ===== src/Rpc/Calls.antt =====
-- What REQ_BUILDER and RESP_BUILDER make of a body of the stated size, and a call by its operation.
use dicon.Base.{
  ℕ, ◌+◌, ◌-◌, ◌%◌, ◌<◌, ◌≤◌, ◌^◌, ◌≡◌, refl, some, ◌++◌, arith, le→leb, lt→ltb, length, take_all,
  take-append_at, length-append, append_assoc,
}
use dicon.Wire.{Bytes}
use dicon.Platform.{Platform, Process}
use dicon.Protocol.{Operation, code, code-lt, operation_of-code}
use dicon.Protocol.Heads.{
  ReqHead, encode_req_head, encode_resp_head, length-encode_req_head, length-encode_resp_head,
}
use dicon.Handlers.Reply.{Handler, response}
use dicon.Node.{handler_of}
use dicon.Client.Transport.{Session, request, dic_atomic_send_recv}
use dicon.Rpc.{NodeEnd, Wire, node_peer, IsIdle}
use dicon.Rpc.Transparent.{reply, after_call, dic_atomic_send_recv-handler}

abbrev pub head_of : Operation → Bytes → ReqHead
head_of operation body = record { operation = code operation; version = 0; body_size = length body }

-- The message of a request.
abbrev pub message : Operation → Bytes → Bytes
message operation body = encode_req_head (head_of operation body) ++ body

pub request-message :
    (slack : ℕ → Bytes) (operation : Operation) (size : ℕ) (body : Bytes)
    → length body ≡ size
    → size + 8 < 2 ^ 31
    → request slack operation size body ≡ some (message operation body)
unfolding request
request-message slack operation size body is fits =
    let len : (8 + size) % 2 ^ 32 ≡ 8 + size = omega arith in
    let stated : (8 + size + 2 ^ 32 - 8) % 2 ^ 32 ≡ size = omega arith in
    let room = le→leb (8 + length body) (8 + size + length (slack (8 + size))) (omega arith) in
    rw (len, lt→ltb (8 + size) (2 ^ 31) (omega arith), room, stated, ← is)
      (rw (
        take_all (8 + length body) (message operation body) (
          omega (
            arith,
            length-append (encode_req_head (head_of operation body)) body,
            length-encode_req_head (head_of operation body),
          ))))

-- Where the body is written beyond the size that is asked for, only what fits the size is sent.
pub request-message_over :
    (slack : ℕ → Bytes) (operation : Operation) (size : ℕ) (body over : Bytes)
    → length body ≡ size
    → size + 8 < 2 ^ 31
    → length over ≤ length (slack (8 + size))
    → request slack operation size (body ++ over) ≡ some (message operation body)
unfolding request
request-message_over slack operation size body over is fits granted =
    let len : (8 + size) % 2 ^ 32 ≡ 8 + size = omega arith in
    let stated : (8 + size + 2 ^ 32 - 8) % 2 ^ 32 ≡ size = omega arith in
    let room =
      le→leb (8 + length (body ++ over)) (8 + size + length (slack (8 + size)))
        (omega (arith, length-append body over)) in
    let head : ReqHead = record { operation = code operation; version = 0; body_size = size } in
    let whole : length (encode_req_head head ++ body) ≡ 8 + size =
      omega (arith, length-append (encode_req_head head) body, length-encode_req_head head) in
    let sent = encode_req_head head ++ body in
    rw (
      len,
      lt→ltb (8 + size) (2 ^ 31) (omega arith),
      room,
      stated,
      ← append_assoc (encode_req_head head) body over,
      take-append_at (8 + size) sent over whole,
      is,
    )

pub response-reply :
    {Host : Type 0} (os : Platform Host) (size : ℕ) (body : Bytes)
    → length body ≡ size
    → size + 4 < 2 ^ 31
    → response os size body ≡ some (reply body)
unfolding response
response-reply os size body is fits =
    let len : (4 + size) % 2 ^ 32 ≡ 4 + size = omega arith in
    let stated : (4 + size + 2 ^ 32 - 4) % 2 ^ 32 ≡ size = omega arith in
    let room = le→leb (4 + length body) (4 + size + length (os.slack (4 + size))) (omega arith) in
    rw (len, lt→ltb (4 + size) (2 ^ 31) (omega arith), room, stated, ← is)
      (rw (
        take_all (4 + length body) (reply body) (
          omega (
            arith,
            length-append (encode_resp_head (record { body_size = length body })) body,
            length-encode_resp_head (record { body_size = length body }),
          ))))

-- A call of an operation, once its handler's answer is known.
pub call_handler :
    {Host : Type 0} (os : Platform Host) (wire : Wire) (s : Session (NodeEnd Host))
    (operation : Operation) (body : Bytes) (handler : Handler Host) (answered : Bytes)
    (p : Process Host)
    → IsIdle s
    → handler_of os (some operation) ≡ some handler
    → handler body s.world.process ≡ some (reply answered, p)
    → length body + 8 < 2 ^ 31
    → length answered + 4 < 2 ^ 31
    → dic_atomic_send_recv (node_peer os wire) (message operation body) s
      ≡ some (answered, after_call s (message operation body) (reply answered) p)
call_handler os wire s operation body handler answered p idle chosen handled fits fits' =
    dic_atomic_send_recv-handler os wire s (head_of operation body) body handler answered p idle
      (record {
        operation = omega (arith, code-lt operation);
        version = omega arith;
        body_size = omega arith;
        length_body = refl;
      })
      (rw (operation_of-code operation, chosen)) handled fits fits'
