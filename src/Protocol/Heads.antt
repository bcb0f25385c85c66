-- ===== src/Protocol/Heads.antt =====
-- common/include/dicon_protocol.h: the packed structures of heads, as they are written and read.
use dicon.Base.{ℕ, Option, some, ◌++◌, ◌<◌, ◌^◌, ◌≡◌, arith, length, length-append}
use dicon.Wire.{Bytes, le_bytes, get_field, ◌>>=◌}
use dicon.Wire.Fields.{get_field-some, length-le_bytes, get_field-le_bytes, get_field-le_bytes_all}

-- `dic_req_head_generic`
pub record ReqHead : Type 0 where
  pub operation : ℕ
  pub version : ℕ
  pub body_size : ℕ

unfoldable pub encode_req_head : ReqHead → Bytes
encode_req_head r = le_bytes 2 r.operation ++ (le_bytes 2 r.version ++ le_bytes 4 r.body_size)

unfoldable pub decode_req_head : Bytes → Option ReqHead
decode_req_head bytes = do
  (operation, after_operation) ← get_field 2 bytes
  (version, after_version) ← get_field 2 after_operation
  (body_size, rest) ← get_field 4 after_version
  some (record { operation = operation; version = version; body_size = body_size })

pub decode_req_head-encode_req_head :
    (r : ReqHead)
    → r.operation < 2 ^ 16
    → r.version < 2 ^ 16
    → r.body_size < 2 ^ 32
    → decode_req_head (encode_req_head r) ≡ some r
unfolding encode_req_head decode_req_head
decode_req_head-encode_req_head r h_operation h_version h_body_size = rw (
  get_field-le_bytes 2 r.operation (le_bytes 2 r.version ++ le_bytes 4 r.body_size) h_operation,
  get_field-le_bytes 2 r.version (le_bytes 4 r.body_size) h_version,
  get_field-le_bytes_all 4 r.body_size h_body_size,
)

-- Eight bytes are a head.
pub decode_req_head-some :
    (bs : Bytes) → length bs ≡ 8 → (head : ReqHead) × (decode_req_head bs ≡ some head)
unfolding decode_req_head
decode_req_head-some bs size =
    let (operation, bs', got, left) = get_field-some 2 bs (omega arith) in
    let (version, bs'', got', left') = get_field-some 2 bs' (omega arith) in
    let (body_size, rest, got'', _) = get_field-some 4 bs'' (omega arith) in
    (
      record { operation = operation; version = version; body_size = body_size },
      rw (got, got', got''),
    )

pub length-encode_req_head : (r : ReqHead) → length (encode_req_head r) ≡ 8
unfolding encode_req_head
length-encode_req_head r = omega (
  arith,
  length-append (le_bytes 2 r.operation) (le_bytes 2 r.version ++ le_bytes 4 r.body_size),
  length-append (le_bytes 2 r.version) (le_bytes 4 r.body_size),
  length-le_bytes 2 r.operation,
  length-le_bytes 2 r.version,
  length-le_bytes 4 r.body_size,
)

-- `dic_resp_head_generic`
pub record RespHead : Type 0 where
  pub body_size : ℕ

unfoldable pub encode_resp_head : RespHead → Bytes
encode_resp_head r = le_bytes 4 r.body_size

unfoldable pub decode_resp_head : Bytes → Option RespHead
decode_resp_head bytes = do
  (body_size, rest) ← get_field 4 bytes
  some (record { body_size = body_size })

pub decode_resp_head-encode_resp_head :
    (r : RespHead) → r.body_size < 2 ^ 32 → decode_resp_head (encode_resp_head r) ≡ some r
unfolding encode_resp_head decode_resp_head
decode_resp_head-encode_resp_head r h_body_size =
    rw (get_field-le_bytes_all 4 r.body_size h_body_size)

pub length-encode_resp_head : (r : RespHead) → length (encode_resp_head r) ≡ 4
unfolding encode_resp_head
length-encode_resp_head r = omega (arith, length-le_bytes 4 r.body_size)
