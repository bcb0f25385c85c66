-- ===== src/Protocol/CopyBodies.antt =====
-- common/include/dicon_protocol.h: the packed structures of copies between client and node, as they are written and read.
use dicon.Base.{ℕ, Option, some, ◌++◌, ◌<◌, ◌^◌, ◌≡◌, arith, ◌+◌, length, length-append}
use dicon.Wire.{Bytes, le_bytes, get_field, ◌>>=◌}
use dicon.Wire.Fields.{length-le_bytes, get_field-le_bytes, get_field-le_bytes_all}

-- `dic_req_memcpy_c2n`; `content` is its flexible array.
pub record ReqMemcpyC2n : Type 0 where
  pub dest : ℕ
  pub data_size : ℕ
  pub content : Bytes

unfoldable pub encode_req_memcpy_c2n : ReqMemcpyC2n → Bytes
encode_req_memcpy_c2n r = le_bytes 8 r.dest ++ (le_bytes 4 r.data_size ++ r.content)

unfoldable pub decode_req_memcpy_c2n : Bytes → Option ReqMemcpyC2n
decode_req_memcpy_c2n bytes = do
  (dest, after_dest) ← get_field 8 bytes
  (data_size, content) ← get_field 4 after_dest
  some (record { dest = dest; data_size = data_size; content = content })

pub decode_req_memcpy_c2n-encode_req_memcpy_c2n :
    (r : ReqMemcpyC2n)
    → r.dest < 2 ^ 64
    → r.data_size < 2 ^ 32
    → decode_req_memcpy_c2n (encode_req_memcpy_c2n r) ≡ some r
unfolding encode_req_memcpy_c2n decode_req_memcpy_c2n
decode_req_memcpy_c2n-encode_req_memcpy_c2n r h_dest h_data_size = rw (
  get_field-le_bytes 8 r.dest (le_bytes 4 r.data_size ++ r.content) h_dest,
  get_field-le_bytes 4 r.data_size (r.content) h_data_size,
)

pub length-encode_req_memcpy_c2n :
    (r : ReqMemcpyC2n) → length (encode_req_memcpy_c2n r) ≡ 12 + length r.content
unfolding encode_req_memcpy_c2n
length-encode_req_memcpy_c2n r = omega (
  arith,
  length-append (le_bytes 8 r.dest) (le_bytes 4 r.data_size ++ r.content),
  length-append (le_bytes 4 r.data_size) (r.content),
  length-le_bytes 8 r.dest,
  length-le_bytes 4 r.data_size,
)

-- `dic_resp_memcpy_c2n`
pub record RespMemcpyC2n : Type 0 where
  pub err : ℕ

unfoldable pub encode_resp_memcpy_c2n : RespMemcpyC2n → Bytes
encode_resp_memcpy_c2n r = le_bytes 4 r.err

unfoldable pub decode_resp_memcpy_c2n : Bytes → Option RespMemcpyC2n
decode_resp_memcpy_c2n bytes = do (err, rest) ← get_field 4 bytes; some (record { err = err })

pub decode_resp_memcpy_c2n-encode_resp_memcpy_c2n :
    (r : RespMemcpyC2n)
    → r.err < 2 ^ 32
    → decode_resp_memcpy_c2n (encode_resp_memcpy_c2n r) ≡ some r
unfolding encode_resp_memcpy_c2n decode_resp_memcpy_c2n
decode_resp_memcpy_c2n-encode_resp_memcpy_c2n r h_err = rw (get_field-le_bytes_all 4 r.err h_err)

pub length-encode_resp_memcpy_c2n : (r : RespMemcpyC2n) → length (encode_resp_memcpy_c2n r) ≡ 4
unfolding encode_resp_memcpy_c2n
length-encode_resp_memcpy_c2n r = omega (arith, length-le_bytes 4 r.err)

-- `dic_req_memcpy_n2c`
pub record ReqMemcpyN2c : Type 0 where
  pub src : ℕ
  pub data_size : ℕ

unfoldable pub encode_req_memcpy_n2c : ReqMemcpyN2c → Bytes
encode_req_memcpy_n2c r = le_bytes 8 r.src ++ le_bytes 4 r.data_size

unfoldable pub decode_req_memcpy_n2c : Bytes → Option ReqMemcpyN2c
decode_req_memcpy_n2c bytes = do
  (src, after_src) ← get_field 8 bytes
  (data_size, rest) ← get_field 4 after_src
  some (record { src = src; data_size = data_size })

pub decode_req_memcpy_n2c-encode_req_memcpy_n2c :
    (r : ReqMemcpyN2c)
    → r.src < 2 ^ 64
    → r.data_size < 2 ^ 32
    → decode_req_memcpy_n2c (encode_req_memcpy_n2c r) ≡ some r
unfolding encode_req_memcpy_n2c decode_req_memcpy_n2c
decode_req_memcpy_n2c-encode_req_memcpy_n2c r h_src h_data_size = rw (
  get_field-le_bytes 8 r.src (le_bytes 4 r.data_size) h_src,
  get_field-le_bytes_all 4 r.data_size h_data_size,
)

pub length-encode_req_memcpy_n2c : (r : ReqMemcpyN2c) → length (encode_req_memcpy_n2c r) ≡ 12
unfolding encode_req_memcpy_n2c
length-encode_req_memcpy_n2c r = omega (
  arith,
  length-append (le_bytes 8 r.src) (le_bytes 4 r.data_size),
  length-le_bytes 8 r.src,
  length-le_bytes 4 r.data_size,
)

-- `dic_resp_memcpy_n2c`; `content` is its flexible array.
pub record RespMemcpyN2c : Type 0 where
  pub data_size : ℕ
  pub content : Bytes

unfoldable pub encode_resp_memcpy_n2c : RespMemcpyN2c → Bytes
encode_resp_memcpy_n2c r = le_bytes 4 r.data_size ++ r.content

unfoldable pub decode_resp_memcpy_n2c : Bytes → Option RespMemcpyN2c
decode_resp_memcpy_n2c bytes = do
  (data_size, content) ← get_field 4 bytes
  some (record { data_size = data_size; content = content })

pub decode_resp_memcpy_n2c-encode_resp_memcpy_n2c :
    (r : RespMemcpyN2c)
    → r.data_size < 2 ^ 32
    → decode_resp_memcpy_n2c (encode_resp_memcpy_n2c r) ≡ some r
unfolding encode_resp_memcpy_n2c decode_resp_memcpy_n2c
decode_resp_memcpy_n2c-encode_resp_memcpy_n2c r h_data_size =
    rw (get_field-le_bytes 4 r.data_size (r.content) h_data_size)

pub length-encode_resp_memcpy_n2c :
    (r : RespMemcpyN2c) → length (encode_resp_memcpy_n2c r) ≡ 4 + length r.content
unfolding encode_resp_memcpy_n2c
length-encode_resp_memcpy_n2c r =
    omega (arith, length-append (le_bytes 4 r.data_size) (r.content), length-le_bytes 4 r.data_size)
