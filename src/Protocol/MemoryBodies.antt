-- ===== src/Protocol/MemoryBodies.antt =====
-- common/include/dicon_protocol.h: the packed structures of memory operations, as they are written and read.
use dicon.Base.{ℕ, Option, some, ◌++◌, ◌<◌, ◌^◌, ◌≡◌, arith, length, length-append}
use dicon.Wire.{Bytes, le_bytes, get_field, ◌>>=◌}
use dicon.Wire.Fields.{length-le_bytes, get_field-le_bytes, get_field-le_bytes_all}

-- `dic_req_malloc`
pub record ReqMalloc : Type 0 where
  pub size : ℕ

unfoldable pub encode_req_malloc : ReqMalloc → Bytes
encode_req_malloc r = le_bytes 4 r.size

unfoldable pub decode_req_malloc : Bytes → Option ReqMalloc
decode_req_malloc bytes = do (size, rest) ← get_field 4 bytes; some (record { size = size })

pub decode_req_malloc-encode_req_malloc :
    (r : ReqMalloc) → r.size < 2 ^ 32 → decode_req_malloc (encode_req_malloc r) ≡ some r
unfolding encode_req_malloc decode_req_malloc
decode_req_malloc-encode_req_malloc r h_size = rw (get_field-le_bytes_all 4 r.size h_size)

pub length-encode_req_malloc : (r : ReqMalloc) → length (encode_req_malloc r) ≡ 4
unfolding encode_req_malloc
length-encode_req_malloc r = omega (arith, length-le_bytes 4 r.size)

-- `dic_resp_malloc`
pub record RespMalloc : Type 0 where
  pub mem_address : ℕ

unfoldable pub encode_resp_malloc : RespMalloc → Bytes
encode_resp_malloc r = le_bytes 8 r.mem_address

unfoldable pub decode_resp_malloc : Bytes → Option RespMalloc
decode_resp_malloc bytes = do
  (mem_address, rest) ← get_field 8 bytes
  some (record { mem_address = mem_address })

pub decode_resp_malloc-encode_resp_malloc :
    (r : RespMalloc) → r.mem_address < 2 ^ 64 → decode_resp_malloc (encode_resp_malloc r) ≡ some r
unfolding encode_resp_malloc decode_resp_malloc
decode_resp_malloc-encode_resp_malloc r h_mem_address =
    rw (get_field-le_bytes_all 8 r.mem_address h_mem_address)

pub length-encode_resp_malloc : (r : RespMalloc) → length (encode_resp_malloc r) ≡ 8
unfolding encode_resp_malloc
length-encode_resp_malloc r = omega (arith, length-le_bytes 8 r.mem_address)

-- `dic_req_realloc`
pub record ReqRealloc : Type 0 where
  pub void_ptr : ℕ
  pub size : ℕ

unfoldable pub encode_req_realloc : ReqRealloc → Bytes
encode_req_realloc r = le_bytes 8 r.void_ptr ++ le_bytes 4 r.size

unfoldable pub decode_req_realloc : Bytes → Option ReqRealloc
decode_req_realloc bytes = do
  (void_ptr, after_void_ptr) ← get_field 8 bytes
  (size, rest) ← get_field 4 after_void_ptr
  some (record { void_ptr = void_ptr; size = size })

pub decode_req_realloc-encode_req_realloc :
    (r : ReqRealloc)
    → r.void_ptr < 2 ^ 64
    → r.size < 2 ^ 32
    → decode_req_realloc (encode_req_realloc r) ≡ some r
unfolding encode_req_realloc decode_req_realloc
decode_req_realloc-encode_req_realloc r h_void_ptr h_size = rw (
  get_field-le_bytes 8 r.void_ptr (le_bytes 4 r.size) h_void_ptr,
  get_field-le_bytes_all 4 r.size h_size,
)

pub length-encode_req_realloc : (r : ReqRealloc) → length (encode_req_realloc r) ≡ 12
unfolding encode_req_realloc
length-encode_req_realloc r = omega (
  arith,
  length-append (le_bytes 8 r.void_ptr) (le_bytes 4 r.size),
  length-le_bytes 8 r.void_ptr,
  length-le_bytes 4 r.size,
)

-- `dic_resp_realloc`
pub record RespRealloc : Type 0 where
  pub mem_address : ℕ

unfoldable pub encode_resp_realloc : RespRealloc → Bytes
encode_resp_realloc r = le_bytes 8 r.mem_address

unfoldable pub decode_resp_realloc : Bytes → Option RespRealloc
decode_resp_realloc bytes = do
  (mem_address, rest) ← get_field 8 bytes
  some (record { mem_address = mem_address })

pub decode_resp_realloc-encode_resp_realloc :
    (r : RespRealloc)
    → r.mem_address < 2 ^ 64
    → decode_resp_realloc (encode_resp_realloc r) ≡ some r
unfolding encode_resp_realloc decode_resp_realloc
decode_resp_realloc-encode_resp_realloc r h_mem_address =
    rw (get_field-le_bytes_all 8 r.mem_address h_mem_address)

pub length-encode_resp_realloc : (r : RespRealloc) → length (encode_resp_realloc r) ≡ 8
unfolding encode_resp_realloc
length-encode_resp_realloc r = omega (arith, length-le_bytes 8 r.mem_address)

-- `dic_req_free`
pub record ReqFree : Type 0 where
  pub void_ptr : ℕ

unfoldable pub encode_req_free : ReqFree → Bytes
encode_req_free r = le_bytes 8 r.void_ptr

unfoldable pub decode_req_free : Bytes → Option ReqFree
decode_req_free bytes = do
  (void_ptr, rest) ← get_field 8 bytes
  some (record { void_ptr = void_ptr })

pub decode_req_free-encode_req_free :
    (r : ReqFree) → r.void_ptr < 2 ^ 64 → decode_req_free (encode_req_free r) ≡ some r
unfolding encode_req_free decode_req_free
decode_req_free-encode_req_free r h_void_ptr = rw (get_field-le_bytes_all 8 r.void_ptr h_void_ptr)

pub length-encode_req_free : (r : ReqFree) → length (encode_req_free r) ≡ 8
unfolding encode_req_free
length-encode_req_free r = omega (arith, length-le_bytes 8 r.void_ptr)

-- `dic_resp_free`
pub record RespFree : Type 0 where
  pub err : ℕ

unfoldable pub encode_resp_free : RespFree → Bytes
encode_resp_free r = le_bytes 1 r.err

unfoldable pub decode_resp_free : Bytes → Option RespFree
decode_resp_free bytes = do (err, rest) ← get_field 1 bytes; some (record { err = err })

pub decode_resp_free-encode_resp_free :
    (r : RespFree) → r.err < 2 ^ 8 → decode_resp_free (encode_resp_free r) ≡ some r
unfolding encode_resp_free decode_resp_free
decode_resp_free-encode_resp_free r h_err = rw (get_field-le_bytes_all 1 r.err h_err)

pub length-encode_resp_free : (r : RespFree) → length (encode_resp_free r) ≡ 1
unfolding encode_resp_free
length-encode_resp_free r = omega (arith, length-le_bytes 1 r.err)
