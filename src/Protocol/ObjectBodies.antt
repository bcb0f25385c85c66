-- ===== src/Protocol/ObjectBodies.antt =====
-- common/include/dicon_protocol.h: the packed structures of shared objects, as they are written and read.
use dicon.Base.{ℕ, Option, some, ◌++◌, ◌<◌, ◌^◌, ◌≡◌, arith, ◌+◌, length, length-append}
use dicon.Wire.{Bytes, le_bytes, get_field, ◌>>=◌}
use dicon.Wire.Fields.{length-le_bytes, get_field-le_bytes, get_field-le_bytes_all}

-- `dic_req_so_verify`; `so_name` is its flexible array.
pub record ReqSoVerify : Type 0 where
  pub so_len : ℕ
  pub so_name : Bytes

unfoldable pub encode_req_so_verify : ReqSoVerify → Bytes
encode_req_so_verify r = le_bytes 4 r.so_len ++ r.so_name

unfoldable pub decode_req_so_verify : Bytes → Option ReqSoVerify
decode_req_so_verify bytes = do
  (so_len, so_name) ← get_field 4 bytes
  some (record { so_len = so_len; so_name = so_name })

pub decode_req_so_verify-encode_req_so_verify :
    (r : ReqSoVerify) → r.so_len < 2 ^ 32 → decode_req_so_verify (encode_req_so_verify r) ≡ some r
unfolding encode_req_so_verify decode_req_so_verify
decode_req_so_verify-encode_req_so_verify r h_so_len =
    rw (get_field-le_bytes 4 r.so_len (r.so_name) h_so_len)

pub length-encode_req_so_verify :
    (r : ReqSoVerify) → length (encode_req_so_verify r) ≡ 4 + length r.so_name
unfolding encode_req_so_verify
length-encode_req_so_verify r =
    omega (arith, length-append (le_bytes 4 r.so_len) (r.so_name), length-le_bytes 4 r.so_len)

-- `dic_resp_so_verify`
pub record RespSoVerify : Type 0 where
  pub checksum : ℕ

unfoldable pub encode_resp_so_verify : RespSoVerify → Bytes
encode_resp_so_verify r = le_bytes 8 r.checksum

unfoldable pub decode_resp_so_verify : Bytes → Option RespSoVerify
decode_resp_so_verify bytes = do
  (checksum, rest) ← get_field 8 bytes
  some (record { checksum = checksum })

pub decode_resp_so_verify-encode_resp_so_verify :
    (r : RespSoVerify)
    → r.checksum < 2 ^ 64
    → decode_resp_so_verify (encode_resp_so_verify r) ≡ some r
unfolding encode_resp_so_verify decode_resp_so_verify
decode_resp_so_verify-encode_resp_so_verify r h_checksum =
    rw (get_field-le_bytes_all 8 r.checksum h_checksum)

pub length-encode_resp_so_verify : (r : RespSoVerify) → length (encode_resp_so_verify r) ≡ 8
unfolding encode_resp_so_verify
length-encode_resp_so_verify r = omega (arith, length-le_bytes 8 r.checksum)

-- `dic_req_so_load`; `so_name` is its flexible array.
pub record ReqSoLoad : Type 0 where
  pub so_len : ℕ
  pub so_name : Bytes

unfoldable pub encode_req_so_load : ReqSoLoad → Bytes
encode_req_so_load r = le_bytes 4 r.so_len ++ r.so_name

unfoldable pub decode_req_so_load : Bytes → Option ReqSoLoad
decode_req_so_load bytes = do
  (so_len, so_name) ← get_field 4 bytes
  some (record { so_len = so_len; so_name = so_name })

pub decode_req_so_load-encode_req_so_load :
    (r : ReqSoLoad) → r.so_len < 2 ^ 32 → decode_req_so_load (encode_req_so_load r) ≡ some r
unfolding encode_req_so_load decode_req_so_load
decode_req_so_load-encode_req_so_load r h_so_len =
    rw (get_field-le_bytes 4 r.so_len (r.so_name) h_so_len)

pub length-encode_req_so_load :
    (r : ReqSoLoad) → length (encode_req_so_load r) ≡ 4 + length r.so_name
unfolding encode_req_so_load
length-encode_req_so_load r =
    omega (arith, length-append (le_bytes 4 r.so_len) (r.so_name), length-le_bytes 4 r.so_len)

-- `dic_resp_so_load`
pub record RespSoLoad : Type 0 where
  pub handle : ℕ

unfoldable pub encode_resp_so_load : RespSoLoad → Bytes
encode_resp_so_load r = le_bytes 8 r.handle

unfoldable pub decode_resp_so_load : Bytes → Option RespSoLoad
decode_resp_so_load bytes = do (handle, rest) ← get_field 8 bytes; some (record { handle = handle })

pub decode_resp_so_load-encode_resp_so_load :
    (r : RespSoLoad) → r.handle < 2 ^ 64 → decode_resp_so_load (encode_resp_so_load r) ≡ some r
unfolding encode_resp_so_load decode_resp_so_load
decode_resp_so_load-encode_resp_so_load r h_handle = rw (get_field-le_bytes_all 8 r.handle h_handle)

pub length-encode_resp_so_load : (r : RespSoLoad) → length (encode_resp_so_load r) ≡ 8
unfolding encode_resp_so_load
length-encode_resp_so_load r = omega (arith, length-le_bytes 8 r.handle)

-- `dic_req_so_unload`
pub record ReqSoUnload : Type 0 where
  pub handle : ℕ

unfoldable pub encode_req_so_unload : ReqSoUnload → Bytes
encode_req_so_unload r = le_bytes 8 r.handle

unfoldable pub decode_req_so_unload : Bytes → Option ReqSoUnload
decode_req_so_unload bytes = do
  (handle, rest) ← get_field 8 bytes
  some (record { handle = handle })

pub decode_req_so_unload-encode_req_so_unload :
    (r : ReqSoUnload) → r.handle < 2 ^ 64 → decode_req_so_unload (encode_req_so_unload r) ≡ some r
unfolding encode_req_so_unload decode_req_so_unload
decode_req_so_unload-encode_req_so_unload r h_handle =
    rw (get_field-le_bytes_all 8 r.handle h_handle)

pub length-encode_req_so_unload : (r : ReqSoUnload) → length (encode_req_so_unload r) ≡ 8
unfolding encode_req_so_unload
length-encode_req_so_unload r = omega (arith, length-le_bytes 8 r.handle)

-- `dic_resp_so_unload`
pub record RespSoUnload : Type 0 where
  pub success : ℕ

unfoldable pub encode_resp_so_unload : RespSoUnload → Bytes
encode_resp_so_unload r = le_bytes 4 r.success

unfoldable pub decode_resp_so_unload : Bytes → Option RespSoUnload
decode_resp_so_unload bytes = do
  (success, rest) ← get_field 4 bytes
  some (record { success = success })

pub decode_resp_so_unload-encode_resp_so_unload :
    (r : RespSoUnload)
    → r.success < 2 ^ 32
    → decode_resp_so_unload (encode_resp_so_unload r) ≡ some r
unfolding encode_resp_so_unload decode_resp_so_unload
decode_resp_so_unload-encode_resp_so_unload r h_success =
    rw (get_field-le_bytes_all 4 r.success h_success)

pub length-encode_resp_so_unload : (r : RespSoUnload) → length (encode_resp_so_unload r) ≡ 4
unfolding encode_resp_so_unload
length-encode_resp_so_unload r = omega (arith, length-le_bytes 4 r.success)

-- `dic_req_so_upload`; `name_null_file` is its flexible array.
pub record ReqSoUpload : Type 0 where
  pub file_size : ℕ
  pub name_len : ℕ
  pub name_null_file : Bytes

unfoldable pub encode_req_so_upload : ReqSoUpload → Bytes
encode_req_so_upload r = le_bytes 8 r.file_size ++ (le_bytes 4 r.name_len ++ r.name_null_file)

unfoldable pub decode_req_so_upload : Bytes → Option ReqSoUpload
decode_req_so_upload bytes = do
  (file_size, after_file_size) ← get_field 8 bytes
  (name_len, name_null_file) ← get_field 4 after_file_size
  some (record { file_size = file_size; name_len = name_len; name_null_file = name_null_file })

pub decode_req_so_upload-encode_req_so_upload :
    (r : ReqSoUpload)
    → r.file_size < 2 ^ 64
    → r.name_len < 2 ^ 32
    → decode_req_so_upload (encode_req_so_upload r) ≡ some r
unfolding encode_req_so_upload decode_req_so_upload
decode_req_so_upload-encode_req_so_upload r h_file_size h_name_len = rw (
  get_field-le_bytes 8 r.file_size (le_bytes 4 r.name_len ++ r.name_null_file) h_file_size,
  get_field-le_bytes 4 r.name_len (r.name_null_file) h_name_len,
)

pub length-encode_req_so_upload :
    (r : ReqSoUpload) → length (encode_req_so_upload r) ≡ 12 + length r.name_null_file
unfolding encode_req_so_upload
length-encode_req_so_upload r = omega (
  arith,
  length-append (le_bytes 8 r.file_size) (le_bytes 4 r.name_len ++ r.name_null_file),
  length-append (le_bytes 4 r.name_len) (r.name_null_file),
  length-le_bytes 8 r.file_size,
  length-le_bytes 4 r.name_len,
)

-- `dic_resp_so_upload`
pub record RespSoUpload : Type 0 where
  pub success : ℕ

unfoldable pub encode_resp_so_upload : RespSoUpload → Bytes
encode_resp_so_upload r = le_bytes 4 r.success

unfoldable pub decode_resp_so_upload : Bytes → Option RespSoUpload
decode_resp_so_upload bytes = do
  (success, rest) ← get_field 4 bytes
  some (record { success = success })

pub decode_resp_so_upload-encode_resp_so_upload :
    (r : RespSoUpload)
    → r.success < 2 ^ 32
    → decode_resp_so_upload (encode_resp_so_upload r) ≡ some r
unfolding encode_resp_so_upload decode_resp_so_upload
decode_resp_so_upload-encode_resp_so_upload r h_success =
    rw (get_field-le_bytes_all 4 r.success h_success)

pub length-encode_resp_so_upload : (r : RespSoUpload) → length (encode_resp_so_upload r) ≡ 4
unfolding encode_resp_so_upload
length-encode_resp_so_upload r = omega (arith, length-le_bytes 4 r.success)
