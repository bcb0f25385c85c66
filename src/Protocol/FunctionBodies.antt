-- ===== src/Protocol/FunctionBodies.antt =====
-- common/include/dicon_protocol.h: the packed structures of functions and threads, as they are written and read.
use dicon.Base.{ℕ, Option, some, ◌++◌, ◌<◌, ◌^◌, ◌≡◌, arith, ◌+◌, length, length-append}
use dicon.Wire.{Bytes, le_bytes, get_field, ◌>>=◌}
use dicon.Wire.Fields.{length-le_bytes, get_field-le_bytes, get_field-le_bytes_all}

-- `dic_req_func_load`; `symbol` is its flexible array.
pub record ReqFuncLoad : Type 0 where
  pub so_handle : ℕ
  pub symlen : ℕ
  pub symbol : Bytes

unfoldable pub encode_req_func_load : ReqFuncLoad → Bytes
encode_req_func_load r = le_bytes 8 r.so_handle ++ (le_bytes 4 r.symlen ++ r.symbol)

unfoldable pub decode_req_func_load : Bytes → Option ReqFuncLoad
decode_req_func_load bytes = do
  (so_handle, after_so_handle) ← get_field 8 bytes
  (symlen, symbol) ← get_field 4 after_so_handle
  some (record { so_handle = so_handle; symlen = symlen; symbol = symbol })

pub decode_req_func_load-encode_req_func_load :
    (r : ReqFuncLoad)
    → r.so_handle < 2 ^ 64
    → r.symlen < 2 ^ 32
    → decode_req_func_load (encode_req_func_load r) ≡ some r
unfolding encode_req_func_load decode_req_func_load
decode_req_func_load-encode_req_func_load r h_so_handle h_symlen = rw (
  get_field-le_bytes 8 r.so_handle (le_bytes 4 r.symlen ++ r.symbol) h_so_handle,
  get_field-le_bytes 4 r.symlen (r.symbol) h_symlen,
)

pub length-encode_req_func_load :
    (r : ReqFuncLoad) → length (encode_req_func_load r) ≡ 12 + length r.symbol
unfolding encode_req_func_load
length-encode_req_func_load r = omega (
  arith,
  length-append (le_bytes 8 r.so_handle) (le_bytes 4 r.symlen ++ r.symbol),
  length-append (le_bytes 4 r.symlen) (r.symbol),
  length-le_bytes 8 r.so_handle,
  length-le_bytes 4 r.symlen,
)

-- `dic_resp_func_load`
pub record RespFuncLoad : Type 0 where
  pub func_ptr : ℕ

unfoldable pub encode_resp_func_load : RespFuncLoad → Bytes
encode_resp_func_load r = le_bytes 8 r.func_ptr

unfoldable pub decode_resp_func_load : Bytes → Option RespFuncLoad
decode_resp_func_load bytes = do
  (func_ptr, rest) ← get_field 8 bytes
  some (record { func_ptr = func_ptr })

pub decode_resp_func_load-encode_resp_func_load :
    (r : RespFuncLoad)
    → r.func_ptr < 2 ^ 64
    → decode_resp_func_load (encode_resp_func_load r) ≡ some r
unfolding encode_resp_func_load decode_resp_func_load
decode_resp_func_load-encode_resp_func_load r h_func_ptr =
    rw (get_field-le_bytes_all 8 r.func_ptr h_func_ptr)

pub length-encode_resp_func_load : (r : RespFuncLoad) → length (encode_resp_func_load r) ≡ 8
unfolding encode_resp_func_load
length-encode_resp_func_load r = omega (arith, length-le_bytes 8 r.func_ptr)

-- `dic_req_run`
pub record ReqRun : Type 0 where
  pub func_ptr : ℕ
  pub args_ptr : ℕ

unfoldable pub encode_req_run : ReqRun → Bytes
encode_req_run r = le_bytes 8 r.func_ptr ++ le_bytes 8 r.args_ptr

unfoldable pub decode_req_run : Bytes → Option ReqRun
decode_req_run bytes = do
  (func_ptr, after_func_ptr) ← get_field 8 bytes
  (args_ptr, rest) ← get_field 8 after_func_ptr
  some (record { func_ptr = func_ptr; args_ptr = args_ptr })

pub decode_req_run-encode_req_run :
    (r : ReqRun)
    → r.func_ptr < 2 ^ 64
    → r.args_ptr < 2 ^ 64
    → decode_req_run (encode_req_run r) ≡ some r
unfolding encode_req_run decode_req_run
decode_req_run-encode_req_run r h_func_ptr h_args_ptr = rw (
  get_field-le_bytes 8 r.func_ptr (le_bytes 8 r.args_ptr) h_func_ptr,
  get_field-le_bytes_all 8 r.args_ptr h_args_ptr,
)

pub length-encode_req_run : (r : ReqRun) → length (encode_req_run r) ≡ 16
unfolding encode_req_run
length-encode_req_run r = omega (
  arith,
  length-append (le_bytes 8 r.func_ptr) (le_bytes 8 r.args_ptr),
  length-le_bytes 8 r.func_ptr,
  length-le_bytes 8 r.args_ptr,
)

-- `dic_resp_run`
pub record RespRun : Type 0 where
  pub tid : ℕ

unfoldable pub encode_resp_run : RespRun → Bytes
encode_resp_run r = le_bytes 8 r.tid

unfoldable pub decode_resp_run : Bytes → Option RespRun
decode_resp_run bytes = do (tid, rest) ← get_field 8 bytes; some (record { tid = tid })

pub decode_resp_run-encode_resp_run :
    (r : RespRun) → r.tid < 2 ^ 64 → decode_resp_run (encode_resp_run r) ≡ some r
unfolding encode_resp_run decode_resp_run
decode_resp_run-encode_resp_run r h_tid = rw (get_field-le_bytes_all 8 r.tid h_tid)

pub length-encode_resp_run : (r : RespRun) → length (encode_resp_run r) ≡ 8
unfolding encode_resp_run
length-encode_resp_run r = omega (arith, length-le_bytes 8 r.tid)

-- `dic_req_join`
pub record ReqJoin : Type 0 where
  pub tid : ℕ

unfoldable pub encode_req_join : ReqJoin → Bytes
encode_req_join r = le_bytes 8 r.tid

unfoldable pub decode_req_join : Bytes → Option ReqJoin
decode_req_join bytes = do (tid, rest) ← get_field 8 bytes; some (record { tid = tid })

pub decode_req_join-encode_req_join :
    (r : ReqJoin) → r.tid < 2 ^ 64 → decode_req_join (encode_req_join r) ≡ some r
unfolding encode_req_join decode_req_join
decode_req_join-encode_req_join r h_tid = rw (get_field-le_bytes_all 8 r.tid h_tid)

pub length-encode_req_join : (r : ReqJoin) → length (encode_req_join r) ≡ 8
unfolding encode_req_join
length-encode_req_join r = omega (arith, length-le_bytes 8 r.tid)

-- `dic_resp_join`
pub record RespJoin : Type 0 where
  pub ret_ptr : ℕ

unfoldable pub encode_resp_join : RespJoin → Bytes
encode_resp_join r = le_bytes 8 r.ret_ptr

unfoldable pub decode_resp_join : Bytes → Option RespJoin
decode_resp_join bytes = do (ret_ptr, rest) ← get_field 8 bytes; some (record { ret_ptr = ret_ptr })

pub decode_resp_join-encode_resp_join :
    (r : RespJoin) → r.ret_ptr < 2 ^ 64 → decode_resp_join (encode_resp_join r) ≡ some r
unfolding encode_resp_join decode_resp_join
decode_resp_join-encode_resp_join r h_ret_ptr = rw (get_field-le_bytes_all 8 r.ret_ptr h_ret_ptr)

pub length-encode_resp_join : (r : RespJoin) → length (encode_resp_join r) ≡ 8
unfolding encode_resp_join
length-encode_resp_join r = omega (arith, length-le_bytes 8 r.ret_ptr)
