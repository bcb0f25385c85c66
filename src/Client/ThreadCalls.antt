-- ===== src/Client/ThreadCalls.antt =====
-- `dic_func_load`, `dic_rthread_run`, `dic_rthread_join`.
use dicon.Base.{ℕ, ◌+◌, Option, some, [], ◌∷◌, ◌++◌, length}
use dicon.Wire.{Bytes, ◌>>=◌}
use dicon.Protocol.{dic_func_load, dic_run, dic_join}
use dicon.Protocol.FunctionBodies.{
  encode_req_func_load, decode_resp_func_load, encode_req_run, decode_resp_run, encode_req_join,
  decode_resp_join,
}
use dicon.Client.Transport.{Peer, Call, request, dic_atomic_send_recv}

module _ (slack : ℕ → Bytes) where
  -- `strcpy` writes the NUL too, for which the size has no room: it lies behind the message.
  unfoldable pub build_func_load : ℕ → Bytes → Option Bytes
  build_func_load handle symbol =
      let sym_len = length symbol in
      request slack dic_func_load (12 + sym_len) (
        encode_req_func_load
          (record { so_handle = handle; symlen = sym_len; symbol = symbol ++ 0 ∷ [] }))

  unfoldable pub build_rthread_run : ℕ → ℕ → Option Bytes
  build_rthread_run func_ptr args_ptr =
      request slack dic_run 16
        (encode_req_run (record { func_ptr = func_ptr; args_ptr = args_ptr }))

  unfoldable pub build_rthread_join : ℕ → Option Bytes
  build_rthread_join thread_id =
      request slack dic_join 8 (encode_req_join (record { tid = thread_id }))

  module _ {World : Type 0} (peer : Peer World) where
    unfoldable pub dic_func_load_call : ℕ → Bytes → Call World ℕ
    dic_func_load_call so_handle symbol s = do
      msg ← build_func_load so_handle symbol
      (rcv, s') ← dic_atomic_send_recv peer msg s
      body ← decode_resp_func_load rcv
      some (body.func_ptr, s')

    unfoldable pub dic_rthread_run : ℕ → ℕ → Call World ℕ
    dic_rthread_run func_ptr args_ptr s = do
      msg ← build_rthread_run func_ptr args_ptr
      (rcv, s') ← dic_atomic_send_recv peer msg s
      body ← decode_resp_run rcv
      some (body.tid, s')

    unfoldable pub dic_rthread_join : ℕ → Call World ℕ
    dic_rthread_join thread_id s = do
      msg ← build_rthread_join thread_id
      (rcv, s') ← dic_atomic_send_recv peer msg s
      body ← decode_resp_join rcv
      some (body.ret_ptr, s')
