-- ===== src/Node.antt =====
-- `dic_node_recv_send` of node/src/node_client_communication.c, one request and its response, and
-- `client_handling_loop` of node/src/main.c.
pub mod Serve
pub mod Loop
pub mod Listen
pub mod Announce
use dicon.Base.{
  ℕ, zero, suc, ◌+◌, Bool, true, false, Option, none, some, List, [], ◌∷◌, leb, ◌==◌, if◌then◌else◌,
  length,
}
use dicon.Wire.{Bytes, ◌>>=◌, ◌>>◌, guard}
use dicon.Socket.{Conn, RecvResult, dic_conn_recv, dic_conn_send}
use dicon.Platform.{Platform, Process}
use dicon.Protocol.{
  Operation, dic_malloc, dic_realloc, dic_free, dic_memcpy_c2n, dic_memcpy_n2c, dic_so_verify,
  dic_so_load, dic_so_unload, dic_so_upload, dic_func_load, dic_run, dic_join, operation_of,
}
use dicon.Protocol.Heads.{ReqHead, decode_req_head}
use dicon.Handlers.Reply.{Handler}
use dicon.Handlers.MemoryHandlers.{
  handle_malloc, handle_realloc, handle_free, handle_memcpy_c2n, handle_memcpy_n2c,
}
use dicon.Handlers.ObjectHandlers.{handle_so_load, handle_so_unload, handle_so_upload}
use dicon.Handlers.ThreadHandlers.{handle_func_load, handle_run, handle_join}

abbrev pub req_head_size : ℕ
req_head_size = 8

-- What one call of `dic_node_recv_send` returns and leaves behind.
pub record Served (Host : Type 0) : Type 0 where
  pub res : ℕ
  pub conn : Conn
  pub process : Process Host

module _ {Host : Type 0} (os : Platform Host) where
  -- The `switch`: the handler of an operation, or none where `msg.msg` is set to NULL.
  unfoldable pub handler_of : Option Operation → Option (Handler Host)
  handler_of none = none
  handler_of (some dic_malloc) = some (handle_malloc os)
  handler_of (some dic_realloc) = some (handle_realloc os)
  handler_of (some dic_free) = some (handle_free os)
  handler_of (some dic_memcpy_c2n) = some (handle_memcpy_c2n os)
  handler_of (some dic_memcpy_n2c) = some (handle_memcpy_n2c os)
  handler_of (some dic_so_verify) = none
  handler_of (some dic_so_load) = some (handle_so_load os)
  handler_of (some dic_so_unload) = some (handle_so_unload os)
  handler_of (some dic_so_upload) = some (handle_so_upload os)
  handler_of (some dic_func_load) = some (handle_func_load os)
  handler_of (some dic_run) = some (handle_run os)
  handler_of (some dic_join) = some (handle_join os)

  unfoldable pub answer : Option (Handler Host) → Bytes → Conn → Process Host → Option (Served Host)
  answer none body conn p = some (record { res = 0; conn = conn; process = p })
  answer (some handler) body conn p = do
    (msg, p') ← handler body p
    some (record { res = 0; conn = dic_conn_send conn msg (length msg); process = p' })

  -- The body is received into a block of `body_size` bytes: what goes beyond its slack is a fault.
  receive_body : ReqHead → Conn → Process Host → Option (Served Host)
  receive_body head conn p = do
    let got = dic_conn_recv conn head.body_size false
    guard (leb (length got.buffer) (head.body_size + length (os.slack head.body_size)))
    if got.res == 0
        then answer (handler_of (operation_of head.operation)) got.buffer got.conn p
        else some (record { res = got.res; conn = got.conn; process = p })

  pub dic_node_recv_send : Conn → Process Host → Option (Served Host)
  unfolding receive_body
  dic_node_recv_send conn p = do
    let got = dic_conn_recv conn req_head_size false
    if got.res == 0
        then (do head ← decode_req_head got.buffer; receive_body head got.conn p)
        else some (record { res = got.res; conn = got.conn; process = p })

  -- `client_handling_loop`, given a number of rounds; the inner `none` means that they ran out.
  pub client_handling_loop : ℕ → Conn → Process Host → Option (Option (Served Host))
  client_handling_loop zero conn p = some none
  client_handling_loop (suc rounds) conn p = elim (dic_node_recv_send conn p) [
    | none ↦ none
    | some served ↦ elim (served.res == 0) [
      | true ↦ client_handling_loop rounds served.conn served.process
      | false ↦ some (some served)
    ]
  ]
