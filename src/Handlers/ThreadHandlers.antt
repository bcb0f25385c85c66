-- ===== src/Handlers/ThreadHandlers.antt =====
-- `handle_func_load`, `handle_run`, `handle_join`.
use dicon.Base.{some, ◌++◌, length}
use dicon.Wire.{◌>>=◌}
use dicon.Platform.{Platform}
use dicon.Handlers.Reply.{Handler, response, c_string}
use dicon.Protocol.FunctionBodies.{
  decode_req_func_load, encode_resp_func_load, decode_req_run, encode_resp_run, decode_req_join,
  encode_resp_join,
}

module _ {Host : Type 0} (os : Platform Host) where
  -- `symlen` is not read: the name is the C string at `symbol`.
  unfoldable pub handle_func_load : Handler Host
  handle_func_load body p = do
    req ← decode_req_func_load body
    symbol ← c_string (req.symbol ++ os.slack (length body))
    msg ←
        response os 8
          (encode_resp_func_load (record { func_ptr = os.dlsym req.so_handle symbol p.host }))
    some (msg, p)

  unfoldable pub handle_run : Handler Host
  handle_run body p = do
    req ← decode_req_run body
    let (tid, p') = os.pthread_create req.func_ptr req.args_ptr p
    msg ← response os 8 (encode_resp_run (record { tid = tid }))
    some (msg, p')

  unfoldable pub handle_join : Handler Host
  handle_join body p = do
    req ← decode_req_join body
    (ret_ptr, p') ← os.pthread_join req.tid p
    msg ← response os 8 (encode_resp_join (record { ret_ptr = ret_ptr }))
    some (msg, p')
