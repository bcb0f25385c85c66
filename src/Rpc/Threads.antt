-- ===== src/Rpc/Threads.antt =====
-- `dic_func_load`, `dic_rthread_run` and `dic_rthread_join` between a client and a node.
use dicon.Base.{
  ℕ, ◌+◌, ◌<◌, ◌≤◌, ◌^◌, ◌≡◌, refl, sym, ap, ◌∙◌, some, [], ◌∷◌, ◌++◌, arith, length, append_assoc,
}
use dicon.Wire.{Bytes, le_bytes}
use dicon.Platform.{Platform, Process}
use dicon.Protocol.{dic_func_load, dic_run, dic_join}
use dicon.Protocol.FunctionBodies.{
  ReqFuncLoad, encode_req_func_load, decode_req_func_load-encode_req_func_load,
  length-encode_req_func_load, RespFuncLoad, encode_resp_func_load,
  decode_resp_func_load-encode_resp_func_load, length-encode_resp_func_load, ReqRun, encode_req_run,
  decode_req_run-encode_req_run, length-encode_req_run, RespRun, encode_resp_run,
  decode_resp_run-encode_resp_run, length-encode_resp_run, ReqJoin, encode_req_join,
  decode_req_join-encode_req_join, length-encode_req_join, RespJoin, encode_resp_join,
  decode_resp_join-encode_resp_join, length-encode_resp_join,
}
use dicon.Handlers.Reply.{c_string}
use dicon.Handlers.ThreadHandlers.{handle_func_load, handle_run, handle_join}
use dicon.Node.{handler_of}
use dicon.Client.Transport.{Session}
use dicon.Client.ThreadCalls.{
  build_func_load, build_rthread_run, build_rthread_join, dic_func_load_call, dic_rthread_run,
  dic_rthread_join,
}
use dicon.Rpc.{NodeEnd, Wire, node_peer, IsIdle}
use dicon.Rpc.Transparent.{reply, after_call}
use dicon.Rpc.Calls.{message, request-message, request-message_over, response-reply, call_handler}

-- A byte more of the symbol is a byte more of the body.
encode_req_func_load_snoc :
    (so_handle symlen : ℕ) (symbol : Bytes)
    → encode_req_func_load
        (record { so_handle = so_handle; symlen = symlen; symbol = symbol ++ 0 ∷ [] })
      ≡ encode_req_func_load (record { so_handle = so_handle; symlen = symlen; symbol = symbol })
        ++ 0 ∷ []
unfolding encode_req_func_load
encode_req_func_load_snoc so_handle symlen symbol = sym (
    append_assoc (le_bytes 8 so_handle) (le_bytes 4 symlen ++ symbol) (0 ∷ [])
    ∙ ap (λ rest. le_bytes 8 so_handle ++ rest) (append_assoc (le_bytes 4 symlen) symbol (0 ∷ [])))

module _ {Host : Type 0} (os : Platform Host) where
  handle_run-created :
      (req : ReqRun) (p p' : Process Host) (tid : ℕ)
      → req.func_ptr < 2 ^ 64
      → req.args_ptr < 2 ^ 64
      → os.pthread_create req.func_ptr req.args_ptr p ≡ (tid, p')
      → handle_run os (encode_req_run req) p
        ≡ some (reply (encode_resp_run (record { tid = tid })), p')
  unfolding handle_run
  handle_run-created req p p' tid h_func h_args created =
      let got : RespRun = record { tid = tid } in
      rw (
        decode_req_run-encode_req_run req h_func h_args,
        created,
        response-reply os 8 (encode_resp_run got) (length-encode_resp_run got) (omega arith),
      )

  handle_join-joined :
      (req : ReqJoin) (p p' : Process Host) (ret : ℕ)
      → req.tid < 2 ^ 64
      → os.pthread_join req.tid p ≡ some (ret, p')
      → handle_join os (encode_req_join req) p
        ≡ some (reply (encode_resp_join (record { ret_ptr = ret })), p')
  unfolding handle_join
  handle_join-joined req p p' ret h_tid joined =
      let got : RespJoin = record { ret_ptr = ret } in
      rw (
        decode_req_join-encode_req_join req h_tid,
        joined,
        response-reply os 8 (encode_resp_join got) (length-encode_resp_join got) (omega arith),
      )

  handle_func_load-looked_up :
      (req : ReqFuncLoad) (p : Process Host) {name : Bytes}
      → req.so_handle < 2 ^ 64
      → req.symlen < 2 ^ 32
      → c_string (req.symbol ++ os.slack (12 + length req.symbol)) ≡ some name
      → handle_func_load os (encode_req_func_load req) p
        ≡ some (
          reply (encode_resp_func_load (record { func_ptr = os.dlsym req.so_handle name p.host })),
          p,
        )
  unfolding handle_func_load
  handle_func_load-looked_up req p {name} h_so h_len read =
      let got : RespFuncLoad = record { func_ptr = os.dlsym req.so_handle name p.host } in
      rw (
        decode_req_func_load-encode_req_func_load req h_so h_len,
        length-encode_req_func_load req,
        read,
        response-reply os 8 (encode_resp_func_load got) (length-encode_resp_func_load got)
            (omega arith),
      )

module _ {Host : Type 0} (slack : ℕ → Bytes) (os : Platform Host) (wire : Wire)
    (s : Session (NodeEnd Host)) (idle : IsIdle s) where
  -- `dic_rthread_run` is `pthread_create` on the node: it returns the identity of the thread that the
  -- node creates for the function and the argument at those addresses.
  pub dic_rthread_run-pthread_create :
      (func_ptr args_ptr tid : ℕ) (p' : Process Host)
      → func_ptr < 2 ^ 64
      → args_ptr < 2 ^ 64
      → tid < 2 ^ 64
      → os.pthread_create func_ptr args_ptr s.world.process ≡ (tid, p')
      → dic_rthread_run slack (node_peer os wire) func_ptr args_ptr s
        ≡ some (
          tid,
          after_call s
              (message dic_run
                (encode_req_run (record { func_ptr = func_ptr; args_ptr = args_ptr })))
              (reply (encode_resp_run (record { tid = tid })))
              p',
        )
  unfolding dic_rthread_run build_rthread_run handler_of
  dic_rthread_run-pthread_create func_ptr args_ptr tid p' h_func h_args h_tid created =
      let req : ReqRun = record { func_ptr = func_ptr; args_ptr = args_ptr } in
      let got : RespRun = record { tid = tid } in
      rw (
        request-message slack dic_run 16 (encode_req_run req) (length-encode_req_run req)
            (omega arith),
        call_handler os wire s dic_run (encode_req_run req) (handle_run os) (encode_resp_run got) p'
            idle refl (handle_run-created os req s.world.process p' tid h_func h_args created)
            (omega (arith, length-encode_req_run req)) (omega (arith, length-encode_resp_run got)),
        decode_resp_run-encode_resp_run got h_tid,
      )

  -- `dic_rthread_join` is `pthread_join` on the node, where that returns: it returns the pointer that
  -- the thread returned.
  pub dic_rthread_join-pthread_join :
      (tid ret : ℕ) (p' : Process Host)
      → tid < 2 ^ 64
      → ret < 2 ^ 64
      → os.pthread_join tid s.world.process ≡ some (ret, p')
      → dic_rthread_join slack (node_peer os wire) tid s
        ≡ some (
          ret,
          after_call s
              (message dic_join (encode_req_join (record { tid = tid })))
              (reply (encode_resp_join (record { ret_ptr = ret })))
              p',
        )
  unfolding dic_rthread_join build_rthread_join handler_of
  dic_rthread_join-pthread_join tid ret p' h_tid h_ret joined =
      let req : ReqJoin = record { tid = tid } in
      let got : RespJoin = record { ret_ptr = ret } in
      rw (
        request-message slack dic_join 8 (encode_req_join req) (length-encode_req_join req)
            (omega arith),
        call_handler os wire s dic_join (encode_req_join req) (handle_join os)
            (encode_resp_join got) p' idle refl
            (handle_join-joined os req s.world.process p' ret h_tid joined)
            (omega (arith, length-encode_req_join req))
            (omega (arith, length-encode_resp_join got)),
        decode_resp_join-encode_resp_join got h_ret,
      )

  -- `dic_func_load` looks up, on the node, the C string that starts with the symbol and runs on into
  -- what the node's allocator granted behind the body: the NUL that ends the symbol is not sent. It
  -- returns the address that `dlsym` gives for that name. The conditions: the allocators grant a byte
  -- behind the client's message, for that NUL, and a NUL behind the node's.
  pub dic_func_load-dlsym :
      (so_handle : ℕ) (symbol name : Bytes)
      → so_handle < 2 ^ 64
      → length symbol < 2 ^ 30
      → 1 ≤ length (slack (8 + (12 + length symbol)))
      → c_string (symbol ++ os.slack (12 + length symbol)) ≡ some name
      → os.dlsym so_handle name s.world.process.host < 2 ^ 64
      → dic_func_load_call slack (node_peer os wire) so_handle symbol s
        ≡ some (
          os.dlsym so_handle name s.world.process.host,
          after_call s
              (message dic_func_load (
                encode_req_func_load
                  (record { so_handle = so_handle; symlen = length symbol; symbol = symbol })))
              (reply (
                encode_resp_func_load
                  (record { func_ptr = os.dlsym so_handle name s.world.process.host })))
              s.world.process,
        )
  unfolding dic_func_load_call build_func_load handler_of
  dic_func_load-dlsym so_handle symbol name h_so fits granted read h_ptr =
      let req : ReqFuncLoad = record {
        so_handle = so_handle;
        symlen = length symbol;
        symbol = symbol;
      } in
      let got : RespFuncLoad = record { func_ptr = os.dlsym so_handle name s.world.process.host } in
      rw (
        encode_req_func_load_snoc so_handle (length symbol) symbol,
        request-message_over slack dic_func_load (12 + length symbol) (encode_req_func_load req)
            (0 ∷ []) (length-encode_req_func_load req) (omega arith) granted,
        call_handler os wire s dic_func_load (encode_req_func_load req) (handle_func_load os)
            (encode_resp_func_load got) s.world.process idle refl
            (handle_func_load-looked_up os req s.world.process h_so (omega arith) read)
            (omega (arith, length-encode_req_func_load req))
            (omega (arith, length-encode_resp_func_load got)),
        decode_resp_func_load-encode_resp_func_load got h_ptr,
      )
