-- ===== src/Rpc/Objects.antt =====
-- `dic_so_load`, `dic_so_unload`, `dic_so_upload` and `dic_so_verify` between a client and a node.
pub mod Handled
pub use Handled.{IsCString, c_string_nul, load_of, upload_of}
use dicon.Base.{
  ℕ, suc, ◌+◌, ◌<◌, ◌≤◌, ◌^◌, ◌≡◌, ◌≢◌, refl, ap, ◌∙◌, none, some, [], ◌∷◌, ◌++◌, arith, le→leb,
  All, length, drop, take-append_at, append_assoc, length-append,
}
use dicon.Wire.{Bytes}
use dicon.Wire.Fields.{get_field-le_bytes_all}
use dicon.Platform.{Platform, Process}
use dicon.Protocol.{dic_so_load, dic_so_unload, dic_so_upload}
use dicon.Protocol.ObjectBodies.{
  ReqSoLoad, encode_req_so_load, decode_req_so_load-encode_req_so_load, length-encode_req_so_load,
  RespSoLoad, encode_resp_so_load, decode_resp_so_load-encode_resp_so_load,
  length-encode_resp_so_load, ReqSoUnload, encode_req_so_unload,
  decode_req_so_unload-encode_req_so_unload, length-encode_req_so_unload, RespSoUnload,
  encode_resp_so_unload, decode_resp_so_unload-encode_resp_so_unload, length-encode_resp_so_unload,
  ReqSoUpload, encode_req_so_upload, decode_req_so_upload-encode_req_so_upload,
  length-encode_req_so_upload, decode_resp_so_verify, RespSoUpload, encode_resp_so_upload,
  decode_resp_so_upload-encode_resp_so_upload, length-encode_resp_so_upload,
}
use dicon.Handlers.Reply.{c_string}
use dicon.Handlers.ObjectHandlers.{
  so_path, so_suffix, so_path_capacity, format_so_path, handle_so_load, handle_so_unload,
  handle_so_upload,
}
use dicon.Node.{handler_of}
use dicon.Client.Transport.{Session, dic_atomic_send_recv}
use dicon.Client.ObjectCalls.{
  build_so_load, build_so_unload, build_so_upload, dic_so_load_call, dic_so_unload_call,
  dic_so_upload_call, dic_so_verify_call,
}
use dicon.Rpc.{NodeEnd, Wire, node_peer, IsIdle}
use dicon.Rpc.Transparent.{reply, after_call}
use dicon.Rpc.Calls.{message, request-message, response-reply, call_handler}
use dicon.Rpc.Objects.Handled.{
  decode_resp_so_verify_load, handle_so_load-opened, handle_so_unload-closed,
  handle_so_upload-written,
}

module _ {Host : Type 0} (slack : ℕ → Bytes) (os : Platform Host) (wire : Wire)
    (s : Session (NodeEnd Host)) (idle : IsIdle s) where
  -- The session after the load of a shared object.
  abbrev pub after_load : Bytes → ℕ → Host → Session (NodeEnd Host)
  after_load name handle host =
      after_call s (message dic_so_load (encode_req_so_load (load_of name)))
        (reply (encode_resp_so_load (record { handle = handle })))
        (record s.world.process { host = host })

  module _ (name : Bytes) (handle : ℕ) (host : Host) (is : IsCString name)
      (fits : length name < 2 ^ 30)
      (granted : 2 ≤ length (os.slack (so_path_capacity (length name + 1))))
      (h_handle : handle < 2 ^ 64)
      (opened : os.dlopen (so_path name) s.world.process.host ≡ (handle, host)) where
    requested :
        build_so_load slack name ≡ some (message dic_so_load (encode_req_so_load (load_of name)))
    unfolding build_so_load
    requested =
        request-message slack dic_so_load (4 + (length name + 1))
          (encode_req_so_load (load_of name))
          (omega (arith, length-encode_req_so_load (load_of name), length-append name (0 ∷ [])))
          (omega arith)

    exchanged :
        dic_atomic_send_recv
          (node_peer os wire)
          (message dic_so_load (encode_req_so_load (load_of name)))
          s
        ≡ some (encode_resp_so_load (record { handle = handle }), after_load name handle host)
    unfolding handler_of
    exchanged =
        call_handler os wire s dic_so_load (encode_req_so_load (load_of name)) (handle_so_load os)
          (encode_resp_so_load (record { handle = handle }))
          (record s.world.process { host = host }) idle refl
          (handle_so_load-opened os name s.world.process is fits granted opened)
          (omega (arith, length-encode_req_so_load (load_of name), length-append name (0 ∷ [])))
          (omega (arith, length-encode_resp_so_load (record { handle = handle })))

    -- `dic_so_load` is `dlopen` on the node, of "user_objects/", the name and ".so": it returns the
    -- handle that the node's loader gives. The condition on the node's allocator: it grants two bytes
    -- more than the handler asks for the path.
    pub dic_so_load-dlopen :
        dic_so_load_call slack (node_peer os wire) name s
        ≡ some (handle, after_load name handle host)
    unfolding dic_so_load_call
    dic_so_load-dlopen = rw (
      requested,
      exchanged,
      decode_resp_so_load-encode_resp_so_load (record { handle = handle }) h_handle,
    )

    -- `dic_so_verify` returns no checksum: it opens the object on the node as `dic_so_load` does, and
    -- returns the handle, under the same conditions.
    pub dic_so_verify-dlopen :
        dic_so_verify_call slack (node_peer os wire) name s
        ≡ some (handle, after_load name handle host)
    unfolding dic_so_verify_call
    dic_so_verify-dlopen = rw (requested, exchanged, decode_resp_so_verify_load handle h_handle)

  -- `dic_so_unload` is `dlclose` on the node; it returns 0 whatever `dlclose` returns.
  pub dic_so_unload-dlclose :
      (handle : ℕ)
      → handle < 2 ^ 64
      → dic_so_unload_call slack (node_peer os wire) handle s
        ≡ some (
          0,
          after_call s
              (message dic_so_unload (encode_req_so_unload (record { handle = handle })))
              (reply (encode_resp_so_unload (record { success = 0 })))
              (record s.world.process { host = os.dlclose handle s.world.process.host }),
        )
  unfolding dic_so_unload_call build_so_unload handler_of
  dic_so_unload-dlclose handle fits =
      let req : ReqSoUnload = record { handle = handle } in
      let got : RespSoUnload = record { success = 0 } in
      rw (
        request-message slack dic_so_unload 8 (encode_req_so_unload req)
            (length-encode_req_so_unload req) (omega arith),
        call_handler os wire s dic_so_unload (encode_req_so_unload req) (handle_so_unload os)
            (encode_resp_so_unload got)
            (record s.world.process { host = os.dlclose handle s.world.process.host }) idle refl
            (handle_so_unload-closed os handle s.world.process fits)
            (omega (arith, length-encode_req_so_unload req))
            (omega (arith, length-encode_resp_so_unload got)),
        decode_resp_so_unload-encode_resp_so_unload got (omega arith),
      )

  -- `dic_so_upload` writes the client's file on the node, under "user_objects/", the remote name and
  -- ".so", and returns what the node's new response block held: the handler does not set the result.
  -- The conditions: both ends are idle, the name is a C string, the name and the file together are
  -- shorter than 2^30 bytes, the node can open the path for writing, and what the block held has 32 bits.
  pub dic_so_upload-write_file :
      (name file : Bytes) (host : Host)
      → IsCString name
      → length name + length file < 2 ^ 30
      → os.write_file (so_path name) file s.world.process.host ≡ some host
      → os.stale s.world.process < 2 ^ 32
      → dic_so_upload_call slack (node_peer os wire) (some file) name s
        ≡ some (
          os.stale s.world.process,
          after_call s
              (message dic_so_upload (encode_req_so_upload (upload_of name file)))
              (reply (encode_resp_so_upload (record { success = os.stale s.world.process })))
              (record s.world.process { host = host }),
        )
  unfolding dic_so_upload_call build_so_upload handler_of
  dic_so_upload-write_file name file host is fits written h_stale =
      let req = upload_of name file in
      let got : RespSoUpload = record { success = os.stale s.world.process } in
      let body = encode_req_so_upload req in
      let size = 12 + (length name + 1 + length file) in
      let sized : length body ≡ size =
        omega (arith, length-encode_req_so_upload req, length-append name (0 ∷ file)) in
      rw (
        request-message slack dic_so_upload size body sized (omega arith),
        call_handler os wire s dic_so_upload body (handle_so_upload os) (encode_resp_so_upload got)
            (record s.world.process { host = host }) idle refl
            (handle_so_upload-written os name file s.world.process is fits written) (omega arith)
            (omega (arith, length-encode_resp_so_upload got)),
        decode_resp_so_upload-encode_resp_so_upload got h_stale,
      )
