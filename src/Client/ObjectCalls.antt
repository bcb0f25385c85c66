-- ===== src/Client/ObjectCalls.antt =====
-- `dic_so_load`, `dic_so_unload`, `dic_so_upload`, `dic_so_verify`. A C string is its bytes, the NUL left
-- out; a file is its bytes, `none` where `fopen` fails.
use dicon.Base.{ℕ, ◌+◌, Option, some, [], ◌∷◌, ◌++◌, length}
use dicon.Wire.{Bytes, ◌>>=◌}
use dicon.Protocol.{dic_so_load, dic_so_unload, dic_so_upload}
use dicon.Protocol.ObjectBodies.{
  encode_req_so_load, decode_resp_so_load, encode_req_so_unload, decode_resp_so_unload,
  encode_req_so_upload, decode_resp_so_upload, encode_req_so_verify, decode_resp_so_verify,
}
use dicon.Client.Transport.{Peer, Call, request, dic_atomic_send_recv}

module _ (slack : ℕ → Bytes) where
  unfoldable pub build_so_load : Bytes → Option Bytes
  build_so_load name =
      let name_len = length name + 1 in
      request slack dic_so_load (4 + name_len)
        (encode_req_so_load (record { so_len = name_len; so_name = name ++ 0 ∷ [] }))

  unfoldable pub build_so_unload : ℕ → Option Bytes
  build_so_unload handle =
      request slack dic_so_unload 8 (encode_req_so_unload (record { handle = handle }))

  unfoldable pub build_so_upload : Option Bytes → Bytes → Option Bytes
  build_so_upload so_file remote_name = do
    file ← so_file
    let name_len = length remote_name
    request slack dic_so_upload (12 + (name_len + 1 + length file)) (
        encode_req_so_upload (record {
          file_size = length file;
          name_len = name_len;
          name_null_file = remote_name ++ 0 ∷ file;
        }))

  -- It states the operation DIC_SO_LOAD, and nothing calls it.
  unfoldable pub build_so_verify : Bytes → Option Bytes
  build_so_verify name =
      let name_len = length name + 1 in
      request slack dic_so_load (4 + name_len)
        (encode_req_so_verify (record { so_len = name_len; so_name = name ++ 0 ∷ [] }))

  module _ {World : Type 0} (peer : Peer World) where
    unfoldable pub dic_so_load_call : Bytes → Call World ℕ
    dic_so_load_call name s = do
      msg ← build_so_load name
      (rcv, s') ← dic_atomic_send_recv peer msg s
      body ← decode_resp_so_load rcv
      some (body.handle, s')

    unfoldable pub dic_so_unload_call : ℕ → Call World ℕ
    dic_so_unload_call handle s = do
      msg ← build_so_unload handle
      (rcv, s') ← dic_atomic_send_recv peer msg s
      body ← decode_resp_so_unload rcv
      some (body.success, s')

    unfoldable pub dic_so_upload_call : Option Bytes → Bytes → Call World ℕ
    dic_so_upload_call so_file remote_name s = do
      msg ← build_so_upload so_file remote_name
      (rcv, s') ← dic_atomic_send_recv peer msg s
      body ← decode_resp_so_upload rcv
      some (body.success, s')

    -- The request is built by `build_so_load`.
    unfoldable pub dic_so_verify_call : Bytes → Call World ℕ
    dic_so_verify_call name s = do
      msg ← build_so_load name
      (rcv, s') ← dic_atomic_send_recv peer msg s
      body ← decode_resp_so_verify rcv
      some (body.checksum, s')
