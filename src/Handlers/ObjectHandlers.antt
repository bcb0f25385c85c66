-- ===== src/Handlers/ObjectHandlers.antt =====
-- `handle_so_load`, `handle_so_unload`, `handle_so_upload`, `handle_so_verify`.
use dicon.Base.{ℕ, ◌+◌, Option, some, [], ◌∷◌, ◌++◌, leb, length, take, drop}
use dicon.Wire.{Bytes, ◌>>=◌, ◌>>◌, guard}
use dicon.Platform.{Platform}
use dicon.Checksum.{dic_checksum}
use dicon.Handlers.Reply.{Handler, response, c_string}
use dicon.Protocol.ObjectBodies.{
  decode_req_so_load, encode_resp_so_load, decode_req_so_unload, encode_resp_so_unload,
  decode_req_so_upload, encode_resp_so_upload, decode_req_so_verify, encode_resp_so_verify,
}

-- "user_objects/"
abbrev pub so_path_prefix : Bytes
so_path_prefix =
    b'u' ∷ b's' ∷ b'e' ∷ b'r' ∷ b'_' ∷ b'o' ∷ b'b' ∷ b'j' ∷ b'e' ∷ b'c' ∷ b't' ∷ b's' ∷ b'/' ∷ []

-- ".so"
abbrev pub so_suffix : Bytes
so_suffix = b'.' ∷ b's' ∷ b'o' ∷ []

abbrev pub so_path : Bytes → Bytes
so_path name = so_path_prefix ++ (name ++ so_suffix)

-- The bytes that `sprintf(so_path, "%s%s.so", …)` writes, its NUL included, and the bytes that
-- `malloc(sizeof(so_path_prefix) + so_len)` is asked for.
abbrev pub so_path_written : Bytes → ℕ
so_path_written name = length (so_path name) + 1

abbrev pub so_path_capacity : ℕ → ℕ
so_path_capacity so_len = (length so_path_prefix + 1) + so_len

module _ {Host : Type 0} (os : Platform Host) where
  -- Formatting the path into the block that is allocated for it.
  unfoldable pub format_so_path : ℕ → Bytes → Option Bytes
  format_so_path so_len name = do
    let capacity = so_path_capacity so_len
    guard (leb (so_path_written name) (capacity + length (os.slack capacity)))
    some (so_path name)

  unfoldable pub handle_so_load : Handler Host
  unfolding format_so_path
  handle_so_load body p = do
    req ← decode_req_so_load body
    name ← c_string (req.so_name ++ os.slack (length body))
    path ← format_so_path req.so_len name
    let (handle, host) = os.dlopen path p.host
    msg ← response os 8 (encode_resp_so_load (record { handle = handle }))
    some (msg, record p { host = host })

  unfoldable pub handle_so_unload : Handler Host
  handle_so_unload body p = do
    req ← decode_req_so_unload body
    msg ← response os 4 (encode_resp_so_unload (record { success = 0 }))
    some (msg, record p { host = os.dlclose req.handle p.host })

  -- `success` is never set: what the new block holds there is sent.
  unfoldable pub handle_so_upload : Handler Host
  handle_so_upload body p = do
    req ← decode_req_so_upload body
    let bytes = req.name_null_file ++ os.slack (length body)
    name ← c_string bytes
    let file = drop (req.name_len + 1) bytes
    guard (leb req.file_size (length file))
    host ← os.write_file (so_path name) (take req.file_size file) p.host
    msg ← response os 4 (encode_resp_so_upload (record { success = os.stale p }))
    some (msg, record p { host = host })

  unfoldable pub handle_so_verify : Handler Host
  handle_so_verify body p = do
    req ← decode_req_so_verify body
    name ← c_string (req.so_name ++ os.slack (length body))
    checksum ← dic_checksum (os.read_file (so_path name) p.host)
    msg ← response os 8 (encode_resp_so_verify (record { checksum = checksum }))
    some (msg, p)
