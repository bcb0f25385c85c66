-- ===== src/Rpc/Objects/Handled.antt =====
-- What the node's handlers of shared objects do with the requests of the client's calls.
use dicon.Base.{
  ℕ, suc, ◌+◌, ◌<◌, ◌≤◌, ◌^◌, ◌≡◌, ◌≢◌, refl, ap, ◌∙◌, none, some, [], ◌∷◌, ◌++◌, arith, le→leb,
  All, length, drop, take-append_at, append_assoc, length-append,
}
use dicon.Wire.{Bytes}
use dicon.Wire.Fields.{get_field-le_bytes_all}
use dicon.Platform.{Platform, Process}
use dicon.Protocol.ObjectBodies.{
  ReqSoLoad, encode_req_so_load, decode_req_so_load-encode_req_so_load, RespSoLoad,
  encode_resp_so_load, length-encode_resp_so_load, encode_req_so_unload,
  decode_req_so_unload-encode_req_so_unload, RespSoUnload, encode_resp_so_unload,
  length-encode_resp_so_unload, ReqSoUpload, encode_req_so_upload,
  decode_req_so_upload-encode_req_so_upload, decode_resp_so_verify, RespSoUpload,
  encode_resp_so_upload, length-encode_resp_so_upload,
}
use dicon.Handlers.Reply.{c_string}
use dicon.Handlers.ObjectHandlers.{
  so_path, so_suffix, so_path_capacity, format_so_path, handle_so_load, handle_so_unload,
  handle_so_upload,
}
use dicon.Rpc.Transparent.{reply}
use dicon.Rpc.Calls.{response-reply}

-- No byte of a C string is NUL.
abbrev pub IsCString : Bytes → Type 0
IsCString = All (λ c. c ≢ 0)

pub c_string_nul : (name rest : Bytes) → IsCString name → c_string (name ++ 0 ∷ rest) ≡ some name
unfolding c_string
c_string_nul [] rest is = refl
c_string_nul (c ∷ name) rest (other, is) = rw (c_string_nul name rest is) (ground (arith, other))

drop_behind :
    (name : Bytes) (b : ℕ) (rest : Bytes) → drop (suc (length name)) (name ++ b ∷ rest) ≡ rest
drop_behind [] b rest = refl
drop_behind (c ∷ name) b rest = drop_behind name b rest

drop_past : (name : Bytes) (b : ℕ) (rest : Bytes) → drop (length name + 1) (name ++ b ∷ rest) ≡ rest
drop_past name b rest =
    let next : length name + 1 ≡ suc (length name) = omega arith in
    ap (λ n. drop n (name ++ b ∷ rest)) next ∙ drop_behind name b rest

-- The request of `dic_so_load`.
abbrev pub load_of : Bytes → ReqSoLoad
load_of name = record { so_len = length name + 1; so_name = name ++ 0 ∷ [] }

-- The request of `dic_so_upload`.
abbrev pub upload_of : Bytes → Bytes → ReqSoUpload
upload_of name file = record {
  file_size = length file;
  name_len = length name;
  name_null_file = name ++ 0 ∷ file;
}

-- The response of `dic_so_load`, read as that of `dic_so_verify`.
pub decode_resp_so_verify_load :
    (handle : ℕ)
    → handle < 2 ^ 64
    → decode_resp_so_verify (encode_resp_so_load (record { handle = handle }))
      ≡ some (record { checksum = handle })
unfolding encode_resp_so_load decode_resp_so_verify
decode_resp_so_verify_load handle fits = rw (get_field-le_bytes_all 8 handle fits)

module _ {Host : Type 0} (os : Platform Host) where
  format_so_path-cases :
      (name : Bytes)
      → (length (os.slack (so_path_capacity (length name + 1))) < 2
          → format_so_path os (length name + 1) name ≡ none)
        × (2 ≤ length (os.slack (so_path_capacity (length name + 1)))
            → format_so_path os (length name + 1) name ≡ some (so_path name))
  unfolding format_so_path
  format_so_path-cases name = ground (arith, length-append name so_suffix)

  pub handle_so_load-opened :
      (name : Bytes) (p : Process Host) {handle : ℕ} {host : Host}
      → IsCString name
      → length name < 2 ^ 30
      → 2 ≤ length (os.slack (so_path_capacity (length name + 1)))
      → os.dlopen (so_path name) p.host ≡ (handle, host)
      → handle_so_load os (encode_req_so_load (load_of name)) p
        ≡ some (reply (encode_resp_so_load (record { handle = handle })), record p { host = host })
  unfolding handle_so_load
  handle_so_load-opened name p {handle} is fits granted opened =
      let got : RespSoLoad = record { handle = handle } in
      let slack = os.slack (length (encode_req_so_load (load_of name))) in
      let read : c_string ((name ++ 0 ∷ []) ++ slack) ≡ some name =
        rw (append_assoc name (0 ∷ []) slack) (c_string_nul name slack is) in
      rw (
        decode_req_so_load-encode_req_so_load (load_of name) (omega arith),
        read,
        (format_so_path-cases name).1 granted,
        opened,
        response-reply os 8 (encode_resp_so_load got) (length-encode_resp_so_load got)
            (omega arith),
      )

  pub handle_so_unload-closed :
      (handle : ℕ) (p : Process Host)
      → handle < 2 ^ 64
      → handle_so_unload os (encode_req_so_unload (record { handle = handle })) p
        ≡ some (
          reply (encode_resp_so_unload (record { success = 0 })),
          record p { host = os.dlclose handle p.host },
        )
  unfolding handle_so_unload
  handle_so_unload-closed handle p fits =
      let got : RespSoUnload = record { success = 0 } in
      rw (
        decode_req_so_unload-encode_req_so_unload (record { handle = handle }) fits,
        response-reply os 4 (encode_resp_so_unload got) (length-encode_resp_so_unload got)
            (omega arith),
      )

  pub handle_so_upload-written :
      (name file : Bytes) (p : Process Host) {host : Host}
      → IsCString name
      → length name + length file < 2 ^ 30
      → os.write_file (so_path name) file p.host ≡ some host
      → handle_so_upload os (encode_req_so_upload (upload_of name file)) p
        ≡ some (
          reply (encode_resp_so_upload (record { success = os.stale p })),
          record p { host = host },
        )
  unfolding handle_so_upload
  handle_so_upload-written name file p is fits written =
      let got : RespSoUpload = record { success = os.stale p } in
      let slack = os.slack (length (encode_req_so_upload (upload_of name file))) in
      let behind : (name ++ 0 ∷ file) ++ slack ≡ name ++ 0 ∷ (file ++ slack) =
        append_assoc name (0 ∷ file) slack in
      let dropped : drop (length name + 1) (name ++ 0 ∷ (file ++ slack)) ≡ file ++ slack =
        drop_past name 0 (file ++ slack) in
      rw (
        decode_req_so_upload-encode_req_so_upload (upload_of name file) (omega arith) (omega arith),
        behind,
        c_string_nul name (file ++ slack) is,
        dropped,
        le→leb (length file) (length (file ++ slack)) (omega (arith, length-append file slack)),
        take-append_at (length file) file slack refl,
        written,
        response-reply os 4 (encode_resp_so_upload got) (length-encode_resp_so_upload got)
            (omega arith),
      )

-- `handle_so_load` overruns the block that it allocates for the path, for every name that a client
-- asks for, unless the allocator grants two bytes more than it is asked for.
pub handle_so_load-overrun :
    {Host : Type 0} (os : Platform Host) (name : Bytes) (p : Process Host)
    → IsCString name
    → length name < 2 ^ 30
    → length (os.slack (so_path_capacity (length name + 1))) < 2
    → handle_so_load os (encode_req_so_load (load_of name)) p ≡ none
unfolding handle_so_load
handle_so_load-overrun os name p is fits short =
    let slack = os.slack (length (encode_req_so_load (load_of name))) in
    let read : c_string ((name ++ 0 ∷ []) ++ slack) ≡ some name =
      rw (append_assoc name (0 ∷ []) slack) (c_string_nul name slack is) in
    rw (
      decode_req_so_load-encode_req_so_load (load_of name) (omega arith),
      read,
      (format_so_path-cases os name).0 short,
    )
