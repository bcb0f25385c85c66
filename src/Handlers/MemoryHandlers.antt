-- ===== src/Handlers/MemoryHandlers.antt =====
-- `handle_malloc`, `handle_realloc`, `handle_free`, `handle_memcpy_c2n`, `handle_memcpy_n2c`.
use dicon.Base.{◌+◌, some, ◌++◌, leb, ◌==◌, if◌then◌else◌, length, take}
use dicon.Wire.{◌>>=◌, ◌>>◌, guard}
use dicon.Memory.{load_bytes, store_bytes, malloc, realloc, free}
use dicon.Platform.{Platform}
use dicon.Handlers.Reply.{Handler, response}
use dicon.Protocol.MemoryBodies.{
  decode_req_malloc, encode_resp_malloc, decode_req_realloc, encode_resp_realloc, decode_req_free,
  encode_resp_free,
}
use dicon.Protocol.CopyBodies.{
  decode_req_memcpy_c2n, encode_resp_memcpy_c2n, decode_req_memcpy_n2c, encode_resp_memcpy_n2c,
}

module _ {Host : Type 0} (os : Platform Host) where
  unfoldable pub handle_malloc : Handler Host
  handle_malloc body p = do
    req ← decode_req_malloc body
    if req.size == 0
        then (do
          msg ← response os 8 (encode_resp_malloc (record { mem_address = 0 }))
          some (msg, p))
        else (do
          let (ptr, memory) = malloc os.junk (os.place p.memory req.size) req.size p.memory
          msg ← response os 8 (encode_resp_malloc (record { mem_address = ptr }))
          some (msg, record p { memory = memory }))

  unfoldable pub handle_realloc : Handler Host
  handle_realloc body p = do
    req ← decode_req_realloc body
    let q = os.replace p.memory req.void_ptr req.size
    (ptr, memory) ← realloc os.junk q req.void_ptr req.size p.memory
    msg ← response os 8 (encode_resp_realloc (record { mem_address = ptr }))
    some (msg, record p { memory = memory })

  unfoldable pub handle_free : Handler Host
  handle_free body p = do
    req ← decode_req_free body
    memory ← free req.void_ptr p.memory
    msg ← response os 1 (encode_resp_free (record { err = 0 }))
    some (msg, record p { memory = memory })

  -- `memcpy` reads the bytes behind the structure, which may run into the slack of the body's block.
  unfoldable pub handle_memcpy_c2n : Handler Host
  handle_memcpy_c2n body p = do
    req ← decode_req_memcpy_c2n body
    let source = req.content ++ os.slack (length body)
    guard (leb req.data_size (length source))
    memory ← store_bytes (take req.data_size source) req.dest p.memory
    msg ← response os 4 (encode_resp_memcpy_c2n (record { err = 0 }))
    some (msg, record p { memory = memory })

  unfoldable pub handle_memcpy_n2c : Handler Host
  handle_memcpy_n2c body p = do
    req ← decode_req_memcpy_n2c body
    bytes ← load_bytes req.data_size req.src p.memory
    msg ←
        response os (4 + req.data_size)
          (encode_resp_memcpy_n2c (record { data_size = req.data_size; content = bytes }))
    some (msg, p)
