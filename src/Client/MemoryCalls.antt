-- ===== src/Client/MemoryCalls.antt =====
-- `dic_rmalloc`, `dic_rrealloc`, `dic_rfree`, `dic_memcpy_c2n`, `dic_memcpy_n2c`, `dic_memcpy`. A remote
-- pointer is its address; its device is the session. An `int size` is its bit pattern.
use dicon.Base.{ℕ, ◌+◌, Option, some, ◌++◌, leb, length, take, drop, ◌==◌, if◌then◌else◌}
use dicon.Wire.{Bytes, ◌>>=◌, ◌>>◌, guard}
use dicon.Socket.{size_of_int}
use dicon.Protocol.{dic_malloc, dic_realloc, dic_free, dic_memcpy_c2n, dic_memcpy_n2c}
use dicon.Protocol.MemoryBodies.{
  encode_req_malloc, decode_resp_malloc, encode_req_realloc, decode_resp_realloc, encode_req_free,
  decode_resp_free,
}
use dicon.Protocol.CopyBodies.{
  encode_req_memcpy_c2n, decode_resp_memcpy_c2n, encode_req_memcpy_n2c, decode_resp_memcpy_n2c,
}
use dicon.Client.Transport.{Peer, Call, request, dic_atomic_send_recv}

module _ (slack : ℕ → Bytes) where
  unfoldable pub build_rmalloc_req : ℕ → Option Bytes
  build_rmalloc_req size = request slack dic_malloc 4 (encode_req_malloc (record { size = size }))

  unfoldable pub build_rrealloc_req : ℕ → ℕ → Option Bytes
  build_rrealloc_req rvoid size =
      request slack dic_realloc 12 (encode_req_realloc (record { void_ptr = rvoid; size = size }))

  unfoldable pub build_rfree_req : ℕ → Option Bytes
  build_rfree_req rvoid = request slack dic_free 8 (encode_req_free (record { void_ptr = rvoid }))

  -- `memcpy` reads `size` bytes, as a `size_t`, at `local`.
  unfoldable pub build_memcpy_c2n_req : Bytes → ℕ → ℕ → Option Bytes
  build_memcpy_c2n_req local remote size = do
    guard (leb (size_of_int size) (length local))
    request slack dic_memcpy_c2n (12 + size_of_int size) (
        encode_req_memcpy_c2n
          (record { dest = remote; data_size = size; content = take (size_of_int size) local }))

  unfoldable pub build_memcpy_n2c_req : ℕ → ℕ → Option Bytes
  build_memcpy_n2c_req remote size =
      request slack dic_memcpy_n2c 12
        (encode_req_memcpy_n2c (record { src = remote; data_size = size }))

  module _ {World : Type 0} (peer : Peer World) where
    unfoldable pub dic_rmalloc : ℕ → Call World ℕ
    dic_rmalloc size s = do
      msg ← build_rmalloc_req size
      (rcv, s') ← dic_atomic_send_recv peer msg s
      body ← decode_resp_malloc rcv
      some (body.mem_address, s')

    unfoldable pub dic_rrealloc : ℕ → ℕ → Call World ℕ
    dic_rrealloc rvoid size s = do
      msg ← build_rrealloc_req rvoid size
      (rcv, s') ← dic_atomic_send_recv peer msg s
      body ← decode_resp_realloc rcv
      some (body.mem_address, s')

    -- The `int8_t` that is returned, as its bit pattern.
    unfoldable pub dic_rfree : ℕ → Call World ℕ
    dic_rfree rvoid s = do
      msg ← build_rfree_req rvoid
      (rcv, s') ← dic_atomic_send_recv peer msg s
      body ← decode_resp_free rcv
      some (body.err, s')

    unfoldable pub dic_memcpy_c2n_call : Bytes → ℕ → ℕ → Call World ℕ
    dic_memcpy_c2n_call local remote size s = do
      msg ← build_memcpy_c2n_req local remote size
      (rcv, s') ← dic_atomic_send_recv peer msg s
      body ← decode_resp_memcpy_c2n rcv
      some (body.err, s')

    -- The result is 0, and what `local` holds afterwards: the node says how many bytes are copied.
    unfoldable pub dic_memcpy_n2c_call : Bytes → ℕ → ℕ → Call World (ℕ × Bytes)
    dic_memcpy_n2c_call local remote size s = do
      msg ← build_memcpy_n2c_req remote size
      (rcv, s') ← dic_atomic_send_recv peer msg s
      body ← decode_resp_memcpy_n2c rcv
      guard (leb body.data_size (length body.content))
      guard (leb body.data_size (length local))
      some ((0, take body.data_size body.content ++ drop body.data_size local), s')

    -- `enum DIC_MEMCPY_MODE` is a number here: any other value than the two is answered by 1.
    unfoldable pub dic_memcpy : Bytes → ℕ → ℕ → ℕ → Call World (ℕ × Bytes)
    dic_memcpy local remote size mode s =
        if mode == 0
        then (do (err, s') ← dic_memcpy_c2n_call local remote size s; some ((err, local), s'))
        else (if mode == 1 then dic_memcpy_n2c_call local remote size s else some ((1, local), s))
