-- ===== src/Rpc/Runs.antt =====
-- The calls on the sample node.
use dicon.Base.{ℕ, ◌+◌, ◌≡◌, refl, none, some, List, [], ◌∷◌, arith, if◌then◌else◌}
use dicon.Wire.{Bytes}
use dicon.Memory.{Memory, allocate, store_bytes, load_bytes, realloc, free, update, within}
use dicon.Protocol.{dic_realloc, dic_memcpy_c2n, dic_memcpy_n2c}
use dicon.Protocol.MemoryBodies.{encode_req_realloc, encode_resp_realloc, encode_req_free}
use dicon.Protocol.CopyBodies.{
  encode_req_memcpy_c2n, encode_resp_memcpy_c2n, encode_req_memcpy_n2c, encode_resp_memcpy_n2c,
}
use dicon.Client.Transport.{Session}
use dicon.Client.MemoryCalls.{
  dic_rmalloc, dic_rrealloc, dic_rfree, dic_memcpy_c2n_call, dic_memcpy_n2c_call,
}
use dicon.Rpc.{NodeEnd, node_peer}
use dicon.Rpc.Transparent.{reply, after_call}
use dicon.Rpc.Calls.{message}
use dicon.Rpc.MemoryOps.{dic_rrealloc-realloc}
use dicon.Rpc.Copies.{dic_memcpy_c2n-store, dic_memcpy_n2c-load}
use dicon.Rpc.Lifecycle.{remote_buffer}
use dicon.Rpc.Sample.{
  os, os-Allocates, wire, empty, four_bytes, block_start, session, session-IsIdle,
}

abbrev slack : ℕ → Bytes
slack n = 0 ∷ []

abbrev free_body : Bytes
free_body = encode_req_free (record { void_ptr = block_start })

-- The memory of `four_bytes` after the block is freed.
abbrev freed : Memory
freed = record {
  cell = λ q. if within block_start 4 q then none else four_bytes.cell q;
  block = update four_bytes.block block_start none;
}

freed_is : free block_start four_bytes ≡ some freed
unfolding free allocate
freed_is = refl

abbrev node : Memory → NodeEnd (List Bytes)
node m = (session m).world

remote_buffer_example :
    (s1 s2 s3 s4 : Session (NodeEnd (List Bytes))) × (dic_rmalloc slack
        (node_peer os wire)
        3
        (session empty)
      ≡ some (block_start, s1))
    × (dic_memcpy_c2n_call slack (node_peer os wire) (1 ∷ 2 ∷ 3 ∷ []) block_start 3 s1
        ≡ some (0, s2))
    × (dic_memcpy_n2c_call slack (node_peer os wire) (9 ∷ 9 ∷ 9 ∷ 9 ∷ []) block_start 3 s2
        ≡ some ((0, 1 ∷ 2 ∷ 3 ∷ 9 ∷ []), s3))
    × (dic_rfree slack (node_peer os wire) block_start s3 ≡ some (0, s4))
    × ((q : ℕ) → s4.world.process.memory.cell q ≡ none)
remote_buffer_example =
    remote_buffer slack os wire (session empty) (1 ∷ 2 ∷ 3 ∷ []) (9 ∷ 9 ∷ 9 ∷ 9 ∷ [])
      (session-IsIdle empty) os-Allocates (omega arith) (omega arith) (omega arith) (omega arith)

-- A block keeps its place under `realloc`, and its contents.
abbrev grown : Memory
grown = record {
  cell =
      update
        (update
          (update
            (update (λ q. if within block_start 6 q then some 170 else freed.cell q) block_start
              (some 170))
            (block_start + 1) (some 170))
          (block_start + 2) (some 170))
        (block_start + 3) (some 170);
  block = update freed.block block_start (some 6);
}

dic_rrealloc-realloc_example :
    dic_rrealloc slack (node_peer os wire) block_start 6 (session four_bytes)
    ≡ some (
      block_start,
      after_call
          (session four_bytes)
          (message dic_realloc (encode_req_realloc (record { void_ptr = block_start; size = 6 })))
          (reply (encode_resp_realloc (record { mem_address = block_start })))
          (record { memory = grown; host = [] }),
    )
unfolding realloc free allocate load_bytes store_bytes
dic_rrealloc-realloc_example =
    dic_rrealloc-realloc slack os wire (session four_bytes) (session-IsIdle four_bytes) block_start
      6 block_start grown (omega arith) (omega arith) (omega arith) refl

-- Two bytes are written to the block.
abbrev written : Memory
written = record four_bytes {
  cell = update (update four_bytes.cell block_start (some 1)) (block_start + 1) (some 2);
}

dic_memcpy_c2n-store_example :
    dic_memcpy_c2n_call slack
      (node_peer os wire)
      (1 ∷ 2 ∷ 3 ∷ [])
      block_start
      2
      (session four_bytes)
    ≡ some (
      0,
      after_call
          (session four_bytes)
          (message dic_memcpy_c2n (
            encode_req_memcpy_c2n
              (record { dest = block_start; data_size = 2; content = 1 ∷ 2 ∷ [] })))
          (reply (encode_resp_memcpy_c2n (record { err = 0 })))
          (record { memory = written; host = [] }),
    )
unfolding store_bytes allocate
dic_memcpy_c2n-store_example =
    dic_memcpy_c2n-store slack os wire (session four_bytes) (session-IsIdle four_bytes)
      (1 ∷ 2 ∷ 3 ∷ []) block_start 2 written (omega arith) (omega arith) (omega arith) refl

dic_memcpy_n2c-load_example :
    dic_memcpy_n2c_call slack
      (node_peer os wire)
      (5 ∷ 6 ∷ 7 ∷ [])
      block_start
      2
      (session four_bytes)
    ≡ some (
      (0, 170 ∷ 170 ∷ 7 ∷ []),
      after_call
          (session four_bytes)
          (message dic_memcpy_n2c
            (encode_req_memcpy_n2c (record { src = block_start; data_size = 2 })))
          (reply (encode_resp_memcpy_n2c (record { data_size = 2; content = 170 ∷ 170 ∷ [] })))
          (record { memory = four_bytes; host = [] }),
    )
unfolding load_bytes allocate
dic_memcpy_n2c-load_example =
    dic_memcpy_n2c-load slack os wire (session four_bytes) (session-IsIdle four_bytes)
      (5 ∷ 6 ∷ 7 ∷ []) block_start 2 (170 ∷ 170 ∷ []) (omega arith) (omega arith) (omega arith) refl
