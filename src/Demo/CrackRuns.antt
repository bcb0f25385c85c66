-- ===== src/Demo/CrackRuns.antt =====
-- The calls of demo/hash-cracker for a thread, on a node whose allocator has two blocks, and those of
-- demo/mem_manipulation and demo/hello_world.
use dicon.Handlers.Reply.{c_string}
use dicon.Handlers.ObjectHandlers.{so_path}
use dicon.Demo.HelloWorld.{hello_dicon_text, hello_dicon, hello_name, hello_symbol, hello_main}
use dicon.Demo.HelloWorld.Printed.{hello_main-printed}
use dicon.Demo.CommTest.{hello, comm_test, comm_test-hello}
use dicon.Base.{
  ℕ, zero, suc, ◌+◌, ◌<◌, ◌≤◌, ◌^◌, ◌≡◌, refl, none, some, List, [], ◌∷◌, ◌++◌, arith, ◌==◌,
  if◌then◌else◌,
}
use dicon.Wire.{Bytes, ◌>>=◌}
use dicon.Memory.{Memory, load_bytes, allocate}
use dicon.Platform.{Platform, Allocates}
use dicon.Client.Transport.{Session}
use dicon.Rpc.{NodeEnd, node_peer, IsIdle}
use dicon.Rpc.Sample.{
  os, os-Allocates, first_fit, fitted, placed, empty, wire, session, session-IsIdle,
}
use dicon.Demo.CrackClient.{encode_crack_args, start_cracker}
use dicon.Demo.CrackClient.Unset.{start_cracker-junk}

abbrev repeat : ℕ → Bytes
repeat zero = []
repeat (suc n) = 170 ∷ repeat n

-- Blocks of 24 bytes are at 8192, all others at 4096.
abbrev at : ℕ → ℕ
at n = if n == 24 then 8192 else 4096

abbrev two_blocks : Platform (List Bytes)
two_blocks = record os {
  place = λ m n. first_fit (at n) m n;
  pthread_create = λ func arg p. (5, p);
}

at-low : (n : ℕ) → at n ≤ 2 ^ 32
at-low n = ground arith

two_blocks-Allocates : Allocates two_blocks
two_blocks-Allocates = record {
  unused = λ m n given q from to. fitted (at n) m n given q from to;
  addressable = λ m n given. placed (at n) m n (at-low n) given;
}

abbrev with_hash : Memory
with_hash = allocate two_blocks.junk 4096 16 empty

has_args_block : first_fit 8192 with_hash 24 ≡ 8192
unfolding allocate
has_args_block = refl

start_cracker-junk_example :
    (m : Memory) × (s' : Session (NodeEnd (List Bytes))) × (load_bytes 24
        (two_blocks.place with_hash 24)
        m
      ≡ some (encode_crack_args 1 50 4096))
    × ((q : ℕ) → 4096 ≤ q → q < 4096 + 16 → m.cell q ≡ some 170)
    × (s'.world.process
        ≡ (two_blocks.pthread_create 1077
            (two_blocks.place with_hash 24)
            (record { memory = m; host = [] })).1)
    × (start_cracker
          (λ n. [])
          (node_peer two_blocks wire)
          (λ n. [])
          []
          0
          (record { ptr = 1077; device = 0 })
          (1, 50)
          (session empty ∷ [])
        ≡ some (
          record {
            tid =
                (two_blocks.pthread_create 1077
                  (two_blocks.place with_hash 24)
                  (record { memory = m; host = [] })).0;
            device = 0;
          },
          s' ∷ [],
        ))
start_cracker-junk_example =
    start_cracker-junk (λ n. []) two_blocks wire two_blocks-Allocates (λ n. []) [] [] []
      (session empty) 1077 1 50 (session-IsIdle empty) (omega arith) (omega arith)
      (λ null. omega (arith, has_args_block, null)) (λ arg p. omega arith)

comm_test-hello_example :
    (printed : Bytes) × (s' : Session (NodeEnd (List Bytes))) × (comm_test
        (λ n. [])
        (node_peer os wire)
        (repeat 32)
        (session empty)
      ≡ some (printed, s'))
    × (c_string printed ≡ some hello)
    × (s'.world.process.memory.block 4096 ≡ none)
    × IsIdle s'
comm_test-hello_example =
    comm_test-hello (λ n. []) os wire (session empty) (repeat 32) (session-IsIdle empty)
      os-Allocates refl (omega arith)

-- A node whose thread runs when it is joined.
abbrev hello_os : Platform (List Bytes)
hello_os = record os {
  pthread_join = λ tid p. hello_dicon os.junk (os.place p.memory 32) p.memory >>= λ ran.
      some (ran.0, record p { memory = ran.1 });
}

hello_os-Allocates : Allocates hello_os
hello_os-Allocates = record {
  unused = λ m n given q from to. os-Allocates.unused m n given q from to;
  addressable = λ m n given. os-Allocates.addressable m n given;
}

symbol_read : c_string (hello_symbol ++ 0 ∷ 0 ∷ []) ≡ some hello_symbol
unfolding c_string
symbol_read = refl

hello_main-printed_example :
    (printed : Bytes) × (s' : Session (NodeEnd (List Bytes))) × (hello_main
        (λ n. 0 ∷ [])
        (node_peer hello_os wire)
        (repeat 32)
        (session empty)
      ≡ some (printed, s'))
    × (c_string printed ≡ some hello_dicon_text)
    × IsIdle s'
hello_main-printed_example =
    hello_main-printed (λ n. 0 ∷ []) hello_os wire (session empty) (repeat 32) 1027 1038 1038
      (so_path hello_name ∷ []) (record { memory = empty; host = so_path hello_name ∷ [] })
      (session-IsIdle empty) hello_os-Allocates (omega arith) (omega arith) symbol_read refl
      (omega arith) refl (omega arith) refl (omega arith) (omega arith) refl refl
