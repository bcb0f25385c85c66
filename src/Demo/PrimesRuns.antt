-- ===== src/Demo/PrimesRuns.antt =====
-- The program of demo/find-primes on two such nodes with a core each.
use dicon.Base.{ℕ, zero, suc, ◌≡◌, refl, ap, none, some, List, [], ◌∷◌, arith, length}
use dicon.Wire.{Bytes}
use dicon.Client.Transport.{Session}
use dicon.Rpc.{NodeEnd, node_peer}
use dicon.Rpc.Sample.{empty, conn_to, wire}
use dicon.Demo.FindPrimes.Collects.{Primes}
use dicon.Demo.PrimesClient.{main}
use dicon.Demo.PrimesClient.Worker.{encode_words}
use dicon.Demo.PrimesClient.Load.{Starts}
use dicon.Demo.PrimesClient.Unload.{close_all, AllClosed}
use dicon.Demo.PrimesClient.Whole.{main-Primes}
use dicon.Demo.Machine.Threads.{worker}
use dicon.Demo.Machine.{
  le_sqrt, is_sqrt, junk, Machine, Holds, os, machine-Allocates, Fresh, file, loader,
}

abbrev repeat : ℕ → ℕ → Bytes
repeat b zero = []
repeat b (suc n) = b ∷ repeat b n

length-repeat : (b n : ℕ) → length (repeat b n) ≡ n
length-repeat b zero = refl
length-repeat b (suc n) = ap suc (length-repeat b n)

abbrev node_session : ℕ → Session (NodeEnd Machine)
node_session fd = record {
  conn = conn_to fd;
  world = record {
    conn = conn_to 4;
    process = record { memory = empty; host = record { written = none; range = none } };
  };
}

node_session-Starts : (fd : ℕ) → Starts Fresh fd 1 (node_session fd)
node_session-Starts fd = record {
  idle = record {
    client_fd = fd;
    client_open = refl;
    client_done = refl;
    node_fd = 4;
    node_open = refl;
    node_done = refl;
  };
  open_ = refl;
  fresh = refl;
}

abbrev two_nodes : List (Session (NodeEnd Machine))
two_nodes = node_session 3 ∷ node_session 5 ∷ []

main-Primes_example :
    (ps : List ℕ) × (nodes : List (Session (NodeEnd Machine))) × Primes 300 100 ps
    × AllClosed os file Holds two_nodes nodes
    × (main
          (λ n. 0 ∷ [])
          (node_peer os wire)
          (repeat 170)
          100
          300
          (some file)
          (1 ∷ 1 ∷ [])
          (5 ∷ 3 ∷ 0 ∷ [])
          two_nodes
        ≡ some (((length ps, encode_words ps), close_all (3 ∷ 5 ∷ []) (5 ∷ 3 ∷ 0 ∷ [])), nodes))
main-Primes_example =
    main-Primes (λ n. 0 ∷ []) os wire (repeat 170) le_sqrt junk 202 1077 100 300 file (3 ∷ 5 ∷ [])
      (1 ∷ 1 ∷ []) (5 ∷ 3 ∷ 0 ∷ []) two_nodes machine-Allocates (length-repeat 170) is_sqrt worker
      loader (omega arith) (omega arith) (node_session-Starts 3, (node_session-Starts 5, tt))
      (omega arith) (omega arith) (omega arith) (omega arith) (omega arith) (omega arith)
      (omega arith)
