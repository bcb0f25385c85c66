-- ===== src/MainServer/Threads.antt =====
-- The threads of the main server: `listen_loop` starts one for each connection, and they take turns in
-- any order. NODES_INFO_MUT is held for a turn's whole work on the list, so turns do not overlap there.
use dicon.Base.{ℕ, ◌≡◌, ◌≢◌, ◌<◌, false, Option, none, some, ◌==◌, if◌then◌else◌, length}
use dicon.Socket.{Conn}
use dicon.Registry.{null, Registry, ok}
use dicon.Registry.Chain.{Cells, IsList}
use dicon.MainServer.{Chance, Thread, connection_turn}

-- The list that the threads share, and the thread of each connection while it runs.
pub record Server : Type 0 where
  pub registry : Registry
  pub thread : ℕ → Option Thread

abbrev pub set_thread : (ℕ → Option Thread) → ℕ → Option Thread → ℕ → Option Thread
set_thread threads i t j = if j == i then t else threads j

-- A thread as `listen_loop` starts it.
abbrev pub started : Conn → Thread
started conn = record { conn = conn; conn_info = null; is_compute_node = false }

-- `malloc` gives a block that is not in use, `body` has four bytes on the stack, and a loop over the
-- list is given more rounds than the list has nodes.
pub record IsFair (r : Registry) (chance : Chance) : Type 0 where
  pub fresh : chance.fresh ≢ null
  pub unused : r.heap chance.fresh ≡ none
  pub stale : length chance.stale ≡ 4
  pub rounds : (xs : Cells) → IsList r xs → length xs < chance.rounds

-- A connection is accepted, or a thread takes a turn that ends without a fault.
pub data ServerStep (s : Server) : Server → Type 0 where
  accept :
      (i : ℕ) (conn : Conn)
      → s.thread i ≡ none
      → ServerStep s (record s { thread = set_thread s.thread i (some (started conn)) })
  turn :
      (i : ℕ) (t : Thread) (chance : Chance) (t' : Option Thread) (r : Registry)
      → s.thread i ≡ some t
      → IsFair s.registry chance
      → connection_turn chance t s.registry ≡ ok t' r
      → ServerStep s (record { registry = r; thread = set_thread s.thread i t' })

abbrev pub fresh_server : Server
fresh_server = record { registry = record { heap = λ p. none; first = null }; thread = λ i. none }

pub data Runs : Server → Type 0 where
  start : Runs fresh_server
  step : {s s' : Server} → Runs s → ServerStep s s' → Runs s'
