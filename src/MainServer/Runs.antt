-- ===== src/MainServer/Runs.antt =====
-- The main server on concrete connections, and its theorems there.
use dicon.Base.{
  append-nil, ℕ, ◌+◌, ◌<◌, ◌^◌, ◌≡◌, refl, ◌∙◌, true, false, Option, none, some, List, [], ◌∷◌,
  ◌++◌, arith, length, ◌==◌, if◌then◌else◌,
}
use dicon.Wire.{Bytes, le_bytes}
use dicon.Socket.{Attempt, IpAddr, Conn}
use dicon.Socket.Recv.{stream}
use dicon.Protocol.Heads.{encode_req_head}
use dicon.Registry.{NodeInfo, null, Registry, ok}
use dicon.Registry.Returns.{Returns, ok_of_Returns}
use dicon.Registry.Chain.{node, Cells, nil, cons, IsList}
use dicon.Registry.Append.{Appended}
use dicon.MainServer.{Chance, Thread, connection_turn}
use dicon.MainServer.Entries.{Fits}
use dicon.MainServer.Turns.{push_head}
use dicon.MainServer.Threads.{
  Server, set_thread, started, IsFair, accept, turn, fresh_server, Runs, start, step,
}
use dicon.MainServer.Safe.{push-IsTame}
use dicon.MainServer.Consistent.{IsConsistent, Runs-IsConsistent, connection_turn-IsConsistent}
use dicon.MainServer.Directory.{
  MainEnd, main_peer, IsReady, dic_get_nodes_info-infos, notify_main_server-Appended,
}
use dicon.MainServer.Found.{at_registry, dic_get_nodes_info-notify_main_server}
use dicon.Node.Announce.{notify_main_server}
use dicon.Client.Transport.{Session}
use dicon.Client.MainCalls.{dic_get_nodes_info}
use dicon.Rpc.Sample.{wire}

abbrev address : ℕ → IpAddr
address n = record {
  family = 2;
  ipv4 = n;
  ipv6_tail = 0 ∷ 0 ∷ 0 ∷ 0 ∷ 0 ∷ 0 ∷ 0 ∷ 0 ∷ 0 ∷ 0 ∷ 0 ∷ 0 ∷ [];
}

abbrev info : ℕ → NodeInfo
info n = record { address = address n; core_count = n }

info-Fits : (n : ℕ) → n < 2 ^ 32 → Fits (info n)
info-Fits n fits = record { family = omega arith; ipv4 = fits; tail = refl; core_count = fits }

abbrev chance : Chance
chance = record {
  rounds = 5;
  fresh = 30;
  junk = node (info 9) 77 78;
  stale = 170 ∷ 170 ∷ 170 ∷ 170 ∷ [];
}

abbrev conn_from : ℕ → List Bytes → Conn
conn_from n incoming = record {
  sockfd = some n;
  queue_len = 0;
  port = 4225;
  ip = address n;
  incoming = incoming;
  sent = [];
}

abbrev two : Registry
two = record {
  heap = λ p.
      if p == 20
      then some (node (info 2) 10 null)
      else (if p == 10 then some (node (info 1) null 20) else none);
  first = 10;
}

abbrev cells : Cells
cells = (10, info 1) ∷ (20, info 2) ∷ []

two-IsList : IsList two cells
two-IsList = cons (ground arith) refl refl (cons (ground arith) refl refl (nil refl))

-- A peer and its thread on the server, whose list has two nodes.
abbrev session : ℕ → Session MainEnd
session n = record {
  conn = conn_from (n + 100) [];
  world = record { thread = started (conn_from n []); registry = two };
}

session-IsReady : (n : ℕ) → IsReady (session n)
session-IsReady n = record {
  fd = n + 100;
  open_ = refl;
  done = refl;
  server_fd = n;
  server_open = refl;
  server_done = refl;
}

dic_get_nodes_info-infos_example :
    (s' : Session MainEnd) × (dic_get_nodes_info (main_peer chance wire) (session 4)
      ≡ some ((2, info 1 ∷ info 2 ∷ []), s'))
    × (s'.world.registry ≡ two)
    × IsReady s'
dic_get_nodes_info-infos_example =
    dic_get_nodes_info-infos chance wire (session 4) (session-IsReady 4) cells two-IsList
      (info-Fits 1 (omega arith), (info-Fits 2 (omega arith), tt)) (omega arith) (omega arith)

notify_main_server-Appended_example :
    (s' : Session MainEnd) × (notify_main_server (main_peer chance wire) 8 (session 4)
      ≡ some (0, s'))
    × Appended 30
        (record { address = address 4; core_count = 8 })
        two
        cells
        s'.world.thread.conn_info
        s'.world.registry
    × (s'.world.thread.is_compute_node ≡ true)
    × IsReady s'
notify_main_server-Appended_example =
    notify_main_server-Appended chance wire (session 4) (session-IsReady 4) cells two-IsList 8
      (omega arith) (ground arith) refl (omega arith)

dic_get_nodes_info-notify_main_server_example :
    (s' u' : Session MainEnd) × (notify_main_server (main_peer chance wire) 3 (session 3)
      ≡ some (0, s'))
    × (dic_get_nodes_info (main_peer chance wire) (at_registry s'.world.registry (session 4))
        ≡ some ((3, info 1 ∷ info 2 ∷ info 3 ∷ []), u'))
dic_get_nodes_info-notify_main_server_example =
    dic_get_nodes_info-notify_main_server chance chance wire (session 3) (session 4) cells 3
      (session-IsReady 3) (session-IsReady 4) two-IsList
      (info-Fits 1 (omega arith), (info-Fits 2 (omega arith), tt)) (info-Fits 3 (omega arith))
      (ground arith) refl (omega arith) (omega arith) (omega arith)

-- A node connects as thread 7 and announces four cores.
abbrev announcing : Thread
announcing = started (conn_from 7 (wire.cut (encode_req_head (push_head 1) ++ le_bytes 4 4)))

abbrev accepted : Server
accepted = record {
  registry = fresh_server.registry;
  thread = set_thread fresh_server.thread 7 (some announcing);
}

accepted_runs : Runs accepted
accepted_runs = step start (accept 7 announcing.conn refl)

announcing_stream :
    stream announcing.conn.incoming ≡ encode_req_head (push_head 1) ++ (le_bytes 4 4 ++ [])
announcing_stream = wire.whole (encode_req_head (push_head 1) ++ le_bytes 4 4) ∙ rw append-nil

length-empty : (xs : Cells) → IsList fresh_server.registry xs → length xs < 5
length-empty [] is = omega arith
length-empty ((p, i) ∷ xs) (cons ne here _ _) = absurd (ground (arith, here))

fair : IsFair accepted.registry chance
fair = record { fresh = (ground arith); unused = refl; stale = refl; rounds = length-empty }

connection_turn-IsConsistent_example :
    Returns
      (λ t' r. IsConsistent (record { registry = r; thread = set_thread accepted.thread 7 t' }))
      (connection_turn chance announcing accepted.registry)
connection_turn-IsConsistent_example =
    connection_turn-IsConsistent accepted_runs 7 announcing chance refl fair
      (push-IsTame announcing 7 1 4 [] refl (omega arith) announcing_stream)

announcement :
    (t' : Option Thread) × (r : Registry) × (connection_turn chance announcing accepted.registry
      ≡ ok t' r)
    × IsConsistent (record { registry = r; thread = set_thread accepted.thread 7 t' })
announcement = ok_of_Returns connection_turn-IsConsistent_example

abbrev announced : Server
announced = record {
  registry = announcement.1;
  thread = set_thread accepted.thread 7 announcement.0;
}

Runs-IsConsistent_example : IsConsistent announced
Runs-IsConsistent_example = Runs-IsConsistent (
    step accepted_runs
      (turn 7 announcing chance announcement.0 announcement.1 refl fair announcement.2))

-- The second of three nodes does not answer.
abbrev answers : List (Attempt × List Bytes)
answers =
    (record { socket = some 5; connects = true }, [])
    ∷ (record { socket = some 6; connects = false }, [])
    ∷ (record { socket = some 6; connects = true }, [])
    ∷ []
