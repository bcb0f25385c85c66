-- ===== src/Start/Runs.antt =====
-- Command lines, and the starts of a node.
use dicon.Base.{
  ℕ, ◌^◌, ◌≡◌, refl, true, false, Option, none, some, List, [], ◌∷◌, arith, All, ◌==◌,
  if◌then◌else◌,
}
use dicon.Wire.{Bytes}
use dicon.Socket.{IpAddr, Conn, Attempt, tcp_connect}
use dicon.Socket.Listening.{ipv4_from_str, ip_from_str}
use dicon.Platform.{Process}
use dicon.Registry.{null}
use dicon.Registry.Chain.{node, nil}
use dicon.Registry.Append.{Appended}
use dicon.MainServer.{Chance}
use dicon.MainServer.Threads.{started}
use dicon.MainServer.Directory.{MainEnd, main_peer, IsReady}
use dicon.Client.Transport.{Session}
use dicon.Rpc.Sample.{os, wire, empty}
use dicon.Start.Getopt.{letters, options, kind_of, word_of, help_and_exit, go_on, each_option}
use dicon.Start.Numbers.{decimal, digits, digits_value, atoi}
use dicon.Node.Listen.{listen_loop}
use dicon.Start.NodeMain.{
  NodeOptions, node_option, node_options, node_defaults, Start, announced, listening, node_main,
}
use dicon.Start.NodeMain.Announced.{node_main-Appended}
use dicon.Start.MainServerMain.{main_server_option, main_server_options}
use dicon.Start.Manager.{create_compute_node_cmd, manager_main}
use dicon.Start.Manager.Ports.{words, iterate, minus_p, manager_main-node_options}
use dicon.Start.Fixed.{IsNode, node_options-IsNode}

-- An `inet_pton` that knows the addresses that start with '7'.
abbrev inet_pton : ℕ → List ℕ → Option (ℕ × List ℕ)
inet_pton family [] = none
inet_pton family (c ∷ cs) = if c == b'7' then some (16777343, []) else none

abbrev stale : IpAddr
stale = record { family = 170; ipv4 = 170; ipv6_tail = [] }

abbrev minus : ℕ → Bytes
minus c = b'-' ∷ c ∷ []

-- "-s x -m 7 -V3 y".
abbrev node_args : List Bytes
node_args =
    minus b's'
    ∷ (b'x' ∷ [])
    ∷ minus b'm'
    ∷ (b'7' ∷ [])
    ∷ (b'-' ∷ b'V' ∷ b'3' ∷ [])
    ∷ (b'y' ∷ [])
    ∷ []

abbrev node_chosen : NodeOptions
node_chosen = record {
  port = 4224;
  main_server_port = 4225;
  main_server_specified = true;
  main_server_addr = record { family = 2; ipv4 = 16777343; ipv6_tail = [] };
  log_level = 3;
}

node_chosen_by : node_options inet_pton stale node_args ≡ go_on node_chosen
unfolding node_options options letters kind_of word_of each_option node_option atoi digits_value
    ipv4_from_str ip_from_str
node_chosen_by = refl

-- The password changes nothing, and a "-h" behind another letter asks for help.
without_password :
    node_options inet_pton stale (minus b's' ∷ (b'x' ∷ []) ∷ [])
    ≡ go_on (node_defaults inet_pton stale)
unfolding node_options options letters kind_of word_of each_option node_option
without_password = refl

asks_for_help : node_options inet_pton stale ((b'-' ∷ b'q' ∷ b'h' ∷ []) ∷ []) ≡ help_and_exit
unfolding node_options options letters kind_of word_of each_option node_option
asks_for_help = refl

most_negative :
    decimal (2 ^ 31)
    ≡ b'-' ∷ b'2' ∷ b'1' ∷ b'4' ∷ b'7' ∷ b'4' ∷ b'8' ∷ b'3' ∷ b'6' ∷ b'4' ∷ b'8' ∷ []
unfolding decimal digits
most_negative = refl

node_options-IsNode_example : IsNode stale node_chosen
node_options-IsNode_example =
    node_options-IsNode inet_pton stale node_args node_chosen node_chosen_by

other_port :
    main_server_options (minus b'p' ∷ (b'8' ∷ b'0' ∷ []) ∷ [])
    ≡ go_on (record { port = 4225; log_level = 0 })
unfolding main_server_options options letters kind_of word_of each_option main_server_option
other_port = refl

manager_main-node_options_example :
    let cmd = create_compute_node_cmd (b'n' ∷ []) 8080 in
    (manager_main inet_pton (λ c ran. c ∷ ran) 2 (b'n' ∷ []) (minus_p ∷ decimal 8080 ∷ []) []
      ≡ go_on (iterate 2 (λ ran. cmd ∷ ran) []))
    × (words cmd ≡ (b'n' ∷ []) ∷ minus_p ∷ decimal 8080 ∷ [])
    × (node_options inet_pton stale (minus_p ∷ decimal 8080 ∷ []) ≡ node_options inet_pton stale [])
    × (node_options inet_pton stale [] ≡ go_on (node_defaults inet_pton stale))
    × ((node_defaults inet_pton stale).port ≡ 4224)
manager_main-node_options_example =
    manager_main-node_options inet_pton stale (λ c ran. c ∷ ran) 2 (b'n' ∷ []) 8080 []
      (omega arith, tt) (omega arith)

-- The main server is up at the third attempt.
abbrev refused : Attempt
refused = record { socket = some 3; connects = false }

abbrev taken : Attempt
taken = record { socket = some 3; connects = true }

All-refused :
    All
      (λ t. (tcp_connect t node_chosen.main_server_addr (2 ∷ 1 ∷ 0 ∷ [])).0 ≡ none)
      (refused ∷ refused ∷ [])
unfolding tcp_connect
All-refused = (refl, (refl, tt))

is_taken : (tcp_connect taken node_chosen.main_server_addr (2 ∷ 1 ∷ 0 ∷ [])).0 ≡ some 3
unfolding tcp_connect
is_taken = refl

abbrev chance : Chance
chance = record {
  rounds = 1;
  fresh = 30;
  junk = node (record { address = stale; core_count = 9 }) 77 78;
  stale = 170 ∷ 170 ∷ 170 ∷ 170 ∷ [];
}

abbrev server_conn : Conn
server_conn = record {
  sockfd = some 5;
  queue_len = 0;
  port = 50000;
  ip = record { family = 2; ipv4 = 9; ipv6_tail = [] };
  incoming = [];
  sent = [];
}

-- No client comes, and the node has eight cores.
abbrev start : Start MainEnd
start = record {
  open_fds = 2 ∷ 1 ∷ 0 ∷ [];
  first_try = refused;
  tries = refused ∷ taken ∷ [];
  incoming = [];
  world = record {
    thread = started server_conn;
    registry = record { heap = λ p. none; first = null };
  };
  cores = 8;
  listening = record { socket = some 4; binds = true; listens = true };
  stale_listening = server_conn;
  visits = [];
}

abbrev process : Process (List Bytes)
process = record { memory = empty; host = [] }

no_visits : (p : Process (List Bytes)) → listen_loop os [] p ≡ some ([], p)
unfolding listen_loop
no_visits p = refl

node_main-Appended_example :
    (s : Session MainEnd) × (listen_conn : Conn) × Appended 30
      (record { address = server_conn.ip; core_count = 8 })
      start.world.registry
      []
      s.world.thread.conn_info
      s.world.registry
    × IsReady s
    × (listen_conn.sockfd ≡ some 4)
    × (listen_conn.port ≡ 4224)
    × (node_main os (main_peer chance wire) node_chosen start process
        ≡ some (
          record {
            open_fds = 4 ∷ 3 ∷ 2 ∷ 1 ∷ 0 ∷ [];
            main_server = some s;
            events = announced 0 ∷ listening listen_conn ∷ [];
          },
          process,
        ))
node_main-Appended_example =
    node_main-Appended os chance wire node_chosen start process (refused ∷ refused ∷ []) [] taken 3
      5 4 [] [] process refl refl refl All-refused is_taken refl refl (nil refl) (omega arith)
      (ground arith) refl (omega arith) refl refl refl (no_visits process)
