-- ===== src/Start/NodeMain.antt =====
-- node/src/main.c, `main`: its arguments, the connection to the main server, and the start of the server.
pub mod Retry
pub mod Announced
use dicon.Base.{
  ℕ, ◌≡◌, refl, ap, ◌∙◌, sym, Bool, true, false, Option, none, some, List, [], ◌∷◌, ◌++◌, ◌==◌,
  if◌then◌else◌, map,
}
use dicon.Wire.{Bytes, ◌>>=◌}
use dicon.Socket.{IpAddr, Conn, Attempt, dic_conn_new, dic_conn_tryconnect}
use dicon.Socket.Listening.{Listening, ipv4_from_str, dic_conn_new_listening}
use dicon.Platform.{Platform, Process}
use dicon.Client.Transport.{Session, Peer}
use dicon.Node.Announce.{notify_main_server}
use dicon.Node.Listen.{Visit, listen_loop}
use dicon.Start.Getopt.{
  Opt, flag, valued, unknown, options, Parsed, help_and_exit, undefined, go_on, and_then,
  each_option,
}
use dicon.Start.Numbers.{atoi}

-- The variables of `main` that the options set, with GLOBAL_LOG_LEVEL.
pub record NodeOptions : Type 0 where
  pub port : ℕ
  pub main_server_port : ℕ
  pub main_server_specified : Bool
  pub main_server_addr : IpAddr
  pub log_level : ℕ

abbrev pub level_of : {A : Type 0} → (ℕ → A) → Option ℕ → Parsed A
level_of set none = undefined
level_of set (some n) = go_on (set n)

-- "hm:V:s:".
abbrev pub node_optstring : Bytes
node_optstring = b'h' ∷ b'm' ∷ b':' ∷ b'V' ∷ b':' ∷ b's' ∷ b':' ∷ []

module _ (inet_pton : ℕ → List ℕ → Option (ℕ × List ℕ)) (stale : IpAddr) where
  -- The switch. An option that it does not name is passed over.
  unfoldable pub node_option : Opt → NodeOptions → Parsed NodeOptions
  node_option (flag c) o = if c == b'h' then help_and_exit else go_on o
  node_option (valued c optarg) o =
      if c == b'm'
      then go_on (record o {
        main_server_specified = true;
        main_server_addr = ipv4_from_str inet_pton o.main_server_addr optarg;
      })
      else if c == b'V'
      then level_of (λ n. record o { log_level = n }) (atoi optarg)
      else go_on o
  node_option unknown o = go_on o

  -- `main_server_addr` is not set at first.
  abbrev pub node_defaults : NodeOptions
  node_defaults = record {
    port = 4224;
    main_server_port = 4225;
    main_server_specified = false;
    main_server_addr = stale;
    log_level = 0;
  }

  -- The arguments behind the program's name.
  unfoldable pub node_options : List Bytes → Parsed NodeOptions
  node_options args = each_option node_option (options node_optstring none args) node_defaults

-- `sockfd == -1`, or not.
abbrev pub unless_open : {A : Type 0} → Option ℕ → A → A → A
unless_open none a b = a
unless_open (some fd) a b = b

-- The loop that connects to the main server: what the kernel answers to each attempt, one in a second.
-- `none` is that it goes on after these.
unfoldable pub retry : List Attempt → Conn → List ℕ → Option (Conn × List ℕ)
retry [] conn open_fds = unless_open conn.sockfd none (some (conn, open_fds))
retry (try ∷ tries) conn open_fds =
    let tried = dic_conn_tryconnect try conn open_fds in
    unless_open conn.sockfd (retry tries tried.1 tried.2) (some (conn, open_fds))

-- What the node meets in its start: the kernel's answers, what the main server will send, the number of
-- cores, and in the listening loop its clients.
pub record Start (World : Type 0) : Type 0 where
  pub open_fds : List ℕ
  pub first_try : Attempt
  pub tries : List Attempt
  pub incoming : List (List ℕ)
  pub world : World
  pub cores : ℕ
  pub listening : Listening
  pub stale_listening : Conn
  pub visits : List Visit

-- What a node has done that shows outside, in order: `notify_main_server` with what it returned, the
-- connection on which it listens, each client's connection as it is destroyed, and `exit`.
pub data Event : Type 0 where
  announced : ℕ → Event
  listening : Conn → Event
  served : Conn → Event
  exited : Event

-- The node as it runs: its descriptors, its own connection to the main server, if it has one, and what
-- it has done.
pub record Running (World : Type 0) : Type 0 where
  pub open_fds : List ℕ
  pub main_server : Option (Session World)
  pub events : List Event

-- The node's own connection to the main server, which it holds open.
unfoldable pub announce :
    {World : Type 0}
    → Peer World
    → NodeOptions
    → Start World
    → Running World
    → Option (Running World)
announce peer o start r = do
  let made =
      dic_conn_new start.first_try start.incoming o.main_server_addr o.main_server_port r.open_fds
  (conn, open_fds) ← retry start.tries made.0 made.1
  (res, session) ← notify_main_server peer start.cores (record { conn = conn; world = start.world })
  some (record {
    open_fds = open_fds;
    main_server = some session;
    events = r.events ++ announced res ∷ [];
  })

-- `start_server` behind the listening connection; without one, the process has ended.
unfoldable pub serve_clients :
    {Host World : Type 0}
    → Platform Host
    → Start World
    → Running World
    → Process Host
    → Option Conn × List ℕ
    → Option (Running World × Process Host)
serve_clients os start r p (none, open_fds) =
    some (record r { open_fds = open_fds; events = r.events ++ exited ∷ [] }, p)
serve_clients os start r p (some listen_conn, open_fds) = do
  (conns, p') ← listen_loop os start.visits p
  some (
    record r {
      open_fds = open_fds;
      events = r.events ++ listening listen_conn ∷ map {B = Event} served conns;
    },
    p',
  )

unfoldable pub start_server :
    {Host World : Type 0}
    → Platform Host
    → ℕ
    → Start World
    → Running World
    → Process Host
    → Option (Running World × Process Host)
start_server os port start r p =
    serve_clients os start r p
      (dic_conn_new_listening start.listening start.stale_listening port r.open_fds)

-- `main`, behind the options.
unfoldable pub node_main :
    {Host World : Type 0}
    → Platform Host
    → Peer World
    → NodeOptions
    → Start World
    → Process Host
    → Option (Running World × Process Host)
node_main os peer o start p =
    let at_first : Running _ = record {
      open_fds = start.open_fds;
      main_server = none;
      events = [];
    } in
    if o.main_server_specified
    then (do connected ← announce peer o start at_first; start_server os o.port start connected p)
    else start_server os o.port start at_first p
