-- ===== src/Start/NodeMain/Announced.antt =====
-- The start of a node that is given a main server.
use dicon.Base.{
  Option, if◌then◌else◌, ℕ, ◌<◌, ◌^◌, ◌≡◌, ◌≢◌, refl, ap, ◌∙◌, true, none, some, List, [], ◌∷◌,
  ◌++◌, length, All, map,
}
use dicon.Socket.Listening.{dic_conn_new_listening-granted}
use dicon.Node.Listen.{listen_loop}
use dicon.Wire.{◌>>=◌}
use dicon.Socket.{Conn, Attempt, tcp_connect}
use dicon.Platform.{Platform, Process}
use dicon.Client.Transport.{Session}
use dicon.Registry.{null}
use dicon.Registry.Chain.{Cells, IsList}
use dicon.Registry.Append.{Appended}
use dicon.MainServer.{Chance}
use dicon.MainServer.Directory.{MainEnd, main_peer, IsReady, notify_main_server-Appended}
use dicon.Rpc.{Wire}
use dicon.Start.NodeMain.{
  NodeOptions, Start, Event, announced, listening, served, Running, announce, serve_clients,
  start_server, node_main,
}
use dicon.Start.NodeMain.Retry.{connect_main-Connected}

module _ {Host : Type 0} (os : Platform Host) (chance : Chance) (wire : Wire) (o : NodeOptions)
    (start : Start MainEnd) (p : Process Host) where
  -- The connection that the node makes to the main server.
  abbrev pub main_conn : ℕ → Conn
  main_conn fd = record {
    sockfd = some fd;
    queue_len = 0;
    port = o.main_server_port;
    ip = o.main_server_addr;
    incoming = [];
    sent = [];
  }

  -- Where the kernel grants the listening connection, the server listens on it and serves its clients.
  start_server-serves :
      (r : Running MainEnd) (listen_fd : ℕ) (conns : List Conn) (p' : Process Host)
      → start.listening.socket ≡ some listen_fd
      → start.listening.binds ≡ true
      → start.listening.listens ≡ true
      → listen_loop os start.visits p ≡ some (conns, p')
      → (c : Conn) × (c.sockfd ≡ some listen_fd)
        × (c.port ≡ o.port)
        × (start_server os o.port start r p
            ≡ some (
              record r {
                open_fds = listen_fd ∷ r.open_fds;
                events = r.events ++ listening c ∷ map {B = Event} served conns;
              },
              p',
            ))
  unfolding start_server serve_clients
  start_server-serves r listen_fd conns p' made binds listens serves =
      let (c, open_, port, granted) =
        dic_conn_new_listening-granted start.listening start.stale_listening o.port listen_fd
          r.open_fds made binds listens in
      (c, open_, port, ap (serve_clients os start r p) granted ∙ rw serves)

  -- What `main` does once it is connected.
  node_main_connected :
      (after : Running MainEnd)
      → o.main_server_specified ≡ true
      → announce
          (main_peer chance wire)
          o
          start
          (record { open_fds = start.open_fds; main_server = none; events = [] })
        ≡ some after
      → node_main os (main_peer chance wire) o start p ≡ start_server os o.port start after p
  unfolding node_main
  node_main_connected after specified announces =
      let at_first : Running MainEnd = record {
        open_fds = start.open_fds;
        main_server = none;
        events = [];
      } in
      let serve : Running MainEnd → Option (Running MainEnd × Process Host) =
        λ r. start_server os o.port start r p in
      ap
        (λ b.
          if b then announce (main_peer chance wire) o start at_first >>= serve else serve at_first)
        specified
      ∙ ap (λ r. r >>= serve) announces

  -- A node that is given a main server announces itself before it listens for clients: however often the
  -- server refuses it first, its entry, with the address that it connects from and its cores, is added at
  -- the end of the server's list, and only then it makes its listening connection, at its own port, and
  -- serves its clients, whose connections are as `listen_loop` leaves them. At the end it has two
  -- descriptors more than before: that of the connection to the main server, which stays open and is made
  -- first, and that of the listening connection, made on top of it. The conditions: one of the attempts to
  -- connect succeeds and the ones before it fail; nothing has arrived on the new connection, nor on the
  -- server's end of it, which is open; the server's list is well formed; the number of cores is below 2^32;
  -- `malloc` gives the server a block that is not null and not in use; the server's loop is given more
  -- rounds than the list has nodes; `socket`, `bind` and `listen` succeed for the listening connection; and
  -- the listening loop comes through the clients' visits.
  pub node_main-Appended :
      (refused later : List Attempt) (try : Attempt) (fd server_fd listen_fd : ℕ) (xs : Cells)
      (conns : List Conn) (p' : Process Host)
      → o.main_server_specified ≡ true
      → start.incoming ≡ []
      → start.first_try ∷ start.tries ≡ refused ++ try ∷ later
      → All (λ t. (tcp_connect t o.main_server_addr start.open_fds).0 ≡ none) refused
      → (tcp_connect try o.main_server_addr start.open_fds).0 ≡ some fd
      → start.world.thread.conn.sockfd ≡ some server_fd
      → start.world.thread.conn.incoming ≡ []
      → IsList start.world.registry xs
      → start.cores < 2 ^ 32
      → chance.fresh ≢ null
      → start.world.registry.heap chance.fresh ≡ none
      → length xs < chance.rounds
      → start.listening.socket ≡ some listen_fd
      → start.listening.binds ≡ true
      → start.listening.listens ≡ true
      → listen_loop os start.visits p ≡ some (conns, p')
      → (s : Session MainEnd) × (listen_conn : Conn) × Appended chance.fresh
          (record { address = start.world.thread.conn.ip; core_count = start.cores })
          start.world.registry
          xs
          s.world.thread.conn_info
          s.world.registry
        × IsReady s
        × (listen_conn.sockfd ≡ some listen_fd)
        × (listen_conn.port ≡ o.port)
        × (node_main os (main_peer chance wire) o start p
            ≡ some (
              record {
                open_fds = listen_fd ∷ fd ∷ start.open_fds;
                main_server = some s;
                events = announced 0 ∷ listening listen_conn ∷ map {B = Event} served conns;
              },
              p',
            ))
  unfolding announce
  node_main-Appended refused later try fd server_fd listen_fd xs conns p' specified silent tries
        all_fail accepted server_open server_done is_list cores_fit ne unused rounds made binds
        listens serves =
      let connected =
        connect_main-Connected refused later start.tries start.first_try try start.incoming
          o.main_server_addr o.main_server_port start.open_fds fd tries all_fail accepted in
      let before : Session MainEnd = record { conn = main_conn fd; world = start.world } in
      let ready : IsReady before = record {
        fd = fd;
        open_ = refl;
        done = refl;
        server_fd = server_fd;
        server_open = server_open;
        server_done = server_done;
      } in
      let (s, told, appended, is_node, ready') =
        notify_main_server-Appended chance wire before ready xs is_list start.cores cores_fit ne
          unused rounds in
      let after : Running MainEnd = record {
        open_fds = fd ∷ start.open_fds;
        main_server = some s;
        events = announced 0 ∷ [];
      } in
      let (listen_conn, open_, port, ran) =
        start_server-serves after listen_fd conns p' made binds listens serves in
      let announces : announce (main_peer chance wire) o start
            (record { open_fds = start.open_fds; main_server = none; events = [] })
          ≡ some after =
        rw (connected, silent, told) in
      (
        s,
        listen_conn,
        appended,
        ready',
        open_,
        port,
        node_main_connected after specified announces ∙ ran,
      )
