-- ===== src/MainServer/Found.antt =====
-- A node that has announced itself to the main server, and a client that then asks for the nodes.
use dicon.Base.{
  ℕ, ◌+◌, ◌*◌, ◌<◌, ◌^◌, ◌≡◌, ◌≢◌, ◌∙◌, none, some, [], ◌∷◌, ◌++◌, arith, length, length-append,
}
use dicon.Registry.{NodeInfo, null, Registry}
use dicon.Registry.Chain.{Cells, IsList}
use dicon.Registry.Collect.{infos, infos-append}
use dicon.MainServer.{Chance}
use dicon.MainServer.Entries.{Fits, AllFit, AllFit-append}
use dicon.Node.Announce.{notify_main_server}
use dicon.Client.Transport.{Session}
use dicon.Client.MainCalls.{dic_get_nodes_info}
use dicon.Rpc.{Wire}
use dicon.MainServer.Directory.{
  MainEnd, main_peer, IsReady, dic_get_nodes_info-infos, notify_main_server-Appended,
}

-- Another connection's session, at the list as it stands in the server now.
abbrev pub at_registry : Registry → Session MainEnd → Session MainEnd
at_registry r u = record u { world = record u.world { registry = r } }

-- A node that has announced itself is found: a client that asks the main server afterwards, over its
-- own connection, gets the entries that were there and then the node's address and number of cores,
-- however TCP cuts the bytes. The conditions are those of the two calls.
pub dic_get_nodes_info-notify_main_server :
    (node_chance client_chance : Chance) (wire : Wire) (s u : Session MainEnd) (xs : Cells)
    (cores : ℕ)
    → IsReady s
    → IsReady u
    → IsList s.world.registry xs
    → AllFit (infos xs)
    → Fits (record { address = s.world.thread.conn.ip; core_count = cores })
    → node_chance.fresh ≢ null
    → s.world.registry.heap node_chance.fresh ≡ none
    → length xs < node_chance.rounds
    → length xs < client_chance.rounds
    → 28 + 24 * length xs < 2 ^ 31
    → (s' u' : Session MainEnd) × (notify_main_server (main_peer node_chance wire) cores s
        ≡ some (0, s'))
      × (dic_get_nodes_info (main_peer client_chance wire) (at_registry s'.world.registry u)
          ≡ some (
            (
              length xs + 1,
              infos xs ++ record { address = s.world.thread.conn.ip; core_count = cores } ∷ [],
            ),
            u',
          ))
dic_get_nodes_info-notify_main_server node_chance client_chance wire s u xs cores ready ready' is
      all fits ne unused rounds rounds' small =
    let entry : NodeInfo = record { address = s.world.thread.conn.ip; core_count = cores } in
    let (s', told, appended, _, _) =
      notify_main_server-Appended node_chance wire s ready xs is cores fits.core_count ne unused
        rounds in
    let ys = xs ++ (node_chance.fresh, entry) ∷ [] in
    let entries : infos ys ≡ infos xs ++ entry ∷ [] =
      infos-append xs ((node_chance.fresh, entry) ∷ []) in
    let all' : AllFit (infos ys) =
      rw entries (AllFit-append (infos xs) (entry ∷ []) all (fits, tt)) in
    let count : length ys ≡ length xs + 1 =
      omega (arith, length-append xs ((node_chance.fresh, entry) ∷ [])) in
    let asker = at_registry s'.world.registry u in
    let ready'' : IsReady asker = record {
      fd = ready'.fd;
      open_ = ready'.open_;
      done = ready'.done;
      server_fd = ready'.server_fd;
      server_open = ready'.server_open;
      server_done = ready'.server_done;
    } in
    let (u', asked, _, _) =
      dic_get_nodes_info-infos client_chance wire asker ready'' ys appended.1 all'
        (omega (arith, count)) (omega (arith, count)) in
    (s', u', told, asked ∙ rw (count, entries))
