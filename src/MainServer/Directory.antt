-- ===== src/MainServer/Directory.antt =====
-- The main server seen from outside: a node announces itself, and a client asks for the nodes.
use dicon.Base.{
  ℕ, ◌+◌, ◌*◌, ◌<◌, ◌≤◌, ◌^◌, ◌≡◌, ◌≢◌, refl, true, Option, none, some, List, [], ◌++◌, arith,
  le→leb, length, append-nil,
}
use mathlib.Core.Path.{subst}
use dicon.Wire.{Bytes, le_bytes}
use dicon.Wire.Fields.{length-le_bytes, get_field-le_bytes_all}
use dicon.Socket.{Conn, dic_conn_send}
use dicon.Socket.Send.{dic_conn_send_whole}
use dicon.Socket.Open.{nil_of_stream}
use dicon.Socket.Replies.{reply, receive_reply}
use dicon.Protocol.Heads.{
  ReqHead, encode_req_head, length-encode_req_head, decode_resp_head-encode_resp_head,
}
use dicon.Registry.{null, Registry, Run, ok, fault, out_of_fuel}
use dicon.Registry.Returns.{ok_of_Returns}
use dicon.Registry.Chain.{Cells, IsList}
use dicon.Registry.Append.{Appended}
use dicon.Registry.Collect.{infos, length-infos}
use dicon.MainServer.{Chance, Thread, connection_turn}
use dicon.MainServer.Entries.{
  AllFit, encode_get_info, decode_get_info, decode_get_info-encode_get_info, length-encode_get_info,
}
use dicon.MainServer.Turns.{connection_turn-get, connection_turn-push}
use dicon.Node.Announce.{announce_head, notify_main_server}
use dicon.Client.Transport.{Session, Peer}
use dicon.Client.MainCalls.{get_info_head, dic_get_nodes_info}
use dicon.Rpc.{Wire}

-- The server's end of one connection: its thread, and the list that all threads share.
pub record MainEnd : Type 0 where
  pub thread : Thread
  pub registry : Registry

-- What the turn sends, and what it leaves. A thread that has left its loop sends nothing.
abbrev after_turn : Wire → MainEnd → Run (Option Thread) → Option (List Bytes × MainEnd)
after_turn wire w (ok (some t) r) = some (wire.cut t.conn.sent, record { thread = t; registry = r })
after_turn wire w (ok none r) = some ([], record w { registry = r })
after_turn wire w fault = none
after_turn wire w out_of_fuel = none

abbrev arriving : Wire → Bytes → Thread → Thread
arriving wire msg t = record t {
  conn = record t.conn { incoming = t.conn.incoming ++ wire.cut msg; sent = [] };
}

-- One turn of the thread on the message of its peer.
unfoldable pub main_peer : Chance → Wire → Peer MainEnd
main_peer chance wire msg w =
    after_turn wire w (connection_turn chance (arriving wire msg w.thread) w.registry)

-- Both ends are connected and nothing is under way.
pub record IsReady (s : Session MainEnd) : Type 0 where
  pub fd : ℕ
  pub open_ : s.conn.sockfd ≡ some fd
  pub done : s.conn.incoming ≡ []
  pub server_fd : ℕ
  pub server_open : s.world.thread.conn.sockfd ≡ some server_fd
  pub server_done : s.world.thread.conn.incoming ≡ []

sent_head :
    (conn : Conn) (fd : ℕ) (head : ReqHead)
    → conn.sockfd ≡ some fd
    → dic_conn_send conn (encode_req_head head) 8
      ≡ record conn { sent = conn.sent ++ encode_req_head head }
sent_head conn fd head open_ =
    subst
      (λ n.
        dic_conn_send conn (encode_req_head head) n
        ≡ record conn { sent = conn.sent ++ encode_req_head head })
      (length-encode_req_head head)
      (dic_conn_send_whole conn fd (encode_req_head head) open_
        (omega (arith, length-encode_req_head head)))

sent_count :
    (conn : Conn) (fd cores : ℕ)
    → conn.sockfd ≡ some fd
    → dic_conn_send conn (le_bytes 4 cores) 4 ≡ record conn { sent = conn.sent ++ le_bytes 4 cores }
sent_count conn fd cores open_ =
    subst
      (λ n.
        dic_conn_send conn (le_bytes 4 cores) n
        ≡ record conn { sent = conn.sent ++ le_bytes 4 cores })
      (length-le_bytes 4 cores)
      (dic_conn_send_whole conn fd (le_bytes 4 cores) open_
        (omega (arith, length-le_bytes 4 cores)))

module _ (chance : Chance) (wire : Wire) (s : Session MainEnd) (ready : IsReady s) (xs : Cells)
    (is : IsList s.world.registry xs) where
  -- `dic_get_nodes_info` returns the number of the nodes on the server's list and their entries, in
  -- the list's order, and leaves the list as it is, however TCP cuts the bytes. The conditions: both
  -- ends are ready, the entries fit their fields, the response is shorter than 2^31 bytes, and the
  -- server's loop is given as many rounds as there are nodes.
  pub dic_get_nodes_info-infos :
      AllFit (infos xs)
      → length xs ≤ chance.rounds
      → 4 + 24 * length xs < 2 ^ 31
      → (s' : Session MainEnd) × (dic_get_nodes_info (main_peer chance wire) s
          ≡ some ((length xs, infos xs), s'))
        × (s'.world.registry ≡ s.world.registry)
        × IsReady s'
  unfolding dic_get_nodes_info main_peer
  dic_get_nodes_info-infos fits rounds small =
      let msg = encode_req_head get_info_head in
      let t = arriving wire msg s.world.thread in
      let body = encode_get_info (length xs) (infos xs) in
      let same = length-infos xs in
      let size : length body ≡ 4 + 24 * length xs =
        rw (← same) (length-encode_get_info (infos xs) fits) in
      let (left, turned, remains, still) =
        connection_turn-get chance t ready.server_fd 0 ready.server_open (omega arith)
          s.world.registry xs is [] (rw (ready.server_done, wire.whole msg, append-nil)) fits rounds
          small in
      let done : left ≡ [] =
        nil_of_stream left (still (rw ready.server_done (wire.no_end msg))) remains in
      let conn : Conn = record s.conn {
        incoming = s.conn.incoming ++ wire.cut (reply body);
        sent = s.conn.sent ++ msg;
      } in
      let (left', got, got') =
        receive_reply conn ready.fd body ready.open_ (rw ready.done (wire.no_end (reply body)))
          (rw (ready.done, wire.whole (reply body))) (omega (arith, size)) in
      let decoded : decode_get_info body ≡ some (length xs, infos xs) =
        rw (← same) (decode_get_info-encode_get_info (infos xs) fits (omega (arith, same))) in
      let after : Session MainEnd = record {
        conn = record s.conn { incoming = []; sent = s.conn.sent ++ msg };
        world = record {
          thread = record t { conn = record t.conn { incoming = left; sent = reply body } };
          registry = s.world.registry;
        };
      } in
      (
        after,
        rw (
          sent_head s.conn ready.fd get_info_head ready.open_,
          turned,
          got,
          decode_resp_head-encode_resp_head (record { body_size = length body })
              (omega (arith, size)),
          got',
          le→leb (length body) (length body) (omega arith),
          decoded,
        ),
        refl,
        record {
          fd = ready.fd;
          open_ = ready.open_;
          done = refl;
          server_fd = ready.server_fd;
          server_open = ready.server_open;
          server_done = done;
        },
      )

  -- `notify_main_server` returns 0, and the server's list is longer by one entry, at its end: the address
  -- from which the node is connected and the number of cores that it states. The thread of the
  -- connection holds that entry's node and knows that it serves a compute node. The conditions: both
  -- ends are ready, `malloc` gives the server a block that is not in use, and its loop is given more
  -- rounds than the list has nodes.
  pub notify_main_server-Appended :
      (cores : ℕ)
      → cores < 2 ^ 32
      → chance.fresh ≢ null
      → s.world.registry.heap chance.fresh ≡ none
      → length xs < chance.rounds
      → (s' : Session MainEnd) × (notify_main_server (main_peer chance wire) cores s ≡ some (0, s'))
        × Appended chance.fresh
            (record { address = s.world.thread.conn.ip; core_count = cores })
            s.world.registry
            xs
            s'.world.thread.conn_info
            s'.world.registry
        × (s'.world.thread.is_compute_node ≡ true)
        × IsReady s'
  unfolding notify_main_server main_peer
  notify_main_server-Appended cores fits ne unused rounds =
      let msg = encode_req_head announce_head ++ le_bytes 4 cores in
      let t = arriving wire msg s.world.thread in
      let body = le_bytes 4 0 in
      let size : length body ≡ 4 = length-le_bytes 4 0 in
      let (left, turned, remains, still) =
        connection_turn-push chance t ready.server_fd 1 ready.server_open (omega arith)
          s.world.registry xs is cores [] (rw (ready.server_done, wire.whole msg, append-nil)) fits
          ne unused rounds in
      let (t', g, ran, (is_thread, appended)) = ok_of_Returns turned in
      let done : left ≡ [] =
        nil_of_stream left (still (rw ready.server_done (wire.no_end msg))) remains in
      let conn : Conn = record s.conn {
        incoming = s.conn.incoming ++ wire.cut (reply body);
        sent = s.conn.sent ++ encode_req_head announce_head ++ le_bytes 4 cores;
      } in
      let (left', got, got') =
        receive_reply conn ready.fd body ready.open_ (rw ready.done (wire.no_end (reply body)))
          (rw (ready.done, wire.whole (reply body))) (omega (arith, size)) in
      let after : Session MainEnd = record {
        conn = record s.conn {
          incoming = [];
          sent = s.conn.sent ++ encode_req_head announce_head ++ le_bytes 4 cores;
        };
        world = record {
          thread = record {
            conn = record t.conn { incoming = left; sent = reply body };
            conn_info = chance.fresh;
            is_compute_node = true;
          };
          registry = g;
        };
      } in
      (
        after,
        rw (
          sent_head s.conn ready.fd announce_head ready.open_,
          sent_count (record s.conn { sent = s.conn.sent ++ encode_req_head announce_head })
              ready.fd cores ready.open_,
          ran,
          is_thread,
          got,
          decode_resp_head-encode_resp_head (record { body_size = length body })
              (omega (arith, size)),
          got',
          le→leb (length body) 4 (omega (arith, size)),
          get_field-le_bytes_all 4 0 (omega arith),
        ),
        appended,
        refl,
        record {
          fd = ready.fd;
          open_ = ready.open_;
          done = refl;
          server_fd = ready.server_fd;
          server_open = ready.server_open;
          server_done = done;
        },
      )
