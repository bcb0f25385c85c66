-- ===== src/MainServer/Turns.antt =====
-- A turn of a connection's thread on a request that is on the stream, whatever the segments.
use dicon.Base.{
  ℕ, ◌+◌, ◌*◌, ◌%◌, ◌<◌, ◌≤◌, ◌^◌, ◌≡◌, ◌≢◌, refl, true, none, some, List, ◌++◌, arith, le→leb,
  length, drop, append_assoc,
}
use mathlib.Core.Path.{subst}
use dicon.Wire.{Bytes, le_bytes}
use dicon.Wire.Fields.{length-le_bytes, get_field-le_bytes}
use dicon.Socket.{Conn, dic_conn_send}
use dicon.Socket.Recv.{stream}
use dicon.Socket.Send.{dic_conn_send_whole}
use dicon.Socket.Open.{IsOpen, dic_conn_recv_whole}
use dicon.Socket.Replies.{reply}
use dicon.Protocol.Heads.{
  ReqHead, encode_req_head, decode_req_head-encode_req_head, length-encode_req_head,
  encode_resp_head, length-encode_resp_head,
}
use dicon.Registry.{NodeInfo, null, Registry, ok}
use dicon.Registry.Returns.{Returns, returns, ok_of_Returns}
use dicon.Registry.Chain.{Cells, IsList}
use dicon.Registry.Append.{Appended, append_info-append}
use dicon.Registry.Collect.{infos, length-infos, get_infos-eq-infos}
use dicon.MainServer.{Chance, Thread, announced_count, handle_push_info, connection_turn}
use dicon.MainServer.Entries.{AllFit, encode_get_info, length-encode_get_info}

-- Two sends of a response, its head and its body, are one of the whole.
send_response :
    (conn : Conn) (fd : ℕ) (body : Bytes)
    → conn.sockfd ≡ some fd
    → length body < 2 ^ 31
    → dic_conn_send
        (dic_conn_send conn (encode_resp_head (record { body_size = length body })) 4)
        body
        (length body)
      ≡ record conn { sent = conn.sent ++ reply body }
send_response conn fd body open_ fits =
    let head = encode_resp_head (record { body_size = length body }) in
    let size : length head ≡ 4 = length-encode_resp_head (record { body_size = length body }) in
    let head_sent : dic_conn_send conn head 4 ≡ record conn { sent = conn.sent ++ head } =
      rw (← size) (dic_conn_send_whole conn fd head open_ (omega arith)) in
    rw (
      head_sent,
      dic_conn_send_whole (record conn { sent = conn.sent ++ head }) fd body open_ fits,
      append_assoc conn.sent head body,
    )

-- The acknowledgement of an announcement: its size is 4.
send_acknowledgement :
    (conn : Conn) (fd : ℕ)
    → conn.sockfd ≡ some fd
    → dic_conn_send
        (dic_conn_send conn (encode_resp_head (record { body_size = 4 })) 4)
        (le_bytes 4 0)
        4
      ≡ record conn { sent = conn.sent ++ reply (le_bytes 4 0) }
send_acknowledgement conn fd open_ =
    subst
      (λ n.
        dic_conn_send (dic_conn_send conn (encode_resp_head (record { body_size = n })) 4)
          (le_bytes 4 0) n
        ≡ record conn { sent = conn.sent ++ reply (le_bytes 4 0) })
      (length-le_bytes 4 0)
      (send_response conn fd (le_bytes 4 0) open_ (omega (arith, length-le_bytes 4 0)))

announced_count-le_bytes :
    (stale : Bytes) (cores : ℕ)
    → cores < 2 ^ 32
    → announced_count stale (le_bytes 4 cores) ≡ some cores
unfolding announced_count
announced_count-le_bytes stale cores fits =
    let size = length-le_bytes 4 cores in
    rw (le→leb (length (le_bytes 4 cores)) 4 (omega (arith, size)))
      (rw (get_field-le_bytes 4 cores (drop (length (le_bytes 4 cores)) stale) fits))

abbrev pub get_head : ℕ → ReqHead
get_head version = record { operation = 1; version = version; body_size = 0 }

abbrev pub push_head : ℕ → ReqHead
push_head version = record { operation = 0; version = version; body_size = 4 }

-- An announcement's body, and what it makes of the list.
handle_push_info-Appended :
    (chance : Chance) (conn : Conn) (fd version cores : ℕ) (rest : Bytes) (r : Registry)
    (xs : Cells)
    → conn.sockfd ≡ some fd
    → stream conn.incoming ≡ le_bytes 4 cores ++ rest
    → cores < 2 ^ 32
    → IsList r xs
    → chance.fresh ≢ null
    → r.heap chance.fresh ≡ none
    → length xs < chance.rounds
    → (left : List Bytes) × (g : Registry) × (handle_push_info chance conn (push_head version) r
        ≡ ok
            (
              chance.fresh,
              record conn { incoming = left; sent = conn.sent ++ reply (le_bytes 4 0) },
            )
            g)
      × Appended chance.fresh (record { address = conn.ip; core_count = cores }) r xs chance.fresh g
      × (stream left ≡ rest)
      × (IsOpen conn.incoming → IsOpen left)
unfolding handle_push_info
handle_push_info-Appended chance conn fd version cores rest r xs open_ e fits is ne unused rounds =
    let (left, got, remains, still) =
      dic_conn_recv_whole conn fd 4 (le_bytes 4 cores) rest open_ (omega arith) e
        (length-le_bytes 4 cores) in
    let info : NodeInfo = record { address = conn.ip; core_count = cores } in
    let (p, g, ran, appended) =
      ok_of_Returns
        (append_info-append chance.rounds chance.fresh chance.junk info r xs is ne unused rounds) in
    (
      left,
      g,
      rw (
        handle_push_info,
        got,
        announced_count-le_bytes chance.stale cores fits,
        got,
        ran,
        appended.0,
        send_acknowledgement (record conn { incoming = left }) fd open_,
      ),
      (refl, appended.1, appended.2),
      remains,
      still,
    )

module _ (chance : Chance) (t : Thread) (fd version : ℕ) (open_ : t.conn.sockfd ≡ some fd)
    (version_fits : version < 2 ^ 16) (r : Registry) (xs : Cells) (is : IsList r xs) where
  -- A request for the list is answered with the list, which stays as it is.
  pub connection_turn-get :
      (rest : Bytes)
      → stream t.conn.incoming ≡ encode_req_head (get_head version) ++ rest
      → AllFit (infos xs)
      → length xs ≤ chance.rounds
      → 4 + 24 * length xs < 2 ^ 31
      → (left : List Bytes) × (connection_turn chance t r
          ≡ ok
              (some (record t {
                conn = record t.conn {
                  incoming = left;
                  sent = t.conn.sent ++ reply (encode_get_info (length xs) (infos xs));
                };
              }))
              r)
        × (stream left ≡ rest)
        × (IsOpen t.conn.incoming → IsOpen left)
  unfolding connection_turn
  connection_turn-get rest e fits rounds small =
      let (left, got, remains, still) =
        dic_conn_recv_whole t.conn fd 8 (encode_req_head (get_head version)) rest open_
          (omega arith) e (length-encode_req_head (get_head version)) in
      let conn : Conn = record t.conn { incoming = left } in
      let body = encode_get_info (length xs) (infos xs) in
      let same = length-infos xs in
      let size : length body ≡ 4 + 24 * length xs =
        rw (← same) (length-encode_get_info (infos xs) fits) in
      let whole : (4 + 24 * length xs) % 2 ^ 32 ≡ length body = omega (arith, size) in
      (
        left,
        rw (
          got,
          decode_req_head-encode_req_head (get_head version) (omega arith) version_fits
              (omega arith),
          get_infos-eq-infos chance.rounds r xs is rounds,
          whole,
          got,
          send_response conn fd body open_ (omega arith),
        ),
        remains,
        still,
      )

  -- An announcement puts the connection's address with the number of cores behind the list, and says
  -- that it is done.
  pub connection_turn-push :
      (cores : ℕ) (rest : Bytes)
      → stream t.conn.incoming ≡ encode_req_head (push_head version) ++ (le_bytes 4 cores ++ rest)
      → cores < 2 ^ 32
      → chance.fresh ≢ null
      → r.heap chance.fresh ≡ none
      → length xs < chance.rounds
      → (left : List Bytes) × Returns
          (λ t' g.
            (t'
              ≡ some (record {
                conn = record t.conn {
                  incoming = left;
                  sent = t.conn.sent ++ reply (le_bytes 4 0);
                };
                conn_info = chance.fresh;
                is_compute_node = true;
              }))
            × Appended chance.fresh
                (record { address = t.conn.ip; core_count = cores })
                r
                xs
                chance.fresh
                g)
          (connection_turn chance t r)
        × (stream left ≡ rest)
        × (IsOpen t.conn.incoming → IsOpen left)
  unfolding connection_turn
  connection_turn-push cores rest e fits ne unused rounds =
      let head = push_head version in
      let (left, got, remains, still) =
        dic_conn_recv_whole t.conn fd 8 (encode_req_head head) (le_bytes 4 cores ++ rest) open_
          (omega arith) e (length-encode_req_head head) in
      let (left', g, ran, appended, remains', still') =
        handle_push_info-Appended chance (record t.conn { incoming = left }) fd version cores rest r
          xs open_ remains fits is ne unused rounds in
      (
        left',
        rw
            (
              got,
              decode_req_head-encode_req_head head (omega arith) version_fits (omega arith),
              got,
              ran,
            )
            (returns (refl, appended)),
        remains',
        λ o. still' (still o),
      )
