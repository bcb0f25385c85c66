-- ===== src/Socket/Runs.antt =====
-- Runs of the socket layer, and its theorems at concrete streams.
use dicon.Base.{ℕ, ◌≡◌, refl, true, false, none, some, List, [], ◌∷◌, arith, ◌<◌}
use dicon.Socket.{
  Conn, Attempt, recv, done, failed, recv_loop, tcp_recv_n, dic_conn_recv, tcp_connect,
  dic_conn_send, send_str,
}
use dicon.Socket.Recv.{stream, tcp_recv_n-short, dic_conn_recv-exact, dic_conn_recv-short}
use dicon.Socket.Connect.{Connected, tcp_connect-Connected}

abbrev segments : List (List ℕ)
segments = (1 ∷ 2 ∷ []) ∷ (3 ∷ 4 ∷ 5 ∷ []) ∷ (6 ∷ []) ∷ []

abbrev conn : Conn
conn = record {
  sockfd = some 4;
  queue_len = 0;
  port = 4224;
  ip = record { family = 2; ipv4 = 16777343; ipv6_tail = [] };
  incoming = segments;
  sent = [];
}

four_of_six : tcp_recv_n 4 segments ≡ done (1 ∷ 2 ∷ 3 ∷ 4 ∷ []) ((5 ∷ []) ∷ (6 ∷ []) ∷ [])
unfolding tcp_recv_n recv_loop recv
four_of_six = refl

seven_of_six : tcp_recv_n 7 segments ≡ failed (1 ∷ 2 ∷ 3 ∷ 4 ∷ 5 ∷ 6 ∷ []) []
unfolding tcp_recv_n recv_loop recv
seven_of_six = refl

sent_text : (dic_conn_send conn (104 ∷ 105 ∷ 0 ∷ 7 ∷ []) send_str).sent ≡ 104 ∷ 105 ∷ []
unfolding dic_conn_send
sent_text = refl

tcp_recv_n-short_example :
    (left : List (List ℕ)) × (tcp_recv_n 7 segments ≡ failed (stream segments) left)
tcp_recv_n-short_example = tcp_recv_n-short 7 segments (omega arith)

dic_conn_recv-exact_example :
    (left : List (List ℕ)) × (dic_conn_recv conn 2 true
      ≡ record { res = 0; buffer = 1 ∷ 2 ∷ 0 ∷ []; conn = record conn { incoming = left } })
    × (stream left ≡ 3 ∷ 4 ∷ 5 ∷ 6 ∷ [])
dic_conn_recv-exact_example =
    dic_conn_recv-exact conn 4 2 refl (omega arith) (1 ∷ 2 ∷ []) (3 ∷ 4 ∷ 5 ∷ 6 ∷ []) true refl refl

dic_conn_recv-short_example :
    ((dic_conn_recv conn 9 false).res ≡ 1)
    × ((dic_conn_recv conn 9 false).conn.sockfd ≡ none)
    × ((m : ℕ) → 0 < m → (dic_conn_recv (dic_conn_recv conn 9 false).conn m false).res ≡ 1)
dic_conn_recv-short_example = dic_conn_recv-short conn 4 9 refl (omega arith) false (omega arith)

tcp_connect-Connected_example :
    let try : Attempt = record { socket = some 5; connects = false } in
    Connected (3 ∷ []) (tcp_connect try conn.ip (3 ∷ [])).0 (tcp_connect try conn.ip (3 ∷ [])).1
tcp_connect-Connected_example =
    tcp_connect-Connected (record { socket = some 5; connects = false }) conn.ip (3 ∷ [])
