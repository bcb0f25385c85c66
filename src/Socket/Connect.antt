-- ===== src/Socket/Connect.antt =====
-- `tcp_connect`, `dic_conn_new` and `dic_conn_tryconnect` for every answer of the kernel.
use dicon.Base.{
  ℕ, ◌≡◌, ◌≢◌, ◌↔◌, refl, true, false, none, some, Option, List, ◌∷◌, arith, ◌==◌, ◌&&◌,
}
use dicon.Socket.{
  IpAddr, Conn, Attempt, af_inet, close, tcp_connect, dic_conn_new, dic_conn_tryconnect,
}

close_self : (fd : ℕ) (fds : List ℕ) → close fd (fd ∷ fds) ≡ fds
unfolding close
close_self fd fds = ground arith

-- What `tcp_connect` promises for a socket `fd` or none: it opens one more descriptor and returns it,
-- or returns -1 and leaves no descriptor behind.
abbrev pub Connected : List ℕ → Option ℕ → List ℕ → Type 0
Connected before none after = after ≡ before
Connected before (some fd) after = after ≡ fd ∷ before

-- `tcp_connect` leaks no descriptor: where it returns -1 the open descriptors are those from before,
-- and where it returns one, that one is the only new one.
pub tcp_connect-Connected :
    (try : Attempt) (ip : IpAddr) (fds : List ℕ)
    → Connected fds (tcp_connect try ip fds).0 (tcp_connect try ip fds).1
unfolding tcp_connect close
tcp_connect-Connected try ip fds = ground arith

-- `tcp_connect` returns a descriptor exactly when `socket` makes it, `connect` succeeds, and the
-- address is not the IPv4 address 0.
pub tcp_connect-some_iff :
    (try : Attempt) (ip : IpAddr) (fds : List ℕ) (fd : ℕ)
    → ((tcp_connect try ip fds).0 ≡ some fd) ↔ (
        (try.socket ≡ some fd)
        × (try.connects ≡ true)
        × (((ip.family == af_inet) && (ip.ipv4 == 0)) ≡ false))
unfolding tcp_connect
tcp_connect-some_iff try ip fds fd = ground arith

-- `dic_conn_tryconnect` returns 0 exactly when the connection has a descriptor afterwards, and 1
-- otherwise; it keeps a descriptor that is there.
pub dic_conn_tryconnect-zero_iff :
    (try : Attempt) (conn : Conn) (fds : List ℕ)
    → let r = dic_conn_tryconnect try conn fds in
      ((r.0 ≡ 0) ↔ (r.1.sockfd ≢ none))
      × ((r.1.sockfd ≡ none) ↔ (r.0 ≡ 1))
      × (conn.sockfd ≢ none → (r.1 ≡ conn) × (r.2 ≡ fds))
unfolding dic_conn_tryconnect tcp_connect
dic_conn_tryconnect-zero_iff try conn fds = ground arith

-- A new connection: its ends, and its descriptor the only one that was opened, if any.
pub dic_conn_new-Connected :
    (try : Attempt) (incoming : List (List ℕ)) (ip : IpAddr) (port : ℕ) (fds : List ℕ)
    → let made = dic_conn_new try incoming ip port fds in
      (made.0.ip ≡ ip) × (made.0.port ≡ port) × Connected fds made.0.sockfd made.1
unfolding dic_conn_new
dic_conn_new-Connected try incoming ip port fds = (refl, refl, tcp_connect-Connected try ip fds)
