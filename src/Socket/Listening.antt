-- ===== src/Socket/Listening.antt =====
-- common/src/dicon_sockets.c: addresses from strings, the end of a connection, listening and accepting.
use dicon.Base.{
  ℕ, ◌≡◌, refl, ap, true, Bool, Option, none, some, List, [], ◌∷◌, arith, if◌then◌else◌, ◌-◌, ◌^◌,
}
use dicon.Socket.{IpAddr, Conn, af_inet, close, close_opt, dic_conn_disconnect}
use dicon.Socket.Connect.{Connected}

-- `inet_pton` is the library's: it fills the address, as its first 4 bytes and the rest, or leaves what
-- `stale` holds.
unfoldable pub ip_from_str :
    (inet_pton : ℕ → List ℕ → Option (ℕ × List ℕ)) (stale : IpAddr) → ℕ → List ℕ → IpAddr
ip_from_str inet_pton stale family ip_str = elim (inet_pton family ip_str) [
  | none ↦ record stale { family = family }
  | some (ipv4, ipv6_tail) ↦ record { family = family; ipv4 = ipv4; ipv6_tail = ipv6_tail }
]

unfoldable pub ipv4_from_str :
    (inet_pton : ℕ → List ℕ → Option (ℕ × List ℕ)) (stale : IpAddr) → List ℕ → IpAddr
unfolding ip_from_str
ipv4_from_str inet_pton stale ip_str = ip_from_str inet_pton stale af_inet ip_str

-- What is left of a connection: the descriptors that are open.
unfoldable pub dic_conn_destroy : Conn → List ℕ → List ℕ
dic_conn_destroy conn open_fds = (dic_conn_disconnect conn open_fds).1

-- What the kernel answers to the calls of `dic_conn_new_listening`.
pub record Listening : Type 0 where
  pub socket : Option ℕ
  pub binds : Bool
  pub listens : Bool

listening_on : Option ℕ → Bool → Bool → Conn → ℕ → List ℕ → Option Conn × List ℕ
listening_on none binds listens stale port open_fds = (none, open_fds)
listening_on (some fd) binds listens stale port open_fds =
    if binds
    then (if listens
        then (
          some (record stale {
            sockfd = some fd;
            port = port;
            ip = record {
              family = 2 ^ 32 - 1;
              ipv4 = 0;
              ipv6_tail = 0 ∷ 0 ∷ 0 ∷ 0 ∷ 0 ∷ 0 ∷ 0 ∷ 0 ∷ 0 ∷ 0 ∷ 0 ∷ 0 ∷ [];
            };
          }),
          fd ∷ open_fds,
        )
        else (none, close fd (fd ∷ open_fds)))
    else (none, close fd (fd ∷ open_fds))

-- `none` is the end of the process. `stale` is what the new block holds.
pub dic_conn_new_listening : Listening → (stale : Conn) → ℕ → List ℕ → Option Conn × List ℕ
unfolding listening_on close
dic_conn_new_listening answer stale port open_fds =
    listening_on answer.socket answer.binds answer.listens stale port open_fds

-- What `accept` gives: a descriptor, the peer's `sockaddr_in`, and what the peer will send.
pub record Accepted : Type 0 where
  pub fd : ℕ
  pub sin_port : ℕ
  pub sin_family : ℕ
  pub s_addr : ℕ
  pub incoming : List (List ℕ)

-- `none` is NULL. `stale` is what the new block holds: the fields that are not set stay as they are.
unfoldable pub dic_conn_accept : Option Accepted → (stale : Conn) → Option Conn
dic_conn_accept none stale = none
dic_conn_accept (some a) stale = some (record {
  sockfd = some a.fd;
  queue_len = stale.queue_len;
  port = a.sin_port;
  ip = record { family = a.sin_family; ipv4 = a.s_addr; ipv6_tail = stale.ip.ipv6_tail };
  incoming = a.incoming;
  sent = [];
})

-- The descriptor of a connection, or none where there is no connection.
abbrev pub descriptor : Option Conn → Option ℕ
descriptor none = none
descriptor (some conn) = conn.sockfd

-- `dic_conn_new_listening` opens the descriptor that it returns and no other, and leaves none open where
-- it ends the process.
pub dic_conn_new_listening-Connected :
    (answer : Listening) (stale : Conn) (port : ℕ) (fds : List ℕ)
    → let made = dic_conn_new_listening answer stale port fds in
      Connected fds (descriptor made.0) made.1
unfolding dic_conn_new_listening
dic_conn_new_listening-Connected answer stale port fds = ground arith

-- Where the kernel grants all three calls, the connection listens on the new descriptor, at that port.
pub dic_conn_new_listening-granted :
    (answer : Listening) (stale : Conn) (port fd : ℕ) (fds : List ℕ)
    → answer.socket ≡ some fd
    → answer.binds ≡ true
    → answer.listens ≡ true
    → (c : Conn) × (c.sockfd ≡ some fd)
      × (c.port ≡ port)
      × (dic_conn_new_listening answer stale port fds ≡ (some c, fd ∷ fds))
unfolding dic_conn_new_listening
dic_conn_new_listening-granted answer stale port fd fds made binds listens =
    rw (made, binds, listens) (_, refl, refl, refl)

-- A connection whose receive has failed has no descriptor any more, so destroying it closes none.
pub dic_conn_destroy-none :
    (conn : Conn) (fds : List ℕ) → conn.sockfd ≡ none → dic_conn_destroy conn fds ≡ fds
unfolding dic_conn_destroy dic_conn_disconnect
dic_conn_destroy-none conn fds shut = ground arith

-- An open connection's descriptor is closed with it.
pub dic_conn_destroy-open :
    (conn : Conn) (fds : List ℕ) (fd : ℕ)
    → conn.sockfd ≡ some fd
    → dic_conn_destroy conn fds ≡ close fd fds
unfolding dic_conn_destroy dic_conn_disconnect
dic_conn_destroy-open conn fds fd is = ap (λ o. close_opt o fds) is

pub dic_conn_disconnect-closed :
    (conn : Conn) (fds : List ℕ) → (dic_conn_disconnect conn fds).0.sockfd ≡ none
unfolding dic_conn_disconnect
dic_conn_disconnect-closed conn fds = refl
