-- ===== src/Socket.antt =====
-- common/src/dicon_sockets.c and dicon_sockets.h: connections, and sending and receiving on them.
-- The kernel's answers are arguments: what `socket`, `connect` and `accept` return, and the segments
-- in which a stream arrives. `send` takes all that it is given.
pub mod Rounds
pub mod Recv
pub mod Open
pub mod Send
pub mod Connect
pub mod Replies
pub mod Listening
mod Runs
use dicon.Base.{
  ℕ, zero, suc, ◌+◌, ◌-◌, ◌^◌, Bool, true, false, ◌&&◌, Option, none, some, List, [], ◌∷◌, ◌++◌,
  ltb, leb, ◌==◌, if◌then◌else◌, length, take, drop,
}

-- `ip_addr_t`: the union is its `ipv4` member and the 12 bytes behind that.
pub record IpAddr : Type 0 where
  pub family : ℕ
  pub ipv4 : ℕ
  pub ipv6_tail : List ℕ

abbrev pub af_inet : ℕ
af_inet = 2

-- `dic_conn_t`, with `none` for the descriptor -1. Its mutexes stand in `Channel`. The last two fields
-- are the socket's two directions: the segments that will still arrive, and all that was sent.
pub record Conn : Type 0 where
  pub sockfd : Option ℕ
  pub queue_len : ℕ
  pub port : ℕ
  pub ip : IpAddr
  pub incoming : List (List ℕ)
  pub sent : List ℕ

-- A C `int`, given by its bit pattern, converted to `size_t`.
abbrev pub size_of_int : ℕ → ℕ
size_of_int n = if ltb n (2 ^ 31) then n else n + (2 ^ 64 - 2 ^ 32)

-- One call of `recv` for at most `k` bytes: part of the first segment, the rest of which stays.
-- `none` is a result of 0 or less: an empty segment, or the end of the stream.
pub recv : ℕ → List (List ℕ) → Option (List ℕ × List (List ℕ))
recv k [] = none
recv k ([] ∷ segments) = none
recv k ((b ∷ bs) ∷ segments) =
    some (take k (b ∷ bs), if leb (length (b ∷ bs)) k then segments else drop k (b ∷ bs) ∷ segments)

-- How the receiving loop ends, with the bytes in the buffer and the segments that are left.
pub data Received : Type 0 where
  done : List ℕ → List (List ℕ) → Received
  failed : List ℕ → List (List ℕ) → Received
  out_of_fuel : Received

-- The loop of `tcp_recv_n`; `buf` holds the bytes received so far.
pub recv_loop : ℕ → ℕ → List ℕ → List (List ℕ) → Received
recv_loop zero n buf segments = out_of_fuel
recv_loop (suc fuel) n buf segments = elim (ltb (length buf) n) [
  | false ↦ done buf segments
  | true ↦ elim (recv (n - length buf) segments) [
    | none ↦ failed buf segments
    | some (bytes, left) ↦ recv_loop fuel n (buf ++ bytes) left
  ]
]

-- Each call of `recv` gives a byte at least, so `n + 1` rounds are enough (`Socket.Recv`).
pub tcp_recv_n : ℕ → List (List ℕ) → Received
tcp_recv_n n segments = recv_loop (suc n) n [] segments

-- What `dic_conn_recv` returns, what it put into the buffer, and the connection afterwards.
pub record RecvResult : Type 0 where
  pub res : ℕ
  pub buffer : List ℕ
  pub conn : Conn

after_recv : Conn → Bool → Received → RecvResult
after_recv conn null_terminate (done bytes left) = record {
  res = 0;
  buffer = if null_terminate then bytes ++ 0 ∷ [] else bytes;
  conn = record conn { incoming = left };
}
after_recv conn null_terminate (failed bytes left) = record {
  res = 1;
  buffer = bytes;
  conn = record conn { sockfd = none; incoming = left };
}
after_recv conn null_terminate out_of_fuel = record { res = 1; buffer = []; conn = conn }

-- On the descriptor -1 `recv` fails at once.
fd_segments : Option ℕ → List (List ℕ) → List (List ℕ)
fd_segments none segments = []
fd_segments (some fd) segments = segments

-- `n` is the bit pattern of the `int` that is passed.
pub dic_conn_recv : Conn → ℕ → Bool → RecvResult
unfolding after_recv fd_segments
dic_conn_recv conn n null_terminate =
    after_recv conn null_terminate
      (tcp_recv_n (size_of_int n) (fd_segments conn.sockfd conn.incoming))

pub strlen : List ℕ → ℕ
strlen [] = 0
strlen (c ∷ cs) = let rest = strlen cs in if c == 0 then 0 else suc rest

abbrev pub send_str : ℕ
send_str = 2 ^ 32 - 1

sent_on : Option ℕ → List ℕ → List ℕ → List ℕ
sent_on none sent bytes = sent
sent_on (some fd) sent bytes = sent ++ bytes

-- It returns 0 always, so only the connection is returned.
pub dic_conn_send : Conn → List ℕ → ℕ → Conn
unfolding sent_on strlen
dic_conn_send conn message len =
    let n = if len == send_str then strlen message else len in
    record conn { sent = sent_on conn.sockfd conn.sent (take n message) }

-- The kernel's answers to one attempt to connect: the descriptor that `socket` makes, if it does, and
-- whether `connect` succeeds.
pub record Attempt : Type 0 where
  pub socket : Option ℕ
  pub connects : Bool

-- `open_fds` are the descriptors that are open; `close` takes one out.
pub close : ℕ → List ℕ → List ℕ
close fd [] = []
close fd (x ∷ xs) = if x == fd then xs else x ∷ close fd xs

tcp_connect_on : Option ℕ → Bool → IpAddr → List ℕ → Option ℕ × List ℕ
unfolding close
tcp_connect_on none connects ip open_fds = (none, open_fds)
tcp_connect_on (some fd) connects ip open_fds =
    if (ip.family == af_inet) && (ip.ipv4 == 0)
    then (none, close fd (fd ∷ open_fds))
    else (if connects then (some fd, fd ∷ open_fds) else (none, close fd (fd ∷ open_fds)))

unfoldable pub tcp_connect : Attempt → IpAddr → List ℕ → Option ℕ × List ℕ
unfolding tcp_connect_on
tcp_connect try ip open_fds = tcp_connect_on try.socket try.connects ip open_fds

-- The stream `incoming` is what the peer will send on the new socket.
unfoldable pub dic_conn_new : Attempt → List (List ℕ) → IpAddr → ℕ → List ℕ → Conn × List ℕ
dic_conn_new try incoming ip port open_fds =
    let (fd, fds) = tcp_connect try ip open_fds in
    (
      record { sockfd = fd; queue_len = 0; port = port; ip = ip; incoming = incoming; sent = [] },
      fds,
    )

tried : Conn → Option ℕ → List ℕ → ℕ × Conn × List ℕ
tried conn none open_fds = (1, conn, open_fds)
tried conn (some fd) open_fds = (0, record conn { sockfd = some fd }, open_fds)

tryconnect_on : Option ℕ → Attempt → Conn → List ℕ → ℕ × Conn × List ℕ
unfolding tried
tryconnect_on (some fd) try conn open_fds = (0, conn, open_fds)
tryconnect_on none try conn open_fds =
    let (fd, fds) = tcp_connect try conn.ip open_fds in tried conn fd fds

unfoldable pub dic_conn_tryconnect : Attempt → Conn → List ℕ → ℕ × Conn × List ℕ
unfolding tryconnect_on
dic_conn_tryconnect try conn open_fds = tryconnect_on conn.sockfd try conn open_fds

pub close_opt : Option ℕ → List ℕ → List ℕ
close_opt none open_fds = open_fds
close_opt (some fd) open_fds = close fd open_fds

-- It returns 0 always.
pub dic_conn_disconnect : Conn → List ℕ → Conn × List ℕ
unfolding close_opt close
dic_conn_disconnect conn open_fds = (record conn { sockfd = none }, close_opt conn.sockfd open_fds)
