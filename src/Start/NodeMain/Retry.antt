-- ===== src/Start/NodeMain/Retry.antt =====
-- The loop of node/src/main.c that connects to the main server.
use dicon.Base.{ℕ, ◌≡◌, refl, ap, ◌∙◌, Option, none, some, List, [], ◌∷◌, ◌++◌, All}
use mathlib.Core.Path.{subst}
use dicon.Socket.{IpAddr, Conn, Attempt, tcp_connect, dic_conn_new, dic_conn_tryconnect}
use dicon.Socket.Connect.{Connected, tcp_connect-Connected}
use dicon.Start.NodeMain.{unless_open, retry}

-- The descriptors after `tcp_connect`, by what it returns.
after_connect :
    (try : Attempt) (ip : IpAddr) (fds : List ℕ) (o : Option ℕ)
    → (tcp_connect try ip fds).0 ≡ o
    → Connected fds o (tcp_connect try ip fds).1
after_connect try ip fds o is =
    subst (λ r. Connected fds r (tcp_connect try ip fds).1) is (tcp_connect-Connected try ip fds)

tryconnect-refused :
    (try : Attempt) (conn : Conn) (fds : List ℕ)
    → conn.sockfd ≡ none
    → (tcp_connect try conn.ip fds).0 ≡ none
    → dic_conn_tryconnect try conn fds ≡ (1, conn, fds)
unfolding dic_conn_tryconnect
tryconnect-refused try conn fds closed refused =
    rw (closed, refused, after_connect try conn.ip fds none refused)

tryconnect-accepted :
    (try : Attempt) (conn : Conn) (fds : List ℕ) (fd : ℕ)
    → conn.sockfd ≡ none
    → (tcp_connect try conn.ip fds).0 ≡ some fd
    → dic_conn_tryconnect try conn fds ≡ (0, record conn { sockfd = some fd }, fd ∷ fds)
unfolding dic_conn_tryconnect
tryconnect-accepted try conn fds fd closed accepted =
    rw (closed, accepted, after_connect try conn.ip fds (some fd) accepted)

retry-step :
    (t : Attempt) (tries : List Attempt) (conn : Conn) (fds : List ℕ) {r : ℕ × Conn × List ℕ}
    → conn.sockfd ≡ none
    → dic_conn_tryconnect t conn fds ≡ r
    → retry (t ∷ tries) conn fds ≡ retry tries r.1 r.2
unfolding retry
retry-step t tries conn fds closed is =
    ap
      (λ o.
        unless_open o
          (retry tries (dic_conn_tryconnect t conn fds).1 (dic_conn_tryconnect t conn fds).2)
          (some (conn, fds)))
      closed
    ∙ ap (λ r. retry tries r.1 r.2) is

pub retry-done :
    (tries : List Attempt) (conn : Conn) (fds : List ℕ) (fd : ℕ)
    → conn.sockfd ≡ some fd
    → retry tries conn fds ≡ some (conn, fds)
unfolding retry
retry-done [] conn fds fd is = ap (λ o. unless_open o none (some (conn, fds))) is
retry-done (t ∷ tries) conn fds fd is =
    ap
      (λ o.
        unless_open o
          (retry tries (dic_conn_tryconnect t conn fds).1 (dic_conn_tryconnect t conn fds).2)
          (some (conn, fds)))
      is

-- The loop ends at the first attempt that the main server takes, however many it has refused before, and
-- none of those leaves a descriptor open. The condition: the first attempt, before the loop, has failed.
pub retry-Connected :
    (refused later : List Attempt) (try : Attempt) (conn : Conn) (fds : List ℕ) (fd : ℕ)
    → conn.sockfd ≡ none
    → All (λ t. (tcp_connect t conn.ip fds).0 ≡ none) refused
    → (tcp_connect try conn.ip fds).0 ≡ some fd
    → retry (refused ++ try ∷ later) conn fds ≡ some (record conn { sockfd = some fd }, fd ∷ fds)
retry-Connected [] later try conn fds fd closed all accepted =
    retry-step try later conn fds closed (tryconnect-accepted try conn fds fd closed accepted)
    ∙ retry-done later (record conn { sockfd = some fd }) (fd ∷ fds) fd refl
retry-Connected (t ∷ refused) later try conn fds fd closed (first, all) accepted =
    retry-step t (refused ++ try ∷ later) conn fds closed
      (tryconnect-refused t conn fds closed first)
    ∙ retry-Connected refused later try conn fds fd closed all accepted

cons_injective :
    {t t' : Attempt} {ts ts' : List Attempt} → t ∷ ts ≡ t' ∷ ts' → (t ≡ t') × (ts ≡ ts')
cons_injective e = (cc, cc)

pub connect_main-Connected :
    (refused later tries : List Attempt) (first try : Attempt) (incoming : List (List ℕ))
    (ip : IpAddr) (port : ℕ) (fds : List ℕ) (fd : ℕ)
    → first ∷ tries ≡ refused ++ try ∷ later
    → All (λ t. (tcp_connect t ip fds).0 ≡ none) refused
    → (tcp_connect try ip fds).0 ≡ some fd
    → let made = dic_conn_new first incoming ip port fds in
      retry tries made.0 made.1
      ≡ some (
        record {
          sockfd = some fd;
          queue_len = 0;
          port = port;
          ip = ip;
          incoming = incoming;
          sent = [];
        },
        fd ∷ fds,
      )
unfolding dic_conn_new
connect_main-Connected [] later tries first try incoming ip port fds fd is all accepted =
    let (same, rest) = cons_injective is in
    let at_first : (tcp_connect first ip fds).0 ≡ some fd = rw same accepted in
    rw (at_first, after_connect first ip fds (some fd) at_first)
      (retry-done tries _ (fd ∷ fds) fd refl)
connect_main-Connected (t ∷ refused) later tries first try incoming ip port fds fd is (fails, all)
      accepted =
    let (same, rest) = cons_injective is in
    let at_first : (tcp_connect first ip fds).0 ≡ none = rw same fails in
    rw (at_first, after_connect first ip fds none at_first, rest)
      (retry-Connected refused later try
        (record {
          sockfd = none;
          queue_len = 0;
          port = port;
          ip = ip;
          incoming = incoming;
          sent = [];
        })
        fds fd refl all accepted)
