-- ===== src/Node/Listen.antt =====
-- node/src/main.c, `listen_loop`: one client after the other.
use dicon.Base.{ℕ, suc, ◌≡◌, refl, Option, some, List, [], ◌∷◌, map, length}
use dicon.Wire.{Bytes, ◌>>=◌}
use dicon.Socket.{Conn}
use dicon.Socket.Recv.{stream}
use dicon.Socket.Listening.{Accepted, dic_conn_accept}
use dicon.Platform.{Platform, Process}
use dicon.Node.{client_handling_loop}
use dicon.Node.Loop.{Request, requests, Serves, client_handling_loop-Serves}

-- One round of the loop: what `accept` gives, what the new block holds, and the rounds that
-- `client_handling_loop` may take.
pub record Visit : Type 0 where
  pub accepted : Option Accepted
  pub stale : Conn
  pub rounds : ℕ

module _ {Host : Type 0} (os : Platform Host) where
  -- The rounds in which `accept` returns; the result is each client's connection as it is destroyed, and
  -- the process. `none` is a fault: among others, a NULL that `dic_conn_accept` returns is not looked at.
  unfoldable pub listen_loop : List Visit → Process Host → Option (List Conn × Process Host)
  listen_loop [] p = some ([], p)
  listen_loop (v ∷ visits) p = do
    client_conn ← dic_conn_accept v.accepted v.stale
    handled ← client_handling_loop os v.rounds client_conn p
    served ← handled
    (conns, p') ← listen_loop visits served.process
    some (served.conn ∷ conns, p')

  -- Clients that come one after the other, each with its requests: what is sent to each, and what they
  -- make of the process.
  pub data ServesAll : List Visit → Process Host → List Bytes → Process Host → Type 0 where
    nobody : {p : Process Host} → ServesAll [] p [] p
    client :
        (a : Accepted) (stale : Conn) (rs : List Request) {visits : List Visit}
        {p p' p'' : Process Host} {out : Bytes} {outs : List Bytes}
        → stream a.incoming ≡ requests rs
        → Serves os rs p out p'
        → ServesAll visits p' outs p''
        → ServesAll
            (record { accepted = some a; stale = stale; rounds = suc (length rs) } ∷ visits)
            p
            (out ∷ outs)
            p''

  -- The node serves its clients one after the other: each is sent exactly the answers to its requests, in
  -- order, and the process goes from one client to the next as the last request left it. The conditions:
  -- each client's requests are well formed and none makes the node crash, the answers are shorter than
  -- 2^31 bytes, each client hangs up in the end, and no `accept` fails.
  pub listen_loop-ServesAll :
      (visits : List Visit) (p p' : Process Host) (outs : List Bytes)
      → ServesAll visits p outs p'
      → (conns : List Conn) × (listen_loop visits p ≡ some (conns, p'))
        × (map (λ (c : Conn). c.sent) conns ≡ outs)
  unfolding listen_loop dic_conn_accept
  listen_loop-ServesAll [] p _ _ nobody = ([], refl, refl)
  listen_loop-ServesAll (_ ∷ visits) p p' _
        (client a stale rs {p' = mid} {out} {outs} e serves rest) =
      let conn : Conn = record {
        sockfd = some a.fd;
        queue_len = stale.queue_len;
        port = a.sin_port;
        ip = record { family = a.sin_family; ipv4 = a.s_addr; ipv6_tail = stale.ip.ipv6_tail };
        incoming = a.incoming;
        sent = [];
      } in
      let (last, ran, sent) = client_handling_loop-Serves os rs conn a.fd p mid out serves refl e in
      let (conns, looped, sents) = listen_loop-ServesAll visits mid p' outs rest in
      (last ∷ conns, rw (ran, looped), rw (sent, sents))
