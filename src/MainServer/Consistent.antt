-- ===== src/MainServer/Consistent.antt =====
-- The server's state in every order of its threads' turns: the heap and what the threads hold of it.
use dicon.Base.{
  ℕ, ◌≤◌, ◌≡◌, refl, sym, ap, ◌∙◌, ◌⊎◌, inl, inr, true, false, Bool-cases, Option, some, [], arith,
  leb, length, ◌==◌,
}
use dicon.Socket.{Conn, dic_conn_recv}
use dicon.Socket.Recv.{dic_conn_recv-cases}
use dicon.Protocol.Heads.{ReqHead, decode_req_head, decode_req_head-some}
use dicon.Registry.{Registry, fault}
use dicon.Registry.Returns
use dicon.Registry.Returns.{Returns, returns, ok_of_Returns}
use dicon.Registry.Chain.{nil}
use dicon.Registry.Whole.{IsWhole}
use dicon.MainServer.{Chance, Thread, dic_announce_info, connection_turn}
use dicon.MainServer.Threads.{
  Server, set_thread, started, IsFair, ServerStep, accept, turn, fresh_server, Runs, start, step,
}
use dicon.MainServer.Safe.{
  IsTame, Holds, Turned, some_injective, serve-fault, leave-Turned, serve-Turned,
}

module _ (chance : Chance) (r : Registry) (whole : IsWhole r) (fair : IsFair r chance) (t : Thread)
    (holds : Holds r t) where
  served :
      (head : ReqHead)
      → (dic_conn_recv t.conn 8 false).res ≡ 0
      → decode_req_head (dic_conn_recv t.conn 8 false).buffer ≡ some head
      → (head.operation ≡ dic_announce_info
          → length (dic_conn_recv (dic_conn_recv t.conn 8 false).conn head.body_size false).buffer
            ≤ 4)
      → Returns (Turned r t) (connection_turn chance t r)
  unfolding connection_turn
  served head more read tame =
      let t' : Thread = record t { conn = (dic_conn_recv t.conn 8 false).conn } in
      let (u, g, ran, turned) =
        ok_of_Returns (serve-Turned chance r whole fair t' head holds tame) in
      rw (more, read, ran)
        (returns record {
          whole = turned.whole;
          kept = turned.kept;
          holds = turned.holds;
          own = turned.own;
        })

  -- A turn does what `Turned` says, or it is a fault of an announcement with too long a body.
  pub connection_turn-cases :
      Returns (Turned r t) (connection_turn chance t r)
      ⊎ ((connection_turn chance t r ≡ fault) × ¬ IsTame t)
  unfolding connection_turn
  connection_turn-cases = elim (dic_conn_recv-cases t.conn 8 (omega arith) (omega arith)) [
    | inl closed ↦ inl (rw closed (leave-Turned chance r whole fair t holds t.is_compute_node refl))
    | inr (more, size) ↦
        let got = dic_conn_recv t.conn 8 false in
        let (head, read) = decode_req_head-some got.buffer size in
        let count = length (dic_conn_recv got.conn head.body_size false).buffer in
        elim (Bool-cases (head.operation == dic_announce_info)) [
          | inr other ↦ inl (served head more read λ is. absurd (ground (arith, is, other)))
          | inl push ↦ elim (Bool-cases (leb count 4)) [
            | inl short ↦ inl (served head more read λ _. ground (arith, short))
            | inr long ↦
                let is : head.operation ≡ dic_announce_info = ground (arith, push) in
                inr (
                  rw (
                    more,
                    read,
                    serve-fault chance (record t { conn = got.conn }) head r is
                        (ground (arith, long)),
                  ),
                  λ tame. let short = tame head read is in ground (arith, short, long),
                )
          ]
        ]
  ]

-- Every node lies on a list, every thread of a compute node holds a node that is there, and no two of
-- them hold the same node.
pub record IsConsistent (s : Server) : Type 0 where
  pub whole : IsWhole s.registry
  pub holds : (i : ℕ) (t : Thread) → s.thread i ≡ some t → Holds s.registry t
  pub apart :
      (i j : ℕ) (t u : Thread)
      → s.thread i ≡ some t
      → s.thread j ≡ some u
      → t.is_compute_node ≡ true
      → u.is_compute_node ≡ true
      → t.conn_info ≡ u.conn_info
      → i ≡ j

module _ (s : Server) (c : IsConsistent s) (i : ℕ) (t : Thread) (at : s.thread i ≡ some t)
    (t' : Option Thread) (r : Registry) (turned : Turned s.registry t t' r) where
  -- What the thread holds after its turn, no other thread holds.
  own-apart :
      (j : ℕ) (u v : Thread)
      → t' ≡ some u
      → s.thread j ≡ some v
      → u.is_compute_node ≡ true
      → v.is_compute_node ≡ true
      → u.conn_info ≡ v.conn_info
      → i ≡ j
  own-apart j u v is there compute compute' same = elim (turned.own u is compute) [
    | inl (was, held) ↦ c.apart i j t v at there was compute' (sym held ∙ same)
    | inr unused ↦
        let (_, used) = c.holds j v there compute' in absurd (ground (arith, unused, used, same))
  ]

  Turned-IsConsistent : IsConsistent (record { registry = r; thread = set_thread s.thread i t' })
  Turned-IsConsistent = record {
    whole = turned.whole;
    holds = λ j u there. elim (Bool-cases (j == i)) [
      | inl is ↦ turned.holds u (ground (arith, is, there))
      | inr other ↦ λ compute.
          let there' : s.thread j ≡ some u = ground (arith, other, there) in
          turned.kept u.conn_info (c.holds j u there' compute) λ _ compute' same.
            let e = c.apart j i u t there' at compute compute' same in ground (arith, e, other)
    ];
    apart = λ j k u v at_j at_k compute compute' same. elim (Bool-cases (j == i)) [
      | inl first ↦ elim (Bool-cases (k == i)) [
        | inl second ↦ ground (arith, first, second)
        | inr other ↦
            let e =
              own-apart k u v (ground (arith, first, at_j)) (ground (arith, other, at_k)) compute
                compute' same in
            ground (arith, first, e)
      ]
      | inr other ↦ elim (Bool-cases (k == i)) [
        | inl second ↦
            let e =
              own-apart j v u (ground (arith, second, at_k)) (ground (arith, other, at_j)) compute'
                compute (sym same) in
            ground (arith, second, e)
        | inr other' ↦
            c.apart j k u v (ground (arith, other, at_j)) (ground (arith, other', at_k)) compute
              compute' same
      ]
    ];
  }

fresh-IsConsistent : IsConsistent fresh_server
fresh-IsConsistent = record {
  whole = record {
    through = λ c n there. absurd (ground (arith, there));
    cells = [];
    list = nil refl;
  };
  holds = λ i t there. absurd (ground (arith, there));
  apart = λ i j t u there. absurd (ground (arith, there));
}

starts_free :
    (conn : Conn) (t : Thread) → some (started conn) ≡ some t → ¬ (t.is_compute_node ≡ true)
starts_free conn t e compute =
    absurd (ground (arith, compute, ap (λ (v : Thread). v.is_compute_node) (some_injective e)))

-- A thread that starts holds nothing.
accept-IsConsistent :
    (s : Server) (c : IsConsistent s) (i : ℕ) (conn : Conn)
    → IsConsistent (record s { thread = set_thread s.thread i (some (started conn)) })
accept-IsConsistent s c i conn = record {
  whole = c.whole;
  holds = λ j t there compute. elim (Bool-cases (j == i)) [
    | inl is ↦ absurd (starts_free conn t (ground (arith, is, there)) compute)
    | inr other ↦ c.holds j t (ground (arith, other, there)) compute
  ];
  apart = λ j k t u at_j at_k compute compute' same. elim (Bool-cases (j == i)) [
    | inl is ↦ absurd (starts_free conn t (ground (arith, is, at_j)) compute)
    | inr other ↦ elim (Bool-cases (k == i)) [
      | inl is ↦ absurd (starts_free conn u (ground (arith, is, at_k)) compute')
      | inr other' ↦
          c.apart j k t u (ground (arith, other, at_j)) (ground (arith, other', at_k)) compute
            compute' same
    ]
  ];
}

step-IsConsistent : {s s' : Server} → IsConsistent s → ServerStep s s' → IsConsistent s'
step-IsConsistent {s} c (accept i conn free) = accept-IsConsistent s c i conn
step-IsConsistent {s} c (turn i t chance t' r at fair ran) =
    elim (connection_turn-cases chance s.registry c.whole fair t (c.holds i t at)) [
      | inl returned ↦ Turned-IsConsistent s c i t at t' r (Returns.at_ok returned ran)
      | inr (faulted, _) ↦ absurd (ground (arith, ran, faulted))
    ]

-- In every state that the server reaches, whatever is sent to it and in whatever order its threads take
-- their turns: every node of the heap lies on a list with nothing before its first node, the list that
-- NODES_INFO heads is one; the thread of a compute node holds a node that is there; and no two threads
-- hold the same node. The conditions are those of a step: `malloc` gives a block that is not in use, the
-- loops are given more rounds than the list has nodes, and the turn ends without a fault.
pub Runs-IsConsistent : {s : Server} → Runs s → IsConsistent s
Runs-IsConsistent start = fresh-IsConsistent
Runs-IsConsistent (step runs s) = step-IsConsistent (Runs-IsConsistent runs) s

-- In every state that the server reaches, a turn of any of its threads returns: it reads and writes no
-- node through NULL or after it is freed, frees none twice, and its loops end; and the state after it
-- is consistent again. The conditions: of an announcement no more than four bytes of body are
-- received, `malloc` gives a block that is not in use, and the loops are given more rounds than the
-- list has nodes.
pub connection_turn-IsConsistent :
    {s : Server} (runs : Runs s) (i : ℕ) (t : Thread) (chance : Chance)
    → s.thread i ≡ some t
    → IsFair s.registry chance
    → IsTame t
    → Returns
        (λ t' r. IsConsistent (record { registry = r; thread = set_thread s.thread i t' }))
        (connection_turn chance t s.registry)
connection_turn-IsConsistent {s} runs i t chance at fair tame =
    let c = Runs-IsConsistent runs in
    elim (connection_turn-cases chance s.registry c.whole fair t (c.holds i t at)) [
      | inl returned ↦ Returns.mono returned (Turned-IsConsistent s c i t at)
      | inr (_, wild) ↦ absurd (wild tame)
    ]
