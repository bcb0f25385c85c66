-- ===== src/MainServer/Safe.antt =====
-- What holds of the server's heap in every state, whatever its threads do and in whatever order.
use dicon.Base.{
  ℕ, ◌<◌, ◌≤◌, ◌^◌, ◌≡◌, ◌≢◌, refl, sym, ap, ◌∙◌, ◌⊎◌, inl, inr, Bool, true, false, Bool-cases,
  Option, none, some, ◌++◌, arith, le→leb, length, drop, length-drop, length-append, ◌==◌,
  if◌then◌else◌,
}
use mathlib.Core.Path.{subst}
use dicon.Wire.{Bytes, le_bytes}
use dicon.Wire.Fields.{get_field-some, length-le_bytes}
use dicon.Socket.Open.{dic_conn_recv_whole}
use dicon.Socket.Recv.{stream}
use dicon.MainServer.Turns.{push_head}
use dicon.Socket.{Conn, RecvResult, dic_conn_recv}
use dicon.Protocol.Heads.{
  ReqHead, decode_req_head, encode_req_head, length-encode_req_head,
  decode_req_head-encode_req_head,
}
use dicon.Registry.{NodeInfo, Ptr, Registry, remove_info, ◌>>◌, pure, fault}
use dicon.Registry.Returns.{Returns, returns, ok_of_Returns}
use dicon.Registry.Collect.{get_infos-eq-infos}
use dicon.Registry.Whole.{IsAllocated, IsWhole, append_info-IsWhole, remove_info-IsWhole}
use dicon.MainServer.{
  Chance, Thread, dic_announce_info, dic_get_info, announced_count, handle_push_info,
  handle_get_info, serve,
}
use dicon.MainServer.Threads.{IsFair}

-- Of an announcement that is to come, no more than four bytes of body are received.
abbrev pub IsTame : Thread → Type 0
IsTame t =
    (head : ReqHead)
    → decode_req_head (dic_conn_recv t.conn 8 false).buffer ≡ some head
    → head.operation ≡ dic_announce_info
    → length (dic_conn_recv (dic_conn_recv t.conn 8 false).conn head.body_size false).buffer ≤ 4

-- A thread that serves a compute node holds that node's entry.
abbrev pub Holds : Registry → Thread → Type 0
Holds r t = t.is_compute_node ≡ true → IsAllocated r.heap t.conn_info

-- What a turn of `t` makes of the heap: only the thread that leaves takes its own node off, and what a
-- thread holds afterwards is what it held or is new.
pub record Turned (r : Registry) (t : Thread) (t' : Option Thread) (g : Registry) : Type 0 where
  pub whole : IsWhole g
  pub kept :
      (a : Ptr)
      → IsAllocated r.heap a
      → (t' ≡ none → t.is_compute_node ≡ true → a ≢ t.conn_info)
      → IsAllocated g.heap a
  pub holds : (u : Thread) → t' ≡ some u → Holds g u
  pub own :
      (u : Thread)
      → t' ≡ some u
      → u.is_compute_node ≡ true
      → ((t.is_compute_node ≡ true) × (u.conn_info ≡ t.conn_info)) ⊎ (r.heap u.conn_info ≡ none)

pub some_injective : {A : Type 0} {x y : A} → some x ≡ some y → x ≡ y
some_injective {x} e = ap (λ o. elim o [ none ↦ x | some z ↦ z ]) e

announced_count-some :
    (stale bytes : Bytes)
    → length stale ≡ 4
    → length bytes ≤ 4
    → (count : ℕ) × (announced_count stale bytes ≡ some count)
unfolding announced_count
announced_count-some stale bytes size short =
    let left = length-drop (length bytes) stale in
    let (count, rest, got, _) =
      get_field-some 4 (bytes ++ drop (length bytes) stale)
        (omega (arith, left, length-append bytes (drop (length bytes) stale))) in
    (count, rw (le→leb (length bytes) 4 short, got))

pub announced_count-none :
    (stale bytes : Bytes) → 4 < length bytes → announced_count stale bytes ≡ none
unfolding announced_count
announced_count-none stale bytes long = ground arith

module _ (chance : Chance) (r : Registry) (whole : IsWhole r) (fair : IsFair r chance) where
  pub stays :
      (t : Thread) (conn : Conn) → Holds r t → Turned r t (some (record t { conn = conn })) r
  stays t conn holds = record {
    whole = whole;
    kept = λ a is _. is;
    holds = λ u e. subst (Holds r) (some_injective e) holds;
    own = λ u e is.
        let same = some_injective e in
        inl (
          ap (λ (v : Thread). v.is_compute_node) same ∙ is,
          sym (ap (λ (v : Thread). v.conn_info) same),
        );
  }

  -- A thread that leaves.
  pub leave-Turned :
      (t : Thread)
      → Holds r t
      → (compute : Bool) → t.is_compute_node ≡ compute
      → Returns
          (Turned r t)
          ((if compute then (remove_info t.conn_info >> pure none) else pure none) r)
  leave-Turned t holds true is =
      let (_, g, ran, (whole', kept)) =
        ok_of_Returns (remove_info-IsWhole r whole t.conn_info (holds is)) in
      rw ran (
        returns record {
          whole = whole';
          kept = λ a there ne. kept a (ne refl is) there;
          holds = λ u e. absurd (ground (arith, e));
          own = λ u e _. absurd (ground (arith, e));
        })
  leave-Turned t holds false is = returns record {
    whole = whole;
    kept = λ a there _. there;
    holds = λ u e. absurd (ground (arith, e));
    own = λ u e _. absurd (ground (arith, e));
  }

  -- An announcement, of which no more than four bytes arrive.
  handle_push_info-IsWhole :
      (conn : Conn) (head : ReqHead)
      → length (dic_conn_recv conn head.body_size false).buffer ≤ 4
      → Returns
          (λ result g.
            (result.0 ≡ chance.fresh)
            × IsWhole g
            × IsAllocated g.heap chance.fresh
            × ((a : Ptr) → IsAllocated r.heap a → IsAllocated g.heap a))
          (handle_push_info chance conn head r)
  unfolding handle_push_info
  handle_push_info-IsWhole conn head short =
      let got = dic_conn_recv conn head.body_size false in
      let (count, read) = announced_count-some chance.stale got.buffer fair.stale short in
      let info : NodeInfo = record { address = got.conn.ip; core_count = count } in
      let (p, g, ran, (whole', is, here, kept)) = ok_of_Returns (
        append_info-IsWhole chance.rounds chance.fresh chance.junk info r whole fair.fresh
          fair.unused (fair.rounds whole.cells whole.list)) in
      rw (handle_push_info, read, ran) (returns (is, whole', here, kept))

  -- What a request does, unless more is received than `body` has room for.
  pub serve-Turned :
      (t : Thread) (head : ReqHead)
      → Holds r t
      → (head.operation ≡ dic_announce_info
          → length (dic_conn_recv t.conn head.body_size false).buffer ≤ 4)
      → Returns (λ u g. Turned r t (some u) g) (serve chance t head r)
  unfolding serve handle_get_info
  serve-Turned t head holds tame = elim (Bool-cases (head.operation == dic_announce_info)) [
    | inl push ↦
        let ((p, conn), g, ran, (is, whole', here, kept)) =
          ok_of_Returns (handle_push_info-IsWhole t.conn head (tame (ground (arith, push)))) in
        rw (push, ran)
          (returns record {
            whole = whole';
            kept = λ a there _. kept a there;
            holds = λ u e _.
                subst (λ (v : Thread). IsAllocated g.heap v.conn_info) (some_injective e)
                  (rw is here);
            own = λ u e _. inr (rw (← some_injective e, is) fair.unused);
          })
    | inr no_push ↦ elim (Bool-cases (head.operation == dic_get_info)) [
      | inl get ↦
          let xs = whole.cells in
          rw
            (
              no_push,
              get,
              get_infos-eq-infos chance.rounds r xs whole.list
                  (omega (arith, fair.rounds xs whole.list)),
            )
            (returns (stays t _ holds))
      | inr other ↦ rw (no_push, other) (returns (stays t t.conn holds))
    ]
  ]

-- More than `body` has room for.
pub serve-fault :
    (chance : Chance) (t : Thread) (head : ReqHead) (r : Registry)
    → head.operation ≡ dic_announce_info
    → 4 < length (dic_conn_recv t.conn head.body_size false).buffer
    → serve chance t head r ≡ fault
unfolding serve handle_push_info
serve-fault chance t head r is long = rw (
  is,
  handle_push_info,
  announced_count-none chance.stale (dic_conn_recv t.conn head.body_size false).buffer long,
)

-- An announcement as a node sends it.
pub push-IsTame :
    (t : Thread) (fd version cores : ℕ) (rest : Bytes)
    → t.conn.sockfd ≡ some fd
    → version < 2 ^ 16
    → stream t.conn.incoming ≡ encode_req_head (push_head version) ++ (le_bytes 4 cores ++ rest)
    → IsTame t
push-IsTame t fd version cores rest open_ fits e head read is =
    let (left, got, remains, _) =
      dic_conn_recv_whole t.conn fd 8 (encode_req_head (push_head version))
        (le_bytes 4 cores ++ rest) open_ (omega arith) e
        (length-encode_req_head (push_head version)) in
    let (left', got', _, _) =
      dic_conn_recv_whole (record t.conn { incoming = left }) fd 4 (le_bytes 4 cores) rest open_
        (omega arith) remains (length-le_bytes 4 cores) in
    let decoded =
      decode_req_head-encode_req_head (push_head version) (omega arith) fits (omega arith) in
    let same : head ≡ push_head version = some_injective (sym read ∙ rw (got, decoded)) in
    let size : length
          (dic_conn_recv (record t.conn { incoming = left }) (push_head version).body_size
            false).buffer
        ≤ 4 =
      subst (λ (x : RecvResult). length x.buffer ≤ 4) (sym got')
        (omega (arith, length-le_bytes 4 cores)) in
    subst
      (λ (h : ReqHead).
        length (dic_conn_recv (dic_conn_recv t.conn 8 false).conn h.body_size false).buffer ≤ 4)
      (sym same)
      (subst (λ (x : RecvResult). length (dic_conn_recv x.conn 4 false).buffer ≤ 4) (sym got) size)
