-- ===== src/Socket/Recv.antt =====
-- `tcp_recv_n` and `dic_conn_recv` against the stream of bytes, however it is cut into segments.
use dicon.Base.{
  Option-cases, Bool-cases, ltb, ltb→lt, false, take, drop, take-append-drop, length-take, ◌⊎◌, ℕ,
  zero, suc, ◌+◌, ◌-◌, ◌<◌, ◌^◌, ◌≡◌, refl, ◌∙◌, ap, sym, Bool, inl, inr, none, some, List, [], ◌∷◌,
  ◌++◌, arith, lt→ltb, if◌then◌else◌, length, length-append, append-nil, append_assoc,
}
use dicon.Socket.{
  RecvResult, Conn, recv, done, failed, recv_loop, tcp_recv_n, dic_conn_recv, size_of_int,
}
-- The bytes that will be received: those before the first empty segment, at which `recv` gives 0.
use dicon.Socket.Rounds.{
  List-cases, Taken, recv-Taken, Longer, longer, recv_loop_full, recv_loop_step, recv_loop_end,
}
pub use dicon.Socket.Rounds.{stream}

-- What the loop does with `want` still to come.
abbrev Completes : ℕ → ℕ → List ℕ → List ℕ → List ℕ → List (List ℕ) → Type 0
Completes fuel n buf want rest segments =
    (left : List (List ℕ)) × (recv_loop fuel n buf segments ≡ done (buf ++ want) left)
    × (stream left ≡ rest)

Completes-step :
    (fuel n : ℕ) (buf want rest : List ℕ) (segments : List (List ℕ))
    → length buf < n
    → (t : Taken (n - length buf) segments) (l : Longer t.bytes rest want (stream t.left))
    → Completes fuel n (buf ++ t.bytes) l.more rest t.left
    → Completes (suc fuel) n buf want rest segments
Completes-step fuel n buf want rest segments room t l (left, result, remains) = (
  left,
  recv_loop_step fuel n buf segments room t.got
      ∙ result
      ∙ ap (λ bs. done bs left)
          (append_assoc buf t.bytes l.more ∙ ap (λ bs. buf ++ bs) (sym l.want_is)),
  remains,
)

recv_loop-Completes :
    (fuel n : ℕ) (buf want rest : List ℕ) (segments : List (List ℕ))
    → stream segments ≡ want ++ rest
    → length buf + length want ≡ n
    → length want < fuel
    → Completes fuel n buf want rest segments
recv_loop-Completes zero n buf want rest segments e size h = absurd (omega arith)
recv_loop-Completes (suc fuel) n buf [] rest segments e size h =
    (segments, rw append-nil (recv_loop_full fuel n buf segments (omega arith)), e)
recv_loop-Completes (suc fuel) n buf (w ∷ want) rest segments e size h =
    go (recv-Taken (n - length buf) segments (omega arith) (rw e (omega arith)))
      (recv_loop-Completes fuel n)
  where
    go :
        Taken (n - length buf) segments
        → ((buf' want' rest' : List ℕ) (segments' : List (List ℕ))
            → stream segments' ≡ want' ++ rest'
            → length buf' + length want' ≡ n
            → length want' < fuel
            → Completes fuel n buf' want' rest' segments')
        → Completes (suc fuel) n buf (w ∷ want) rest segments
    go t again =
        let l =
          longer t.bytes (stream t.left) (w ∷ want) rest (sym t.front ∙ e)
            (omega (arith, t.at_most)) in
        let sizes = length-append t.bytes l.more in
        Completes-step fuel n buf (w ∷ want) rest segments (omega arith) t l (
          again (buf ++ t.bytes) l.more rest t.left l.rest_is
            (omega (arith, ap length l.want_is, sizes, length-append buf t.bytes))
            (omega (arith, ap length l.want_is, sizes, t.some_bytes)))

recv-none : (k : ℕ) (segments : List (List ℕ)) → stream segments ≡ [] → recv k segments ≡ none
unfolding recv
recv-none k [] e = refl
recv-none k ([] ∷ segments) e = refl
recv-none k ((b ∷ bs) ∷ segments) e = cc

-- The loop where the stream ends too early: all of it is in the buffer.
abbrev RunsShort : ℕ → ℕ → List ℕ → List (List ℕ) → Type 0
RunsShort fuel n buf segments =
    (left : List (List ℕ)) × (recv_loop fuel n buf segments ≡ failed (buf ++ stream segments) left)

RunsShort-step :
    (fuel n : ℕ) (buf : List ℕ) (segments : List (List ℕ))
    → length buf < n
    → (t : Taken (n - length buf) segments) → RunsShort fuel n (buf ++ t.bytes) t.left
    → RunsShort (suc fuel) n buf segments
RunsShort-step fuel n buf segments room t (left, result) = (
  left,
  recv_loop_step fuel n buf segments room t.got
      ∙ result
      ∙ ap (λ bs. failed bs left)
          (append_assoc buf t.bytes (stream t.left) ∙ ap (λ bs. buf ++ bs) (sym t.front)),
)

recv_loop-RunsShort :
    (fuel n : ℕ) (buf : List ℕ) (segments : List (List ℕ))
    → length buf + length (stream segments) < n
    → length (stream segments) < fuel
    → RunsShort fuel n buf segments
recv_loop-RunsShort zero n buf segments short h = absurd (omega arith)
recv_loop-RunsShort (suc fuel) n buf segments short h = elim (List-cases (stream segments)) [
  | inl empty ↦ (
    segments,
    rw (empty, append-nil)
        (recv_loop_end fuel n buf segments (omega arith) (recv-none _ segments empty)),
  )
  | inr more ↦
      go (recv-Taken (n - length buf) segments (omega arith) more) (recv_loop-RunsShort fuel n)
]
  where
    go :
        Taken (n - length buf) segments
        → ((buf' : List ℕ) (segments' : List (List ℕ))
            → length buf' + length (stream segments') < n
            → length (stream segments') < fuel
            → RunsShort fuel n buf' segments')
        → RunsShort (suc fuel) n buf segments
    go t again =
        let sizes = length-append t.bytes (stream t.left) in
        RunsShort-step fuel n buf segments (omega arith) t (
          again (buf ++ t.bytes) t.left
            (omega (arith, ap length t.front, sizes, length-append buf t.bytes))
            (omega (arith, ap length t.front, sizes, t.some_bytes)))

-- Where the stream has `n` bytes or more, `tcp_recv_n` puts exactly its first `n` bytes into the
-- buffer and leaves the rest of the stream, in whatever segments it arrives.
pub tcp_recv_n-exact :
    (n : ℕ) (want rest : List ℕ) (segments : List (List ℕ))
    → stream segments ≡ want ++ rest
    → length want ≡ n
    → (left : List (List ℕ)) × (tcp_recv_n n segments ≡ done want left) × (stream left ≡ rest)
unfolding tcp_recv_n
tcp_recv_n-exact n want rest segments e size =
    recv_loop-Completes (suc n) n [] want rest segments e (omega arith) (omega arith)

-- Where the stream ends before `n` bytes, `tcp_recv_n` fails; it never runs on.
pub tcp_recv_n-short :
    (n : ℕ) (segments : List (List ℕ))
    → length (stream segments) < n
    → (left : List (List ℕ)) × (tcp_recv_n n segments ≡ failed (stream segments) left)
unfolding tcp_recv_n
tcp_recv_n-short n segments short =
    recv_loop-RunsShort (suc n) n [] segments (omega arith) (omega arith)

pub size_of_int_small : (n : ℕ) → n < 2 ^ 31 → size_of_int n ≡ n
size_of_int_small n h = rw (lt→ltb _ _ h)

dic_conn_recv_closed :
    (conn : Conn) (m : ℕ) (null_terminate : Bool)
    → conn.sockfd ≡ none
    → 0 < m
    → (dic_conn_recv conn m null_terminate).res ≡ 1
unfolding dic_conn_recv
dic_conn_recv_closed conn m null_terminate shut pos =
    let (left, got) = tcp_recv_n-short (size_of_int m) [] (ground arith) in rw (shut, got)

module _ (conn : Conn) (fd n : ℕ) (open_ : conn.sockfd ≡ some fd) (fits : n < 2 ^ 31) where
  -- On an open connection with `n` bytes or more to come, `dic_conn_recv` returns 0 with exactly the
  -- first `n` bytes in the buffer, followed by a NUL if one is asked for, and leaves the rest of the
  -- stream; the connection is otherwise unchanged. The condition: `n` is below
  -- 2^31.
  pub dic_conn_recv-exact :
      (want rest : List ℕ) (null_terminate : Bool)
      → stream conn.incoming ≡ want ++ rest
      → length want ≡ n
      → (left : List (List ℕ)) × (dic_conn_recv conn n null_terminate ≡ record {
        res = 0;
        buffer = if null_terminate then want ++ 0 ∷ [] else want;
        conn = record conn { incoming = left };
      })
        × (stream left ≡ rest)
  unfolding dic_conn_recv
  dic_conn_recv-exact want rest null_terminate e size =
      let (left, got, remains) = tcp_recv_n-exact n want rest conn.incoming e size in
      (left, rw (open_, size_of_int_small n fits, got), remains)

  -- What is left where the stream ends before `n` bytes.
  pub dic_conn_recv_ended :
      (null_terminate : Bool)
      → length (stream conn.incoming) < n
      → (left : List (List ℕ)) × (dic_conn_recv conn n null_terminate ≡ record {
        res = 1;
        buffer = stream conn.incoming;
        conn = record conn { sockfd = none; incoming = left };
      })
  unfolding dic_conn_recv
  dic_conn_recv_ended null_terminate short =
      let (left, got) = tcp_recv_n-short n conn.incoming short in
      (left, rw (open_, size_of_int_small n fits, got))

  -- On an open connection whose stream ends before `n` bytes, `dic_conn_recv` returns 1 and leaves the
  -- connection with no descriptor, so that a later receive of at least one byte, in the same mode,
  -- returns 1 too.
  -- The condition: `n` is below 2^31.
  pub dic_conn_recv-short :
      (null_terminate : Bool)
      → length (stream conn.incoming) < n
      → ((dic_conn_recv conn n null_terminate).res ≡ 1)
        × ((dic_conn_recv conn n null_terminate).conn.sockfd ≡ none)
        × ((m : ℕ)
            → 0 < m
            → (dic_conn_recv (dic_conn_recv conn n null_terminate).conn m null_terminate).res ≡ 1)
  dic_conn_recv-short null_terminate short =
      let (left, is) = dic_conn_recv_ended null_terminate short in
      let shut = ap (λ (r : RecvResult). r.conn.sockfd) is in
      (
        ap (λ (r : RecvResult). r.res) is,
        shut,
        λ m pos. dic_conn_recv_closed _ m null_terminate shut pos,
      )

-- A receive fails, or it returns 0 with all the bytes that it was asked for.
pub dic_conn_recv-cases :
    (conn : Conn) (n : ℕ)
    → 0 < n
    → n < 2 ^ 31
    → ((dic_conn_recv conn n false).res ≡ 1)
      ⊎ (((dic_conn_recv conn n false).res ≡ 0) × (length (dic_conn_recv conn n false).buffer ≡ n))
dic_conn_recv-cases conn n pos fits = elim (Option-cases conn.sockfd) [
  | inl shut ↦ inl (dic_conn_recv_closed conn n false shut pos)
  | inr (fd, open_) ↦ elim (Bool-cases (ltb (length (stream conn.incoming)) n)) [
    | inl short ↦ inl (dic_conn_recv-short conn fd n open_ fits false (ltb→lt _ _ short)).0
    | inr enough ↦
        let bytes = stream conn.incoming in
        let (left, got, _) =
          dic_conn_recv-exact conn fd n open_ fits (take n bytes) (drop n bytes) false
            (sym (take-append-drop n bytes)) (ground (arith, length-take n bytes, enough)) in
        inr (rw got, rw got (ground (arith, length-take n bytes, enough)))
  ]
]
