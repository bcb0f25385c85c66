-- ===== src/Socket/Open.antt =====
-- A stream that the peer has not ended: it stays so under receiving.
use dicon.Base.{
  ◌∙◌, ◌^◌, Option, ℕ, zero, suc, ◌-◌, ◌<◌, ◌≡◌, ◌≢◌, refl, ap, sym, Bool, false, inl, inr, none,
  some, List, [], ◌∷◌, ◌++◌, arith, ltb, leb, length, drop, All, append_assoc, Bool-cases,
  Option-cases,
}
use mathlib.Core.Path.{subst}
use dicon.Socket.{
  RecvResult, after_recv, Conn, Received, done, failed, out_of_fuel, recv, recv_loop, tcp_recv_n,
  dic_conn_recv, fd_segments, size_of_int,
}
use dicon.Socket.Recv.{stream, dic_conn_recv-exact}

abbrev pub IsOpen : List (List ℕ) → Type 0
IsOpen = All (λ s. s ≢ [])

abbrev left_of : Received → List (List ℕ)
left_of (done bytes left) = left
left_of (failed bytes left) = left
left_of out_of_fuel = []

drop-ne-nil : (k : ℕ) (bs : List ℕ) → k < length bs → drop k bs ≢ []
drop-ne-nil k [] h e = absurd (omega arith)
drop-ne-nil zero (b ∷ bs) h e = cc
drop-ne-nil (suc k) (b ∷ bs) h e = drop-ne-nil k bs (omega arith) e

recv-IsOpen :
    (k : ℕ) (segments : List (List ℕ)) {bytes : List ℕ} {left : List (List ℕ)}
    → recv k segments ≡ some (bytes, left)
    → IsOpen segments
    → IsOpen left
unfolding recv
recv-IsOpen k [] e o = cc
recv-IsOpen k ([] ∷ segments) e o = cc
recv-IsOpen k ((b ∷ bs) ∷ segments) {left} e o = elim (Bool-cases (leb (length (b ∷ bs)) k)) [
  | inl whole ↦ let is : segments ≡ left = ground arith in rw (← is) o.1
  | inr part ↦
      let is : drop k (b ∷ bs) ∷ segments ≡ left = ground arith in
      rw (← is) (drop-ne-nil k (b ∷ bs) (ground arith), o.1)
]

recv_loop-IsOpen :
    (fuel n : ℕ) (buf : List ℕ) (segments : List (List ℕ))
    → IsOpen segments
    → IsOpen (left_of (recv_loop fuel n buf segments))
unfolding recv_loop
recv_loop-IsOpen zero n buf segments o = tt
recv_loop-IsOpen (suc fuel) n buf segments o = elim (Bool-cases (ltb (length buf) n)) [
  | inr full ↦ rw (recv_loop, full) o
  | inl more ↦ elim (Option-cases (recv (n - length buf) segments)) [
    | inl ended ↦ rw (recv_loop, more, ended) o
    | inr ((bytes, left), got) ↦
        rw (recv_loop, more, got)
          (recv_loop-IsOpen fuel n (buf ++ bytes) left (recv-IsOpen _ segments got o))
  ]
]

left_of-after_recv :
    (conn : Conn) (null_terminate : Bool) (r : Received)
    → IsOpen conn.incoming
    → IsOpen (left_of r)
    → IsOpen (after_recv conn null_terminate r).conn.incoming
unfolding after_recv
left_of-after_recv conn nt (done bytes left) o l = l
left_of-after_recv conn nt (failed bytes left) o l = l
left_of-after_recv conn nt out_of_fuel o l = o

fd_segments-IsOpen :
    (fd : Option ℕ) (segments : List (List ℕ)) → IsOpen segments → IsOpen (fd_segments fd segments)
unfolding fd_segments
fd_segments-IsOpen none segments o = tt
fd_segments-IsOpen (some fd) segments o = o

dic_conn_recv-IsOpen :
    (conn : Conn) (n : ℕ) (null_terminate : Bool)
    → IsOpen conn.incoming
    → IsOpen (dic_conn_recv conn n null_terminate).conn.incoming
unfolding dic_conn_recv tcp_recv_n
dic_conn_recv-IsOpen conn n nt o =
    let size = size_of_int n in
    let segments = fd_segments conn.sockfd conn.incoming in
    left_of-after_recv conn nt (recv_loop (suc size) size [] segments) o (
      recv_loop-IsOpen (suc size) size [] segments (fd_segments-IsOpen conn.sockfd conn.incoming o))

-- `dic_conn_recv` where the bytes are there: `Socket.Recv` for no NUL, and an open stream stays open.
pub dic_conn_recv_whole :
    (conn : Conn) (fd n : ℕ) (want rest : List ℕ)
    → conn.sockfd ≡ some fd
    → n < 2 ^ 31
    → stream conn.incoming ≡ want ++ rest
    → length want ≡ n
    → (left : List (List ℕ)) × (dic_conn_recv conn n false
        ≡ record { res = 0; buffer = want; conn = record conn { incoming = left } })
      × (stream left ≡ rest)
      × (IsOpen conn.incoming → IsOpen left)
dic_conn_recv_whole conn fd n want rest open_ fits e size =
    let (left, got, remains) = dic_conn_recv-exact conn fd n open_ fits want rest false e size in
    (
      left,
      got,
      remains,
      λ o.
          subst (λ (r : RecvResult). IsOpen r.conn.incoming) got
            (dic_conn_recv-IsOpen conn n false o),
    )

pub stream-append : (xs ys : List (List ℕ)) → IsOpen xs → stream (xs ++ ys) ≡ stream xs ++ stream ys
stream-append [] ys o = refl
stream-append ([] ∷ xs) ys o = absurd (o.0 refl)
stream-append ((b ∷ bs) ∷ xs) ys o =
    ap (λ t. b ∷ (bs ++ t)) (stream-append xs ys o.1)
    ∙ ap (λ t. b ∷ t) (sym (append_assoc bs (stream xs) (stream ys)))

-- Where nothing is to come on an open stream, no segment is left.
pub nil_of_stream :
    (segments : List (List ℕ)) → IsOpen segments → stream segments ≡ [] → segments ≡ []
nil_of_stream [] o e = refl
nil_of_stream ([] ∷ segments) o e = absurd (o.0 refl)
nil_of_stream ((b ∷ bs) ∷ segments) o e = cc
