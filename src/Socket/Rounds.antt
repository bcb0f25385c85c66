-- ===== src/Socket/Rounds.antt =====
-- One round of the loop of `tcp_recv_n`: what a call of `recv` takes, and what the loop then does.
use dicon.Base.{
  ℕ, zero, suc, ◌-◌, ◌≤◌, ◌<◌, ◌≡◌, refl, ◌∙◌, ap, sym, ◌⊎◌, inl, inr, none, some, List, [], ◌∷◌,
  ◌++◌, arith, leb, length, take, drop, append_assoc, take-append-drop, take_all, Bool-cases,
}
use dicon.Socket.{recv, done, failed, recv_loop}

-- The bytes that will be received: those before the first empty segment, at which `recv` gives 0.
abbrev pub stream : List (List ℕ) → List ℕ
stream [] = []
stream ([] ∷ segments) = []
stream ((b ∷ bs) ∷ segments) = (b ∷ bs) ++ stream segments

pub List-cases : (xs : List ℕ) → (xs ≡ []) ⊎ (0 < length xs)
List-cases [] = inl refl
List-cases (x ∷ xs) = inr (omega arith)

-- One `recv` takes bytes off the front of the stream, between 1 and `k`.
pub record Taken (k : ℕ) (segments : List (List ℕ)) : Type 0 where
  pub bytes : List ℕ
  pub left : List (List ℕ)
  pub got : recv k segments ≡ some (bytes, left)
  pub some_bytes : 0 < length bytes
  pub at_most : length bytes ≤ k
  pub front : stream segments ≡ bytes ++ stream left

length-take-le : (k : ℕ) (bs : List ℕ) → length (take k bs) ≤ k
length-take-le zero bs = omega arith
length-take-le (suc k) [] = omega arith
length-take-le (suc k) (b ∷ bs) = omega (arith, length-take-le k bs)

stream-drop :
    (k : ℕ) (bs : List ℕ) (segments : List (List ℕ))
    → k < length bs
    → stream (drop k bs ∷ segments) ≡ drop k bs ++ stream segments
stream-drop k [] segments h = absurd (omega arith)
stream-drop zero (b ∷ bs) segments h = refl
stream-drop (suc k) (b ∷ bs) segments h = stream-drop k bs segments (omega arith)

cut_front :
    (k b : ℕ) (bs : List ℕ) (segments : List (List ℕ))
    → k < length bs
    → (b ∷ bs) ++ stream segments ≡ (b ∷ take k bs) ++ stream (drop k bs ∷ segments)
cut_front k b bs segments h =
    ap (λ bytes. b ∷ bytes)
      (ap (λ bytes. bytes ++ stream segments) (sym (take-append-drop k bs))
        ∙ append_assoc (take k bs) (drop k bs) (stream segments)
        ∙ ap (λ bytes. take k bs ++ bytes) (sym (stream-drop k bs segments h)))

pub recv-Taken :
    (k : ℕ) (segments : List (List ℕ)) → 0 < k → 0 < length (stream segments) → Taken k segments
recv-Taken k [] pos more = absurd (omega arith)
recv-Taken k ([] ∷ segments) pos more = absurd (omega arith)
recv-Taken zero ((b ∷ bs) ∷ segments) pos more = absurd (omega arith)
recv-Taken (suc k) ((b ∷ bs) ∷ segments) pos more =
    elim (Bool-cases (leb (length (b ∷ bs)) (suc k))) [
      | inl whole ↦ record {
        bytes = take (suc k) (b ∷ bs);
        left = segments;
        got = unfold recv in rw whole;
        some_bytes = omega arith;
        at_most = omega (arith, length-take-le k bs);
        front = rw (take_all k bs (ground arith));
      }
      | inr part ↦ record {
        bytes = take (suc k) (b ∷ bs);
        left = drop (suc k) (b ∷ bs) ∷ segments;
        got = unfold recv in rw part;
        some_bytes = omega arith;
        at_most = omega (arith, length-take-le k bs);
        front = cut_front k b bs segments (ground arith);
      }
    ]

-- A front of the list, shorter than another front of it.
pub record Longer (front rest want s : List ℕ) : Type 0 where
  pub more : List ℕ
  pub want_is : want ≡ front ++ more
  pub rest_is : s ≡ more ++ rest

pub longer :
    (front s want rest : List ℕ)
    → front ++ s ≡ want ++ rest
    → length front ≤ length want
    → Longer front rest want s
longer [] s want rest e h = record { more = want; want_is = refl; rest_is = e }
longer (x ∷ front) s [] rest e h = absurd (omega arith)
longer (x ∷ front) s (y ∷ want) rest e h =
    let tail = longer front s want rest (cc) (omega arith) in
    record { more = tail.more; want_is = cc (tail.want_is); rest_is = tail.rest_is }

-- The rounds of the loop.
pub recv_loop_full :
    (fuel n : ℕ) (buf : List ℕ) (segments : List (List ℕ))
    → length buf ≡ n
    → recv_loop (suc fuel) n buf segments ≡ done buf segments
unfolding recv_loop
recv_loop_full fuel n buf segments h = ground arith

pub recv_loop_step :
    (fuel n : ℕ) (buf : List ℕ) (segments : List (List ℕ)) {bytes : List ℕ} {left : List (List ℕ)}
    → length buf < n
    → recv (n - length buf) segments ≡ some (bytes, left)
    → recv_loop (suc fuel) n buf segments ≡ recv_loop fuel n (buf ++ bytes) left
unfolding recv_loop
recv_loop_step fuel n buf segments h got = ground arith

pub recv_loop_end :
    (fuel n : ℕ) (buf : List ℕ) (segments : List (List ℕ))
    → length buf < n
    → recv (n - length buf) segments ≡ none
    → recv_loop (suc fuel) n buf segments ≡ failed buf segments
unfolding recv_loop
recv_loop_end fuel n buf segments h got = ground arith
