-- ===== src/Channel/Own.antt =====
-- Who holds the locks of a connection, and whose answers are due: an invariant of every step.
use dicon.Base.{
  ◌≡◌, inl, inr, refl, sym, ◌∙◌, Bool, true, false, Bool-cases, Option, none, some, List, [], ◌∷◌,
  ◌++◌, arith, append-nil, ◌==◌,
}
use dicon.Channel.{
  Thread, Phase, outside, may_send, has_sent, has_both, may_receive, has_received, Channel, goes,
  Step, lock_send, send, lock_recv, unlock_send, receive, unlock_recv, idle, Reachable, start, step,
}

abbrev pub holds_send : Phase → Bool
holds_send outside = false
holds_send may_send = true
holds_send has_sent = true
holds_send has_both = true
holds_send may_receive = false
holds_send (has_received u) = false

abbrev pub holds_recv : Phase → Bool
holds_recv outside = false
holds_recv may_send = false
holds_recv has_sent = false
holds_recv has_both = true
holds_recv may_receive = true
holds_recv (has_received u) = true

-- The answer that the holder of `recv_mut`, and the one of `send_mut`, is still to receive.
abbrev pub owed_receiver : Thread → Phase → List Thread
owed_receiver t has_both = t ∷ []
owed_receiver t may_receive = t ∷ []
owed_receiver t outside = []
owed_receiver t may_send = []
owed_receiver t has_sent = []
owed_receiver t (has_received u) = []

abbrev pub owed_sender : Thread → Phase → List Thread
owed_sender t has_sent = t ∷ []
owed_sender t outside = []
owed_sender t may_send = []
owed_sender t has_both = []
owed_sender t may_receive = []
owed_sender t (has_received u) = []

abbrev pub owed : (Thread → Phase → List Thread) → (Thread → Phase) → Option Thread → List Thread
owed f phase none = []
owed f phase (some t) = f t (phase t)

pub record IsOrderly (c : Channel) : Type 0 where
  pub sender : (t : Thread) → holds_send (c.phase t) ≡ true → c.send_mut ≡ some t
  pub sender_holds : (t : Thread) → c.send_mut ≡ some t → holds_send (c.phase t) ≡ true
  pub receiver : (t : Thread) → holds_recv (c.phase t) ≡ true → c.recv_mut ≡ some t
  pub receiver_holds : (t : Thread) → c.recv_mut ≡ some t → holds_recv (c.phase t) ≡ true
  pub order : c.due ≡ owed owed_receiver c.phase c.recv_mut ++ owed owed_sender c.phase c.send_mut
  pub own : (t u : Thread) → c.phase t ≡ has_received u → u ≡ t

idle-IsOrderly : IsOrderly idle
idle-IsOrderly = record {
  sender = λ t h. ground (arith, h);
  sender_holds = λ t h. ground (arith, h);
  receiver = λ t h. ground (arith, h);
  receiver_holds = λ t h. ground (arith, h);
  order = refl;
  own = λ t u h. cc;
}

goes_self : (phase : Thread → Phase) (t : Thread) (new : Phase) → goes phase t new t ≡ new
goes_self phase t new = ground arith

-- A thread that goes on owes the same, where its two phases do.
owed_unmoved :
    (f : Thread → Phase → List Thread) (phase : Thread → Phase) (m : Option Thread) (t : Thread)
    (new : Phase)
    → f t new ≡ f t (phase t)
    → owed f (goes phase t new) m ≡ owed f phase m
owed_unmoved f phase none t new same = refl
owed_unmoved f phase (some u) t new same = elim (Bool-cases (u == t)) [
  | inl here ↦ let is : u ≡ t = ground (arith, here) in rw (is, goes_self phase t new, same)
  | inr other ↦ rw other
]

module _ (c : Channel) (t : Thread) (is : IsOrderly c) where
  same_receiver :
      (new : Phase)
      → owed_receiver t new ≡ owed_receiver t (c.phase t)
      → owed owed_receiver (goes c.phase t new) c.recv_mut ≡ owed owed_receiver c.phase c.recv_mut
  same_receiver = owed_unmoved owed_receiver c.phase c.recv_mut t

  same_sender :
      (new : Phase)
      → owed_sender t new ≡ owed_sender t (c.phase t)
      → owed owed_sender (goes c.phase t new) c.send_mut ≡ owed owed_sender c.phase c.send_mut
  same_sender = owed_unmoved owed_sender c.phase c.send_mut t

  lock_send-IsOrderly :
      c.phase t ≡ outside
      → c.send_mut ≡ none
      → IsOrderly (record c { send_mut = some t; phase = goes c.phase t may_send })
  lock_send-IsOrderly at free = record {
    sender = λ u h. let old = is.sender u in ground (arith, h, old, free);
    sender_holds = λ u h. ground (arith, h);
    receiver = λ u h. let old = is.receiver u in ground (arith, h, old, at);
    receiver_holds = λ u h. let old = is.receiver_holds u h in ground (arith, h, old, at);
    order =
        let before : c.due ≡ owed owed_receiver c.phase c.recv_mut ++ [] = is.order ∙ rw free in
        rw (same_receiver may_send (rw at), goes_self c.phase t may_send, ← before);
    own = λ u v h. let old = is.own u v in ground (arith, h, old, at);
  }

  send-IsOrderly :
      c.phase t ≡ may_send
      → IsOrderly (record c { due = c.due ++ t ∷ []; phase = goes c.phase t has_sent })
  send-IsOrderly at = record {
    sender = λ u h. let old = is.sender u in ground (arith, h, old, at);
    sender_holds = λ u h. let old = is.sender_holds u h in ground (arith, h, old, at);
    receiver = λ u h. let old = is.receiver u in ground (arith, h, old, at);
    receiver_holds = λ u h. let old = is.receiver_holds u h in ground (arith, h, old, at);
    order =
        let mine = is.sender t (rw at) in
        let before : c.due ≡ owed owed_receiver c.phase c.recv_mut =
          is.order ∙ (rw (mine, at) (append-nil (owed owed_receiver c.phase c.recv_mut))) in
        rw (same_receiver has_sent (rw at), mine, goes_self c.phase t has_sent, ← before);
    own = λ u v h. let old = is.own u v in ground (arith, h, old, at);
  }

  lock_recv-IsOrderly :
      c.phase t ≡ has_sent
      → c.recv_mut ≡ none
      → IsOrderly (record c { recv_mut = some t; phase = goes c.phase t has_both })
  lock_recv-IsOrderly at free = record {
    sender = λ u h. let old = is.sender u in ground (arith, h, old, at);
    sender_holds = λ u h. let old = is.sender_holds u h in ground (arith, h, old, at);
    receiver = λ u h. let old = is.receiver u in ground (arith, h, old, free);
    receiver_holds = λ u h. ground (arith, h);
    order =
        let mine = is.sender t (rw at) in
        let before : c.due ≡ t ∷ [] = is.order ∙ rw (free, mine, at) in
        rw (mine, goes_self c.phase t has_both, before);
    own = λ u v h. let old = is.own u v in ground (arith, h, old, at);
  }

  unlock_send-IsOrderly :
      c.phase t ≡ has_both
      → IsOrderly (record c { send_mut = none; phase = goes c.phase t may_receive })
  unlock_send-IsOrderly at = record {
    sender = λ u h.
        let old = is.sender u in let mine = is.sender t (rw at) in ground (arith, h, old, mine, at);
    sender_holds = λ u h. ground (arith, h);
    receiver = λ u h. let old = is.receiver u in ground (arith, h, old, at);
    receiver_holds = λ u h. let old = is.receiver_holds u h in ground (arith, h, old, at);
    order =
        let got = is.receiver t (rw at) in
        let before : c.due ≡ t ∷ [] = is.order ∙ rw (got, is.sender t (rw at), at) in
        rw (got, goes_self c.phase t may_receive, before);
    own = λ u v h. let old = is.own u v in ground (arith, h, old, at);
  }

  -- The first answer that is due is the one of the thread that is to receive.
  pub due_first : c.phase t ≡ may_receive → c.due ≡ t ∷ owed owed_sender c.phase c.send_mut
  due_first at = is.order ∙ rw (is.receiver t (rw at), at)

  first-own :
      (first : Thread) (rest : List Thread)
      → c.phase t ≡ may_receive
      → c.due ≡ first ∷ rest
      → (first ≡ t) × (rest ≡ owed owed_sender c.phase c.send_mut)
  first-own first rest at front =
      let both : first ∷ rest ≡ t ∷ owed owed_sender c.phase c.send_mut =
        sym front ∙ due_first at in
      (cc, cc)

  receive-IsOrderly :
      (first : Thread) (rest : List Thread)
      → c.phase t ≡ may_receive
      → c.due ≡ first ∷ rest
      → IsOrderly (record c { due = rest; phase = goes c.phase t (has_received first) })
  receive-IsOrderly first rest at front = record {
    sender = λ u h. let old = is.sender u in ground (arith, h, old, at);
    sender_holds = λ u h. let old = is.sender_holds u h in ground (arith, h, old, at);
    receiver = λ u h. let old = is.receiver u in ground (arith, h, old, at);
    receiver_holds = λ u h. let old = is.receiver_holds u h in ground (arith, h, old, at);
    order =
        let got = is.receiver t (rw at) in
        rw (got, goes_self c.phase t (has_received first), same_sender (has_received first) (rw at))
          ((first-own first rest at front).1);
    own = λ u v h.
        let old = is.own u v in
        let mine = (first-own first rest at front).0 in ground (arith, h, old, at, mine);
  }

  unlock_recv-IsOrderly :
      (first : Thread)
      → c.phase t ≡ has_received first
      → IsOrderly (record c { recv_mut = none; phase = goes c.phase t outside })
  unlock_recv-IsOrderly first at = record {
    sender = λ u h. let old = is.sender u in ground (arith, h, old, at);
    sender_holds = λ u h. let old = is.sender_holds u h in ground (arith, h, old, at);
    receiver = λ u h.
        let old = is.receiver u in
        let mine = is.receiver t (rw at) in ground (arith, h, old, mine, at);
    receiver_holds = λ u h. ground (arith, h);
    order =
        let got = is.receiver t (rw at) in
        let before : c.due ≡ owed owed_sender c.phase c.send_mut = is.order ∙ rw (got, at) in
        rw (same_sender outside (rw at)) before;
    own = λ u v h. let old = is.own u v in ground (arith, h, old, at);
  }

Step-IsOrderly : (c d : Channel) → IsOrderly c → Step c d → IsOrderly d
Step-IsOrderly c _ is (lock_send t at free) = lock_send-IsOrderly c t is at free
Step-IsOrderly c _ is (send t at) = send-IsOrderly c t is at
Step-IsOrderly c _ is (lock_recv t at free) = lock_recv-IsOrderly c t is at free
Step-IsOrderly c _ is (unlock_send t at) = unlock_send-IsOrderly c t is at
Step-IsOrderly c _ is (receive t first rest at front) = receive-IsOrderly c t is first rest at front
Step-IsOrderly c _ is (unlock_recv t first at) = unlock_recv-IsOrderly c t is first at

-- Every state that the threads reach is orderly.
pub Reachable-IsOrderly : (c : Channel) → Reachable c → IsOrderly c
Reachable-IsOrderly _ start = idle-IsOrderly
Reachable-IsOrderly d (step {c} r s) = Step-IsOrderly c d (Reachable-IsOrderly c r) s
