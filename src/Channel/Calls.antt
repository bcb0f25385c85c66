-- ===== src/Channel/Calls.antt =====
-- What the two locks are for: threads that share a connection get the answers to their own requests,
-- and do not block each other for ever.
use dicon.Base.{◌≡◌, ◌≢◌, refl, true, Option, none, some, List, ◌∷◌, arith}
use dicon.Channel.{
  Thread, Phase, outside, may_send, has_sent, has_both, may_receive, has_received, Channel, Step,
  send, lock_recv, unlock_send, receive, unlock_recv, Reachable,
}
use dicon.Channel.Own.{IsOrderly, holds_recv, due_first, Reachable-IsOrderly}

-- However the calls of several threads over one connection interleave, what a thread has received is
-- the answer to its own request, and a thread that is to receive finds its own answer first.
pub received_own :
    (c : Channel)
    → Reachable c
    → ((t u : Thread) → c.phase t ≡ has_received u → u ≡ t)
      × ((t : Thread) → c.phase t ≡ may_receive → (rest : List Thread) × (c.due ≡ t ∷ rest))
received_own c r = let is = Reachable-IsOrderly c r in (is.own, λ t at. (_, due_first c t is at))

-- A thread that holds `recv_mut` can go on.
receiver_goes_on :
    (c : Channel) (t : Thread)
    → IsOrderly c
    → (p : Phase) → c.phase t ≡ p
    → holds_recv p ≡ true
    → (d : Channel) × Step c d
receiver_goes_on c t is outside at h = absurd (ground (arith, h))
receiver_goes_on c t is may_send at h = absurd (ground (arith, h))
receiver_goes_on c t is has_sent at h = absurd (ground (arith, h))
receiver_goes_on c t is has_both at h = (_, unlock_send t at)
receiver_goes_on c t is may_receive at h = (_, receive t t _ at (due_first c t is at))
receiver_goes_on c t is (has_received u) at h = (_, unlock_recv t u at)

-- A thread that waits for `recv_mut`, by the lock's holder.
waiting_goes_on :
    (c : Channel) (t : Thread)
    → IsOrderly c
    → c.phase t ≡ has_sent
    → (holder : Option Thread) → c.recv_mut ≡ holder
    → (d : Channel) × Step c d
waiting_goes_on c t is at none free = (_, lock_recv t at free)
waiting_goes_on c t is at (some u) held =
    receiver_goes_on c u is (c.phase u) refl (is.receiver_holds u held)

thread_goes_on :
    (c : Channel) (t : Thread)
    → IsOrderly c
    → (p : Phase) → c.phase t ≡ p
    → p ≢ outside
    → (d : Channel) × Step c d
thread_goes_on c t is outside at busy = absurd (busy refl)
thread_goes_on c t is may_send at busy = (_, send t at)
thread_goes_on c t is has_sent at busy = waiting_goes_on c t is at c.recv_mut refl
thread_goes_on c t is has_both at busy = receiver_goes_on c t is has_both at refl
thread_goes_on c t is may_receive at busy = receiver_goes_on c t is may_receive at refl
thread_goes_on c t is (has_received u) at busy = receiver_goes_on c t is (has_received u) at refl

-- The calls do not block each other for ever: in every state that threads can reach, while some thread
-- is in a call, some thread can take a step.
pub calls_go_on :
    (c : Channel) (t : Thread) → Reachable c → c.phase t ≢ outside → (d : Channel) × Step c d
calls_go_on c t r busy = thread_goes_on c t (Reachable-IsOrderly c r) (c.phase t) refl busy
