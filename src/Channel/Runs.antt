-- ===== src/Channel/Runs.antt =====
-- Two threads call over one connection.
use dicon.Base.{◌≡◌, refl, some, List, [], ◌∷◌}
use dicon.Channel.{
  Thread, outside, may_send, has_sent, has_both, may_receive, has_received, Channel, goes, Step,
  lock_send, send, lock_recv, unlock_send, Reachable, start, step,
}
use dicon.Channel.Calls.{received_own, calls_go_on}

-- Thread 1 is to receive; thread 2 has sent its request behind it.
abbrev two_calls : Channel
two_calls = record {
  send_mut = some 2;
  recv_mut = some 1;
  due = 1 ∷ 2 ∷ [];
  phase =
      goes
        (goes
          (goes (goes (goes (goes (λ t. outside) 1 may_send) 1 has_sent) 1 has_both) 1 may_receive)
          2 may_send)
        2 has_sent;
}

two_calls-Reachable : Reachable two_calls
two_calls-Reachable =
    step
      (step
        (step
          (step (step (step start (lock_send 1 refl refl)) (send 1 refl)) (lock_recv 1 refl refl))
          (unlock_send 1 refl))
        (lock_send 2 refl refl))
      (send 2 refl)

received_own_example :
    ((t u : Thread) → two_calls.phase t ≡ has_received u → u ≡ t)
    × ((t : Thread)
        → two_calls.phase t ≡ may_receive
        → (rest : List Thread) × (1 ∷ 2 ∷ [] ≡ t ∷ rest))
received_own_example = received_own two_calls two_calls-Reachable

calls_go_on_example : (d : Channel) × Step two_calls d
calls_go_on_example = calls_go_on two_calls 2 two_calls-Reachable (λ e. cc)
