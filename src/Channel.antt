-- ===== src/Channel.antt =====
-- The locking of `dic_atomic_send_recv` in diconlib/src/client_node_communication.c: several threads of
-- a client call a node over one connection. The node answers requests in the order in which they are
-- sent, so an answer is named by the thread that sent its request.
pub mod Own
pub mod Calls
mod Runs
use dicon.Base.{ℕ, ◌≡◌, Option, none, some, List, [], ◌∷◌, ◌++◌, ◌==◌, if◌then◌else◌}

abbrev pub Thread : Type 0
Thread = ℕ

-- Where a thread stands in the function, between its calls.
pub data Phase : Type 0 where
  outside : Phase
  -- `send_mut` is locked
  may_send : Phase
  -- the request is sent
  has_sent : Phase
  -- `recv_mut` is locked too
  has_both : Phase
  -- `send_mut` is unlocked
  may_receive : Phase
  -- the answer of a thread is received
  has_received : Thread → Phase

-- The two locks with their holders, the answers that are due on the connection in their order, and
-- where each thread stands.
pub record Channel : Type 0 where
  pub send_mut : Option Thread
  pub recv_mut : Option Thread
  pub due : List Thread
  pub phase : Thread → Phase

abbrev pub goes : (Thread → Phase) → Thread → Phase → Thread → Phase
goes phase t new u = if u == t then new else phase u

-- One call of a thread. A lock is taken when it is free; a receive takes the first answer that is due.
pub data Step (c : Channel) : Channel → Type 0 where
  lock_send :
      (t : Thread)
      → c.phase t ≡ outside
      → c.send_mut ≡ none
      → Step c (record c { send_mut = some t; phase = goes c.phase t may_send })
  send :
      (t : Thread)
      → c.phase t ≡ may_send
      → Step c (record c { due = c.due ++ t ∷ []; phase = goes c.phase t has_sent })
  lock_recv :
      (t : Thread)
      → c.phase t ≡ has_sent
      → c.recv_mut ≡ none
      → Step c (record c { recv_mut = some t; phase = goes c.phase t has_both })
  unlock_send :
      (t : Thread)
      → c.phase t ≡ has_both
      → Step c (record c { send_mut = none; phase = goes c.phase t may_receive })
  receive :
      (t first : Thread) (rest : List Thread)
      → c.phase t ≡ may_receive
      → c.due ≡ first ∷ rest
      → Step c (record c { due = rest; phase = goes c.phase t (has_received first) })
  unlock_recv :
      (t first : Thread)
      → c.phase t ≡ has_received first
      → Step c (record c { recv_mut = none; phase = goes c.phase t outside })

-- The connection before any call.
abbrev pub idle : Channel
idle = record { send_mut = none; recv_mut = none; due = []; phase = λ t. outside }

pub data Reachable : Channel → Type 0 where
  start : Reachable idle
  step : {c d : Channel} → Reachable c → Step c d → Reachable d
