-- ===== src/Demo/HelloWorld.antt =====
-- demo/hello_world/main.c: a function on a node returns a string.
pub mod Printed
use dicon.Base.{
  ℕ, ◌+◌, ◌<◌, ◌≤◌, ◌^◌, ◌≡◌, refl, Option, some, List, [], ◌∷◌, ◌++◌, arith, length, drop, false,
  true, ◌==◌, if◌then◌else◌,
}
use dicon.Wire.{Bytes, ◌>>=◌, ◌>>◌, guard}
use dicon.Memory.{Memory, store_bytes, malloc}
use dicon.Platform.{Platform, Process}
use dicon.Client.Transport.{Peer, Call}
use dicon.Client.MemoryCalls.{dic_memcpy, dic_rfree}
use dicon.Client.ObjectCalls.{dic_so_load_call}
use dicon.Client.ThreadCalls.{dic_func_load_call, dic_rthread_run, dic_rthread_join}

-- "hello dicon!", in an array of MSG_SIZE bytes.
abbrev pub hello_dicon_text : Bytes
hello_dicon_text =
    b'h' ∷ b'e' ∷ b'l' ∷ b'l' ∷ b'o' ∷ b' ' ∷ b'd' ∷ b'i' ∷ b'c' ∷ b'o' ∷ b'n' ∷ b'!' ∷ []

-- What the thread does: the block is the node's, and where there is none `sprintf` writes through NULL.
unfoldable pub hello_dicon : (junk : ℕ → ℕ) (place : ℕ) → Memory → Option (ℕ × Memory)
hello_dicon junk place m = do
  let (allocated_msg, m') = malloc junk place 32 m
  guard (if place == 0 then false else true)
  written ← store_bytes (hello_dicon_text ++ 0 ∷ []) allocated_msg m'
  some (allocated_msg, written)

abbrev pub hello_name : Bytes
hello_name = b'h' ∷ b'e' ∷ b'l' ∷ b'l' ∷ b'o' ∷ b'_' ∷ b'w' ∷ b'o' ∷ b'r' ∷ b'l' ∷ b'd' ∷ []

abbrev pub hello_symbol : Bytes
hello_symbol = b'h' ∷ b'e' ∷ b'l' ∷ b'l' ∷ b'o' ∷ b'_' ∷ b'd' ∷ b'i' ∷ b'c' ∷ b'o' ∷ b'n' ∷ []

-- `main`, on a connection that is established; `ret_local` is what the client's block holds at first. The
-- argument of the thread is NULL. The result is what that block holds when it is printed.
unfoldable pub hello_main :
    (slack : ℕ → Bytes) {World : Type 0} (peer : Peer World) (ret_local : Bytes) → Call World Bytes
hello_main slack peer ret_local s = do
  (so_handle, s1) ← dic_so_load_call slack peer hello_name s
  (remote_hello_dicon, s2) ← dic_func_load_call slack peer so_handle hello_symbol s1
  (rt_id, s3) ← dic_rthread_run slack peer remote_hello_dicon 0 s2
  (ret, s4) ← dic_rthread_join slack peer rt_id s3
  (copied, s5) ← dic_memcpy slack peer ret_local ret 32 1 s4
  (freed, s6) ← dic_rfree slack peer ret s5
  some (copied.1, s6)
