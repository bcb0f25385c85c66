-- ===== src/MainServer.antt =====
-- main-server/src/main.c beyond its list: the two handlers, and one turn of the loop of a connection's
-- thread. What `malloc` answers, and what a structure on the stack holds before it is written, are
-- arguments. A turn's work on the list is inside one MUTEX_BLOCK, so a turn is one step of the server.
pub mod Entries
pub mod Turns
pub mod Directory
pub mod Found
pub mod Threads
pub mod Safe
pub mod Consistent
mod Runs
use dicon.Base.{
  ℕ, ◌+◌, ◌*◌, ◌%◌, ◌^◌, Bool, true, false, Option, none, some, List, [], ◌∷◌, ◌++◌, leb, ◌==◌,
  if◌then◌else◌, length, drop,
}
use dicon.Wire.{Bytes, le_bytes, get_field}
use dicon.Socket.{Conn, RecvResult, dic_conn_recv, dic_conn_send}
use dicon.Protocol.Heads.{ReqHead, decode_req_head, encode_resp_head}
use dicon.Registry.{
  NodeInfo, Ptr, null, ListNode, Registry, Run, ok, fault, Cmd, and_then, ◌>>=◌, ◌>>◌, pure,
  append_info, remove_info, get_infos,
}
use dicon.MainServer.Entries.{encode_get_info}

-- `enum DIC_MAIN_OPERATION`
abbrev pub dic_announce_info : ℕ
dic_announce_info = 0

abbrev pub dic_get_info : ℕ
dic_get_info = 1

-- What a turn meets: the rounds that its loops over the list may take, the block that `malloc` gives
-- and what it holds, and the four bytes on the stack where `body` will stand.
pub record Chance : Type 0 where
  pub rounds : ℕ
  pub fresh : Ptr
  pub junk : ListNode
  pub stale : Bytes

-- A thread's variables: `client_conn`, `conn_info` and `is_compute_node`.
pub record Thread : Type 0 where
  pub conn : Conn
  pub conn_info : Ptr
  pub is_compute_node : Bool

-- The result of a receive is not looked at: what does not arrive is what stood there before, and what
-- goes beyond the four bytes of `body` is a fault.
unfoldable pub announced_count : Bytes → Bytes → Option ℕ
announced_count stale bytes =
    if leb (length bytes) 4
    then elim (get_field 4 (bytes ++ drop (length bytes) stale)) [
      | none ↦ none
      | some (count, rest) ↦ some count
    ]
    else none

unfoldable pub handle_push_info : Chance → Conn → ReqHead → Cmd (Ptr × Conn)
handle_push_info chance conn head =
    let got = dic_conn_recv conn head.body_size false in
    elim (announced_count chance.stale got.buffer) [
      | none ↦ λ r. fault
      | some core_count ↦ do
        let info : NodeInfo = record { address = got.conn.ip; core_count = core_count }
        let head_sent = dic_conn_send got.conn (encode_resp_head (record { body_size = 4 })) 4
        let body_sent = dic_conn_send head_sent (le_bytes 4 0) 4
        p ← append_info chance.rounds chance.fresh chance.junk info
        pure (p, body_sent)
    ]

unfoldable pub handle_get_info : Chance → Conn → Cmd Conn
handle_get_info chance conn = do
  (len, infos) ← get_infos chance.rounds
  let body_size = (4 + 24 * len) % 2 ^ 32
  let head_sent = dic_conn_send conn (encode_resp_head (record { body_size = body_size })) 4
  pure (dic_conn_send head_sent (encode_get_info len infos) body_size)

unfoldable pub serve : Chance → Thread → ReqHead → Cmd Thread
unfolding handle_push_info handle_get_info
serve chance t head =
    if head.operation == dic_announce_info
    then (do
      (p, conn) ← handle_push_info chance t.conn head
      pure (record { conn = conn; conn_info = p; is_compute_node = true }))
    else (if head.operation == dic_get_info
        then (do conn ← handle_get_info chance t.conn; pure (record t { conn = conn }))
        else pure t)

-- One turn of the loop of `connection_handler_thread`; `none` once the thread has left the loop and
-- taken its node off the list.
unfoldable pub connection_turn : Chance → Thread → Cmd (Option Thread)
unfolding serve
connection_turn chance t =
    let got = dic_conn_recv t.conn 8 false in
    if got.res == 1
    then (if t.is_compute_node then (remove_info t.conn_info >> pure none) else pure none)
    else elim (decode_req_head got.buffer) [
      | none ↦ λ r. fault
      | some head ↦ do t' ← serve chance (record t { conn = got.conn }) head; pure (some t')
    ]
