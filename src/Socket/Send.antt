-- ===== src/Socket/Send.antt =====
-- `dic_conn_send` of a whole message.
use dicon.Base.{ℕ, ◌<◌, ◌^◌, ◌≡◌, false, some, ◌++◌, arith, length, take_all, ◌==◌, List}
use dicon.Socket.{Conn, dic_conn_send, send_str}

-- On an open connection the bytes of a message that is shorter than 2^31 follow what was sent.
pub dic_conn_send_whole :
    (conn : Conn) (fd : ℕ) (msg : List ℕ)
    → conn.sockfd ≡ some fd
    → length msg < 2 ^ 31
    → dic_conn_send conn msg (length msg) ≡ record conn { sent = conn.sent ++ msg }
unfolding dic_conn_send
dic_conn_send_whole conn fd msg open_ fits =
    let counted : (length msg == send_str) ≡ false = ground arith in
    rw (counted, take_all (length msg) msg (omega arith), open_)
