-- ===== src/Client/MainCalls.antt =====
-- diconlib/src/client_main_communication.c: asking the main server for its nodes.
use dicon.Base.{ℕ, Option, some, none, List, [], ◌∷◌, ◌++◌, false, leb, length}
use dicon.Wire.{Bytes, ◌>>=◌, ◌>>◌, guard}
use dicon.Socket.{IpAddr, Conn, Attempt, dic_conn_recv, dic_conn_send, dic_conn_new}
use dicon.Protocol.Heads.{ReqHead, encode_req_head, decode_resp_head}
use dicon.Registry.{NodeInfo}
use dicon.MainServer.Entries.{decode_get_info}
use dicon.Client.Transport.{Peer, Call}

-- The head of the request: DIC_GET_INFO, over nothing.
abbrev pub get_info_head : ReqHead
get_info_head = record { operation = 1; version = 0; body_size = 0 }

-- The result is `count` and the `nodes` that it counts, read from the buffer that is returned.
unfoldable pub dic_get_nodes_info : {World : Type 0} → Peer World → Call World (ℕ × List NodeInfo)
dic_get_nodes_info peer s = do
  let sent = dic_conn_send s.conn (encode_req_head get_info_head) 8
  (segments, world) ← peer (encode_req_head get_info_head) s.world
  let head_got = dic_conn_recv (record sent { incoming = sent.incoming ++ segments }) 4 false
  head ← decode_resp_head head_got.buffer
  let body_got = dic_conn_recv head_got.conn head.body_size false
  guard (leb (length body_got.buffer) head.body_size)
  nodes ← decode_get_info body_got.buffer
  some (nodes, record { conn = body_got.conn; world = world })

abbrev pub dic_node_port : ℕ
dic_node_port = 4224

abbrev pub dic_main_server_port : ℕ
dic_main_server_port = 4225

-- A connection, with what the kernel answers to the attempt and what will come on the new socket.
unfoldable pub dic_node_connect : Attempt → List Bytes → IpAddr → List ℕ → Conn × List ℕ
dic_node_connect try incoming ip open_fds = dic_conn_new try incoming ip dic_node_port open_fds

unfoldable pub dic_main_connect : Attempt → List Bytes → IpAddr → List ℕ → Conn × List ℕ
dic_main_connect try incoming ip open_fds =
    dic_conn_new try incoming ip dic_main_server_port open_fds

-- One connection for each node, in their order; the kernel's answers are in a list as long.
unfoldable pub dic_nodes_connect_all :
    List NodeInfo → List (Attempt × List Bytes) → List ℕ → Option (List Conn × List ℕ)
unfolding dic_node_connect
dic_nodes_connect_all [] kernel open_fds = some ([], open_fds)
dic_nodes_connect_all (i ∷ is) [] open_fds = none
dic_nodes_connect_all (i ∷ is) ((try, incoming) ∷ kernel) open_fds = do
  let (conn, fds) = dic_node_connect try incoming i.address open_fds
  (conns, fds') ← dic_nodes_connect_all is kernel fds
  some (conn ∷ conns, fds')
