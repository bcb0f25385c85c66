-- ===== src/Rpc.antt =====
-- A client and a node, wired to each other: the client's peer is the node's loop, one round for each
-- request. TCP may cut what either side sends into any segments.
pub mod Transparent
pub mod Calls
pub mod MemoryOps
pub mod Copies
pub mod Objects
pub mod Threads
pub mod Lifecycle
pub mod Sample
mod Runs
mod RequestRuns
mod ObjectRuns
use dicon.Base.{ℕ, ◌≡◌, Option, none, some, List, [], ◌++◌}
use dicon.Wire.{Bytes, ◌>>=◌}
use dicon.Socket.{Conn}
use dicon.Socket.Recv.{stream}
use dicon.Socket.Open.{IsOpen}
use dicon.Platform.{Platform, Process}
use dicon.Node.{Served, dic_node_recv_send}
use dicon.Client.Transport.{Session, Peer}

-- The node's end: its connection to the client, and its process.
pub record NodeEnd (Host : Type 0) : Type 0 where
  pub conn : Conn
  pub process : Process Host

-- How the bytes that are sent arrive: whole, in order, in segments that are not empty.
pub record Wire : Type 0 where
  pub cut : Bytes → List Bytes
  pub whole : (bytes : Bytes) → stream (cut bytes) ≡ bytes
  pub no_end : (bytes : Bytes) → IsOpen (cut bytes)

-- One round of the node on the message of the client; `sent` is what this round sends.
unfoldable pub node_peer : {Host : Type 0} → Platform Host → Wire → Peer (NodeEnd Host)
node_peer os wire msg w = do
  let arriving : Conn = record w.conn { incoming = w.conn.incoming ++ wire.cut msg; sent = [] }
  served ← dic_node_recv_send os arriving w.process
  some (wire.cut served.conn.sent, record { conn = served.conn; process = served.process })

-- Both ends are connected and nothing is under way: "END, node is waiting for new request".
pub record IsIdle {Host : Type 0} (s : Session (NodeEnd Host)) : Type 0 where
  pub client_fd : ℕ
  pub client_open : s.conn.sockfd ≡ some client_fd
  pub client_done : s.conn.incoming ≡ []
  pub node_fd : ℕ
  pub node_open : s.world.conn.sockfd ≡ some node_fd
  pub node_done : s.world.conn.incoming ≡ []
