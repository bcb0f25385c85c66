-- ===== src/Demo/PrimesClient/Unload.antt =====
-- The client's shared object is closed on its nodes, and then the connections are.
use dicon.Base.{
  ℕ, ◌+◌, ◌<◌, ◌^◌, ◌≡◌, refl, ap, ◌∙◌, none, some, List, [], ◌∷◌, ◌++◌, arith, length,
  length-append, append_assoc,
}
use dicon.Wire.{Bytes}
use dicon.Socket.{close, dic_conn_disconnect}
use dicon.Socket.Listening.{dic_conn_destroy, dic_conn_destroy-open, dic_conn_disconnect-closed}
use dicon.Handlers.ObjectHandlers.{so_path}
use dicon.Client.Transport.{Session}
use dicon.Platform.{Platform, Process}
use dicon.Protocol.{dic_so_unload}
use dicon.Protocol.ObjectBodies.{encode_req_so_unload, encode_resp_so_unload}
use dicon.Client.ObjectCalls.{dic_so_unload_call}
use dicon.Client.Devices.{RvoidPtr, Nodes, on, on-append, so_unload, destroy}
use dicon.Rpc.{NodeEnd, Wire, node_peer}
use dicon.Rpc.Transparent.{reply, after_call}
use dicon.Rpc.Calls.{message}
use dicon.Rpc.Objects.{dic_so_unload-dlclose}
use dicon.Demo.PrimesClient.{remote_name, unload_objects}
use dicon.Demo.PrimesClient.Worker.{Job, AllJoined}
use dicon.Demo.PrimesClient.Load.{Loader, AllLoaded, none_loaded, loaded}

-- What is left of `open_fds` where these are closed.
abbrev pub close_all : List ℕ → List ℕ → List ℕ
close_all [] open_fds = open_fds
close_all (fd ∷ fds) open_fds = close_all fds (close fd open_fds)

-- A node at the end: it was written the file, its loader gave `handle` for it, and when its threads had all
-- been joined, in the process `joined`, it closed that handle; the connection is closed.
pub record Closed {Host : Type 0} (os : Platform Host) (file : Bytes)
    (Holds : Process Host → ℕ → List Job → Type 0) (at_first s : Session (NodeEnd Host))
    : Type 0 where
  pub host : Host
  pub host' : Host
  pub handle : ℕ
  pub joined : Process Host
  pub written : os.write_file (so_path remote_name) file at_first.world.process.host ≡ some host
  pub opened : os.dlopen (so_path remote_name) host ≡ (handle, host')
  pub held : Holds joined 0 []
  pub closed : s.world.process ≡ record joined { host = os.dlclose handle joined.host }
  pub shut : s.conn.sockfd ≡ none

abbrev pub AllClosed :
    {Host : Type 0}
    → Platform Host
    → Bytes
    → (Process Host → ℕ → List Job → Type 0)
    → (at_first nodes : Nodes (NodeEnd Host)) → Type 0
AllClosed os file Holds [] [] = Unit
AllClosed os file Holds [] (s ∷ nodes) = ⊥
AllClosed os file Holds (s ∷ at_first) [] = ⊥
AllClosed os file Holds (s0 ∷ at_first) (s ∷ nodes) =
    Closed os file Holds s0 s × AllClosed os file Holds at_first nodes

destroy-append :
    {World : Type 0} (left right : Nodes World) (s : Session World) (open_fds : List ℕ) {device : ℕ}
    → device ≡ length left
    → destroy device open_fds (left ++ s ∷ right)
      ≡ some (
        dic_conn_destroy s.conn open_fds,
        left ++ record s { conn = (dic_conn_disconnect s.conn open_fds).0 } ∷ right,
      )
unfolding destroy
destroy-append left right s open_fds is =
    ap (λ d. destroy d open_fds (left ++ s ∷ right)) is
    ∙ on-append
        (λ t. some (
          dic_conn_destroy t.conn open_fds,
          record t { conn = (dic_conn_disconnect t.conn open_fds).0 },
        ))
        left right refl

module _ {Host : Type 0} (slack : ℕ → Bytes) (os : Platform Host) (wire : Wire) (local : ℕ → Bytes)
    (file : Bytes) (func : ℕ) {Holds : Process Host → ℕ → List Job → Type 0}
    {Fresh : Process Host → ℕ → Type 0} (loader : Loader os file func Holds Fresh)
    (small : length file < 2 ^ 29) where
  -- Each node closes the handle that it gave, and then its connection is closed.
  pub unload_objects-AllClosed :
      (left nodes : Nodes (NodeEnd Host)) (open_fds : List ℕ) {device : ℕ} {handles : List RvoidPtr}
      {fds cores : List ℕ} {before at_first : Nodes (NodeEnd Host)}
      → device ≡ length left
      → AllLoaded os file func Holds device handles fds cores before at_first
      → AllJoined Holds fds nodes
      → (nodes' : Nodes (NodeEnd Host)) × AllClosed os file Holds at_first nodes'
        × (unload_objects slack (node_peer os wire) local handles device open_fds (left ++ nodes)
            ≡ some (close_all fds open_fds, left ++ nodes'))
  unfolding unload_objects so_unload destroy
  unload_objects-AllClosed left [] open_fds is none_loaded joined = ([], tt, refl)
  unload_objects-AllClosed left (s ∷ nodes) open_fds is none_loaded joined = absurd joined
  unload_objects-AllClosed left [] open_fds is
        (loaded handle written opened h_handle found runs all) joined =
      absurd joined
  unload_objects-AllClosed left (s ∷ nodes) open_fds {device} is
        (loaded {fd} handle written opened h_handle found runs all) (now, others) =
      let peer = node_peer os wire in
      let p = s.world.process in
      let s1 =
        after_call s (message dic_so_unload (encode_req_so_unload (record { handle = handle })))
          (reply (encode_resp_so_unload (record { success = 0 })))
          (record p { host = os.dlclose handle p.host }) in
      let s2 : Session (NodeEnd Host) = record s1 {
        conn = (dic_conn_disconnect s1.conn open_fds).0;
      } in
      let unloaded : dic_so_unload_call slack peer handle s ≡ some (0, s1) =
        dic_so_unload-dlclose slack os wire s now.idle handle h_handle in
      let gone : dic_conn_destroy s1.conn open_fds ≡ close fd open_fds =
        dic_conn_destroy-open s1.conn open_fds fd now.open_ in
      let left1 = left ++ s2 ∷ [] in
      let here : device + 1 ≡ length left1 = omega (arith, is, length-append left (s2 ∷ [])) in
      let (nodes2, closed, ran) =
        unload_objects-AllClosed left1 nodes (close fd open_fds) here all others in
      let before : left1 ++ nodes ≡ left ++ s2 ∷ nodes = append_assoc left (s2 ∷ []) nodes in
      let after : left1 ++ nodes2 ≡ left ++ s2 ∷ nodes2 = append_assoc left (s2 ∷ []) nodes2 in
      let unload : on device (dic_so_unload_call slack peer handle) (left ++ s ∷ nodes)
          ≡ some (0, left ++ s1 ∷ nodes) =
        ap (λ d. on d (dic_so_unload_call slack peer handle) (left ++ s ∷ nodes)) is
        ∙ on-append (dic_so_unload_call slack peer handle) left nodes unloaded in
      let destroyed : destroy device open_fds (left ++ s1 ∷ nodes)
          ≡ some (close fd open_fds, left ++ s2 ∷ nodes) =
        destroy-append left nodes s1 open_fds is ∙ ap (λ o. some (o, left ++ s2 ∷ nodes)) gone in
      (
        s2 ∷ nodes2,
        (
          record {
            host = _;
            host' = _;
            handle = handle;
            joined = p;
            written = written;
            opened = opened;
            held = now.held;
            closed = refl;
            shut = dic_conn_disconnect-closed s1.conn open_fds;
          },
          closed,
        ),
        rw (unload, destroyed, ← before, ran, after),
      )
