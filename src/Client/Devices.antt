-- ===== src/Client/Devices.antt =====
-- Several nodes: diconlib/include/client_node_communication.h, whose remote pointers, handles and threads
-- carry the connection of their node, and the calls of diconlib/src/client_node_communication.c on them.
-- A `dic_conn_t *` is the position of the connection in the client's array of nodes.
use dicon.Base.{ℕ, zero, suc, ◌≡◌, Option, none, some, List, [], ◌∷◌, ◌++◌, length}
use dicon.Wire.{Bytes, ◌>>=◌}
use dicon.Socket.{dic_conn_disconnect}
use dicon.Socket.Listening.{dic_conn_destroy}
use dicon.Client.Transport.{Session, Peer, Call}
use dicon.Client.MemoryCalls.{dic_rmalloc, dic_rfree, dic_memcpy}
use dicon.Client.ObjectCalls.{dic_so_upload_call, dic_so_load_call, dic_so_unload_call}
use dicon.Client.ThreadCalls.{dic_func_load_call, dic_rthread_run, dic_rthread_join}

-- `dic_rvoid_ptr_t`, which `dic_rso_handle_t` and `dic_rfunc_ptr_t` are too.
pub record RvoidPtr : Type 0 where
  pub ptr : ℕ
  pub device : ℕ

pub record Rthread : Type 0 where
  pub tid : ℕ
  pub device : ℕ

-- The client's connections to its nodes, and what it does with them; `none` is undefined behaviour.
abbrev pub Nodes : Type 0 → Type 0
Nodes World = List (Session World)

abbrev pub OnNodes : Type 0 → Type 0 → Type 0
OnNodes World A = Nodes World → Option (A × Nodes World)

-- A call on the connection at a position; `none` where there is none.
unfoldable pub on : {World A : Type 0} → ℕ → Call World A → OnNodes World A
on device call [] = none
on zero call (s ∷ nodes) = do (a, s') ← call s; some (a, s' ∷ nodes)
on (suc device) call (s ∷ nodes) = do (a, nodes') ← on device call nodes; some (a, s ∷ nodes')

-- A call works on its own node only.
pub on-append :
    {World A : Type 0} (call : Call World A) (left right : Nodes World) {s s' : Session World}
    {a : A}
    → call s ≡ some (a, s')
    → on (length left) call (left ++ s ∷ right) ≡ some (a, left ++ s' ∷ right)
unfolding on
on-append call [] right e = rw e
on-append call (t ∷ left) right e = rw (on-append call left right e)

-- `dic_conn_destroy` of the connection at a position: the descriptors that are left. The block is freed, and
-- no call uses the connection any more.
unfoldable pub destroy : {World : Type 0} → ℕ → List ℕ → OnNodes World (List ℕ)
destroy device open_fds = on device λ s.
    some (
      dic_conn_destroy s.conn open_fds,
      record s { conn = (dic_conn_disconnect s.conn open_fds).0 },
    )

module _ (slack : ℕ → Bytes) {World : Type 0} (peer : Peer World) where
  unfoldable pub rmalloc : ℕ → ℕ → OnNodes World RvoidPtr
  rmalloc device size nodes = do
    (address, nodes') ← on device (dic_rmalloc slack peer size) nodes
    some (record { ptr = address; device = device }, nodes')

  unfoldable pub rfree : RvoidPtr → OnNodes World ℕ
  rfree rvoid = on rvoid.device (dic_rfree slack peer rvoid.ptr)

  unfoldable pub memcpy : Bytes → RvoidPtr → ℕ → ℕ → OnNodes World (ℕ × Bytes)
  memcpy local remote size mode =
      on remote.device (dic_memcpy slack peer local remote.ptr size mode)

  unfoldable pub so_upload : ℕ → Option Bytes → Bytes → OnNodes World ℕ
  so_upload device file remote_name = on device (dic_so_upload_call slack peer file remote_name)

  unfoldable pub so_load : ℕ → Bytes → OnNodes World RvoidPtr
  so_load device name nodes = do
    (handle, nodes') ← on device (dic_so_load_call slack peer name) nodes
    some (record { ptr = handle; device = device }, nodes')

  unfoldable pub so_unload : RvoidPtr → OnNodes World ℕ
  so_unload handle = on handle.device (dic_so_unload_call slack peer handle.ptr)

  unfoldable pub func_load : RvoidPtr → Bytes → OnNodes World RvoidPtr
  func_load so_handle symbol nodes = do
    (func_ptr, nodes') ←
        on so_handle.device (dic_func_load_call slack peer so_handle.ptr symbol) nodes
    some (record { ptr = func_ptr; device = so_handle.device }, nodes')

  -- The node that runs the thread is the function's, not the argument's.
  unfoldable pub rthread_run : RvoidPtr → RvoidPtr → OnNodes World Rthread
  rthread_run func_ptr args_ptr nodes = do
    (tid, nodes') ← on func_ptr.device (dic_rthread_run slack peer func_ptr.ptr args_ptr.ptr) nodes
    some (record { tid = tid; device = func_ptr.device }, nodes')

  unfoldable pub rthread_join : Rthread → OnNodes World RvoidPtr
  rthread_join thread nodes = do
    (ret_ptr, nodes') ← on thread.device (dic_rthread_join slack peer thread.tid) nodes
    some (record { ptr = ret_ptr; device = thread.device }, nodes')
