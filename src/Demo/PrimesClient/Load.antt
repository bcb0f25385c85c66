-- ===== src/Demo/PrimesClient/Load.antt =====
-- The client's shared object goes to its nodes, and they open it.
use dicon.Base.{
  ℕ, ◌+◌, ◌<◌, ◌≤◌, ◌^◌, ◌≡◌, refl, ap, some, List, [], ◌∷◌, ◌++◌, arith, length, length-append,
  append_assoc, Bool, true, false, ◌==◌, if◌then◌else◌,
}
use dicon.Wire.{Bytes}
use dicon.Platform.{Platform, Process}
use dicon.Protocol.{dic_so_upload}
use dicon.Protocol.ObjectBodies.{encode_req_so_upload, encode_resp_so_upload}
use dicon.Handlers.Reply.{c_string}
use dicon.Handlers.ObjectHandlers.{so_path, so_path_capacity}
use dicon.Client.Transport.{Session}
use dicon.Client.ObjectCalls.{dic_so_upload_call, dic_so_load_call}
use dicon.Client.Devices.{RvoidPtr, Nodes, on, on-append, so_upload, so_load}
use dicon.Rpc.{NodeEnd, Wire, node_peer, IsIdle}
use dicon.Rpc.Transparent.{reply, after_call, after_call-IsIdle}
use dicon.Rpc.Calls.{message}
use dicon.Rpc.Objects.{
  IsCString, upload_of, after_load, dic_so_upload-write_file, dic_so_load-dlopen,
}
use dicon.Demo.PrimesClient.{remote_name, load_objects}
use dicon.Demo.PrimesClient.Worker.{Job, Runs}

-- What the client relies on where a node loads its file: on a process that is `Fresh`, the loader opens the
-- file that was written, finds the function at `func`, and the process then has room for threads.
pub record Loader {Host : Type 0} (os : Platform Host) (file : Bytes) (func : ℕ)
    (Holds : Process Host → ℕ → List Job → Type 0) (Fresh : Process Host → ℕ → Type 0)
    : Type 0 where
  pub path_granted : 2 ≤ length (os.slack (so_path_capacity (length remote_name + 1)))
  pub nul_granted : c_string (remote_name ++ os.slack (12 + length remote_name)) ≡ some remote_name
  pub func_fits : func < 2 ^ 64
  pub loads :
      (p : Process Host) (room : ℕ)
      → Fresh p room
      → (host host' : Host) × (handle : ℕ) × (os.write_file (so_path remote_name) file p.host
          ≡ some host)
        × (os.stale p < 2 ^ 32)
        × (os.dlopen (so_path remote_name) host ≡ (handle, host'))
        × (handle < 2 ^ 64)
        × (os.dlsym handle remote_name host' ≡ func)
        × Holds (record p { host = host' }) room []

-- An idle connection, on the descriptor `fd`, to a node that is fresh.
pub record Starts {Host : Type 0} (Fresh : Process Host → ℕ → Type 0) (fd room : ℕ)
    (s : Session (NodeEnd Host)) : Type 0 where
  pub idle : IsIdle s
  pub open_ : s.conn.sockfd ≡ some fd
  pub fresh : Fresh s.world.process room

-- The nodes have as much room as cores.
abbrev pub AllFresh :
    {Host : Type 0}
    → (Process Host → ℕ → Type 0)
    → (fds cores : List ℕ) → Nodes (NodeEnd Host)
    → Type 0
AllFresh Fresh (fd ∷ fds) (c ∷ cores) (s ∷ nodes) =
    Starts Fresh fd c s × AllFresh Fresh fds cores nodes
AllFresh Fresh [] [] [] = Unit
AllFresh Fresh _ _ _ = ⊥

-- The nodes from `device` on have opened the object, with these handles, which are what their loaders gave
-- for the file that the client has written to them as they were at first, the last index.
pub data AllLoaded {Host : Type 0} (os : Platform Host) (file : Bytes) (func : ℕ)
    (Holds : Process Host → ℕ → List Job → Type 0)
    : ℕ
      → List RvoidPtr
      → (fds cores : List ℕ) → (nodes at_first : Nodes (NodeEnd Host)) → Type 0 where
  none_loaded : {device : ℕ} → AllLoaded os file func Holds device [] [] [] [] []
  loaded :
      {device fd c : ℕ} {s s0 : Session (NodeEnd Host)} (handle : ℕ) {handles : List RvoidPtr}
      {fds cores : List ℕ} {nodes at_first : Nodes (NodeEnd Host)} {host host' : Host}
      → os.write_file (so_path remote_name) file s0.world.process.host ≡ some host
      → os.dlopen (so_path remote_name) host ≡ (handle, host')
      → handle < 2 ^ 64
      → os.dlsym handle remote_name s.world.process.host ≡ func
      → Runs Holds fd c [] s
      → AllLoaded os file func Holds (device + 1) handles fds cores nodes at_first
      → AllLoaded os file func Holds device
          (record { ptr = handle; device = device } ∷ handles)
          (fd ∷ fds)
          (c ∷ cores)
          (s ∷ nodes)
          (s0 ∷ at_first)

all_nonzero : Bytes → Bool
all_nonzero [] = true
all_nonzero (b ∷ bs) = let rest = all_nonzero bs in if b == 0 then false else rest

IsCString-all_nonzero : (bs : Bytes) → all_nonzero bs ≡ true → IsCString bs
unfolding all_nonzero
IsCString-all_nonzero [] all = tt
IsCString-all_nonzero (b ∷ bs) all =
    (ground (arith, all), IsCString-all_nonzero bs (ground (arith, all)))

remote_name-IsCString : IsCString remote_name
unfolding all_nonzero
remote_name-IsCString = IsCString-all_nonzero remote_name refl

module _ {Host : Type 0} (slack : ℕ → Bytes) (os : Platform Host) (wire : Wire) (local : ℕ → Bytes)
    (file : Bytes) (func : ℕ) {Holds : Process Host → ℕ → List Job → Type 0}
    {Fresh : Process Host → ℕ → Type 0} (loader : Loader os file func Holds Fresh)
    (small : length file < 2 ^ 29) where
  -- Each node gets the file and opens it.
  pub load_objects-AllLoaded :
      (fds cores : List ℕ) (left nodes : Nodes (NodeEnd Host)) (device : ℕ)
      → device ≡ length left
      → AllFresh Fresh fds cores nodes
      → (handles : List RvoidPtr) × (nodes' : Nodes (NodeEnd Host)) × AllLoaded os file func Holds
          device handles fds cores nodes' nodes
        × (load_objects slack
              (node_peer os wire)
              local
              remote_name
              (some file)
              (length cores)
              device
              (left ++ nodes)
            ≡ some (handles, left ++ nodes'))
  unfolding load_objects so_upload so_load
  load_objects-AllLoaded [] [] left [] device is fresh = ([], [], none_loaded, refl)
  load_objects-AllLoaded [] [] left (s ∷ nodes) device is fresh = absurd fresh
  load_objects-AllLoaded [] (c ∷ cores) left nodes device is fresh = absurd fresh
  load_objects-AllLoaded (fd ∷ fds) [] left nodes device is fresh = absurd fresh
  load_objects-AllLoaded (fd ∷ fds) (c ∷ cores) left [] device is fresh = absurd fresh
  load_objects-AllLoaded (fd ∷ fds) (c ∷ cores) left (s ∷ nodes) device is (starts, fresh) =
      let (host, host', handle, written, h_stale, opened, h_handle, found, held) =
        loader.loads s.world.process c starts.fresh in
      let peer = node_peer os wire in
      let s1 =
        after_call s (message dic_so_upload (encode_req_so_upload (upload_of remote_name file)))
          (reply (encode_resp_so_upload (record { success = os.stale s.world.process })))
          (record s.world.process { host = host }) in
      let idle1 : IsIdle s1 = after_call-IsIdle s _ _ _ starts.idle in
      let s2 = after_load slack os wire s1 idle1 remote_name handle host' in
      let uploaded : dic_so_upload_call slack peer (some file) remote_name s
          ≡ some (os.stale s.world.process, s1) =
        dic_so_upload-write_file slack os wire s starts.idle remote_name file host
          remote_name-IsCString (omega (arith, small)) written h_stale in
      let load : dic_so_load_call slack peer remote_name s1 ≡ some (handle, s2) =
        dic_so_load-dlopen slack os wire s1 idle1 remote_name handle host' remote_name-IsCString
          (omega arith) loader.path_granted h_handle opened in
      let left1 = left ++ s2 ∷ [] in
      let here : device + 1 ≡ length left1 = omega (arith, is, length-append left (s2 ∷ [])) in
      let (handles, nodes3, all, ran) =
        load_objects-AllLoaded fds cores left1 nodes (device + 1) here fresh in
      let before : left1 ++ nodes ≡ left ++ s2 ∷ nodes = append_assoc left (s2 ∷ []) nodes in
      let after : left1 ++ nodes3 ≡ left ++ s2 ∷ nodes3 = append_assoc left (s2 ∷ []) nodes3 in
      (
        record { ptr = handle; device = device } ∷ handles,
        s2 ∷ nodes3,
        loaded handle written opened h_handle found
            (record { idle = after_call-IsIdle s1 _ _ _ idle1; open_ = starts.open_; held = held })
            all,
        rw (
          ap (λ d. on d (dic_so_upload_call slack peer (some file) remote_name) (left ++ s ∷ nodes))
              is,
          on-append (dic_so_upload_call slack peer (some file) remote_name) left nodes uploaded,
          ap (λ d. on d (dic_so_load_call slack peer remote_name) (left ++ s1 ∷ nodes)) is,
          on-append (dic_so_load_call slack peer remote_name) left nodes load,
          ← before,
          ran,
          after,
        ),
      )
