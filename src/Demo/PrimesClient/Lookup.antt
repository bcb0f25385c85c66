-- ===== src/Demo/PrimesClient/Lookup.antt =====
-- The function of the client's shared object is looked up on its nodes.
use dicon.Base.{
  ℕ, ◌+◌, ◌<◌, ◌≤◌, ◌^◌, ◌≡◌, refl, sym, ap, some, List, [], ◌∷◌, ◌++◌, arith, length,
  length-append, append_assoc,
}
use mathlib.Core.Path.{subst}
use dicon.Wire.{Bytes}
use dicon.Platform.{Platform, Process}
use dicon.Protocol.{dic_func_load}
use dicon.Protocol.FunctionBodies.{encode_req_func_load, encode_resp_func_load}
use dicon.Client.ThreadCalls.{dic_func_load_call}
use dicon.Client.Devices.{RvoidPtr, Nodes, on, on-append, func_load}
use dicon.Rpc.{NodeEnd, Wire, node_peer}
use dicon.Rpc.Transparent.{reply, after_call, after_call-IsIdle}
use dicon.Rpc.Calls.{message}
use dicon.Rpc.Threads.{dic_func_load-dlsym}
use dicon.Demo.PrimesClient.{remote_name, load_functions}
use dicon.Demo.PrimesClient.Worker.{Job, AllReady, no_node_ready, node_ready, on_each}
use dicon.Demo.PrimesClient.Load.{Loader, AllLoaded, none_loaded, loaded}

module _ {Host : Type 0} (slack : ℕ → Bytes) (os : Platform Host) (wire : Wire) (local : ℕ → Bytes)
    (file : Bytes) (func : ℕ) {Holds : Process Host → ℕ → List Job → Type 0}
    {Fresh : Process Host → ℕ → Type 0} (loader : Loader os file func Holds Fresh)
    (small : length file < 2 ^ 29) where
  -- The function is found on each node, where the object was opened.
  pub load_functions-AllReady :
      (left : Nodes (NodeEnd Host)) {device : ℕ} {handles : List RvoidPtr} {fds cores : List ℕ}
      {nodes at_first : Nodes (NodeEnd Host)}
      → device ≡ length left
      → 1 ≤ length (slack (8 + (12 + length remote_name)))
      → AllLoaded os file func Holds device handles fds cores nodes at_first
      → (nodes' : Nodes (NodeEnd Host)) × AllReady Holds fds cores nodes'
        × (load_functions slack (node_peer os wire) local remote_name handles (left ++ nodes)
            ≡ some (on_each func (length cores) device, left ++ nodes'))
  unfolding load_functions func_load
  load_functions-AllReady left is granted none_loaded = ([], no_node_ready, refl)
  load_functions-AllReady left {device} is granted
        (loaded {fd} {c} {s} handle {handles} {fds} {cores} {nodes} written opened h_handle found
          runs all) =
      let peer = node_peer os wire in
      let s1 =
        after_call s
          (message dic_func_load (
            encode_req_func_load
              (record { so_handle = handle; symlen = length remote_name; symbol = remote_name })))
          (reply (encode_resp_func_load (record { func_ptr = func }))) s.world.process in
      let looked_up : dic_func_load_call slack peer handle remote_name s ≡ some (func, s1) =
        subst
          (λ f.
            dic_func_load_call slack peer handle remote_name s
            ≡ some (
              f,
              after_call s
                  (message dic_func_load (
                    encode_req_func_load (record {
                      so_handle = handle;
                      symlen = length remote_name;
                      symbol = remote_name;
                    })))
                  (reply (encode_resp_func_load (record { func_ptr = f }))) s.world.process,
            ))
          found
          (dic_func_load-dlsym slack os wire s runs.idle handle remote_name remote_name h_handle
            (omega arith) granted loader.nul_granted
            (subst (λ f. f < 2 ^ 64) (sym found) loader.func_fits)) in
      let left1 = left ++ s1 ∷ [] in
      let here : device + 1 ≡ length left1 = omega (arith, is, length-append left (s1 ∷ [])) in
      let (nodes2, ready, ran) = load_functions-AllReady left1 here granted all in
      let before : left1 ++ nodes ≡ left ++ s1 ∷ nodes = append_assoc left (s1 ∷ []) nodes in
      let after : left1 ++ nodes2 ≡ left ++ s1 ∷ nodes2 = append_assoc left (s1 ∷ []) nodes2 in
      (
        s1 ∷ nodes2,
        node_ready
            (record {
              idle = after_call-IsIdle s _ _ _ runs.idle;
              open_ = runs.open_;
              held = runs.held;
            })
            ready,
        rw (
          ap (λ d. on d (dic_func_load_call slack peer handle remote_name) (left ++ s ∷ nodes)) is,
          on-append (dic_func_load_call slack peer handle remote_name) left nodes looked_up,
          ← before,
          ran,
          after,
        ),
      )
