-- ===== src/Demo/PrimesClient/Collect.antt =====
-- What the client collects of a thread that has run.
use dicon.Base.{
  ℕ, zero, suc, ◌+◌, ◌*◌, ◌%◌, ◌<◌, ◌≤◌, ◌^◌, ◌≡◌, refl, Option, some, List, [], ◌∷◌, ◌++◌, arith,
  length, drop, append-nil,
}
use mathlib.Core.Path.{subst}
use dicon.Wire.{Bytes, le_bytes}
use dicon.Wire.Fields.{length-le_bytes, get_field-le_bytes}
use dicon.Memory.{Memory, load_bytes}
use dicon.Memory.Access.{load_bytes-append}
use dicon.Platform.{Platform, Process}
use dicon.Protocol.{dic_join, dic_memcpy_n2c, dic_free}
use dicon.Protocol.MemoryBodies.{encode_req_free, encode_resp_free}
use dicon.Protocol.CopyBodies.{encode_req_memcpy_n2c, encode_resp_memcpy_n2c}
use dicon.Protocol.FunctionBodies.{encode_req_join, encode_resp_join}
use dicon.Client.Transport.{Session}
use dicon.Client.MemoryCalls.{dic_rfree, dic_memcpy}
use dicon.Client.ThreadCalls.{dic_rthread_join}
use dicon.Client.Devices.{Nodes, on-append, rfree, memcpy, rthread_join}
use dicon.Rpc.{NodeEnd, Wire, node_peer, IsIdle}
use dicon.Rpc.Transparent.{reply, after_call, after_call-IsIdle}
use dicon.Rpc.Calls.{message}
use dicon.Rpc.MemoryOps.{dic_rfree-free}
use dicon.Rpc.Copies.{dic_memcpy_n2c-load}
use dicon.Rpc.Threads.{dic_rthread_join-pthread_join}
use dicon.Demo.PrimesClient.{collect_thread}
use dicon.Demo.PrimesClient.Worker.{Job, Worker, Runs, encode_words}

drop_all : (n : ℕ) (xs : Bytes) → length xs ≤ n → drop n xs ≡ []
drop_all zero [] short = refl
drop_all zero (x ∷ xs) short = absurd (omega arith)
drop_all (suc n) [] short = refl
drop_all (suc n) (x ∷ xs) short = drop_all n xs (omega arith)

-- The array that a thread returns is a number and what stands behind it.
array_read :
    (n ret : ℕ) (ps : List ℕ) (m : Memory)
    → load_bytes (8 * length (n ∷ ps)) ret m ≡ some (encode_words (n ∷ ps))
    → (load_bytes 8 ret m ≡ some (le_bytes 8 n))
      × (load_bytes (length ps * 8) (ret + 8) m ≡ some (encode_words ps))
array_read n ret ps m loaded =
    let size = length-le_bytes 8 n in
    let (front, back) =
      load_bytes-append (le_bytes 8 n) (encode_words ps) (8 * length (n ∷ ps)) (length ps * 8) ret m
        (omega (arith, size)) loaded in
    (
      subst (λ k. load_bytes k ret m ≡ some (le_bytes 8 n)) size front,
      subst (λ k. load_bytes (length ps * 8) (ret + k) m ≡ some (encode_words ps)) size back,
    )

module _ {Host : Type 0} (slack : ℕ → Bytes) (os : Platform Host) (wire : Wire) (local : ℕ → Bytes)
    (sized : (n : ℕ) → length (local n) ≡ n) {task : ℕ → ℕ → Option (List ℕ)} (func : ℕ)
    {Holds : Process Host → ℕ → List Job → Type 0} (worker : Worker os task func Holds) where
  -- The client gets the array of the oldest job of a node whole, frees it there, and touches no other
  -- node.
  pub collect_thread-Runs :
      {fd : ℕ} (left right : Nodes (NodeEnd Host)) (s : Session (NodeEnd Host))
      (room tid start end : ℕ) (jobs : List Job) (ps : List ℕ)
      → Runs Holds fd room ((tid, start, end) ∷ jobs) s
      → task start end ≡ some (length ps ∷ ps)
      → length ps < 2 ^ 27
      → (s' : Session (NodeEnd Host)) × Runs Holds fd room jobs s'
        × (collect_thread slack
              (node_peer os wire)
              local
              (record { tid = tid; device = length left })
              (left ++ s ∷ right)
            ≡ some ((length ps, encode_words ps), left ++ s' ∷ right))
  unfolding collect_thread rthread_join memcpy rfree dic_memcpy
  collect_thread-Runs left right s room tid start end jobs ps runs computed few =
      let n = length ps in
      let idle = runs.idle in
      let (ret, p1, m4, tid_fits, joined, fits, loaded, freed, held) =
        worker.joined s.world.process room tid start end jobs (n ∷ ps) runs.held computed
          (omega (arith, few)) in
      let (front, back) = array_read n ret ps p1.memory loaded in
      let ret_fits : ret < 2 ^ 64 = omega (arith, fits) in
      let peer = node_peer os wire in
      let s1 =
        after_call s (message dic_join (encode_req_join (record { tid = tid })))
          (reply (encode_resp_join (record { ret_ptr = ret }))) p1 in
      let idle1 : IsIdle s1 = after_call-IsIdle s _ _ _ idle in
      let s2 =
        after_call s1
          (message dic_memcpy_n2c (encode_req_memcpy_n2c (record { src = ret; data_size = 8 })))
          (reply (encode_resp_memcpy_n2c (record { data_size = 8; content = le_bytes 8 n }))) p1 in
      let idle2 : IsIdle s2 = after_call-IsIdle s1 _ _ _ idle1 in
      let s3 =
        after_call s2
          (message dic_memcpy_n2c
            (encode_req_memcpy_n2c (record { src = ret + 8; data_size = n * 8 })))
          (reply (encode_resp_memcpy_n2c (record { data_size = n * 8; content = encode_words ps })))
          p1 in
      let idle3 : IsIdle s3 = after_call-IsIdle s2 _ _ _ idle2 in
      let s4 =
        after_call s3 (message dic_free (encode_req_free (record { void_ptr = ret })))
          (reply (encode_resp_free (record { err = 0 }))) (record p1 { memory = m4 }) in
      let join : dic_rthread_join slack peer tid s ≡ some (ret, s1) =
        dic_rthread_join-pthread_join slack os wire s idle tid ret p1 tid_fits ret_fits joined in
      let size : dic_memcpy slack peer (local 8) ret 8 1 s1
          ≡ some ((0, le_bytes 8 n ++ drop 8 (local 8)), s2) =
        dic_memcpy_n2c-load slack os wire s1 idle1 (local 8) ret 8 (le_bytes 8 n) ret_fits
          (omega arith) (omega (arith, sized 8)) front in
      let arr : dic_memcpy slack peer (local (n * 8)) (ret + 8) (n * 8) 1 s2
          ≡ some ((0, encode_words ps ++ drop (n * 8) (local (n * 8))), s3) =
        dic_memcpy_n2c-load slack os wire s2 idle2 (local (n * 8)) (ret + 8) (n * 8)
          (encode_words ps) (omega (arith, fits)) (omega (arith, few))
          (omega (arith, sized (n * 8))) back in
      let gone : dic_rfree slack peer ret s3 ≡ some (0, s4) =
        dic_rfree-free slack os wire s3 idle3 ret m4 ret_fits freed in
      let wrap : (n * 8) % 2 ^ 64 ≡ n * 8 = omega (arith, few) in
      let wrap32 : (n * 8) % 2 ^ 32 ≡ n * 8 = omega (arith, few) in
      let behind : (ret + 8) % 2 ^ 64 ≡ ret + 8 = omega (arith, fits) in
      let no_more : drop (n * 8) (local (n * 8)) ≡ [] =
        drop_all (n * 8) (local (n * 8)) (omega (arith, sized (n * 8))) in
      (
        s4,
        record { idle = after_call-IsIdle s3 _ _ _ idle3; open_ = runs.open_; held = held },
        rw (
          on-append (dic_rthread_join slack peer tid) left right join,
          on-append (dic_memcpy slack peer (local 8) ret 8 1) left right size,
          get_field-le_bytes 8 n (drop 8 (local 8)) (omega (arith, few)),
          wrap,
          wrap32,
          behind,
          on-append (dic_memcpy slack peer (local (n * 8)) (ret + 8) (n * 8) 1) left right arr,
          on-append (dic_rfree slack peer ret) left right gone,
          no_more,
          append-nil (encode_words ps),
        ),
      )
