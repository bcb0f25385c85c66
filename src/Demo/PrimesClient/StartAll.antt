-- ===== src/Demo/PrimesClient/StartAll.antt =====
-- The loops over the nodes and their cores start the jobs that `assign_work` divides the range into.
use dicon.Base.{
  ℕ, zero, suc, ◌+◌, ◌*◌, ◌%◌, ◌<◌, ◌^◌, ◌≡◌, refl, sym, Option, some, List, [], ◌∷◌, ◌++◌, arith,
  length, length-append, append_assoc, append-nil,
}
use mathlib.Core.Path.{subst}
use dicon.Wire.{Bytes}
use dicon.Socket.{size_of_int}
use dicon.Platform.{Platform, Process, Allocates}
use dicon.Client.Transport.{Session}
use dicon.Client.Devices.{Rthread, Nodes}
use dicon.Rpc.{NodeEnd, Wire, node_peer}
use dicon.Demo.Work.{part, core_loop, node_loop}
use dicon.Demo.PrimesClient.{start_cores, start_nodes}
use dicon.Demo.PrimesClient.Worker.{
  Job, Worker, Runs, AllReady, no_node_ready, node_ready, AllRun, no_node, node, ranges_of,
  threads_of, on_each,
}
use dicon.Demo.PrimesClient.Start.{start_thread-Runs}

size_of_int-fits : (n : ℕ) → n < 2 ^ 32 → size_of_int n < 2 ^ 64
size_of_int-fits n fits = ground arith

part-fits :
    (range_start range_end total size t : ℕ)
    → range_end < 2 ^ 31
    → ((part range_start range_end total size t).0 < 2 ^ 64)
      × ((part range_start range_end total size t).1 < 2 ^ 64)
unfolding part
part-fits range_start range_end total size t most =
    (size_of_int-fits ((range_start + t * size) % 2 ^ 32) (omega arith), ground arith)

module _ {Host : Type 0} (slack : ℕ → Bytes) (os : Platform Host) (wire : Wire) (al : Allocates os)
    (local : ℕ → Bytes) {task : ℕ → ℕ → Option (List ℕ)} (func : ℕ)
    {Holds : Process Host → ℕ → List Job → Type 0} (worker : Worker os task func Holds)
    (range_start range_end total size : ℕ) (most : range_end < 2 ^ 31) where
  start_cores-Runs :
      {fd : ℕ} (c t : ℕ) (left right : Nodes (NodeEnd Host)) (s : Session (NodeEnd Host))
      (jobs : List Job)
      → Runs Holds fd c jobs s
      → (new : List Job) × (s' : Session (NodeEnd Host)) × Runs Holds fd 0 (jobs ++ new) s'
        × (ranges_of new ≡ core_loop range_start range_end total size c t)
        × (start_cores slack
              (node_peer os wire)
              local
              range_start
              range_end
              total
              size
              c
              (length left)
              t
              (record { ptr = func; device = length left })
              (left ++ s ∷ right)
            ≡ some (threads_of (length left) new, left ++ s' ∷ right))
  unfolding start_cores core_loop
  start_cores-Runs {fd} zero t left right s jobs runs =
      ([], s, subst (λ js. Runs Holds fd 0 js s) (sym (append-nil jobs)) runs, refl, refl)
  start_cores-Runs {fd} (suc c) t left right s jobs runs =
      let p = part range_start range_end total size t in
      let (low, high) = part-fits range_start range_end total size t most in
      let (tid, s1, runs1, started) =
        start_thread-Runs slack os wire al local func worker left right s c jobs p.0 p.1 runs low
          high in
      let job : Job = (tid, p.0, p.1) in
      let (new, s2, runs2, ranges, ran) =
        start_cores-Runs c (t + 1) left right s1 (jobs ++ job ∷ []) runs1 in
      (
        job ∷ new,
        s2,
        subst (λ js. Runs Holds fd 0 js s2) (append_assoc jobs (job ∷ []) new) runs2,
        rw ranges,
        rw (started, ran),
      )

  -- Every core of every node gets a job, and the jobs of all nodes are the parts of the range in order.
  pub start_nodes-AllRun :
      {fds : List ℕ} (cores : List ℕ) (t : ℕ) (left nodes : Nodes (NodeEnd Host))
      → AllReady Holds fds cores nodes
      → (threads : List Rthread) × (nodes' : Nodes (NodeEnd Host)) × AllRun Holds
          (length left)
          fds
          (node_loop range_start range_end total size cores t)
          threads
          nodes'
        × (start_nodes slack
              (node_peer os wire)
              local
              range_start
              range_end
              total
              size
              cores
              (on_each func (length cores) (length left))
              (length left)
              t
              (left ++ nodes)
            ≡ some (threads, left ++ nodes'))
  unfolding start_nodes node_loop
  start_nodes-AllRun _ t left _ no_node_ready = ([], [], no_node, refl)
  start_nodes-AllRun _ t left _ (node_ready {fd} {c} {fds} {cores} {s} {nodes} runs ready) =
      let (jobs, s1, runs1, ranges, ran) = start_cores-Runs c t left nodes s [] runs in
      let left1 = left ++ s1 ∷ [] in
      let (threads, nodes2, all, ran2) = start_nodes-AllRun cores (t + c) left1 nodes ready in
      let here : length left1 ≡ length left + 1 = length-append left (s1 ∷ []) in
      let before : left1 ++ nodes ≡ left ++ s1 ∷ nodes = append_assoc left (s1 ∷ []) nodes in
      let after : left1 ++ nodes2 ≡ left ++ s1 ∷ nodes2 = append_assoc left (s1 ∷ []) nodes2 in
      (
        threads_of (length left) jobs ++ threads,
        s1 ∷ nodes2,
        subst
            (λ rs.
              AllRun Holds (length left) (fd ∷ fds)
                (rs ++ node_loop range_start range_end total size cores (t + c))
                (threads_of (length left) jobs ++ threads) (s1 ∷ nodes2))
            ranges
            (node jobs runs1 (
              subst
                (λ i.
                  AllRun Holds i fds (node_loop range_start range_end total size cores (t + c))
                    threads nodes2)
                here all)),
        rw (ran, ← before, ← here, ran2, after),
      )
