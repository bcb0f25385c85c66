-- ===== src/Demo/PrimesClient/Assigned.antt =====
-- The work is assigned, run and collected.
use dicon.Base.{
  ℕ, suc, ◌+◌, ◌-◌, ◌<◌, ◌≤◌, ◌^◌, ◌≡◌, refl, sym, ap, Bool, false, some, List, [], ◌∷◌, arith,
  le→leb, lt→ltb, ◌==◌, length, length-append,
}
use mathlib.Core.Path.{subst}
use mathlib.Core.List.{flatten}
use dicon.Wire.{Bytes}
use dicon.Platform.{Platform, Process, Allocates}
use dicon.Client.Devices.{Rthread, Nodes}
use dicon.Rpc.{NodeEnd, Wire, node_peer}
use dicon.Demo.Primes.{IsSqrt}
use dicon.Demo.FindPrimes.{find_primes}
use dicon.Demo.FindPrimes.Collects.{Primes}
use dicon.Demo.Arrays.{Tiles-Arrays, Primes-length}
use dicon.Demo.Work.{total_cores, int_div, node_loop, assign_work}
use dicon.Demo.Work.Tiles.{Tiles, sum, total_cores-sum, assign_work-Tiles}
use dicon.Demo.PrimesClient.{collect, work}
use dicon.Demo.PrimesClient.Worker.{
  Job, Worker, AllReady, AllJoined, AllRun, no_node, node, on_each, ranges_of, threads_of,
  encode_words,
}
use dicon.Demo.PrimesClient.StartAll.{start_nodes-AllRun}
use dicon.Demo.PrimesClient.CollectAll.{collect-AllRun}

length-threads_of :
    (device : ℕ) (jobs : List Job) → length (threads_of device jobs) ≡ length (ranges_of jobs)
length-threads_of device [] = refl
length-threads_of device (j ∷ jobs) = ap suc (length-threads_of device jobs)

AllRun-length :
    {Host : Type 0} {Holds : Process Host → ℕ → List Job → Type 0} {device : ℕ} {fds : List ℕ}
    {parts : List (ℕ × ℕ)} {threads : List Rthread} {nodes : Nodes (NodeEnd Host)}
    → AllRun Holds device fds parts threads nodes
    → length threads ≡ length parts
AllRun-length no_node = refl
AllRun-length {device} (node jobs {parts} {threads} runs all) = omega (
  arith,
  length-append (threads_of device jobs) threads,
  length-append (ranges_of jobs) parts,
  length-threads_of device jobs,
  AllRun-length all,
)

-- What `assign_work` returns is what the loops start.
node_loop-Tiles :
    (range_start range_end : ℕ) (cores : List ℕ)
    → 0 < sum cores
    → sum cores < 2 ^ 31
    → 1 ≤ range_start
    → range_start ≤ range_end
    → range_end < 2 ^ 31
    → let parts =
        node_loop range_start range_end
          (total_cores cores)
          (int_div (range_end - range_start) (total_cores cores))
          cores
          0 in
      (length parts ≡ sum cores) × Tiles range_end range_start parts
unfolding assign_work
node_loop-Tiles range_start range_end cores some_core few least ordered most =
    let (parts, assigned, count, tiles) =
      assign_work-Tiles range_start range_end cores some_core few least ordered most in
    let positive : (total_cores cores == 0) ≡ false =
      ground (arith, total_cores-sum cores few, some_core) in
    let loop =
      node_loop range_start range_end (total_cores cores)
        (int_div (range_end - range_start) (total_cores cores)) cores 0 in
    let started : some loop ≡ some parts = rw (← assigned, positive) refl in
    let same : loop ≡ parts = cc in (rw same count, rw same tiles)

module _ {Host : Type 0} (slack : ℕ → Bytes) (os : Platform Host) (wire : Wire) (al : Allocates os)
    (local : ℕ → Bytes) (sized : (n : ℕ) → length (local n) ≡ n) (le_sqrt : ℕ → ℕ → Bool)
    (is_sqrt : IsSqrt le_sqrt) (junk : ℕ → ℕ) (k func : ℕ)
    {Holds : Process Host → ℕ → List Job → Type 0}
    (worker : Worker os (find_primes le_sqrt junk k) func Holds) where
  -- The client gets the primes of the range, and no node has a thread left.
  pub work-Primes :
      {fds : List ℕ} (range_start range_end : ℕ) (cores : List ℕ) (nodes : Nodes (NodeEnd Host))
      → AllReady Holds fds cores nodes
      → 0 < sum cores
      → sum cores < 2 ^ 31
      → 1 ≤ range_start
      → range_start ≤ range_end
      → range_end < 2 ^ 31
      → range_end + 1 < 2 ^ 27 + range_start
      → range_end + 2 ≤ range_start + k
      → (ps : List ℕ) × (nodes' : Nodes (NodeEnd Host)) × Primes range_end range_start ps
        × AllJoined Holds fds nodes'
        × (work slack
              (node_peer os wire)
              local
              range_start
              range_end
              cores
              (on_each func (length cores) 0)
              nodes
            ≡ some ((length ps, encode_words ps), nodes'))
  unfolding work
  work-Primes range_start range_end cores nodes ready some_core few least ordered most short
        rounds =
      let total = total_cores cores in
      let size = int_div (range_end - range_start) total in
      let parts = node_loop range_start range_end total size cores 0 in
      let is_total : total ≡ sum cores = total_cores-sum cores few in
      let (count, tiles) =
        node_loop-Tiles range_start range_end cores some_core few least ordered most in
      let (pss, arrays, primes, blocks) =
        Tiles-Arrays le_sqrt is_sqrt junk k range_end most (omega arith) range_start parts tiles
          short rounds (omega arith) in
      let (threads, nodes1, all, started) =
        start_nodes-AllRun slack os wire al local func worker range_start range_end total size most
          cores 0 [] nodes ready in
      let bound = Primes-length primes in
      let (nodes2, idle, collected) =
        collect-AllRun slack os wire local sized func worker [] nodes1 0 threads parts pss 0 [] refl
          all arrays (omega (arith, bound, short)) in
      let positive : (total == 0) ≡ false = ground (arith, is_total, some_core) in
      let positive_int = lt→ltb total (2 ^ 31) (omega (arith, is_total, few)) in
      let room =
        le→leb (length threads) total (omega (arith, AllRun-length all, count, is_total)) in
      let each : total ≡ length pss = omega (arith, blocks, count, is_total) in
      let collected' : collect slack (node_peer os wire) local total threads 0 [] nodes1
          ≡ some ((0 + length (flatten pss), encode_words (flatten pss)), nodes2) =
        subst
          (λ n.
            collect slack (node_peer os wire) local n threads 0 [] nodes1
            ≡ some ((0 + length (flatten pss), encode_words (flatten pss)), nodes2))
          (sym each) collected in
      (
        flatten pss,
        nodes2,
        primes,
        idle,
        rw (positive, positive_int, started, room, collected')
            (ap (λ n. some ((n, encode_words (flatten pss)), nodes2)) (omega arith)),
      )
