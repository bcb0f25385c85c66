-- ===== src/Demo/PrimesClient/CollectAll.antt =====
-- The loop that collects: every thread of every node is joined, and nothing that it returned is left.
use dicon.Base.{
  ℕ, ◌+◌, ◌%◌, ◌<◌, ◌^◌, ◌≡◌, refl, sym, ap, ◌∙◌, Option, some, List, [], ◌∷◌, ◌++◌, arith, length,
  length-append, append_assoc, append-nil,
}
use mathlib.Core.List.{flatten}
use dicon.Wire.{Bytes, le_bytes}
use dicon.Platform.{Platform, Process}
use dicon.Client.Transport.{Session}
use dicon.Client.Devices.{Rthread, Nodes}
use dicon.Rpc.{NodeEnd, Wire, node_peer}
use dicon.Demo.Arrays.{Arrays, no_array, array}
use dicon.Demo.PrimesClient.{collect}
use dicon.Demo.PrimesClient.Worker.{
  Job, Worker, Runs, AllRun, AllJoined, no_node, node, ranges_of, threads_of, encode_words,
}
use dicon.Demo.PrimesClient.Collect.{collect_thread-Runs}

encode_words-append :
    (ps qs : List ℕ) → encode_words (ps ++ qs) ≡ encode_words ps ++ encode_words qs
encode_words-append [] qs = refl
encode_words-append (p ∷ ps) qs =
    rw (encode_words-append ps qs, append_assoc (le_bytes 8 p) (encode_words ps) (encode_words qs))

module _ {Host : Type 0} (slack : ℕ → Bytes) (os : Platform Host) (wire : Wire) (local : ℕ → Bytes)
    (sized : (n : ℕ) → length (local n) ≡ n) {task : ℕ → ℕ → Option (List ℕ)} (func : ℕ)
    {Holds : Process Host → ℕ → List Job → Type 0} (worker : Worker os task func Holds) where
  -- The rounds of the loop that collect from one node.
  collect-Runs :
      {fd : ℕ} (jobs : List Job) (left right : Nodes (NodeEnd Host)) (s : Session (NodeEnd Host))
      (threads : List Rthread) {parts : List (ℕ × ℕ)} (pss : List (List ℕ)) (total : ℕ)
      (arrs : Bytes)
      → Runs Holds fd 0 jobs s
      → Arrays task (ranges_of jobs ++ parts) pss
      → total + length (flatten pss) < 2 ^ 32
      → (s' : Session (NodeEnd Host)) × (pss' : List (List ℕ)) × (total' : ℕ) × (arrs' : Bytes)
        × Runs Holds fd 0 [] s'
        × Arrays task parts pss'
        × (collect slack
              (node_peer os wire)
              local
              (length pss)
              (threads_of (length left) jobs ++ threads)
              total
              arrs
              (left ++ s ∷ right)
            ≡ collect slack
                (node_peer os wire)
                local
                (length pss')
                threads
                total'
                arrs'
                (left ++ s' ∷ right))
        × (total' + length (flatten pss') ≡ total + length (flatten pss))
        × (arrs' ++ encode_words (flatten pss') ≡ arrs ++ encode_words (flatten pss))
  unfolding collect flatten
  collect-Runs [] left right s threads pss total arrs runs arrays fits =
      (s, pss, total, arrs, runs, arrays, refl, refl, refl)
  collect-Runs (j ∷ jobs) left right s threads _ total arrs runs
        (array {ps} {pss} computed few arrays) fits =
      let (s1, runs1, got) =
        collect_thread-Runs slack os wire local sized func worker left right s 0 j.0 j.1 j.2 jobs ps
          runs computed few in
      let sizes = length-append ps (flatten pss) in
      let (s2, pss2, total2, arrs2, runs2, arrays2, ran, sums, bytes) =
        collect-Runs jobs left right s1 threads pss (total + length ps) (arrs ++ encode_words ps)
          runs1 arrays (omega (arith, fits, sizes)) in
      let wrap : (total + length ps) % 2 ^ 32 ≡ total + length ps = omega (arith, fits, sizes) in
      (
        s2,
        pss2,
        total2,
        arrs2,
        runs2,
        arrays2,
        rw (got, wrap) ran,
        omega (arith, sums, sizes),
        bytes
            ∙ append_assoc arrs (encode_words ps) (encode_words (flatten pss))
            ∙ ap (λ bs. arrs ++ bs) (sym (encode_words-append ps (flatten pss))),
      )

  -- The loop as a whole: the sum, the elements of all arrays, and nodes that run nothing.
  pub collect-AllRun :
      {fds : List ℕ} (left nodes : Nodes (NodeEnd Host)) (device : ℕ) (threads : List Rthread)
      (parts : List (ℕ × ℕ)) (pss : List (List ℕ)) (total : ℕ) (arrs : Bytes)
      → device ≡ length left
      → AllRun Holds device fds parts threads nodes
      → Arrays task parts pss
      → total + length (flatten pss) < 2 ^ 32
      → (nodes' : Nodes (NodeEnd Host)) × AllJoined Holds fds nodes'
        × (collect slack (node_peer os wire) local (length pss) threads total arrs (left ++ nodes)
            ≡ some (
              (total + length (flatten pss), arrs ++ encode_words (flatten pss)),
              left ++ nodes',
            ))
  unfolding collect flatten
  collect-AllRun left _ device _ _ _ total arrs is no_node no_array fits = (
    [],
    tt,
    ap (λ n. some ((n, arrs), left ++ [])) (omega arith)
        ∙ ap (λ bs. some ((total + 0, bs), left ++ [])) (sym (append-nil arrs)),
  )
  collect-AllRun left _ device _ _ pss total arrs is
        (node {s} jobs {parts} {threads} {nodes} runs all) arrays fits =
      let (s1, pss1, total1, arrs1, runs1, arrays1, ran, sums, bytes) =
        collect-Runs jobs left nodes s threads pss total arrs runs arrays fits in
      let left1 = left ++ s1 ∷ [] in
      let here : device + 1 ≡ length left1 = omega (arith, is, length-append left (s1 ∷ [])) in
      let (nodes2, idle, ran2) =
        collect-AllRun left1 nodes (device + 1) threads parts pss1 total1 arrs1 here all arrays1
          (omega (arith, sums, fits)) in
      let before : left1 ++ nodes ≡ left ++ s1 ∷ nodes = append_assoc left (s1 ∷ []) nodes in
      let after : left1 ++ nodes2 ≡ left ++ s1 ∷ nodes2 = append_assoc left (s1 ∷ []) nodes2 in
      (s1 ∷ nodes2, (runs1, idle), rw (is, ran, ← before, ran2, sums, bytes, after))
