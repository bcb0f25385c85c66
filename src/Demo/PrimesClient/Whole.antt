-- ===== src/Demo/PrimesClient/Whole.antt =====
-- demo/find-primes/main.c as a whole, on the client and on its nodes.
use dicon.Base.{ℕ, ◌+◌, ◌<◌, ◌≤◌, ◌^◌, ◌≡◌, refl, Bool, some, List, [], length}
use dicon.Wire.{Bytes}
use dicon.Platform.{Platform, Process, Allocates}
use dicon.Client.Devices.{Nodes}
use dicon.Rpc.{NodeEnd, Wire, node_peer}
use dicon.Demo.Primes.{IsSqrt}
use dicon.Demo.FindPrimes.{find_primes}
use dicon.Demo.FindPrimes.Collects.{Primes}
use dicon.Demo.Work.Tiles.{sum}
use dicon.Demo.PrimesClient.{remote_name, main}
use dicon.Demo.PrimesClient.Worker.{Job, Worker, encode_words}
use dicon.Demo.PrimesClient.Load.{Loader, AllFresh, load_objects-AllLoaded}
use dicon.Demo.PrimesClient.Lookup.{load_functions-AllReady}
use dicon.Demo.PrimesClient.Unload.{close_all, AllClosed, unload_objects-AllClosed}
use dicon.Demo.PrimesClient.Assigned.{work-Primes}

-- The program finds what one loop over the whole range would, whatever nodes there are, however many cores
-- each has and however TCP cuts the messages: it uploads its shared object, starts a thread on each core,
-- joins them all, unloads the object and destroys the connections. `primes_total` is the number of primes
-- of the range, and what is copied back, in the threads' order, is these primes in order, none twice, as
-- 64-bit words. At the end each node has closed the handle that its loader gave for the uploaded file, when
-- no thread was left there, each connection is closed, and of the client's descriptors those of the
-- connections are closed and no others. The conditions on the nodes: the connections to them are idle;
-- their allocators give free addressable blocks, and grant the bytes that loading an object and a function
-- takes beyond its blocks; their loaders open the file that is written to them and find the function, whose
-- threads run `find_primes` (`Loader`, `Worker`); and each has room for a thread on each of its cores. The
-- others: the C library's `sqrt` is rounded correctly, there is a core, there are fewer than 2^31, the
-- range starts at 1 or later, ends below 2^31 and has fewer than 2^27 numbers, the file is shorter than
-- 2^29 bytes, the client's blocks have the sizes that they are asked for, its allocator grants a byte
-- behind the request of `dic_func_load`, and the loop of a thread is given a round more than there are
-- numbers.
pub main-Primes :
    {Host : Type 0} (slack : ℕ → Bytes) (os : Platform Host) (wire : Wire) (local : ℕ → Bytes)
    (le_sqrt : ℕ → ℕ → Bool) (junk : ℕ → ℕ) (k func range_start range_end : ℕ) (file : Bytes)
    (fds cores open_fds : List ℕ) (nodes : Nodes (NodeEnd Host))
    {Holds : Process Host → ℕ → List Job → Type 0} {Fresh : Process Host → ℕ → Type 0}
    → Allocates os
    → ((n : ℕ) → length (local n) ≡ n)
    → IsSqrt le_sqrt
    → Worker os (find_primes le_sqrt junk k) func Holds
    → Loader os file func Holds Fresh
    → length file < 2 ^ 29
    → 1 ≤ length (slack (8 + (12 + length remote_name)))
    → AllFresh Fresh fds cores nodes
    → 0 < sum cores
    → sum cores < 2 ^ 31
    → 1 ≤ range_start
    → range_start ≤ range_end
    → range_end < 2 ^ 31
    → range_end + 1 < 2 ^ 27 + range_start
    → range_end + 2 ≤ range_start + k
    → (ps : List ℕ) × (nodes' : Nodes (NodeEnd Host)) × Primes range_end range_start ps
      × AllClosed os file Holds nodes nodes'
      × (main slack (node_peer os wire) local range_start range_end (some file) cores open_fds nodes
          ≡ some (((length ps, encode_words ps), close_all fds open_fds), nodes'))
unfolding main
main-Primes slack os wire local le_sqrt junk k func range_start range_end file fds cores open_fds
      nodes al sized is_sqrt worker loader small granted fresh some_core few least ordered most
      short rounds =
    let (handles, nodes1, all, uploads) =
      load_objects-AllLoaded slack os wire local file func loader small fds cores [] nodes 0 refl
        fresh in
    let (nodes2, ready, finds) =
      load_functions-AllReady slack os wire local file func loader small [] refl granted all in
    let (ps, nodes3, primes, runs, works) =
      work-Primes slack os wire al local sized le_sqrt is_sqrt junk k func worker range_start
        range_end cores nodes2 ready some_core few least ordered most short rounds in
    let (nodes4, closed, unloads) =
      unload_objects-AllClosed slack os wire local file func loader small [] nodes3 open_fds refl
        all runs in
    (ps, nodes4, primes, closed, rw (uploads, finds, works, unloads))
