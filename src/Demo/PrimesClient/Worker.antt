-- ===== src/Demo/PrimesClient/Worker.antt =====
-- What the client relies on where a node runs its function: the node's threads, as `pthread_create` and
-- `pthread_join` give them, and the values that they take and return in the node's memory.
use dicon.Base.{
  ℕ, zero, suc, ◌+◌, ◌*◌, ◌<◌, ◌≤◌, ◌^◌, ◌≡◌, ◌≢◌, Option, some, List, [], ◌∷◌, ◌++◌, length,
}
use dicon.Wire.{Bytes, le_bytes}
use dicon.Memory.{Memory, load_bytes, store_bytes, allocate, free}
use dicon.Platform.{Platform, Process}
use dicon.Client.Transport.{Session}
use dicon.Client.Devices.{RvoidPtr, Rthread}
use dicon.Rpc.{NodeEnd, IsIdle}
use dicon.Demo.PrimesClient.{encode_args}

-- An array of `uint64_t`.
abbrev pub encode_words : List ℕ → Bytes
encode_words [] = []
encode_words (n ∷ ns) = le_bytes 8 n ++ encode_words ns

-- A thread that is not joined: its identity, and the range of its arguments.
abbrev pub Job : Type 0
Job = ℕ × ℕ × ℕ

abbrev pub ranges_of : List Job → List (ℕ × ℕ)
ranges_of [] = []
ranges_of ((tid, start, end) ∷ jobs) = (start, end) ∷ ranges_of jobs

abbrev pub threads_of : ℕ → List Job → List Rthread
threads_of device [] = []
threads_of device ((tid, start, end) ∷ jobs) =
    record { tid = tid; device = device } ∷ threads_of device jobs

-- `Holds p room jobs`: the process runs `jobs`, the oldest first, and has room for `room` more. The function
-- at `func` takes the address of a range and returns that of an array of its own, `task`'s, where that has at
-- most 2^30 bytes.
pub record Worker {Host : Type 0} (os : Platform Host) (task : ℕ → ℕ → Option (List ℕ)) (func : ℕ)
    (Holds : Process Host → ℕ → List Job → Type 0) : Type 0 where
  pub func_fits : func < 2 ^ 64
  pub started :
      (p : Process Host) (room : ℕ) (jobs : List Job) (start end : ℕ)
      → Holds p (suc room) jobs
      → start < 2 ^ 64
      → end < 2 ^ 64
      → (os.place p.memory 16 ≢ 0)
        × ((m : Memory)
            → store_bytes
                (encode_args start end)
                (os.place p.memory 16)
                (allocate os.junk (os.place p.memory 16) 16 p.memory)
              ≡ some m
            → (tid : ℕ) × (p' : Process Host) × (os.pthread_create func
                  (os.place p.memory 16)
                  (record p { memory = m })
                ≡ (tid, p'))
              × (tid < 2 ^ 64)
              × Holds p' room (jobs ++ (tid, start, end) ∷ []))
  pub joined :
      (p : Process Host) (room tid start end : ℕ) (jobs : List Job) (array : List ℕ)
      → Holds p room ((tid, start, end) ∷ jobs)
      → task start end ≡ some array
      → length array ≤ 2 ^ 27
      → (ret : ℕ) × (p' : Process Host) × (m : Memory) × (tid < 2 ^ 64)
        × (os.pthread_join tid p ≡ some (ret, p'))
        × (ret + 8 * length array < 2 ^ 64)
        × (load_bytes (8 * length array) ret p'.memory ≡ some (encode_words array))
        × (free ret p'.memory ≡ some m)
        × Holds (record p' { memory = m }) room jobs

-- An idle connection, on the descriptor `fd`, to a node that runs `jobs`.
pub record Runs {Host : Type 0} (Holds : Process Host → ℕ → List Job → Type 0) (fd room : ℕ)
    (jobs : List Job) (s : Session (NodeEnd Host)) : Type 0 where
  pub idle : IsIdle s
  pub open_ : s.conn.sockfd ≡ some fd
  pub held : Holds s.world.process room jobs

-- The nodes from `device` on run jobs with these ranges, in their order, on these threads.
pub data AllRun {Host : Type 0} (Holds : Process Host → ℕ → List Job → Type 0)
    : ℕ → List ℕ → List (ℕ × ℕ) → List Rthread → List (Session (NodeEnd Host)) → Type 0 where
  no_node : {device : ℕ} → AllRun Holds device [] [] [] []
  node :
      {device fd : ℕ} {fds : List ℕ} {s : Session (NodeEnd Host)} (jobs : List Job)
      {parts : List (ℕ × ℕ)} {threads : List Rthread} {nodes : List (Session (NodeEnd Host))}
      → Runs Holds fd 0 jobs s
      → AllRun Holds (device + 1) fds parts threads nodes
      → AllRun Holds device
          (fd ∷ fds)
          (ranges_of jobs ++ parts)
          (threads_of device jobs ++ threads)
          (s ∷ nodes)

-- The nodes have room for a thread on each core, and run none.
pub data AllReady {Host : Type 0} (Holds : Process Host → ℕ → List Job → Type 0)
    : List ℕ → List ℕ → List (Session (NodeEnd Host)) → Type 0 where
  no_node_ready : AllReady Holds [] [] []
  node_ready :
      {fd c : ℕ} {fds cores : List ℕ} {s : Session (NodeEnd Host)}
      {nodes : List (Session (NodeEnd Host))}
      → Runs Holds fd c [] s
      → AllReady Holds fds cores nodes
      → AllReady Holds (fd ∷ fds) (c ∷ cores) (s ∷ nodes)

-- The nodes' threads are all joined, and their connections are on these descriptors.
abbrev pub AllJoined :
    {Host : Type 0}
    → (Process Host → ℕ → List Job → Type 0)
    → List ℕ
    → List (Session (NodeEnd Host))
    → Type 0
AllJoined Holds [] [] = Unit
AllJoined Holds [] (s ∷ nodes) = ⊥
AllJoined Holds (fd ∷ fds) [] = ⊥
AllJoined Holds (fd ∷ fds) (s ∷ nodes) = Runs Holds fd 0 [] s × AllJoined Holds fds nodes

-- The function at `func` on each of `count` nodes.
abbrev pub on_each : (func count device : ℕ) → List RvoidPtr
on_each func zero device = []
on_each func (suc count) device =
    record { ptr = func; device = device } ∷ on_each func count (device + 1)
