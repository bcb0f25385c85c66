-- ===== src/Demo/Machine/Threads.antt =====
-- The thread of that node does what the client relies on.
use dicon.Base.{
  ℕ, zero, suc, ◌+◌, ◌*◌, ◌<◌, ◌≤◌, ◌^◌, ◌≡◌, ◌≢◌, refl, sym, ap, ◌∙◌, inr, none, some, List, [],
  ◌∷◌, ◌++◌, arith, length,
}
use mathlib.Core.Path.{subst}
use dicon.Memory.{Memory, load_bytes, store_bytes, allocate, free}
use dicon.Memory.Access.{load_bytes-store_bytes, store_bytes-outside}
use dicon.Memory.Fresh.{store_bytes-fresh, allocate-outside}
use dicon.Platform.{Process}
use dicon.Rpc.Sample.{empty}
use dicon.Demo.PrimesClient.{encode_args}
use dicon.Demo.PrimesClient.Worker.{Job, Worker, encode_words}
use dicon.Demo.PrimesClient.Start.{length-encode_args}
use dicon.Demo.Machine.{
  junk, task, Machine, block_at, decode_args, run_range, os, Holds, length-encode_words,
  decode_args-encode_args,
}

-- The cells from `block_at` on are free where only the arguments are stored.
beyond_args :
    (start end : ℕ) (m : Memory) (q : ℕ)
    → store_bytes (encode_args start end) 4096 (allocate junk 4096 16 empty) ≡ some m
    → block_at ≤ q
    → m.cell q ≡ none
beyond_args start end m q stored from =
    store_bytes-outside (encode_args start end) 4096 (allocate junk 4096 16 empty) q
      (inr (omega (arith, from, length-encode_args start end))) stored
    ∙ allocate-outside junk 4096 16 empty q (inr (omega (arith, from)))

-- What `Worker` asks of a start on a process with this memory.
abbrev StartsOne : Machine → (start end : ℕ) → Memory → Type 0
StartsOne host start end memory =
    (os.place memory 16 ≢ 0)
    × ((m : Memory)
        → store_bytes (encode_args start end) (os.place memory 16)
            (allocate os.junk (os.place memory 16) 16 memory)
          ≡ some m
        → (tid : ℕ) × (p' : Process Machine) × (os.pthread_create 1077 (os.place memory 16)
              (record { memory = m; host = host })
            ≡ (tid, p'))
          × (tid < 2 ^ 64)
          × Holds p' 0 ((tid, start, end) ∷ []))

started_empty :
    (host : Machine) (start end : ℕ)
    → start < 2 ^ 64
    → end < 2 ^ 64
    → StartsOne host start end empty
started_empty host start end low high = (
  λ null. omega (arith, null),
  λ m stored.
      let size = length-encode_args start end in
      let loaded : load_bytes 16 4096 m ≡ some (encode_args start end) =
        subst (λ n. load_bytes n 4096 m ≡ some (encode_args start end)) size
          (load_bytes-store_bytes (encode_args start end) 4096 (allocate junk 4096 16 empty)
            stored) in
      (
        5,
        _,
        refl,
        omega arith,
        (
          refl,
          ap decode_args loaded ∙ decode_args-encode_args start end low high,
          λ q from. beyond_args start end m q stored from,
        ),
      ),
)

started_of :
    (p : Process Machine) (room : ℕ) (jobs : List Job) (start end : ℕ)
    → Holds p (suc room) jobs
    → start < 2 ^ 64
    → end < 2 ^ 64
    → (os.place p.memory 16 ≢ 0)
      × ((m : Memory)
          → store_bytes
              (encode_args start end)
              (os.place p.memory 16)
              (allocate os.junk (os.place p.memory 16) 16 p.memory)
            ≡ some m
          → (tid : ℕ) × (p' : Process Machine) × (os.pthread_create 1077
                (os.place p.memory 16)
                (record p { memory = m })
              ≡ (tid, p'))
            × (tid < 2 ^ 64)
            × Holds p' room (jobs ++ (tid, start, end) ∷ []))
started_of p zero [] start end held low high =
    subst (StartsOne p.host start end) (sym held) (started_empty p.host start end low high)
started_of p zero (j ∷ jobs) start end held low high = absurd held
started_of p (suc n) [] start end held low high = absurd held
started_of p (suc n) (j ∷ jobs) start end held low high = absurd held

joined_of :
    (p : Process Machine) (room tid start end : ℕ) (jobs : List Job) (array : List ℕ)
    → Holds p room ((tid, start, end) ∷ jobs)
    → task start end ≡ some array
    → length array ≤ 2 ^ 27
    → (ret : ℕ) × (p' : Process Machine) × (m : Memory) × (tid < 2 ^ 64)
      × (os.pthread_join tid p ≡ some (ret, p'))
      × (ret + 8 * length array < 2 ^ 64)
      × (load_bytes (8 * length array) ret p'.memory ≡ some (encode_words array))
      × (free ret p'.memory ≡ some m)
      × Holds (record p' { memory = m }) room jobs
unfolding run_range
joined_of p zero tid start end [] array (is_five, range, beyond) computed small =
    let size = length-encode_words array in
    let (m1, m2, stored, freed, same) =
      store_bytes-fresh junk block_at (encode_words array) p.memory (omega arith)
        (λ q from to. beyond q from) in
    (
      block_at,
      record p { memory = m1 },
      m2,
      omega (arith, is_five),
      rw (range, computed, stored),
      omega (arith, small),
      subst (λ n. load_bytes n block_at m1 ≡ some (encode_words array)) size
          (load_bytes-store_bytes (encode_words array) block_at
            (allocate junk block_at (length (encode_words array)) p.memory) stored),
      freed,
      tt,
    )
joined_of p zero tid start end (j ∷ jobs) array held computed small = absurd held
joined_of p (suc n) tid start end jobs array held computed small = absurd held

pub worker : Worker os task 1077 Holds
worker = record { func_fits = omega arith; started = started_of; joined = joined_of }
