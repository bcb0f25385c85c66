-- ===== src/Platform.antt =====
-- What the node takes from its platform: the allocator's choices, the dynamic loader, files and threads.
-- None of this is code of the repository; it is an argument of the handlers.
use dicon.Base.{ℕ, ◌+◌, ◌<◌, ◌≤◌, ◌^◌, ◌≡◌, ◌≢◌, Option, none}
use dicon.Wire.{Bytes}
use dicon.Memory.{Memory}

-- The process of the node: the memory that its clients work on, and all else.
pub record Process (Host : Type 0) : Type 0 where
  pub memory : Memory
  pub host : Host

pub record Platform (Host : Type 0) : Type 0 where
  -- the address that `malloc(n)` returns, and `realloc(p, n)`; 0 is NULL
  pub place : Memory → ℕ → ℕ
  pub replace : Memory → ℕ → ℕ → ℕ
  -- what a new block holds at an address
  pub junk : ℕ → ℕ
  -- the bytes that the allocator grants behind a request of `n` bytes, by rounding it up
  pub slack : ℕ → Bytes
  -- what an `int32_t` of a new block holds
  pub stale : Process Host → ℕ
  pub dlopen : Bytes → Host → ℕ × Host
  pub dlclose : ℕ → Host → Host
  pub dlsym : ℕ → Bytes → Host → ℕ
  -- the contents of a file; `none` where it cannot be opened
  pub read_file : Bytes → Host → Option Bytes
  pub write_file : Bytes → Bytes → Host → Option Host
  -- the thread may work on the memory; `none` where `pthread_join` does not return
  pub pthread_create : ℕ → ℕ → Process Host → ℕ × Process Host
  pub pthread_join : ℕ → Process Host → Option (ℕ × Process Host)

-- What `malloc` guarantees of a block that it grants: the block is not in use and is addressable.
pub record Allocates {Host : Type 0} (os : Platform Host) : Type 0 where
  pub unused :
      (m : Memory) (n : ℕ)
      → os.place m n ≢ 0
      → (q : ℕ) → os.place m n ≤ q
      → q < os.place m n + n
      → m.cell q ≡ none
  pub addressable : (m : Memory) (n : ℕ) → os.place m n ≢ 0 → os.place m n + n < 2 ^ 64
