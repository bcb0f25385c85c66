-- ===== src/Rpc/Sample.antt =====
-- A node to run: an allocator with one block, a loader and threads that answer by fixed rules, and a
-- connection that carries one byte in a segment.
use dicon.Base.{
  ℕ, zero, suc, ◌+◌, ◌<◌, ◌≤◌, ◌^◌, ◌≡◌, ◌≢◌, ◌⊎◌, refl, ap, Bool, true, false, ◌&&◌, Bool-cases,
  inl, inr, Option, none, some, List, [], ◌∷◌, arith, ltb, ◌==◌, if◌then◌else◌, length,
}
use dicon.Wire.{Bytes}
use dicon.Memory.{Memory, allocate}
use dicon.Socket.{Conn}
use dicon.Socket.Recv.{stream}
use dicon.Socket.Open.{IsOpen}
use dicon.Platform.{Platform, Allocates}
use dicon.Client.Transport.{Session}
use dicon.Rpc.{NodeEnd, Wire, IsIdle}

abbrev is_none : Option ℕ → Bool
is_none none = true
is_none (some b) = false

is_none_cases : (o : Option ℕ) → ((is_none o ≡ true) × (o ≡ none)) ⊎ (is_none o ≡ false)
is_none_cases none = inl (refl, refl)
is_none_cases (some b) = inr refl

abbrev all_free : ℕ → ℕ → Memory → Bool
all_free zero p m = true
all_free (suc n) p m = let rest = all_free n (p + 1) m in is_none (m.cell p) && rest

abbrev pub block_start : ℕ
block_start = 4096

-- The block at `b`, where it is free.
abbrev pub first_fit : ℕ → Memory → ℕ → ℕ
first_fit b m n = if all_free n b m && ltb n (2 ^ 32) then b else 0

abbrev pub os : Platform (List Bytes)
os = record {
  place = first_fit block_start;
  replace = λ m p n. p;
  junk = λ q. 170;
  slack = λ n. 0 ∷ 0 ∷ [];
  stale = λ p. 7;
  dlopen = λ path host. (1000 + length path, path ∷ host);
  dlclose = λ handle host. [];
  dlsym = λ handle name host. handle + length name;
  read_file = λ path host. some path;
  write_file = λ path file host. some (file ∷ path ∷ host);
  pthread_create = λ func arg p. (func + arg, p);
  pthread_join = λ tid p. some (tid + 1, p);
}

all_free-unused :
    (n p : ℕ) (m : Memory) → all_free n p m ≡ true → (q : ℕ) → p ≤ q → q < p + n → m.cell q ≡ none
all_free-unused zero p m free q from to = ground arith
all_free-unused (suc n) p m free q from to = elim (is_none_cases (m.cell p)) [
  | inl (free_here, gone) ↦ elim (Bool-cases (q == p)) [
    | inl here ↦ let same : q ≡ p = ground (arith, here) in rw (same, gone)
    | inr later ↦
        all_free-unused n (p + 1) m (ground (arith, free, free_here)) q (ground (arith, later))
          (omega arith)
  ]
  | inr taken ↦ absurd (ground (arith, free, taken))
]

first_fit-cases :
    (b : ℕ) (m : Memory) (n : ℕ)
    → ((all_free n b m ≡ true) × (n < 2 ^ 32) × (first_fit b m n ≡ b)) ⊎ (first_fit b m n ≡ 0)
first_fit-cases b m n = ground arith

pub fitted :
    (b : ℕ) (m : Memory) (n : ℕ)
    → first_fit b m n ≢ 0
    → (q : ℕ) → first_fit b m n ≤ q
    → q < first_fit b m n + n
    → m.cell q ≡ none
fitted b m n given q from to = elim (first_fit-cases b m n) [
  | inl (free, small, start) ↦ all_free-unused n b m free q (rw start at from) (rw start at to)
  | inr null ↦ absurd (given null)
]

pub placed :
    (b : ℕ) (m : Memory) (n : ℕ) → b ≤ 2 ^ 32 → first_fit b m n ≢ 0 → first_fit b m n + n < 2 ^ 64
placed b m n low given = elim (first_fit-cases b m n) [
  | inl (free, small, start) ↦ rw start (omega arith)
  | inr null ↦ absurd (given null)
]

pub os-Allocates : Allocates os
os-Allocates = record {
  unused = λ m n given q from to. fitted block_start m n given q from to;
  addressable = λ m n given. placed block_start m n (omega arith) given;
}

abbrev bytewise : Bytes → List Bytes
bytewise [] = []
bytewise (b ∷ bs) = (b ∷ []) ∷ bytewise bs

pub stream-bytewise : (bytes : Bytes) → stream (bytewise bytes) ≡ bytes
stream-bytewise [] = refl
stream-bytewise (b ∷ bs) = ap (λ t. b ∷ t) (stream-bytewise bs)

pub bytewise-IsOpen : (bytes : Bytes) → IsOpen (bytewise bytes)
bytewise-IsOpen [] = tt
bytewise-IsOpen (b ∷ bs) = ((λ e. cc), bytewise-IsOpen bs)

abbrev pub wire : Wire
wire = record { cut = bytewise; whole = stream-bytewise; no_end = bytewise-IsOpen }

abbrev pub conn_to : ℕ → Conn
conn_to fd = record {
  sockfd = some fd;
  queue_len = 0;
  port = 4224;
  ip = record { family = 2; ipv4 = 16777343; ipv6_tail = [] };
  incoming = [];
  sent = [];
}

abbrev pub empty : Memory
empty = record { cell = λ q. none; block = λ p. none }

-- A node with no block, and one with a block of 4 bytes.
abbrev pub session : Memory → Session (NodeEnd (List Bytes))
session m = record {
  conn = conn_to 3;
  world = record { conn = conn_to 4; process = record { memory = m; host = [] } };
}

abbrev pub four_bytes : Memory
four_bytes = allocate (λ q. 170) block_start 4 empty

pub session-IsIdle : (m : Memory) → IsIdle (session m)
session-IsIdle m = record {
  client_fd = 3;
  client_open = refl;
  client_done = refl;
  node_fd = 4;
  node_open = refl;
  node_done = refl;
}
