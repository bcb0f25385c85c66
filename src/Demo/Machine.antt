-- ===== src/Demo/Machine.antt =====
-- A node that can load the file of demo/find-primes and has room for one thread, which it runs at the join.
pub mod Threads
use dicon.Base.{
  ℕ, zero, suc, ◌+◌, ◌*◌, ◌<◌, ◌≤◌, ◌^◌, ◌≡◌, ◌≢◌, refl, sym, ap, ◌∙◌, inr, Bool, Option, none,
  some, List, [], ◌∷◌, ◌++◌, arith, leb, leb→le, le→leb, length, length-append, All, ◌==◌,
  if◌then◌else◌,
}
use mathlib.Core.Path.{subst}
use dicon.Wire.{Bytes, le_bytes, get_field, ◌>>=◌}
use dicon.Wire.Fields.{length-le_bytes, get_field-le_bytes, get_field-le_bytes_all}
use dicon.Memory.{Memory, load_bytes, store_bytes, allocate, free}
use dicon.Memory.Access.{load_bytes-store_bytes, store_bytes-outside}
use dicon.Memory.Fresh.{store_bytes-fresh, allocate-outside}
use dicon.Platform.{Platform, Process, Allocates}
use dicon.Handlers.Reply.{c_string}
use dicon.Client.Transport.{Session}
use dicon.Rpc.{NodeEnd, node_peer, IsIdle}
use dicon.Rpc.Sample.{os-Allocates, empty, conn_to, wire}
use dicon.Demo.Primes.{IsSqrt}
use dicon.Demo.FindPrimes.{find_primes}
use dicon.Demo.FindPrimes.Collects.{Primes}
use dicon.Demo.PrimesClient.{encode_args, remote_name, main}
use dicon.Demo.PrimesClient.Worker.{Job, Worker, encode_words}
use dicon.Demo.PrimesClient.Start.{length-encode_args}
use dicon.Demo.PrimesClient.Load.{Loader, Starts}
use dicon.Demo.PrimesClient.Whole.{main-Primes}

abbrev pub le_sqrt : ℕ → ℕ → Bool
le_sqrt i n = leb (i * i) n

pub is_sqrt : IsSqrt le_sqrt
is_sqrt i n fits = (leb→le (i * i) n, le→leb (i * i) n)

abbrev pub junk : ℕ → ℕ
junk i = 170 + i

abbrev pub task : ℕ → ℕ → Option (List ℕ)
task = find_primes le_sqrt junk 202

-- The file that was written, and the range of the thread that waits.
pub record Machine : Type 0 where
  pub written : Option Bytes
  pub range : Option (ℕ × ℕ)

abbrev is_written : Option Bytes → ℕ
is_written none = 0
is_written (some file) = 1000

abbrev pub block_at : ℕ
block_at = 8192

abbrev pub decode_args : Option Bytes → Option (ℕ × ℕ)
decode_args none = none
decode_args (some bytes) = do
  (start, rest) ← get_field 8 bytes
  (end, rest') ← get_field 8 rest
  some (start, end)

abbrev return_array : Process Machine → Option (List ℕ) → Option (ℕ × Process Machine)
return_array p none = none
return_array p (some array) = do
  memory ←
      store_bytes (encode_words array) block_at
        (allocate junk block_at (length (encode_words array)) p.memory)
  some (block_at, record p { memory = memory })

unfoldable pub run_range : Process Machine → Option (ℕ × ℕ) → Option (ℕ × Process Machine)
run_range p none = none
run_range p (some (start, end)) = return_array p (task start end)

abbrev pub os : Platform Machine
os = record {
  place = dicon.Rpc.Sample.os.place;
  replace = λ m p n. p;
  junk = junk;
  slack = λ n. 0 ∷ 0 ∷ [];
  stale = λ p. 7;
  dlopen = λ path host. (is_written host.written, host);
  dlclose = λ handle host. host;
  dlsym = λ handle name host. handle + 77;
  read_file = λ path host. host.written;
  write_file = λ path file host. some (record host { written = some file });
  pthread_create = λ func arg p.
      (5, record p { host = record p.host { range = decode_args (load_bytes 16 arg p.memory) } });
  pthread_join = λ tid p. run_range p p.host.range;
}

pub machine-Allocates : Allocates os
machine-Allocates = record {
  unused = λ m n given q from to. os-Allocates.unused m n given q from to;
  addressable = λ m n given. os-Allocates.addressable m n given;
}

abbrev pub Fresh : Process Machine → ℕ → Type 0
Fresh p zero = ⊥
Fresh p (suc zero) = p.memory ≡ empty
Fresh p (suc (suc n)) = ⊥

-- The one thread, and nothing from `block_at` on.
abbrev pub Holds : Process Machine → ℕ → List Job → Type 0
Holds p zero [] = Unit
Holds p (suc zero) [] = p.memory ≡ empty
Holds p (suc (suc n)) [] = ⊥
Holds p zero ((tid, start, end) ∷ []) =
    (tid ≡ 5)
    × (p.host.range ≡ some (start, end))
    × ((q : ℕ) → block_at ≤ q → p.memory.cell q ≡ none)
Holds p zero (j ∷ j' ∷ jobs) = ⊥
Holds p (suc n) (j ∷ jobs) = ⊥

pub length-encode_words : (ns : List ℕ) → length (encode_words ns) ≡ 8 * length ns
length-encode_words [] = refl
length-encode_words (n ∷ ns) = omega (
  arith,
  length-append (le_bytes 8 n) (encode_words ns),
  length-le_bytes 8 n,
  length-encode_words ns,
)

pub decode_args-encode_args :
    (start end : ℕ)
    → start < 2 ^ 64
    → end < 2 ^ 64
    → decode_args (some (encode_args start end)) ≡ some (start, end)
unfolding encode_args
decode_args-encode_args start end low high = rw (
  get_field-le_bytes 8 start (le_bytes 8 end) (omega (arith, low)),
  get_field-le_bytes_all 8 end (omega (arith, high)),
)

abbrev pub file : Bytes
file = 1 ∷ 2 ∷ []

opened :
    (p : Process Machine) (room : ℕ)
    → Fresh p room
    → Holds (record p { host = record p.host { written = some file } }) room []
opened p zero fresh = absurd fresh
opened p (suc zero) fresh = fresh
opened p (suc (suc n)) fresh = absurd fresh

pub loader : Loader os file 1077 Holds Fresh
unfolding c_string
loader = record {
  path_granted = omega arith;
  nul_granted = refl;
  func_fits = omega arith;
  loads = λ p room fresh. (
    record p.host { written = some file },
    record p.host { written = some file },
    1000,
    refl,
    omega arith,
    refl,
    omega arith,
    refl,
    opened p room fresh,
  );
}
