-- ===== src/Wire.antt =====
-- Packed structures on the wire: little-endian fields, and reads from a buffer.
-- `__attribute__((__packed__))` leaves no padding, so a structure is its fields end to end.
pub mod Fields
use dicon.Base.{
  ℕ, zero, suc, ◌+◌, ◌*◌, ◌/◌, ◌%◌, Bool, true, false, Option, none, some, List, [], ◌∷◌,
}

abbrev pub Bytes : Type 0
Bytes = List ℕ

-- The bytes of an unsigned field of `w` bytes; a larger value is truncated, as by a C cast.
pub le_bytes : ℕ → ℕ → Bytes
le_bytes zero n = []
le_bytes (suc w) n = (n % 256) ∷ le_bytes w (n / 256)

-- A read of `w` bytes from the front of a buffer; `none` is an access past the end of it.
pub get_field : ℕ → Bytes → Option (ℕ × Bytes)
get_field zero bs = some (0, bs)
get_field (suc w) [] = none
get_field (suc w) (b ∷ bs) = elim (get_field w bs) [
  | none ↦ none
  | some (n, rest) ↦ some (b + 256 * n, rest)
]

-- `none` is a fault, such as a read past the end of a buffer.
infixl 5 ◌>>=◌ ◌>>◌
abbrev pub ◌>>=◌ {ℓ κ} : {A : Type ℓ} {B : Type κ} → Option A → (A → Option B) → Option B
none >>= f = none
some a >>= f = f a

abbrev pub ◌>>◌ {ℓ} : {B : Type ℓ} → Option (Unit {0}) → Option B → Option B
m >> k = m >>= λ _. k

abbrev pub guard : Bool → Option (Unit {0})
guard true = some tt
guard false = none
