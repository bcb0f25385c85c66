-- ===== src/Checksum.antt =====
-- common/src/so_operations.c: the checksum of a file, given its bytes.
mod Runs
pub mod Chunks
use Prim.Native.Nat.{bit_xor}
use dicon.Base.{
  ℕ, zero, suc, ◌+◌, ◌*◌, ◌/◌, ◌%◌, ◌^◌, Option, none, some, List, [], ◌∷◌, length, take, drop,
}
use dicon.Wire.{Bytes}

-- `(sum << 1) | (sum >> 63)` on 64 bits; the two parts share no bit.
abbrev rotate : ℕ → ℕ
rotate sum = sum * 2 % 2 ^ 64 + sum / 2 ^ 63

abbrev pub add_byte : ℕ → ℕ → ℕ
add_byte sum b = bit_xor (rotate sum) b

-- The loop over one buffer.
pub add_buffer : ℕ → Bytes → ℕ
add_buffer sum [] = sum
add_buffer sum (b ∷ bs) = add_buffer (add_byte sum b) bs

abbrev pub buffer_size : ℕ
buffer_size = 4096

-- The loop over the buffers: each `fread` takes up to `size` bytes of what is left of the file, and the
-- loop ends when it takes none. The first argument counts the rounds that are left.
pub checksum_loop : ℕ → ℕ → ℕ → Bytes → Option ℕ
checksum_loop size zero sum file = none
checksum_loop size (suc rounds) sum [] = some sum
checksum_loop size (suc rounds) sum (b ∷ bs) =
    checksum_loop size rounds (add_buffer sum (take size (b ∷ bs))) (drop size (b ∷ bs))

-- `none` for the file where `fopen` fails; the checksum is 0 then.
pub dic_checksum : Option Bytes → Option ℕ
dic_checksum none = some 0
dic_checksum (some file) = checksum_loop buffer_size (suc (length file)) 0 file
