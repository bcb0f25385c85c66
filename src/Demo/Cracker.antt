-- ===== src/Demo/Cracker.antt =====
-- demo/hash-cracker/cracker.c, which the nodes run: it tries the strings of a range of indices.
pub mod Strings
pub mod Search
use dicon.Base.{
  ℕ, zero, suc, ◌+◌, ◌-◌, ◌/◌, ◌%◌, ◌^◌, Bool, true, false, ◌&&◌, Option, none, some, List, [], ◌∷◌,
  ◌++◌, leb, ltb, ◌==◌, if◌then◌else◌,
}
use dicon.Wire.{Bytes, ◌>>=◌}

abbrev pub max_len : ℕ
max_len = 6

abbrev pub charset_len : ℕ
charset_len = 36

-- CHARSET: the letters, then the digits.
unfoldable pub charset : ℕ → ℕ
charset d = if ltb d 26 then 97 + d else 48 + (d - 26)

-- The `length` characters that the loop writes, from the last one on, and the NUL.
unfoldable pub characters : (length : ℕ) → ℕ → Bytes
unfolding charset
characters zero index = []
characters (suc length) index =
    characters length (index / charset_len) ++ charset (index % charset_len) ∷ []

unfoldable pub index_to_string : ℕ → (length : ℕ) → Bytes
unfolding characters
index_to_string index length = characters length index ++ 0 ∷ []

-- Comparing two hashes.
abbrev pub same_bytes : Bytes → Bytes → Bool
same_bytes [] [] = true
same_bytes [] (b ∷ bs) = false
same_bytes (a ∷ as_) [] = false
same_bytes (a ∷ as_) (b ∷ bs) = (a == b) && same_bytes as_ bs

-- `strcpy` of an array; `none` where it has no NUL.
abbrev pub strcpy : Bytes → Option Bytes
strcpy [] = none
strcpy (c ∷ cs) = if c == 0 then some (0 ∷ []) else (do copied ← strcpy cs; some (c ∷ copied))

-- `md5` is the library's; it hashes the string without its NUL.
module _ (md5 : Bytes → Bytes) (target_hash : Bytes) where
  abbrev pub matches : ℕ → Bool
  matches idx = same_bytes (md5 (characters max_len idx)) target_hash

  -- The loop, given `k` rounds; it leaves `candidate`.
  pub crack_loop : ℕ → (idx end_index : ℕ) → Bytes → Option Bytes
  crack_loop zero idx end_index candidate = none
  crack_loop (suc k) idx end_index candidate = elim (ltb idx end_index) [
    | false ↦ some candidate
    | true ↦ elim (matches idx) [
      | true ↦ some (index_to_string idx max_len)
      | false ↦ crack_loop k ((idx + 1) % 2 ^ 64) end_index (index_to_string idx max_len)
    ]
  ]

  -- `stale` is what `candidate` holds at first.
  unfoldable pub crack_thread : ℕ → Bytes → (start_index end_index : ℕ) → Option Bytes
  unfolding crack_loop
  crack_thread k stale start_index end_index = do
    candidate ← crack_loop k start_index end_index stale
    strcpy candidate
