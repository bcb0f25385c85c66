-- ===== src/Demo/Cracker/Strings.antt =====
-- The strings of `index_to_string`, read back.
use dicon.Base.{
  ℕ, zero, suc, ◌+◌, ◌*◌, ◌-◌, ◌/◌, ◌%◌, ◌^◌, ◌<◌, ◌≡◌, ◌≢◌, refl, ap, false, some, [], ◌∷◌, ◌++◌,
  arith, leb, ◌==◌, if◌then◌else◌, length, length-append, All,
}
use dicon.Wire.{Bytes}
use dicon.Demo.Cracker.{charset, characters, index_to_string, strcpy}

-- The index that a string stands for, in base 36.
abbrev pub digit : ℕ → ℕ
digit c = if leb 97 c then c - 97 else c - 48 + 26

abbrev pub string_index : ℕ → Bytes → ℕ
string_index acc [] = acc
string_index acc (c ∷ cs) = string_index (acc * 36 + digit c) cs

string_index-append :
    (acc c : ℕ) (cs : Bytes) → string_index acc (cs ++ c ∷ []) ≡ string_index acc cs * 36 + digit c
string_index-append acc c [] = refl
string_index-append acc c (d ∷ cs) = string_index-append (acc * 36 + digit d) c cs

digit-charset : (d : ℕ) → d < 36 → digit (charset d) ≡ d
unfolding charset
digit-charset d small = ground arith

string_index-characters : (n i : ℕ) → i < 36 ^ n → string_index 0 (characters n i) ≡ i
unfolding characters
string_index-characters zero i small = omega arith
string_index-characters (suc n) i small =
    let front = string_index-characters n (i / 36) (omega arith) in
    rw
      (
        string_index-append 0 (charset (i % 36)) (characters n (i / 36)),
        front,
        digit-charset (i % 36) (omega arith),
      )
      (omega arith)

charset-ne-zero : (d : ℕ) → charset d ≢ 0
unfolding charset
charset-ne-zero d e = ground (arith, e)

strcpy-append : (cs : Bytes) → All (λ c. c ≢ 0) cs → strcpy (cs ++ 0 ∷ []) ≡ some (cs ++ 0 ∷ [])
strcpy-append [] none_nul = refl
strcpy-append (c ∷ cs) (ne, rest) =
    let e : (c == 0) ≡ false = ground arith in rw (e, strcpy-append cs rest)

All-append : (cs : Bytes) {c : ℕ} → All (λ d. d ≢ 0) cs → c ≢ 0 → All (λ d. d ≢ 0) (cs ++ c ∷ [])
All-append [] none_nul ne = (ne, tt)
All-append (d ∷ cs) (ne', rest) ne = (ne', All-append cs rest ne)

characters-not_nul : (n i : ℕ) → All (λ c. c ≢ 0) (characters n i)
unfolding characters
characters-not_nul zero i = tt
characters-not_nul (suc n) i =
    All-append (characters n (i / 36)) (characters-not_nul n (i / 36)) (charset-ne-zero (i % 36))

length-characters : (n i : ℕ) → length (characters n i) ≡ n
unfolding characters
length-characters zero i = refl
length-characters (suc n) i = omega (
  arith,
  length-append (characters n (i / 36)) (charset (i % 36) ∷ []),
  length-characters n (i / 36),
)

pub strcpy-index_to_string : (i n : ℕ) → strcpy (index_to_string i n) ≡ some (index_to_string i n)
unfolding index_to_string
strcpy-index_to_string i n = strcpy-append (characters n i) (characters-not_nul n i)

-- `index_to_string` writes `length` characters of CHARSET and a NUL, which read in base 36 give the index
-- back: different indices have different strings. The condition: the index is below 36^length.
pub string_index-index_to_string :
    (i n : ℕ)
    → i < 36 ^ n
    → (cs : Bytes) × (index_to_string i n ≡ cs ++ 0 ∷ [])
      × (length cs ≡ n)
      × All (λ c. c ≢ 0) cs
      × (string_index 0 cs ≡ i)
unfolding index_to_string
string_index-index_to_string i n small = (
  characters n i,
  refl,
  length-characters n i,
  characters-not_nul n i,
  string_index-characters n i small,
)

pub index_to_string_injective :
    (i j n : ℕ) → i < 36 ^ n → j < 36 ^ n → index_to_string i n ≡ index_to_string j n → i ≡ j
index_to_string_injective i j n i_small j_small same =
    let (cs, is, size, nonzero, value) = string_index-index_to_string i n i_small in
    let (cs', is', size', nonzero', value') = string_index-index_to_string j n j_small in
    let strings : cs ++ 0 ∷ [] ≡ cs' ++ 0 ∷ [] = cc in
    let read : string_index 0 (cs ++ 0 ∷ []) ≡ string_index 0 (cs' ++ 0 ∷ []) =
      ap (string_index 0) strings in
    omega (arith, read, string_index-append 0 0 cs, string_index-append 0 0 cs', value, value')
