-- ===== src/Wire/Fields.antt =====
-- A field is read back as it was written, truncated to its width.
use dicon.Base.{
  ◌∷◌, ◌+◌, ◌*◌, ◌≤◌, [], append-nil, sym, ap, ◌∙◌, ℕ, zero, suc, ◌/◌, ◌^◌, ◌<◌, ◌≡◌, refl, some,
  ◌++◌, arith, length, ap,
}
use native.Mathlib.Nat.{pow-suc}
use dicon.Wire.{Bytes, le_bytes, get_field}

pub length-le_bytes : (w n : ℕ) → length (le_bytes w n) ≡ w
unfolding le_bytes
length-le_bytes zero n = refl
length-le_bytes (suc w) n = ap suc (length-le_bytes w (n / 256))

pub get_field-le_bytes :
    (w n : ℕ) (rest : Bytes) → n < 256 ^ w → get_field w (le_bytes w n ++ rest) ≡ some (n, rest)
unfolding le_bytes get_field
get_field-le_bytes zero n rest h = ground arith
get_field-le_bytes (suc w) n rest h =
    let low : n / 256 < 256 ^ w = omega (arith, pow-suc 256 w) in
    rw (get_field-le_bytes w (n / 256) rest low) (ground arith)

-- A field is read wherever there are bytes enough.
pub get_field-some :
    (w : ℕ) (bs : Bytes)
    → w ≤ length bs
    → (n : ℕ) × (rest : Bytes) × (get_field w bs ≡ some (n, rest)) × (length rest + w ≡ length bs)
unfolding get_field
get_field-some zero bs h = (0, bs, refl, omega arith)
get_field-some (suc w) [] h = absurd (omega arith)
get_field-some (suc w) (b ∷ bs) h =
    let (n, rest, got, size) = get_field-some w bs (omega arith) in
    (b + 256 * n, rest, rw got, omega (arith, size))

pub get_field-le_bytes_all : (w n : ℕ) → n < 256 ^ w → get_field w (le_bytes w n) ≡ some (n, [])
get_field-le_bytes_all w n h =
    ap (get_field w) (sym (append-nil (le_bytes w n))) ∙ get_field-le_bytes w n [] h
