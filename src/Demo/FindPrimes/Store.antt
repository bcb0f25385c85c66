-- ===== src/Demo/FindPrimes/Store.antt =====
-- The array of `find_primes`: what a write and a `realloc` make of it.
use dicon.Base.{
  ℕ, zero, suc, ◌+◌, ◌%◌, ◌^◌, ◌≤◌, ◌<◌, ◌≡◌, refl, sym, ap, ◌∙◌, inl, inr, true, Bool-cases, some,
  List, [], ◌∷◌, ◌++◌, arith, leb, ltb, length, length-append, append_assoc, append-nil,
}
use dicon.Demo.FindPrimes.{set, resize, make_room, store_prime}

set-append : (v b : ℕ) (xs ys : List ℕ) → set (length xs) v (xs ++ b ∷ ys) ≡ some (xs ++ v ∷ ys)
set-append v b [] ys = refl
set-append v b (x ∷ xs) ys = rw (set-append v b xs ys)

module _ (junk : ℕ → ℕ) where
  pub length-resize : (n : ℕ) (bs : List ℕ) → length (resize junk n bs) ≡ n
  length-resize zero bs = refl
  length-resize (suc n) [] = rw (length-resize n [])
  length-resize (suc n) (b ∷ bs) = rw (length-resize n bs)

  pub resize-append :
      (n m : ℕ) (xs ys : List ℕ)
      → n ≡ length xs + m
      → resize junk n (xs ++ ys) ≡ xs ++ resize junk m ys
  resize-append n m [] ys is = ap (λ k. resize junk k ys) (omega (arith, is))
  resize-append zero m (x ∷ xs) ys is = absurd (omega arith)
  resize-append (suc n) m (x ∷ xs) ys is = rw (resize-append n m xs ys (omega arith))

  resize_longer :
      (n m : ℕ) (xs : List ℕ) → n ≡ length xs + m → resize junk n xs ≡ xs ++ resize junk m []
  resize_longer n m xs is =
      ap (λ ys. resize junk n ys) (sym (append-nil xs)) ∙ resize-append n m xs [] is

  -- A prime is stored behind those that were found, and the array grows where it has no room for more.
  pub store_prime-append :
      (i len r : ℕ) (fs rest : List ℕ)
      → length fs < len
      → suc (length rest) + length fs ≡ len
      → len ≤ length fs + 16
      → length fs + 32 < 2 ^ 31
      → (len' : ℕ) × (rest' : List ℕ) × (store_prime junk i len (length fs ∷ (fs ++ r ∷ rest))
          ≡ some (len', suc (length fs) ∷ ((fs ++ i ∷ []) ++ rest')))
        × (suc (length fs) < len')
        × (length rest' + suc (length fs) ≡ len')
        × (len' ≤ suc (length fs) + 16)
  unfolding store_prime make_room
  store_prime-append i len r fs rest room size small fits =
      let wrap : (length fs + 1) % 2 ^ 64 ≡ suc (length fs) = omega arith in
      elim (Bool-cases (leb len (suc (length fs)))) [
        | inl full ↦
            let grows : ltb (len + 16) (2 ^ 31) ≡ true = ground arith in
            let sizes = length-append fs (r ∷ rest) in
            let more = resize junk 16 [] in
            let is : len + 16 + 1 ≡ length (suc (length fs) ∷ (fs ++ r ∷ rest)) + 16 =
              omega (arith, sizes) in
            let grown = resize_longer (len + 16 + 1) 16 (suc (length fs) ∷ (fs ++ r ∷ rest)) is in
            let tail = rest ++ more in
            (
              len + 16,
              tail,
              rw (
                make_room,
                wrap,
                full,
                grows,
                grown,
                append_assoc fs (r ∷ rest) more,
                set-append i r fs tail,
                append_assoc fs (i ∷ []) tail,
              ),
              omega (arith, sizes),
              omega (arith, sizes, length-append rest more, length-resize 16 []),
              ground (arith, full),
            )
        | inr roomy ↦ (
          len,
          rest,
          rw (make_room, wrap, roomy, set-append i r fs rest, append_assoc fs (i ∷ []) rest),
          ground (arith, roomy),
          omega arith,
          omega arith,
        )
      ]
