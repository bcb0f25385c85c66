-- ===== src/Memory/Access.antt =====
-- What `store_bytes` writes is what `load_bytes` reads, and where a write is defined.
use dicon.Base.{
  ℕ, zero, suc, ◌+◌, ◌<◌, ◌≤◌, ◌≡◌, ◌≢◌, ◌⊎◌, inl, refl, ap, Option, none, some, [], ◌∷◌, arith,
  length, ◌++◌,
}
use dicon.Wire.{Bytes, ◌>>=◌}
use dicon.Memory.{Memory, load_bytes, store_bytes, update}

abbrev put : ℕ → ℕ → Memory → Memory
put b p m = record m { cell = update m.cell p (some b) }

after_some :
    {A B : Type 0} (o : Option A) {k : Option B} {b : B} → (o >>= λ _. k) ≡ some b → k ≡ some b
after_some none e = ground (arith, e)
after_some (some a) e = e

some_of_bind :
    {A B : Type 0} (o : Option A) {k : A → Option B} {b : B}
    → (o >>= k) ≡ some b
    → (a : A) × (o ≡ some a) × (k a ≡ some b)
some_of_bind none e = ground (arith, e)
some_of_bind (some a) e = (a, refl, e)

some_injective : {A : Type 0} {a b : A} → some a ≡ some b → a ≡ b
some_injective e = cc

some_step :
    {A B : Type 0} (o : Option A) {k : Option B} {b : B}
    → o ≢ none
    → k ≡ some b
    → (o >>= λ _. k) ≡ some b
some_step none held e = ground (arith, held)
some_step (some a) held e = e

-- The first byte of a write goes to an allocated cell, the others behind it.
store_bytes-cons :
    (b : ℕ) (bs : Bytes) (p : ℕ) (m m' : Memory)
    → store_bytes (b ∷ bs) p m ≡ some m'
    → store_bytes bs (p + 1) (put b p m) ≡ some m'
unfolding store_bytes
store_bytes-cons b bs p m m' e = after_some (m.cell p) e

-- A write leaves the cells on either side of it.
pub store_bytes-outside :
    (bs : Bytes) (p : ℕ) (m : Memory) {m' : Memory} (q : ℕ)
    → (q < p) ⊎ (p + length bs ≤ q)
    → store_bytes bs p m ≡ some m'
    → m'.cell q ≡ m.cell q
unfolding store_bytes
store_bytes-outside [] p m {m'} q outside e = cc
store_bytes-outside (b ∷ bs) p m {m'} q outside e =
    let later =
      store_bytes-outside bs (p + 1) (put b p m) q (ground arith)
        (store_bytes-cons b bs p m m' e) in
    ground (arith, later)

pub store_bytes-block :
    (bs : Bytes) (p : ℕ) (m : Memory) {m' : Memory}
    → store_bytes bs p m ≡ some m'
    → m'.block ≡ m.block
unfolding store_bytes
store_bytes-block [] p m {m'} e = cc
store_bytes-block (b ∷ bs) p m {m'} e =
    store_bytes-block bs (p + 1) (put b p m) (store_bytes-cons b bs p m m' e)

pub load_bytes-store_bytes :
    (bs : Bytes) (p : ℕ) (m : Memory) {m' : Memory}
    → store_bytes bs p m ≡ some m'
    → load_bytes (length bs) p m' ≡ some bs
unfolding load_bytes
load_bytes-store_bytes [] p m e = refl
load_bytes-store_bytes (b ∷ bs) p m {m'} e =
    let rest = store_bytes-cons b bs p m m' e in
    let first : m'.cell p ≡ some b =
      ground (arith, store_bytes-outside bs (p + 1) (put b p m) p (inl (omega arith)) rest) in
    rw (first, load_bytes-store_bytes bs (p + 1) (put b p m) rest)

-- A write is defined where every cell of it is allocated.
pub store_bytes-allocated :
    (bs : Bytes) (p : ℕ) (m : Memory)
    → ((q : ℕ) → p ≤ q → q < p + length bs → m.cell q ≢ none)
    → (m' : Memory) × (store_bytes bs p m ≡ some m')
unfolding store_bytes
store_bytes-allocated [] p m all = (m, refl)
store_bytes-allocated (b ∷ bs) p m all =
    let after_put : (q : ℕ)
        → p + 1 ≤ q
        → q < p + 1 + length bs
        → update m.cell p (some b) q ≢ none =
      λ q from to. let old = all q (omega arith) (omega arith) in ground (arith, old) in
    let held = all p (omega arith) (omega arith) in
    let (m', stored) =
      store_bytes-allocated bs (p + 1) (put b p m) (λ q from to. after_put q from to) in
    (m', some_step (m.cell p) held stored)

pub length-load_bytes :
    (n p : ℕ) (m : Memory) (bs : Bytes) → load_bytes n p m ≡ some bs → length bs ≡ n
unfolding load_bytes
length-load_bytes zero p m bs e = cc
length-load_bytes (suc n) p m bs e =
    let (b, held, e') = some_of_bind (m.cell p) e in
    let (rest, loaded, is) = some_of_bind (load_bytes n (p + 1) m) e' in
    let size = length-load_bytes n (p + 1) m rest loaded in rw (← some_injective is) (ap suc size)

cons_injective : {a b : ℕ} {as_ bs : Bytes} → some (a ∷ as_) ≡ some (b ∷ bs) → (a ≡ b) × (as_ ≡ bs)
cons_injective e = (cc, cc)

-- A read of a front and of what follows it is two reads.
pub load_bytes-append :
    (xs ys : Bytes) (count n p : ℕ) (m : Memory)
    → count ≡ length xs + n
    → load_bytes count p m ≡ some (xs ++ ys)
    → (load_bytes (length xs) p m ≡ some xs) × (load_bytes n (p + length xs) m ≡ some ys)
unfolding load_bytes
load_bytes-append [] ys count n p m is e =
    let same : count ≡ n = omega (arith, is) in
    let here : p + 0 ≡ p = omega arith in (refl, rw (here, ← same) e)
load_bytes-append (x ∷ xs) ys zero n p m is e = absurd (omega (arith, is))
load_bytes-append (x ∷ xs) ys (suc count) n p m is e =
    let (b, held, e') = some_of_bind (m.cell p) e in
    let (rest, loaded, e'') = some_of_bind (load_bytes count (p + 1) m) e' in
    let (first, others) = cons_injective e'' in
    let (front, back) =
      load_bytes-append xs ys count n (p + 1) m (omega (arith, is)) (rw loaded (rw others refl)) in
    let there : p + 1 + length xs ≡ p + suc (length xs) = omega arith in
    (rw (held, front, first), rw (← there) back)

-- Two reads, one behind the other, are one.
pub load_bytes-join :
    (a b count p : ℕ) (m : Memory) (xs ys : Bytes)
    → count ≡ a + b
    → load_bytes a p m ≡ some xs
    → load_bytes b (p + a) m ≡ some ys
    → load_bytes count p m ≡ some (xs ++ ys)
unfolding load_bytes
load_bytes-join zero b count p m xs ys is e e' =
    let same : count ≡ b = omega (arith, is) in
    let here : p + 0 ≡ p = omega arith in
    let none_read : [] ≡ xs = some_injective e in rw (same, ← none_read) (rw here at e')
load_bytes-join (suc a) b zero p m xs ys is e e' = absurd (omega (arith, is))
load_bytes-join (suc a) b (suc count) p m xs ys is e e' =
    let (c, held, later) = some_of_bind (m.cell p) e in
    let (rest, loaded, all) = some_of_bind (load_bytes a (p + 1) m) later in
    let there : p + suc a ≡ p + 1 + a = omega arith in
    let whole =
      load_bytes-join a b count (p + 1) m rest ys (omega (arith, is)) loaded (rw there at e') in
    let read : c ∷ rest ≡ xs = some_injective all in rw (held, whole, ← read)

-- A read of allocated cells gives something.
pub load_bytes-allocated :
    (n p : ℕ) (m : Memory) (f : ℕ → ℕ)
    → ((q : ℕ) → p ≤ q → q < p + n → m.cell q ≡ some (f q))
    → (bs : Bytes) × (load_bytes n p m ≡ some bs)
unfolding load_bytes
load_bytes-allocated zero p m f all = ([], refl)
load_bytes-allocated (suc n) p m f all =
    let (bs, loaded) =
      load_bytes-allocated n (p + 1) m f (λ q from to. all q (omega arith) (omega arith)) in
    (f p ∷ bs, rw (all p (omega arith) (omega arith), loaded))
