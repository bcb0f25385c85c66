-- ===== src/Demo/Work/Tiles.antt =====
-- The parts of a range that the threads get make up the range.
use dicon.Base.{
  ℕ, zero, suc, ◌+◌, ◌*◌, ◌-◌, ◌/◌, ◌%◌, ◌^◌, ◌≤◌, ◌<◌, ◌≡◌, refl, true, false, some, List, [], ◌∷◌,
  ◌++◌, arith, leb, ◌==◌, length,
}
use mathlib.Core.Path.{subst}
use native.Mathlib.Nat.{mul-le-mul_right, mul-div-le}
use dicon.Socket.Recv.{size_of_int_small}
use dicon.Demo.Work.{total_cores, int_div, part, core_loop, node_loop, assign_work}

-- Ranges from `s` on and up to `e`, each starting where the one before it ends.
pub data Tiles (e : ℕ) : ℕ → List (ℕ × ℕ) → Type 0 where
  last : {s : ℕ} → Tiles e s ((s, e) ∷ [])
  next :
      {s : ℕ} (m : ℕ) {ts : List (ℕ × ℕ)}
      → s ≤ m + 1
      → m ≤ e
      → Tiles e (m + 1) ts
      → Tiles e s ((s, m) ∷ ts)

-- The number of all cores.
abbrev pub sum : List ℕ → ℕ
sum [] = 0
sum (c ∷ cores) = c + sum cores

pub total_cores-sum : (cores : List ℕ) → sum cores < 2 ^ 31 → total_cores cores ≡ sum cores
unfolding total_cores
total_cores-sum [] fits = refl
total_cores-sum (c ∷ cores) fits =
    let rest = total_cores-sum cores (omega arith) in omega (arith, rest)

module _ (range_start range_end total size : ℕ) where
  core_loop-append :
      (n c d t : ℕ)
      → n ≡ c + d
      → core_loop range_start range_end total size n t
        ≡ core_loop range_start range_end total size c t
          ++ core_loop range_start range_end total size d (t + c)
  unfolding core_loop
  core_loop-append n zero d t is =
      let same : n ≡ d = omega (arith, is) in let here : t + 0 ≡ t = omega arith in rw (same, here)
  core_loop-append zero (suc c) d t is = absurd (omega arith)
  core_loop-append (suc n) (suc c) d t is =
      let there : t + 1 + c ≡ t + suc c = omega arith in
      rw (core_loop-append n c d (t + 1) (omega arith), there)

  node_loop-core_loop :
      (cores : List ℕ) (t : ℕ)
      → node_loop range_start range_end total size cores t
        ≡ core_loop range_start range_end total size (sum cores) t
  unfolding node_loop core_loop
  node_loop-core_loop [] t = refl
  node_loop-core_loop (c ∷ cores) t =
      rw (node_loop-core_loop cores (t + c), core_loop-append (c + sum cores) c (sum cores) t refl)

  length-core_loop : (c t : ℕ) → length (core_loop range_start range_end total size c t) ≡ c
  unfolding core_loop
  length-core_loop zero t = refl
  length-core_loop (suc c) t = rw (length-core_loop c (t + 1))

  module _ (least : 1 ≤ range_start) (most : range_end < 2 ^ 31)
      (whole : range_start + total * size ≤ range_end) where
    core_loop-Tiles :
        (c t : ℕ)
        → t + suc c ≡ total
        → Tiles range_end
            (range_start + t * size)
            (core_loop range_start range_end total size (suc c) t)
    unfolding core_loop part
    core_loop-Tiles zero t is =
        let within : t * size ≤ total * size = mul-le-mul_right size (omega arith) in
        let start : (range_start + t * size) % 2 ^ 32 ≡ range_start + t * size =
          omega (arith, within) in
        let final : (t == total - 1) ≡ true = ground (arith, is) in
        rw
          (
            start,
            final,
            size_of_int_small (range_start + t * size) (omega (arith, within)),
            size_of_int_small range_end most,
          )
          last
    core_loop-Tiles (suc c) t is =
        let s = range_start + t * size in
        let further : (t + 1) * size ≤ total * size = mul-le-mul_right size (omega arith) in
        let step : (t + 1) * size ≡ t * size + size = omega arith in
        let start : (range_start + t * size) % 2 ^ 32 ≡ s = omega (arith, further, step) in
        let final : (t == total - 1) ≡ false = ground (arith, is) in
        let end : (s + size + (2 ^ 32 - 1)) % 2 ^ 32 ≡ s + size - 1 =
          omega (arith, further, step) in
        let rest = core_loop-Tiles c (t + 1) (omega arith) in
        let m = s + size - 1 in
        let here : part range_start range_end total size t ≡ (s, m) = rw (
          start,
          final,
          end,
          size_of_int_small s (omega (arith, further, step)),
          size_of_int_small m (omega (arith, further, step)),
        ) in
        rw here (
          next m (omega arith) (omega (arith, further, step)) (
            subst
              (λ from.
                Tiles range_end from (core_loop range_start range_end total size (suc c) (t + 1)))
              (omega (arith, step)) rest))

    all-Tiles :
        (c : ℕ)
        → c ≡ total
        → 0 < c
        → Tiles range_end range_start (core_loop range_start range_end total size c 0)
    all-Tiles zero is some_core = absurd (omega arith)
    all-Tiles (suc c) is some_core =
        subst (λ from. Tiles range_end from (core_loop range_start range_end total size (suc c) 0))
          (omega arith) (core_loop-Tiles c 0 (omega (arith, is)))

-- The ranges that the threads get are as many as there are cores, and each starts where the one before
-- it ends, from `range_start` on and up to `range_end`: every number is given to one thread. The
-- conditions: there is a core, there are fewer than 2^31, and the range starts at 1 or later and ends
-- below 2^31.
pub assign_work-Tiles :
    (range_start range_end : ℕ) (cores : List ℕ)
    → 0 < sum cores
    → sum cores < 2 ^ 31
    → 1 ≤ range_start
    → range_start ≤ range_end
    → range_end < 2 ^ 31
    → (parts : List (ℕ × ℕ)) × (assign_work range_start range_end cores ≡ some parts)
      × (length parts ≡ sum cores)
      × Tiles range_end range_start parts
unfolding assign_work int_div
assign_work-Tiles range_start range_end cores some_core few least ordered most =
    let total = sum cores in
    let size = (range_end - range_start) / total in
    let is_total = total_cores-sum cores few in
    let positive : (total == 0) ≡ false = ground arith in
    let no_sign : leb (2 ^ 31) total ≡ false = ground arith in
    let whole : total * size ≤ range_end - range_start =
      mul-div-le (range_end - range_start) total in
    (
      core_loop range_start range_end total size total 0,
      rw (
        is_total,
        positive,
        no_sign,
        node_loop-core_loop range_start range_end total size cores 0,
      ),
      length-core_loop range_start range_end total size total 0,
      all-Tiles range_start range_end total size least most (omega (arith, whole)) total refl
          some_core,
    )
