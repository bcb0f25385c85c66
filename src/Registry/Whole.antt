-- ===== src/Registry/Whole.antt =====
-- The whole heap of the main server: every node lies on a list with nothing before its first node, be
-- it the one that NODES_INFO heads or one that it has lost. Both operations keep it so, on every node.
use dicon.Base.{
  ℕ, ◌<◌, ◌≡◌, ◌≢◌, refl, sym, ◌∙◌, ◌⊎◌, inl, inr, true, false, Bool-cases, none, some, [], ◌∷◌,
  ◌++◌, arith, length, ◌==◌, if◌then◌else◌,
}
use mathlib.Core.Path.{subst}
use dicon.Registry.{NodeInfo, Ptr, null, ListNode, Heap, Registry, append_info, remove_info}
use dicon.Registry.Returns
use dicon.Registry.Returns.{Returns}
use dicon.Registry.Chain.{
  node, Cells, has, has-append, Chain, nil, cons, IsList, SameOutside, frame, not-mem_of_none,
  null-not-mem,
}
use dicon.Registry.Append.{Appended, append_info-append}
use dicon.Registry.Cut.{Cut, remove_info-Removed}
use dicon.Registry.Split.{Split, split, last_of, has-last_of, head_of}
use dicon.Registry.Remove.{Cut-SameOutside}
use dicon.Registry.Components.{same_or_apart}

abbrev pub IsAllocated : Heap → Ptr → Type 0
IsAllocated h a = (n : ListNode) × (h a ≡ some n)

-- A list of `h` that goes through `c`.
abbrev pub Through : Heap → Ptr → Type 0
Through h c = (q : Ptr) × (zs : Cells) × Chain h null q zs × (has c zs ≡ true)

pub record IsWhole (r : Registry) : Type 0 where
  pub through : (c : Ptr) (n : ListNode) → r.heap c ≡ some n → Through r.heap c
  pub cells : Cells
  pub list : IsList r cells

pub member-IsAllocated :
    {h : Heap} {b p : Ptr} {zs : Cells}
    → Chain h b p zs
    → (a : Ptr) → has a zs ≡ true
    → IsAllocated h a
member-IsAllocated (nil _) a h = absurd (ground (arith, h))
member-IsAllocated (cons {b} {p} {q} {i} ne here out rest) a h = elim (Bool-cases (a == p)) [
  | inl is ↦ (node i b q, ground (arith, is, here))
  | inr other ↦ member-IsAllocated rest a (ground (arith, h, other))
]

-- Where in a list a node stands.
has-split :
    (c : Ptr) (zs : Cells)
    → has c zs ≡ true
    → (us : Cells) × (i : NodeInfo) × (vs : Cells) × (zs ≡ us ++ (c, i) ∷ vs)
has-split c [] h = absurd (ground (arith, h))
has-split c ((p, i) ∷ zs) h = elim (Bool-cases (c == p)) [
  | inl is ↦ let same : c ≡ p = ground (arith, is) in ([], i, zs, rw same)
  | inr other ↦
      let (us, j, vs, e) = has-split c zs (ground (arith, h, other)) in ((p, i) ∷ us, j, vs, rw e)
]

-- A write to one list leaves every list that shares no node with it.
apart_kept :
    {h g : Heap} {b q : Ptr} (xs : Cells) {zs : Cells}
    → SameOutside xs h g
    → Chain h b q zs
    → ((a : Ptr) → has a zs ≡ true → has a xs ≡ false)
    → Chain g b q zs
apart_kept xs same c apart = frame c λ a inside. same a (apart a inside)

module _ (k : ℕ) (fresh : Ptr) (junk : ListNode) (info : NodeInfo) (r : Registry)
    (whole : IsWhole r) (ne : fresh ≢ null) (unused : r.heap fresh ≡ none) where
  Appended-Through :
      (g : Registry)
      → Appended fresh info r whole.cells fresh g
      → (c : Ptr) (n : ListNode) → g.heap c ≡ some n
      → Through g.heap c
  Appended-Through g (_, list, same) c n there =
      elim (Bool-cases (has c (whole.cells ++ (fresh, info) ∷ []))) [
        | inl inside ↦ (g.first, whole.cells ++ (fresh, info) ∷ [], list, inside)
        | inr out ↦
            let cut = has-append c whole.cells ((fresh, info) ∷ []) in
            let there' : r.heap c ≡ some n = sym (same c (ground (arith, out, cut))) ∙ there in
            let (q, zs, chain, inside) = whole.through c n there' in
            elim (same_or_apart whole.list chain) [
              | inl (_, all) ↦ let found = all c inside in absurd (ground (arith, found, out, cut))
              | inr apart ↦ (
                q,
                zs,
                apart_kept ((fresh, info) ∷ whole.cells) same chain (λ a i.
                    let o = apart a i in
                    let used = not-mem_of_none fresh chain unused in
                    elim (Bool-cases (a == fresh)) [
                      | inl is ↦ absurd (ground (arith, is, i, used))
                      | inr other ↦ ground (arith, o, other)
                    ]),
                inside,
              )
            ]
      ]

  -- An announcement keeps the heap whole, and every node where it is.
  pub append_info-IsWhole :
      length whole.cells < k
      → Returns
          (λ p g.
            IsWhole g
            × (p ≡ fresh)
            × IsAllocated g.heap fresh
            × ((a : Ptr) → IsAllocated r.heap a → IsAllocated g.heap a))
          (append_info k fresh junk info r)
  append_info-IsWhole rounds =
      Returns.mono (append_info-append k fresh junk info r whole.cells whole.list ne unused rounds)
        λ p g (is, list, same). (
          record {
            through = Appended-Through g (refl, list, same);
            cells = whole.cells ++ (fresh, info) ∷ [];
            list = list;
          },
          is,
          member-IsAllocated list fresh
              (ground (arith, has-append fresh whole.cells ((fresh, info) ∷ []))),
          λ a (n, there). elim (Bool-cases (has a whole.cells)) [
            | inl inside ↦
                member-IsAllocated list a
                  (ground (arith, inside, has-append a whole.cells ((fresh, info) ∷ [])))
            | inr out ↦ (n, same a (ground (arith, out, there, unused)) ∙ there)
          ],
        )

last_in : (us : Cells) → (last_of null us ≡ null) ⊎ (has (last_of null us) us ≡ true)
last_in [] = inl refl
last_in ((x, j) ∷ us) = inr (has-last_of x j us)

-- A node is cut from the list that it lies on.
module _ (r : Registry) (whole : IsWhole r) {q c : Ptr} {i : NodeInfo} {us vs : Cells}
    (chain : Chain r.heap null q (us ++ (c, i) ∷ vs)) (s : Split r.heap null q us c i vs)
    (g : Registry) (cut : Cut r.heap g.heap c (node i (last_of null us) s.next)) where
  cut_same : SameOutside (us ++ (c, i) ∷ vs) r.heap g.heap
  cut_same = Cut-SameOutside s cut (last_in us)

  Cut-Through : (d : Ptr) (n : ListNode) → g.heap d ≡ some n → Through g.heap d
  Cut-Through d n there = elim (Bool-cases (has d (us ++ (c, i) ∷ vs))) [
    | inl inside ↦ (
      head_of q us s.next,
      us ++ vs,
      s.close g.heap cut,
      ground (arith, inside, has-append d us ((c, i) ∷ vs), has-append d us vs, cut.freed, there),
    )
    | inr out ↦
        let there' : r.heap d ≡ some n = sym (cut_same d out) ∙ there in
        let (p, ws, other, on) = whole.through d n there' in
        elim (same_or_apart chain other) [
          | inl (_, all) ↦ let found = all d on in absurd (ground (arith, found, out))
          | inr apart ↦ (p, ws, apart_kept (us ++ (c, i) ∷ vs) cut_same other apart, on)
        ]
  ]

  Cut-kept : (a : Ptr) → a ≢ c → IsAllocated r.heap a → IsAllocated g.heap a
  Cut-kept a ne (n, there) = elim (Bool-cases (has a (us ++ (c, i) ∷ vs))) [
    | inl inside ↦
        member-IsAllocated (s.close g.heap cut) a
          (ground (arith, inside, ne, has-append a us ((c, i) ∷ vs), has-append a us vs))
    | inr out ↦ (n, cut_same a out ∙ there)
  ]

  -- The list that NODES_INFO heads, where a node was before the one that is cut.
  IsList-kept : g.first ≡ r.first → head_of q us s.next ≡ q → (xs : Cells) × IsList g xs
  IsList-kept first at = elim (same_or_apart chain whole.list) [
    | inl (is, _) ↦ (
      us ++ vs,
      rw (first, is) (subst (λ p. Chain g.heap null p (us ++ vs)) at (s.close g.heap cut)),
    )
    | inr apart ↦ (whole.cells, rw first (apart_kept (us ++ (c, i) ∷ vs) cut_same whole.list apart))
  ]

IsList-Cut :
    (us : Cells) {r : Registry} (whole : IsWhole r) {q c : Ptr} {i : NodeInfo} {vs : Cells}
    (chain : Chain r.heap null q (us ++ (c, i) ∷ vs)) (s : Split r.heap null q us c i vs)
    (g : Registry) (cut : Cut r.heap g.heap c (node i (last_of null us) s.next))
    → g.first ≡ (if last_of null us == null then null else r.first)
    → (xs : Cells) × IsList g xs
IsList-Cut [] whole chain s g cut first = ([], nil first)
IsList-Cut ((x, j) ∷ us) {r} whole {c} {i} {vs} chain s g cut first =
    let last = has-last_of x j us in
    let inner : (last_of x us == null) ≡ false =
      ground (arith, last, null-not-mem chain, has-append null us ((c, i) ∷ vs)) in
    IsList-kept r whole chain s g cut (rw inner at first) refl

-- When a node leaves, wherever it lies, the heap stays whole and every other node where it is.
pub remove_info-IsWhole :
    (r : Registry) (whole : IsWhole r) (c : Ptr)
    → IsAllocated r.heap c
    → Returns
        (λ _ g. IsWhole g × ((a : Ptr) → a ≢ c → IsAllocated r.heap a → IsAllocated g.heap a))
        (remove_info c r)
remove_info-IsWhole r whole c (n, there) =
    let (q, zs, chain, inside) = whole.through c n there in
    let (us, i, vs, e) = has-split c zs inside in
    let chain' = subst (λ ys. Chain r.heap null q ys) e chain in
    let s = split us chain' (λ k. absurd (k refl)) (null-not-mem chain') in
    Returns.mono (remove_info-Removed r s.place) λ _ g (cut, first).
      let (xs, list) = IsList-Cut us whole chain' s g cut first in
      (
        record { through = Cut-Through r whole chain' s g cut; cells = xs; list = list },
        Cut-kept r whole chain' s g cut,
      )
