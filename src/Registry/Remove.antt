-- ===== src/Registry/Remove.antt =====
-- `remove_info` on a node of the list: what becomes of the list.
use dicon.Base.{
  ◌≡◌, refl, sym, ◌⊎◌, inl, inr, Bool-cases, true, false, none, [], ◌∷◌, ◌++◌, arith, ◌==◌,
}
use mathlib.Core.Path.{subst}
use dicon.Registry.{NodeInfo, Ptr, null, Heap, Registry, remove_info}
use dicon.Registry.Returns
use dicon.Registry.Returns.{Returns}
use dicon.Registry.Chain.{
  node, Cells, has, has-append, Chain, nil, IsList, SameOutside, null-not-mem,
}
use dicon.Registry.Cut.{Cut, remove_info-Removed}
use dicon.Registry.Split.{Split, split, last_of, has-last_of}

module _ {h : Heap} {c : Ptr} {i : NodeInfo} {b p : Ptr} {xs ys : Cells}
    (s : Split h b p xs c i ys) where
  -- A cut writes to no node outside the list.
  pub Cut-SameOutside :
      {g : Heap}
      → Cut h g c (node i (last_of b xs) s.next)
      → (last_of b xs ≡ null) ⊎ (has (last_of b xs) xs ≡ true)
      → SameOutside (xs ++ (c, i) ∷ ys) h g
  Cut-SameOutside cut prev_in a out = elim (Bool-cases (a == null)) [
    | inl is_null ↦ ground (arith, cut.null_kept)
    | inr not_null ↦ ground (arith, has-append a xs ((c, i) ∷ ys), cut.same a, s.next_in)
  ]

-- `remove_info` of a node that is not the first of the list takes just that node out, keeps the
-- order of the others, frees it, and writes to no node outside the list.
pub remove_info-erase :
    (r : Registry) (x c : Ptr) (j i : NodeInfo) (xs ys : Cells)
    → IsList r (((x, j) ∷ xs) ++ (c, i) ∷ ys)
    → Returns
        (λ _ g.
          IsList g (((x, j) ∷ xs) ++ ys)
          × (g.heap c ≡ none)
          × SameOutside (((x, j) ∷ xs) ++ (c, i) ∷ ys) r.heap g.heap)
        (remove_info c r)
remove_info-erase r x c j i xs ys is =
    let outside = null-not-mem is in
    let s = split ((x, j) ∷ xs) is (λ k. absurd (k refl)) outside in
    let last = has-last_of x j xs in
    let inner : (last_of x xs == null) ≡ false =
      ground (arith, last, outside, has-append null xs ((c, i) ∷ ys)) in
    Returns.mono (remove_info-Removed r s.place) λ _ g (cut, kept). (
      subst (λ p. Chain g.heap null p (((x, j) ∷ xs) ++ ys)) (sym (rw inner at kept))
          (s.close g.heap cut),
      cut.freed,
      Cut-SameOutside s cut (inr last),
    )

-- `remove_info` of the first node empties the list, whatever stood behind that node: the others stay
-- allocated, linked to each other in order, and `NODES_INFO` no longer leads to them.
pub remove_info-first :
    (r : Registry) (c : Ptr) (i : NodeInfo) (ys : Cells)
    → IsList r ((c, i) ∷ ys)
    → Returns
        (λ _ g. (g.heap c ≡ none) × IsList g [] × (q : Ptr) × Chain g.heap null q ys)
        (remove_info c r)
remove_info-first r c i ys is =
    let s = split [] is (λ k. absurd (k refl)) (null-not-mem is) in
    Returns.mono (remove_info-Removed r s.place)
      λ _ g (cut, kept). (cut.freed, nil kept, s.next, s.close g.heap cut)
