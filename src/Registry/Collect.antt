-- ===== src/Registry/Collect.antt =====
-- `handle_get_info` reports the list as it stands.
use dicon.Base.{ℕ, zero, suc, ◌+◌, ◌≤◌, ◌<◌, ◌≡◌, refl, ◌∙◌, ap, List, [], ◌∷◌, ◌++◌, arith, length}
use dicon.Registry.{
  NodeInfo, Ptr, null, Heap, Registry, ok, count_from, node_count, copy_infos, get_infos,
}
use dicon.Registry.Returns.{not_null, load-ok}
use dicon.Registry.Chain.{Cells, Chain, nil, cons, IsList}

-- What the nodes hold, in order: the abstract list.
abbrev pub infos : Cells → List NodeInfo
infos [] = []
infos ((_, i) ∷ xs) = i ∷ infos xs

pub length-infos : (xs : Cells) → length (infos xs) ≡ length xs
length-infos [] = refl
length-infos (x ∷ xs) = omega (arith, length-infos xs)

pub infos-append : (xs ys : Cells) → infos (xs ++ ys) ≡ infos xs ++ infos ys
infos-append [] ys = refl
infos-append ((p, i) ∷ xs) ys = ap (λ is. i ∷ is) (infos-append xs ys)

module _ (r : Registry) where
  count_from-length :
      (k len : ℕ) {b p : Ptr} {c : Ptr × NodeInfo} {xs : Cells}
      → Chain r.heap b p (c ∷ xs)
      → length xs < k
      → count_from k p len r ≡ ok (len + length xs) r
  unfolding count_from
  count_from-length zero len c fuel = absurd (omega arith)
  count_from-length (suc k) len (cons ne e out (nil z)) fuel =
      rw (load-ok r ne e, z) (ap (λ n. ok n r) (omega arith))
  count_from-length (suc k) len (cons ne e out (cons {xs} ne' e' out' c)) fuel =
      rw (load-ok r ne e, not_null ne')
        (count_from-length k (len + 1) (cons ne' e' out' c) (omega arith)
          ∙ ap (λ n. ok n r) (omega arith))

  copy_infos-infos :
      {b p : Ptr} {xs : Cells} → Chain r.heap b p xs → copy_infos (length xs) p r ≡ ok (infos xs) r
  unfolding copy_infos
  copy_infos-infos (nil z) = refl
  copy_infos-infos (cons ne e out c) = rw (load-ok r ne e, copy_infos-infos c)

get_infos-Chain :
    (k : ℕ) {h : Heap} {p : Ptr} {xs : Cells}
    → Chain h null p xs
    → length xs ≤ k
    → let r : Registry = record { heap = h; first = p } in
      get_infos k r ≡ ok (length xs, infos xs) r
unfolding get_infos node_count
get_infos-Chain k (nil z) fuel = rw z (unfold copy_infos in refl)
get_infos-Chain k {h} {p} (cons {xs} ne e out c) fuel =
    let r : Registry = record { heap = h; first = p } in
    let all = cons ne e out c in
    let size : 1 + length xs ≡ suc (length xs) = omega arith in
    rw (not_null ne, count_from-length r k 1 all (omega arith), size, copy_infos-infos r all)

-- `handle_get_info` counts and reports exactly the nodes of the list, in their order, and changes
-- nothing, provided that the counting loop is given as many rounds as the list has nodes.
pub get_infos-eq-infos :
    (k : ℕ) (r : Registry) (xs : Cells)
    → IsList r xs
    → length xs ≤ k
    → get_infos k r ≡ ok (length xs, infos xs) r
get_infos-eq-infos k r xs is = get_infos-Chain k is
