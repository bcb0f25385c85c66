-- ===== src/Registry/Components.antt =====
-- Two lists on one heap, each with nothing before its first node, are one list or share no node.
use dicon.Base.{
  ◌≡◌, ◌≢◌, sym, ap, ◌∙◌, ◌⊎◌, Option, inl, inr, true, false, Bool-cases, none, some, arith, ◌==◌,
}
use dicon.Registry.{NodeInfo, Ptr, null, ListNode, Heap}
use dicon.Registry.Chain.{node, Cells, has, Chain, nil, cons, null-not-mem}

-- What a node of a list points back at: the node before it, or what lies before the list.
prev_in :
    {h : Heap} {b p : Ptr} {xs : Cells}
    → Chain h b p xs
    → (e : Ptr) (m : ListNode) → has e xs ≡ true
    → h e ≡ some m
    → ((m.prev ≡ b) × (e ≡ p)) ⊎ (has m.prev xs ≡ true)
prev_in (nil _) e m h there = absurd (ground (arith, h))
prev_in (cons {p} ne here out rest) e m h there = elim (Bool-cases (e == p)) [
  | inl is ↦ ground (arith, is, here, there)
  | inr other ↦ elim (prev_in rest e m (ground (arith, h, other)) there) [
    | inl (back, _) ↦ inr (ground (arith, back))
    | inr inside ↦ inr (ground (arith, inside))
  ]
]

-- The nodes that follow a node outside a list are outside it.
outside :
    {h : Heap} {p b q : Ptr} {xs zs : Cells}
    → Chain h null p xs
    → Chain h b q zs
    → has q xs ≡ false
    → (a : Ptr) → has a zs ≡ true
    → has a xs ≡ false
outside c (nil _) out a h = absurd (ground (arith, h))
outside {xs} c (cons {p = q} ne here _ (nil end)) out a h = ground (arith, h, out)
outside {xs} c (cons {p = q} ne here _ (cons {p = r} {q = s} {i = j} ne' here' o' rest)) out a h =
    elim (Bool-cases (a == q)) [
      | inl is ↦ ground (arith, is, out)
      | inr other ↦
          outside c (cons ne' here' o' rest) (not_back (Bool-cases (has r xs))) a
            (ground (arith, h, other))
    ]
  where
    not_back : (has r xs ≡ true) ⊎ (has r xs ≡ false) → has r xs ≡ false
    not_back (inr o) = o
    not_back (inl i) = elim (prev_in c r (node j q s) i here') [
      | inl (back, _) ↦ absurd (ne back)
      | inr inside ↦ cc
    ]

abbrev next_of : Option ListNode → Ptr
next_of none = null
next_of (some m) = m.next

-- From one address only one list leads on.
same_nodes :
    {h : Heap} {b b' p p' : Ptr} {xs ys : Cells}
    → Chain h b p xs
    → Chain h b' p' ys
    → p' ≡ p
    → (a : Ptr) → has a ys ≡ true
    → has a xs ≡ true
same_nodes c (nil _) e a h = absurd (ground (arith, h))
same_nodes (nil z) (cons ne _ _ _) e a h = absurd (ne (e ∙ z))
same_nodes {h = heap} (cons {b} {p} {q} {i} {xs} ne here _ rest)
      (cons {b = b'} {p = p'} {q = q'} {i = i'} {xs = ys} ne' here' _ rest') e a h =
    elim (Bool-cases (a == p)) [
      | inl is ↦ ground (arith, is)
      | inr other ↦
          let same : heap p ≡ some (node i' b' q') = rw (← e) here' in
          let both : some (node i b q) ≡ some (node i' b' q') = sym here ∙ same in
          let found =
            same_nodes rest rest' (ap next_of (sym both)) a (ground (arith, h, other, e)) in
          ground (arith, found)
    ]

-- The first node of a second list, where it is a node of the first one.
first_of :
    {h : Heap} {p q r : Ptr} {j : NodeInfo} {xs : Cells}
    → Chain h null p xs
    → q ≢ null
    → h q ≡ some (node j null r)
    → has q xs ≡ true
    → q ≡ p
first_of {q} {r} {j} c ne here inside = elim (prev_in c q (node j null r) inside here) [
  | inl (_, is) ↦ is
  | inr back ↦ cc (null-not-mem c)
]

-- A second list either starts where the first does, or shares no node with it.
pub same_or_apart :
    {h : Heap} {p q : Ptr} {xs zs : Cells}
    → Chain h null p xs
    → Chain h null q zs
    → ((q ≡ p) × ((a : Ptr) → has a zs ≡ true → has a xs ≡ true))
      ⊎ ((a : Ptr) → has a zs ≡ true → has a xs ≡ false)
same_or_apart c (nil z) = inr (λ a h. absurd (ground (arith, h)))
same_or_apart {xs} c (cons {p = q} {q = r} {i = j} {xs = zs} ne here out rest) =
    elim (Bool-cases (has q xs)) [
      | inl inside ↦
          let is : q ≡ _ = first_of c ne here inside in
          inl (is, same_nodes c (cons ne here out rest) is)
      | inr apart ↦ inr (outside c (cons ne here out rest) apart)
    ]
