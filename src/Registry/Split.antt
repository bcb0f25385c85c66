-- ===== src/Registry/Split.antt =====
-- One node of a list, its place between its neighbours, and the list once the node is cut out.
use dicon.Base.{◌≡◌, ◌≢◌, refl, ◌∙◌, ◌⊎◌, inl, inr, true, false, some, [], ◌∷◌, ◌++◌, arith}
use dicon.Registry.{NodeInfo, Ptr, null, ListNode, Heap}
use dicon.Registry.Chain.{node, Cells, has, has-append, Chain, nil, cons, frame}
use dicon.Registry.Cut.{Place, Cut}

-- The address of the last cell, or `b` if there is none.
abbrev pub last_of : Ptr → Cells → Ptr
last_of b [] = b
last_of b ((p, _) ∷ xs) = last_of p xs

-- Where a list starts once what followed `xs` starts at `q`.
abbrev pub head_of : Ptr → Cells → Ptr → Ptr
head_of p [] q = q
head_of p (_ ∷ _) q = p

pub has-last_of : (p : Ptr) (i : NodeInfo) (xs : Cells) → has (last_of p xs) ((p, i) ∷ xs) ≡ true
has-last_of p i [] = ground arith
has-last_of p i ((q, j) ∷ xs) = ground (arith, has-last_of q j xs)

pub record Split (h : Heap) (b p : Ptr) (xs : Cells) (c : Ptr) (i : NodeInfo) (ys : Cells)
    : Type 0 where
  pub next : Ptr
  pub place : Place h c (node i (last_of b xs) next)
  pub next_in : (next ≡ null) ⊎ (has next ys ≡ true)
  pub close :
      (g : Heap) → Cut h g c (node i (last_of b xs) next) → Chain g b (head_of p xs next) (xs ++ ys)

-- The node before a list points at its first node.
abbrev Leads : Heap → Ptr → Ptr → Type 0
Leads h b p = b ≢ null → (m : ListNode) × (h b ≡ some m) × (m.next ≡ p)

Split-first :
    {h : Heap} {b p q c : Ptr} {i : NodeInfo} {ys : Cells}
    → c ≢ null
    → h c ≡ some (node i b q)
    → has c ys ≡ false
    → Chain h c q ys
    → Leads h b c
    → has b ((c, i) ∷ ys) ≡ false
    → Split h b p [] c i ys
Split-first ne e out (nil z) leads apart = record {
  next = _;
  place = record {
    ne = ne;
    here = e;
    after = λ k. absurd (k z);
    before = leads;
    ne_next = λ k. ne (ground arith);
    ne_prev = ground arith;
    apart = λ k. absurd (k z);
  };
  next_in = inl z;
  close = λ g cut. nil z;
}
Split-first {b} {c} {i} ne e out (cons {q = q'} {i = i'} {xs} ne' e' out' rest) leads apart =
    record {
      next = _;
      place = record {
        ne = ne;
        here = e;
        after = λ k. (node i' c q', e', refl);
        before = leads;
        ne_next = ground arith;
        ne_prev = ground arith;
        apart = λ k. ground arith;
      };
      next_in = inr (ground arith);
      close = λ g cut.
          cons ne' (cut.forward (node i' c q') ne' e') out'
            (frame rest λ a in_rest. cut.same a (ground arith) (ground arith) (ground arith));
    }

-- The first cell of a list keeps its node, but for `next` where the node behind it is cut out.
first_kept :
    (xs : Cells) {h : Heap} {b p q c : Ptr} {i j : NodeInfo} {ys : Cells}
    → p ≢ null
    → h p ≡ some (node j b q)
    → has p (xs ++ (c, i) ∷ ys) ≡ false
    → (inner : Split h p q xs c i ys) (g : Heap) → Cut h g c (node i (last_of p xs) inner.next)
    → g p ≡ some (node j b (head_of q xs inner.next))
first_kept [] {b} {q} {j} ne e out inner g cut = cut.backward (node j b q) ne e
first_kept ((p', j') ∷ xs) {p} {c} {i} {ys} ne e out inner g cut =
    let apart = has-append p xs ((c, i) ∷ ys) in
    let last = has-last_of p' j' xs in
    cut.same p (ground (arith, apart)) (ground (arith, apart, inner.next_in))
      (ground (arith, apart, last))
    ∙ e

-- Every node of a list that starts at `p`, with nothing before it or a node that leads to it, has its
-- place there; cut out, it leaves the list of the others.
pub split :
    (xs : Cells) {h : Heap} {b p c : Ptr} {i : NodeInfo} {ys : Cells}
    → Chain h b p (xs ++ (c, i) ∷ ys)
    → Leads h b p
    → has b (xs ++ (c, i) ∷ ys) ≡ false
    → Split h b p xs c i ys
split [] (cons ne e out rest) leads apart = Split-first ne e out rest leads apart
split ((p, j) ∷ xs) {b} {c} {i} {ys} (cons {q} ne e out rest) leads apart =
    let inner = split xs rest (λ k. (node j b q, e, refl)) out in
    record {
      next = inner.next;
      place = inner.place;
      next_in = inner.next_in;
      close = λ g cut.
          cons ne (first_kept xs ne e out inner g cut)
            (ground (arith, has-append p xs ys, has-append p xs ((c, i) ∷ ys))) (inner.close g cut);
    }
