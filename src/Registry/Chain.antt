-- ===== src/Registry/Chain.antt =====
-- What a well-formed list of nodes is, and how it survives writes elsewhere.
use dicon.Base.{
  ◌≡◌, ◌≢◌, refl, Bool, true, false, ◌||◌, none, some, List, [], ◌∷◌, ◌++◌, arith, ◌==◌,
}
use dicon.Registry.{NodeInfo, Ptr, null, ListNode, Heap, Registry}

abbrev pub node : NodeInfo → Ptr → Ptr → ListNode
node i b q = record { info = i; prev = b; next = q }

abbrev pub Cells : Type 0
Cells = List (Ptr × NodeInfo)

abbrev pub has : Ptr → Cells → Bool
has a [] = false
has a ((p, _) ∷ xs) = (a == p) || has a xs

-- From `p` the `next` pointers lead through the distinct nodes `xs` to NULL, and each `prev` pointer
-- leads back; that of the first node is `b`.
pub data Chain (h : Heap) : Ptr → Ptr → Cells → Type 0 where
  nil : {b p : Ptr} → p ≡ null → Chain h b p []
  cons :
      {b p q : Ptr} {i : NodeInfo} {xs : Cells}
      → p ≢ null
      → h p ≡ some (node i b q)
      → has p xs ≡ false
      → Chain h p q xs
      → Chain h b p ((p, i) ∷ xs)

-- The list that `NODES_INFO` heads.
abbrev pub IsList : Registry → Cells → Type 0
IsList r xs = Chain r.heap null r.first xs

abbrev pub SameOutside : Cells → Heap → Heap → Type 0
SameOutside xs h g = (a : Ptr) → has a xs ≡ false → g a ≡ h a

module _ {h : Heap} where
  pub frame :
      {g : Heap} {b p : Ptr} {xs : Cells}
      → Chain h b p xs
      → ((a : Ptr) → has a xs ≡ true → g a ≡ h a)
      → Chain g b p xs
  frame (nil e) same = nil e
  frame (cons {p} ne e out c) same =
      cons ne (ground (arith, same p)) out (frame c λ a i. same a (ground arith))

  pub not-mem_of_none :
      {b p : Ptr} {xs : Cells} (a : Ptr) → Chain h b p xs → h a ≡ none → has a xs ≡ false
  not-mem_of_none a (nil _) unused = refl
  not-mem_of_none a (cons ne e out c) unused = ground (arith, not-mem_of_none a c unused)

  pub null-not-mem : {b p : Ptr} {xs : Cells} → Chain h b p xs → has null xs ≡ false
  null-not-mem (nil _) = refl
  null-not-mem (cons ne e out c) = ground (arith, null-not-mem c)

pub has-append : (a : Ptr) (xs ys : Cells) → has a (xs ++ ys) ≡ (has a xs || has a ys)
has-append a [] ys = refl
has-append a (x ∷ xs) ys = ground (arith, has-append a xs ys)
