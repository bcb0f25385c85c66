-- ===== src/Registry/Append.antt =====
-- `append_info` adds one node behind the others and returns it.
use dicon.Base.{ℕ, zero, suc, ◌<◌, ◌≡◌, ◌≢◌, refl, false, none, some, [], ◌∷◌, ◌++◌, arith, length}
use dicon.Registry.{
  NodeInfo, Ptr, null, ListNode, Heap, Registry, Cmd, ◌>>=◌, ◌>>◌, write, store_new, set_next,
  set_prev, set_first, last_node, append_info,
}
use dicon.Registry.Returns
use dicon.Registry.Returns.{Returns, returns, not_null, load-ok, set_next-ok, set_prev-ok}
use dicon.Registry.Chain.{
  node, Cells, has, has-append, Chain, nil, cons, IsList, SameOutside, frame, not-mem_of_none,
}

-- The walk to the last node, and the two writes that follow it.
abbrev link : ℕ → Ptr → Ptr → Cmd (Unit {0})
link k p fresh = do curr ← last_node k p; set_next curr fresh; set_prev fresh curr

abbrev Linked : Registry → Ptr → NodeInfo → Ptr → Ptr → Cells → Unit {0} → Registry → Type 0
Linked r fresh j b p xs _ g =
    Chain g.heap b p (xs ++ (fresh, j) ∷ [])
    × (g.first ≡ r.first)
    × SameOutside ((fresh, j) ∷ xs) r.heap g.heap

module _ {r : Registry} {fresh x y : Ptr} {j : NodeInfo} (there : r.heap fresh ≡ some (node j x y))
    (ne_fresh : fresh ≢ null) (ends : y ≡ null) where
  link-Chain :
      (k : ℕ) {b p q : Ptr} {i : NodeInfo} {xs : Cells}
      → p ≢ null
      → r.heap p ≡ some (node i b q)
      → has p xs ≡ false
      → has fresh ((p, i) ∷ xs) ≡ false
      → Chain r.heap p q xs
      → length xs < k
      → Returns (Linked r fresh j b p ((p, i) ∷ xs)) (link k p fresh r)
  unfolding last_node write
  link-Chain zero ne e out apart c fuel = absurd (omega arith)
  link-Chain (suc k) {b} {p} {q} {i} ne e out apart (nil end) fuel =
      let r' : Registry = record r { heap = write r.heap p (some (node i b fresh)) } in
      let there' : r'.heap fresh ≡ some (node j x y) = ground arith in
      rw (load-ok r ne e, end, set_next-ok r ne e fresh, set_prev-ok r' ne_fresh there' p)
        (returns (
          cons ne (ground arith) (ground arith) (cons ne_fresh (ground arith) refl (nil ends)),
          refl,
          λ a o. ground arith,
        ))
  link-Chain (suc k) {p} ne e out apart (cons {q = q'} {i = i'} {xs} ne' e' out' c) fuel =
      rw (load-ok r ne e, not_null ne')
        (Returns.mono (link-Chain k ne' e' out' (ground arith) c (omega arith))
          λ _ g (chain, kept, same). (
            cons ne (ground (arith, same p)) (ground (arith, has-append p xs ((fresh, j) ∷ [])))
                chain,
            kept,
            λ a o. ground (arith, same a),
          ))

abbrev pub Appended : Ptr → NodeInfo → Registry → Cells → Ptr → Registry → Type 0
Appended fresh info r xs p g =
    (p ≡ fresh)
    × IsList g (xs ++ (fresh, info) ∷ [])
    × SameOutside ((fresh, info) ∷ xs) r.heap g.heap

module _ (k : ℕ) (fresh : Ptr) (junk : ListNode) (info : NodeInfo) where
  append_info-Chain :
      {h : Heap} {p : Ptr} {xs : Cells}
      → Chain h null p xs
      → fresh ≢ null
      → h fresh ≡ none
      → length xs < k
      → let r : Registry = record { heap = h; first = p } in
        Returns (Appended fresh info r xs) (append_info k fresh junk info r)
  unfolding append_info write store_new set_first
  append_info-Chain {h} {p} (nil e) ne unused fuel =
      let new : ListNode = record junk { info = info; next = null } in
      let r' : Registry = record { heap = write h fresh (some new); first = null } in
      let there : r'.heap fresh ≡ some new = ground arith in
      rw (not_null ne, e, set_prev-ok r' ne there null)
        (returns (refl, cons ne (ground arith) refl (nil refl), λ a o. ground arith))
  append_info-Chain {h} {p} (cons {i} {xs} ne' e out c) ne unused fuel =
      let new : ListNode = record junk { info = info; next = null } in
      let r' : Registry = record { heap = write h fresh (some new); first = p } in
      let there : r'.heap fresh ≡ some new = ground arith in
      let apart = not-mem_of_none fresh (cons ne' e out c) unused in
      let rest : Chain r'.heap p _ xs = frame c λ a o. ground arith in
      rw (not_null ne, not_null ne')
        (Returns.bind
          (link-Chain {r = r'} there ne refl k {b = null} {i = i} ne' (ground arith) out apart rest
            (omega arith))
          λ _ g (chain, kept, same). returns (refl, rw kept chain, λ a o. ground (arith, same a)))

  -- `append_info` makes the list longer by the new node, at its end, and returns that node; it
  -- writes only to nodes of the list and to the new block. The conditions: `malloc` returns a block
  -- that is not in use, and the loop is given more rounds than the list has nodes.
  pub append_info-append :
      (r : Registry) (xs : Cells)
      → IsList r xs
      → fresh ≢ null
      → r.heap fresh ≡ none
      → length xs < k
      → Returns (Appended fresh info r xs) (append_info k fresh junk info r)
  append_info-append r xs is = append_info-Chain is
