-- ===== src/Registry/Cut.antt =====
-- What `remove_info` does to the nodes round the one that it removes.
use dicon.Base.{◌≡◌, ◌≢◌, refl, ◌∙◌, inl, inr, none, some, arith, ◌==◌, if◌then◌else◌, Bool-cases}
use dicon.Registry.{
  Ptr, null, ListNode, Heap, Registry, Cmd, ◌>>◌, write, set_next, set_first, free, remove_info,
}
use dicon.Registry.Returns.{Returns, returns, load-ok, set_next-ok, set_prev-ok, free-ok}

-- The node at `c` is `n`, and its neighbours point back at it.
pub record Place (h : Heap) (c : Ptr) (n : ListNode) : Type 0 where
  pub ne : c ≢ null
  pub here : h c ≡ some n
  pub after : n.next ≢ null → (m : ListNode) × (h n.next ≡ some m) × (m.prev ≡ c)
  pub before : n.prev ≢ null → (m : ListNode) × (h n.prev ≡ some m) × (m.next ≡ c)
  pub ne_next : n.next ≢ c
  pub ne_prev : n.prev ≢ c
  pub apart : n.next ≢ null → n.next ≢ n.prev

-- In `g` the node is gone, its neighbours point at each other, and all else is as in `h`.
pub record Cut (h g : Heap) (c : Ptr) (n : ListNode) : Type 0 where
  pub freed : g c ≡ none
  pub forward :
      (m : ListNode)
      → n.next ≢ null
      → h n.next ≡ some m
      → g n.next ≡ some (record m { prev = n.prev })
  pub backward :
      (m : ListNode)
      → n.prev ≢ null
      → h n.prev ≡ some m
      → g n.prev ≡ some (record m { next = n.next })
  pub same : (a : Ptr) → a ≢ c → (a ≢ n.next) → (a ≢ n.prev) → g a ≡ h a
  pub null_kept : g null ≡ h null

abbrev pub Removed : Registry → Ptr → ListNode → Unit {0} → Registry → Type 0
Removed r c n _ g = Cut r.heap g.heap c n × (g.first ≡ (if n.prev == null then null else r.first))

-- The state `r` once the next node, if there is one, points back past `c`.
record Half (h : Heap) (r : Registry) (c : Ptr) (n : ListNode) : Type 0 where
  here : r.heap c ≡ some n
  forward :
      (m : ListNode)
      → n.next ≢ null
      → h n.next ≡ some m
      → r.heap n.next ≡ some (record m { prev = n.prev })
  same : (a : Ptr) → a ≢ n.next → r.heap a ≡ h a
  backward : n.prev ≢ null → r.heap n.prev ≡ h n.prev
  null_kept : r.heap null ≡ h null

abbrev second_half : Ptr → ListNode → Cmd (Unit {0})
second_half c n = (if n.prev == null then set_first null else set_next n.prev n.next) >> free c

second_half-Removed :
    (h : Heap) (r : Registry) {c : Ptr} {n : ListNode}
    → Place h c n
    → Half h r c n
    → Returns
        (λ _ g. Cut h g.heap c n × (g.first ≡ (if n.prev == null then null else r.first)))
        (second_half c n r)
unfolding set_first write
second_half-Removed h r {c} {n} pl half = elim (Bool-cases (n.prev == null)) [
  | inl first ↦
      let r' : Registry = record r { first = null } in
      rw (first, free-ok r' pl.ne half.here)
        (returns (
          record {
            freed = ground arith;
            forward = λ m k e. ground (arith, pl.ne_next, half.forward m k e);
            backward = λ m k e. absurd (k (ground arith));
            same = λ a x y z. ground (arith, half.same a y);
            null_kept = ground (arith, pl.ne, half.null_kept);
          },
          refl,
        ))
  | inr inner ↦
      let (m, there, on) = pl.before (ground arith) in
      let there' : r.heap n.prev ≡ some m = half.backward (ground arith) ∙ there in
      let r' : Registry = record r {
        heap = write r.heap n.prev (some (record m { next = n.next }));
      } in
      let here' : r'.heap c ≡ some n = ground (arith, half.here, pl.ne_prev) in
      rw (inner, set_next-ok r (ground arith) there' n.next, free-ok r' pl.ne here')
        (returns (
          record {
            freed = ground arith;
            forward = λ m' k e. ground (arith, pl.ne_next, pl.apart k, half.forward m' k e);
            backward = λ m' k e. ground (arith, pl.ne_prev, there, e);
            same = λ a x y z. ground (arith, half.same a y);
            null_kept = ground (arith, pl.ne, half.null_kept);
          },
          refl,
        ))
]

module _ (r : Registry) {c : Ptr} {n : ListNode} where
  pub remove_info-Removed : Place r.heap c n → Returns (Removed r c n) (remove_info c r)
  unfolding remove_info write
  remove_info-Removed pl = elim (Bool-cases (n.next == null)) [
    | inl last ↦
        rw (load-ok r pl.ne pl.here, last, load-ok r pl.ne pl.here)
          (second_half-Removed r.heap r pl (record {
            here = pl.here;
            forward = λ m k e. absurd (k (ground arith));
            same = λ a k. refl;
            backward = λ k. refl;
            null_kept = refl;
          }))
    | inr more ↦
        let (m, there, back) = pl.after (ground arith) in
        let r' : Registry = record r {
          heap = write r.heap n.next (some (record m { prev = n.prev }));
        } in
        let here' : r'.heap c ≡ some n = ground (arith, pl.here, pl.ne_next) in
        rw
          (
            load-ok r pl.ne pl.here,
            more,
            set_prev-ok r (ground arith) there n.prev,
            load-ok r' pl.ne here',
          )
          (second_half-Removed r.heap r' pl (record {
            here = here';
            forward = λ m' k e. ground (arith, there, e);
            same = λ a k. ground arith;
            backward = λ k. ground (arith, pl.apart (ground arith));
            null_kept = ground arith;
          }))
  ]
