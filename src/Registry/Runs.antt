-- ===== src/Registry/Runs.antt =====
-- Runs of the registry on concrete lists, and its theorems at them.
use dicon.Base.{ℕ, ◌≡◌, refl, none, some, [], ◌∷◌, arith}
use dicon.Registry.{
  NodeInfo, Ptr, null, ListNode, Heap, Registry, Cmd, ok, ◌>>=◌, pure, write, load, store_new,
  set_next, set_prev, set_first, free, last_node, append_info, remove_info, count_from, node_count,
  copy_infos, get_infos,
}
use dicon.Registry.Returns.{Returns}
use dicon.Registry.Chain.{node, Cells, Chain, nil, cons, IsList, SameOutside}
use dicon.Registry.Remove.{remove_info-erase, remove_info-first}

abbrev info : ℕ → NodeInfo
info n = record { address = record { family = 2; ipv4 = n; ipv6_tail = [] }; core_count = n }

abbrev junk : ListNode
junk = node (info 0) 77 78

abbrev empty : Registry
empty = record { heap = λ _. none; first = null }

-- Three announcements, with `malloc` returning 10, 20 and 30.
announce_three : Cmd (Unit {0})
announce_three = do
  a ← append_info 9 10 junk (info 1)
  b ← append_info 9 20 junk (info 2)
  c ← append_info 9 30 junk (info 3)
  pure tt

three_reported :
    (◌>>=◌ announce_three λ _. get_infos 9 >>= λ i. pure i) empty
    ≡ (◌>>=◌ announce_three λ _. pure (3, info 1 ∷ info 2 ∷ info 3 ∷ [])) empty
unfolding announce_three append_info remove_info get_infos node_count count_from copy_infos
    last_node load store_new set_next set_prev set_first free write
three_reported = refl

-- When the first of three nodes leaves, none is reported.
first_leaves :
    (◌>>=◌ announce_three λ _. remove_info 10 >>= λ _. get_infos 9 >>= λ i r. ok i empty) empty
    ≡ ok (0, []) empty
unfolding announce_three append_info remove_info get_infos node_count count_from copy_infos
    last_node load store_new set_next set_prev set_first free write
first_leaves = refl

abbrev heap : Heap
heap =
    write
      (write (write (λ _. none) 10 (some (node (info 1) null 20))) 20 (some (node (info 2) 10 30)))
      30 (some (node (info 3) 20 null))

abbrev three : Registry
three = record { heap = heap; first = 10 }

abbrev cells : Cells
cells = (10, info 1) ∷ (20, info 2) ∷ (30, info 3) ∷ []

three-IsList : IsList three cells
unfolding write
three-IsList =
    cons (omega arith) refl refl
      (cons (omega arith) refl refl (cons (omega arith) refl refl (nil refl)))

remove_info-erase_example :
    Returns
      (λ _ g.
        IsList g ((10, info 1) ∷ (30, info 3) ∷ [])
        × (g.heap 20 ≡ none)
        × SameOutside cells heap g.heap)
      (remove_info 20 three)
remove_info-erase_example =
    remove_info-erase three 10 20 (info 1) (info 2) [] ((30, info 3) ∷ []) three-IsList

remove_info-first_example :
    Returns
      (λ _ g.
        (g.heap 10 ≡ none)
        × IsList g []
        × (q : Ptr) × Chain g.heap null q ((20, info 2) ∷ (30, info 3) ∷ []))
      (remove_info 10 three)
remove_info-first_example =
    remove_info-first three 10 (info 1) ((20, info 2) ∷ (30, info 3) ∷ []) three-IsList
