-- ===== src/Registry.antt =====
-- The list of compute nodes of main-server/src/main.c: `append_info`, `remove_info`, and the walk of
-- `handle_get_info`. The nodes lie on an explicit heap; `NODES_INFO` is the field `first`.
pub mod Returns
pub mod Chain
pub mod Append
pub mod Cut
pub mod Split
pub mod Remove
pub mod Collect
pub mod Components
pub mod Whole
mod Runs
use dicon.Base.{
  ℕ, zero, suc, ◌+◌, ◌≡◌, Bool, Option, none, some, List, [], ◌∷◌, ◌==◌, if◌then◌else◌,
}
use dicon.Socket.{IpAddr}

-- `dic_node_info_t`
pub record NodeInfo : Type 0 where
  pub address : IpAddr
  pub core_count : ℕ

abbrev pub Ptr : Type 0
Ptr = ℕ

abbrev pub null : Ptr
null = 0

-- `struct linked_list_node_info`
pub record ListNode : Type 0 where
  pub info : NodeInfo
  pub prev : Ptr
  pub next : Ptr

abbrev pub Heap : Type 0
Heap = Ptr → Option ListNode

pub record Registry : Type 0 where
  pub heap : Heap
  pub first : Ptr

-- How a run ends. `fault` is a read or write through NULL or a freed pointer; `out_of_fuel` is no
-- outcome of the program, but a loop that was given too few rounds.
pub data Run (A : Type 0) : Type 0 where
  ok : A → Registry → Run A
  fault : Run A
  out_of_fuel : Run A

abbrev pub Cmd : Type 0 → Type 0
Cmd A = Registry → Run A

abbrev pub pure : {A : Type 0} → A → Cmd A
pure a r = ok a r

abbrev pub and_then : {A B : Type 0} → Run A → (A → Cmd B) → Run B
and_then (ok a r) f = f a r
and_then fault f = fault
and_then out_of_fuel f = out_of_fuel

infixl 5 ◌>>=◌ ◌>>◌
abbrev pub ◌>>=◌ : {A B : Type 0} → Cmd A → (A → Cmd B) → Cmd B
◌>>=◌ m f r = and_then (m r) f

abbrev pub ◌>>◌ : {B : Type 0} → Cmd (Unit {0}) → Cmd B → Cmd B
m >> k = m >>= λ _. k

pub write : Heap → Ptr → Option ListNode → Heap
write h p c q = if q == p then c else h q

pub load : Ptr → Cmd ListNode
load p r = if p == null then fault else elim (r.heap p) [ none ↦ fault | some n ↦ ok n r ]

-- `malloc` returns `p`, and the caller fills the block: a write through NULL when it failed.
pub store_new : Ptr → ListNode → Cmd (Unit {0})
store_new p n r = if p == null then fault else ok tt (record r { heap = write r.heap p (some n) })

pub set_next : Ptr → Ptr → Cmd (Unit {0})
unfolding load write
set_next p q = do
  n ← load p
  λ r. ok tt (record r { heap = write r.heap p (some (record n { next = q })) })

pub set_prev : Ptr → Ptr → Cmd (Unit {0})
unfolding load write
set_prev p q = do
  n ← load p
  λ r. ok tt (record r { heap = write r.heap p (some (record n { prev = q })) })

pub set_first : Ptr → Cmd (Unit {0})
set_first p r = ok tt (record r { first = p })

pub free : Ptr → Cmd (Unit {0})
unfolding load write
free p = do n ← load p; λ r. ok tt (record r { heap = write r.heap p none })

-- `while(curr_node->next != NULL) curr_node = curr_node->next;`
pub last_node : ℕ → Ptr → Cmd Ptr
last_node zero curr = λ _. out_of_fuel
last_node (suc k) curr = do n ← load curr; if n.next == null then pure curr else last_node k n.next

-- `append_info`, with the address and the contents of the block that `malloc` returns. The loop is
-- given `k` rounds.
pub append_info : ℕ → (fresh : Ptr) (junk : ListNode) → NodeInfo → Cmd Ptr
append_info k fresh junk info r =
    (do
      store_new fresh (record junk { info = info; next = null })
      if r.first == null
          then set_prev fresh null >> set_first fresh
          else (do curr ← last_node k r.first; set_next curr fresh; set_prev fresh curr)
      pure fresh)
      r

-- `remove_info`
pub remove_info : Ptr → Cmd (Unit {0})
remove_info to_remove = do
  t ← load to_remove
  if t.next == null then pure tt else set_prev t.next t.prev
  t' ← load to_remove
  if t'.prev == null then set_first null else set_next t'.prev t'.next
  free to_remove

-- `for(; curr_node->next != NULL; len++) curr_node = curr_node->next;`
pub count_from : ℕ → Ptr → ℕ → Cmd ℕ
count_from zero curr len = λ _. out_of_fuel
count_from (suc k) curr len = do
  n ← load curr
  if n.next == null then pure len else count_from k n.next (len + 1)

-- The first loop of `handle_get_info`: the number of nodes. The loop is given `k` rounds.
pub node_count : ℕ → Cmd ℕ
node_count k r = (if r.first == null then pure 0 else count_from k r.first 1) r

-- The second loop: the information of `len` nodes, from `curr` on.
pub copy_infos : ℕ → Ptr → Cmd (List NodeInfo)
copy_infos zero curr = pure []
copy_infos (suc len) curr = do n ← load curr; infos ← copy_infos len n.next; pure (n.info ∷ infos)

-- What `handle_get_info` puts into its answer: `count` and `nodes`.
pub get_infos : ℕ → Cmd (ℕ × List NodeInfo)
get_infos k = do
  len ← node_count k
  first ← λ r. ok r.first r
  infos ← copy_infos len first
  pure (len, infos)
