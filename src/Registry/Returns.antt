-- ===== src/Registry/Returns.antt =====
-- Total correctness of a run over the registry: no fault, enough fuel, and a postcondition; and the
-- outcome of each access to a node that is there.
use dicon.Base.{◌≡◌, ◌≢◌, refl, false, none, some, arith, ◌==◌}
use mathlib.Core.Path.{subst}
use dicon.Registry.{
  Ptr, null, ListNode, Registry, Run, ok, fault, out_of_fuel, Cmd, and_then, write, load, set_next,
  set_prev, free,
}

pub data Returns {A : Type 0} (P : A → Registry → Type 0) : Run A → Type 0 where
  returns : {a : A} {r : Registry} → P a r → Returns P (ok a r)

module _ {A : Type 0} {P : A → Registry → Type 0} where
  pub bind :
      {B : Type 0} {Q : B → Registry → Type 0} {m : Run A} {k : A → Cmd B}
      → Returns P m
      → ((a : A) (r : Registry) → P a r → Returns Q (k a r))
      → Returns Q (and_then m k)
  bind (returns p) next = next _ _ p

  pub mono :
      {Q : A → Registry → Type 0} {m : Run A}
      → Returns P m
      → ((a : A) (r : Registry) → P a r → Q a r)
      → Returns Q m
  mono (returns p) weaken = returns (weaken _ _ p)

-- The outcome of a run that returns.
pub ok_of_Returns :
    {A : Type 0} {P : A → Registry → Type 0} {m : Run A}
    → Returns P m
    → (a : A) × (r : Registry) × (m ≡ ok a r) × P a r
ok_of_Returns (returns p) = (_, _, refl, p)

abbrev At : {A : Type 0} → (A → Registry → Type 0) → Run A → Type 0
At P (ok a r) = P a r
At P fault = Unit
At P out_of_fuel = Unit

-- What holds of the outcome that a run is known to have.
pub at_ok :
    {A : Type 0} {P : A → Registry → Type 0} {m : Run A} {a : A} {r : Registry}
    → Returns P m
    → m ≡ ok a r
    → P a r
at_ok {P} (returns p) e = subst (At P) e p

pub not_null : {p : Ptr} → p ≢ null → (p == null) ≡ false
not_null ne = ground arith

module _ (r : Registry) {p : Ptr} {n : ListNode} (ne : p ≢ null) (here : r.heap p ≡ some n) where
  pub load-ok : load p r ≡ ok n r
  unfolding load
  load-ok = ground arith

  pub set_next-ok :
      (q : Ptr)
      → set_next p q r ≡ ok tt (record r { heap = write r.heap p (some (record n { next = q })) })
  unfolding set_next
  set_next-ok q = ground arith

  pub set_prev-ok :
      (q : Ptr)
      → set_prev p q r ≡ ok tt (record r { heap = write r.heap p (some (record n { prev = q })) })
  unfolding set_prev
  set_prev-ok q = ground arith

  pub free-ok : free p r ≡ ok tt (record r { heap = write r.heap p none })
  unfolding free
  free-ok = ground arith
