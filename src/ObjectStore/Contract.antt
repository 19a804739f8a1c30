-- ===== src/ObjectStore/Contract.antt =====
-- What an object store promises to its callers.
use ceph_in_c.Base.{◌≡◌, ◌∙◌, ap}
use ceph_in_c.Base.Errno.{Errno, Exit, returns}
use ceph_in_c.Base.Alloc.{Alloc, Plenty}
use ceph_in_c.Map.{RbTree}
use ceph_in_c.Tran.{Tran}
use ceph_in_c.Tran.Ops
use ceph_in_c.Tran.Ops.{ops}
use ceph_in_c.MemStore.Spec.{Store, apply_all}
use ceph_in_c.MemStore.Submit.{AllValid}
use ceph_in_c.ObjectStore.{OsFuncs}

-- A call returned what the specification says, in a valid store that stands for what it leaves.
pub record Served {S : Type 0} (IsValid : S → Type 0) (view : S → Store) (spec : Errno × Store)
    (out : Exit (Errno × S × Alloc)) : Type 0 where
  pub store : S
  pub rest : Alloc
  pub returned : out ≡ returns (spec.0, store, rest)
  pub valid : IsValid store
  pub seen : view store ≡ spec.1
  pub plenty : Plenty rest

pub Served-along :
    {S : Type 0} {IsValid : S → Type 0} {view : S → Store} {spec spec' : Errno × Store}
    {out out' : Exit (Errno × S × Alloc)}
    → spec' ≡ spec
    → out ≡ out'
    → Served IsValid view spec' out'
    → Served IsValid view spec out
Served-along {view = view} e h s = record {
  store = s.store;
  rest = s.rest;
  returned = h ∙ s.returned ∙ ap (λ r. returns (r.0, s.store, s.rest)) e;
  valid = s.valid;
  seen = s.seen ∙ ap (λ r. r.1) e;
  plenty = s.plenty;
}

-- A store implements the specification if each valid transaction of prepared operations does to
-- it what the specification says, where no allocation fails.
pub record Implements (rb : RbTree) {S : Type 0} (funcs : OsFuncs S) : Type 1 where
  pub IsValid : S → Type 0
  pub view : S → Store
  pub submits :
      {os : S} (t : Tran) (a : Alloc)
      → IsValid os
      → Ops.IsValid t
      → AllValid rb (ops t)
      → Plenty a
      → Served IsValid view (apply_all (view os) (ops t)) (funcs.submit_tran os t a)
