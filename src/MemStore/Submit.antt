-- ===== src/MemStore/Submit.antt =====
-- `cceph_mem_store_submit_tran` against the specification.
use ceph_in_c.Base.{ℕ, suc, ◌+◌, ◌≡◌, refl, ◌∙◌, ap, List, [], ◌∷◌, arith, length, get_elem?}
use mathlib.Core.Path.{subst}
use ceph_in_c.Base.Errno.{Errno, ok, returns}
use ceph_in_c.Base.Alloc.{Alloc, Plenty}
use ceph_in_c.Map.{RbTree}
use ceph_in_c.Tran.{TranOp, Tran, get_op}
use ceph_in_c.Tran.Ops
use ceph_in_c.Tran.Ops.{ops}
use ceph_in_c.Tran.Get.{get_op-ops}
use ceph_in_c.MemStore.{MemStore, Outcome, submit_from, submit_tran}
use ceph_in_c.MemStore.Spec.{Store, apply, apply_all}
use ceph_in_c.MemStore.View.{view, IsValid}
use ceph_in_c.MemStore.Colls.{Done}
use ceph_in_c.MemStore.Refine.{OpValid, do_op_refines}

module _ (rb : RbTree) where
  abbrev pub AllValid : List TranOp → Type 0
  AllValid [] = Unit
  AllValid (op ∷ es) = OpValid rb op × AllValid es

  -- One round of the loop, by what its operation returned.
  round-Done :
      (err : Errno) (s : Store) (rest : Errno × Store) (tail : Outcome) (os : MemStore) (a : Alloc)
      → IsValid rb os
      → view os ≡ s
      → Plenty a
      → Done rb rest tail
      → Done rb
          (elim err [ ok ↦ rest | e ↦ (e, s) ])
          (elim err [ ok ↦ tail | e ↦ returns (e, os, a) ])
  round-Done ok s rest tail os a v e p d = d
  round-Done _ s rest tail os a v e p d = record {
    store = os;
    rest = a;
    returned = refl;
    valid = v;
    seen = e;
    plenty = p;
  }

  -- The loop from an index on, where the operations from there are a list.
  submit_from-Done :
      {os : MemStore} (es : List TranOp) (i : ℕ) (t : Tran) (a : Alloc)
      → ((j : ℕ) → get_op t (i + j) ≡ get_elem? es j)
      → IsValid rb os
      → AllValid es
      → Plenty a
      → Done rb (apply_all (view os) es) (submit_from rb (length es) i os t a)
  unfolding submit_from
  submit_from-Done {os} [] i t a at v w p = record {
    store = os;
    rest = a;
    returned = refl;
    valid = v;
    seen = refl;
    plenty = p;
  }
  submit_from-Done {os} (op ∷ es) i t a at v w p =
      let d = do_op_refines rb op a v w.0 p in
      let here = ap (get_op t) {x = i} {y = i + 0} (omega arith) ∙ at 0 in
      let later =
        λ (j : ℕ). ap (get_op t) {x = i + 1 + j} {y = i + suc j} (omega arith) ∙ at (suc j) in
      let tail = submit_from-Done {os = d.store} es (i + 1) t d.rest later d.valid w.1 d.plenty in
      rw (submit_from, here, d.returned)
        (round-Done (apply (view os) op).0 (apply (view os) op).1
          (apply_all (apply (view os) op).1 es)
          (submit_from rb (length es) (i + 1) d.store t d.rest) d.store d.rest d.valid d.seen
          d.plenty
          (subst
            (λ s. Done rb (apply_all s es) (submit_from rb (length es) (i + 1) d.store t d.rest))
            d.seen tail))

  -- Where no allocation fails, a transaction of prepared operations, submitted to a valid store,
  -- does its operations in order up to the first that fails, and returns the code of that one;
  -- what the operations before it did stays.
  pub submit_tran-Done :
      {os : MemStore} (t : Tran) (a : Alloc)
      → IsValid rb os
      → Ops.IsValid t
      → AllValid (ops t)
      → Plenty a
      → Done rb (apply_all (view os) (ops t)) (submit_tran rb os t a)
  unfolding submit_tran
  submit_tran-Done {os} t a v tv w p =
      let (same, count) = get_op-ops t 0 tv in
      rw count (
        submit_from-Done (ops t) 0 t a
          (λ j. ap (get_op t) {x = 0 + j} {y = j} (omega arith) ∙ (get_op-ops t j tv).0) v w p)
