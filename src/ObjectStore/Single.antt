-- ===== src/ObjectStore/Single.antt =====
-- The functions of os/object_store.c against the specification, for every store that implements it.
use ceph_in_c.Base.{ℕ, ◌≤◌, ◌≡◌, refl, ◌∙◌, ap, List, [], ◌∷◌, ◌++◌, arith, length}
use ceph_in_c.Base.Int.{pos}
use ceph_in_c.Base.Order.{CString, string_ord}
use ceph_in_c.Base.Errno.{Errno, Exit}
use ceph_in_c.Base.Alloc.{Alloc, Plenty}
use ceph_in_c.Map.{RbTree}
use ceph_in_c.OsTypes.{coll_id_ord}
use ceph_in_c.Tran.{
  TranOp, Tran, coll_create, coll_remove, obj_touch, obj_write, obj_remove, tran_coll_create,
  tran_coll_remove, tran_obj_touch, tran_obj_write, tran_obj_remove,
}
use ceph_in_c.Tran.Ops
use ceph_in_c.Tran.Ops.{ops, Appended, tran_new-IsValid, put_op-Appended}
use ceph_in_c.MemStore.Spec.{Store, apply, apply_all}
use ceph_in_c.MemStore.Refine.{OpValid}
use ceph_in_c.ObjectStore.{
  OsFuncs, submit_one, create_coll, remove_coll, touch_obj, write_obj, remove_obj,
}
use ceph_in_c.ObjectStore.Contract.{Served, Served-along, Implements}

-- A transaction of one operation does that operation.
apply_all_one : (s : Store) (op : TranOp) → apply_all s (op ∷ []) ≡ apply s op
apply_all_one s op = ground arith

module _ (rb : RbTree) {S : Type 0} (funcs : OsFuncs S) (impl : Implements rb funcs) where
  open impl use {IsValid, view, submits}

  pub submit_one-Served :
      {os : S} (op : TranOp) (add : Tran → Alloc → Exit (Errno × Tran × Alloc)) (a : Alloc)
      → IsValid os
      → OpValid rb op
      → ((t : Tran) (b : Alloc) → Ops.IsValid t → Plenty b → Appended t op (add t b))
      → Plenty a
      → Served IsValid view (apply (view os) op) (submit_one funcs os add a)
  unfolding submit_one
  submit_one-Served {os} op add a v w added p =
      let (t, a₁, e, tv, empty, p₁) = tran_new-IsValid a p in
      let x = added t a₁ tv p₁ in
      let one : ops x.tran ≡ op ∷ [] = x.recorded ∙ ap (λ es. es ++ (op ∷ [])) empty in
      let s = submits {os = os} x.tran x.rest v x.valid (rw one (w, tt)) x.plenty in
      let spec = ap (apply_all (view os)) one ∙ apply_all_one (view os) op in
      Served-along spec (ground (arith, e, x.returned)) s

  -- Each function does its one operation to a valid store, where the store implements the
  -- specification, the numbers are not negative, as many bytes are there as are written, and no
  -- allocation fails.
  pub single-Served :
      {os : S} (cid offset size : ℕ) (oid : CString) (bytes : List ℕ) (stale : ℕ) (a : Alloc)
      → IsValid os
      → size ≤ length bytes
      → Plenty a
      → Served IsValid view
          (apply (view os) (coll_create (pos cid)))
          (create_coll funcs os (pos cid) a)
        × Served IsValid view
            (apply (view os) (coll_remove (pos cid)))
            (remove_coll funcs os (pos cid) a)
        × Served IsValid view
            (apply (view os) (obj_touch (pos cid) oid (pos stale)))
            (touch_obj funcs os (pos cid) oid (pos stale) a)
        × Served IsValid view
            (apply (view os) (obj_write (pos cid) oid (pos offset) (pos size) bytes))
            (write_obj funcs os (pos cid) oid (pos offset) (pos size) bytes a)
        × Served IsValid view
            (apply (view os) (obj_remove (pos cid) oid))
            (remove_obj funcs os (pos cid) oid a)
  unfolding create_coll remove_coll touch_obj write_obj remove_obj tran_coll_create tran_coll_remove
      tran_obj_touch tran_obj_write tran_obj_remove
  single-Served {os} cid offset size oid bytes stale a v fits p = (
    submit_one-Served {os = os} _ _ a v (record { signs = refl; prepared = tt })
        (λ t b. put_op-Appended _ t b) p,
    submit_one-Served {os = os} _ _ a v (record { signs = refl; prepared = tt })
        (λ t b. put_op-Appended _ t b) p,
    submit_one-Served {os = os} _ _ a v (record { signs = refl; prepared = tt })
        (λ t b. put_op-Appended _ t b) p,
    submit_one-Served {os = os} _ _ a v (record { signs = refl; prepared = fits })
        (λ t b. put_op-Appended _ t b) p,
    submit_one-Served {os = os} _ _ a v (record { signs = refl; prepared = tt })
        (λ t b. put_op-Appended _ t b) p,
  )
