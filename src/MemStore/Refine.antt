-- ===== src/MemStore/Refine.antt =====
-- `cceph_mem_store_do_op` against the specification, for every operation.
use ceph_in_c.Base.{◌≤◌, ◌≡◌, ◌≢◌, refl, ◌∙◌, Bool, true, ◌&&◌, [], arith, length, ap}
use ceph_in_c.Base.Int.{pos, negsuc}
use ceph_in_c.Base.Order.{string_ord}
use ceph_in_c.Base.Errno.{Errno, ok, returns}
use ceph_in_c.Base.Alloc.{Alloc, Plenty}
use ceph_in_c.Map.{RbTree}
use ceph_in_c.Map.Laws
use ceph_in_c.OsTypes.{coll_id_ord}
use ceph_in_c.Tran.{
  TranOp, noop, coll_create, coll_remove, coll_map, obj_touch, obj_write, obj_map, obj_remove,
  unknown_op, is_nonneg,
}
use ceph_in_c.MemStore.{MemStore, do_op, do_op_obj_write}
use ceph_in_c.MemStore.Spec.{Store, size_of, apply}
use ceph_in_c.MemStore.View.{view, IsValid}
use ceph_in_c.MemStore.Colls.{Done, coll_create-Done, coll_remove-Done, coll_map-Done}
use ceph_in_c.MemStore.Writes.{write-Done}
use ceph_in_c.MemStore.ObjectOps.{obj_remove-Done, obj_map-Done}

-- The assertions on the signs of an operation's numbers, at the head of the functions.
abbrev pub asserted : TranOp → Bool
asserted noop = true
asserted (coll_create cid) = is_nonneg cid
asserted (coll_remove cid) = is_nonneg cid
asserted (coll_map cid map) = is_nonneg cid
asserted (obj_touch cid oid stale) = is_nonneg cid && is_nonneg stale
asserted (obj_write cid oid offset size bytes) =
    is_nonneg cid && (is_nonneg offset && is_nonneg size)
asserted (obj_map cid oid map) = is_nonneg cid
asserted (obj_remove cid oid) = is_nonneg cid
asserted (unknown_op code) = true

module _ (rb : RbTree) where
  -- What a caller owes: a map that the map functions built, and as many bytes as are written.
  abbrev pub Prepared : TranOp → Type 0
  Prepared (coll_map cid map) = Laws.IsValid rb map
  Prepared (obj_map cid oid map) = Laws.IsValid rb map
  Prepared (obj_write cid oid offset size bytes) = size_of size ≤ length bytes
  Prepared _ = Unit

  pub record OpValid (op : TranOp) : Type 0 where
    pub signs : asserted op ≡ true
    pub prepared : Prepared op

  -- On a valid store, where no allocation fails, every prepared operation whose assertions hold
  -- returns what the specification says, and leaves a valid store that stands for what the
  -- specification leaves.
  pub do_op_refines :
      {os : MemStore} (op : TranOp) (a : Alloc)
      → IsValid rb os
      → OpValid op
      → Plenty a
      → Done rb (apply (view os) op) (do_op rb os op a)
  unfolding do_op do_op_obj_write
  do_op_refines {os} noop a v w p = record {
    store = os;
    rest = a;
    returned = refl;
    valid = v;
    seen = refl;
    plenty = p;
  }
  do_op_refines {os} (unknown_op code) a v w p = record {
    store = os;
    rest = a;
    returned = refl;
    valid = v;
    seen = refl;
    plenty = p;
  }
  do_op_refines (coll_create (pos n)) a v w p = coll_create-Done rb n a v p
  do_op_refines (coll_create (negsuc n)) a v w p = cc w.signs
  do_op_refines (coll_remove (pos n)) a v w p = coll_remove-Done rb n a v p
  do_op_refines (coll_remove (negsuc n)) a v w p = cc w.signs
  do_op_refines (coll_map (pos n) map) a v w p = coll_map-Done rb n map a v w.prepared p
  do_op_refines (coll_map (negsuc n) map) a v w p = cc w.signs
  do_op_refines (obj_touch (pos n) oid (pos stale)) a v w p =
      write-Done rb (pos n) oid stale 0 [] a v (omega arith) p
  do_op_refines (obj_touch (pos n) oid (negsuc m)) a v w p = cc w.signs
  do_op_refines (obj_touch (negsuc n) oid stale) a v w p = cc w.signs
  do_op_refines (obj_write (pos n) oid (pos offset) (pos size) bytes) a v w p =
      write-Done rb (pos n) oid offset size bytes a v w.prepared p
  do_op_refines (obj_write (pos n) oid (pos offset) (negsuc size) bytes) a v w p = cc w.signs
  do_op_refines (obj_write (pos n) oid (negsuc offset) size bytes) a v w p = cc w.signs
  do_op_refines (obj_write (negsuc n) oid offset size bytes) a v w p = cc w.signs
  do_op_refines (obj_map (pos n) oid map) a v w p = obj_map-Done rb n oid map a v w.prepared p
  do_op_refines (obj_map (negsuc n) oid map) a v w p = cc w.signs
  do_op_refines (obj_remove (pos n) oid) a v w p = obj_remove-Done rb n oid a v p
  do_op_refines (obj_remove (negsuc n) oid) a v w p = cc w.signs

-- An operation that fails leaves the specified store as it was.
pub apply-error : (s : Store) (op : TranOp) → (apply s op).0 ≢ ok → (apply s op).1 ≡ s
apply-error s noop h = absurd (h refl)
apply-error s op h = ground arith

module _ (rb : RbTree) where
  -- On a valid store, where no allocation fails, a prepared operation whose assertions hold and
  -- that returns an error has changed nothing that the store stands for.
  pub do_op_error_changes_nothing :
      {os os' : MemStore} (op : TranOp) (a a' : Alloc) {err : Errno}
      → IsValid rb os
      → OpValid rb op
      → Plenty a
      → do_op rb os op a ≡ returns (err, os', a')
      → err ≢ ok
      → view os' ≡ view os
  do_op_error_changes_nothing {os} {os'} op a a' {err} v w p h e =
      let d = do_op_refines rb op a v w p in
      let same_err : err ≡ (apply (view os) op).0 = ground (arith, d.returned) in
      let same_store : os' ≡ d.store = ground (arith, d.returned) in
      ap view same_store ∙ d.seen ∙ apply-error (view os) op (λ q. e (same_err ∙ q))
