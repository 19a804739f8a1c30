-- ===== src/MemStore/Invariant.antt =====
-- The invariant of the store in memory on every path, whichever allocations fail.
use ceph_in_c.Base.{ℕ, zero, suc, ◌+◌, inl, inr, Option-cases}
use ceph_in_c.Base.Int.{pos}
use ceph_in_c.Base.Order.{string_ord}
use ceph_in_c.Base.Errno.{Errno, returns, abort, ◌>>=◌}
use ceph_in_c.Base.Alloc.{Alloc}
use ceph_in_c.Map.{RbTree}
use ceph_in_c.OsTypes.{coll_id_ord}
use ceph_in_c.Tran.{
  TranOp, noop, coll_create, coll_remove, coll_map, obj_touch, obj_write, obj_map, obj_remove,
  unknown_op, Tran, get_op,
}
use ceph_in_c.MemStore.{MemStore, Outcome, do_op, submit_from, submit_tran}
use ceph_in_c.MemStore.View.{IsValid}
use ceph_in_c.MemStore.Safe.{
  Safe, coll_create-Safe, coll_remove-Safe, coll_map-Safe, step-Safe, obj_write-Safe,
  obj_remove-Safe, obj_map-Safe,
}

module _ (rb : RbTree) where
  -- Every operation keeps a valid store valid, on each path on which it returns: errors, failed
  -- allocations and unknown codes included, whatever its arguments.
  pub do_op-Safe :
      {os : MemStore} (op : TranOp) (a : Alloc) → IsValid rb os → Safe rb (do_op rb os op a)
  unfolding do_op
  do_op-Safe noop a v = v
  do_op-Safe (coll_create cid) a v = coll_create-Safe rb cid a v
  do_op-Safe (coll_remove cid) a v = coll_remove-Safe rb cid a v
  do_op-Safe (coll_map cid map) a v = coll_map-Safe rb cid map a v
  do_op-Safe (obj_touch cid oid stale) a v = obj_write-Safe rb cid oid stale (pos 0) _ a v
  do_op-Safe (obj_write cid oid offset size bytes) a v =
      obj_write-Safe rb cid oid offset size bytes a v
  do_op-Safe (obj_map cid oid map) a v = obj_map-Safe rb cid oid map a v
  do_op-Safe (obj_remove cid oid) a v = obj_remove-Safe rb cid oid a v
  do_op-Safe (unknown_op code) a v = v

  bind-Safe :
      (out : Outcome) (next : Errno × MemStore × Alloc → Outcome)
      → Safe rb out
      → ((r : Errno × MemStore × Alloc) → IsValid rb r.1 → Safe rb (next r))
      → Safe rb (out >>= next)
  bind-Safe (returns r) next s n = n r s
  bind-Safe abort next s n = tt

  submit_from-Safe :
      {os : MemStore} (rounds i : ℕ) (t : Tran) (a : Alloc)
      → IsValid rb os
      → Safe rb (submit_from rb rounds i os t a)
  unfolding submit_from
  submit_from-Safe zero i t a v = v
  submit_from-Safe {os} (suc rounds) i t a v = elim (Option-cases (get_op t i)) [
    | inl e ↦ rw (e, submit_from) tt
    | inr (op, e) ↦
        rw (e, submit_from)
          (bind-Safe (do_op rb os op a) _ (do_op-Safe op a v) λ r w.
            step-Safe rb r.0 _ r.1 r.2 (submit_from-Safe {os = r.1} rounds (i + 1) t r.2 w) w)
  ]

  -- A submitted transaction leaves a valid store valid, whatever its buffer holds and whichever
  -- allocations fail, unless the process ends.
  pub submit_tran-Safe :
      {os : MemStore} (t : Tran) (a : Alloc) → IsValid rb os → Safe rb (submit_tran rb os t a)
  unfolding submit_tran
  submit_tran-Safe t a v = submit_from-Safe _ 0 t a v
