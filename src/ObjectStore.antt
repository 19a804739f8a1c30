-- ===== src/ObjectStore.antt =====
-- os/object_store.c: single operations on any object store, each a transaction of one operation.
pub mod Contract
pub mod Single
pub mod Keys
pub mod Memory
use ceph_in_c.Base.{ℕ, Option, none, some, List}
use ceph_in_c.Base.Int.{ℤ}
use ceph_in_c.Base.Order.{CString, string_ord}
use ceph_in_c.Base.Errno.{Errno, ok, err_no_enough_mem, Exit, returns, ◌>>=◌}
use ceph_in_c.Base.Alloc.{Alloc}
use ceph_in_c.Map.{leaf, RbTree, map_insert}
use ceph_in_c.OsTypes.{CollId, OsMap, MapValue, map_node_new}
use ceph_in_c.Tran.{
  Tran, tran_new, tran_coll_create, tran_coll_remove, tran_coll_map, tran_obj_touch, tran_obj_write,
  tran_obj_map, tran_obj_remove,
}

-- `cceph_os_funcs`, of which this file calls `submit_tran`.
pub record OsFuncs (S : Type 0) : Type 0 where
  pub submit_tran : S → Tran → Alloc → Exit (Errno × S × Alloc)

module _ {S : Type 0} (funcs : OsFuncs S) where
  -- What the functions below share: a new transaction, the call that adds the operation, and the
  -- submission. On each path the transaction is freed and the last code is returned.
  unfoldable pub submit_one :
      S → (Tran → Alloc → Exit (Errno × Tran × Alloc)) → Alloc → Exit (Errno × S × Alloc)
  submit_one os add a =
      let (ret, made, a₁) = tran_new a in
      elim made [
        | none ↦ returns (ret, os, a₁)
        | some t ↦ add t a₁ >>= λ r. elim r.0 [
          | ok ↦ funcs.submit_tran os r.1 r.2
          | err ↦ returns (err, os, r.2)
        ]
      ]

  unfoldable pub create_coll : S → CollId → Alloc → Exit (Errno × S × Alloc)
  create_coll os cid a = submit_one os (λ t. tran_coll_create t cid) a

  unfoldable pub remove_coll : S → CollId → Alloc → Exit (Errno × S × Alloc)
  remove_coll os cid a = submit_one os (λ t. tran_coll_remove t cid) a

  -- `stale` is what the transaction's memory holds where the touch has its `offset`.
  unfoldable pub touch_obj : S → CollId → CString → ℤ → Alloc → Exit (Errno × S × Alloc)
  touch_obj os cid oid stale a = submit_one os (λ t. tran_obj_touch t cid oid stale) a

  unfoldable pub write_obj :
      S → CollId → CString → ℤ → ℤ → List ℕ → Alloc → Exit (Errno × S × Alloc)
  write_obj os cid oid offset size bytes a =
      submit_one os (λ t. tran_obj_write t cid oid offset size bytes) a

  unfoldable pub remove_obj : S → CollId → CString → Alloc → Exit (Errno × S × Alloc)
  remove_obj os cid oid a = submit_one os (λ t. tran_obj_remove t cid oid) a

module _ (rb : RbTree) {S : Type 0} (funcs : OsFuncs S) where
  -- A map of one node, on the stack of the caller.
  unfoldable pub with_single :
      S
      → CString
      → List ℕ
      → ℤ
      → (OsMap → Alloc → Exit (Errno × S × Alloc))
      → Alloc
      → Exit (Errno × S × Alloc)
  with_single os key value value_length use_map a =
      let (made, a₁) = map_node_new value value_length a in
      elim made [
        | none ↦ returns (err_no_enough_mem, os, a₁)
        | some node ↦
            let (ret, map) = map_insert rb leaf key node in
            elim ret [ ok ↦ use_map map a₁ | err ↦ returns (err, os, a₁) ]
      ]

  unfoldable pub set_coll_map_key :
      S → CollId → CString → List ℕ → ℤ → Alloc → Exit (Errno × S × Alloc)
  set_coll_map_key os cid key value value_length a =
      with_single os key value value_length
        (λ map. submit_one funcs os (λ t. tran_coll_map t cid map)) a

  unfoldable pub set_obj_map_key :
      S → CollId → CString → CString → List ℕ → ℤ → Alloc → Exit (Errno × S × Alloc)
  set_obj_map_key os cid oid key value value_length a =
      with_single os key value value_length
        (λ map. submit_one funcs os (λ t. tran_obj_map t cid oid map)) a
