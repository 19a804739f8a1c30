-- ===== src/MemStore.antt =====
-- os/mem_store.c: the object store in memory, and the operations of a transaction on it. Every
-- call holds the store's lock from its first look at the trees to its return, so calls run one
-- after another.
pub mod Spec
pub mod View
pub mod Content
pub mod Splice
pub mod Colls
pub mod Objects
pub mod Writes
pub mod ObjectOps
pub mod Refine
pub mod Submit
pub mod Safe
pub mod Invariant
pub mod Read
use ceph_in_c.Base.{
  ℕ, zero, suc, ◌+◌, ◌-◌, Bool, Option, none, some, List, [], ◌++◌, ltb, length, take, drop,
  replicate, if◌then◌else◌,
}
use ceph_in_c.Base.Int.{ℤ, pos, negsuc}
use ceph_in_c.Base.Order.{CString, string_ord}
use ceph_in_c.Base.Errno.{
  Errno, ok, err_no_enough_mem, err_coll_already_exist, err_coll_not_exist, err_object_not_exist,
  err_map_node_not_exist, err_unknown_os_op, Exit, returns, abort, ◌>>=◌,
}
use ceph_in_c.Base.Alloc.{Alloc, malloc}
use ceph_in_c.Map.{Tree, leaf, NodePath, RbTree, set_value, map_search, map_insert, map_remove}
use ceph_in_c.OsTypes.{CollId, coll_id_ord, OsMap, map_update}
use ceph_in_c.Tran.{
  TranOp, noop, coll_create, coll_remove, coll_map, obj_touch, obj_write, obj_map, obj_remove,
  unknown_op, Tran, get_op_count, get_op, is_nonneg,
}

-- `cceph_mem_store_object_node` without its key: `content` is the `length` bytes at `data`.
pub record ObjectNode : Type 0 where
  pub content : List ℕ
  pub map : OsMap

-- `cceph_mem_store_coll_node` without its key.
pub record CollNode : Type 0 where
  pub objects : Tree CString ObjectNode
  pub map : OsMap

pub record MemStore : Type 0 where
  pub colls : Tree CollId CollNode

-- `cceph_mem_store_new`; the store is missing where the pointer stays NULL.
unfoldable pub mem_store_new : Alloc → Errno × Option MemStore × Alloc
mem_store_new a =
    let (there, a') = malloc a in
    if there then (ok, some (record { colls = leaf }), a') else (err_no_enough_mem, none, a')

-- `cceph_mem_store_coll_node_new`
unfoldable pub coll_node_new : CollId → Alloc → Exit (Option CollNode × Alloc)
coll_node_new cid a =
    let (there, a') = malloc a in
    if is_nonneg cid
    then (if there
        then returns (some (record { objects = leaf; map = leaf }), a')
        else returns (none, a'))
    else abort

-- `cceph_mem_store_object_node_new`: the node and its key are allocated.
unfoldable pub object_node_new : Alloc → Option ObjectNode × Alloc
object_node_new a =
    let (node_there, a₁) = malloc a in
    let (oid_there, a₂) = malloc a₁ in
    if node_there
    then (if oid_there then (some (record { content = []; map = leaf }), a₂) else (none, a₂))
    else (none, a₁)

-- What an operation on the store comes to.
abbrev pub Outcome : Type 0
Outcome = Exit (Errno × MemStore × Alloc)

-- The store after a write to a collection through the pointer to it.
abbrev pub put_coll : MemStore → NodePath → CollNode → MemStore
put_coll os at c = record os { colls = set_value at c os.colls }

-- The bytes of an object that grows to `new_length`: zeros behind the old ones.
unfoldable pub expand : List ℕ → ℕ → List ℕ
expand content new_length = content ++ replicate (new_length - length content) 0

-- `memcpy(content + offset, data, size)`
unfoldable pub copy_into : List ℕ → ℕ → ℕ → List ℕ → List ℕ
copy_into content offset size bytes =
    take offset content ++ (take size bytes ++ drop (offset + size) content)

-- The last part of `do_op_obj_write`: the new bytes of the object, or none without memory.
unfoldable pub write_content : List ℕ → ℕ → ℕ → List ℕ → Alloc → Option (List ℕ) × Alloc
write_content content offset size bytes a =
    let (there, a') = malloc a in
    if ltb (length content) (offset + size)
    then (if there
        then (some (copy_into (expand content (offset + size)) offset size bytes), a')
        else (none, a'))
    else (some (copy_into content offset size bytes), a)

module _ (rb : RbTree) where
  unfoldable pub do_op_coll_create : MemStore → CollId → Alloc → Outcome
  do_op_coll_create os cid a =
      if is_nonneg cid
      then elim (map_search os.colls cid) [
        | some found ↦ returns (err_coll_already_exist, os, a)
        | none ↦ coll_node_new cid a >>= λ m. elim m.0 [
          | none ↦ returns (err_no_enough_mem, os, m.1)
          | some cnode ↦
              let (ret, colls) = map_insert rb os.colls cid cnode in
              returns (ret, record { colls = colls }, m.1)
        ]
      ]
      else abort

  unfoldable pub do_op_coll_remove : MemStore → CollId → Alloc → Outcome
  do_op_coll_remove os cid a =
      if is_nonneg cid
      then elim (map_search os.colls cid) [
        | none ↦ returns (err_coll_not_exist, os, a)
        | some found ↦
            let (ret, colls) = map_remove rb os.colls found.0 in
            returns (ret, record { colls = colls }, a)
      ]
      else abort

  -- For a missing collection the code of the search is returned.
  unfoldable pub do_op_coll_map : MemStore → CollId → OsMap → Alloc → Outcome
  do_op_coll_map os cid map a =
      if is_nonneg cid
      then elim (map_search os.colls cid) [
        | none ↦ returns (err_map_node_not_exist, os, a)
        | some found ↦
            let (ret, map', a') = map_update rb found.1.map map a in
            returns (ret, put_coll os found.0 (record found.1 { map = map' }), a')
      ]
      else abort

  -- The object of a write: found, or created empty and inserted.
  unfoldable pub find_or_create :
      Tree CString ObjectNode → CString → Alloc → Errno × Tree CString ObjectNode × Alloc
  find_or_create objects oid a = elim (map_search objects oid) [
    | some found ↦ (ok, objects, a)
    | none ↦
        let (made, a') = object_node_new a in
        elim made [
          | none ↦ (err_no_enough_mem, objects, a')
          | some onode ↦
              let (ret, objects') = map_insert rb objects oid onode in (ret, objects', a')
        ]
  ]

  -- The write itself. The pointer to the object, which the C code keeps from the search or from the
  -- insertion, is found again by its key; a touch has length 0.
  unfoldable pub write_object :
      Tree CString ObjectNode
      → CString
      → ℕ
      → ℕ
      → List ℕ
      → Alloc
      → Exit (Errno × Tree CString ObjectNode × Alloc)
  write_object objects oid offset zero bytes a = returns (ok, objects, a)
  write_object objects oid offset (suc size) bytes a = elim (map_search objects oid) [
    | none ↦ abort
    | some found ↦
        let (written, a') = write_content found.1.content offset (suc size) bytes a in
        elim written [
          | none ↦ returns (err_no_enough_mem, objects, a')
          | some content ↦
              returns (ok, set_value found.0 (record found.1 { content = content }) objects, a')
        ]
  ]

  -- The body behind the assertions on the signs.
  unfoldable pub write_in_coll : MemStore → CollId → CString → ℕ → ℕ → List ℕ → Alloc → Outcome
  write_in_coll os cid oid offset size bytes a = elim (map_search os.colls cid) [
    | none ↦ returns (err_coll_not_exist, os, a)
    | some coll ↦
        let (ret, objects, a₁) = find_or_create coll.1.objects oid a in
        elim ret [
          | ok ↦ write_object objects oid offset size bytes a₁ >>= λ w.
              returns (w.0, put_coll os coll.0 (record coll.1 { objects = w.1 }), w.2)
          | err ↦ returns (err, put_coll os coll.0 (record coll.1 { objects = objects }), a₁)
        ]
  ]

  unfoldable pub do_op_obj_write : MemStore → CollId → CString → ℤ → ℤ → List ℕ → Alloc → Outcome
  do_op_obj_write os (pos cid) oid (pos offset) (pos size) bytes a =
      write_in_coll os (pos cid) oid offset size bytes a
  do_op_obj_write os _ oid _ _ bytes a = abort

  unfoldable pub do_op_obj_remove : MemStore → CollId → CString → Alloc → Outcome
  do_op_obj_remove os cid oid a =
      if is_nonneg cid
      then elim (map_search os.colls cid) [
        | none ↦ returns (err_coll_not_exist, os, a)
        | some coll ↦ elim (map_search coll.1.objects oid) [
          | none ↦ returns (err_object_not_exist, os, a)
          | some found ↦
              let (ret, objects) = map_remove rb coll.1.objects found.0 in
              returns (ok, put_coll os coll.0 (record coll.1 { objects = objects }), a)
        ]
      ]
      else abort

  -- For a missing collection or object the code of the search is returned.
  unfoldable pub do_op_obj_map : MemStore → CollId → CString → OsMap → Alloc → Outcome
  do_op_obj_map os cid oid map a =
      if is_nonneg cid
      then elim (map_search os.colls cid) [
        | none ↦ returns (err_map_node_not_exist, os, a)
        | some coll ↦ elim (map_search coll.1.objects oid) [
          | none ↦ returns (err_map_node_not_exist, os, a)
          | some found ↦
              let (ret, map', a') = map_update rb found.1.map map a in
              let objects = set_value found.0 (record found.1 { map = map' }) coll.1.objects in
              returns (ret, put_coll os coll.0 (record coll.1 { objects = objects }), a')
        ]
      ]
      else abort

  unfoldable pub do_op : MemStore → TranOp → Alloc → Outcome
  do_op os noop a = returns (ok, os, a)
  do_op os (coll_create cid) a = do_op_coll_create os cid a
  do_op os (coll_remove cid) a = do_op_coll_remove os cid a
  do_op os (coll_map cid map) a = do_op_coll_map os cid map a
  do_op os (obj_touch cid oid stale) a = do_op_obj_write os cid oid stale (pos 0) [] a
  do_op os (obj_write cid oid offset size bytes) a = do_op_obj_write os cid oid offset size bytes a
  do_op os (obj_remove cid oid) a = do_op_obj_remove os cid oid a
  do_op os (obj_map cid oid map) a = do_op_obj_map os cid oid map a
  do_op os (unknown_op code) a = returns (err_unknown_os_op, os, a)

  -- The loop of `cceph_mem_store_submit_tran`, with the rounds left and the index. It stops at the
  -- first error; what was done before it stays.
  unfoldable pub submit_from : ℕ → ℕ → MemStore → Tran → Alloc → Outcome
  submit_from zero i os t a = returns (ok, os, a)
  submit_from (suc rounds) i os t a = elim (get_op t i) [
    | none ↦ abort
    | some op ↦ do_op os op a >>= λ r. elim r.0 [
      | ok ↦ submit_from rounds (i + 1) r.1 t r.2
      | err ↦ returns (err, r.1, r.2)
    ]
  ]

  unfoldable pub submit_tran : MemStore → Tran → Alloc → Outcome
  submit_tran os t a = submit_from (get_op_count t) 0 os t a
