-- ===== src/MemStore/Spec.antt =====
-- What the store promises, without trees and allocations: collections, objects and maps are
-- finite functions, and an operation of a transaction is a change to them.
use ceph_in_c.Base.{
  ℕ, ◌+◌, ◌-◌, Option, none, some, List, [], ◌∷◌, ◌++◌, length, take, drop, replicate,
}
use ceph_in_c.Base.Int.{ℤ, pos, negsuc}
use ceph_in_c.Base.Order.{CString, string_ord}
use ceph_in_c.Base.Errno.{
  Errno, ok, err_coll_already_exist, err_coll_not_exist, err_object_not_exist,
  err_map_node_not_exist, err_unknown_os_op,
}
use ceph_in_c.Map.Laws.{get, update}
use ceph_in_c.OsTypes.{CollId, coll_id_ord, MapValue}
use ceph_in_c.OsTypes.Update.{merged}
use ceph_in_c.Tran.{
  TranOp, noop, coll_create, coll_remove, coll_map, obj_touch, obj_write, obj_map, obj_remove,
  unknown_op,
}

abbrev pub Attrs : Type 0
Attrs = CString → Option MapValue

pub record Object : Type 0 where
  pub content : List ℕ
  pub attrs : Attrs

pub record Coll : Type 0 where
  pub objects : CString → Option Object
  pub attrs : Attrs

abbrev pub Store : Type 0
Store = CollId → Option Coll

abbrev pub no_attrs : Attrs
no_attrs j = none

abbrev pub empty_object : Object
empty_object = record { content = []; attrs = no_attrs }

abbrev pub empty_coll : Coll
empty_coll = record { objects = λ j. none; attrs = no_attrs }

-- The bytes after a write at `offset`: those before it, with zeros where the object was shorter,
-- then the written ones, then those behind them.
unfoldable pub spliced : List ℕ → ℕ → List ℕ → List ℕ
spliced content offset bytes =
    take offset (content ++ replicate (offset - length content) 0)
    ++ (bytes ++ drop (offset + length bytes) content)

-- A write of no bytes creates the object and leaves it as it is otherwise.
abbrev pub written : Object → ℕ → List ℕ → Object
written o offset [] = o
written o offset (b ∷ bs) = record o { content = spliced o.content offset (b ∷ bs) }

abbrev pub or_empty : Option Object → Object
or_empty none = empty_object
or_empty (some o) = o

abbrev pub set_coll : Store → CollId → Coll → Store
set_coll s cid c = update s cid (some c)

abbrev pub set_object : Coll → CString → Object → Coll
set_object c oid o = record c { objects = update c.objects oid (some o) }

abbrev pub write_spec : Store → CollId → CString → ℕ → List ℕ → Errno × Store
write_spec s cid oid offset bytes = elim (s cid) [
  | none ↦ (err_coll_not_exist, s)
  | some c ↦
      (ok, set_coll s cid (set_object c oid (written (or_empty (c.objects oid)) offset bytes)))
]

abbrev pub size_of : ℤ → ℕ
size_of (pos n) = n
size_of (negsuc n) = 0

abbrev pub apply : Store → TranOp → Errno × Store
apply s noop = (ok, s)
apply s (coll_create cid) = elim (s cid) [
  | none ↦ (ok, set_coll s cid empty_coll)
  | some c ↦ (err_coll_already_exist, s)
]
apply s (coll_remove cid) = elim (s cid) [
  | none ↦ (err_coll_not_exist, s)
  | some c ↦ (ok, update s cid none)
]
apply s (coll_map cid map) = elim (s cid) [
  | none ↦ (err_map_node_not_exist, s)
  | some c ↦ (ok, set_coll s cid (record c { attrs = merged c.attrs (get map) }))
]
apply s (obj_touch cid oid stale) = write_spec s cid oid 0 []
apply s (obj_write cid oid offset size bytes) =
    write_spec s cid oid (size_of offset) (take (size_of size) bytes)
apply s (obj_map cid oid map) = elim (s cid) [
  | none ↦ (err_map_node_not_exist, s)
  | some c ↦ elim (c.objects oid) [
    | none ↦ (err_map_node_not_exist, s)
    | some o ↦
        (ok, set_coll s cid (set_object c oid (record o { attrs = merged o.attrs (get map) })))
  ]
]
apply s (obj_remove cid oid) = elim (s cid) [
  | none ↦ (err_coll_not_exist, s)
  | some c ↦ elim (c.objects oid) [
    | none ↦ (err_object_not_exist, s)
    | some o ↦ (ok, set_coll s cid (record c { objects = update c.objects oid none }))
  ]
]
apply s (unknown_op code) = (err_unknown_os_op, s)

-- The operations in order, up to the first that fails.
abbrev pub apply_all : Store → List TranOp → Errno × Store
apply_all s [] = (ok, s)
apply_all s (op ∷ ops) =
    let rest = apply_all (apply s op).1 ops in
    elim (apply s op).0 [ ok ↦ rest | err ↦ (err, (apply s op).1) ]
