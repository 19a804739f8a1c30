-- ===== src/ObjectStore/Keys.antt =====
-- `cceph_os_set_coll_map_key` and `cceph_os_set_obj_map_key` of os/object_store.c.
use ceph_in_c.Base.{
  ℕ, ◌≡◌, refl, inl, inr, Option-cases, [], ◌∷◌, arith, length, some, none, Option, fun_ext,
}
use ceph_in_c.Base.Int.{pos}
use ceph_in_c.Base.Order.{CString, string_ord}
use ceph_in_c.Base.Errno.{Errno, ok, err_map_node_not_exist}
use ceph_in_c.Base.Alloc.{Alloc, Plenty}
use ceph_in_c.Map.{RbTree, leaf, map_search}
use ceph_in_c.Map.Laws.{get, update, leaf-IsValid, get-leaf, map_insert-Inserted}
use ceph_in_c.OsTypes.{CollId, coll_id_ord, OsMap, MapValue}
use ceph_in_c.OsTypes.Update.{merged, set_or_delete, map_node_new-Plenty}
use ceph_in_c.Tran.{coll_map, obj_map, tran_coll_map, tran_obj_map}
use ceph_in_c.Tran.Ops.{put_op-Appended}
use ceph_in_c.MemStore.Spec.{Store, apply, set_coll, set_object}
use ceph_in_c.ObjectStore.{OsFuncs, with_single, set_coll_map_key, set_obj_map_key}
use ceph_in_c.ObjectStore.Contract.{Served, Served-along, Implements}
use ceph_in_c.ObjectStore.Single.{submit_one-Served}

-- The change of one key of a collection's map.
abbrev pub coll_key_spec : Store → CollId → CString → MapValue → Errno × Store
coll_key_spec s cid key value = elim (s cid) [
  | none ↦ (err_map_node_not_exist, s)
  | some c ↦ (ok, set_coll s cid (record c { attrs = set_or_delete c.attrs key value }))
]

-- The change of one key of an object's map.
abbrev pub obj_key_spec : Store → CollId → CString → CString → MapValue → Errno × Store
obj_key_spec s cid oid key value = elim (s cid) [
  | none ↦ (err_map_node_not_exist, s)
  | some c ↦ elim (c.objects oid) [
    | none ↦ (err_map_node_not_exist, s)
    | some o ↦ (
      ok,
      set_coll s cid (set_object c oid (record o { attrs = set_or_delete o.attrs key value })),
    )
  ]
]

-- A map of one node merges like the change of its key.
merged-update :
    (f : CString → Option MapValue) (key : CString) (value : MapValue)
    → merged f (update (get leaf) key (some value)) ≡ set_or_delete f key value
merged-update f key [] = fun_ext λ j. ground (arith, get-leaf {K = CString} {V = MapValue} j)
merged-update f key (b ∷ bs) = fun_ext λ j. ground (arith, get-leaf {K = CString} {V = MapValue} j)

apply-coll_key :
    (map : OsMap) (s : Store) (cid : CollId) (key : CString) (value : MapValue)
    → get map ≡ update (get leaf) key (some value)
    → apply s (coll_map cid map) ≡ coll_key_spec s cid key value
apply-coll_key map s cid key value e = elim (Option-cases (s cid)) [
  | inl n ↦ rw (n, coll_key_spec, apply) refl
  | inr (c, h) ↦ rw (h, coll_key_spec, apply, e, merged-update c.attrs key value) refl
]

apply-obj_key :
    (map : OsMap) (s : Store) (cid : CollId) (oid key : CString) (value : MapValue)
    → get map ≡ update (get leaf) key (some value)
    → apply s (obj_map cid oid map) ≡ obj_key_spec s cid oid key value
apply-obj_key map s cid oid key value e = elim (Option-cases (s cid)) [
  | inl n ↦ rw (n, obj_key_spec, apply) refl
  | inr (c, h) ↦ elim (Option-cases (c.objects oid)) [
    | inl n ↦ rw (h, obj_key_spec, apply, n) refl
    | inr (o, k) ↦ rw (h, obj_key_spec, apply, k, e, merged-update o.attrs key value) refl
  ]
]

module _ (rb : RbTree) {S : Type 0} (funcs : OsFuncs S) (impl : Implements rb funcs) where
  open impl use {IsValid, view}

  -- Setting a key of the map of a collection, or of an object, changes that key alone: it gets the
  -- value, or goes where the value is empty, or the call returns CCEPH_ERR_MAP_NODE_NOT_EXIST where
  -- there is no such collection or object. This holds for each valid store that implements the
  -- specification, where no allocation fails.
  pub set_map_key-Served :
      {os : S} (cid : ℕ) (oid key : CString) (value : MapValue) (a : Alloc)
      → IsValid os
      → Plenty a
      → Served IsValid view
          (coll_key_spec (view os) (pos cid) key value)
          (set_coll_map_key rb funcs os (pos cid) key value (pos (length value)) a)
        × Served IsValid view
            (obj_key_spec (view os) (pos cid) oid key value)
            (set_obj_map_key rb funcs os (pos cid) oid key value (pos (length value)) a)
  unfolding set_coll_map_key set_obj_map_key with_single tran_coll_map tran_obj_map map_search
  set_map_key-Served {os} cid oid key value a v p =
      let (a₁, e, p₁) = map_node_new-Plenty value a p in
      let i = map_insert-Inserted rb key value (leaf-IsValid rb) refl in
      let spec_c = apply-coll_key i.result (view os) (pos cid) key value i.values in
      let spec_o = apply-obj_key i.result (view os) (pos cid) oid key value i.values in
      let c =
        submit_one-Served rb funcs impl {os = os} (coll_map (pos cid) i.result) _ a₁ v
          (record { signs = refl; prepared = i.valid })
          (λ t b. put_op-Appended (coll_map (pos cid) i.result) t b) p₁ in
      let o =
        submit_one-Served rb funcs impl {os = os} (obj_map (pos cid) oid i.result) _ a₁ v
          (record { signs = refl; prepared = i.valid })
          (λ t b. put_op-Appended (obj_map (pos cid) oid i.result) t b) p₁ in
      (
        Served-along spec_c (ground (arith, e, i.returned)) c,
        Served-along spec_o (ground (arith, e, i.returned)) o,
      )
