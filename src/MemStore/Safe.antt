-- ===== src/MemStore/Safe.antt =====
-- What each operation on the store in memory keeps, whichever allocations fail.
use ceph_in_c.Base.{ℕ, zero, suc, ◌≡◌, inl, inr, Bool-cases, some, List, arith, Option-cases}
use ceph_in_c.Base.Int.{ℤ, pos, negsuc}
use ceph_in_c.Base.Order.{CString, string_ord}
use ceph_in_c.Base.Errno.{Errno, ok, Exit, returns, abort, ◌>>=◌}
use ceph_in_c.Base.Alloc.{Alloc, malloc}
use ceph_in_c.Map.{Tree, leaf, NodePath, RbTree, map_search, map_remove}
use ceph_in_c.Map.Laws.{
  leaf-IsValid, map_insert-Inserted, map_remove-IsValid, get-map_remove, get-map_search-some,
}
use ceph_in_c.OsTypes.{CollId, coll_id_ord, OsMap}
use ceph_in_c.OsTypes.Failure.{map_update-IsValid}
use ceph_in_c.MemStore.{
  ObjectNode, CollNode, MemStore, Outcome, put_coll, coll_node_new, object_node_new, write_content,
  do_op_coll_create, do_op_coll_remove, do_op_coll_map, find_or_create, write_object, write_in_coll,
  do_op_obj_write, do_op_obj_remove, do_op_obj_map,
}
use ceph_in_c.MemStore.View.{Each-update, Each-delete, ObjectsValid, IsValid}
use ceph_in_c.MemStore.Colls.{leaf-CollValid, found-CollValid, put_coll-IsValid}
use ceph_in_c.MemStore.Objects.{new_object, set_object-ObjectsValid}

module _ (rb : RbTree) where
  -- A call that returns leaves a valid store.
  abbrev pub Safe : Outcome → Type 0
  Safe (returns r) = IsValid rb r.1
  Safe abort = Unit

  pub coll_create-Safe :
      {os : MemStore} (cid : CollId) (a : Alloc)
      → IsValid rb os
      → Safe (do_op_coll_create rb os cid a)
  unfolding do_op_coll_create coll_node_new
  coll_create-Safe (negsuc n) a v = tt
  coll_create-Safe {os} (pos n) a v = elim (Option-cases (map_search os.colls (pos n))) [
    | inr (x, e) ↦ rw (e, do_op_coll_create) v
    | inl e ↦ elim (Bool-cases (malloc a).0) [
      | inr m ↦ rw (e, do_op_coll_create, m) v
      | inl m ↦
          let i = map_insert-Inserted rb (pos n) (record { objects = leaf; map = leaf }) v.tree e in
          rw (e, do_op_coll_create, m, i.returned)
            (record {
              tree = i.valid;
              colls = Each-update os.colls i.result (pos n) _ i.values v.colls (leaf-CollValid rb);
            })
    ]
  ]

  pub coll_remove-Safe :
      {os : MemStore} (cid : CollId) (a : Alloc)
      → IsValid rb os
      → Safe (do_op_coll_remove rb os cid a)
  unfolding do_op_coll_remove
  coll_remove-Safe (negsuc n) a v = tt
  coll_remove-Safe {os} (pos n) a v = elim (Option-cases (map_search os.colls (pos n))) [
    | inl e ↦ rw (e, do_op_coll_remove) v
    | inr (x, e) ↦
        rw (e, do_op_coll_remove)
          (record {
            tree = map_remove-IsValid rb (pos n) v.tree e;
            colls =
                Each-delete os.colls (map_remove rb os.colls x.0).1 (pos n)
                  (get-map_remove rb (pos n) v.tree e) v.colls;
          })
  ]

  pub coll_map-Safe :
      {os : MemStore} (cid : CollId) (map : OsMap) (a : Alloc)
      → IsValid rb os
      → Safe (do_op_coll_map rb os cid map a)
  unfolding do_op_coll_map
  coll_map-Safe (negsuc n) map a v = tt
  coll_map-Safe {os} (pos n) map a v = elim (Option-cases (map_search os.colls (pos n))) [
    | inl e ↦ rw (e, do_op_coll_map) v
    | inr (x, e) ↦
        let c = found-CollValid rb (pos n) v e in
        rw (e, do_op_coll_map)
          (put_coll-IsValid rb (pos n) _ v e
            (record { objects = c.objects; map = map_update-IsValid rb map a c.map }))
  ]

  find_or_create-ObjectsValid :
      {t : Tree CString ObjectNode} (oid : CString) (a : Alloc)
      → ObjectsValid rb t
      → ObjectsValid rb (find_or_create rb t oid a).1
  unfolding find_or_create
  find_or_create-ObjectsValid {t} oid a v = elim (Option-cases (map_search t oid)) [
    | inr (x, e) ↦ rw (e, find_or_create) v
    | inl e ↦ elim (Option-cases (object_node_new a).0) [
      | inl m ↦ rw (e, find_or_create, m) v
      | inr (o, m) ↦
          let new : o ≡ new_object = unfold object_node_new in ground (arith, m) in
          let i = map_insert-Inserted rb oid new_object v.tree e in
          rw (e, find_or_create, m, new, i.returned)
            (record {
              tree = i.valid;
              maps = Each-update t i.result oid new_object i.values v.maps (leaf-IsValid rb);
            })
    ]
  ]

  -- The objects that a write leaves.
  abbrev SafeObjects : Exit (Errno × Tree CString ObjectNode × Alloc) → Type 0
  SafeObjects (returns r) = ObjectsValid rb r.1
  SafeObjects abort = Unit

  write_object-SafeObjects :
      {t : Tree CString ObjectNode} (oid : CString) (offset size : ℕ) (bytes : List ℕ) (a : Alloc)
      → ObjectsValid rb t
      → SafeObjects (write_object rb t oid offset size bytes a)
  unfolding write_object
  write_object-SafeObjects oid offset zero bytes a v = v
  write_object-SafeObjects {t} oid offset (suc size) bytes a v =
      elim (Option-cases (map_search t oid)) [
        | inl e ↦ rw (e, write_object) tt
        | inr (x, e) ↦ elim (Option-cases (write_content x.1.content offset (suc size) bytes a).0) [
          | inl m ↦ rw (e, write_object, m) v
          | inr (content, m) ↦
              let kept = v.maps oid x.1 (get-map_search-some rb oid v.tree e) in
              rw (e, write_object, m)
                (set_object-ObjectsValid rb oid (record x.1 { content = content }) v e kept)
        ]
      ]

  -- The end of a write, by the objects that it leaves.
  put_objects-Safe :
      {os : MemStore} (cid : CollId) {x : NodePath × CollNode}
      (w : Exit (Errno × Tree CString ObjectNode × Alloc))
      → IsValid rb os
      → map_search os.colls cid ≡ some x
      → SafeObjects w
      → Safe (w >>= λ w. returns (w.0, put_coll os x.0 (record x.1 { objects = w.1 }), w.2))
  put_objects-Safe cid abort v e s = tt
  put_objects-Safe cid (returns w) v e s =
      put_coll-IsValid rb cid _ v e (record { objects = s; map = (found-CollValid rb cid v e).map })

  -- The next step where the last one returned CCEPH_OK, and the end where it did not.
  pub step-Safe :
      (err : Errno) (tail : Outcome) (os : MemStore) (a : Alloc)
      → Safe tail
      → IsValid rb os
      → Safe (elim err [ ok ↦ tail | e ↦ returns (e, os, a) ])
  step-Safe ok tail os a s v = s
  step-Safe _ tail os a s v = v

  write_in_coll-Safe :
      {os : MemStore} (cid : CollId) (oid : CString) (offset size : ℕ) (bytes : List ℕ) (a : Alloc)
      → IsValid rb os
      → Safe (write_in_coll rb os cid oid offset size bytes a)
  unfolding write_in_coll
  write_in_coll-Safe {os} cid oid offset size bytes a v =
      elim (Option-cases (map_search os.colls cid)) [
        | inl e ↦ rw (e, write_in_coll) v
        | inr (x, e) ↦
            let c = found-CollValid rb cid v e in
            let f = find_or_create rb x.1.objects oid a in
            let fv = find_or_create-ObjectsValid oid a c.objects in
            let done = write_object-SafeObjects oid offset size bytes f.2 fv in
            rw (e, write_in_coll)
              (step-Safe f.0 _ _ f.2 (put_objects-Safe cid _ v e done)
                (put_coll-IsValid rb cid _ v e (record { objects = fv; map = c.map })))
      ]

  pub obj_write-Safe :
      {os : MemStore} (cid : CollId) (oid : CString) (offset size : ℤ) (bytes : List ℕ) (a : Alloc)
      → IsValid rb os
      → Safe (do_op_obj_write rb os cid oid offset size bytes a)
  unfolding do_op_obj_write
  obj_write-Safe (pos n) oid (pos offset) (pos size) bytes a v =
      write_in_coll-Safe (pos n) oid offset size bytes a v
  obj_write-Safe (pos n) oid (pos offset) (negsuc size) bytes a v = tt
  obj_write-Safe (pos n) oid (negsuc offset) size bytes a v = tt
  obj_write-Safe (negsuc n) oid offset size bytes a v = tt

  pub obj_remove-Safe :
      {os : MemStore} (cid : CollId) (oid : CString) (a : Alloc)
      → IsValid rb os
      → Safe (do_op_obj_remove rb os cid oid a)
  unfolding do_op_obj_remove
  obj_remove-Safe (negsuc n) oid a v = tt
  obj_remove-Safe {os} (pos n) oid a v = elim (Option-cases (map_search os.colls (pos n))) [
    | inl e ↦ rw (e, do_op_obj_remove) v
    | inr (x, e) ↦
        let c = found-CollValid rb (pos n) v e in
        elim (Option-cases (map_search x.1.objects oid)) [
          | inl k ↦ rw (e, do_op_obj_remove, k) v
          | inr (y, k) ↦
              let gone = get-map_remove rb oid c.objects.tree k in
              rw (e, do_op_obj_remove, k)
                (put_coll-IsValid rb (pos n) _ v e (record {
                  objects = record {
                    tree = map_remove-IsValid rb oid c.objects.tree k;
                    maps = Each-delete x.1.objects _ oid gone c.objects.maps;
                  };
                  map = c.map;
                }))
        ]
  ]

  pub obj_map-Safe :
      {os : MemStore} (cid : CollId) (oid : CString) (map : OsMap) (a : Alloc)
      → IsValid rb os
      → Safe (do_op_obj_map rb os cid oid map a)
  unfolding do_op_obj_map
  obj_map-Safe (negsuc n) oid map a v = tt
  obj_map-Safe {os} (pos n) oid map a v = elim (Option-cases (map_search os.colls (pos n))) [
    | inl e ↦ rw (e, do_op_obj_map) v
    | inr (x, e) ↦
        let c = found-CollValid rb (pos n) v e in
        elim (Option-cases (map_search x.1.objects oid)) [
          | inl k ↦ rw (e, do_op_obj_map, k) v
          | inr (y, k) ↦
              let old = c.objects.maps oid y.1 (get-map_search-some rb oid c.objects.tree k) in
              rw (e, do_op_obj_map, k)
                (put_coll-IsValid rb (pos n) _ v e (record {
                  objects =
                      set_object-ObjectsValid rb oid _ c.objects k
                        (map_update-IsValid rb map a old);
                  map = c.map;
                }))
        ]
  ]
