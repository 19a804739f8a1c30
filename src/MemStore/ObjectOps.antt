-- ===== src/MemStore/ObjectOps.antt =====
-- The removal of an object and the change of its map, against their specification.
use ceph_in_c.Base.{ℕ, refl, ◌∙◌, ap, inl, inr, none, some, arith, Option-cases}
use ceph_in_c.Base.Int.{pos}
use ceph_in_c.Base.Order.{CString, string_ord}
use ceph_in_c.Base.Alloc.{Alloc, Plenty}
use ceph_in_c.Map.{RbTree, set_value, map_search, map_remove}
use ceph_in_c.Map.Laws
use ceph_in_c.Map.Laws.{
  get, update, update-update, update_self, get-leaf, leaf-IsValid, map_insert-Inserted,
  map_remove-IsValid, get-map_remove, set_value-IsValid, get-set_value, get-map_search-none,
  get-map_search-some, map_search-get,
}
use ceph_in_c.OsTypes.{coll_id_ord, OsMap, map_update}
use ceph_in_c.OsTypes.Update.{map_update_rules}
use ceph_in_c.Tran.{obj_map, obj_remove}
use ceph_in_c.MemStore.{ObjectNode, CollNode, MemStore, put_coll, do_op_obj_remove, do_op_obj_map}
use ceph_in_c.MemStore.Spec.{set_coll, apply}
use ceph_in_c.MemStore.View.{view_object, view_objects, view, map-update, Each-delete, IsValid}
use ceph_in_c.MemStore.Colls.{
  Done, view-missing, view-found, found-CollValid, put_coll-IsValid, view-put_coll,
}
use ceph_in_c.MemStore.Objects.{
  objects-missing, objects-found, set_object-ObjectsValid, view-set_object,
}

module _ (rb : RbTree) where
  pub obj_remove-Done :
      {os : MemStore} (n : ℕ) (oid : CString) (a : Alloc)
      → IsValid rb os
      → Plenty a
      → Done rb (apply (view os) (obj_remove (pos n) oid)) (do_op_obj_remove rb os (pos n) oid a)
  unfolding do_op_obj_remove
  obj_remove-Done {os} n oid a v p = elim (Option-cases (map_search os.colls (pos n))) [
    | inl e ↦
        rw (view-missing rb (pos n) v e, apply)
          (record {
            store = os;
            rest = a;
            returned = ground (arith, e);
            valid = v;
            seen = refl;
            plenty = p;
          })
    | inr (x, e) ↦
        let c = found-CollValid rb (pos n) v e in
        elim (Option-cases (map_search x.1.objects oid)) [
          | inl k ↦
              rw (view-found rb (pos n) v e, apply, objects-missing rb oid c.objects k)
                (record {
                  store = os;
                  rest = a;
                  returned = ground (arith, e, k);
                  valid = v;
                  seen = refl;
                  plenty = p;
                })
          | inr (y, k) ↦
              let t' = (map_remove rb x.1.objects y.0).1 in
              let c' : CollNode = record x.1 { objects = t' } in
              let gone = get-map_remove rb oid c.objects.tree k in
              rw (view-found rb (pos n) v e, apply, objects-found rb oid c.objects k)
                (record {
                  store = put_coll os x.0 c';
                  rest = a;
                  returned = ground (arith, e, k);
                  valid = put_coll-IsValid rb (pos n) c' v e (record {
                    objects = record {
                      tree = map_remove-IsValid rb oid c.objects.tree k;
                      maps = Each-delete x.1.objects t' oid gone c.objects.maps;
                    };
                    map = c.map;
                  });
                  seen =
                      view-put_coll rb (pos n) c' v e
                      ∙ ap
                          (λ g.
                            set_coll (view os) (pos n)
                              (record { objects = g; attrs = get x.1.map }))
                          (map-update view_object (get x.1.objects) (get t') oid none gone);
                  plenty = p;
                })
        ]
  ]

  pub obj_map-Done :
      {os : MemStore} (n : ℕ) (oid : CString) (map : OsMap) (a : Alloc)
      → IsValid rb os
      → Laws.IsValid rb map
      → Plenty a
      → Done rb (apply (view os) (obj_map (pos n) oid map)) (do_op_obj_map rb os (pos n) oid map a)
  unfolding do_op_obj_map
  obj_map-Done {os} n oid map a v m p = elim (Option-cases (map_search os.colls (pos n))) [
    | inl e ↦
        rw (view-missing rb (pos n) v e, apply)
          (record {
            store = os;
            rest = a;
            returned = ground (arith, e);
            valid = v;
            seen = refl;
            plenty = p;
          })
    | inr (x, e) ↦
        let c = found-CollValid rb (pos n) v e in
        elim (Option-cases (map_search x.1.objects oid)) [
          | inl k ↦
              rw (view-found rb (pos n) v e, apply, objects-missing rb oid c.objects k)
                (record {
                  store = os;
                  rest = a;
                  returned = ground (arith, e, k);
                  valid = v;
                  seen = refl;
                  plenty = p;
                })
          | inr (y, k) ↦
              let old = c.objects.maps oid y.1 (get-map_search-some rb oid c.objects.tree k) in
              let (r, valid, values, p') = map_update_rules rb {result = y.1.map} a old m p in
              let (ret, map', a') = map_update rb y.1.map map a in
              let o : ObjectNode = record y.1 { map = map' } in
              let c' : CollNode = record x.1 { objects = set_value y.0 o x.1.objects } in
              rw (view-found rb (pos n) v e, apply, objects-found rb oid c.objects k)
                (record {
                  store = put_coll os x.0 c';
                  rest = a';
                  returned = ground (arith, e, k, r);
                  valid = put_coll-IsValid rb (pos n) c' v e (record {
                    objects = set_object-ObjectsValid rb oid o c.objects k valid;
                    map = c.map;
                  });
                  seen =
                      view-put_coll rb (pos n) c' v e
                      ∙ ap
                          (λ g.
                            set_coll (view os) (pos n)
                              (record { objects = g; attrs = get x.1.map }))
                          (view-set_object rb oid o c.objects k
                            ∙ ap
                                (λ f.
                                  update (view_objects x.1.objects) oid
                                    (some (record { content = y.1.content; attrs = f })))
                                values);
                  plenty = p';
                })
        ]
  ]
