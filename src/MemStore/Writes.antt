-- ===== src/MemStore/Writes.antt =====
-- A write or a touch of an object, against its specification.
use ceph_in_c.Base.{
  ℕ, zero, suc, ◌≤◌, ◌≡◌, refl, ◌∙◌, sym, ap, inl, inr, Option, some, List, [], ◌∷◌, arith, length,
  take, Option-cases,
}
use ceph_in_c.Base.Order.{CString, string_ord}
use ceph_in_c.Base.Errno.{Errno, ok, Exit, returns}
use ceph_in_c.Base.Alloc.{Alloc, Plenty, malloc-Plenty}
use ceph_in_c.Map.{NodePath, RbTree, set_value, map_search}
use ceph_in_c.Map.Laws.{
  get, update, update-update, update_self, get-leaf, leaf-IsValid, map_insert-Inserted,
  get-map_search-some, map_search-get,
}
use ceph_in_c.OsTypes.{CollId, coll_id_ord, MapValue}
use ceph_in_c.MemStore.{
  ObjectNode, CollNode, MemStore, put_coll, object_node_new, find_or_create, write_object,
  write_in_coll,
}
use ceph_in_c.MemStore.Spec.{Object, empty_object, set_coll, spliced, written, or_empty, write_spec}
use ceph_in_c.MemStore.View.{
  view_object, view_objects, view, map-update, Each-update, ObjectsValid, IsValid,
}
use ceph_in_c.MemStore.Content.{write_content-spliced}
use ceph_in_c.MemStore.Colls.{
  Done, view-missing, view-found, found-CollValid, put_coll-IsValid, view-put_coll,
}
use ceph_in_c.MemStore.Objects.{
  Objects, new_object, objects-missing, objects-found, set_object-ObjectsValid, view-set_object,
}

module _ (rb : RbTree) where
  -- What the object of a write is, found or new.
  record Ready (t : Objects) (oid : CString) (out : Errno × Objects × Alloc) : Type 0 where
    objects : Objects
    rest : Alloc
    at : NodePath × ObjectNode
    returned : out ≡ (ok, objects, rest)
    valid : ObjectsValid rb objects
    found : map_search objects oid ≡ some at
    object : view_object at.1 ≡ or_empty (view_objects t oid)
    seen : view_objects objects ≡ update (view_objects t) oid (some (or_empty (view_objects t oid)))
    plenty : Plenty rest

  view-new_object : view_object new_object ≡ empty_object
  view-new_object = λ i. record { content = []; attrs = λ j. get-leaf {V = MapValue} j i }

  find_or_create-Ready :
      (t : Objects) (oid : CString) (a : Alloc)
      → ObjectsValid rb t
      → Plenty a
      → Ready t oid (find_or_create rb t oid a)
  unfolding find_or_create
  find_or_create-Ready t oid a v p = elim (Option-cases (map_search t oid)) [
    | inr (x, e) ↦
        let here = objects-found rb oid v e in
        record {
          objects = t;
          rest = a;
          at = x;
          returned = ground (arith, e);
          valid = v;
          found = e;
          object = ground (arith, here);
          seen = sym (
              update_self (view_objects t) oid (some (or_empty (view_objects t oid)))
                (ground (arith, here)));
          plenty = p;
        }
    | inl e ↦
        let (a₁, m₁, p₁) = malloc-Plenty a p in
        let (a₂, m₂, p₂) = malloc-Plenty a₁ p₁ in
        let i = map_insert-Inserted rb oid new_object v.tree e in
        let at_oid = ap (λ f. f oid) i.values in
        let (x, e', same) =
          map_search-get rb oid new_object i.valid
            (ground (arith, at_oid, string_ord.cmp_refl oid)) in
        let gone = objects-missing rb oid v e in
        record {
          objects = i.result;
          rest = a₂;
          at = x;
          returned = unfold object_node_new in ground (arith, e, m₁, m₂, i.returned);
          valid = record {
            tree = i.valid;
            maps = Each-update t i.result oid new_object i.values v.maps (leaf-IsValid rb);
          };
          found = e';
          object = ap view_object same ∙ view-new_object ∙ ap or_empty (sym gone);
          seen =
              map-update view_object (get t) (get i.result) oid (some new_object) i.values
              ∙ ap (λ w. update (view_objects t) oid (some w))
                  (view-new_object ∙ ap or_empty (sym gone));
          plenty = p₂;
        }
  ]

  -- The objects of a collection after a write.
  record Wrote (f : CString → Option Object) (oid : CString) (o : Object)
      (out : Exit (Errno × Objects × Alloc)) : Type 0 where
    objects : Objects
    rest : Alloc
    returned : out ≡ returns (ok, objects, rest)
    valid : ObjectsValid rb objects
    seen : view_objects objects ≡ update f oid (some o)
    plenty : Plenty rest

  write_object-Wrote :
      {t : Objects} (oid : CString) (x : NodePath × ObjectNode) (offset size : ℕ) (bytes : List ℕ)
      (a : Alloc)
      → ObjectsValid rb t
      → map_search t oid ≡ some x
      → size ≤ length bytes
      → Plenty a
      → Wrote
          (view_objects t)
          oid
          (written (view_object x.1) offset (take size bytes))
          (write_object rb t oid offset size bytes a)
  unfolding write_object
  write_object-Wrote {t} oid x offset zero bytes a v e fits p = record {
    objects = t;
    rest = a;
    returned = refl;
    valid = v;
    seen =
        sym (update_self (view_objects t) oid (some (view_object x.1)) (objects-found rb oid v e));
    plenty = p;
  }
  write_object-Wrote oid x offset (suc size) [] a v e fits p = absurd (omega arith)
  write_object-Wrote {t} oid x offset (suc size) (b ∷ bs) a v e fits p =
      let (a', w, p') = write_content-spliced x.1.content offset (suc size) (b ∷ bs) a fits p in
      let o : ObjectNode = record x.1 { content = spliced x.1.content offset (b ∷ take size bs) } in
      record {
        objects = set_value x.0 o t;
        rest = a';
        returned = ground (arith, e, w);
        valid =
            set_object-ObjectsValid rb oid o v e
              (v.maps oid x.1 (get-map_search-some rb oid v.tree e));
        seen = view-set_object rb oid o v e;
        plenty = p';
      }

  -- A write, or a touch, to a collection of the store.
  pub write-Done :
      {os : MemStore} (cid : CollId) (oid : CString) (offset size : ℕ) (bytes : List ℕ) (a : Alloc)
      → IsValid rb os
      → size ≤ length bytes
      → Plenty a
      → Done rb
          (write_spec (view os) cid oid offset (take size bytes))
          (write_in_coll rb os cid oid offset size bytes a)
  unfolding write_in_coll
  write-Done {os} cid oid offset size bytes a v fits p =
      elim (Option-cases (map_search os.colls cid)) [
        | inl e ↦
            rw (view-missing rb cid v e, write_spec)
              (record {
                store = os;
                rest = a;
                returned = ground (arith, e);
                valid = v;
                seen = refl;
                plenty = p;
              })
        | inr (x, e) ↦
            let c = found-CollValid rb cid v e in
            let f = view_objects x.1.objects in
            let r = find_or_create-Ready x.1.objects oid a c.objects p in
            let w =
              write_object-Wrote oid r.at offset size bytes r.rest r.valid r.found fits r.plenty in
            let c' : CollNode = record x.1 { objects = w.objects } in
            rw (view-found rb cid v e, write_spec)
              (record {
                store = put_coll os x.0 c';
                rest = w.rest;
                returned = ground (arith, e, r.returned, w.returned);
                valid = put_coll-IsValid rb cid c' v e (record { objects = w.valid; map = c.map });
                seen =
                    view-put_coll rb cid c' v e
                    ∙ ap (λ g. set_coll (view os) cid (record { objects = g; attrs = get x.1.map }))
                        (w.seen
                          ∙ ap
                              (λ g.
                                update g oid
                                  (some (written (view_object r.at.1) offset (take size bytes))))
                              r.seen
                          ∙ update-update f oid _ _
                          ∙ ap (λ o. update f oid (some (written o offset (take size bytes))))
                              r.object);
                plenty = w.plenty;
              })
      ]
