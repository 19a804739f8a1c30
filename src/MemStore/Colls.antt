-- ===== src/MemStore/Colls.antt =====
-- The operations on collections, against their specification.
use mathlib.Core.Option
use ceph_in_c.Base.{ℕ, ◌≡◌, refl, ◌∙◌, ap, inl, inr, Option, none, some, arith, Option-cases}
use ceph_in_c.Base.Int.{pos}
use ceph_in_c.Base.Order.{string_ord}
use ceph_in_c.Base.Errno.{Errno, returns}
use ceph_in_c.Base.Alloc.{Alloc, Plenty, malloc-Plenty}
use ceph_in_c.Map.{leaf, NodePath, RbTree, set_value, map_search, map_remove}
use ceph_in_c.Map.Laws
use ceph_in_c.Map.Laws.{
  get, update, get-leaf, leaf-IsValid, map_insert-Inserted, map_remove-IsValid, get-map_remove,
  set_value-IsValid, get-set_value, get-map_search-none, get-map_search-some,
}
use ceph_in_c.OsTypes.{CollId, coll_id_ord, OsMap, MapValue, map_update}
use ceph_in_c.OsTypes.Update.{map_update_rules}
use ceph_in_c.Tran.{coll_create, coll_remove, coll_map}
use ceph_in_c.MemStore.{
  ObjectNode, CollNode, MemStore, Outcome, put_coll, coll_node_new, do_op_coll_create,
  do_op_coll_remove, do_op_coll_map,
}
use ceph_in_c.MemStore.Spec.{Store, set_coll, empty_coll, apply}
use ceph_in_c.MemStore.View.{
  view_object, view_coll, view_objects, view, map-update, Each-update, Each-delete, CollValid,
  IsValid,
}

module _ (rb : RbTree) where
  -- An operation returned what the specification says, in a valid store that stands for what the
  -- specification leaves.
  pub record Done (spec : Errno × Store) (out : Outcome) : Type 0 where
    pub store : MemStore
    pub rest : Alloc
    pub returned : out ≡ returns (spec.0, store, rest)
    pub valid : IsValid rb store
    pub seen : view store ≡ spec.1
    pub plenty : Plenty rest

  pub leaf-CollValid : CollValid rb (record { objects = leaf; map = leaf })
  leaf-CollValid = record {
    objects = record {
      tree = leaf-IsValid rb;
      maps = λ k v h. cc (h, get-leaf {V = ObjectNode} k);
    };
    map = leaf-IsValid rb;
  }

  view-leaf : view_coll (record { objects = leaf; map = leaf }) ≡ empty_coll
  unfolding get
  view-leaf = λ i. record {
    objects = λ j. Option.map view_object (get-leaf {V = ObjectNode} j i);
    attrs = λ j. get-leaf {V = MapValue} j i;
  }

  pub view-missing :
      {os : MemStore} (cid : CollId)
      → IsValid rb os
      → map_search os.colls cid ≡ none
      → view os cid ≡ none
  unfolding view
  view-missing cid v h = ap (Option.map view_coll) (get-map_search-none rb cid v.tree h)

  pub view-found :
      {os : MemStore} (cid : CollId) {x : NodePath × CollNode}
      → IsValid rb os
      → map_search os.colls cid ≡ some x
      → view os cid ≡ some (view_coll x.1)
  unfolding view
  view-found cid v h = ap (Option.map view_coll) (get-map_search-some rb cid v.tree h)

  pub found-CollValid :
      {os : MemStore} (cid : CollId) {x : NodePath × CollNode}
      → IsValid rb os
      → map_search os.colls cid ≡ some x
      → CollValid rb x.1
  found-CollValid cid {x} v h = v.colls cid x.1 (get-map_search-some rb cid v.tree h)

  -- A write to a collection that a search found.
  pub put_coll-IsValid :
      {os : MemStore} (cid : CollId) {x : NodePath × CollNode} (c : CollNode)
      → IsValid rb os
      → map_search os.colls cid ≡ some x
      → CollValid rb c
      → IsValid rb (put_coll os x.0 c)
  put_coll-IsValid {os} cid {x} c v h w = record {
    tree = set_value-IsValid rb cid c v.tree h;
    colls =
        Each-update os.colls (set_value x.0 c os.colls) cid c (get-set_value rb cid c v.tree h)
          v.colls w;
  }

  pub view-put_coll :
      {os : MemStore} (cid : CollId) {x : NodePath × CollNode} (c : CollNode)
      → IsValid rb os
      → map_search os.colls cid ≡ some x
      → view (put_coll os x.0 c) ≡ set_coll (view os) cid (view_coll c)
  unfolding view
  view-put_coll {os} cid {x} c v h =
      map-update view_coll (get os.colls) (get (set_value x.0 c os.colls)) cid (some c)
        (get-set_value rb cid c v.tree h)

  view-colls :
      (os os' : MemStore) (cid : CollId) (c : Option CollNode)
      → get os'.colls ≡ update (get os.colls) cid c
      → view os' ≡ update (view os) cid (Option.map view_coll c)
  unfolding view
  view-colls os os' cid c e = map-update view_coll (get os.colls) (get os'.colls) cid c e

  pub coll_create-Done :
      {os : MemStore} (n : ℕ) (a : Alloc)
      → IsValid rb os
      → Plenty a
      → Done (apply (view os) (coll_create (pos n))) (do_op_coll_create rb os (pos n) a)
  unfolding do_op_coll_create coll_node_new
  coll_create-Done {os} n a v p = elim (Option-cases (map_search os.colls (pos n))) [
    | inl e ↦
        let (a', m, p') = malloc-Plenty a p in
        let i = map_insert-Inserted rb (pos n) (record { objects = leaf; map = leaf }) v.tree e in
        rw (view-missing (pos n) v e, apply)
          (record {
            store = record { colls = i.result };
            rest = a';
            returned = ground (arith, e, m, i.returned);
            valid = record {
              tree = i.valid;
              colls = Each-update os.colls i.result (pos n) _ i.values v.colls leaf-CollValid;
            };
            seen =
                view-colls os (record { colls = i.result }) (pos n) (some _) i.values
                ∙ ap (set_coll (view os) (pos n)) view-leaf;
            plenty = p';
          })
    | inr (x, e) ↦
        rw (view-found (pos n) v e, apply)
          (record {
            store = os;
            rest = a;
            returned = ground (arith, e);
            valid = v;
            seen = refl;
            plenty = p;
          })
  ]

  pub coll_remove-Done :
      {os : MemStore} (n : ℕ) (a : Alloc)
      → IsValid rb os
      → Plenty a
      → Done (apply (view os) (coll_remove (pos n))) (do_op_coll_remove rb os (pos n) a)
  unfolding do_op_coll_remove
  coll_remove-Done {os} n a v p = elim (Option-cases (map_search os.colls (pos n))) [
    | inl e ↦
        rw (view-missing (pos n) v e, apply)
          (record {
            store = os;
            rest = a;
            returned = ground (arith, e);
            valid = v;
            seen = refl;
            plenty = p;
          })
    | inr (x, e) ↦
        let t' = (map_remove rb os.colls x.0).1 in
        let gone = get-map_remove rb (pos n) v.tree e in
        rw (view-found (pos n) v e, apply)
          (record {
            store = record { colls = t' };
            rest = a;
            returned = unfold map_remove in ground (arith, e);
            valid = record {
              tree = map_remove-IsValid rb (pos n) v.tree e;
              colls = Each-delete os.colls t' (pos n) gone v.colls;
            };
            seen = view-colls os (record { colls = t' }) (pos n) none gone;
            plenty = p;
          })
  ]

  pub coll_map-Done :
      {os : MemStore} (n : ℕ) (map : OsMap) (a : Alloc)
      → IsValid rb os
      → Laws.IsValid rb map
      → Plenty a
      → Done (apply (view os) (coll_map (pos n) map)) (do_op_coll_map rb os (pos n) map a)
  unfolding do_op_coll_map
  coll_map-Done {os} n map a v m p = elim (Option-cases (map_search os.colls (pos n))) [
    | inl e ↦
        rw (view-missing (pos n) v e, apply)
          (record {
            store = os;
            rest = a;
            returned = ground (arith, e);
            valid = v;
            seen = refl;
            plenty = p;
          })
    | inr (x, e) ↦
        let c = found-CollValid (pos n) v e in
        let (r, valid, values, p') = map_update_rules rb {result = x.1.map} a c.map m p in
        let (ret, map', a') = map_update rb x.1.map map a in
        let c' : CollNode = record x.1 { map = map' } in
        rw (view-found (pos n) v e, apply)
          (record {
            store = put_coll os x.0 c';
            rest = a';
            returned = ground (arith, e, r);
            valid = put_coll-IsValid (pos n) c' v e (record { objects = c.objects; map = valid });
            seen =
                view-put_coll (pos n) c' v e
                ∙ ap
                    (λ f.
                      set_coll (view os) (pos n)
                        (record { objects = view_objects x.1.objects; attrs = f }))
                    values;
            plenty = p';
          })
  ]
