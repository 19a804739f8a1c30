-- ===== src/MemStore/Objects.antt =====
-- The objects of a collection: searches and writes through a pointer.
use mathlib.Core.Option
use ceph_in_c.Base.{◌≡◌, ap, none, some, []}
use ceph_in_c.Base.Order.{CString, string_ord}
use ceph_in_c.Map.{Tree, leaf, NodePath, RbTree, set_value, map_search}
use ceph_in_c.Map.Laws
use ceph_in_c.Map.Laws.{
  get, update, update-update, update_self, get-leaf, leaf-IsValid, map_insert-Inserted,
  map_remove-IsValid, get-map_remove, set_value-IsValid, get-set_value, get-map_search-none,
  get-map_search-some, map_search-get,
}
use ceph_in_c.OsTypes.{coll_id_ord}
use ceph_in_c.MemStore.{ObjectNode}
use ceph_in_c.MemStore.View.{view_object, view_objects, map-update, Each-update, ObjectsValid}

abbrev pub Objects : Type 0
Objects = Tree CString ObjectNode

abbrev pub new_object : ObjectNode
new_object = record { content = []; map = leaf }

module _ (rb : RbTree) where
  pub objects-missing :
      {t : Objects} (oid : CString)
      → ObjectsValid rb t
      → map_search t oid ≡ none
      → view_objects t oid ≡ none
  objects-missing oid v h = ap (Option.map view_object) (get-map_search-none rb oid v.tree h)

  pub objects-found :
      {t : Objects} (oid : CString) {x : NodePath × ObjectNode}
      → ObjectsValid rb t
      → map_search t oid ≡ some x
      → view_objects t oid ≡ some (view_object x.1)
  objects-found oid v h = ap (Option.map view_object) (get-map_search-some rb oid v.tree h)

  -- A write to an object that a search found.
  pub set_object-ObjectsValid :
      {t : Objects} (oid : CString) {x : NodePath × ObjectNode} (w : ObjectNode)
      → ObjectsValid rb t
      → map_search t oid ≡ some x
      → Laws.IsValid rb w.map
      → ObjectsValid rb (set_value x.0 w t)
  set_object-ObjectsValid {t} oid {x} w v h m = record {
    tree = set_value-IsValid rb oid w v.tree h;
    maps = Each-update t (set_value x.0 w t) oid w (get-set_value rb oid w v.tree h) v.maps m;
  }

  pub view-set_object :
      {t : Objects} (oid : CString) {x : NodePath × ObjectNode} (w : ObjectNode)
      → ObjectsValid rb t
      → map_search t oid ≡ some x
      → view_objects (set_value x.0 w t) ≡ update (view_objects t) oid (some (view_object w))
  view-set_object {t} oid {x} w v h =
      map-update view_object (get t) (get (set_value x.0 w t)) oid (some w)
        (get-set_value rb oid w v.tree h)
