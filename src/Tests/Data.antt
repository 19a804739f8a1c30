-- ===== src/Tests/Data.antt =====
-- A small store, its parts, and that they are valid.
use mathlib.Core.Path.{subst}
use ceph_in_c.Base.{inl, inr, [], ◌∷◌, arith, Ordering-cases}
use ceph_in_c.Base.Int.{pos}
use ceph_in_c.Base.Order.{Ord, CString, string_ord}
use ceph_in_c.Map.{Tree, leaf, node, black}
use ceph_in_c.Map.Laws
use ceph_in_c.Map.Laws.{get, leaf-IsValid}
use ceph_in_c.Map.Assoc.{lookup}
use ceph_in_c.Map.Plain.{plain}
use ceph_in_c.OsTypes.{coll_id_ord, OsMap}
use ceph_in_c.MemStore.{ObjectNode, CollNode, MemStore}
use ceph_in_c.MemStore.View.{Each, CollValid, IsValid}

abbrev pub single : {K V : Type 0} → K → V → Tree K V
single k v = node black leaf k v leaf

pub single-IsValid : {K V : Type 0} ⦃o : Ord K⦄ (k : K) (v : V) → Laws.IsValid plain (single k v)
unfolding plain
single-IsValid k v = record { balanced = tt; sorted = (tt, tt) }

pub single-Each :
    {K V : Type 0} ⦃o : Ord K⦄ (P : V → Type 0) (k : K) (v : V) → P v → Each P (single k v)
unfolding get lookup
single-Each ⦃o⦄ P k v here j w h = elim (Ordering-cases (o.cmp j k)) [
  | inl p ↦ absurd (ground arith)
  | inr (inl p) ↦ subst P (ground arith) here
  | inr (inr p) ↦ absurd (ground arith)
]

abbrev pub key_a : CString
key_a = 97 ∷ []

abbrev pub key_b : CString
key_b = 98 ∷ []

abbrev pub small_map : OsMap
small_map = single key_a (7 ∷ 8 ∷ [])

pub small_map-IsValid : Laws.IsValid plain small_map
small_map-IsValid = single-IsValid key_a (7 ∷ 8 ∷ [])

abbrev pub object_node : ObjectNode
object_node = record { content = 1 ∷ 2 ∷ 3 ∷ []; map = small_map }

abbrev pub coll_node : CollNode
coll_node = record { objects = single key_a object_node; map = small_map }

-- One collection, 5, with one object.
abbrev pub store : MemStore
store = record { colls = single (pos 5) coll_node }

pub coll_node-CollValid : CollValid plain coll_node
coll_node-CollValid = record {
  objects = record {
    tree = single-IsValid key_a object_node;
    maps = single-Each (λ o. Laws.IsValid plain o.map) key_a object_node small_map-IsValid;
  };
  map = small_map-IsValid;
}

pub store-IsValid : IsValid plain store
store-IsValid = record {
  tree = single-IsValid (pos 5) coll_node;
  colls = single-Each (CollValid plain) (pos 5) coll_node coll_node-CollValid;
}
