-- ===== src/Map/Refine.antt =====
-- The map functions against a finite function from keys to values.
use mathlib.Core.Option
use ceph_in_c.Base.{◌≡◌, refl, inl, inr, Option, none, some, arith, Option-cases}
use ceph_in_c.Base.Order.{Ord}
use ceph_in_c.Base.Errno.{Errno, ok, err_map_node_already_exist}
use ceph_in_c.Map.{Tree, NodePath, RbTree, map_search, map_insert, map_remove}
use ceph_in_c.Map.Laws.{
  get, update, IsValid, get-map_search-some, get-map_search-none, map_insert-exists,
  map_insert-Inserted, map_remove-IsValid, get-map_remove,
}

-- An insertion into a finite function: a key that is there is refused.
abbrev pub insert_spec :
    {K V : Type 0} ⦃o : Ord K⦄ → (K → Option V) → K → V → Errno × (K → Option V)
insert_spec f q w = elim (f q) [
  | none ↦ (ok, update f q (some w))
  | some v ↦ (err_map_node_already_exist, f)
]

module _ (rb : RbTree) {K V : Type 0} ⦃o : Ord K⦄ where
  -- On a valid tree a search answers with the value that the key has, or that it has none.
  pub map_search_lem :
      {t : Tree K V} (q : K)
      → IsValid rb t
      → Option.map (λ (x : NodePath × V). x.1) (map_search t q) ≡ get t q
  map_search_lem {t} q v = elim (Option-cases (map_search t q)) [
    | inl e ↦ ground (arith, e, get-map_search-none rb q v e)
    | inr (x, e) ↦ ground (arith, e, get-map_search-some rb q v e)
  ]

  -- On a valid tree an insertion returns the code, and leaves the finite function, that the
  -- specification says, for a key that is there as for one that is not; the tree stays valid.
  pub map_insert-refines :
      {t : Tree K V} (q : K) (w : V)
      → IsValid rb t
      → IsValid rb (map_insert rb t q w).1
        × (((map_insert rb t q w).0, get (map_insert rb t q w).1) ≡ insert_spec (get t) q w)
  map_insert-refines {t} q w v = elim (Option-cases (map_search t q)) [
    | inl e ↦
        let i = map_insert-Inserted rb q w v e in
        rw (i.returned, get-map_search-none rb q v e, insert_spec, i.values) (i.valid, refl)
    | inr (x, e) ↦
        rw (map_insert-exists rb t q w e, get-map_search-some rb q v e, insert_spec) (v, refl)
  ]

  -- The removal of the node that a search found returns CCEPH_OK and takes that key, and no other,
  -- out of the finite function; the tree stays valid.
  pub map_remove-refines :
      {t : Tree K V} (q : K) {x : NodePath × V}
      → IsValid rb t
      → map_search t q ≡ some x
      → ((map_remove rb t x.0).0 ≡ ok)
        × IsValid rb (map_remove rb t x.0).1
        × (get (map_remove rb t x.0).1 ≡ update (get t) q none)
  unfolding map_remove
  map_remove-refines q v h = (refl, map_remove-IsValid rb q v h, get-map_remove rb q v h)
