-- ===== src/MemStore/Read/Answers.antt =====
-- What the reading calls answer, in terms of the functions that a store stands for.
use Prim.Native.Nat.Ordering.{eq}
use mathlib.Core.Option
use ceph_in_c.Base.{
  ℕ, ◌^◌, ◌<◌, ◌≡◌, refl, ◌∙◌, ap, inl, inr, Bool, true, false, Option, none, some, List, [], ◌∷◌,
  map, arith, length, Option-cases,
}
use ceph_in_c.Base.Int.{ℤ}
use ceph_in_c.Base.Order.{CString, string_ord, ◌≺◌}
use ceph_in_c.Base.Errno.{
  Errno, ok, err_coll_not_exist, err_object_not_exist, err_map_node_not_exist,
}
use ceph_in_c.Base.Alloc.{Alloc, Plenty, malloc-Plenty}
use ceph_in_c.Map.{RbTree, map_search, inorder}
use ceph_in_c.Map.Assoc.{lookup, IsSorted}
use ceph_in_c.Map.Laws
use ceph_in_c.Map.Laws.{get, get-map_search-none, get-map_search-some}
use ceph_in_c.OsTypes.{CollId, coll_id_ord, OsMap, MapValue}
use ceph_in_c.OsTypes.Update.{merged, map_update_rules}
use ceph_in_c.MemStore.{CollNode, MemStore}
use ceph_in_c.MemStore.Spec.{Object, Coll, Store, Attrs}
use ceph_in_c.MemStore.View.{view, view_coll, IsValid}
use ceph_in_c.MemStore.Colls.{view-missing, view-found, found-CollValid}
use ceph_in_c.MemStore.Objects.{objects-missing, objects-found}
use ceph_in_c.MemStore.Read.{
  read_key, read_coll_map_key, read_obj_map_key, exist_coll, list_coll, read_coll_map,
}
use ceph_in_c.MemStore.Read.Bytes.{part}

-- The bytes of an object in the specified store.
abbrev pub object_answer : Store → CollId → CString → ℕ → ℤ → Errno × List ℕ
object_answer s cid oid offset wanted = elim (s cid) [
  | none ↦ (err_coll_not_exist, [])
  | some c ↦ elim (c.objects oid) [
    | none ↦ (err_object_not_exist, [])
    | some o ↦ (ok, part o.content offset wanted)
  ]
]

abbrev pub key_answer : Attrs → CString → Errno × MapValue
key_answer f key = elim (f key) [ none ↦ (err_map_node_not_exist, []) | some v ↦ (ok, v) ]

abbrev pub coll_key_answer : Store → CollId → CString → Errno × MapValue
coll_key_answer s cid key = elim (s cid) [
  | none ↦ (err_coll_not_exist, [])
  | some c ↦ key_answer c.attrs key
]

abbrev pub object_key_answer : Store → CollId → CString → CString → Errno × MapValue
object_key_answer s cid oid key = elim (s cid) [
  | none ↦ (err_coll_not_exist, [])
  | some c ↦ elim (c.objects oid) [
    | none ↦ (err_map_node_not_exist, [])
    | some o ↦ key_answer o.attrs key
  ]
]

-- Every object of the store is shorter than 2 ^ 31 bytes.
abbrev pub Small : Store → Type 0
Small s =
    (cid : CollId) (c : Coll) (oid : CString) (o : Object)
    → s cid ≡ some c
    → c.objects oid ≡ some o
    → length o.content < 2 ^ 31

module _ (rb : RbTree) where
  read_key-answer :
      {t : OsMap} (key : CString) (a : Alloc)
      → Laws.IsValid rb t
      → Plenty a
      → (a' : Alloc) × (read_key t key a
          ≡ ((key_answer (get t) key).0, (key_answer (get t) key).1, a'))
  unfolding read_key
  read_key-answer {t} key a v p = elim (Option-cases (map_search t key)) [
    | inl e ↦ (a, ground (arith, e, get-map_search-none rb key v e))
    | inr (x, e) ↦
        let (a', m, p') = malloc-Plenty a p in
        (a', ground (arith, e, m, get-map_search-some rb key v e))
  ]

  -- The value of a key of a collection's map, and of an object's map, is read as the
  -- specified store has it, where the store is valid and no allocation fails.
  pub read_map_key-answer :
      {os : MemStore} (cid : CollId) (oid key : CString) (a : Alloc)
      → IsValid rb os
      → Plenty a
      → ((a' : Alloc) × (read_coll_map_key os cid key a
            ≡ ((coll_key_answer (view os) cid key).0, (coll_key_answer (view os) cid key).1, a')))
        × ((a' : Alloc) × (read_obj_map_key os cid oid key a ≡ (
          (object_key_answer (view os) cid oid key).0,
          (object_key_answer (view os) cid oid key).1,
          a',
        )))
  unfolding read_coll_map_key read_obj_map_key
  read_map_key-answer {os} cid oid key a v p = elim (Option-cases (map_search os.colls cid)) [
    | inl e ↦ (
      (a, ground (arith, e, view-missing rb cid v e)),
      (a, ground (arith, e, view-missing rb cid v e)),
    )
    | inr (x, e) ↦
        let c = found-CollValid rb cid v e in
        let seen = view-found rb cid v e in
        let (b, r) = read_key-answer key a c.map p in
        elim (Option-cases (map_search x.1.objects oid)) [
          | inl k ↦ (
            (b, ground (arith, e, seen, r)),
            (a, ground (arith, e, k, seen, objects-missing rb oid c.objects k)),
          )
          | inr (y, k) ↦
              let (b', r') =
                read_key-answer key a
                  (c.objects.maps oid y.1 (get-map_search-some rb oid c.objects.tree k)) p in
              (
                (b, ground (arith, e, seen, r)),
                (b', ground (arith, e, k, seen, objects-found rb oid c.objects k, r')),
              )
        ]
  ]

-- The id stands in the list.
abbrev pub listed : CollId → List CollId → Bool
listed q [] = false
listed q (c ∷ cs) = elim (coll_id_ord.cmp q c) [ eq ↦ true | _ ↦ listed q cs ]

abbrev pub Rising : List CollId → Type 0
Rising [] = Unit
Rising (c ∷ []) = Unit
Rising (c ∷ d ∷ cs) = (c ≺ d) × Rising (d ∷ cs)

abbrev pub present : Option Coll → Bool
present none = false
present (some c) = true

listed-ids :
    (q : CollId) (es : List (CollId × CollNode))
    → listed q (map (λ (e : CollId × CollNode). e.0) es)
      ≡ present (Option.map view_coll (lookup q es))
unfolding lookup
listed-ids q [] = refl
listed-ids q (e ∷ es) = ground (arith, listed-ids q es)

Rising-ids :
    (es : List (CollId × CollNode)) → IsSorted es → Rising (map (λ (e : CollId × CollNode). e.0) es)
Rising-ids [] s = tt
Rising-ids (e ∷ []) s = tt
Rising-ids (e ∷ d ∷ es) s = (s.0.0, Rising-ids (d ∷ es) s.1)

module _ (rb : RbTree) where
  -- On a valid store, where no allocation fails, `list_coll` lists exactly the collections that
  -- there are, in rising order, and `exist_coll` tells whether a collection is there.
  pub list_coll-present :
      {os : MemStore} (q : CollId) (a : Alloc)
      → IsValid rb os
      → Plenty a
      → (ids : List CollId) × (a' : Alloc) × (list_coll rb os a ≡ (ok, ids, a'))
        × Rising ids
        × (listed q ids ≡ present (view os q))
        × (exist_coll os q ≡ (ok, listed q ids))
  unfolding list_coll exist_coll view get
  list_coll-present {os} q a v p =
      let (a', m, p') = malloc-Plenty a p in
      let order = rb.entries-inorder os.colls v.tree.balanced in
      let ids = map (λ (e : CollId × CollNode). e.0) (inorder os.colls) in
      let there = listed-ids q (inorder os.colls) in
      (
        ids,
        a',
        ground (arith, m, order),
        Rising-ids (inorder os.colls) v.tree.sorted,
        there,
        elim (Option-cases (map_search os.colls q)) [
          | inl e ↦ ground (arith, e, there, get-map_search-none rb q v.tree e)
          | inr (x, e) ↦ ground (arith, e, there, get-map_search-some rb q v.tree e)
        ],
      )

  -- The read of a collection's map puts its entries into the caller's map, where both are
  -- valid, no allocation fails and the collection is there.
  pub read_coll_map-merged :
      {os : MemStore} {m : OsMap} (cid : CollId) {c : Coll} (a : Alloc)
      → IsValid rb os
      → Laws.IsValid rb m
      → view os cid ≡ some c
      → Plenty a
      → ((read_coll_map rb os cid m a).0 ≡ ok)
        × (get (read_coll_map rb os cid m a).1 ≡ merged (get m) c.attrs)
  unfolding read_coll_map
  read_coll_map-merged {os} {m} cid {c} a v vm there p =
      elim (Option-cases (map_search os.colls cid)) [
        | inl e ↦ absurd (ground (arith, view-missing rb cid v e))
        | inr (x, e) ↦
            let (r, _, values, _) =
              map_update_rules rb {input = x.1.map} a vm (found-CollValid rb cid v e).map p in
            let same : get x.1.map ≡ c.attrs = ground (arith, view-found rb cid v e) in
            (ground (arith, e, r), rw (e, read_coll_map) (values ∙ ap (merged (get m)) same))
      ]
