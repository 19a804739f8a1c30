-- ===== src/MemStore/View.antt =====
-- The finite functions that a store stands for, and the invariant of its trees.
use mathlib.Core.Path.{subst}
use mathlib.Core.Option
use ceph_in_c.Base.{◌≡◌, ap, fun_ext, inl, inr, Option, none, some, arith, Ordering-cases}
use ceph_in_c.Base.Order.{Ord, CString, string_ord}
use ceph_in_c.Map.{Tree, RbTree}
use ceph_in_c.Map.Laws
use ceph_in_c.Map.Laws.{get, update}
use ceph_in_c.OsTypes.{coll_id_ord}
use ceph_in_c.MemStore.{ObjectNode, CollNode, MemStore}
use ceph_in_c.MemStore.Spec.{Object, Coll, Store}

abbrev pub view_object : ObjectNode → Object
view_object o = record { content = o.content; attrs = get o.map }

abbrev pub view_objects : Tree CString ObjectNode → CString → Option Object
view_objects t oid = Option.map view_object (get t oid)

abbrev pub view_coll : CollNode → Coll
view_coll c = record { objects = view_objects c.objects; attrs = get c.map }

unfoldable pub view : MemStore → Store
view os cid = Option.map view_coll (get os.colls cid)

-- A change of a tree at one key is a change of what it stands for.
pub map-update :
    {K A B : Type 0} ⦃o : Ord K⦄ (h : A → B) (f g : K → Option A) (k : K) (v : Option A)
    → g ≡ update f k v
    → (λ (j : K). Option.map h (g j)) ≡ update (λ j. Option.map h (f j)) k (Option.map h v)
map-update h f g k v e = fun_ext λ j. ground (arith, ap (λ x. x j) e)

-- Every value of a tree meets `P`.
abbrev pub Each : {K V : Type 0} ⦃o : Ord K⦄ → (V → Type 0) → Tree K V → Type 0
Each {K} {V} P t = (k : K) (v : V) → get t k ≡ some v → P v

module _ (rb : RbTree) where
  pub record ObjectsValid (t : Tree CString ObjectNode) : Type 0 where
    pub tree : Laws.IsValid rb t
    pub maps : Each (λ o. Laws.IsValid rb o.map) t

  pub record CollValid (c : CollNode) : Type 0 where
    pub objects : ObjectsValid c.objects
    pub map : Laws.IsValid rb c.map

  -- Every tree of the store is an ordered tree that only the map functions built.
  pub record IsValid (os : MemStore) : Type 0 where
    pub tree : Laws.IsValid rb os.colls
    pub colls : Each CollValid os.colls

-- A change of a tree at one key keeps what its other values meet.
pub Each-update :
    {K V : Type 0} ⦃o : Ord K⦄ {P : V → Type 0} (t t' : Tree K V) (k : K) (w : V)
    → get t' ≡ update (get t) k (some w)
    → Each P t
    → P w
    → Each P t'
Each-update ⦃o⦄ {P = P} t t' k w e each here j v h =
    let at_j = ap (λ f. f j) e in
    elim (Ordering-cases (o.cmp j k)) [
      | inl p ↦ each j v (ground arith)
      | inr (inl p) ↦ subst P (ground arith) here
      | inr (inr p) ↦ each j v (ground arith)
    ]

pub Each-delete :
    {K V : Type 0} ⦃o : Ord K⦄ {P : V → Type 0} (t t' : Tree K V) (k : K)
    → get t' ≡ update (get t) k none
    → Each P t
    → Each P t'
Each-delete ⦃o⦄ {P = P} t t' k e each j v h =
    let at_j = ap (λ f. f j) e in
    elim (Ordering-cases (o.cmp j k)) [
      | inl p ↦ each j v (ground arith)
      | inr (inl p) ↦ absurd (ground arith)
      | inr (inr p) ↦ each j v (ground arith)
    ]
