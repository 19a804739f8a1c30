-- ===== src/Map/Laws.antt =====
-- The maps of CCEPH_IMPL_MAP as finite functions: what search, insert and remove do to the value
-- at each key, whatever the tree looks like inside.
use Prim.Native.Nat.Ordering.{eq}
use ceph_in_c.Base.{
  ◌≡◌, refl, ◌∙◌, ap, fun_ext, ◌≢◌, Option, inl, inr, none, some, arith, Option-cases,
}
use ceph_in_c.Base.Order.{Ord}
use ceph_in_c.Base.Errno.{ok, err_map_node_already_exist}
use ceph_in_c.Map.{
  Tree, leaf, NodePath, RbTree, inorder, link, set_value, around_link, around_node, map_search,
  map_insert, map_remove,
}
use ceph_in_c.Map.Assoc.{
  lookup, IsSorted, IsSorted-split, IsSorted-join, IsSorted-without, IsSorted-parts, lookup-middle,
  lookup_self, lookup-without, lookup-skip, lookup-above,
}
use ceph_in_c.Map.Paths.{map_search-NodeSpot, find_link-OrderedLink, find_link-none}

module _ {K V : Type 0} ⦃o : Ord K⦄ where
  -- The value at a key.
  unfoldable pub get : Tree K V → K → Option V
  get t q = lookup q (inorder t)

  -- The function that is `w` at `q` and `f` elsewhere.
  abbrev pub update : (K → Option V) → K → Option V → K → Option V
  update f q w j = elim (o.cmp j q) [ eq ↦ w | _ ↦ f j ]

  pub update-update :
      (f : K → Option V) (k : K) (v w : Option V) → update (update f k v) k w ≡ update f k w
  update-update f k v w = fun_ext λ j. ground arith

  -- Writing what a key has changes nothing.
  pub update_self : (f : K → Option V) (k : K) (v : Option V) → f k ≡ v → update f k v ≡ f
  update_self f k v e = fun_ext λ j. ground (arith, o.eq_of_cmp j k)

  pub get-leaf : (q : K) → get leaf q ≡ none
  unfolding get lookup
  get-leaf q = refl

module _ (rb : RbTree) {K V : Type 0} ⦃o : Ord K⦄ where
  -- A search tree as the program builds it.
  pub record IsValid (t : Tree K V) : Type 0 where
    pub balanced : rb.IsBalanced t
    pub sorted : IsSorted (inorder t)

  pub leaf-IsValid : IsValid leaf
  leaf-IsValid = record { balanced = rb.leaf-IsBalanced K V; sorted = tt }

  pub get-map_search-some :
      {t : Tree K V} (q : K) {x : NodePath × V}
      → IsValid t
      → map_search t q ≡ some x
      → get t q ≡ some x.1
  unfolding get
  get-map_search-some {t} q {x} v h =
      let s = map_search-NodeSpot t q x h in
      let low = (IsSorted-split s.before q x.1 s.after (rw s.whole at v.sorted)).1 in
      rw s.whole (lookup_self s.before q x.1 s.after low)

  pub get-map_search-none :
      {t : Tree K V} (q : K) → IsValid t → map_search t q ≡ none → get t q ≡ none
  unfolding get
  get-map_search-none {t} q v h =
      let (p, e, w) = find_link-OrderedLink t q v.sorted h in
      rw w.spot.whole
        (lookup-skip q w.spot.before w.spot.after w.low ∙ lookup-above q w.spot.after w.high)

  -- A search finds each key that has a value, with that value.
  pub map_search-get :
      {t : Tree K V} (q : K) (w : V)
      → IsValid t
      → get t q ≡ some w
      → (x : NodePath × V) × (map_search t q ≡ some x) × (x.1 ≡ w)
  map_search-get {t} q w v h = elim (Option-cases (map_search t q)) [
    | inl e ↦ absurd (ground (arith, get-map_search-none q v e))
    | inr (x, e) ↦ (x, e, ground (arith, get-map_search-some q v e))
  ]

  -- Insertion of a key that the map has is refused, and changes nothing.
  pub map_insert-exists :
      (t : Tree K V) (q : K) (w : V) {x : NodePath × V}
      → map_search t q ≡ some x
      → map_insert rb t q w ≡ (err_map_node_already_exist, t)
  unfolding map_insert
  map_insert-exists t q w {x} h = rw (find_link-none t q x h, map_insert) refl

  -- The tree after the insertion of a key that the map has not.
  pub record Inserted (t : Tree K V) (q : K) (w : V) : Type 0 where
    pub result : Tree K V
    pub returned : map_insert rb t q w ≡ (ok, result)
    pub valid : IsValid result
    pub values : get result ≡ update (get t) q (some w)

  pub map_insert-Inserted :
      {t : Tree K V} (q : K) (w : V) → IsValid t → map_search t q ≡ none → Inserted t q w
  unfolding map_insert get
  map_insert-Inserted {t} q w v h =
      let (p, e, y) = find_link-OrderedLink t q v.sorted h in
      let open_link : around_link p t ≢ none = λ n. cc (y.spot.here, n) in
      let order = rb.inorder-insert_color p q w t open_link v.balanced ∙ y.spot.linked w in
      let (sb, sa) = IsSorted-parts y.spot.before y.spot.after (rw y.spot.whole at v.sorted) in
      record {
        result = rb.insert_color p (link p q w t);
        returned = rw (e, map_insert) refl;
        valid = record {
          balanced = rb.insert_color-IsBalanced p q w t open_link v.balanced;
          sorted = rw order (IsSorted-join y.spot.before q w y.spot.after sb y.low y.high sa);
        };
        values = fun_ext λ j. rw order (
            ground (
              arith,
              ap (lookup j) y.spot.whole,
              lookup-middle j y.spot.before q w y.spot.after y.low,
            ));
      }

  -- Removal of the node that a search found.
  pub map_remove-IsValid :
      {t : Tree K V} (q : K) {x : NodePath × V}
      → IsValid t
      → map_search t q ≡ some x
      → IsValid (map_remove rb t x.0).1
  unfolding map_remove
  map_remove-IsValid {t} q {x} v h =
      let s = map_search-NodeSpot t q x h in
      let at_node : around_node x.0 t ≢ none = λ n. cc (s.here, n) in
      record {
        balanced = rb.erase-IsBalanced x.0 t at_node v.balanced;
        sorted =
            rw (rb.inorder-erase x.0 t s.here v.balanced)
              (IsSorted-without s.before q x.1 s.after (rw s.whole at v.sorted));
      }

  pub get-map_remove :
      {t : Tree K V} (q : K) {x : NodePath × V}
      → IsValid t
      → map_search t q ≡ some x
      → get (map_remove rb t x.0).1 ≡ update (get t) q none
  unfolding map_remove get
  get-map_remove {t} q {x} v h =
      let s = map_search-NodeSpot t q x h in
      let sorted = rw s.whole at v.sorted in
      let low = (IsSorted-split s.before q x.1 s.after sorted).1 in
      fun_ext λ j. rw (rb.inorder-erase x.0 t s.here v.balanced) (
        ground (
          arith,
          ap (lookup j) s.whole,
          lookup-middle j s.before q x.1 s.after low,
          lookup-without s.before q x.1 s.after sorted,
          o.eq_of_cmp j q,
        ))

  -- A write to the fields of the node that a search found.
  pub set_value-IsValid :
      {t : Tree K V} (q : K) {x : NodePath × V} (w : V)
      → IsValid t
      → map_search t q ≡ some x
      → IsValid (set_value x.0 w t)
  set_value-IsValid {t} q {x} w v h =
      let s = map_search-NodeSpot t q x h in
      let (a, b, c, d) = IsSorted-split s.before q x.1 s.after (rw s.whole at v.sorted) in
      record {
        balanced = rb.set_value-IsBalanced x.0 w t v.balanced;
        sorted = rw (s.written w) (IsSorted-join s.before q w s.after a b c d);
      }

  pub get-set_value :
      {t : Tree K V} (q : K) {x : NodePath × V} (w : V)
      → IsValid t
      → map_search t q ≡ some x
      → get (set_value x.0 w t) ≡ update (get t) q (some w)
  unfolding get
  get-set_value {t} q {x} w v h =
      let s = map_search-NodeSpot t q x h in
      let low = (IsSorted-split s.before q x.1 s.after (rw s.whole at v.sorted)).1 in
      fun_ext λ j. rw (s.written w) (
        ground (
          arith,
          ap (lookup j) s.whole,
          lookup-middle j s.before q x.1 s.after low,
          lookup-middle j s.before q w s.after low,
        ))
