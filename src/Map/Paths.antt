-- ===== src/Map/Paths.antt =====
-- Where the walks of CCEPH_IMPL_MAP end, in terms of the order of the nodes.
use mathlib.Core.Path.{subst}
use mathlib.Core.List.{append_assoc}
use ceph_in_c.Base.{
  ◌≡◌, refl, sym, inl, inr, none, some, List, [], ◌∷◌, ◌++◌, arith, Option-cases, Ordering-cases,
}
use ceph_in_c.Base.Order.{Ord, ◌≺◌}
use ceph_in_c.Map.{
  Tree, leaf, node, Color, left, right, NodePath, inorder, link, set_value, around_link,
  around_node, map_search, find_link,
}
use ceph_in_c.Map.Assoc.{All, All-append, All-imp, IsSorted, IsSorted-split}

module _ {K V : Type 0} where
  -- The node of a pointer, with its neighbours in order.
  pub record NodeSpot (t : Tree K V) (q : K) (x : NodePath × V) : Type 0 where
    pub before : List (K × V)
    pub after : List (K × V)
    pub here : around_node x.0 t ≡ some (before, (q, x.1), after)
    pub whole : inorder t ≡ before ++ ((q, x.1) ∷ after)
    pub written : (w : V) → inorder (set_value x.0 w t) ≡ before ++ ((q, w) ∷ after)

  NodeSpot-left :
      (c : Color) {l : Tree K V} (k : K) (v : V) (r : Tree K V) {q : K} {x : NodePath × V}
      → NodeSpot l q x
      → NodeSpot (node c l k v r) q (left ∷ x.0, x.1)
  unfolding set_value
  NodeSpot-left c k v r s = record {
    before = s.before;
    after = s.after ++ ((k, v) ∷ inorder r);
    here = rw s.here refl;
    whole = rw (s.whole, append_assoc) refl;
    written = λ w. rw (s.written w, append_assoc) refl;
  }

  NodeSpot-root :
      (c : Color) (l : Tree K V) (k : K) (v : V) (r : Tree K V)
      → NodeSpot (node c l k v r) k ([], v)
  unfolding set_value
  NodeSpot-root c l k v r = record {
    before = inorder l;
    after = inorder r;
    here = refl;
    whole = refl;
    written = λ w. refl;
  }

  NodeSpot-right :
      (c : Color) (l : Tree K V) (k : K) (v : V) {r : Tree K V} {q : K} {x : NodePath × V}
      → NodeSpot r q x
      → NodeSpot (node c l k v r) q (right ∷ x.0, x.1)
  unfolding set_value
  NodeSpot-right c l k v s = record {
    before = inorder l ++ ((k, v) ∷ s.before);
    after = s.after;
    here = rw s.here refl;
    whole = rw (s.whole, append_assoc) refl;
    written = λ w. rw (s.written w, append_assoc) refl;
  }

  -- A NULL link, and what the tree holds once the link gets a node.
  pub record LinkSpot (t : Tree K V) (q : K) (p : NodePath) : Type 0 where
    pub before : List (K × V)
    pub after : List (K × V)
    pub here : around_link p t ≡ some (before, after)
    pub whole : inorder t ≡ before ++ after
    pub linked : (w : V) → inorder (link p q w t) ≡ before ++ ((q, w) ∷ after)

  LinkSpot-leaf : (q : K) → LinkSpot leaf q []
  unfolding link
  LinkSpot-leaf q = record {
    before = [];
    after = [];
    here = refl;
    whole = refl;
    linked = λ w. refl;
  }

  LinkSpot-left :
      (c : Color) {l : Tree K V} (k : K) (v : V) (r : Tree K V) {q : K} {p : NodePath}
      → LinkSpot l q p
      → LinkSpot (node c l k v r) q (left ∷ p)
  unfolding link
  LinkSpot-left c k v r s = record {
    before = s.before;
    after = s.after ++ ((k, v) ∷ inorder r);
    here = rw s.here refl;
    whole = rw (s.whole, append_assoc) refl;
    linked = λ w. rw (s.linked w, append_assoc) refl;
  }

  LinkSpot-right :
      (c : Color) (l : Tree K V) (k : K) (v : V) {r : Tree K V} {q : K} {p : NodePath}
      → LinkSpot r q p
      → LinkSpot (node c l k v r) q (right ∷ p)
  unfolding link
  LinkSpot-right c l k v s = record {
    before = inorder l ++ ((k, v) ∷ s.before);
    after = s.after;
    here = rw s.here refl;
    whole = rw (s.whole, append_assoc) refl;
    linked = λ w. rw (s.linked w, append_assoc) refl;
  }

module _ {K V : Type 0} ⦃o : Ord K⦄ where
  -- What `map_search` finds is a node with the key.
  pub map_search-NodeSpot :
      (t : Tree K V) (q : K) (x : NodePath × V) → map_search t q ≡ some x → NodeSpot t q x
  unfolding map_search
  map_search-NodeSpot leaf q x h = cc
  map_search-NodeSpot (node c l k v r) q x h = elim (Ordering-cases (o.cmp q k)) [
    | inl p ↦ elim (Option-cases (map_search l q)) [
      | inl e ↦ absurd (ground arith)
      | inr (y, e) ↦
          subst (NodeSpot (node c l k v r) q) (ground arith)
            (NodeSpot-left c k v r (map_search-NodeSpot l q y e))
    ]
    | inr (inl p) ↦
        subst (λ j. NodeSpot (node c l k v r) j x) (sym (o.eq_of_cmp q k p))
          (subst (NodeSpot (node c l k v r) k) (ground arith) (NodeSpot-root c l k v r))
    | inr (inr p) ↦ elim (Option-cases (map_search r q)) [
      | inl e ↦ absurd (ground arith)
      | inr (y, e) ↦
          subst (NodeSpot (node c l k v r) q) (ground arith)
            (NodeSpot-right c l k v (map_search-NodeSpot r q y e))
    ]
  ]

  -- The keys on the two sides of the NULL link are below and above the key of the walk.
  pub record OrderedLink (t : Tree K V) (q : K) (p : NodePath) : Type 0 where
    pub spot : LinkSpot t q p
    pub low : All (λ x. x ≺ q) spot.before
    pub high : All (λ x. q ≺ x) spot.after

  -- Where `map_search` finds no node, the walk of `map_insert` ends at a NULL link.
  pub find_link-OrderedLink :
      (t : Tree K V) (q : K)
      → IsSorted (inorder t)
      → map_search t q ≡ none
      → (p : NodePath) × (find_link t q ≡ some p) × OrderedLink t q p
  unfolding map_search find_link LinkSpot-leaf LinkSpot-left LinkSpot-right
  find_link-OrderedLink leaf q s h =
      ([], refl, record { spot = LinkSpot-leaf q; low = tt; high = tt })
  find_link-OrderedLink (node c l k v r) q s h =
      let (sl, bl, ar, sr) = IsSorted-split (inorder l) k v (inorder r) s in
      elim (Ordering-cases (o.cmp q k)) [
        | inl p ↦
            let (y, e, w) = find_link-OrderedLink l q sl (ground arith) in
            (
              left ∷ y,
              ground arith,
              record {
                spot = LinkSpot-left c k v r w.spot;
                low = w.low;
                high =
                    All-append (λ x. q ≺ x) w.spot.after ((k, v) ∷ inorder r) w.high
                      (p, All-imp (λ x. o.lt_trans q k x p) (inorder r) ar);
              },
            )
        | inr (inl p) ↦ absurd (ground arith)
        | inr (inr p) ↦
            let (y, e, w) = find_link-OrderedLink r q sr (ground arith) in
            let kq = o.lt_of_gt q k p in
            (
              right ∷ y,
              ground arith,
              record {
                spot = LinkSpot-right c l k v w.spot;
                low =
                    All-append (λ x. x ≺ q) (inorder l) ((k, v) ∷ w.spot.before)
                      (All-imp (λ x b. o.lt_trans x k q b kq) (inorder l) bl) (kq, w.low);
                high = w.high;
              },
            )
      ]

  -- Where `map_search` finds a node, the walk of `map_insert` meets it.
  pub find_link-none :
      (t : Tree K V) (q : K) (x : NodePath × V) → map_search t q ≡ some x → find_link t q ≡ none
  unfolding map_search find_link
  find_link-none leaf q x h = cc
  find_link-none (node c l k v r) q x h = elim (Ordering-cases (o.cmp q k)) [
    | inl p ↦ elim (Option-cases (map_search l q)) [
      | inl e ↦ absurd (ground arith)
      | inr (y, e) ↦ ground (arith, find_link-none l q y e)
    ]
    | inr (inl p) ↦ ground arith
    | inr (inr p) ↦ elim (Option-cases (map_search r q)) [
      | inl e ↦ absurd (ground arith)
      | inr (y, e) ↦ ground (arith, find_link-none r q y e)
    ]
  ]
