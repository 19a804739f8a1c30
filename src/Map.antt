-- ===== src/Map.antt =====
-- common/rbtree.h: the search tree and the three functions of CCEPH_IMPL_MAP. The rebalancing of
-- common/rbtree.c is the kernel's library, and is the parameter `RbTree` of what uses it.
pub mod Assoc
pub mod Paths
pub mod Laws
pub mod Refine
pub mod Plain
use Prim.Native.Nat.Ordering.{lt, eq, gt}
use ceph_in_c.Base.{◌≡◌, ◌≢◌, Option, none, some, List, [], ◌∷◌, ◌++◌}
use ceph_in_c.Base.Order.{Ord}
use ceph_in_c.Base.Errno.{Errno, ok, err_map_node_already_exist}

-- The low bit of `rb_parent_color`.
pub data Color : Type 0 where
  red black : Color

-- A `cceph_rb_node` inside the struct that it is a field of: the key, and the other fields.
pub data Tree (K V : Type 0) : Type 0 where
  leaf : Tree K V
  node : Color → Tree K V → K → V → Tree K V → Tree K V

pub data Dir : Type 0 where
  left right : Dir

-- A pointer to a node of a tree, or to a NULL link of it: the way from the root.
abbrev pub NodePath : Type 0
NodePath = List Dir

module _ {K V : Type 0} where
  -- The nodes in the order of the tree.
  abbrev pub inorder : Tree K V → List (K × V)
  inorder leaf = []
  inorder (node c l k v r) = inorder l ++ ((k, v) ∷ inorder r)

  -- `cceph_rb_link_node`: the link gets a red node with no children.
  unfoldable pub link : NodePath → K → V → Tree K V → Tree K V
  link p q w leaf = node red leaf q w leaf
  link [] q w (node c l k v r) = node c l k v r
  link (left ∷ p) q w (node c l k v r) = node c (link p q w l) k v r
  link (right ∷ p) q w (node c l k v r) = node c l k v (link p q w r)

  -- A write to the fields of a node through a pointer to it; the tree's own fields stay.
  unfoldable pub set_value : NodePath → V → Tree K V → Tree K V
  set_value p w leaf = leaf
  set_value [] w (node c l k v r) = node c l k w r
  set_value (left ∷ p) w (node c l k v r) = node c (set_value p w l) k v r
  set_value (right ∷ p) w (node c l k v r) = node c l k v (set_value p w r)

  -- What stands before and after a NULL link, where the path ends at one.
  abbrev pub around_link : NodePath → Tree K V → Option (List (K × V) × List (K × V))
  around_link [] leaf = some ([], [])
  around_link (d ∷ p) leaf = none
  around_link [] (node c l k v r) = none
  around_link (left ∷ p) (node c l k v r) = elim (around_link p l) [
    | none ↦ none
    | some x ↦ some (x.0, x.1 ++ ((k, v) ∷ inorder r))
  ]
  around_link (right ∷ p) (node c l k v r) = elim (around_link p r) [
    | none ↦ none
    | some x ↦ some (inorder l ++ ((k, v) ∷ x.0), x.1)
  ]

  -- What stands before a node, the node, and what stands after it, where the path ends at one.
  abbrev pub around_node : NodePath → Tree K V → Option (List (K × V) × (K × V) × List (K × V))
  around_node p leaf = none
  around_node [] (node c l k v r) = some (inorder l, (k, v), inorder r)
  around_node (left ∷ p) (node c l k v r) = elim (around_node p l) [
    | none ↦ none
    | some x ↦ some (x.0, x.1, x.2 ++ ((k, v) ∷ inorder r))
  ]
  around_node (right ∷ p) (node c l k v r) = elim (around_node p r) [
    | none ↦ none
    | some x ↦ some (inorder l ++ ((k, v) ∷ x.0), x.1, x.2)
  ]

-- What the maps use of common/rbtree.c. `IsBalanced` is the library's own invariant on colours and
-- heights: a tree meets it that is built by these calls alone.
pub record RbTree : Type 1 where
  pub IsBalanced : {K V : Type 0} → Tree K V → Type 0
  -- `cceph_rb_insert_color`, on the tree in which the node at the path was just linked
  pub insert_color : {K V : Type 0} → NodePath → Tree K V → Tree K V
  -- `cceph_rb_erase`
  pub erase : {K V : Type 0} → NodePath → Tree K V → Tree K V
  -- the nodes that `cceph_rb_first` and then `cceph_rb_next` visit
  pub entries : {K V : Type 0} → Tree K V → List (K × V)
  pub leaf-IsBalanced : (K V : Type 0) → IsBalanced {K = K} {V = V} leaf
  pub insert_color-IsBalanced :
      {K V : Type 0} (p : NodePath) (k : K) (v : V) (t : Tree K V)
      → around_link p t ≢ none
      → IsBalanced t
      → IsBalanced (insert_color p (link p k v t))
  pub inorder-insert_color :
      {K V : Type 0} (p : NodePath) (k : K) (v : V) (t : Tree K V)
      → around_link p t ≢ none
      → IsBalanced t
      → inorder (insert_color p (link p k v t)) ≡ inorder (link p k v t)
  pub erase-IsBalanced :
      {K V : Type 0} (p : NodePath) (t : Tree K V)
      → around_node p t ≢ none
      → IsBalanced t
      → IsBalanced (erase p t)
  pub inorder-erase :
      {K V : Type 0} (p : NodePath) (t : Tree K V) {x : List (K × V) × (K × V) × List (K × V)}
      → around_node p t ≡ some x
      → IsBalanced t
      → inorder (erase p t) ≡ x.0 ++ x.2
  pub entries-inorder : {K V : Type 0} (t : Tree K V) → IsBalanced t → entries t ≡ inorder t
  -- the library reads no field of the struct around a node
  pub set_value-IsBalanced :
      {K V : Type 0} (p : NodePath) (v : V) (t : Tree K V)
      → IsBalanced t
      → IsBalanced (set_value p v t)

module _ {K V : Type 0} ⦃o : Ord K⦄ where
  -- The walk of `map_search`: the pointer to the node, and the fields behind it.
  unfoldable pub map_search : Tree K V → K → Option (NodePath × V)
  map_search leaf q = none
  map_search (node c l k v r) q = elim (o.cmp q k) [
    | lt ↦ elim (map_search l q) [ none ↦ none | some x ↦ some (left ∷ x.0, x.1) ]
    | eq ↦ some ([], v)
    | gt ↦ elim (map_search r q) [ none ↦ none | some x ↦ some (right ∷ x.0, x.1) ]
  ]

  -- The walk of `map_insert` to the NULL link that gets the node, if no node has the key.
  unfoldable pub find_link : Tree K V → K → Option NodePath
  find_link leaf q = some []
  find_link (node c l k v r) q = elim (o.cmp q k) [
    | lt ↦ elim (find_link l q) [ none ↦ none | some p ↦ some (left ∷ p) ]
    | eq ↦ none
    | gt ↦ elim (find_link r q) [ none ↦ none | some p ↦ some (right ∷ p) ]
  ]

  unfoldable pub map_insert : RbTree → Tree K V → K → V → Errno × Tree K V
  map_insert rb t q w = elim (find_link t q) [
    | none ↦ (err_map_node_already_exist, t)
    | some p ↦ (ok, rb.insert_color p (link p q w t))
  ]

unfoldable pub map_remove : {K V : Type 0} → RbTree → Tree K V → NodePath → Errno × Tree K V
map_remove rb t p = (ok, rb.erase p t)
