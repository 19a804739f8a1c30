-- ===== src/Map/Plain.antt =====
-- The parameter `RbTree` with a library that never rebalances: a removed node's right subtree is
-- hung below the last node of its left subtree.
use mathlib.Core.List.{append_assoc}
use mathlib.Core.Path.{subst}
use ceph_in_c.Base.{◌≡◌, refl, inl, inr, some, List, [], ◌∷◌, ◌++◌, arith, Option-cases}
use ceph_in_c.Map.{Tree, leaf, node, left, right, NodePath, RbTree, inorder, around_node}

module _ {K V : Type 0} where
  unfoldable pub hang : Tree K V → Tree K V → Tree K V
  hang leaf t = t
  hang (node c l k v r) t = node c l k v (hang r t)

  inorder-hang : (l t : Tree K V) → inorder (hang l t) ≡ inorder l ++ inorder t
  unfolding hang
  inorder-hang leaf t = refl
  inorder-hang (node c l k v r) t = rw (inorder-hang r t, append_assoc) refl

  unfoldable pub plain_erase : NodePath → Tree K V → Tree K V
  unfolding hang
  plain_erase p leaf = leaf
  plain_erase [] (node c l k v r) = hang l r
  plain_erase (left ∷ p) (node c l k v r) = node c (plain_erase p l) k v r
  plain_erase (right ∷ p) (node c l k v r) = node c l k v (plain_erase p r)

  pub inorder-plain_erase :
      (p : NodePath) (t : Tree K V) {x : List (K × V) × (K × V) × List (K × V)}
      → around_node p t ≡ some x
      → inorder (plain_erase p t) ≡ x.0 ++ x.2
  unfolding plain_erase
  inorder-plain_erase p leaf h = cc
  inorder-plain_erase [] (node c l k v r) {x} h =
      subst (λ (y : List (K × V) × (K × V) × List (K × V)). inorder (hang l r) ≡ y.0 ++ y.2)
        {x = (inorder l, (k, v), inorder r)} {y = x} (ground arith) (inorder-hang l r)
  inorder-plain_erase (left ∷ p) (node c l k v r) {x} h = elim (Option-cases (around_node p l)) [
    | inl e ↦ absurd (ground arith)
    | inr (y, e) ↦
        subst
          (λ (z : List (K × V) × (K × V) × List (K × V)).
            inorder (node c (plain_erase p l) k v r) ≡ z.0 ++ z.2)
          {x = (y.0, y.1, y.2 ++ ((k, v) ∷ inorder r))} {y = x} (ground arith)
          (rw (inorder-plain_erase p l e, append_assoc) refl)
  ]
  inorder-plain_erase (right ∷ p) (node c l k v r) {x} h = elim (Option-cases (around_node p r)) [
    | inl e ↦ absurd (ground arith)
    | inr (y, e) ↦
        subst
          (λ (z : List (K × V) × (K × V) × List (K × V)).
            inorder (node c l k v (plain_erase p r)) ≡ z.0 ++ z.2)
          {x = (inorder l ++ ((k, v) ∷ y.0), y.1, y.2)} {y = x} (ground arith)
          (rw (inorder-plain_erase p r e, append_assoc) refl)
  ]

unfoldable pub plain : RbTree
unfolding plain_erase
plain = record {
  IsBalanced = λ t. Unit;
  insert_color = λ p t. t;
  erase = plain_erase;
  entries = inorder;
  leaf-IsBalanced = λ K V. tt;
  insert_color-IsBalanced = λ p k v t s b. tt;
  inorder-insert_color = λ p k v t s b. refl;
  erase-IsBalanced = λ p t s b. tt;
  inorder-erase = λ p t e b. inorder-plain_erase p t e;
  entries-inorder = λ t b. refl;
  set_value-IsBalanced = λ p v t b. tt;
}
