-- ===== src/OsTypes/Failure.antt =====
-- What `cceph_os_map_update` does where an allocation of its own fails.
use mathlib.Core.Path.{subst}
use ceph_in_c.Base.{
  ℕ, ◌≡◌, refl, ap, ◌∙◌, Bool-cases, false, inl, inr, Option, none, some, List, [], ◌∷◌, arith,
  length, Option-cases,
}
use ceph_in_c.Base.Int.{pos}
use ceph_in_c.Base.Order.{CString, string_ord}
use ceph_in_c.Base.Errno.{ok}
use ceph_in_c.Base.Alloc.{Alloc, malloc}
use ceph_in_c.Map.{NodePath, RbTree, map_search, map_insert, map_remove}
use ceph_in_c.Map.Laws.{get, update, IsValid, map_remove-IsValid, get-map_remove}
use ceph_in_c.Map.Refine.{map_insert-refines}
use ceph_in_c.OsTypes.{OsMap, MapValue, map_node_new, add_node, update_key, update_keys, map_update}

module _ (rb : RbTree) where
  -- Where the result is valid, the first entry of the input gives a new value to a key that the
  -- result has, and the first allocation fails, the call returns CCEPH_OK all the same, and the
  -- result has lost the key: it has neither the old value nor the new one.
  pub map_update_hides_failure :
      {result input : OsMap} (key : CString) (b : ℕ) (bs : List ℕ) (es : List (CString × MapValue))
      {x : NodePath × MapValue} (a a' : Alloc)
      → IsValid rb result
      → map_search result key ≡ some x
      → rb.entries input ≡ (key, b ∷ bs) ∷ es
      → malloc a ≡ (false, a')
      → ((map_update rb result input a).0 ≡ ok)
        × (get (map_update rb result input a).1 ≡ update (get result) key none)
        × (get (map_update rb result input a).1 key ≡ none)
  unfolding map_update update_keys update_key add_node map_node_new map_remove
  map_update_hides_failure {result} key b bs es {x} a a' v h e f =
      let self : update (get result) key none key ≡ none =
        ground (arith, string_ord.cmp_refl key) in
      let same : (map_update rb result _ a).1 ≡ (map_remove rb result x.0).1 =
        ground (arith, e, h, f) in
      let gone = ap get same ∙ get-map_remove rb key v h in
      (refl, gone, ap (λ (g : CString → Option MapValue). g key) gone ∙ self)

  add_node-IsValid :
      {tree : OsMap} (key : CString) (value : MapValue) (a : Alloc)
      → IsValid rb tree
      → IsValid rb (add_node rb tree key value a).1
  unfolding add_node
  add_node-IsValid {tree} key value a v =
      elim (Option-cases (map_node_new value (pos (length value)) a).0) [
        | inl n ↦
            let same : tree ≡ (add_node rb tree key value a).1 = ground (arith, n) in
            subst (IsValid rb) same v
        | inr (node, m) ↦
            let same : (map_insert rb tree key node).1 ≡ (add_node rb tree key value a).1 =
              ground (arith, m) in
            subst (IsValid rb) same (map_insert-refines rb key node v).0
      ]

  update_key-IsValid :
      {tree : OsMap} (key : CString) (value : MapValue) (a : Alloc)
      → IsValid rb tree
      → IsValid rb (update_key rb tree key value a).1
  unfolding update_key
  update_key-IsValid {tree} key [] a v = elim (Option-cases (map_search tree key)) [
    | inl n ↦
        let same : tree ≡ (update_key rb tree key [] a).1 = ground (arith, n) in
        subst (IsValid rb) same v
    | inr (x, e) ↦
        let same : (map_remove rb tree x.0).1 ≡ (update_key rb tree key [] a).1 =
          ground (arith, e) in
        subst (IsValid rb) same (map_remove-IsValid rb key v e)
  ]
  update_key-IsValid {tree} key (b ∷ bs) a v = elim (Option-cases (map_search tree key)) [
    | inl n ↦
        let same : (add_node rb tree key (b ∷ bs) a).1 ≡ (update_key rb tree key (b ∷ bs) a).1 =
          ground (arith, n) in
        subst (IsValid rb) same (add_node-IsValid key (b ∷ bs) a v)
    | inr (x, e) ↦
        let removed = (map_remove rb tree x.0).1 in
        let same : (add_node rb removed key (b ∷ bs) a).1 ≡ (update_key rb tree key (b ∷ bs) a).1 =
          ground (arith, e) in
        subst (IsValid rb) same (add_node-IsValid key (b ∷ bs) a (map_remove-IsValid rb key v e))
  ]

  update_keys-IsValid :
      {tree : OsMap} (es : List (CString × MapValue)) (a : Alloc)
      → IsValid rb tree
      → IsValid rb (update_keys rb tree es a).0
  unfolding update_keys
  update_keys-IsValid [] a v = v
  update_keys-IsValid {tree} ((k, w) ∷ es) a v =
      let round = update_key rb tree k w a in
      let u = update_key-IsValid k w a v in
      elim (Bool-cases round.0) [
        | inl go ↦
            let same : (update_keys rb round.1 es round.2).0
                ≡ (update_keys rb tree ((k, w) ∷ es) a).0 =
              ground (arith, go) in
            subst (IsValid rb) same (update_keys-IsValid {tree = round.1} es round.2 u)
        | inr stop ↦
            let same : round.1 ≡ (update_keys rb tree ((k, w) ∷ es) a).0 = ground (arith, stop) in
            subst (IsValid rb) same u
      ]

  -- `cceph_os_map_update` keeps a valid result tree valid, whatever the input tree and whichever
  -- allocations fail.
  pub map_update-IsValid :
      {result : OsMap} (input : OsMap) (a : Alloc)
      → IsValid rb result
      → IsValid rb (map_update rb result input a).1
  unfolding map_update
  map_update-IsValid input a v = update_keys-IsValid (rb.entries input) a v
