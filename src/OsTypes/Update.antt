-- ===== src/OsTypes/Update.antt =====
-- `cceph_os_map_update` against the four rules that stand above it in os/types.h.
use ceph_in_c.Base.{
  ℕ, ◌≡◌, refl, ◌∙◌, ap, fun_ext, inl, inr, true, Option, none, some, List, [], ◌∷◌, arith, length,
  take, Option-cases,
}
use ceph_in_c.Base.Int.{pos}
use ceph_in_c.Base.Order.{CString, string_ord, ◌≺◌}
use ceph_in_c.Base.Errno.{ok}
use ceph_in_c.Base.Alloc.{Alloc, malloc, Plenty, malloc-Plenty}
use ceph_in_c.Map.{NodePath, RbTree, map_search, map_remove}
use ceph_in_c.Map.Assoc.{IsSorted, All, lookup, lookup-above}
use ceph_in_c.Map.Laws.{
  get, update, update-update, IsValid, map_insert-Inserted, get-map_search-none,
  get-map_search-some, map_remove-IsValid, get-map_remove,
}
use ceph_in_c.OsTypes.{
  OsMap, MapValue, Round, map_node_new, add_node, update_key, update_keys, map_update,
}

pub take-length {ℓ} : {A : Type ℓ} (xs : List A) → take (length xs) xs ≡ xs
take-length [] = refl
take-length (x ∷ xs) = ap (λ ys. x ∷ ys) (take-length xs)

-- Where no allocation fails, a new node holds the bytes that were passed.
pub map_node_new-Plenty :
    (value : List ℕ) (a : Alloc)
    → Plenty a
    → (a' : Alloc) × (map_node_new value (pos (length value)) a ≡ (some value, a')) × Plenty a'
unfolding map_node_new
map_node_new-Plenty value a p =
    let (a₁, e₁, p₁) = malloc-Plenty a p in
    let (a₂, e₂, p₂) = malloc-Plenty a₁ p₁ in
    let (a₃, e₃, p₃) = malloc-Plenty a₂ p₂ in choose value a₁ a₂ a₃ e₁ e₂ e₃ p₂ p₃
  where
    choose :
        (v : List ℕ) (a₁ a₂ a₃ : Alloc)
        → malloc a ≡ (true, a₁)
        → malloc a₁ ≡ (true, a₂)
        → malloc a₂ ≡ (true, a₃)
        → Plenty a₂
        → Plenty a₃
        → (a' : Alloc) × (map_node_new v (pos (length v)) a ≡ (some v, a')) × Plenty a'
    choose [] a₁ a₂ a₃ e₁ e₂ e₃ p₂ p₃ = (a₂, ground arith, p₂)
    choose (x ∷ xs) a₁ a₂ a₃ e₁ e₂ e₃ p₂ p₃ = (a₃, ground (arith, take-length xs), p₃)

-- The rules of os/types.h: a key that the input gives a value gets it, a key that the input gives
-- no value (NULL, of length 0) goes, and every other key keeps what it has.
abbrev pub merged :
    (CString → Option MapValue) → (CString → Option MapValue) → CString → Option MapValue
merged f g j = elim (g j) [ none ↦ f j | some v ↦ elim v [ [] ↦ none | x ∷ xs ↦ some (x ∷ xs) ] ]

-- An entry of the input as a change to a function.
abbrev pub set_or_delete :
    (CString → Option MapValue) → CString → MapValue → CString → Option MapValue
set_or_delete f k [] = update f k none
set_or_delete f k (x ∷ xs) = update f k (some (x ∷ xs))

module _ (rb : RbTree) where
  -- What a round does where no allocation fails.
  pub record RoundDone (f : CString → Option MapValue) (round : Round) : Type 0 where
    pub tree : OsMap
    pub rest : Alloc
    pub returned : round ≡ (true, tree, rest)
    pub valid : IsValid rb tree
    pub values : get tree ≡ f
    pub plenty : Plenty rest

  add_node-RoundDone :
      {tree : OsMap} (key : CString) (value : MapValue) (a : Alloc)
      → IsValid rb tree
      → Plenty a
      → map_search tree key ≡ none
      → RoundDone (update (get tree) key (some value)) (add_node rb tree key value a)
  unfolding add_node
  add_node-RoundDone {tree} key value a v p h =
      let (a', e, q) = map_node_new-Plenty value a p in
      let i = map_insert-Inserted rb key value v h in
      record {
        tree = i.result;
        rest = a';
        returned = ground (arith, e, i.returned);
        valid = i.valid;
        values = i.values;
        plenty = q;
      }

  -- After the removal of a node no search finds its key.
  map_search-map_remove :
      {tree : OsMap} (key : CString) {x : NodePath × MapValue}
      → IsValid rb tree
      → map_search tree key ≡ some x
      → map_search (map_remove rb tree x.0).1 key ≡ none
  map_search-map_remove {tree} key {x} v h =
      elim (Option-cases (map_search (map_remove rb tree x.0).1 key)) [
        | inl e ↦ e
        | inr (y, e) ↦
            let found = get-map_search-some rb key (map_remove-IsValid rb key v h) e in
            let gone = ap (λ (f : CString → Option MapValue). f key) (get-map_remove rb key v h) in
            absurd (ground (arith, found, gone, string_ord.cmp_refl key))
      ]

  update_key-found :
      {tree : OsMap} (key : CString) (value : MapValue) (a : Alloc) {x : NodePath × MapValue}
      → IsValid rb tree
      → Plenty a
      → map_search tree key ≡ some x
      → RoundDone (set_or_delete (get tree) key value) (update_key rb tree key value a)
  unfolding update_key map_remove
  update_key-found {tree} key [] a v p h = record {
    tree = (map_remove rb tree _).1;
    rest = a;
    returned = ground (arith, h);
    valid = map_remove-IsValid rb key v h;
    values = get-map_remove rb key v h;
    plenty = p;
  }
  update_key-found {tree} key (b ∷ bs) a {x} v p h =
      let removed = map_remove-IsValid rb key v h in
      let d = add_node-RoundDone key (b ∷ bs) a removed p (map_search-map_remove key v h) in
      record {
        tree = d.tree;
        rest = d.rest;
        returned = ground (arith, h, d.returned);
        valid = d.valid;
        values =
            d.values
            ∙ ap (λ f. update f key (some (b ∷ bs))) (get-map_remove rb key v h)
            ∙ update-update (get tree) key none (some (b ∷ bs));
        plenty = d.plenty;
      }

  update_key-missing :
      {tree : OsMap} (key : CString) (value : MapValue) (a : Alloc)
      → IsValid rb tree
      → Plenty a
      → map_search tree key ≡ none
      → RoundDone (set_or_delete (get tree) key value) (update_key rb tree key value a)
  unfolding update_key
  update_key-missing {tree} key [] a v p h = record {
    tree = tree;
    rest = a;
    returned = ground (arith, h);
    valid = v;
    values =
        fun_ext λ j. ground (arith, get-map_search-none rb key v h, string_ord.eq_of_cmp j key);
    plenty = p;
  }
  update_key-missing {tree} key (b ∷ bs) a v p h =
      let d = add_node-RoundDone key (b ∷ bs) a v p h in
      record {
        tree = d.tree;
        rest = d.rest;
        returned = ground (arith, h, d.returned);
        valid = d.valid;
        values = d.values;
        plenty = d.plenty;
      }

  update_key-RoundDone :
      {tree : OsMap} (key : CString) (value : MapValue) (a : Alloc)
      → IsValid rb tree
      → Plenty a
      → RoundDone (set_or_delete (get tree) key value) (update_key rb tree key value a)
  update_key-RoundDone {tree} key value a v p = elim (Option-cases (map_search tree key)) [
    | inl e ↦ update_key-missing key value a v p e
    | inr (x, e) ↦ update_key-found key value a v p e
  ]

  -- The first entry of a sorted input, then the others, is the whole input.
  merged-cons :
      (f : CString → Option MapValue) (k : CString) (v : MapValue) (es : List (CString × MapValue))
      → All (λ x. k ≺ x) es
      → merged (set_or_delete f k v) (λ q. lookup q es) ≡ merged f (λ q. lookup q ((k, v) ∷ es))
  unfolding lookup
  merged-cons f k [] es above =
      fun_ext λ j. ground (arith, lookup-above k es above, string_ord.eq_of_cmp j k)
  merged-cons f k (b ∷ bs) es above =
      fun_ext λ j. ground (arith, lookup-above k es above, string_ord.eq_of_cmp j k)

  -- What the whole loop does where no allocation fails.
  pub record Updated (f : CString → Option MapValue) (out : OsMap × Alloc) : Type 0 where
    pub valid : IsValid rb out.0
    pub values : get out.0 ≡ f
    pub plenty : Plenty out.1

  update_keys-Updated :
      {tree : OsMap} (es : List (CString × MapValue)) (a : Alloc)
      → IsValid rb tree
      → Plenty a
      → IsSorted es
      → Updated (merged (get tree) (λ q. lookup q es)) (update_keys rb tree es a)
  unfolding update_keys lookup
  update_keys-Updated [] a v p s = record { valid = v; values = refl; plenty = p }
  update_keys-Updated {tree} ((k, w) ∷ es) a v p s =
      let d = update_key-RoundDone k w a v p in
      let u = update_keys-Updated {tree = d.tree} es d.rest d.valid d.plenty s.1 in
      rw (d.returned, update_keys)
        (record {
          valid = u.valid;
          values =
              u.values
              ∙ ap (λ f. merged f (λ q. lookup q es)) d.values
              ∙ merged-cons (get tree) k w es s.0;
          plenty = u.plenty;
        })

  -- `cceph_os_map_update` follows the four rules: with a valid tree on each side, and where no
  -- allocation fails, it returns CCEPH_OK and a valid tree, which has at each key what the rules
  -- say.
  pub map_update_rules :
      {result input : OsMap} (a : Alloc)
      → IsValid rb result
      → IsValid rb input
      → Plenty a
      → (map_update rb result input a).0 ≡ ok
        × IsValid rb (map_update rb result input a).1
        × (get (map_update rb result input a).1 ≡ merged (get result) (get input))
        × Plenty (map_update rb result input a).2
  unfolding map_update get
  map_update_rules {result} {input} a v i p =
      let order = rb.entries-inorder input i.balanced in
      let u = update_keys-Updated (rb.entries input) a v p (rw order i.sorted) in
      (refl, u.valid, u.values ∙ ap (λ es. merged (get result) (λ q. lookup q es)) order, u.plenty)
