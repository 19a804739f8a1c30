-- ===== src/OsTypes.antt =====
-- os/types.c: collection ids, and the maps from keys to values of collections and objects.
pub mod Update
pub mod Failure
use Prim.Native.Nat.Ordering.{lt, eq, gt}
use Prim.Native.Nat.{compare, Ordering}
use ceph_in_c.Base.{
  ℕ, ◌≡◌, refl, ap, Bool, true, false, Option, none, some, List, [], ◌∷◌, arith, ltb, length, take,
  if◌then◌else◌,
}
use ceph_in_c.Base.Int.{ℤ, pos, negsuc, compare_int}
use ceph_in_c.Base.Order.{Ord, CString, string_ord}
use ceph_in_c.Base.Errno.{Errno, ok}
use ceph_in_c.Base.Alloc.{Alloc, malloc}
use ceph_in_c.Map.{Tree, NodePath, RbTree, map_search, map_insert, map_remove}

-- `cceph_os_coll_id_t`, an int32_t.
abbrev pub CollId : Type 0
CollId = ℤ

abbrev pub gt_int : ℤ → ℤ → Bool
gt_int a b = elim (compare_int a b) [ gt ↦ true | _ ↦ false ]

abbrev pub lt_int : ℤ → ℤ → Bool
lt_int a b = elim (compare_int a b) [ lt ↦ true | _ ↦ false ]

-- The sign of what `cceph_os_coll_id_cmp` returns.
unfoldable pub coll_id_cmp : CollId → CollId → Ordering
coll_id_cmp a b = if gt_int a b then gt else if lt_int a b then lt else eq

pub coll_id_cmp_refl : (a : CollId) → coll_id_cmp a a ≡ eq
unfolding coll_id_cmp
coll_id_cmp_refl (pos n) = ground arith
coll_id_cmp_refl (negsuc n) = ground arith

pub eq_of_coll_id_cmp : (a b : CollId) → coll_id_cmp a b ≡ eq → a ≡ b
unfolding coll_id_cmp
eq_of_coll_id_cmp a b h = ground arith

pub coll_id_cmp-lt_of_gt : (a b : CollId) → coll_id_cmp a b ≡ gt → coll_id_cmp b a ≡ lt
unfolding coll_id_cmp
coll_id_cmp-lt_of_gt a b h = ground arith

pub coll_id_cmp-gt_of_lt : (a b : CollId) → coll_id_cmp a b ≡ lt → coll_id_cmp b a ≡ gt
unfolding coll_id_cmp
coll_id_cmp-gt_of_lt a b h = ground arith

pub coll_id_cmp-lt_trans :
    (a b c : CollId) → coll_id_cmp a b ≡ lt → coll_id_cmp b c ≡ lt → coll_id_cmp a c ≡ lt
unfolding coll_id_cmp
coll_id_cmp-lt_trans a b c h k = ground arith

instance abbrev pub coll_id_ord : Ord CollId
coll_id_ord = record {
  cmp = coll_id_cmp;
  cmp_refl = coll_id_cmp_refl;
  eq_of_cmp = eq_of_coll_id_cmp;
  lt_of_gt = coll_id_cmp-lt_of_gt;
  gt_of_lt = coll_id_cmp-gt_of_lt;
  lt_trans = coll_id_cmp-lt_trans;
}

-- The value of a `cceph_os_map_node`: its `value_length` bytes, none where `value` is NULL.
abbrev pub MapValue : Type 0
MapValue = List ℕ

-- The tree of an object's or a collection's map.
abbrev pub OsMap : Type 0
OsMap = Tree CString MapValue

-- How many bytes are copied for a `value_length`.
abbrev pub copy_length : ℤ → ℕ
copy_length (pos n) = n
copy_length (negsuc n) = 0

-- `cceph_os_map_node_new`: the fields of the new node besides its key, or none on
-- CCEPH_ERR_NO_ENOUGH_MEM. The node, its key and its value are allocated, in this order.
unfoldable pub map_node_new : List ℕ → ℤ → Alloc → Option MapValue × Alloc
map_node_new value value_length a =
    let (node_there, a₁) = malloc a in
    let (key_there, a₂) = malloc a₁ in
    let (value_there, a₃) = malloc a₂ in
    if node_there
    then (if key_there
        then (if ltb 0 (copy_length value_length)
            then (if value_there
                then (some (take (copy_length value_length) value), a₃)
                else (none, a₃))
            else (some [], a₂))
        else (none, a₂))
    else (none, a₁)

-- The three functions of CCEPH_IMPL_MAP, which os/types.c writes out for its nodes, with `strcmp`.
abbrev pub map_node_insert : RbTree → OsMap → CString → MapValue → Errno × OsMap
map_node_insert rb root key value = map_insert rb root key value

abbrev pub map_node_remove : RbTree → OsMap → NodePath → Errno × OsMap
map_node_remove rb root at = map_remove rb root at

abbrev pub map_node_search : OsMap → CString → Option (NodePath × MapValue)
map_node_search root key = map_search root key

-- What one round of the loop of `cceph_os_map_update` leaves: whether the loop goes on, and the
-- tree.
abbrev pub Round : Type 0
Round = Bool × OsMap × Alloc

module _ (rb : RbTree) where
  -- `cceph_os_map_node_new` and `cceph_os_map_node_insert`; an error leaves the loop.
  unfoldable pub add_node : OsMap → CString → MapValue → Alloc → Round
  add_node tree key value a =
      let (made, a') = map_node_new value (pos (length value)) a in
      elim made [
        | none ↦ (false, tree, a')
        | some node ↦
            let (ret, tree') = map_node_insert rb tree key node in
            elim ret [ ok ↦ (true, tree', a') | _ ↦ (false, tree', a') ]
      ]

  -- One round: an entry of the input tree is added, changed, removed or passed over.
  unfoldable pub update_key : OsMap → CString → MapValue → Alloc → Round
  unfolding add_node
  update_key tree key value a = elim (map_node_search tree key) [
    | none ↦ if ltb 0 (length value) then add_node tree key value a else (true, tree, a)
    | some found ↦
        let (ret, removed) = map_node_remove rb tree found.0 in
        if ltb 0 (length value) then add_node removed key value a else (true, removed, a)
  ]

  unfoldable pub update_keys : OsMap → List (CString × MapValue) → Alloc → OsMap × Alloc
  update_keys tree [] a = (tree, a)
  update_keys tree ((key, value) ∷ entries) a =
      let (go_on, tree', a') = update_key tree key value a in
      let rest = update_keys tree' entries a' in if go_on then rest else (tree', a')

  -- `cceph_os_map_update`. It returns CCEPH_OK also after an error inside the loop.
  unfoldable pub map_update : OsMap → OsMap → Alloc → Errno × OsMap × Alloc
  map_update result_tree input_tree a =
      let (tree, a') = update_keys result_tree (rb.entries input_tree) a in (ok, tree, a')
