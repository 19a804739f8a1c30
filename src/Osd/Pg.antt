-- ===== src/Osd/Pg.antt =====
-- osd/pg.c: a placement group, and the map of the groups by their numbers.
use Prim.Native.Nat.Ordering.{lt, eq, gt}
use Prim.Native.Nat.{Ordering}
use ceph_in_c.Base.{◌≡◌, refl, Option, none, some, arith, if◌then◌else◌}
use ceph_in_c.Base.Int.{ℤ, pos, negsuc}
use ceph_in_c.Base.Order.{Ord}
use ceph_in_c.Base.Errno.{Errno, ok, err_no_enough_mem}
use ceph_in_c.Base.Alloc.{Alloc, malloc, Plenty, malloc-Plenty}
use ceph_in_c.Map.{Tree, NodePath, RbTree, map_search, map_insert, map_remove}
use ceph_in_c.Map.Laws.{get, IsValid}
use ceph_in_c.Map.Refine.{insert_spec, map_insert-refines}
use ceph_in_c.OsTypes.{gt_int, lt_int}

-- CCEPH_PG_STATE_*
pub data PgState : Type 0 where
  pg_unknown pg_initial pg_starting pg_active pg_disuse pg_incomplete : PgState

-- `cceph_pg` without its lock and its node.
pub record Pg : Type 0 where
  pub pg_id : ℤ
  pub state : PgState

-- `cceph_pg_new`; the group is missing where the pointer stays NULL.
unfoldable pub pg_new : ℤ → Alloc → Errno × Option Pg × Alloc
pg_new pg_id a =
    let (there, a') = malloc a in
    if there
    then (ok, some (record { pg_id = pg_id; state = pg_unknown }), a')
    else (err_no_enough_mem, none, a')

-- The sign of what `intcmp` returns.
unfoldable pub intcmp : ℤ → ℤ → Ordering
intcmp a b = if gt_int a b then gt else if lt_int a b then lt else eq

pub intcmp_refl : (a : ℤ) → intcmp a a ≡ eq
unfolding intcmp
intcmp_refl (pos n) = ground arith
intcmp_refl (negsuc n) = ground arith

pub eq_of_intcmp : (a b : ℤ) → intcmp a b ≡ eq → a ≡ b
unfolding intcmp
eq_of_intcmp a b h = ground arith

pub intcmp-lt_of_gt : (a b : ℤ) → intcmp a b ≡ gt → intcmp b a ≡ lt
unfolding intcmp
intcmp-lt_of_gt a b h = ground arith

pub intcmp-gt_of_lt : (a b : ℤ) → intcmp a b ≡ lt → intcmp b a ≡ gt
unfolding intcmp
intcmp-gt_of_lt a b h = ground arith

pub intcmp-lt_trans : (a b c : ℤ) → intcmp a b ≡ lt → intcmp b c ≡ lt → intcmp a c ≡ lt
unfolding intcmp
intcmp-lt_trans a b c h k = ground arith

abbrev pub int_ord : Ord ℤ
int_ord = record {
  cmp = intcmp;
  cmp_refl = intcmp_refl;
  eq_of_cmp = eq_of_intcmp;
  lt_of_gt = intcmp-lt_of_gt;
  gt_of_lt = intcmp-gt_of_lt;
  lt_trans = intcmp-lt_trans;
}

-- The groups by their numbers; what stands at a number is the other fields.
abbrev pub PgMap : Type 0
PgMap = Tree ℤ PgState

-- CCEPH_IMPL_MAP(pg, cceph_pg_id_t, pg_id, intcmp)
abbrev pub pg_map_insert : RbTree → PgMap → Pg → Errno × PgMap
pg_map_insert rb root pg = map_insert ⦃o = int_ord⦄ rb root pg.pg_id pg.state

abbrev pub pg_map_remove : RbTree → PgMap → NodePath → Errno × PgMap
pg_map_remove rb root at = map_remove rb root at

abbrev pub pg_map_search : PgMap → ℤ → Option (NodePath × PgState)
pg_map_search root pg_id = map_search ⦃o = int_ord⦄ root pg_id

-- Where no allocation fails a group is made in the unknown state. Its insertion into the map of the
-- groups returns the code, and leaves the finite function, that the specification says: a number
-- that is taken is refused.
pub pg_map_insert-pg_new :
    (rb : RbTree) (t : PgMap) (pg_id : ℤ) (a : Alloc)
    → IsValid rb ⦃o = int_ord⦄ t
    → Plenty a
    → (pg : Pg) × (a' : Alloc) × (pg_new pg_id a ≡ (ok, some pg, a'))
      × IsValid rb ⦃o = int_ord⦄ (pg_map_insert rb t pg).1
      × (((pg_map_insert rb t pg).0, get ⦃o = int_ord⦄ (pg_map_insert rb t pg).1)
          ≡ insert_spec ⦃o = int_ord⦄ (get ⦃o = int_ord⦄ t) pg_id pg_unknown)
unfolding pg_new
pg_map_insert-pg_new rb t pg_id a v p =
    let (a', there, p') = malloc-Plenty a p in
    let (valid, told) = map_insert-refines rb ⦃o = int_ord⦄ {t = t} pg_id pg_unknown v in
    (record { pg_id = pg_id; state = pg_unknown }, a', rw (pg_new, there) refl, valid, told)
