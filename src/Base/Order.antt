-- ===== src/Base/Order.antt =====
-- The comparison that a map is built over: the sign of what the C comparison returns, with the
-- laws of a total order.
use Prim.Native.Nat.{ℕ, compare, Ordering}
use Prim.Native.Nat.Ordering.{lt, eq, gt}
use mathlib.Core.Path.{◌≡◌, refl}
use mathlib.Core.List.{List, [], ◌∷◌}
use native.Mathlib.Omega.{arith}

pub record Ord (K : Type 0) : Type 0 where
  pub cmp : K → K → Ordering
  pub lt_trans : (x y z : K) → cmp x y ≡ lt → cmp y z ≡ lt → cmp x z ≡ lt
  pub lt_of_gt : (x y : K) → cmp x y ≡ gt → cmp y x ≡ lt
  pub gt_of_lt : (x y : K) → cmp x y ≡ lt → cmp y x ≡ gt
  pub eq_of_cmp : (x y : K) → cmp x y ≡ eq → x ≡ y
  pub cmp_refl : (x : K) → cmp x x ≡ eq

infix 50 ◌≺◌
abbrev pub ◌≺◌ : {K : Type 0} ⦃o : Ord K⦄ → K → K → Type 0
◌≺◌ ⦃o⦄ a b = o.cmp a b ≡ lt

-- A NUL-terminated string, as the bytes before its NUL.
abbrev pub CString : Type 0
CString = List ℕ

abbrev then : Ordering → Ordering → Ordering
then eq second = second
then first _ = first

-- The sign of `strcmp`: a proper prefix is smaller, since its NUL meets a byte that is not 0.
unfoldable pub strcmp : CString → CString → Ordering
strcmp [] [] = eq
strcmp [] (b ∷ bs) = lt
strcmp (a ∷ as') [] = gt
strcmp (a ∷ as') (b ∷ bs) = then (compare a b) (strcmp as' bs)

pub strcmp_refl : (a : CString) → strcmp a a ≡ eq
unfolding strcmp
strcmp_refl [] = refl
strcmp_refl (x ∷ xs) = ground (arith, strcmp_refl xs)

cons_eq : {x y : ℕ} {xs ys : CString} → x ≡ y → xs ≡ ys → x ∷ xs ≡ y ∷ ys
cons_eq p q = cc

pub eq_of_strcmp : (a b : CString) → strcmp a b ≡ eq → a ≡ b
unfolding strcmp
eq_of_strcmp [] [] h = refl
eq_of_strcmp [] (b ∷ bs) h = cc
eq_of_strcmp (a ∷ as') [] h = cc
eq_of_strcmp (a ∷ as') (b ∷ bs) h = ground (arith, eq_of_strcmp as' bs)

pub strcmp-lt_of_gt : (a b : CString) → strcmp a b ≡ gt → strcmp b a ≡ lt
unfolding strcmp
strcmp-lt_of_gt [] [] h = cc
strcmp-lt_of_gt [] (b ∷ bs) h = cc
strcmp-lt_of_gt (a ∷ as') [] h = refl
strcmp-lt_of_gt (a ∷ as') (b ∷ bs) h = ground (arith, strcmp-lt_of_gt as' bs)

pub strcmp-gt_of_lt : (a b : CString) → strcmp a b ≡ lt → strcmp b a ≡ gt
unfolding strcmp
strcmp-gt_of_lt [] [] h = cc
strcmp-gt_of_lt [] (b ∷ bs) h = refl
strcmp-gt_of_lt (a ∷ as') [] h = cc
strcmp-gt_of_lt (a ∷ as') (b ∷ bs) h = ground (arith, strcmp-gt_of_lt as' bs)

pub strcmp-lt_trans : (a b c : CString) → strcmp a b ≡ lt → strcmp b c ≡ lt → strcmp a c ≡ lt
unfolding strcmp
strcmp-lt_trans [] b [] h k = ground arith
strcmp-lt_trans [] b (c ∷ cs) h k = refl
strcmp-lt_trans (a ∷ as') [] c h k = cc
strcmp-lt_trans (a ∷ as') (b ∷ bs) [] h k = cc
strcmp-lt_trans (a ∷ as') (b ∷ bs) (c ∷ cs) h k = ground (arith, strcmp-lt_trans as' bs cs)

instance abbrev pub string_ord : Ord CString
string_ord = record {
  cmp = strcmp;
  cmp_refl = strcmp_refl;
  eq_of_cmp = eq_of_strcmp;
  lt_of_gt = strcmp-lt_of_gt;
  gt_of_lt = strcmp-gt_of_lt;
  lt_trans = strcmp-lt_trans;
}
