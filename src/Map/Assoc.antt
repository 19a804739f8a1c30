-- ===== src/Map/Assoc.antt =====
-- Ordered lists of entries: what a search tree stands for.
use Prim.Native.Nat.Ordering.{eq}
use ceph_in_c.Base.{◌≡◌, refl, Option, none, some, List, [], ◌∷◌, ◌++◌, arith}
use ceph_in_c.Base.Order.{Ord, ◌≺◌}

module _ {K V : Type 0} where
  -- Every key of the list satisfies `P`.
  abbrev pub All : (K → Type 0) → List (K × V) → Type 0
  All P [] = Unit
  All P ((k, v) ∷ m) = P k × All P m

  pub All-append : (P : K → Type 0) (m n : List (K × V)) → All P m → All P n → All P (m ++ n)
  All-append P [] n a b = b
  All-append P ((k, v) ∷ m) n a b = (a.0, All-append P m n a.1 b)

  pub All-split : (P : K → Type 0) (m n : List (K × V)) → All P (m ++ n) → All P m × All P n
  All-split P [] n a = (tt, a)
  All-split P ((k, v) ∷ m) n a = let (x, y) = All-split P m n a.1 in ((a.0, x), y)

  pub All-imp : {P Q : K → Type 0} → ((k : K) → P k → Q k) → (m : List (K × V)) → All P m → All Q m
  All-imp f [] a = tt
  All-imp f ((k, v) ∷ m) a = (f k a.0, All-imp f m a.1)

module _ {K V : Type 0} ⦃o : Ord K⦄ where
  -- The value of the first entry with the key.
  unfoldable pub lookup : K → List (K × V) → Option V
  lookup q [] = none
  lookup q ((k, v) ∷ m) = elim (o.cmp q k) [ eq ↦ some v | _ ↦ lookup q m ]

  -- The keys rise strictly.
  abbrev pub IsSorted : List (K × V) → Type 0
  IsSorted [] = Unit
  IsSorted ((k, v) ∷ m) = All (λ x. k ≺ x) m × IsSorted m

  pub IsSorted-split :
      (m : List (K × V)) (k : K) (v : V) (n : List (K × V))
      → IsSorted (m ++ ((k, v) ∷ n))
      → IsSorted m × All (λ x. x ≺ k) m × All (λ x. k ≺ x) n × IsSorted n
  IsSorted-split [] k v n s = (tt, tt, s.0, s.1)
  IsSorted-split ((j, w) ∷ m) k v n s =
      let (a, b, c, d) = IsSorted-split m k v n s.1 in
      let (below, above) = All-split (λ x. j ≺ x) m ((k, v) ∷ n) s.0 in
      ((below, a), (above.0, b), c, d)

  pub IsSorted-join :
      (m : List (K × V)) (k : K) (v : V) (n : List (K × V))
      → IsSorted m
      → All (λ x. x ≺ k) m
      → All (λ x. k ≺ x) n
      → IsSorted n
      → IsSorted (m ++ ((k, v) ∷ n))
  IsSorted-join [] k v n a b c d = (c, d)
  IsSorted-join ((j, w) ∷ m) k v n a b c d = (
    All-append (λ x. j ≺ x) m ((k, v) ∷ n) a.0 (b.0, All-imp (λ x. o.lt_trans j k x b.0) n c),
    IsSorted-join m k v n a.1 b.1 c d,
  )

  pub IsSorted-parts : (m n : List (K × V)) → IsSorted (m ++ n) → IsSorted m × IsSorted n
  IsSorted-parts [] n s = (tt, s)
  IsSorted-parts ((j, w) ∷ m) n s =
      let (a, b) = IsSorted-parts m n s.1 in (((All-split (λ x. j ≺ x) m n s.0).0, a), b)

  pub IsSorted-without :
      (m : List (K × V)) (k : K) (v : V) (n : List (K × V))
      → IsSorted (m ++ ((k, v) ∷ n))
      → IsSorted (m ++ n)
  IsSorted-without [] k v n s = s.1
  IsSorted-without ((j, w) ∷ m) k v n s =
      let (below, above) = All-split (λ x. j ≺ x) m ((k, v) ∷ n) s.0 in
      (All-append (λ x. j ≺ x) m n below above.1, IsSorted-without m k v n s.1)

  pub lookup-above : (q : K) (m : List (K × V)) → All (λ x. q ≺ x) m → lookup q m ≡ none
  unfolding lookup
  lookup-above q [] a = refl
  lookup-above q ((k, v) ∷ m) a = ground (arith, lookup-above q m a.1)

  pub lookup-below : (q : K) (m : List (K × V)) → All (λ x. x ≺ q) m → lookup q m ≡ none
  unfolding lookup
  lookup-below q [] a = refl
  lookup-below q ((k, v) ∷ m) a = ground (arith, lookup-below q m a.1, o.gt_of_lt k q)

  -- A key below the middle entry is looked up on its left.
  pub lookup-lt :
      (q : K) (m : List (K × V)) (k : K) (v : V) (n : List (K × V))
      → q ≺ k
      → All (λ x. k ≺ x) n
      → lookup q (m ++ ((k, v) ∷ n)) ≡ lookup q m
  unfolding lookup
  lookup-lt q [] k v n h a =
      ground (arith, lookup-above q n (All-imp (λ x. o.lt_trans q k x h) n a))
  lookup-lt q ((j, w) ∷ m) k v n h a = ground (arith, lookup-lt q m k v n h a)

  -- A key that no entry of the left part has is looked up on the right.
  pub lookup-skip :
      (q : K) (m n : List (K × V)) → All (λ x. x ≺ q) m → lookup q (m ++ n) ≡ lookup q n
  unfolding lookup
  lookup-skip q [] n a = refl
  lookup-skip q ((k, v) ∷ m) n a = ground (arith, lookup-skip q m n a.1, o.gt_of_lt k q)

  -- Lookup after one entry is put between two parts, or its value is changed.
  pub lookup-middle :
      (q : K) (m : List (K × V)) (k : K) (v : V) (n : List (K × V))
      → All (λ x. x ≺ k) m
      → lookup q (m ++ ((k, v) ∷ n)) ≡ elim (o.cmp q k) [ eq ↦ some v | _ ↦ lookup q (m ++ n) ]
  unfolding lookup
  lookup-middle q [] k v n a = refl
  lookup-middle q ((j, w) ∷ m) k v n a =
      ground (arith, lookup-middle q m k v n a.1, o.eq_of_cmp q j, o.gt_of_lt j k, o.eq_of_cmp q k)

  pub lookup_self :
      (m : List (K × V)) (k : K) (v : V) (n : List (K × V))
      → All (λ x. x ≺ k) m
      → lookup k (m ++ ((k, v) ∷ n)) ≡ some v
  lookup_self m k v n a = ground (arith, lookup-middle k m k v n a, o.cmp_refl k)

  -- The key that is taken out of a sorted list is gone.
  pub lookup-without :
      (m : List (K × V)) (k : K) (v : V) (n : List (K × V))
      → IsSorted (m ++ ((k, v) ∷ n))
      → lookup k (m ++ n) ≡ none
  lookup-without m k v n s =
      let (a, b, c, d) = IsSorted-split m k v n s in
      ground (arith, lookup-skip k m n b, lookup-above k n c)
