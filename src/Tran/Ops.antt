-- ===== src/Tran/Ops.antt =====
-- A transaction as the list of the operations that were added to it.
use mathlib.Core.List.{map-append}
use ceph_in_c.Base.{
  ℕ, zero, suc, ◌+◌, ◌-◌, ◌≤◌, ◌<◌, ◌≡◌, refl, ◌∙◌, ap, Option, none, some, List, [], ◌∷◌, ◌++◌,
  map, arith, ltb, length, take, set, replicate, length-set, length-append, length-replicate, inl,
  inr, Bool-cases,
}
use native.Mathlib.Numerals.{add-one}
use ceph_in_c.Base.Errno.{Errno, ok, Exit, returns}
use ceph_in_c.Base.Int.{ℤ, pos}
use ceph_in_c.Base.Order.{CString}
use ceph_in_c.OsTypes.{CollId, OsMap}
use ceph_in_c.Base.Alloc.{Alloc, Plenty, malloc-Plenty}
use ceph_in_c.Tran.{
  TranOp, coll_create, coll_remove, coll_map, obj_touch, obj_write, obj_map, obj_remove,
  tran_coll_create, tran_coll_remove, tran_coll_map, tran_obj_touch, tran_obj_write, tran_obj_map,
  tran_obj_remove, Tran, op_list_size, tran_new, copy_ops, check_op_buffer_size, new_op, put_op,
}

module _ {ℓ} {A : Type ℓ} where
  -- The values of the slots that were written.
  abbrev pub collect : List (Option A) → List A
  collect [] = []
  collect (none ∷ xs) = collect xs
  collect (some x ∷ xs) = x ∷ collect xs

  collect-append : (xs ys : List (Option A)) → collect (xs ++ ys) ≡ collect xs ++ collect ys
  collect-append [] ys = refl
  collect-append (none ∷ xs) ys = collect-append xs ys
  collect-append (some x ∷ xs) ys = ap (λ zs. x ∷ zs) (collect-append xs ys)

  take-append_le : (n : ℕ) (xs ys : List A) → n ≤ length xs → take n (xs ++ ys) ≡ take n xs
  take-append_le zero xs ys h = refl
  take-append_le (suc n) [] ys h = absurd (omega arith)
  take-append_le (suc n) (x ∷ xs) ys h = ap (λ zs. x ∷ zs) (take-append_le n xs ys (omega arith))

  take_all : (n : ℕ) (xs : List A) → length xs ≤ n → take n xs ≡ xs
  take_all zero [] h = refl
  take_all zero (x ∷ xs) h = absurd (omega arith)
  take_all (suc n) [] h = refl
  take_all (suc n) (x ∷ xs) h = ap (λ zs. x ∷ zs) (take_all n xs (omega arith))

  take-set :
      (n : ℕ) (xs : List A) (v : A)
      → n < length xs
      → take (suc n) (set xs n v) ≡ take n xs ++ (v ∷ [])
  take-set zero [] v h = absurd (omega arith)
  take-set zero (x ∷ xs) v h = refl
  take-set (suc n) [] v h = absurd (omega arith)
  take-set (suc n) (x ∷ xs) v h = ap (λ zs. x ∷ zs) (take-set n xs v (omega arith))

-- The operations that were added, in order.
unfoldable pub ops : Tran → List TranOp
ops t = collect (take t.op_buffer_index t.op_buffer)

-- The buffer is as long as the transaction says, and its slots below the index are written.
pub record IsValid (t : Tran) : Type 0 where
  pub sized : length t.op_buffer ≡ t.op_buffer_length
  pub fits : t.op_buffer_index ≤ t.op_buffer_length
  pub written : take t.op_buffer_index t.op_buffer ≡ map some (ops t)

-- The buffer has room for one more operation and holds the same operations.
pub record HasRoom (t t' : Tran) : Type 0 where
  pub valid : IsValid t'
  pub room : t'.op_buffer_index < t'.op_buffer_length
  pub same : ops t' ≡ ops t

grown : Tran → Tran
grown t = record t {
  op_buffer = copy_ops t.op_buffer t.op_buffer_length (t.op_buffer_length + op_list_size);
  op_buffer_length = t.op_buffer_length + op_list_size;
}

grown-HasRoom : (t : Tran) → IsValid t → HasRoom t (grown t)
unfolding grown ops
grown-HasRoom t v =
    let whole = take_all t.op_buffer_length t.op_buffer (omega (arith, v.sized)) in
    let blank : Option TranOp = none in
    let pad = replicate (t.op_buffer_length + op_list_size - length t.op_buffer) none in
    let kept = take-append_le t.op_buffer_index t.op_buffer pad (omega (arith, v.sized, v.fits)) in
    rw whole (record {
      valid = record {
        sized = omega (
          arith,
          v.sized,
          length-append t.op_buffer pad,
          length-replicate (t.op_buffer_length + op_list_size - length t.op_buffer) blank,
        );
        fits = omega (arith, v.fits);
        written = rw kept v.written;
      };
      room = omega (arith, v.fits);
      same = ap collect kept;
    })

-- Where no allocation fails, the check leaves room for an operation.
check_op_buffer_size-HasRoom :
    (t : Tran) (a : Alloc)
    → IsValid t
    → Plenty a
    → (t' : Tran) × (a' : Alloc) × (check_op_buffer_size t a ≡ returns (ok, t', a'))
      × HasRoom t t'
      × Plenty a'
unfolding check_op_buffer_size grown
check_op_buffer_size-HasRoom t a v p =
    let (a', e, p') = malloc-Plenty a p in
    elim (Bool-cases (ltb t.op_buffer_index t.op_buffer_length)) [
      | inl lt ↦
          (t, a, ground (arith, v.fits), record { valid = v; room = ground arith; same = refl }, p)
      | inr ge ↦ (grown t, a', ground (arith, e, v.fits), grown-HasRoom t v, p')
    ]

-- The transaction after one more operation.
pub record Appended (t : Tran) (op : TranOp) (out : Exit (Errno × Tran × Alloc)) : Type 0 where
  pub tran : Tran
  pub rest : Alloc
  pub returned : out ≡ returns (ok, tran, rest)
  pub valid : IsValid tran
  pub recorded : ops tran ≡ ops t ++ (op ∷ [])
  pub plenty : Plenty rest

with_op : Tran → TranOp → Tran
with_op t op = record t {
  op_buffer = set t.op_buffer t.op_buffer_index (some op);
  op_buffer_index = t.op_buffer_index + 1;
}

ops-with_op :
    (t : Tran) (op : TranOp)
    → IsValid t
    → t.op_buffer_index < t.op_buffer_length
    → ops (with_op t op) ≡ ops t ++ (op ∷ [])
unfolding with_op ops
ops-with_op t op v h =
    let i = t.op_buffer_index in
    let one_more = take-set i t.op_buffer (some op) (omega (arith, v.sized)) in
    rw (add-one, one_more) (collect-append (take i t.op_buffer) (some op ∷ []))

with_op-IsValid :
    (t : Tran) (op : TranOp)
    → IsValid t
    → t.op_buffer_index < t.op_buffer_length
    → IsValid (with_op t op)
unfolding with_op
with_op-IsValid t op v h =
    let i = t.op_buffer_index in
    let one_more = take-set i t.op_buffer (some op) (omega (arith, v.sized)) in
    record {
      sized = length-set t.op_buffer i (some op) ∙ v.sized;
      fits = omega arith;
      written =
          rw (ops-with_op t op v h, map-append, add-one)
            (one_more ∙ ap (λ xs. xs ++ (some op ∷ [])) v.written);
    }

-- A valid transaction gets the operation at its end, where no allocation fails.
pub put_op-Appended :
    (op : TranOp) (t : Tran) (a : Alloc) → IsValid t → Plenty a → Appended t op (put_op op t a)
unfolding put_op new_op with_op
put_op-Appended op t a v p =
    let (t', a', e, room, p') = check_op_buffer_size-HasRoom t a v p in
    record {
      tran = with_op t' op;
      rest = a';
      returned = ground (arith, e);
      valid = with_op-IsValid t' op room.valid room.room;
      recorded = ops-with_op t' op room.valid room.room ∙ ap (λ xs. xs ++ (op ∷ [])) room.same;
      plenty = p';
    }

-- Each function that adds an operation puts it at the end of the transaction, where its assertions
-- hold, the transaction is valid and no allocation fails; the transaction stays valid.
pub builders-Appended :
    (t : Tran) (a : Alloc) (cid offset size : ℕ) (c : CollId) (oid : CString) (map : OsMap)
    (bytes : List ℕ) (stale : ℤ)
    → IsValid t
    → Plenty a
    → Appended t (coll_create (pos cid)) (tran_coll_create t (pos cid) a)
      × Appended t (coll_remove (pos cid)) (tran_coll_remove t (pos cid) a)
      × Appended t (coll_map c map) (tran_coll_map t c map a)
      × Appended t (obj_touch c oid stale) (tran_obj_touch t c oid stale a)
      × Appended t
          (obj_write c oid (pos offset) (pos size) bytes)
          (tran_obj_write t c oid (pos offset) (pos size) bytes a)
      × Appended t (obj_map c oid map) (tran_obj_map t c oid map a)
      × Appended t (obj_remove c oid) (tran_obj_remove t c oid a)
unfolding tran_coll_create tran_coll_remove tran_coll_map tran_obj_touch tran_obj_write tran_obj_map
    tran_obj_remove
builders-Appended t a cid offset size c oid map bytes stale v p = (
  put_op-Appended _ t a v p,
  put_op-Appended _ t a v p,
  put_op-Appended _ t a v p,
  put_op-Appended _ t a v p,
  put_op-Appended _ t a v p,
  put_op-Appended _ t a v p,
  put_op-Appended _ t a v p,
)

-- A new transaction is valid and has no operation, where no allocation fails.
pub tran_new-IsValid :
    (a : Alloc)
    → Plenty a
    → (t : Tran) × (a' : Alloc) × (tran_new a ≡ (ok, some t, a'))
      × IsValid t
      × (ops t ≡ [])
      × Plenty a'
unfolding tran_new ops
tran_new-IsValid a p =
    let (a₁, e₁, p₁) = malloc-Plenty a p in
    let (a₂, e₂, p₂) = malloc-Plenty a₁ p₁ in
    (
      record {
        op_buffer = replicate op_list_size none;
        op_buffer_length = op_list_size;
        op_buffer_index = 0;
      },
      a₂,
      ground (arith, e₁, e₂),
      record { sized = refl; fits = omega arith; written = refl },
      refl,
      p₂,
    )
