-- ===== src/Tran/Failure.antt =====
-- What a failed growth of the buffer leaves behind.
use ceph_in_c.Base.{
  ℕ, zero, suc, ◌+◌, ◌≤◌, ◌≡◌, refl, ap, false, List, [], ◌∷◌, none, some, arith, length, set,
  get_elem?,
}
use ceph_in_c.Base.Errno.{ok, err_no_enough_mem, returns}
use ceph_in_c.Base.Alloc.{Alloc, malloc}
use ceph_in_c.Tran.{TranOp, Tran, op_list_size, get_op, check_op_buffer_size, new_op, put_op}
use ceph_in_c.Tran.Ops.{IsValid}

module _ {ℓ} {A : Type ℓ} where
  set-beyond : (xs : List A) (i : ℕ) (v : A) → length xs ≤ i → set xs i v ≡ xs
  set-beyond [] i v h = refl
  set-beyond (x ∷ xs) zero v h = absurd (omega arith)
  set-beyond (x ∷ xs) (suc i) v h = ap (λ ys. x ∷ ys) (set-beyond xs i v (omega arith))

  get_elem?-beyond : (xs : List A) (i : ℕ) → length xs ≤ i → get_elem? xs i ≡ none
  get_elem?-beyond [] i h = refl
  get_elem?-beyond (x ∷ xs) zero h = absurd (omega arith)
  get_elem?-beyond (x ∷ xs) (suc i) h = get_elem?-beyond xs i (omega arith)

-- The transaction after a growth that failed: its length counts slots that are not there.
abbrev pub overstated : Tran → Tran
overstated t = record t { op_buffer_length = t.op_buffer_length + op_list_size }

-- A full, valid transaction whose growth fails refuses the operation, but counts eight slots that
-- were not allocated: it then accepts another operation without any allocation, and writes it
-- behind the end of its buffer.
pub put_op-out_of_bounds :
    (t : Tran) (op op' : TranOp) (a a' b : Alloc)
    → IsValid t
    → t.op_buffer_index ≡ t.op_buffer_length
    → malloc a ≡ (false, a')
    → (put_op op t a ≡ returns (err_no_enough_mem, overstated t, a'))
      × (t' : Tran) × (put_op op' (overstated t) b ≡ returns (ok, t', b))
      × (t'.op_buffer ≡ t.op_buffer)
      × (t'.op_buffer_index ≡ length t'.op_buffer + 1)
      × (get_op t' t.op_buffer_index ≡ none)
unfolding put_op new_op check_op_buffer_size get_op
put_op-out_of_bounds t op op' a a' b v full e =
    let i = t.op_buffer_index in
    let outside = set-beyond t.op_buffer i (some op') (omega (arith, v.sized)) in
    (
      ground (arith, e),
      record t {
        op_buffer = set t.op_buffer i (some op');
        op_buffer_length = t.op_buffer_length + op_list_size;
        op_buffer_index = i + 1;
      },
      ground arith,
      outside,
      omega (arith, v.sized, ap length outside),
      ground (arith, ap (λ xs. get_elem? xs i) outside, get_elem?-beyond t.op_buffer i, v.sized),
    )
