-- ===== src/Tests/Transactions.antt =====
-- The transactions of os/transaction.c at concrete inputs.
use ceph_in_c.Base.{◌+◌, ◌≡◌, refl, false, some, none, [], ◌∷◌, length, arith}
use ceph_in_c.Base.Int.{pos}
use ceph_in_c.Base.Errno.{ok, err_no_enough_mem, returns}
use ceph_in_c.Base.Alloc.{malloc}
use ceph_in_c.Tran.{
  noop, coll_create, coll_remove, coll_map, obj_touch, obj_write, obj_map, obj_remove, Tran, get_op,
  put_op, tran_coll_create, tran_coll_remove, tran_coll_map, tran_obj_touch, tran_obj_write,
  tran_obj_map, tran_obj_remove,
}
use ceph_in_c.Tran.Ops.{ops, IsValid, Appended, builders-Appended}
use ceph_in_c.Tran.Failure.{overstated, put_op-out_of_bounds}
use ceph_in_c.Tests.Data.{key_b, small_map}

-- Two operations in a buffer of eight.
abbrev pub sample : Tran
sample = record {
  op_buffer =
      some (coll_create (pos 6))
      ∷ some (obj_write (pos 5) key_b (pos 1) (pos 2) (9 ∷ 4 ∷ []))
      ∷ none
      ∷ none
      ∷ none
      ∷ none
      ∷ none
      ∷ none
      ∷ [];
  op_buffer_length = 8;
  op_buffer_index = 2;
}

pub sample-IsValid : IsValid sample
unfolding ops
sample-IsValid = record { sized = refl; fits = omega arith; written = refl }

-- A buffer of eight that is full.
abbrev full : Tran
full = record {
  op_buffer =
      some noop
      ∷ some noop
      ∷ some noop
      ∷ some noop
      ∷ some noop
      ∷ some noop
      ∷ some noop
      ∷ some noop
      ∷ [];
  op_buffer_length = 8;
  op_buffer_index = 8;
}

full-IsValid : IsValid full
unfolding ops
full-IsValid = record { sized = refl; fits = omega arith; written = refl }

builders-Appended_example :
    Appended sample (coll_create (pos 7)) (tran_coll_create sample (pos 7) [])
    × Appended sample (coll_remove (pos 7)) (tran_coll_remove sample (pos 7) [])
    × Appended sample (coll_map (pos 5) small_map) (tran_coll_map sample (pos 5) small_map [])
    × Appended sample
        (obj_touch (pos 5) key_b (pos 0))
        (tran_obj_touch sample (pos 5) key_b (pos 0) [])
    × Appended sample
        (obj_write (pos 5) key_b (pos 1) (pos 2) (3 ∷ 4 ∷ []))
        (tran_obj_write sample (pos 5) key_b (pos 1) (pos 2) (3 ∷ 4 ∷ []) [])
    × Appended sample
        (obj_map (pos 5) key_b small_map)
        (tran_obj_map sample (pos 5) key_b small_map [])
    × Appended sample (obj_remove (pos 5) key_b) (tran_obj_remove sample (pos 5) key_b [])
builders-Appended_example =
    builders-Appended sample [] 7 1 2 (pos 5) key_b small_map (3 ∷ 4 ∷ []) (pos 0) sample-IsValid tt

one_fails : malloc (false ∷ []) ≡ (false, [])
unfolding malloc
one_fails = refl

put_op-out_of_bounds_example :
    (put_op (coll_create (pos 1)) full (false ∷ [])
      ≡ returns (err_no_enough_mem, overstated full, []))
    × (t' : Tran) × (put_op (coll_create (pos 2)) (overstated full) [] ≡ returns (ok, t', []))
    × (t'.op_buffer ≡ full.op_buffer)
    × (t'.op_buffer_index ≡ length t'.op_buffer + 1)
    × (get_op t' full.op_buffer_index ≡ none)
put_op-out_of_bounds_example =
    put_op-out_of_bounds full (coll_create (pos 1)) (coll_create (pos 2)) (false ∷ []) [] []
      full-IsValid refl one_fails
