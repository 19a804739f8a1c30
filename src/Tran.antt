-- ===== src/Tran.antt =====
-- os/transaction.c: the growing buffer of operations of a transaction. Freeing leaves no trace in
-- the model; a log id is only printed.
pub mod Ops
pub mod Get
pub mod Failure
use ceph_in_c.Base.{
  ℕ, ◌+◌, ◌-◌, Bool, true, false, Option, none, some, List, ◌++◌, ltb, leb, length, take, set,
  get_elem?, replicate, if◌then◌else◌,
}
use ceph_in_c.Base.Int.{ℤ, pos, negsuc}
use ceph_in_c.Base.Order.{CString}
use ceph_in_c.Base.Errno.{Errno, ok, err_no_enough_mem, Exit, returns, abort, ◌>>=◌}
use ceph_in_c.Base.Alloc.{Alloc, malloc}
use ceph_in_c.OsTypes.{CollId, OsMap}

-- `cceph_os_tran_op`, with the fields that its code gives a meaning to. An obj_write has its cid,
-- oid, offset, length and data.
pub data TranOp : Type 0 where
  noop : TranOp
  coll_create : CollId → TranOp
  coll_remove : CollId → TranOp
  coll_map : CollId → OsMap → TranOp
  -- the integer is what stands in `offset`, which `cceph_os_tran_obj_touch` does not write
  obj_touch : CollId → CString → ℤ → TranOp
  obj_write : CollId → CString → ℤ → ℤ → List ℕ → TranOp
  obj_map : CollId → CString → OsMap → TranOp
  obj_remove : CollId → CString → TranOp
  -- any other code
  unknown_op : ℤ → TranOp

-- `op_buffer` is as long as what was allocated; a slot that was never written is `none`.
pub record Tran : Type 0 where
  pub op_buffer : List (Option TranOp)
  pub op_buffer_length : ℕ
  pub op_buffer_index : ℕ

abbrev pub op_list_size : ℕ
op_list_size = 8

-- The transaction is missing where the pointer stays NULL.
unfoldable pub tran_new : Alloc → Errno × Option Tran × Alloc
tran_new a =
    let (tran_there, a₁) = malloc a in
    let (buffer_there, a₂) = malloc a₁ in
    if tran_there
    then (if buffer_there
        then (
          ok,
          some (record {
            op_buffer = replicate op_list_size none;
            op_buffer_length = op_list_size;
            op_buffer_index = 0;
          }),
          a₂,
        )
        else (err_no_enough_mem, none, a₂))
    else (err_no_enough_mem, none, a₁)

unfoldable pub get_op_count : Tran → ℕ
get_op_count t = t.op_buffer_index

abbrev pub slot : Option (Option TranOp) → Option TranOp
slot none = none
slot (some s) = s

-- The operation behind the pointer, or `none` for NULL, and where no operation was written.
unfoldable pub get_op : Tran → ℕ → Option TranOp
get_op t index = if leb t.op_buffer_index index then none else slot (get_elem? t.op_buffer index)

-- The new buffer of `new_length` slots, after the copy of `old_length` slots of the old one.
abbrev pub copy_ops : List (Option TranOp) → ℕ → ℕ → List (Option TranOp)
copy_ops old old_length new_length =
    take old_length old ++ replicate (new_length - length (take old_length old)) none

-- On CCEPH_ERR_NO_ENOUGH_MEM the old buffer is put back, and `op_buffer_length` is not.
unfoldable pub check_op_buffer_size : Tran → Alloc → Exit (Errno × Tran × Alloc)
check_op_buffer_size t a =
    let old_length = t.op_buffer_length in
    let (there, a') = malloc a in
    if leb t.op_buffer_index t.op_buffer_length
    then (if ltb t.op_buffer_index t.op_buffer_length
        then returns (ok, t, a)
        else if there
        then returns (
          ok,
          record t {
            op_buffer = copy_ops t.op_buffer old_length (old_length + op_list_size);
            op_buffer_length = old_length + op_list_size;
          },
          a',
        )
        else returns
            (err_no_enough_mem, record t { op_buffer_length = old_length + op_list_size }, a'))
    else abort

-- The index of the new slot, where there is one.
unfoldable pub new_op : Tran → Alloc → Exit (Errno × Option ℕ × Tran × Alloc)
new_op t a = check_op_buffer_size t a >>= λ r. elim r.0 [
  | ok ↦
      returns (
        ok,
        some r.1.op_buffer_index,
        record r.1 { op_buffer_index = r.1.op_buffer_index + 1 },
        r.2,
      )
  | err ↦ returns (err, none, r.1, r.2)
]

-- What the seven functions below share: a new slot, and the writes to its fields.
unfoldable pub put_op : TranOp → Tran → Alloc → Exit (Errno × Tran × Alloc)
put_op op t a = new_op t a >>= λ r. elim r.1 [
  | none ↦ returns (r.0, r.2, r.3)
  | some i ↦ returns (ok, record r.2 { op_buffer = set r.2.op_buffer i (some op) }, r.3)
]

abbrev pub is_nonneg : ℤ → Bool
is_nonneg (pos n) = true
is_nonneg (negsuc n) = false

unfoldable pub tran_coll_create : Tran → CollId → Alloc → Exit (Errno × Tran × Alloc)
tran_coll_create t cid a = if is_nonneg cid then put_op (coll_create cid) t a else abort

unfoldable pub tran_coll_remove : Tran → CollId → Alloc → Exit (Errno × Tran × Alloc)
tran_coll_remove t cid a = if is_nonneg cid then put_op (coll_remove cid) t a else abort

unfoldable pub tran_coll_map : Tran → CollId → OsMap → Alloc → Exit (Errno × Tran × Alloc)
tran_coll_map t cid map a = put_op (coll_map cid map) t a

-- `stale` is what the memory of the new slot holds at its field `offset`.
unfoldable pub tran_obj_touch : Tran → CollId → CString → ℤ → Alloc → Exit (Errno × Tran × Alloc)
tran_obj_touch t cid oid stale a = put_op (obj_touch cid oid stale) t a

unfoldable pub tran_obj_write :
    Tran → CollId → CString → ℤ → ℤ → List ℕ → Alloc → Exit (Errno × Tran × Alloc)
tran_obj_write t cid oid offset length data' a =
    if is_nonneg offset
    then (if is_nonneg length then put_op (obj_write cid oid offset length data') t a else abort)
    else abort

unfoldable pub tran_obj_map : Tran → CollId → CString → OsMap → Alloc → Exit (Errno × Tran × Alloc)
tran_obj_map t cid oid map a = put_op (obj_map cid oid map) t a

unfoldable pub tran_obj_remove : Tran → CollId → CString → Alloc → Exit (Errno × Tran × Alloc)
tran_obj_remove t cid oid a = put_op (obj_remove cid oid) t a
