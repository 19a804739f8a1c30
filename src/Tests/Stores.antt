-- ===== src/Tests/Stores.antt =====
-- The object stores of os/mem_store.c and os/object_store.c at concrete inputs.
use ceph_in_c.Base.{
  ℕ, ◌+◌, ◌≤◌, ◌<◌, ◌≡◌, ◌≢◌, ◌^◌, refl, ap, true, false, Bool, Option, some, none, List, [], ◌∷◌,
  arith, length, get_elem?, take, drop,
}
use ceph_in_c.Base.Int.{pos}
use ceph_in_c.Base.Order.{CString, string_ord}
use ceph_in_c.Base.Errno.{ok, err_coll_already_exist, returns}
use ceph_in_c.Base.Alloc.{Alloc}
use ceph_in_c.Map.Laws.{get}
use ceph_in_c.Map.Plain.{plain}
use ceph_in_c.OsTypes.{CollId, coll_id_ord}
use ceph_in_c.Tran.{coll_create, coll_remove, obj_touch, obj_write, obj_remove}
use ceph_in_c.Tran.Ops.{ops}
use ceph_in_c.MemStore.{MemStore, write_content, do_op, submit_tran}
use ceph_in_c.MemStore.Spec.{spliced, apply, apply_all}
use ceph_in_c.MemStore.View
use ceph_in_c.MemStore.View.{view, view_coll, view_object}
use ceph_in_c.MemStore.Splice.{byte_after, get_elem?-write_content, read_content-write_content}
use ceph_in_c.MemStore.Colls.{Done}
use ceph_in_c.MemStore.Refine.{OpValid, do_op_refines, do_op_error_changes_nothing}
use ceph_in_c.MemStore.Submit.{AllValid, submit_tran-Done}
use ceph_in_c.MemStore.Safe.{Safe}
use ceph_in_c.MemStore.Invariant.{submit_tran-Safe}
use ceph_in_c.MemStore.Read.{read_content}
use ceph_in_c.MemStore.Read.Answers.{object_answer}
use ceph_in_c.ObjectStore.{
  create_coll, remove_coll, touch_obj, write_obj, remove_obj, set_coll_map_key, set_obj_map_key,
}
use ceph_in_c.ObjectStore.Contract.{Served}
use ceph_in_c.ObjectStore.Single.{single-Served}
use ceph_in_c.ObjectStore.Keys.{coll_key_spec, obj_key_spec, set_map_key-Served}
use ceph_in_c.ObjectStore.Memory.{get_funcs, mem_store-Implements}
use ceph_in_c.Tests.Data.{key_a, key_b, store, store-IsValid, coll_node}
use ceph_in_c.Tests.Transactions.{sample, sample-IsValid}

write_valid : OpValid plain (obj_write (pos 5) key_b (pos 1) (pos 2) (9 ∷ 4 ∷ []))
write_valid = record { signs = refl; prepared = omega arith }

create_valid : OpValid plain (coll_create (pos 5))
create_valid = record { signs = refl; prepared = tt }

sample-AllValid : AllValid plain (ops sample)
unfolding ops
sample-AllValid = (record { signs = refl; prepared = tt }, (write_valid, tt))

submit_tran-Done_example :
    Done plain (apply_all (view store) (ops sample)) (submit_tran plain store sample [])
submit_tran-Done_example =
    submit_tran-Done plain sample [] store-IsValid sample-IsValid sample-AllValid tt

do_op_refines_example :
    Done plain
      (apply (view store) (obj_write (pos 5) key_b (pos 1) (pos 2) (9 ∷ 4 ∷ [])))
      (do_op plain store (obj_write (pos 5) key_b (pos 1) (pos 2) (9 ∷ 4 ∷ [])) [])
do_op_refines_example =
    do_op_refines plain (obj_write (pos 5) key_b (pos 1) (pos 2) (9 ∷ 4 ∷ [])) [] store-IsValid
      write_valid tt

create_again :
    do_op plain store (coll_create (pos 5)) [] ≡ returns (err_coll_already_exist, store, [])
unfolding do_op ceph_in_c.MemStore.do_op_coll_create ceph_in_c.Map.map_search
    ceph_in_c.OsTypes.coll_id_cmp
create_again = refl

do_op_error_changes_nothing_example : view store ≡ view store
do_op_error_changes_nothing_example =
    do_op_error_changes_nothing plain (coll_create (pos 5)) [] [] store-IsValid create_valid tt
      create_again (λ e. cc)

submit_tran-Safe_example : Safe plain (submit_tran plain store sample (true ∷ false ∷ []))
submit_tran-Safe_example = submit_tran-Safe plain sample (true ∷ false ∷ []) store-IsValid

-- A write behind the end leaves zeros between.
splice_gap : spliced (1 ∷ 2 ∷ 3 ∷ []) 5 (9 ∷ 4 ∷ []) ≡ 1 ∷ 2 ∷ 3 ∷ 0 ∷ 0 ∷ 9 ∷ 4 ∷ []
unfolding spliced
splice_gap = refl

-- What the read of the bytes comes to.
read_bytes : object_answer (view store) (pos 5) key_a 1 (pos 9) ≡ (ok, 2 ∷ 3 ∷ [])
unfolding view get ceph_in_c.Map.Assoc.lookup ceph_in_c.Base.Order.strcmp
    ceph_in_c.OsTypes.coll_id_cmp
read_bytes = refl

coll_there : view store (pos 5) ≡ some (view_coll coll_node)
unfolding view get ceph_in_c.Map.Assoc.lookup ceph_in_c.OsTypes.coll_id_cmp
coll_there = refl

single-Served_example :
    Served
      (View.IsValid plain)
      view
      (apply (view store) (coll_create (pos 4)))
      (create_coll (get_funcs plain) store (pos 4) [])
    × Served
        (View.IsValid plain)
        view
        (apply (view store) (coll_remove (pos 4)))
        (remove_coll (get_funcs plain) store (pos 4) [])
    × Served
        (View.IsValid plain)
        view
        (apply (view store) (obj_touch (pos 4) key_a (pos 0)))
        (touch_obj (get_funcs plain) store (pos 4) key_a (pos 0) [])
    × Served
        (View.IsValid plain)
        view
        (apply (view store) (obj_write (pos 4) key_a (pos 1) (pos 2) (9 ∷ 4 ∷ [])))
        (write_obj (get_funcs plain) store (pos 4) key_a (pos 1) (pos 2) (9 ∷ 4 ∷ []) [])
    × Served
        (View.IsValid plain)
        view
        (apply (view store) (obj_remove (pos 4) key_a))
        (remove_obj (get_funcs plain) store (pos 4) key_a [])
single-Served_example =
    single-Served plain (get_funcs plain) (mem_store-Implements plain) {os = store} 4 1 2 key_a
      (9 ∷ 4 ∷ []) 0 [] store-IsValid (omega arith) tt

set_map_key-Served_example :
    Served
      (View.IsValid plain)
      view
      (coll_key_spec (view store) (pos 5) key_a (6 ∷ []))
      (set_coll_map_key plain (get_funcs plain) store (pos 5) key_a (6 ∷ []) (pos 1) [])
    × Served
        (View.IsValid plain)
        view
        (obj_key_spec (view store) (pos 5) key_a key_a (6 ∷ []))
        (set_obj_map_key plain (get_funcs plain) store (pos 5) key_a key_a (6 ∷ []) (pos 1) [])
set_map_key-Served_example =
    set_map_key-Served plain (get_funcs plain) (mem_store-Implements plain) {os = store} 5 key_a
      key_a (6 ∷ []) [] store-IsValid tt

get_elem?-write_content_example :
    (after : List ℕ) × (a' : Alloc) × (write_content
        (1 ∷ 2 ∷ 3 ∷ [])
        5
        (length {A = ℕ} (9 ∷ 4 ∷ []))
        (9 ∷ 4 ∷ [])
        []
      ≡ (some after, a'))
    × (get_elem? after 3 ≡ byte_after (1 ∷ 2 ∷ 3 ∷ []) 5 (9 ∷ 4 ∷ []) 3)
    × (length after ≡ 7)
get_elem?-write_content_example = get_elem?-write_content (1 ∷ 2 ∷ 3 ∷ []) 5 (9 ∷ 4 ∷ []) [] 3 tt

read_content-write_content_example :
    (after : List ℕ) × (a₁ : Alloc) × (a₂ : Alloc) × (write_content
        (1 ∷ 2 ∷ 3 ∷ [])
        5
        (length {A = ℕ} (9 ∷ 4 ∷ []))
        (9 ∷ 4 ∷ [])
        []
      ≡ (some after, a₁))
    × (read_content after 5 (pos (length {A = ℕ} (9 ∷ 4 ∷ []))) a₁ ≡ (ok, 9 ∷ 4 ∷ [], a₂))
read_content-write_content_example =
    read_content-write_content (1 ∷ 2 ∷ 3 ∷ []) 5 9 (4 ∷ []) [] (omega arith) (omega arith) tt
