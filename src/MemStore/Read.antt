-- ===== src/MemStore/Read.antt =====
-- os/mem_store.c: the calls that read the store. What comes out through a pointer is a result; a
-- result that the code leaves alone is empty.
pub mod Bytes
pub mod Answers
use ceph_in_c.Base.{
  ℕ, ◌+◌, ◌-◌, Bool, true, false, ◌||◌, Option, none, some, List, [], ◌∷◌, map, ltb, leb, ◌==◌,
  length, take, drop, if◌then◌else◌,
}
use ceph_in_c.Base.Int.{ℤ, pos, negsuc, to_int}
use ceph_in_c.Base.Order.{CString, string_ord}
use ceph_in_c.Base.Errno.{
  Errno, ok, err_no_enough_mem, err_coll_not_exist, err_object_not_exist, err_map_node_not_exist,
  Exit, returns, abort,
}
use ceph_in_c.Base.Alloc.{Alloc, malloc}
use ceph_in_c.Map.{RbTree, map_search}
use ceph_in_c.OsTypes.{CollId, coll_id_ord, OsMap, MapValue, map_update}
use ceph_in_c.MemStore.{CollNode, ObjectNode, MemStore}

-- `read_length` where it is not more than `length - offset`; the two are an int and an int64_t.
abbrev pub clip : ℤ → ℕ → ℤ
clip (pos n) left = if ltb left n then to_int (pos left) else pos n
clip (negsuc n) left = negsuc n

-- `int read_length = length`, the whole object where it is not positive, and no more than is left.
abbrev pub or_whole : ℤ → ℕ → ℤ
or_whole (negsuc n) size = to_int (pos size)
or_whole (pos n) size = if n == 0 then to_int (pos size) else pos n

unfoldable pub read_length : ℤ → ℕ → ℕ → ℤ
read_length wanted size offset = clip (or_whole (to_int wanted) size) (size - offset)

-- The part of `read_obj` behind the two searches. A negative size is no size for `malloc`.
unfoldable pub read_content : List ℕ → ℕ → ℤ → Alloc → Errno × List ℕ × Alloc
read_content content offset wanted a =
    let (there, a') = malloc a in
    if length content == 0 || leb (length content) offset
    then (ok, [], a)
    else elim (read_length wanted (length content) offset) [
      | negsuc n ↦ (err_no_enough_mem, [], a')
      | pos n ↦
          if there then (ok, take n (drop offset content), a') else (err_no_enough_mem, [], a')
    ]

unfoldable pub read_obj :
    MemStore → CollId → CString → ℤ → ℤ → Alloc → Exit (Errno × List ℕ × Alloc)
read_obj os cid oid (negsuc offset) wanted a = abort
read_obj os cid oid (pos offset) wanted a = elim (map_search os.colls cid) [
  | none ↦ returns (err_coll_not_exist, [], a)
  | some coll ↦ elim (map_search coll.1.objects oid) [
    | none ↦ returns (err_object_not_exist, [], a)
    | some found ↦ returns (read_content found.1.content offset wanted a)
  ]
]

unfoldable pub exist_coll : MemStore → CollId → Errno × Bool
exist_coll os cid = elim (map_search os.colls cid) [ none ↦ (ok, false) | some found ↦ (ok, true) ]

-- A copy of the value of a key of a map.
unfoldable pub read_key : OsMap → CString → Alloc → Errno × MapValue × Alloc
read_key tree key a = elim (map_search tree key) [
  | none ↦ (err_map_node_not_exist, [], a)
  | some found ↦
      let (there, a') = malloc a in if there then (ok, found.1, a') else (err_no_enough_mem, [], a')
]

unfoldable pub read_coll_map_key : MemStore → CollId → CString → Alloc → Errno × MapValue × Alloc
read_coll_map_key os cid key a = elim (map_search os.colls cid) [
  | none ↦ (err_coll_not_exist, [], a)
  | some coll ↦ read_key coll.1.map key a
]

-- For a missing object the code of the search is returned.
unfoldable pub read_obj_map_key :
    MemStore → CollId → CString → CString → Alloc → Errno × MapValue × Alloc
read_obj_map_key os cid oid key a = elim (map_search os.colls cid) [
  | none ↦ (err_coll_not_exist, [], a)
  | some coll ↦ elim (map_search coll.1.objects oid) [
    | none ↦ (err_map_node_not_exist, [], a)
    | some found ↦ read_key found.1.map key a
  ]
]

module _ (rb : RbTree) where
  -- The nodes are counted, the array is allocated, and the ids are written to it in order.
  unfoldable pub list_coll : MemStore → Alloc → Errno × List CollId × Alloc
  list_coll os a =
      let (there, a') = malloc a in
      if there
      then (ok, map (λ (e : CollId × CollNode). e.0) (rb.entries os.colls), a')
      else (err_no_enough_mem, [], a')

  -- The caller's map gets the entries of the collection's.
  unfoldable pub read_coll_map : MemStore → CollId → OsMap → Alloc → Errno × OsMap × Alloc
  read_coll_map os cid map a = elim (map_search os.colls cid) [
    | none ↦ (err_coll_not_exist, map, a)
    | some coll ↦ map_update rb map coll.1.map a
  ]

  -- For a missing collection or object the code of the search is returned.
  unfoldable pub read_obj_map : MemStore → CollId → CString → OsMap → Alloc → Errno × OsMap × Alloc
  read_obj_map os cid oid map a = elim (map_search os.colls cid) [
    | none ↦ (err_map_node_not_exist, map, a)
    | some coll ↦ elim (map_search coll.1.objects oid) [
      | none ↦ (err_map_node_not_exist, map, a)
      | some found ↦ map_update rb map found.1.map a
    ]
  ]
