-- ===== src/Base/Errno.antt =====
-- common/errno.h: the codes that the modelled parts return, and the end of the process by a
-- failed `assert`.
use ceph_in_c.Base.Int.{ℤ, pos, negsuc}

pub data Errno : Type 0 where
  ok : Errno
  err_no_enough_mem : Errno
  err_coll_already_exist : Errno
  err_coll_not_exist : Errno
  err_object_not_exist : Errno
  err_map_node_already_exist : Errno
  err_map_node_not_exist : Errno
  err_unknown_os_op : Errno
  err_buffer_end : Errno
  err_unknown_op : Errno
  err_not_enough_server : Errno
  err_wrong_client_id : Errno
  err_conn_not_found : Errno
  err_conn_closed : Errno
  err_write_conn_err : Errno
  err_unknown : Errno
  err_object_already_exist : Errno

-- The int that a code is.
abbrev pub errno_code : Errno → ℤ
errno_code ok = pos 0
errno_code err_unknown = negsuc 999
errno_code err_conn_not_found = negsuc 1000
errno_code err_conn_closed = negsuc 1001
errno_code err_write_conn_err = negsuc 1002
errno_code err_unknown_op = negsuc 1003
errno_code err_not_enough_server = negsuc 1004
errno_code err_wrong_client_id = negsuc 1005
errno_code err_no_enough_mem = negsuc 1006
errno_code err_coll_already_exist = negsuc 1007
errno_code err_coll_not_exist = negsuc 1008
errno_code err_object_already_exist = negsuc 1009
errno_code err_object_not_exist = negsuc 1010
errno_code err_map_node_already_exist = negsuc 1011
errno_code err_map_node_not_exist = negsuc 1012
errno_code err_unknown_os_op = negsuc 1013
errno_code err_buffer_end = negsuc 1014

-- A call returns, or a failed assertion ends the process.
pub data Exit {ℓ} (A : Type ℓ) : Type ℓ where
  returns : A → Exit A
  abort : Exit A

infixl 5 ◌>>=◌
abbrev pub ◌>>=◌ {ℓ κ} : {A : Type ℓ} {B : Type κ} → Exit A → (A → Exit B) → Exit B
returns a >>= f = f a
abort >>= f = abort
