-- ===== src/Osd.antt =====
-- osd/osd_msg_process.c: an OSD writes the object of a request into a file and acknowledges it.
pub mod Start
pub mod Starting
pub mod Main
pub mod Pg
pub mod Write
pub mod Create
use ceph_in_c.Base.{
  ℕ, ◌+◌, ◌-◌, ◌^◌, ◌%◌, Bool, true, false, Option, none, some, List, [], ◌∷◌, ◌++◌, ltb, leb, ◌==◌,
  length, take, if◌then◌else◌,
}
use Prim.Native.Nat.{Ordering}
use ceph_in_c.Base.Int.{ℤ, pos, negsuc, is_neg, is_nat, to_int}
use ceph_in_c.Base.Order.{CString, strcmp}
use ceph_in_c.Base.Errno.{err_unknown_op, errno_code, Exit, returns, abort, ◌>>=◌}
use ceph_in_c.Base.Alloc.{Alloc}
use ceph_in_c.Io.{Out}
use ceph_in_c.MemStore.Spec.{spliced}
use ceph_in_c.Message.{
  msg_op_write, msg_op_write_ack, write_obj_ack_ok, WriteObjReq, WriteObjAck, write_obj_ack_new,
  Msg, write_req, write_ack, bare, header_of,
}
use ceph_in_c.Messenger.{Messenger}
use ceph_in_c.Messenger.Talk.{send_msg}

-- The files by their paths; one that is not there yet has no bytes.
abbrev pub Files : Type 0
Files = CString → List ℕ

abbrev is_equal : Ordering → Bool
is_equal Ordering.eq = true
is_equal _ = false

abbrev pub with_file : Files → CString → List ℕ → Files
with_file files path bytes p = if is_equal (strcmp p path) then bytes else files p

-- What `pwrite` comes to: it takes so many of the bytes at most, or returns -1.
pub data Pwrite : Type 0 where
  puts : ℕ → Pwrite
  pwrite_fails : Pwrite

-- What `open`, `pwrite` and `close` come to.
pub record Disk : Type 0 where
  pub open_fd : ℤ
  pub pwrite : Pwrite
  pub close_ret : ℤ

-- The string that memory holds: the bytes before the first 0.
unfoldable pub c_string : List ℕ → CString
c_string [] = []
c_string (b ∷ bs) = let rest = c_string bs in if b == 0 then [] else b ∷ rest

-- "./data/"
abbrev pub data_dir : CString
data_dir = 46 ∷ 47 ∷ 100 ∷ 97 ∷ 116 ∷ 97 ∷ 47 ∷ []

-- `pwrite` on a file: its return value and the files. A negative offset is an error.
unfoldable pub pwrite_file : Files → CString → ℕ → ℕ → List ℕ → Pwrite → ℤ × Files
pwrite_file files path offset size bytes (puts n) =
    let put = take n (take size bytes) in
    if ltb offset (2 ^ 63)
    then (to_int (pos (length put)), with_file files path (spliced (files path) offset put))
    else (negsuc 0, files)
pwrite_file files path offset size bytes pwrite_fails = (negsuc 0, files)

-- `io_write_object`. A path that is longer than the 4096 bytes on the stack overflows them, which has no
-- defined result.
unfoldable pub io_write_object : Files → Disk → List ℕ → ℕ → ℕ → List ℕ → Exit (ℤ × Files)
unfolding c_string pwrite_file
io_write_object files disk oid offset size bytes =
    let path = data_dir ++ c_string oid in
    let (ret, files') = pwrite_file files path offset size bytes disk.pwrite in
    if ltb (length path) 4096
    then if is_neg disk.open_fd
      then returns (disk.open_fd, files)
      else if is_nat ret size
      then returns (disk.close_ret, files')
      else returns (ret, files')
    else abort

-- An int in an int8_t field, as a bit pattern.
abbrev pub to_int8 : ℤ → ℕ
to_int8 (pos n) = n % 256
to_int8 (negsuc n) = 255 - n % 256

-- `ret == 0 ? CCEPH_WRITE_OBJ_ACK_OK : ret`
abbrev pub ack_result : ℤ → ℤ
ack_result ret = if is_nat ret 0 then pos write_obj_ack_ok else ret

abbrev bytes_behind : Option (List ℕ) → List ℕ
bytes_behind none = []
bytes_behind (some bytes) = bytes

-- The acknowledgement of a request, by what the write returned.
abbrev pub ack_for : WriteObjReq → ℤ → WriteObjAck
ack_for req ret = record {
  header = record { op = msg_op_write_ack; log_id = req.header.log_id };
  client_id = req.client_id;
  req_id = req.req_id;
  result = to_int8 (ack_result ret);
}

-- What an OSD changes: the files, the connections of the messenger, and the socket of the client.
pub record Served : Type 0 where
  pub code : ℤ
  pub files : Files
  pub messenger : Messenger
  pub out : Out
  pub alloc : Alloc

unfoldable pub do_object_write_req :
    Messenger → ℤ → WriteObjReq → Files → Disk → Out → Alloc → Exit Served
unfolding io_write_object
do_object_write_req m conn_id req files disk o a = elim req.oid [
  | none ↦ abort
  | some oid ↦
      io_write_object files disk oid req.offset req.length (bytes_behind req.data_) >>= λ w.
      write_obj_ack_new a >>= λ new. send_msg m conn_id (write_ack (ack_for req w.0)) o >>= λ sent.
      returns (record {
        code = errno_code sent.0;
        files = w.1;
        messenger = sent.1;
        out = sent.2;
        alloc = new.1;
      })
]

-- The cast of the message; one of another kind has no defined result.
abbrev write_as_req : Messenger → ℤ → Msg → Files → Disk → Out → Alloc → Exit Served
write_as_req m conn_id (write_req req) files disk o a =
    do_object_write_req m conn_id req files disk o a
write_as_req m conn_id (write_ack ack) files disk o a = abort
write_as_req m conn_id (bare header) files disk o a = abort

-- `context_is_null` tells whether the last argument is NULL, which is asserted.
unfoldable pub osd_process_message :
    Bool → Messenger → ℤ → Msg → Files → Disk → Out → Alloc → Exit Served
unfolding do_object_write_req
osd_process_message context_is_null m conn_id msg files disk o a =
    let ignored : Served = record {
      code = errno_code err_unknown_op;
      files = files;
      messenger = m;
      out = o;
      alloc = a;
    } in
    if context_is_null
    then if (header_of msg).op == msg_op_write
      then write_as_req m conn_id msg files disk o a
      else returns ignored
    else abort
