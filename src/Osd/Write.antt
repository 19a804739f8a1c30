-- ===== src/Osd/Write.antt =====
-- What an OSD does with a write request, and what it tells the client.
use ceph_in_c.Base.{ℕ, ◌^◌, ◌<◌, ◌≡◌, false, some, List, ◌++◌, ◌==◌, length}
use ceph_in_c.Base.Int.{ℤ, pos}
use ceph_in_c.Base.Order.{CString}
use ceph_in_c.Base.Errno.{Exit, returns}
use ceph_in_c.Base.Alloc.{Alloc, Plenty}
use ceph_in_c.Io.{Out}
use ceph_in_c.Io.Send.{AllWhole}
use ceph_in_c.MemStore.Spec.{spliced}
use ceph_in_c.Message.{WriteObjReq, WriteObjAck}
use ceph_in_c.Message.RoundTrip.{header_bytes, ack_bytes}
use ceph_in_c.Messenger.{Connection, normal, Messenger, get_conn_by_id}
use ceph_in_c.Osd.{Files, with_file, puts, Disk, c_string, data_dir, ack_for, Served}

-- The file of an object.
abbrev pub path_of : List ℕ → CString
path_of oid = data_dir ++ c_string oid

-- A request as it comes from `cceph_msg_write_obj_req_recv`, with a path that has room.
pub record Storable (req : WriteObjReq) (oid : CString) (bytes : List ℕ) : Type 0 where
  pub named : req.oid ≡ some oid
  pub filled : req.data_ ≡ some bytes
  pub sized : req.length ≡ length bytes
  pub short : length (path_of oid) < 4096
  pub offset_fits : req.offset < 2 ^ 63
  pub data_fits : length bytes < 2 ^ 31

-- A connection that a message can be sent on.
pub record CanSend (m : Messenger) (id : ℤ) (o : Out) : Type 0 where
  pub runs : m.state ≡ normal
  pub conn : Connection
  pub found : get_conn_by_id m id ≡ some conn
  pub open_ : (conn.state == 2) ≡ false
  pub whole : AllWhole o.outcomes

-- The request was answered: what the write returned is in the acknowledgement.
pub record Answered (m : Messenger) (req : WriteObjReq) (ret : ℤ) (files : Files) (o : Out)
    (r : Exit Served) : Type 0 where
  pub out : Out
  pub alloc : Alloc
  pub returned :
      r ≡ returns (record { code = pos 0; files = files; messenger = m; out = out; alloc = alloc })
  pub wired :
      out.wire ≡ o.wire ++ (header_bytes (ack_for req ret).header ++ ack_bytes (ack_for req ret))
  pub still : AllWhole out.outcomes
  pub plenty : Plenty alloc

-- The numbers of a request, which its acknowledgement repeats, fit their fields.
pub record NumbersFit (req : WriteObjReq) : Type 0 where
  pub kind : req.header.op ≡ 1
  pub client_fits : req.client_id < 2 ^ 32
  pub id_fits : req.req_id < 2 ^ 64
  pub log_fits : req.header.log_id < 2 ^ 64

-- A disk on which a file is opened and closed, and of which `pwrite` takes n bytes.
abbrev pub disk_of : ℕ → ℕ → Disk
disk_of fd n = record { open_fd = pos fd; pwrite = puts n; close_ret = pos 0 }

abbrev pub file_after : Files → CString → ℕ → List ℕ → Files
file_after files oid offset bytes =
    with_file files (path_of oid) (spliced (files (path_of oid)) offset bytes)

abbrev with_result : WriteObjAck → ℕ → WriteObjAck
with_result ack k = record ack { result = k }
