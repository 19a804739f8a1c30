-- ===== src/Message/Request.antt =====
-- Write requests are received as they were sent.
use mathlib.Core.List.{append_assoc}
use ceph_in_c.Base.{ℕ, ◌≡◌, refl, ◌∙◌, ap, true, Option, none, some, List, ◌++◌, arith, length}
use ceph_in_c.Base.Int.{ℤ, pos}
use ceph_in_c.Base.Order.{CString}
use ceph_in_c.Base.Errno.{Exit, returns}
use ceph_in_c.Base.Alloc.{Alloc, Plenty}
use ceph_in_c.Encode.{bytes_of}
use ceph_in_c.Encode.Bytes.{bound}
use ceph_in_c.Io.{Out, Inbox, recv_data}
use ceph_in_c.Io.Bytes.{stream, Clear}
use ceph_in_c.Io.Send.{AllWhole, Written}
use ceph_in_c.Io.Receive.{recv_int-first, recv_string-first, recv_data-first}
use ceph_in_c.Message.{
  MsgHeader, WriteObjReq, write_obj_req_send, recv_offset_and_data, recv_id_and_rest, is_null,
  write_obj_req_recv,
}
use ceph_in_c.Message.RoundTrip.{req_bytes, Fits, write_obj_req_send-Written}

-- The request as it is received: the same numbers, object and data, under the header of the message
-- that it is received into.
abbrev pub received : WriteObjReq → MsgHeader → CString → List ℕ → WriteObjReq
received req header oid bytes = record {
  header = header;
  client_id = req.client_id;
  req_id = req.req_id;
  oid_size = length oid;
  oid = some oid;
  offset = req.offset;
  length = length bytes;
  data_ = some bytes;
}

abbrev Answer : Type 0
Answer = ℤ × WriteObjReq × Inbox × Alloc

-- A request was received, and bytes are left to come.
pub record Arrived (req : WriteObjReq) (later : List ℕ) (r : Exit Answer) : Type 0 where
  pub inbox : Inbox
  pub alloc : Alloc
  pub returned : r ≡ returns (pos 0, req, inbox, alloc)
  pub clear : Clear inbox
  pub left : stream inbox ≡ later
  pub plenty : Plenty alloc

is_null-none : {A : Type 0} {x : Option A} → x ≡ none → is_null x ≡ true
is_null-none h = ap is_null h

returns_inj : {A : Type 0} {x y : A} → returns x ≡ returns y → x ≡ y
returns_inj h = cc

module _ (req : WriteObjReq) (oid : CString) (bytes later : List ℕ) (f : Fits req oid bytes) where
  abbrev tail : List ℕ
  tail = bytes_of 8 req.offset ++ (bytes_of 8 (length bytes) ++ bytes)

  recv_offset_and_data-first :
      (fresh : WriteObjReq) (s : Inbox) (a : Alloc)
      → Clear s
      → Plenty a
      → stream s ≡ tail ++ later
      → Arrived
          (record fresh { offset = req.offset; length = length bytes; data_ = some bytes })
          later
          (returns (recv_offset_and_data fresh s a))
  unfolding recv_offset_and_data bound
  recv_offset_and_data-first fresh s a c p e =
      let last : List ℕ = bytes_of 8 (length bytes) ++ bytes in
      let at =
        recv_int-first 8 req.offset fresh.offset (last ++ later) s (omega arith)
          (omega (arith, f.offset_fits)) c (e ∙ append_assoc (bytes_of 8 req.offset) last later) in
      let b =
        recv_data-first bytes later fresh.length fresh.data_ at.rest a f.data_fits at.clear p
          at.left in
      record {
        inbox = b.block.inbox;
        alloc = b.block.alloc;
        returned =
            let same : recv_data fresh.length fresh.data_ at.rest a ≡ b.block =
              returns_inj b.returned in
            rw (recv_offset_and_data, at.returned, same, b.success, b.sized, b.whole_) refl;
        clear = b.clear;
        left = b.left;
        plenty = b.plenty;
      }

  recv_id_and_rest-first :
      (fresh : WriteObjReq) (s : Inbox) (a : Alloc)
      → Clear s
      → Plenty a
      → stream s ≡ (bytes_of 8 req.req_id ++ ((bytes_of 2 (length oid) ++ oid) ++ tail)) ++ later
      → Arrived
          (record (received req fresh.header oid bytes) { client_id = fresh.client_id })
          later
          (recv_id_and_rest fresh s a)
  unfolding recv_id_and_rest bound
  recv_id_and_rest-first fresh s a c p e =
      let string : List ℕ = bytes_of 2 (length oid) ++ oid in
      let id =
        recv_int-first 8 req.req_id fresh.req_id ((string ++ tail) ++ later) s (omega arith)
          (omega (arith, f.id_fits)) c
          (e ∙ append_assoc (bytes_of 8 req.req_id) (string ++ tail) later) in
      let b =
        recv_string-first oid (tail ++ later) fresh.oid_size fresh.oid id.rest a f.oid_fits id.clear
          p (id.left ∙ append_assoc string tail later) in
      let fresh' : WriteObjReq = record fresh {
        req_id = req.req_id;
        oid_size = length oid;
        oid = some oid;
      } in
      let r =
        recv_offset_and_data-first fresh' b.block.inbox b.block.alloc b.clear b.plenty b.left in
      record {
        inbox = r.inbox;
        alloc = r.alloc;
        returned =
            rw (recv_id_and_rest, id.returned, b.returned, b.success, b.sized, b.whole_) r.returned;
        clear = r.clear;
        left = r.left;
        plenty = r.plenty;
      }

  pub write_obj_req_recv-first :
      (fresh : WriteObjReq) (s : Inbox) (a : Alloc)
      → fresh.oid ≡ none
      → fresh.data_ ≡ none
      → Clear s
      → Plenty a
      → stream s ≡ req_bytes req oid bytes ++ later
      → Arrived (received req fresh.header oid bytes) later (write_obj_req_recv fresh s a)
  unfolding write_obj_req_recv bound
  write_obj_req_recv-first fresh s a no_oid no_data c p e =
      let rest : List ℕ = bytes_of 8 req.req_id ++ ((bytes_of 2 (length oid) ++ oid) ++ tail) in
      let client =
        recv_int-first 4 req.client_id fresh.client_id (rest ++ later) s (omega arith)
          (omega (arith, f.client_fits)) c
          (e ∙ append_assoc (bytes_of 4 req.client_id) rest later) in
      let fresh' : WriteObjReq = record fresh { client_id = req.client_id } in
      let r = recv_id_and_rest-first fresh' client.rest a client.clear p client.left in
      record {
        inbox = r.inbox;
        alloc = r.alloc;
        returned =
            rw (write_obj_req_recv, is_null-none no_oid, is_null-none no_data, client.returned)
              r.returned;
        clear = r.clear;
        left = r.left;
        plenty = r.plenty;
      }

-- A write request whose numbers and sizes fit their fields is sent whole, with result 0, on a socket
-- that takes all the bytes. However its bytes are cut into segments, and whatever comes behind
-- them, where no allocation fails the other side receives the same client, request number, object,
-- offset and data into a new message, with result 0, and what came behind is left to be received.
pub write_obj_req_recv-write_obj_req_send :
    (o : Out) (req fresh : WriteObjReq) (oid : CString) (bytes later : List ℕ) (s : Inbox)
    (a : Alloc)
    → Fits req oid bytes
    → AllWhole o.outcomes
    → fresh.oid ≡ none
    → fresh.data_ ≡ none
    → Clear s
    → Plenty a
    → stream s ≡ req_bytes req oid bytes ++ later
    → Written o (req_bytes req oid bytes) (write_obj_req_send o req)
      × Arrived (received req fresh.header oid bytes) later (write_obj_req_recv fresh s a)
write_obj_req_recv-write_obj_req_send o req fresh oid bytes later s a f w no_oid no_data c p e = (
  write_obj_req_send-Written o req oid bytes f w,
  write_obj_req_recv-first req oid bytes later f fresh s a no_oid no_data c p e,
)
