-- ===== src/Message.antt =====
-- message/msg_header.c and message/msg_write_obj.c: the messages and how they are sent and received.
-- Integers are their bit patterns.
pub mod RoundTrip
pub mod Ack
pub mod Request
use ceph_in_c.Base.{ℕ, Bool, true, false, ◌&&◌, Option, none, some, List, ◌==◌, if◌then◌else◌}
use ceph_in_c.Base.Int.{ℤ, pos, is_neg}
use ceph_in_c.Base.Order.{CString}
use ceph_in_c.Base.Errno.{Exit, returns, abort, ◌>>=◌}
use ceph_in_c.Base.Alloc.{Alloc, malloc}
use ceph_in_c.Io.{
  Out, send_int8, send_int32, send_int64, send_string, send_data, Inbox, recv_int8, recv_int32,
  recv_int64, Block, recv_string, recv_data,
}

abbrev pub msg_op_unknown : ℕ
msg_op_unknown = 0

abbrev pub msg_op_write : ℕ
msg_op_write = 1

abbrev pub msg_op_write_ack : ℕ
msg_op_write_ack = 2

abbrev pub msg_op_read : ℕ
msg_op_read = 3

abbrev pub msg_op_read_ack : ℕ
msg_op_read_ack = 4

abbrev pub write_obj_ack_ok : ℕ
write_obj_ack_ok = 1

pub record MsgHeader : Type 0 where
  pub op : ℕ
  pub log_id : ℕ

pub record WriteObjReq : Type 0 where
  pub header : MsgHeader
  pub client_id : ℕ
  pub req_id : ℕ
  pub oid_size : ℕ
  pub oid : Option CString
  pub offset : ℕ
  pub length : ℕ
  pub data_ : Option (List ℕ)

pub record WriteObjAck : Type 0 where
  pub header : MsgHeader
  pub client_id : ℕ
  pub req_id : ℕ
  pub result : ℕ

unfoldable pub msg_header_new : Alloc → Exit (MsgHeader × Alloc)
msg_header_new a =
    let (there, a') = malloc a in
    if there then returns (record { op = msg_op_unknown; log_id = 0 }, a') else abort

-- `memset` writes to what `malloc` returned without a look at it.
unfoldable pub write_obj_req_new : Alloc → Exit (WriteObjReq × Alloc)
write_obj_req_new a =
    let (there, a') = malloc a in
    if there
    then returns (
      record {
        header = record { op = msg_op_write; log_id = 0 };
        client_id = 0;
        req_id = 0;
        oid_size = 0;
        oid = none;
        offset = 0;
        length = 0;
        data_ = none;
      },
      a',
    )
    else abort

unfoldable pub write_obj_ack_new : Alloc → Exit (WriteObjAck × Alloc)
write_obj_ack_new a =
    let (there, a') = malloc a in
    if there
    then returns (
      record {
        header = record { op = msg_op_write_ack; log_id = 0 };
        client_id = 0;
        req_id = 0;
        result = 0;
      },
      a',
    )
    else abort

-- CCEPH_SEND_FIELD and CCEPH_SEND_DATA_FIELD: the function returns where the call returned a
-- negative code, and goes on otherwise.
abbrev pub send_field : Exit (ℤ × Out) → (Out → Exit (ℤ × Out)) → Exit (ℤ × Out)
send_field sent next = sent >>= λ r. if is_neg r.0 then returns r else next r.1

unfoldable pub msg_header_send : Out → MsgHeader → Exit (ℤ × Out)
msg_header_send o header =
    send_field (returns (send_int8 o header.op))
      λ o₁. send_field (returns (send_int64 o₁ header.log_id)) λ o₂. returns (pos 0, o₂)

-- The assertions are that `oid` and `data` are not NULL.
unfoldable pub write_obj_req_send : Out → WriteObjReq → Exit (ℤ × Out)
write_obj_req_send o req = elim req.oid [
  | none ↦ abort
  | some oid ↦ elim req.data_ [
    | none ↦ abort
    | some bytes ↦ send_field (returns (send_int32 o req.client_id)) λ o₁.
        send_field (returns (send_int64 o₁ req.req_id)) λ o₂. send_field (send_string o₂ oid) λ o₃.
          send_field (returns (send_int64 o₃ req.offset))
            λ o₄. send_field (send_data o₄ req.length bytes) λ o₅. returns (pos 0, o₅)
  ]
]

unfoldable pub write_obj_ack_send : Out → WriteObjAck → Exit (ℤ × Out)
write_obj_ack_send o ack = send_field (returns (send_int32 o ack.client_id)) λ o₁.
    send_field (returns (send_int64 o₁ ack.req_id))
      λ o₂. send_field (returns (send_int8 o₂ ack.result)) λ o₃. returns (pos 0, o₃)

unfoldable pub msg_header_recv : MsgHeader → Inbox → ℤ × MsgHeader × Inbox
msg_header_recv header s =
    let op = recv_int8 header.op s in
    let id = recv_int64 header.log_id op.2 in
    if is_neg op.0
    then (op.0, record header { op = op.1 }, op.2)
    else if is_neg id.0
    then (id.0, record { op = op.1; log_id = id.1 }, id.2)
    else (pos 0, record { op = op.1; log_id = id.1 }, id.2)

-- The part of `cceph_msg_write_obj_req_recv` behind the string.
recv_offset_and_data : WriteObjReq → Inbox → Alloc → ℤ × WriteObjReq × Inbox × Alloc
recv_offset_and_data req s a =
    let at = recv_int64 req.offset s in
    let req₁ : WriteObjReq = record req { offset = at.1 } in
    let b = recv_data req.length req.data_ at.2 a in
    if is_neg at.0
    then (at.0, req₁, at.2, a)
    else (b.code, record req₁ { length = b.size; data_ = b.bytes }, b.inbox, b.alloc)

-- The part behind the number of the client.
recv_id_and_rest : WriteObjReq → Inbox → Alloc → Exit (ℤ × WriteObjReq × Inbox × Alloc)
unfolding recv_offset_and_data
recv_id_and_rest req s a =
    let id = recv_int64 req.req_id s in
    let req₁ : WriteObjReq = record req { req_id = id.1 } in
    let string = recv_string req.oid_size req.oid id.2 a in
    if is_neg id.0
    then returns (id.0, req₁, id.2, a)
    else (string >>= λ b.
        let req₂ : WriteObjReq = record req₁ { oid_size = b.size; oid = b.bytes } in
        if is_neg b.code
        then returns (b.code, req₂, b.inbox, b.alloc)
        else returns (recv_offset_and_data req₂ b.inbox b.alloc))

abbrev pub is_null : {A : Type 0} → Option A → Bool
is_null none = true
is_null (some x) = false

-- The assertions are that `oid` and `data` are NULL.
unfoldable pub write_obj_req_recv :
    WriteObjReq → Inbox → Alloc → Exit (ℤ × WriteObjReq × Inbox × Alloc)
unfolding recv_id_and_rest
write_obj_req_recv req s a =
    let client = recv_int32 req.client_id s in
    let req₁ : WriteObjReq = record req { client_id = client.1 } in
    let rest = recv_id_and_rest req₁ client.2 a in
    if is_null req.oid && is_null req.data_
    then if is_neg client.0 then returns (client.0, req₁, client.2, a) else rest
    else abort

unfoldable pub write_obj_ack_recv : WriteObjAck → Inbox → ℤ × WriteObjAck × Inbox
write_obj_ack_recv ack s =
    let client = recv_int32 ack.client_id s in
    let id = recv_int64 ack.req_id client.2 in
    let result = recv_int8 ack.result id.2 in
    let ack₁ : WriteObjAck = record ack { client_id = client.1 } in
    let ack₂ : WriteObjAck = record ack₁ { req_id = id.1 } in
    let ack₃ : WriteObjAck = record ack₂ { result = result.1 } in
    if is_neg client.0
    then (client.0, ack₁, client.2)
    else if is_neg id.0
    then (id.0, ack₂, id.2)
    else if is_neg result.0
    then (result.0, ack₃, result.2)
    else (pos 0, ack₃, result.2)

-- A message of any kind, behind a pointer to its header.
pub data Msg : Type 0 where
  write_req : WriteObjReq → Msg
  write_ack : WriteObjAck → Msg
  bare : MsgHeader → Msg

abbrev pub header_of : Msg → MsgHeader
header_of (write_req req) = req.header
header_of (write_ack ack) = ack.header
header_of (bare header) = header
