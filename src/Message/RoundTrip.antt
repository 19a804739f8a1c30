-- ===== src/Message/RoundTrip.antt =====
-- Messages are received as they were sent.
use mathlib.Core.List.{append_assoc}
use ceph_in_c.Base.{ℕ, ◌^◌, ◌<◌, ◌≡◌, refl, ◌∙◌, ap, some, List, ◌++◌, arith, length}
use ceph_in_c.Base.Int.{ℤ, pos}
use ceph_in_c.Base.Order.{CString}
use ceph_in_c.Base.Errno.{Exit, returns}
use ceph_in_c.Encode.{bytes_of}
use ceph_in_c.Encode.Bytes.{bound}
use ceph_in_c.Io.{Out, Inbox}
use ceph_in_c.Io.Bytes.{stream, Clear}
use ceph_in_c.Io.Send.{
  AllWhole, Wrote, send_int8-Wrote, send_int-Wrote, Written, send_string-Written, send_data-Written,
}
use ceph_in_c.Io.Receive.{recv_int-first}
use ceph_in_c.Message.{
  MsgHeader, WriteObjReq, WriteObjAck, send_field, msg_header_send, write_obj_req_send,
  write_obj_ack_send, msg_header_recv,
}

-- The bytes of the messages on the wire.
abbrev pub header_bytes : MsgHeader → List ℕ
header_bytes header = bytes_of 1 header.op ++ bytes_of 8 header.log_id

abbrev pub ack_bytes : WriteObjAck → List ℕ
ack_bytes ack = bytes_of 4 ack.client_id ++ (bytes_of 8 ack.req_id ++ bytes_of 1 ack.result)

abbrev pub req_bytes : WriteObjReq → CString → List ℕ → List ℕ
req_bytes req oid bytes =
    bytes_of 4 req.client_id
    ++ (bytes_of 8 req.req_id
        ++ ((bytes_of 2 (length oid) ++ oid)
            ++ (bytes_of 8 req.offset ++ (bytes_of 8 (length bytes) ++ bytes))))

-- A field that was sent, and what is sent behind it.
send_field-Written :
    {o : Out} {xs ys : List ℕ} (sent : Exit (ℤ × Out)) (next : Out → Exit (ℤ × Out))
    → Written o xs sent
    → ((o' : Out) → AllWhole o'.outcomes → Written o' ys (next o'))
    → Written o (xs ++ ys) (send_field sent next)
send_field-Written {o} {xs} {ys} sent next w f =
    let r = f w.out w.still in
    record {
      out = r.out;
      returned = rw (w.returned) r.returned;
      wired = r.wired ∙ ap (λ z. z ++ ys) w.wired ∙ append_assoc o.wire xs ys;
      still = r.still;
    }

Wrote-Written : {o : Out} {xs : List ℕ} (r : ℤ × Out) → Wrote o xs r → Written o xs (returns r)
Wrote-Written r w = record {
  out = r.1;
  returned = ap (λ z. returns (z, r.1)) w.success;
  wired = w.wired;
  still = w.still;
}

-- The last field.
send_field-last :
    {o : Out} {xs : List ℕ} (sent : Exit (ℤ × Out))
    → Written o xs sent
    → Written o xs (send_field sent (λ o'. returns (pos 0, o')))
send_field-last sent w = record {
  out = w.out;
  returned = rw (w.returned) refl;
  wired = w.wired;
  still = w.still;
}

pub msg_header_send-Written :
    (o : Out) (header : MsgHeader)
    → AllWhole o.outcomes
    → Written o (header_bytes header) (msg_header_send o header)
unfolding msg_header_send
msg_header_send-Written o header a =
    send_field-Written _ _ (Wrote-Written _ (send_int8-Wrote o header.op a)) (λ o₁ a₁.
      send_field-last _ (Wrote-Written _ (send_int-Wrote 8 o₁ header.log_id (omega arith) a₁)))

pub write_obj_ack_send-Written :
    (o : Out) (ack : WriteObjAck)
    → AllWhole o.outcomes
    → Written o (ack_bytes ack) (write_obj_ack_send o ack)
unfolding write_obj_ack_send
write_obj_ack_send-Written o ack a =
    send_field-Written _ _ (Wrote-Written _ (send_int-Wrote 4 o ack.client_id (omega arith) a))
      (λ o₁ a₁.
        send_field-Written _ _ (Wrote-Written _ (send_int-Wrote 8 o₁ ack.req_id (omega arith) a₁))
          (λ o₂ a₂. send_field-last _ (Wrote-Written _ (send_int8-Wrote o₂ ack.result a₂))))

-- A write request that can be sent whole: it has an object and data, and its numbers and sizes fit
-- their fields.
pub record Fits (req : WriteObjReq) (oid : CString) (bytes : List ℕ) : Type 0 where
  pub named : req.oid ≡ some oid
  pub filled : req.data_ ≡ some bytes
  pub sized : req.length ≡ length bytes
  pub client_fits : req.client_id < 2 ^ 32
  pub id_fits : req.req_id < 2 ^ 64
  pub offset_fits : req.offset < 2 ^ 64
  pub oid_fits : length oid < 2 ^ 15
  pub data_fits : length bytes < 2 ^ 31

pub write_obj_req_send-Written :
    (o : Out) (req : WriteObjReq) (oid : CString) (bytes : List ℕ)
    → Fits req oid bytes
    → AllWhole o.outcomes
    → Written o (req_bytes req oid bytes) (write_obj_req_send o req)
unfolding write_obj_req_send
write_obj_req_send-Written o req oid bytes f a =
    rw (f.named, f.filled, f.sized)
      (send_field-Written _ _ (Wrote-Written _ (send_int-Wrote 4 o req.client_id (omega arith) a))
        (λ o₁ a₁.
          send_field-Written _ _ (Wrote-Written _ (send_int-Wrote 8 o₁ req.req_id (omega arith) a₁))
            (λ o₂ a₂. send_field-Written _ _ (send_string-Written o₂ oid f.oid_fits a₂) (λ o₃ a₃.
              send_field-Written _ _
                (Wrote-Written _ (send_int-Wrote 8 o₃ req.offset (omega arith) a₃))
                (λ o₄ a₄. send_field-last _ (send_data-Written o₄ bytes f.data_fits a₄))))))

pub msg_header_recv-first :
    (header fresh : MsgHeader) (later : List ℕ) (s : Inbox)
    → header.op < 2 ^ 8
    → header.log_id < 2 ^ 64
    → Clear s
    → stream s ≡ header_bytes header ++ later
    → (s' : Inbox) × (msg_header_recv fresh s ≡ (pos 0, header, s'))
      × Clear s'
      × (stream s' ≡ later)
unfolding msg_header_recv bound
msg_header_recv-first header fresh later s h k c e =
    let op =
      recv_int-first 1 header.op fresh.op (bytes_of 8 header.log_id ++ later) s (omega arith)
        (omega arith) c
        (e ∙ append_assoc (bytes_of 1 header.op) (bytes_of 8 header.log_id) later) in
    let id =
      recv_int-first 8 header.log_id fresh.log_id later op.rest (omega arith) (omega arith) op.clear
        op.left in
    (id.rest, rw (msg_header_recv, op.returned, id.returned) refl, id.clear, id.left)
