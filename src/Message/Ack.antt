-- ===== src/Message/Ack.antt =====
-- Acknowledgements are received as they were sent.
use mathlib.Core.List.{append_assoc}
use ceph_in_c.Base.{ℕ, ◌^◌, ◌<◌, ◌≡◌, refl, ◌∙◌, List, ◌++◌, arith}
use ceph_in_c.Base.Int.{pos}
use ceph_in_c.Encode.{bytes_of}
use ceph_in_c.Encode.Bytes.{bound}
use ceph_in_c.Io.{Out, Inbox}
use ceph_in_c.Io.Bytes.{stream, Clear}
use ceph_in_c.Io.Send.{AllWhole, Written}
use ceph_in_c.Io.Receive.{recv_int-first}
use ceph_in_c.Message.{WriteObjAck, write_obj_ack_send, write_obj_ack_recv}
use ceph_in_c.Message.RoundTrip.{ack_bytes, write_obj_ack_send-Written}

pub record AckFits (ack : WriteObjAck) : Type 0 where
  pub client_fits : ack.client_id < 2 ^ 32
  pub id_fits : ack.req_id < 2 ^ 64
  pub result_fits : ack.result < 2 ^ 8

pub write_obj_ack_recv-first :
    (ack fresh : WriteObjAck) (later : List ℕ) (s : Inbox)
    → AckFits ack
    → Clear s
    → stream s ≡ ack_bytes ack ++ later
    → (s' : Inbox) × (write_obj_ack_recv fresh s
        ≡ (pos 0, record ack { header = fresh.header }, s'))
      × Clear s'
      × (stream s' ≡ later)
unfolding write_obj_ack_recv bound
write_obj_ack_recv-first ack fresh later s f c e =
    let one : List ℕ = bytes_of 4 ack.client_id in
    let two : List ℕ = bytes_of 8 ack.req_id in
    let three : List ℕ = bytes_of 1 ack.result in
    let client =
      recv_int-first 4 ack.client_id fresh.client_id ((two ++ three) ++ later) s (omega arith)
        (omega (arith, f.client_fits)) c (e ∙ append_assoc one (two ++ three) later) in
    let id =
      recv_int-first 8 ack.req_id fresh.req_id (three ++ later) client.rest (omega arith)
        (omega (arith, f.id_fits)) client.clear (client.left ∙ append_assoc two three later) in
    let result =
      recv_int-first 1 ack.result fresh.result later id.rest (omega arith)
        (omega (arith, f.result_fits)) id.clear id.left in
    (
      result.rest,
      rw (write_obj_ack_recv, client.returned, id.returned, result.returned) refl,
      result.clear,
      result.left,
    )

-- An acknowledgement whose numbers fit their fields is sent whole, with result 0, on a socket that
-- takes all the bytes. However its bytes are cut into segments, and whatever comes behind them, the
-- other side receives the same client, request number and result, with result 0, and what came
-- behind is left to be received.
pub write_obj_ack_recv-write_obj_ack_send :
    (o : Out) (ack fresh : WriteObjAck) (later : List ℕ) (s : Inbox)
    → AckFits ack
    → AllWhole o.outcomes
    → Clear s
    → stream s ≡ ack_bytes ack ++ later
    → Written o (ack_bytes ack) (write_obj_ack_send o ack)
      × ((s' : Inbox) × (write_obj_ack_recv fresh s
            ≡ (pos 0, record ack { header = fresh.header }, s'))
          × Clear s'
          × (stream s' ≡ later))
write_obj_ack_recv-write_obj_ack_send o ack fresh later s f a c e =
    (write_obj_ack_send-Written o ack a, write_obj_ack_recv-first ack fresh later s f c e)
