-- ===== src/Messenger/Delivery.antt =====
-- A message that was written on one side of a connection is read, and handed to `msg_process`, on the
-- other side.
use mathlib.Core.List.{append_assoc}
use ceph_in_c.Base.{
  ℕ, ◌^◌, ◌<◌, ◌≡◌, refl, ◌∙◌, ap, Bool, true, false, ◌==◌, none, some, List, ◌++◌, arith,
  if◌then◌else◌,
}
use ceph_in_c.Base.Int.{ℤ, int_eq, is_nat}
use ceph_in_c.Base.Order.{CString}
use ceph_in_c.Base.Errno.{Exit, returns, ◌>>=◌}
use ceph_in_c.Base.Alloc.{Alloc, Plenty, malloc-Plenty}
use ceph_in_c.Io.{Out, Inbox}
use ceph_in_c.Io.Bytes.{stream, Clear}
use ceph_in_c.Io.Send.{AllWhole, Written}
use ceph_in_c.Message.{
  MsgHeader, WriteObjReq, WriteObjAck, write_obj_req_new, write_obj_ack_new, Msg, write_req,
  write_ack,
}
use ceph_in_c.Message.RoundTrip.{
  header_bytes, req_bytes, ack_bytes, Fits, msg_header_send-Written, write_obj_req_send-Written,
  write_obj_ack_send-Written, msg_header_recv-first,
}
use ceph_in_c.Message.Request.{received, write_obj_req_recv-first}
use ceph_in_c.Message.Ack.{AckFits, write_obj_ack_recv-first}
use ceph_in_c.Messenger.{Connection, Messenger, get_conn_by_fd, without_fd, arm}
use ceph_in_c.Messenger.Talk.{write_message, ReadMsg, read_msg}
use ceph_in_c.Messenger.Steps.{never}
use ceph_in_c.Messenger.Poll.{EpollEvent, World, Round, processes, is_conn_err, poll_round}

-- A message of each kind that fits, with the operation of its kind, and how it is received.
pub data Sendable : Msg → List ℕ → Msg → Type 0 where
  request :
      (req : WriteObjReq) (oid : CString) (bytes : List ℕ)
      → req.header.op ≡ 1
      → req.header.log_id < 2 ^ 64
      → Fits req oid bytes
      → Sendable
          (write_req req)
          (header_bytes req.header ++ req_bytes req oid bytes)
          (write_req (received req req.header oid bytes))
  acknowledgement :
      (ack : WriteObjAck)
      → ack.header.op ≡ 2
      → ack.header.log_id < 2 ^ 64
      → AckFits ack
      → Sendable (write_ack ack) (header_bytes ack.header ++ ack_bytes ack) (write_ack ack)

-- The header, and the body behind it.
body-Written :
    {o : Out} {xs ys : List ℕ} (sent : Exit (ℤ × Out)) (body : Out → Exit (ℤ × Out))
    → Written o xs sent
    → ((o' : Out) → AllWhole o'.outcomes → Written o' ys (body o'))
    → Written o (xs ++ ys) (sent >>= λ r. if is_nat r.0 0 then body r.1 else returns r)
body-Written {o} {xs} {ys} sent body w f =
    let r = f w.out w.still in
    record {
      out = r.out;
      returned = rw (w.returned) r.returned;
      wired = r.wired ∙ ap (λ z. z ++ ys) w.wired ∙ append_assoc o.wire xs ys;
      still = r.still;
    }

pub write_message-Written :
    {msg got : Msg} {bytes : List ℕ} (o : Out)
    → Sendable msg bytes got
    → AllWhole o.outcomes
    → Written o bytes (write_message o msg)
unfolding write_message
write_message-Written o (request req oid bytes kind log f) a =
    let write : (req.header.op == 1) ≡ true = ground (arith, kind) in
    rw (write_message, write)
      (body-Written _ _ (msg_header_send-Written o req.header a)
        (λ o' a'. write_obj_req_send-Written o' req oid bytes f a'))
write_message-Written o (acknowledgement ack kind log f) a =
    let other : (ack.header.op == 1) ≡ false = ground (arith, kind) in
    let write : (ack.header.op == 2) ≡ true = ground (arith, kind) in
    rw (write_message, other, write)
      (body-Written _ _ (msg_header_send-Written o ack.header a)
        (λ o' a'. write_obj_ack_send-Written o' ack a'))

-- A message was read, and bytes are left to come.
pub record HasRead (m : Messenger) (got : Msg) (later : List ℕ) (r : Exit ReadMsg) : Type 0 where
  pub inbox : Inbox
  pub alloc : Alloc
  pub returned :
      r ≡ returns (record { msg = some got; messenger = m; inbox = inbox; alloc = alloc })
  pub clear : Clear inbox
  pub left : stream inbox ≡ later
  pub plenty : Plenty alloc

pub read_msg-HasRead :
    {msg got : Msg} {bytes : List ℕ} (m : Messenger) (id : ℤ) (stack : MsgHeader) (later : List ℕ)
    (s : Inbox) (a : Alloc)
    → Sendable msg bytes got
    → Clear s
    → Plenty a
    → stream s ≡ bytes ++ later
    → HasRead m got later (read_msg m id stack s a)
unfolding read_msg write_obj_req_new write_obj_ack_new
read_msg-HasRead m id stack later s a (request req oid bytes kind log f) c p e =
    let (s₁, head, clear₁, left₁) =
      msg_header_recv-first req.header stack (req_bytes req oid bytes ++ later) s
        (omega (arith, kind)) log c
        (e ∙ append_assoc (header_bytes req.header) (req_bytes req oid bytes) later) in
    let (a₁, there, p₁) = malloc-Plenty a p in
    let write : (req.header.op == 1) ≡ true = ground (arith, kind) in
    let fresh : WriteObjReq = record {
      header = record { op = 1; log_id = 0 };
      client_id = 0;
      req_id = 0;
      oid_size = 0;
      oid = none;
      offset = 0;
      length = 0;
      data_ = none;
    } in
    let r = write_obj_req_recv-first req oid bytes later f fresh s₁ a₁ refl refl clear₁ p₁ left₁ in
    record {
      inbox = r.inbox;
      alloc = r.alloc;
      returned = rw (read_msg, head, write, there, r.returned) refl;
      clear = r.clear;
      left = r.left;
      plenty = r.plenty;
    }
read_msg-HasRead m id stack later s a (acknowledgement ack kind log f) c p e =
    let (s₁, head, clear₁, left₁) =
      msg_header_recv-first ack.header stack (ack_bytes ack ++ later) s (omega (arith, kind)) log c
        (e ∙ append_assoc (header_bytes ack.header) (ack_bytes ack) later) in
    let (a₁, there, p₁) = malloc-Plenty a p in
    let other : (ack.header.op == 1) ≡ false = ground (arith, kind) in
    let write : (ack.header.op == 2) ≡ true = ground (arith, kind) in
    let fresh : WriteObjAck = record {
      header = record { op = 2; log_id = 0 };
      client_id = 0;
      req_id = 0;
      result = 0;
    } in
    let (s₂, got, clear₂, left₂) = write_obj_ack_recv-first ack fresh later s₁ f clear₁ left₁ in
    record {
      inbox = s₂;
      alloc = a₁;
      returned = rw (read_msg, head, other, write, there, got) refl;
      clear = clear₂;
      left = left₂;
      plenty = p₁;
    }

-- A round of the loop of `start_epoll` that hands over a message.
pub record Handed (m : Messenger) (id fd : ℤ) (epoll : Bool) (got : Msg) (later : List ℕ)
    (r : Exit Round) : Type 0 where
  pub inbox : Inbox
  pub alloc : Alloc
  pub returned :
      r
      ≡ returns (record {
        turn = processes id got;
        messenger = arm epoll fd (record m { armed = without_fd fd m.armed });
        inbox = inbox;
        alloc = alloc;
      })
  pub clear : Clear inbox
  pub left : stream inbox ≡ later
  pub plenty : Plenty alloc

pub poll_round-Handed :
    {msg got : Msg} {bytes : List ℕ} (m : Messenger) (event : EpollEvent) (w : World)
    (c : Connection) (later : List ℕ)
    → Sendable msg bytes got
    → get_conn_by_fd m event.fd ≡ some c
    → is_conn_err event ≡ false
    → int_eq event.fd m.wake_fd ≡ false
    → Clear w.inbox
    → Plenty w.alloc
    → stream w.inbox ≡ bytes ++ later
    → Handed m c.id event.fd w.epoll got later (poll_round m event w)
unfolding poll_round get_conn_by_fd
poll_round-Handed m event w c later s there fine other clear p e =
    let shot : Messenger = record m { armed = without_fd event.fd m.armed } in
    let r = read_msg-HasRead shot c.id w.stack later w.inbox w.alloc s clear p e in
    record {
      inbox = r.inbox;
      alloc = r.alloc;
      returned = rw (poll_round, there, fine, other, r.returned, never w.epoll) refl;
      clear = r.clear;
      left = r.left;
      plenty = r.plenty;
    }

-- A write request or an acknowledgement that fits its fields is written whole, with result 0, to a
-- socket that takes all the bytes. However its bytes are cut into segments, and whatever comes behind
-- them, a round of `start_epoll` for a readable connection of the list without an error reads the same
-- message, where no allocation fails; it hands it to `msg_process` with the number of the
-- connection, leaves what came behind, keeps the list, and waits for the connection again if
-- `epoll_ctl` succeeds.
pub poll_round-write_message :
    {msg got : Msg} {bytes : List ℕ} (o : Out) (m : Messenger) (event : EpollEvent) (w : World)
    (c : Connection) (later : List ℕ)
    → Sendable msg bytes got
    → AllWhole o.outcomes
    → get_conn_by_fd m event.fd ≡ some c
    → is_conn_err event ≡ false
    → int_eq event.fd m.wake_fd ≡ false
    → Clear w.inbox
    → Plenty w.alloc
    → stream w.inbox ≡ bytes ++ later
    → Written o bytes (write_message o msg)
      × Handed m c.id event.fd w.epoll got later (poll_round m event w)
poll_round-write_message o m event w c later s a there fine other clear p e =
    (write_message-Written o s a, poll_round-Handed m event w c later s there fine other clear p e)
