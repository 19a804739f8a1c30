-- ===== src/Messenger/Talk.antt =====
-- message/messenger.c: messages are written to and read from a connection. The socket behind the
-- connection is an argument.
use ceph_in_c.Base.{ℕ, Option, none, some, List, [], ◌∷◌, ◌==◌, if◌then◌else◌}
use ceph_in_c.Base.Int.{ℤ, pos, int_eq, is_nat}
use ceph_in_c.Base.Errno.{
  Errno, ok, err_conn_not_found, err_conn_closed, err_write_conn_err, err_unknown_op, errno_code,
  Exit, returns, abort, ◌>>=◌,
}
use ceph_in_c.Base.Alloc.{Alloc}
use ceph_in_c.Io.{Out, Inbox}
use ceph_in_c.Message.{
  msg_op_write, msg_op_write_ack, msg_op_read, msg_op_read_ack, MsgHeader, WriteObjReq, WriteObjAck,
  write_obj_req_new, write_obj_ack_new, msg_header_send, write_obj_req_send, write_obj_ack_send,
  msg_header_recv, write_obj_req_recv, write_obj_ack_recv, Msg, write_req, write_ack, bare,
  header_of,
}
use ceph_in_c.Messenger.{
  conn_state_closed, Connection, Messenger, is_normal, has_id, get_conn_by_id, close_conn,
}

-- The casts of `write_message`: one to another kind of message has no defined result.
abbrev send_as_req : Out → Msg → Exit (ℤ × Out)
send_as_req o (write_req req) = write_obj_req_send o req
send_as_req o (write_ack ack) = abort
send_as_req o (bare header) = abort

abbrev send_as_ack : Out → Msg → Exit (ℤ × Out)
send_as_ack o (write_req req) = abort
send_as_ack o (write_ack ack) = write_obj_ack_send o ack
send_as_ack o (bare header) = abort

-- The switch of `write_message`. The assertions that stand for what is not implemented compare a
-- string with 0 and never fail.
abbrev send_body : ℕ → Out → Msg → Exit (ℤ × Out)
send_body op o msg =
    if op == msg_op_write
    then send_as_req o msg
    else if op == msg_op_write_ack
    then send_as_ack o msg
    else if op == msg_op_read
    then returns (pos 0, o)
    else if op == msg_op_read_ack
    then returns (pos 0, o)
    else returns (errno_code err_unknown_op, o)

unfoldable pub write_message : Out → Msg → Exit (ℤ × Out)
write_message o msg = msg_header_send o (header_of msg) >>= λ r.
    if is_nat r.0 0 then send_body (header_of msg).op r.1 msg else returns r

-- The list after `conn->state = CCEPH_CONN_STATE_CLOSED` of the connection that was found.
unfoldable pub mark_closed : ℤ → List Connection → List Connection
mark_closed id [] = []
mark_closed id (c ∷ cs) =
    let rest = mark_closed id cs in
    if has_id id c then record c { state = conn_state_closed } ∷ cs else c ∷ rest

unfoldable pub send_msg : Messenger → ℤ → Msg → Out → Exit (Errno × Messenger × Out)
unfolding write_message mark_closed
send_msg m id msg o =
    let marked : Messenger = record m { conn_list = mark_closed id m.conn_list } in
    let written = write_message o msg >>= λ r.
    if is_nat r.0 0
    then returns (ok, m, r.1)
    else returns (err_write_conn_err, (close_conn marked id).1, r.1) in
    if is_normal m.state
    then elim (get_conn_by_id m id) [
      | none ↦ returns (err_conn_not_found, m, o)
      | some c ↦ if c.state == conn_state_closed then returns (err_conn_closed, m, o) else written
    ]
    else abort

-- What a call of `cceph_messenger_read_msg` comes to: the message, or NULL, the messenger, what is left
-- to come, and the allocations.
pub record ReadMsg : Type 0 where
  pub msg : Option Msg
  pub messenger : Messenger
  pub inbox : Inbox
  pub alloc : Alloc

-- The end of `cceph_messenger_read_msg`, by the code and the message. A message that is NULL with code
-- 0 is written to.
abbrev pub read_end : Messenger → ℤ → ℤ → Option Msg → Inbox → Alloc → Exit ReadMsg
read_end m id code msg s a =
    let closed : ReadMsg = record {
      msg = none;
      messenger = (close_conn m id).1;
      inbox = s;
      alloc = a;
    } in
    let failed : ReadMsg = record { msg = none; messenger = m; inbox = s; alloc = a } in
    if int_eq code (errno_code err_conn_closed)
    then returns closed
    else if is_nat code 0
    then elim msg [
      | none ↦ abort
      | some x ↦ returns (record { msg = some x; messenger = m; inbox = s; alloc = a })
    ]
    else returns failed

-- The cases of the switch; the fields of the header are written at the end.
abbrev pub read_req : Messenger → ℤ → MsgHeader → Inbox → Alloc → Exit ReadMsg
read_req m id header s a = write_obj_req_new a >>= λ new. write_obj_req_recv new.0 s new.1 >>= λ r.
    let req : WriteObjReq = record r.1 { header = header } in
    read_end m id r.0 (some (write_req req)) r.2 r.3

abbrev pub read_ack : Messenger → ℤ → MsgHeader → Inbox → Alloc → Exit ReadMsg
read_ack m id header s a = write_obj_ack_new a >>= λ new.
    let r = write_obj_ack_recv new.0 s in
    let ack : WriteObjAck = record r.1 { header = header } in
    read_end m id r.0 (some (write_ack ack)) r.2 new.1

-- `stack` is what the memory of the header holds.
unfoldable pub read_msg : Messenger → ℤ → MsgHeader → Inbox → Alloc → Exit ReadMsg
read_msg m id stack s a =
    let r = msg_header_recv stack s in
    let op = r.1.op in
    if is_nat r.0 0
    then if op == msg_op_write
      then read_req m id r.1 r.2 a
      else if op == msg_op_write_ack
      then read_ack m id r.1 r.2 a
      else if op == msg_op_read
      then read_end m id (pos 0) none r.2 a
      else if op == msg_op_read_ack
      then read_end m id (pos 0) none r.2 a
      else read_end m id (errno_code err_unknown_op) none r.2 a
    else read_end m id r.0 none r.2 a
