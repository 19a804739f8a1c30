-- ===== src/Client/Sending.antt =====
-- client/client.c: a request is sent to each OSD, on a connection that is made where there is none.
use ceph_in_c.Base.{
  ℕ, ◌+◌, ◌^◌, ◌<◌, ◌≡◌, refl, ◌∙◌, ap, Bool, true, false, none, some, List, [], ◌∷◌, ◌++◌, arith,
  ltb, ◌==◌, if◌then◌else◌,
}
use ceph_in_c.Base.Int.{ℤ, pos, is_neg, to_int}
use ceph_in_c.Base.Order.{CString}
use ceph_in_c.Base.Errno.{ok, errno_code, Exit, returns, ◌>>=◌}
use ceph_in_c.Base.Alloc.{Alloc, Plenty}
use ceph_in_c.Io.{Out}
use ceph_in_c.Io.Send.{AllWhole}
use ceph_in_c.Message.{Msg}
use ceph_in_c.Messenger.{
  Connection, normal, Messenger, is_normal, get_conn_by_id, get_conn_by_host_and_port, Dial,
  get_conn,
}
use ceph_in_c.Messenger.Talk.{send_msg}
use ceph_in_c.Messenger.Numbers.{Numbered}
use ceph_in_c.Messenger.Adding.{Added, add_conn-Added}
use ceph_in_c.Messenger.Sends.{send_msg_lem}
use ceph_in_c.Messenger.Delivery.{Sendable, write_message-Written}

-- What the calls for one OSD meet: those that connect, the memory of a new connection, and the socket.
pub record Call : Type 0 where
  pub host : CString
  pub port : ℕ
  pub dial : Dial
  pub garbage : ℕ
  pub epoll : Bool
  pub out : Out

pub record Sending : Type 0 where
  pub code : ℤ
  pub messenger : Messenger
  pub out : Out
  pub alloc : Alloc

-- `send_req_to_osd`; the host of an OSD of the map is never NULL.
unfoldable pub send_req_to_osd : Messenger → Msg → Call → Alloc → Exit Sending
unfolding get_conn send_msg
send_req_to_osd m msg call a =
    get_conn m call.host call.port call.dial call.garbage call.epoll a >>= λ g.
    let failed : Sending = record {
      code = to_int g.0;
      messenger = g.1;
      out = call.out;
      alloc = g.2;
    } in
    let sent = send_msg g.1 g.0 msg call.out >>= λ s.
    returns (record { code = errno_code s.0; messenger = s.1; out = s.2; alloc = g.2 }) in
    if is_neg g.0 then returns failed else sent

-- The loop of `cceph_client_write_obj` over the OSDs of the map: what each of the sends leaves.
unfoldable pub send_all :
    Messenger → Msg → List Call → Alloc → Exit (List Sending × Messenger × Alloc)
unfolding send_req_to_osd
send_all m msg [] a = returns ([], m, a)
send_all m msg (call ∷ calls) a = send_req_to_osd m msg call a >>= λ r.
    send_all r.messenger msg calls r.alloc >>= λ rest. returns (r ∷ rest.0, rest.1, rest.2)

-- A message that was sent to an OSD.
pub record Reached (m : Messenger) (bytes : List ℕ) (call : Call) (rest : Alloc) (r : Exit Sending)
    : Type 0 where
  pub out : Out
  pub returned : r ≡ returns (record { code = pos 0; messenger = m; out = out; alloc = rest })
  pub wired : out.wire ≡ call.out.wire ++ bytes
  pub still : AllWhole out.outcomes

-- What is sent on a connection that is open.
sends_on :
    {msg got : Msg} {bytes : List ℕ} (m : Messenger) (id : ℤ) (c : Connection) (o : Out)
    → Sendable msg bytes got
    → m.state ≡ normal
    → get_conn_by_id m id ≡ some c
    → (c.state == 2) ≡ false
    → AllWhole o.outcomes
    → (o' : Out) × (send_msg m id msg o ≡ returns (ok, m, o'))
      × (o'.wire ≡ o.wire ++ bytes)
      × AllWhole o'.outcomes
sends_on {msg} m id c o s runs found fine a =
    let w = write_message-Written o s a in
    (w.out, send_msg_lem m id msg o runs ∙ rw (found, fine, w.returned) refl, w.wired, w.still)

-- A message that fits is sent to an OSD whose connection is on the list, open and found by its number: the
-- call returns 0 without a new connection, the messenger stays as it is, and the whole message is on
-- the socket.
pub send_req_to_osd-again :
    {msg got : Msg} {bytes : List ℕ} (m : Messenger) (call : Call) (a : Alloc) (c : Connection)
    (k : ℕ)
    → Sendable msg bytes got
    → m.state ≡ normal
    → 0 < call.port
    → get_conn_by_host_and_port m call.host call.port ≡ some c
    → c.id ≡ pos k
    → get_conn_by_id m (pos k) ≡ some c
    → (c.state == 2) ≡ false
    → AllWhole call.out.outcomes
    → Reached m bytes call a (send_req_to_osd m msg call a)
unfolding send_req_to_osd get_conn
send_req_to_osd-again m call a c k s runs port at named found fine whole =
    let norm : is_normal m.state ≡ true = ap is_normal runs in
    let open_port : ltb 0 call.port ≡ true = ground arith in
    let (o', sent, wired, still) = sends_on m (pos k) c call.out s runs found fine whole in
    record {
      out = o';
      returned = rw (send_req_to_osd, get_conn, norm, open_port, at, named, sent) refl;
      wired = wired;
      still = still;
    }

-- A message that fits is sent to an OSD without a connection, where it can be connected to, no
-- allocation fails and fewer than 2 ^ 31 connections were made: a connection with the next number is
-- added and found by the address. Where its memory does not happen to hold CCEPH_CONN_STATE_CLOSED, the
-- call returns 0 and the whole message is on the socket.
pub send_req_to_osd-fresh :
    {msg got : Msg} {bytes : List ℕ} (m : Messenger) (call : Call) (a : Alloc)
    → Sendable msg bytes got
    → m.state ≡ normal
    → 0 < call.port
    → get_conn_by_host_and_port m call.host call.port ≡ none
    → call.dial.ret ≡ pos 0
    → Numbered m
    → m.next_conn_id + 1 < 2 ^ 31
    → Plenty a
    → (call.garbage == 2) ≡ false
    → AllWhole call.out.outcomes
    → (added : Added m call.host call.port call.dial.fd call.garbage call.epoll a) × Reached
        added.after bytes call added.rest
        (send_req_to_osd m msg call a)
unfolding send_req_to_osd get_conn
send_req_to_osd-fresh m call a s runs port absent dialled v h p fine whole =
    let added =
      add_conn-Added m call.host call.port call.dial.fd call.garbage call.epoll a runs v h p in
    let norm : is_normal m.state ≡ true = ap is_normal runs in
    let open_port : ltb 0 call.port ≡ true = ground arith in
    let n = m.next_conn_id + 1 in
    let self : (n == n) ≡ true = ground arith in
    let nonzero : (n == 0) ≡ false = ground arith in
    let made : Connection = record {
      id = pos n;
      host = call.host;
      port = call.port;
      fd = call.dial.fd;
      state = call.garbage;
    } in
    let found : get_conn_by_id added.after (pos n) ≡ some made = added.found n h ∙ rw self refl in
    let (o', sent, wired, still) =
      sends_on added.after (pos n) made call.out s added.runs found fine whole in
    (
      added,
      record {
        out = o';
        returned =
            rw
              (
                send_req_to_osd, get_conn, norm, open_port, absent, dialled, added.returned,
                nonzero, sent,
              )
              refl;
        wired = wired;
        still = still;
      },
    )
