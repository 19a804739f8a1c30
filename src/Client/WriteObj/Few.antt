-- ===== src/Client/WriteObj/Few.antt =====
-- `cceph_client_write_obj` where no OSD can be reached.
use ceph_in_c.Base.{
  ℕ, ◌+◌, ◌/◌, ◌<◌, ◌≡◌, refl, ◌∙◌, ap, Bool, true, none, List, [], ◌∷◌, arith, leb, ltb, length,
}
use ceph_in_c.Base.Int.{negsuc, to_int}
use ceph_in_c.Base.Order.{CString}
use ceph_in_c.Base.Errno.{err_not_enough_server, returns}
use ceph_in_c.Base.Alloc.{Alloc, Plenty, malloc-Plenty}
use ceph_in_c.Message.{Msg, write_req}
use ceph_in_c.Messenger.{normal, Messenger, is_normal, get_conn_by_host_and_port, get_conn}
use ceph_in_c.Client.{Client, count_true, write_obj_send}
use ceph_in_c.Client.Quorum.{write_obj_send-list}
use ceph_in_c.Client.Sending.{Call, Sending, send_req_to_osd, send_all}
use ceph_in_c.Client.WriteObj.{
  Process, client_normal, is_client_normal, filled_req, successes, client_write_obj,
}
use ceph_in_c.Client.WriteObj.Sent.{new_req, write_obj_req_new-Plenty}

-- No OSD is connected, and `connect` returns -1 for each.
abbrev pub NoneReachable : Messenger → List Call → Type 0
NoneReachable m [] = Unit
NoneReachable m (call ∷ calls) =
    ((0 < call.port)
      × (call.dial.ret ≡ negsuc 0)
      × (get_conn_by_host_and_port m call.host call.port ≡ none))
    × NoneReachable m calls

-- Each send returned -1 and left its socket alone.
abbrev pub failures : Messenger → List Call → Alloc → List Sending
failures m [] a = []
failures m (call ∷ calls) a =
    record { code = negsuc 0; messenger = m; out = call.out; alloc = a } ∷ failures m calls a

send_req_to_osd-unreachable :
    (m : Messenger) (msg : Msg) (call : Call) (a : Alloc)
    → m.state ≡ normal
    → 0 < call.port
    → call.dial.ret ≡ negsuc 0
    → get_conn_by_host_and_port m call.host call.port ≡ none
    → send_req_to_osd m msg call a
      ≡ returns (record { code = negsuc 0; messenger = m; out = call.out; alloc = a })
unfolding send_req_to_osd get_conn to_int
send_req_to_osd-unreachable m msg call a runs port failed absent =
    let norm : is_normal m.state ≡ true = ap is_normal runs in
    let open_port : ltb 0 call.port ≡ true = ground arith in
    let dialled : get_conn m call.host call.port call.dial call.garbage call.epoll a
        ≡ returns (negsuc 0, m, a) =
      rw (get_conn, norm, open_port, absent, failed) refl in
    rw (send_req_to_osd, dialled) refl

send_all-unreachable :
    (m : Messenger) (msg : Msg) (calls : List Call) (a : Alloc)
    → m.state ≡ normal
    → NoneReachable m calls
    → send_all m msg calls a ≡ returns (failures m calls a, m, a)
unfolding send_all
send_all-unreachable m msg [] a runs reach = refl
send_all-unreachable m msg (call ∷ calls) a runs ((port, failed, absent), reach) =
    rw
      (
        send_req_to_osd-unreachable m msg call a runs port failed absent,
        send_all-unreachable m msg calls a runs reach,
      )
      refl

count-failures :
    (m : Messenger) (calls : List Call) (a : Alloc)
    → count_true (successes (failures m calls a)) ≡ 0
count-failures m [] a = refl
count-failures m (call ∷ calls) a = count-failures m calls a

-- Where no send succeeded, the request is taken off the list again.
write_obj_send-none :
    (c : Client) (address : ℕ) (sent : List Bool)
    → count_true sent ≡ 0
    → write_obj_send c address sent
      ≡ returns (err_not_enough_server, record c { req_id = c.req_id + 1 })
write_obj_send-none c address sent zero_ =
    let few : leb 0 (length sent / 2) ≡ true = ground arith in
    write_obj_send-list c address sent ∙ rw (zero_, few) refl

-- A client that runs writes an object where no allocation fails, but none of the OSDs is connected or can be
-- connected to; the map may have no OSD at all. The call returns CCEPH_ERR_NOT_ENOUGH_SERVER without
-- a wait; nothing was sent, and the list of requests and the messenger are as before, but the number of the
-- request is used up.
pub client_write_obj-unreachable :
    (p : Process) (address log_id : ℕ) (oid : CString) (offset size : ℕ) (bytes : List ℕ)
    (calls : List Call) (a : Alloc)
    → p.state ≡ client_normal
    → p.messenger.state ≡ normal
    → Plenty a
    → NoneReachable p.messenger calls
    → (rest : Alloc) × (client_write_obj p address log_id oid offset size bytes calls a
        ≡ returns (
          err_not_enough_server,
          record p { client = record (p.client) { req_id = p.client.req_id + 1 } },
          failures p.messenger calls rest,
          rest,
        ))
unfolding client_write_obj
client_write_obj-unreachable p address log_id oid offset size bytes calls a live runs plenty reach =
    let normal_ : is_client_normal p.state ≡ true = ap is_client_normal live in
    let (a₁, made, p₁) = write_obj_req_new-Plenty a plenty in
    let (a₂, there, p₂) = malloc-Plenty a₁ p₁ in
    let req = filled_req p.client log_id oid offset size bytes new_req in
    let sent = send_all-unreachable p.messenger (write_req req) calls a₂ runs reach in
    let told =
      write_obj_send-none p.client address (successes (failures p.messenger calls a₂))
        (count-failures p.messenger calls a₂) in
    (a₂, rw (client_write_obj, normal_, made, there, sent, told) refl)
