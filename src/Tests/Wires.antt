-- ===== src/Tests/Wires.antt =====
-- Sockets, messages and messengers at concrete inputs.
use ceph_in_c.Base.{
  ℕ, ◌<◌, ◌≤◌, ◌≡◌, refl, ap, true, false, none, some, List, [], ◌∷◌, ◌++◌, arith, inl, take, ◌==◌,
  if◌then◌else◌,
}
use ceph_in_c.Base.Int.{pos, negsuc, to_int}
use ceph_in_c.Base.Order.{CString}
use ceph_in_c.Base.Errno.{ok, err_conn_not_found, returns}
use ceph_in_c.Base.Alloc.{malloc}
use ceph_in_c.Io.{part, Out, send_int8, send_int, Inbox, segment, again}
use ceph_in_c.Io.Bytes.{stream, Clear, Received, recv_loop-Received}
use ceph_in_c.Io.Send.{Written, send_int-part}
use ceph_in_c.Message.{WriteObjReq, WriteObjAck, write_obj_req_send, write_obj_req_recv, write_req}
use ceph_in_c.Message.RoundTrip.{header_bytes, req_bytes, Fits}
use ceph_in_c.Message.Request.{received, Arrived, write_obj_req_recv-write_obj_req_send}
use ceph_in_c.Message.Ack.{AckFits}
use ceph_in_c.Messenger.{
  Connection, normal, Messenger, find_conn, get_conn_by_id, get_conn_by_fd, close_conn, add_conn,
}
use ceph_in_c.Messenger.Talk.{write_message}
use ceph_in_c.Messenger.Poll.{EpollEvent, World, poll_round}
use ceph_in_c.Messenger.Life.{all_are}
use ceph_in_c.Messenger.Lifecycle.{Lived, messenger_life}
use ceph_in_c.Messenger.Numbers.{Numbered, close_conn-find}
use ceph_in_c.Messenger.Adding.{Added, add_conn-Added}
use ceph_in_c.Messenger.Reach.{Reach, start, next, adds, Reach-found}
use ceph_in_c.Messenger.Delivery.{request, Handed, poll_round-write_message}

-- Bytes that come one by one, with an EAGAIN behind each.
abbrev pub cut : List ℕ → Inbox
cut [] = []
cut (b ∷ bs) = segment b [] ∷ again ∷ cut bs

pub stream-cut : (bs : List ℕ) → stream (cut bs) ≡ bs
stream-cut [] = refl
stream-cut (b ∷ bs) = ap (λ xs. b ∷ xs) (stream-cut bs)

pub cut-Clear : (bs : List ℕ) → Clear (cut bs)
cut-Clear [] = tt
cut-Clear (b ∷ bs) = cut-Clear bs

recv_loop-Received_example : Received 3 0 (cut (7 ∷ 8 ∷ 9 ∷ 10 ∷ []))
recv_loop-Received_example =
    recv_loop-Received 3 0 (cut (7 ∷ 8 ∷ 9 ∷ 10 ∷ [])) (omega arith)
      (cut-Clear (7 ∷ 8 ∷ 9 ∷ 10 ∷ []))

-- A socket that takes all the bytes.
abbrev pub socket : Out
socket = record { outcomes = []; wire = [] }

abbrev narrow : Out
narrow = record { outcomes = part 1 11 ∷ []; wire = [] }

send_int-part_example :
    ((send_int 4 narrow 5).0 ≡ pos 11)
    × ((send_int8 (record narrow { outcomes = part 0 11 ∷ [] }) 5).0 ≡ negsuc 0)
send_int-part_example = send_int-part 4 1 11 5 [] narrow (omega arith) (omega arith) refl

abbrev pub ack : WriteObjAck
ack = record { header = record { op = 2; log_id = 7 }; client_id = 0; req_id = 1; result = 1 }

pub ack-Fits : AckFits ack
ack-Fits = record { client_fits = omega arith; id_fits = omega arith; result_fits = omega arith }

abbrev pub oid : CString
oid = 97 ∷ 98 ∷ []

abbrev pub bytes : List ℕ
bytes = 5 ∷ 6 ∷ []

abbrev pub req : WriteObjReq
req = record {
  header = record { op = 1; log_id = 7 };
  client_id = 0;
  req_id = 1;
  oid_size = 2;
  oid = some oid;
  offset = 3;
  length = 2;
  data_ = some bytes;
}

pub req-Fits : Fits req oid bytes
req-Fits = record {
  named = refl;
  filled = refl;
  sized = refl;
  client_fits = omega arith;
  id_fits = omega arith;
  offset_fits = omega arith;
  oid_fits = omega arith;
  data_fits = omega arith;
}

abbrev blank : WriteObjReq
blank = record {
  header = record { op = 1; log_id = 0 };
  client_id = 0;
  req_id = 0;
  oid_size = 0;
  oid = none;
  offset = 0;
  length = 0;
  data_ = none;
}

write_obj_req_recv-write_obj_req_send_example :
    Written socket (req_bytes req oid bytes) (write_obj_req_send socket req)
    × Arrived
        (received req blank.header oid bytes)
        (9 ∷ [])
        (write_obj_req_recv blank (cut (req_bytes req oid bytes ++ (9 ∷ []))) [])
write_obj_req_recv-write_obj_req_send_example =
    let come = req_bytes req oid bytes ++ (9 ∷ []) in
    write_obj_req_recv-write_obj_req_send socket req blank oid bytes (9 ∷ []) (cut come) [] req-Fits
      tt refl refl (cut-Clear come) tt (stream-cut come)

abbrev pub client_conn : Connection
client_conn = record { id = pos 2; host = 97 ∷ []; port = 80; fd = pos 5; state = 0 }

-- A messenger with one connection, which has sent something.
abbrev pub messenger : Messenger
messenger = record {
  state = normal;
  thread_count = 2;
  next_conn_id = 2;
  conn_list = client_conn ∷ [];
  wake_fd = pos 3;
  armed = pos 5 ∷ [];
}

abbrev new_messenger : Messenger
new_messenger = record {
  state = normal;
  thread_count = 2;
  next_conn_id = 1;
  conn_list = [];
  wake_fd = pos 3;
  armed = [];
}

pub messenger-Numbered : Numbered messenger
messenger-Numbered = ((2, (refl, omega arith, omega arith), tt), omega arith, omega arith)

abbrev pub readable : EpollEvent
readable = record { fd = pos 5; error = false; hup = false; readable = true }

abbrev pub world_of : List ℕ → World
world_of come = record {
  inbox = cut come;
  alloc = [];
  stack = record { op = 0; log_id = 0 };
  epoll = true;
}

pub conn_there : get_conn_by_fd messenger (pos 5) ≡ some client_conn
unfolding get_conn_by_fd find_conn
conn_there = refl

pub conn_named : get_conn_by_id messenger (pos 2) ≡ some client_conn
unfolding get_conn_by_id find_conn to_int
conn_named = refl

abbrev wire_bytes : List ℕ
wire_bytes = header_bytes req.header ++ req_bytes req oid bytes

poll_round-write_message_example :
    Written socket wire_bytes (write_message socket (write_req req))
    × Handed messenger
        (pos 2)
        (pos 5)
        true
        (write_req (received req req.header oid bytes))
        (9 ∷ [])
        (poll_round messenger readable (world_of (wire_bytes ++ (9 ∷ []))))
poll_round-write_message_example =
    let come = wire_bytes ++ (9 ∷ []) in
    poll_round-write_message socket messenger readable (world_of come) client_conn (9 ∷ [])
      (request req oid bytes refl (omega arith) req-Fits) tt conn_there refl refl (cut-Clear come)
      tt (stream-cut come)

add_conn-Added_example : Added messenger (98 ∷ []) 81 (pos 6) 1 true []
add_conn-Added_example =
    add_conn-Added messenger (98 ∷ []) 81 (pos 6) 1 true [] refl messenger-Numbered (omega arith) tt

close_conn-find_example :
    ((close_conn messenger (pos 2)).0
      ≡ elim (get_conn_by_id messenger (pos 2)) [ none ↦ err_conn_not_found | some c ↦ ok ])
    × (get_conn_by_id (close_conn messenger (pos 2)).1 (pos 2)
        ≡ (if 2 == 2 then none else get_conn_by_id messenger (pos 2)))
close_conn-find_example =
    close_conn-find messenger 2 2 messenger-Numbered (omega arith) (omega arith)

added_there : add_conn new_messenger (97 ∷ []) 80 (pos 5) 0 true [] ≡ returns (pos 2, messenger, [])
unfolding add_conn malloc
added_there = refl

messenger-Reach : Reach messenger
messenger-Reach =
    next (start new_messenger refl refl)
      (adds (97 ∷ []) 80 (pos 5) 0 true [] (omega arith) added_there)

Reach-found_example :
    ((k : ℕ) × (client_conn.id ≡ pos k) × (1 < k) × (k ≤ messenger.next_conn_id))
    × (get_conn_by_id messenger client_conn.id ≡ some client_conn)
Reach-found_example = Reach-found client_conn messenger-Reach (inl refl)

stops_well : all_are 1 (take 2 (pos 1 ∷ pos 1 ∷ [])) ≡ true
unfolding all_are
stops_well = refl

joins_well : all_are 0 (take 2 (pos 0 ∷ pos 0 ∷ [])) ≡ true
unfolding all_are
joins_well = refl

messenger_life_example :
    Lived 2 3 4 0 true (pos 0 ∷ pos 0 ∷ []) (pos 1 ∷ pos 1 ∷ []) (pos 0 ∷ pos 0 ∷ []) []
messenger_life_example =
    messenger_life 2 3 4 0 true (pos 0 ∷ pos 0 ∷ []) (pos 1 ∷ pos 1 ∷ []) (pos 0 ∷ pos 0 ∷ []) [] tt
      (refl, (refl, tt)) stops_well joins_well
