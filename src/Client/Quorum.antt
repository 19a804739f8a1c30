-- ===== src/Client/Quorum.antt =====
-- The client over any interleaving of its writers and of the acknowledgements.
use ceph_in_c.Base.{
  ℕ, suc, ◌+◌, ◌/◌, ◌≤◌, ◌≡◌, Bool, List, [], ◌∷◌, arith, leb, ◌==◌, inl, inr, Bool-cases, length,
  if◌then◌else◌,
}
use ceph_in_c.Base.Errno.{Errno, ok, err_not_enough_server, Exit, returns, abort}
use ceph_in_c.Client.{
  WaitReq, Client, Ack, client_process_message, add_req_to_wait_list, remove_req_from_wait_list,
  without_req, is_req_finished, write_obj_send, count_true,
}

-- A step of one thread, under the lock: a message of a connection, the start of a write with what
-- its sends came to, or a look of a waiting writer at its request.
pub data Event : Type 0 where
  received : ℕ → ℕ → Ack → Event
  sends : ℕ → List Bool → Event
  looks : ℕ → Event

pub data Step (check : Bool) (c : Client) : Event → Client → Type 0 where
  receives :
      (conn_id op : ℕ) (ack : Ack) {err : Errno} {c' : Client} {s : Bool}
      → client_process_message check c conn_id op ack ≡ returns (err, c', s)
      → Step check c (received conn_id op ack) c'
  writes :
      (req : ℕ) (sent : List Bool) {err : Errno} {c' : Client}
      → write_obj_send c req sent ≡ returns (err, c')
      → Step check c (sends req sent) c'
  waits : (req : ℕ) → Step check c (looks req) (is_req_finished c req).1

-- The states that a client reaches from its start, with the events on the way, the last one first.
pub data Reach (check : Bool) : List Event → Client → Type 0 where
  start : (id : ℕ) → Reach check [] (record { client_id = id; req_id = 0; wait_req_list = [] })
  next :
      {es : List Event} {c c' : Client} (e : Event)
      → Reach check es c
      → Step check c e c'
      → Reach check (e ∷ es) c'

-- The acknowledgements of a request among the events.
abbrev pub acks_for : ℕ → List Event → ℕ
acks_for id [] = 0
acks_for id (received conn_id op ack ∷ es) =
    if ack.req_id == id then suc (acks_for id es) else acks_for id es
acks_for id (sends req sent ∷ es) = acks_for id es
acks_for id (looks req ∷ es) = acks_for id es

-- Every waiting request has at most as many acknowledgements as came for its number, and no
-- commit.
abbrev pub Counted : (ℕ → ℕ) → List WaitReq → Type 0
Counted f [] = Unit
Counted f (w ∷ ws) = ((w.ack_count ≤ f w.write_req_id) × (w.commit_count ≡ 0)) × Counted f ws

Counted-without :
    (f : ℕ → ℕ) (req : ℕ) (ws : List WaitReq) → Counted f ws → Counted f (without_req req ws)
unfolding without_req
Counted-without f req [] c = tt
Counted-without f req (w ∷ ws) c = elim (Bool-cases (w.req == req)) [
  | inl y ↦ rw (without_req, y) c.1
  | inr n ↦ rw (without_req, n) (c.0, Counted-without f req ws c.1)
]

abbrev client_of : Client → Exit (Errno × Client × Bool) → Client
client_of c abort = c
client_of c (returns r) = r.1

abbrev pub new_wait : ℕ → ℕ → ℕ → WaitReq
new_wait req id count = record {
  req = req;
  op = 1;
  write_req_id = id;
  ack_count = 0;
  commit_count = 0;
  req_count = count;
}

-- The start of a write always returns. Where at most half of the sends succeeded it returns
-- CCEPH_ERR_NOT_ENOUGH_SERVER and the list is as it was; otherwise it returns CCEPH_OK and the
-- request is on the list, with the next number and without acknowledgements.
pub write_obj_send-list :
    (c : Client) (req : ℕ) (sent : List Bool)
    → write_obj_send c req sent ≡ (
        if leb (count_true sent) (length sent / 2)
        then returns (err_not_enough_server, record c { req_id = c.req_id + 1 })
        else returns (
          ok,
          record c {
            req_id = c.req_id + 1;
            wait_req_list = new_wait req (c.req_id + 1) (length sent) ∷ c.wait_req_list;
          },
        ))
unfolding write_obj_send add_req_to_wait_list remove_req_from_wait_list without_req
write_obj_send-list c req sent = elim (Bool-cases (leb (count_true sent) (length sent / 2))) [
  | inl y ↦ ground (arith, y)
  | inr n ↦ ground (arith, n)
]

abbrev sent_client : Client → Exit (Errno × Client) → Client
sent_client c abort = c
sent_client c (returns r) = r.1
