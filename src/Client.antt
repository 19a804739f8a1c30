-- ===== src/Client.antt =====
-- client/client.c: the requests that wait for their acknowledgements. Each function holds
-- `wait_req_lock` while it looks at the list, so calls of several threads run one after another.
-- Whether a message could be sent is an input; a request is named by its address.
pub mod Counting
pub mod Finish
pub mod Quorum
pub mod Waiting
pub mod Sending
pub mod WriteObj
use ceph_in_c.Base.{
  ℕ, suc, ◌+◌, ◌/◌, Bool, true, false, ◌&&◌, Option, none, some, List, [], ◌∷◌, ltb, leb, ◌==◌,
  length, if◌then◌else◌,
}
use ceph_in_c.Message.{msg_op_write, msg_op_write_ack}
use ceph_in_c.Base.Errno.{
  Errno, ok, err_unknown_op, err_not_enough_server, err_wrong_client_id, Exit, returns, abort,
  ◌>>=◌,
}

-- `cceph_client_wait_req`, with the operation and the number of the request behind `req`.
pub record WaitReq : Type 0 where
  pub req : ℕ
  pub op : ℕ
  pub write_req_id : ℕ
  pub ack_count : ℕ
  pub commit_count : ℕ
  pub req_count : ℕ

-- `cceph_client`, what of it is used here: `req_id` is the counter.
pub record Client : Type 0 where
  pub client_id : ℕ
  pub req_id : ℕ
  pub wait_req_list : List WaitReq

-- `cceph_msg_write_obj_ack`; its field `result` is not read.
pub record Ack : Type 0 where
  pub client_id : ℕ
  pub req_id : ℕ

-- The request that the loop of `do_object_write_ack` looks for.
abbrev pub is_acked : ℕ → WaitReq → Bool
is_acked id w = (w.op == msg_op_write) && (w.write_req_id == id)

abbrev pub count_ack : WaitReq → WaitReq
count_ack w = record w { ack_count = w.ack_count + 1 }

-- The loop of `do_object_write_ack`: whether a request was found before, and what `wait_req` is;
-- then both afterwards, and the list. Without the check for duplicates it ends at the first match.
unfoldable pub ack_loop :
    Bool → Bool → Option WaitReq → ℕ → List WaitReq → Bool × Option WaitReq × List WaitReq
ack_loop check found wait_req id [] = (found, wait_req, [])
ack_loop check found wait_req id (w ∷ ws) =
    let passed = ack_loop check found (some w) id ws in
    let counted = ack_loop check true (some (count_ack w)) id ws in
    if is_acked id w
    then if found
      then (passed.0, passed.1, w ∷ passed.2)
      else if check
      then (counted.0, counted.1, count_ack w ∷ counted.2)
      else (true, some (count_ack w), count_ack w ∷ ws)
    else (passed.0, passed.1, w ∷ passed.2)

-- More than half of the servers have acknowledged.
abbrev pub has_quorum : WaitReq → Bool
has_quorum w = ltb (w.req_count / 2) w.ack_count

-- `do_object_write_ack`; `check` is the option client_debug_check_duplicate_req_when_ack. The last
-- result tells whether the condition is signalled.
unfoldable pub do_object_write_ack : Bool → Client → ℕ → Ack → Exit (Errno × Client × Bool)
do_object_write_ack check client conn_id ack =
    let loop = ack_loop check false none ack.req_id client.wait_req_list in
    let after = record client { wait_req_list = loop.2 } in
    if ltb 0 conn_id
    then if ack.client_id == client.client_id
      then if loop.0
        then elim loop.1 [ none ↦ abort | some w ↦ returns (ok, after, has_quorum w) ]
        else returns (ok, after, false)
      else returns (err_wrong_client_id, client, false)
    else abort

-- `client_process_message`
unfoldable pub client_process_message : Bool → Client → ℕ → ℕ → Ack → Exit (Errno × Client × Bool)
client_process_message check client conn_id op ack =
    if op == msg_op_write_ack
    then do_object_write_ack check client conn_id ack
    else returns (err_unknown_op, client, false)

unfoldable pub add_req_to_wait_list : Client → ℕ → ℕ → ℕ → Client
add_req_to_wait_list client req write_req_id req_count = record client {
  wait_req_list =
      record {
        req = req;
        op = msg_op_write;
        write_req_id = write_req_id;
        ack_count = 0;
        commit_count = 0;
        req_count = req_count;
      }
      ∷ client.wait_req_list;
}

-- The list without the first entry of the request.
unfoldable pub without_req : ℕ → List WaitReq → List WaitReq
without_req req [] = []
without_req req (w ∷ ws) = let rest = without_req req ws in if w.req == req then ws else w ∷ rest

-- `remove_req_from_wait_list`: at its end the request behind `wait_req` is printed, which is NULL
-- where the list is empty.
unfoldable pub remove_req_from_wait_list : Client → ℕ → Exit Client
remove_req_from_wait_list client req = elim client.wait_req_list [
  | [] ↦ abort
  | w ∷ ws ↦ returns (record client { wait_req_list = without_req req client.wait_req_list })
]

-- The loop of `is_req_finished`, and the list without the entry that it returns.
unfoldable pub finished_loop : ℕ → List WaitReq → Option WaitReq × List WaitReq
finished_loop req [] = (none, [])
finished_loop req (w ∷ ws) =
    let rest = finished_loop req ws in
    if w.req == req
    then if ltb 0 w.commit_count
      then (some w, ws)
      else if has_quorum w
      then (some w, ws)
      else (rest.0, w ∷ rest.1)
    else (rest.0, w ∷ rest.1)

unfoldable pub is_req_finished : Client → ℕ → Option WaitReq × Client
is_req_finished client req =
    let loop = finished_loop req client.wait_req_list in
    (loop.0, record client { wait_req_list = loop.1 })

-- The loop of `wait_for_req`: the client as it is at each look of the writer, under the lock, at the start
-- of a round and after the condition was signalled. Without a result the writer still waits.
unfoldable pub wait_for_req : ℕ → List Client → Option (WaitReq × Client)
unfolding is_req_finished
wait_for_req req [] = none
wait_for_req req (c ∷ cs) =
    let look = is_req_finished c req in
    let rest = wait_for_req req cs in elim look.0 [ some w ↦ some (w, look.1) | none ↦ rest ]

abbrev pub count_true : List Bool → ℕ
count_true [] = 0
count_true (b ∷ bs) = if b then suc (count_true bs) else count_true bs

-- `cceph_client_write_obj` up to the wait: the request at the address `req` gets the next number,
-- goes on the list and is sent to each server; `sent` has what the sends came to. On CCEPH_OK the
-- caller goes on to wait for the request.
unfoldable pub write_obj_send : Client → ℕ → List Bool → Exit (Errno × Client)
write_obj_send client req sent =
    let id = client.req_id + 1 in
    let added = add_req_to_wait_list (record client { req_id = id }) req id (length sent) in
    let removed = remove_req_from_wait_list added req in
    if leb (count_true sent) (length sent / 2)
    then (removed >>= λ c. returns (err_not_enough_server, c))
    else returns (ok, added)
