-- ===== src/Client/WriteObj/Sent.antt =====
-- What `cceph_client_write_obj` leaves when all the OSDs can be reached.
use ceph_in_c.Base.{
  ℕ, suc, ◌+◌, ◌/◌, ◌^◌, ◌<◌, ◌≡◌, refl, ◌∙◌, ap, Bool, true, false, none, some, List, [], ◌∷◌,
  ◌++◌, arith, leb, length,
}
use ceph_in_c.Base.Order.{CString}
use ceph_in_c.Base.Errno.{ok, returns}
use ceph_in_c.Base.Alloc.{Alloc, Plenty, malloc-Plenty}
use ceph_in_c.Message.{WriteObjReq, write_req, msg_op_write, write_obj_req_new}
use ceph_in_c.Message.RoundTrip.{header_bytes, req_bytes, Fits}
use ceph_in_c.Message.Request.{received}
use ceph_in_c.Messenger.{normal, Messenger}
use ceph_in_c.Messenger.Numbers.{Numbered}
use ceph_in_c.Messenger.Delivery.{Sendable, request}
use ceph_in_c.Client.{Client, count_true, write_obj_send}
use ceph_in_c.Client.Quorum.{new_wait, write_obj_send-list}
use ceph_in_c.Client.Sending.{Call, Sending}
use ceph_in_c.Client.WriteObj.{
  Process, client_normal, is_client_normal, successes, client_write_obj,
}
use ceph_in_c.Client.WriteObj.AllSent.{AllReachable, AllWired, send_all-AllSent}

count-successes :
    (bytes : List ℕ) (calls : List Call) (ss : List Sending)
    → AllWired bytes calls ss
    → (count_true (successes ss) ≡ length calls) × (length (successes ss) ≡ length calls)
count-successes bytes [] [] w = (refl, refl)
count-successes bytes [] (s ∷ ss) w = elim w [ ]
count-successes bytes (call ∷ calls) [] w = elim w [ ]
count-successes bytes (call ∷ calls) (s ∷ ss) ((zero_, wired), w) =
    let (trues, all) = count-successes bytes calls ss w in (rw zero_ (ap suc trues), ap suc all)

abbrev pub on_list : Client → ℕ → ℕ → Client
on_list c address n = record c {
  req_id = c.req_id + 1;
  wait_req_list = new_wait address (c.req_id + 1) n ∷ c.wait_req_list;
}

-- Where every send succeeded and there is an OSD, the request goes on the list.
write_obj_send-all :
    (c : Client) (address n : ℕ) (sent : List Bool)
    → 0 < n
    → count_true sent ≡ n
    → length sent ≡ n
    → write_obj_send c address sent ≡ returns (ok, on_list c address n)
write_obj_send-all c address n sent h trues all =
    let many : leb n (n / 2) ≡ false = ground arith in
    write_obj_send-list c address sent ∙ rw (trues, all, many) refl

abbrev pub new_req : WriteObjReq
new_req = record {
  header = record { op = msg_op_write; log_id = 0 };
  client_id = 0;
  req_id = 0;
  oid_size = 0;
  oid = none;
  offset = 0;
  length = 0;
  data_ = none;
}

pub write_obj_req_new-Plenty :
    (a : Alloc)
    → Plenty a
    → (a' : Alloc) × (write_obj_req_new a ≡ returns (new_req, a')) × Plenty a'
unfolding write_obj_req_new
write_obj_req_new-Plenty a p = let (a', there, p') = malloc-Plenty a p in (a', rw there refl, p')

-- The request that the OSDs should get.
abbrev pub request_of : Client → ℕ → CString → ℕ → List ℕ → WriteObjReq
request_of c log_id oid offset bytes = record {
  header = record { op = msg_op_write; log_id = log_id };
  client_id = c.client_id;
  req_id = c.req_id + 1;
  oid_size = 0;
  oid = some oid;
  offset = offset;
  length = length bytes;
  data_ = some bytes;
}

-- Numbers and sizes that fit their fields.
pub record WriteFits (c : Client) (log_id : ℕ) (oid : CString) (offset : ℕ) (bytes : List ℕ)
    : Type 0 where
  pub log_fits : log_id < 2 ^ 64
  pub client_fits : c.client_id < 2 ^ 32
  pub id_fits : c.req_id + 1 < 2 ^ 64
  pub offset_fits : offset < 2 ^ 64
  pub oid_fits : length oid < 2 ^ 15
  pub data_fits : length bytes < 2 ^ 31

abbrev pub sent_bytes : Client → ℕ → CString → ℕ → List ℕ → List ℕ
sent_bytes c log_id oid offset bytes =
    let req = request_of c log_id oid offset bytes in
    header_bytes req.header ++ req_bytes req oid bytes

-- A write that all the OSDs got: the request is on the list and waits for as many answers.
pub record Sent (p : Process) (address log_id : ℕ) (oid : CString) (offset : ℕ) (bytes : List ℕ)
    (calls : List Call) (a : Alloc) : Type 0 where
  pub sendings : List Sending
  pub after : Messenger
  pub rest : Alloc
  pub returned :
      client_write_obj p address log_id oid offset (length bytes) bytes calls a
      ≡ returns (
        ok,
        record p { client = on_list p.client address (length calls); messenger = after },
        sendings,
        rest,
      )
  pub wired : AllWired (sent_bytes p.client log_id oid offset bytes) calls sendings
  pub counted : after.next_conn_id ≡ p.messenger.next_conn_id + length calls

module _ (p : Process) (address log_id : ℕ) (oid : CString) (offset : ℕ) (bytes : List ℕ)
    (calls : List Call) (a : Alloc) where
  request_of-Sendable :
      WriteFits p.client log_id oid offset bytes
      → Sendable
          (write_req (request_of p.client log_id oid offset bytes))
          (sent_bytes p.client log_id oid offset bytes)
          (write_req (
            received
              (request_of p.client log_id oid offset bytes)
              (record { op = msg_op_write; log_id = log_id })
              oid
              bytes))
  request_of-Sendable f =
      let fits : Fits (request_of p.client log_id oid offset bytes) oid bytes = record {
        named = refl;
        filled = refl;
        sized = refl;
        client_fits = f.client_fits;
        id_fits = f.id_fits;
        offset_fits = f.offset_fits;
        oid_fits = f.oid_fits;
        data_fits = f.data_fits;
      } in
      request (request_of p.client log_id oid offset bytes) oid bytes refl f.log_fits fits

  pub client_write_obj-Sent :
      p.state ≡ client_normal
      → p.messenger.state ≡ normal
      → Numbered p.messenger
      → p.messenger.next_conn_id + length calls < 2 ^ 31
      → Plenty a
      → 0 < length calls
      → WriteFits p.client log_id oid offset bytes
      → AllReachable p.messenger calls
      → Sent p address log_id oid offset bytes calls a
  unfolding client_write_obj
  client_write_obj-Sent live runs v h plenty some_osd f reach =
      let normal_ : is_client_normal p.state ≡ true = ap is_client_normal live in
      let (a₁, made, p₁) = write_obj_req_new-Plenty a plenty in
      let (a₂, there, p₂) = malloc-Plenty a₁ p₁ in
      let sent = send_all-AllSent p.messenger calls a₂ (request_of-Sendable f) runs v h p₂ reach in
      let (trues, all) =
        count-successes (sent_bytes p.client log_id oid offset bytes) calls sent.sendings
          sent.wired in
      let listed =
        write_obj_send-all p.client address (length calls) (successes sent.sendings) some_osd trues
          all in
      record {
        sendings = sent.sendings;
        after = sent.after;
        rest = sent.rest;
        returned = rw (client_write_obj, normal_, made, there, sent.returned, listed) refl;
        wired = sent.wired;
        counted = sent.counted;
      }
