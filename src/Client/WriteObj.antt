-- ===== src/Client/WriteObj.antt =====
-- client/client.c: a client is made and started, and writes an object.
pub mod AllSent
pub mod Sent
pub mod Answered
pub mod Ready
pub mod Few
use ceph_in_c.Base.{ℕ, ◌+◌, Bool, true, false, Option, none, some, List, [], ◌∷◌, if◌then◌else◌}
use ceph_in_c.Base.Int.{ℤ, is_nat}
use ceph_in_c.Base.Order.{CString}
use ceph_in_c.Base.Errno.{Errno, Exit, returns, abort, ◌>>=◌}
use ceph_in_c.Base.Alloc.{Alloc, malloc}
use ceph_in_c.Message.{MsgHeader, WriteObjReq, Msg, write_req, write_obj_req_new}
use ceph_in_c.Messenger.{Messenger}
use ceph_in_c.Messenger.Life.{Pipe, messenger_new, messenger_start}
use ceph_in_c.Client.{Client, write_obj_send}
use ceph_in_c.Client.Sending.{Call, Sending, send_all}

-- CCEPH_CLIENT_STATE_*
pub data ClientState : Type 0 where
  client_unknown client_normal client_destory : ClientState

abbrev pub is_client_normal : ClientState → Bool
is_client_normal client_normal = true
is_client_normal _ = false

-- `cceph_client` with its messenger and its state.
pub record Process : Type 0 where
  pub client : Client
  pub messenger : Messenger
  pub state : ClientState

-- `cceph_client_new`; `memory` is what the fields hold that are not written yet.
unfoldable pub client_new : ℕ → Client → Pipe → ℤ → Alloc → Exit (Option Process × Alloc)
unfolding messenger_new
client_new thread_count memory pipe epoll a =
    let (there, a₁) = malloc a in
    let made = messenger_new thread_count pipe epoll a₁ >>= λ r. elim r.1 [
      | none ↦ returns (none, r.2)
      | some m ↦
          returns (some (record { client = memory; messenger = m; state = client_unknown }), r.2)
    ] in
    if there then made else returns (none, a₁)

-- `cceph_client_init`
unfoldable pub client_init : Process → ℕ → Bool → List ℤ → Alloc → Exit (ℤ × Process × Alloc)
unfolding messenger_start
client_init p garbage epoll threads a = messenger_start p.messenger garbage epoll threads a >>= λ r.
    let filled : Process = record p {
      client = record { client_id = 0; req_id = 0; wait_req_list = [] };
      messenger = r.1;
    } in
    returns (r.0, if is_nat r.0 0 then record filled { state = client_normal } else filled, r.2)

-- The request that `cceph_client_write_obj` fills.
abbrev pub filled_req : Client → ℕ → CString → ℕ → ℕ → List ℕ → WriteObjReq → WriteObjReq
filled_req c log_id oid offset length bytes new = record new {
  header = record (new.header) { log_id = log_id };
  client_id = c.client_id;
  req_id = c.req_id + 1;
  oid = some oid;
  offset = offset;
  length = length;
  data_ = some bytes;
}

-- What the loop counts.
abbrev pub successes : List Sending → List Bool
successes [] = []
successes (s ∷ ss) = is_nat s.code 0 ∷ successes ss

-- `cceph_client_write_obj` up to the wait. The entry of the list, whose memory is written without a look
-- at what `malloc` returned, is added before the sends; `address` is that of the request.
unfoldable pub client_write_obj :
    Process
    → ℕ
    → ℕ
    → CString
    → ℕ
    → ℕ
    → List ℕ
    → List Call
    → Alloc
    → Exit (Errno × Process × List Sending × Alloc)
unfolding write_obj_req_new send_all write_obj_send
client_write_obj p address log_id oid offset length bytes calls a =
    let write : WriteObjReq → Alloc → Exit (Errno × Process × List Sending × Alloc) = λ new a'.
      send_all p.messenger (write_req (filled_req p.client log_id oid offset length bytes new))
        calls a'
      >>= λ s. write_obj_send p.client address (successes s.0) >>= λ w.
          returns (w.0, record p { client = w.1; messenger = s.1 }, s.0, s.2) in
    let body = write_obj_req_new a >>= λ n.
    let (there, a₁) = malloc n.1 in if there then write n.0 a₁ else abort in
    if is_client_normal p.state then body else abort
