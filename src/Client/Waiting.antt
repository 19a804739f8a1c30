-- ===== src/Client/Waiting.antt =====
-- A writer whose request gets its quorum goes on.
use ceph_in_c.Base.{ℕ, zero, suc, ◌+◌, Bool}
use ceph_in_c.Base.Errno.{Exit, returns, ◌>>=◌}
use ceph_in_c.Client.{WaitReq, Client, Ack, do_object_write_ack}

-- The same acknowledgement n times, on a connection.
unfoldable pub acks : Bool → ℕ → Client → ℕ → Ack → Exit Client
acks check zero client conn_id ack = returns client
acks check (suc n) client conn_id ack =
    do_object_write_ack check client conn_id ack >>= λ r. acks check n r.1 conn_id ack

abbrev set_count : WaitReq → ℕ → WaitReq
set_count w k = record w { ack_count = k }

abbrev count_acks : ℕ → WaitReq → WaitReq
count_acks n w = set_count w (w.ack_count + n)
