-- ===== src/Tests/Clients.antt =====
-- The client of client/client.c at concrete inputs.
use ceph_in_c.Base.{◌≡◌, refl, true, [], ◌∷◌, arith}
use ceph_in_c.Base.Errno.{ok, returns}
use ceph_in_c.Client.{WaitReq, Client, Ack, has_quorum, do_object_write_ack, count_true}
use ceph_in_c.Client.Counting.{first_counted, signals, do_object_write_ack-first}

-- A request with one acknowledgement of three servers, at the address 10, and one without.
abbrev near : WaitReq
near = record { req = 10; op = 1; write_req_id = 1; ack_count = 1; commit_count = 0; req_count = 3 }

abbrev far : WaitReq
far = record { req = 20; op = 1; write_req_id = 2; ack_count = 0; commit_count = 0; req_count = 3 }

abbrev two_waiting : Client
two_waiting = record { client_id = 0; req_id = 2; wait_req_list = near ∷ far ∷ [] }

abbrev near_ack : Ack
near_ack = record { client_id = 0; req_id = 1 }

do_object_write_ack-first_example :
    do_object_write_ack true two_waiting 1 near_ack
    ≡ returns (
      ok,
      record two_waiting { wait_req_list = first_counted 1 (near ∷ far ∷ []) },
      signals true 1 (near ∷ far ∷ []),
    )
do_object_write_ack-first_example =
    do_object_write_ack-first true two_waiting 1 near_ack (omega arith) refl

-- One server, one write at the address 10, and its acknowledgement.
abbrev fresh : Client
fresh = record { client_id = 0; req_id = 0; wait_req_list = [] }

abbrev waiting : Client
waiting = record {
  client_id = 0;
  req_id = 1;
  wait_req_list =
      record { req = 10; op = 1; write_req_id = 1; ack_count = 0; commit_count = 0; req_count = 1 }
      ∷ [];
}

abbrev acked : WaitReq
acked = record {
  req = 10;
  op = 1;
  write_req_id = 1;
  ack_count = 1;
  commit_count = 0;
  req_count = 1;
}

abbrev answered : Client
answered = record { client_id = 0; req_id = 1; wait_req_list = acked ∷ [] }
