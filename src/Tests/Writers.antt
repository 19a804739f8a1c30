-- ===== src/Tests/Writers.antt =====
-- A client and its writes at concrete inputs.
use ceph_in_c.Base.{◌≡◌, refl, true, some, List, [], ◌∷◌, arith}
use ceph_in_c.Base.Int.{ℤ, pos, negsuc}
use ceph_in_c.Base.Order.{CString, strcmp}
use ceph_in_c.Base.Errno.{err_not_enough_server, returns}
use ceph_in_c.Base.Alloc.{Alloc, Plenty}
use ceph_in_c.Messenger.{get_conn_by_host_and_port, find_conn}
use ceph_in_c.Client.{Client, Ack}
use ceph_in_c.Client.Sending.{Call}
use ceph_in_c.Client.WriteObj.{Process, client_normal, client_new, client_init, client_write_obj}
use ceph_in_c.Client.WriteObj.Few.{NoneReachable, failures, client_write_obj-unreachable}
use ceph_in_c.Client.WriteObj.Sent.{Sent}
use ceph_in_c.Client.WriteObj.Ready.{Ready, client_init-Ready}
use ceph_in_c.Tests.Wires.{socket, oid, bytes, messenger}

abbrev idle : Client
idle = record { client_id = 0; req_id = 0; wait_req_list = [] }

abbrev running : Process
running = record { client = idle; messenger = messenger; state = client_normal }

abbrev call_to : CString → ℤ → Call
call_to host fd = record {
  host = host;
  port = 81;
  dial = record { fd = fd; ret = pos 0 };
  garbage = 0;
  epoll = true;
  out = socket;
}

abbrev two_osds : List Call
two_osds = call_to (98 ∷ []) (pos 6) ∷ call_to (99 ∷ []) (pos 7) ∷ []

abbrev first_answer : Ack
first_answer = record { client_id = 0; req_id = 1 }

client_init-Ready_example :
    (p : Process) × (a' : Alloc) × (client_new 2 idle
        (record { ret = pos 0; read_fd = pos 3 })
        (pos 4)
        []
      ≡ returns (some p, a'))
    × ((q : Process) × (a'' : Alloc) × (client_init p 0 true (pos 0 ∷ pos 0 ∷ []) a'
          ≡ returns (pos 0, q, a''))
        × Ready q
        × Plenty a'')
client_init-Ready_example =
    client_init-Ready 2 3 4 0 idle true (pos 0 ∷ pos 0 ∷ []) [] tt (refl, (refl, tt))

-- The same OSDs, which do not answer.
abbrev off : Call → Call
off call = record call { dial = record { fd = pos 6; ret = negsuc 0 } }

abbrev two_off : List Call
two_off = off (call_to (98 ∷ []) (pos 6)) ∷ off (call_to (99 ∷ []) (pos 7)) ∷ []

two_off-NoneReachable : NoneReachable messenger two_off
unfolding get_conn_by_host_and_port find_conn strcmp
two_off-NoneReachable = ((omega arith, refl, refl), ((omega arith, refl, refl), tt))

client_write_obj-unreachable_example :
    (rest : Alloc) × (client_write_obj running 10 7 oid 0 2 bytes two_off []
      ≡ returns (
        err_not_enough_server,
        record running { client = record idle { req_id = 1 } },
        failures messenger two_off rest,
        rest,
      ))
client_write_obj-unreachable_example =
    client_write_obj-unreachable running 10 7 oid 0 2 bytes two_off [] refl refl tt
      two_off-NoneReachable
