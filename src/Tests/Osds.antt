-- ===== src/Tests/Osds.antt =====
-- An OSD and its client at concrete inputs.
use ceph_in_c.Base.{ℕ, ◌≡◌, refl, true, List, [], ◌∷◌, ◌++◌, take}
use ceph_in_c.Base.Int.{pos, negsuc}
use ceph_in_c.Base.Errno.{returns}
use ceph_in_c.Map.Plain.{plain}
use ceph_in_c.ObjectStore.Memory.{get_funcs}
use ceph_in_c.MemStore.View
use ceph_in_c.MemStore.View.{view}
use ceph_in_c.ObjectStore.Contract.{Served}
use ceph_in_c.ObjectStore.Memory.{mem_store-Implements}
use ceph_in_c.Messenger.Life.{all_are}
use ceph_in_c.Osd.{Files}
use ceph_in_c.Osd.Start.{osd_create}
use ceph_in_c.Osd.Main.{Calls, osd_main, osd_main-unheard}
use ceph_in_c.Osd.Create.{create_spec, osd_create-Served}
use ceph_in_c.Client.{WaitReq, Client, Ack}
use ceph_in_c.System.{Side, request_bytes, answer_bytes}
use ceph_in_c.Tests.Data.{store, store-IsValid}
use ceph_in_c.Tests.Wires.{oid, bytes, req, client_conn, messenger, readable, world_of}

abbrev no_files : Files
no_files path = []

osd_create-Served_example :
    Served
      (View.IsValid plain)
      view
      (create_spec (view store) 4)
      (osd_create plain (get_funcs plain) store 4 [])
osd_create-Served_example =
    osd_create-Served plain (get_funcs plain) (mem_store-Implements plain) {os = store} 4 []
      store-IsValid tt

-- The port is taken.
abbrev taken : Calls
taken = record {
  thread_count = 1;
  pipe = record { ret = pos 0; read_fd = pos 3 };
  epoll_fd = pos 4;
  garbage = 0;
  epoll = true;
  listen = record { socket_fd = pos 5; bind_ret = negsuc 0; listen_ret = pos 0 };
  accepted = [];
  threads = pos 0 ∷ [];
  writes = pos 1 ∷ [];
  joins = pos 0 ∷ [];
}

wrote_one : all_are 1 (take 1 (pos 1 ∷ [])) ≡ true
unfolding all_are
wrote_one = refl

joined_one : all_are 0 (take 1 (pos 0 ∷ [])) ≡ true
unfolding all_are
joined_one = refl

osd_main-unheard_example : osd_main 2 taken [] ≡ returns (pos 0)
osd_main-unheard_example =
    osd_main-unheard taken 3 4 [] refl refl tt (refl, tt) wrote_one joined_one refl

abbrev waiting : WaitReq
waiting = record {
  req = 10;
  op = 1;
  write_req_id = 1;
  ack_count = 0;
  commit_count = 0;
  req_count = 3;
}

abbrev client : Client
client = record { client_id = 0; req_id = 1; wait_req_list = waiting ∷ [] }

abbrev answer : Ack
answer = record { client_id = 0; req_id = 1 }

-- A side of the connection where bytes come.
abbrev side_of : List ℕ → Side
side_of come = record {
  messenger = messenger;
  conn = client_conn;
  event = readable;
  world = world_of come;
}

abbrev request_come : List ℕ
request_come = request_bytes req oid bytes ++ (9 ∷ [])

abbrev answer_come : List ℕ
answer_come = answer_bytes req oid bytes ++ (8 ∷ [])
