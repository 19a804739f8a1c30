-- ===== src/Client/WriteObj/Ready.antt =====
-- A client that was made and started can write.
use ceph_in_c.Base.{ℕ, ◌<◌, ◌≡◌, refl, ◌∙◌, ap, Bool, none, some, List, [], arith}
use ceph_in_c.Base.Int.{ℤ, pos}
use ceph_in_c.Base.Order.{CString}
use ceph_in_c.Base.Errno.{returns}
use ceph_in_c.Base.Alloc.{Alloc, Plenty, malloc-Plenty}
use ceph_in_c.Messenger.{
  unknown, normal, Messenger, at_address, get_conn_by_host_and_port, find_conn,
}
use ceph_in_c.Messenger.Life.{messenger_new}
use ceph_in_c.Messenger.Numbers.{Numbered}
use ceph_in_c.Messenger.Lifecycle.{NoneNegative, started-Added}
use ceph_in_c.Client.{Client}
use ceph_in_c.Client.WriteObj.{Process, client_unknown, client_normal, client_new, client_init}

-- A client with no requests, which runs and is connected to nothing that has a port.
pub record Ready (p : Process) : Type 0 where
  pub live : p.state ≡ client_normal
  pub runs : p.messenger.state ≡ normal
  pub numbered : Numbered p.messenger
  pub counted : p.messenger.next_conn_id ≡ 2
  pub first : p.client ≡ record { client_id = 0; req_id = 0; wait_req_list = [] }
  pub alone :
      (host : CString) (port : ℕ)
      → 0 < port
      → get_conn_by_host_and_port p.messenger host port ≡ none

no_conns :
    (m : Messenger) (host : CString) (port : ℕ)
    → m.conn_list ≡ []
    → get_conn_by_host_and_port m host port ≡ none
unfolding get_conn_by_host_and_port find_conn
no_conns m host port e = ap (find_conn (at_address host port)) e

-- Where no allocation fails and `pipe`, `epoll_create1` and every `pthread_create` succeed,
-- `cceph_client_new` makes a client, whatever the new memory holds, and `cceph_client_init` returns
-- 0 and leaves it ready to write: it runs, has no requests, its connections are numbered from 2, and none
-- of them has a port above 0.
pub client_init-Ready :
    (count fd epoll_fd garbage : ℕ) (memory : Client) (epoll : Bool) (threads : List ℤ) (a : Alloc)
    → Plenty a
    → NoneNegative threads
    → (p : Process) × (a' : Alloc) × (client_new count memory
          (record { ret = pos 0; read_fd = pos fd })
          (pos epoll_fd)
          a
        ≡ returns (some p, a'))
      × ((q : Process) × (a'' : Alloc) × (client_init p garbage epoll threads a'
            ≡ returns (pos 0, q, a''))
          × Ready q
          × Plenty a'')
unfolding client_new messenger_new client_init
client_init-Ready count fd epoll_fd garbage memory epoll threads a p none_ =
    let (a₀, there, p₀) = malloc-Plenty a p in
    let (a₁, made, p₁) = malloc-Plenty a₀ p₀ in
    let (a₂, threads_there, p₂) = malloc-Plenty a₁ p₁ in
    let m : Messenger = record {
      state = unknown;
      thread_count = count;
      next_conn_id = 1;
      conn_list = [];
      wake_fd = pos fd;
      armed = [];
    } in
    let (added, run) =
      started-Added m garbage epoll threads a₂ refl (tt, omega arith, omega arith) (omega arith) p₂
        none_ in
    let counted_ = added.counted in
    let empty : Client = record { client_id = 0; req_id = 0; wait_req_list = [] } in
    (
      record { client = memory; messenger = m; state = client_unknown },
      a₂,
      rw (client_new, there, messenger_new, made, threads_there) refl,
      (
        record { client = empty; messenger = added.after; state = client_normal },
        added.rest,
        rw (client_init, run) refl,
        record {
          live = refl;
          runs = added.runs;
          numbered = (added.numbered, omega (arith, counted_), omega (arith, counted_));
          counted = counted_;
          first = refl;
          alone = λ host port h.
              added.elsewhere host port (ground arith)
              ∙ no_conns (record m { state = normal }) host port refl;
        },
        added.plenty,
      ),
    )
