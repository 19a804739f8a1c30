-- ===== src/Osd/Starting.antt =====
-- What starting an OSD returns.
use ceph_in_c.Base.{
  ℕ, ◌+◌, ◌^◌, ◌<◌, ◌≡◌, refl, Bool, true, ◌||◌, inl, inr, Bool-cases, List, arith, take,
}
use ceph_in_c.Base.Int.{ℤ, pos, is_neg}
use ceph_in_c.Base.Errno.{ok, returns}
use ceph_in_c.Base.Alloc.{Alloc, Plenty}
use ceph_in_c.Messenger.{unknown, destroyed, Messenger}
use ceph_in_c.Messenger.Life.{all_are}
use ceph_in_c.Messenger.Numbers.{Numbered}
use ceph_in_c.Messenger.Lifecycle.{NoneNegative, started-Added, stop_lem}
use ceph_in_c.Osd.Start.{Listen, Accepted, bind_and_listen, server_messenger_start, osd_start}

refused :
    (garbage : ℕ) (l : Listen) (calls : List Accepted) (m : Messenger) (a : Alloc)
    → (is_neg l.socket_fd || (is_neg l.bind_ret || is_neg l.listen_ret)) ≡ true
    → (ret : ℤ) × (bind_and_listen garbage l calls m a ≡ returns (ret, m, a))
unfolding bind_and_listen
refused garbage l calls m a h = elim (Bool-cases (is_neg l.socket_fd)) [
  | inl y ↦ (l.socket_fd, rw (bind_and_listen, y) refl)
  | inr y ↦ elim (Bool-cases (is_neg l.bind_ret)) [
    | inl z ↦ (l.bind_ret, rw (bind_and_listen, y, z) refl)
    | inr z ↦
        let w : is_neg l.listen_ret ≡ true = ground (arith, y, z) in
        (l.listen_ret, rw (bind_and_listen, y, z, w) refl)
  ]
]

-- An OSD whose store is mounted starts its messenger and then listens. Where `socket`, `bind` or
-- `listen` fails, the messenger is stopped again and the call returns 0, so the failure is not told.
pub osd_start-unheard :
    (m : Messenger) (garbage : ℕ) (epoll : Bool) (l : Listen) (calls : List Accepted)
    (threads writes joins : List ℤ) (a : Alloc)
    → m.state ≡ unknown
    → Numbered m
    → m.next_conn_id + 1 < 2 ^ 31
    → Plenty a
    → NoneNegative threads
    → all_are 1 (take m.thread_count writes) ≡ true
    → all_are 0 (take m.thread_count joins) ≡ true
    → (is_neg l.socket_fd || (is_neg l.bind_ret || is_neg l.listen_ret)) ≡ true
    → (m' : Messenger) × (a' : Alloc) × (osd_start ok m garbage epoll l calls threads writes joins a
        ≡ returns (pos 0, m', a'))
      × (m'.state ≡ destroyed)
unfolding osd_start server_messenger_start
osd_start-unheard m garbage epoll l calls threads writes joins a new v h p none_ wrote joined
      failed =
    let (added, run) = started-Added m garbage epoll threads a new v h p none_ in
    let stop =
      stop_lem added.after m.thread_count writes joins added.runs added.threads wrote joined in
    let (ret, bound) = refused garbage l calls added.after added.rest failed in
    (
      record added.after { state = destroyed },
      added.rest,
      rw (server_messenger_start, run, bound, stop) refl,
      refl,
    )
