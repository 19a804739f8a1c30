-- ===== src/Osd/Start.antt =====
-- message/server_messenger.c, osd/osd.c and osd/osd_create.c: an OSD is made, and started.
use ceph_in_c.Base.{ℕ, Bool, false, Option, none, some, List, [], ◌∷◌, if◌then◌else◌}
use ceph_in_c.Base.Int.{ℤ, pos, negsuc, is_neg, is_nat}
use ceph_in_c.Base.Order.{CString}
use ceph_in_c.Base.Errno.{Errno, ok, err_no_enough_mem, errno_code, Exit, returns, abort, ◌>>=◌}
use ceph_in_c.Base.Alloc.{Alloc, malloc}
use ceph_in_c.Encode.{bytes_of}
use ceph_in_c.Map.{RbTree}
use ceph_in_c.ObjectStore.{OsFuncs, create_coll, set_coll_map_key}
use ceph_in_c.Messenger.{Messenger, add_conn}
use ceph_in_c.Messenger.Life.{
  Pipe, messenger_new, is_unknown, messenger_start, messenger_stop, messenger_free,
}

-- `cceph_server_messenger_new`: CCEPH_ERR_NO_ENOUGH_MEM where there is no memory.
unfoldable pub server_messenger_new : Messenger → Alloc → Exit (Errno × Alloc)
server_messenger_new m a =
    let (there, a') = malloc a in
    if is_unknown m.state
    then if there then returns (ok, a') else returns (err_no_enough_mem, a')
    else abort

-- What a call of `accept` comes to: a connection with its address, and whether epoll takes it, -1 with
-- EAGAIN or EWOULDBLOCK, or -1 with another error. After the end of the list it fails.
pub data Accepted : Type 0 where
  accepts : ℤ → CString → ℕ → Bool → Accepted
  would_block : CString → ℕ → Accepted
  accept_fails : Accepted

-- The loop of `bind_and_listen`; what `hbuf` and `sbuf` hold is in the outcome. A call that would
-- block is not looped over: its descriptor, -1, becomes a connection.
unfoldable pub accept_loop : ℕ → List Accepted → Messenger → Alloc → Exit (Messenger × Alloc)
accept_loop garbage [] m a = returns (m, a)
accept_loop garbage (accept_fails ∷ rest) m a = returns (m, a)
accept_loop garbage (accepts fd host port epoll ∷ rest) m a =
    add_conn m host port fd garbage epoll a >>= λ r.
    if is_neg r.0 then returns (r.1, r.2) else accept_loop garbage rest r.1 r.2
accept_loop garbage (would_block host port ∷ rest) m a =
    add_conn m host port (negsuc 0) garbage false a >>= λ r.
    if is_neg r.0 then returns (r.1, r.2) else accept_loop garbage rest r.1 r.2

-- What `socket`, `bind` and `listen` return.
pub record Listen : Type 0 where
  pub socket_fd : ℤ
  pub bind_ret : ℤ
  pub listen_ret : ℤ

unfoldable pub bind_and_listen :
    ℕ → Listen → List Accepted → Messenger → Alloc → Exit (ℤ × Messenger × Alloc)
unfolding accept_loop
bind_and_listen garbage l calls m a =
    if is_neg l.socket_fd
    then returns (l.socket_fd, m, a)
    else if is_neg l.bind_ret
    then returns (l.bind_ret, m, a)
    else if is_neg l.listen_ret
    then returns (l.listen_ret, m, a)
    else (accept_loop garbage calls m a >>= λ r. returns (pos 0, r.0, r.1))

-- The result of `bind_and_listen` is overwritten by that of `cceph_messenger_stop`. `epoll` is whether
-- epoll takes the pipe that wakes the threads.
unfoldable pub server_messenger_start :
    Messenger
    → ℕ
    → Bool
    → Listen
    → List Accepted
    → List ℤ
    → List ℤ
    → List ℤ
    → Alloc
    → Exit (ℤ × Messenger × Alloc)
unfolding bind_and_listen
server_messenger_start m garbage epoll l calls threads writes joins a =
    messenger_start m garbage epoll threads a >>= λ r.
    if is_nat r.0 0
    then (bind_and_listen garbage l calls r.1 r.2 >>= λ b.
        messenger_stop b.1 writes joins >>= λ s. returns (s.0, s.1, b.2))
    else returns r

-- `cceph_osd_initial`: the code, the messenger of the OSD, or none, and the allocations.
unfoldable pub osd_initial : ℕ → Pipe → ℤ → Alloc → Exit (ℤ × Option Messenger × Alloc)
unfolding server_messenger_new
osd_initial thread_count pipe epoll a =
    let no_mem = errno_code err_no_enough_mem in
    let (there, a₁) = malloc a in
    if there
    then (messenger_new thread_count pipe epoll a₁ >>= λ r. elim r.1 [
      | none ↦ returns (r.0, none, r.2)
      | some m ↦ server_messenger_new m r.2 >>= λ s. elim s.0 [
        | ok ↦ returns (pos 0, some m, s.1)
        | err ↦ messenger_free m >>= λ freed. returns (no_mem, none, s.1)
      ]
    ])
    else returns (no_mem, none, a₁)

-- "osd_id"
abbrev pub osd_id_key : CString
osd_id_key = 111 ∷ 115 ∷ 100 ∷ 95 ∷ 105 ∷ 100 ∷ []

-- "osdmap_max_epoch"
abbrev pub max_epoch_key : CString
max_epoch_key =
    111 ∷ 115 ∷ 100 ∷ 109 ∷ 97 ∷ 112 ∷ 95 ∷ 109 ∷ 97 ∷ 120 ∷ 95 ∷ 101 ∷ 112 ∷ 111 ∷ 99 ∷ 104 ∷ []

-- `cceph_osd_create`: the collection of the metadata, with the number of the OSD and epoch 0.
module _ (rb : RbTree) {S : Type 0} (funcs : OsFuncs S) where
  unfoldable pub osd_create : S → ℕ → Alloc → Exit (Errno × S × Alloc)
  osd_create os osd_id a = create_coll funcs os (pos 0) a >>= λ r. elim r.0 [
    | ok ↦ set_coll_map_key rb funcs r.1 (pos 0) osd_id_key (bytes_of 4 osd_id) (pos 4) r.2 >>= λ s.
        elim s.0 [
          | ok ↦ set_coll_map_key rb funcs s.1 (pos 0) max_epoch_key (bytes_of 4 0) (pos 4) s.2
          | err ↦ returns s
        ]
    | err ↦ returns r
  ]

-- `cceph_osd_start`: `mount` is the store's; loading the metadata and the groups does nothing yet.
unfoldable pub osd_start :
    Errno
    → Messenger
    → ℕ
    → Bool
    → Listen
    → List Accepted
    → List ℤ
    → List ℤ
    → List ℤ
    → Alloc
    → Exit (ℤ × Messenger × Alloc)
osd_start mount m garbage epoll l calls threads writes joins a = elim mount [
  | ok ↦ server_messenger_start m garbage epoll l calls threads writes joins a
  | err ↦ returns (errno_code err, m, a)
]
