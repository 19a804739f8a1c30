-- ===== src/Osd/Main.antt =====
-- cceph_osd.c: the daemon of an OSD whose store is in memory.
use ceph_in_c.Base.{
  ℕ, ◌≡◌, refl, ◌∙◌, ap, Bool, true, ◌||◌, Option, none, some, List, [], arith, take, ◌==◌,
  if◌then◌else◌,
}
use ceph_in_c.Base.Int.{ℤ, pos, is_neg}
use ceph_in_c.Base.Errno.{Errno, ok, errno_code, Exit, returns, abort, ◌>>=◌}
use ceph_in_c.Base.Alloc.{Alloc, malloc, Plenty, malloc-Plenty}
use ceph_in_c.Map.{leaf}
use ceph_in_c.MemStore.{MemStore, mem_store_new}
use ceph_in_c.Messenger.{unknown, Messenger}
use ceph_in_c.Messenger.Life.{Pipe, messenger_new, all_are}
use ceph_in_c.Messenger.Lifecycle.{NoneNegative}
use ceph_in_c.Osd.Start.{Listen, Accepted, server_messenger_new, osd_initial, osd_start}
use ceph_in_c.Osd.Starting.{osd_start-unheard}

-- What the system calls of the daemon come to, and the memory of the first connection.
pub record Calls : Type 0 where
  pub thread_count : ℕ
  pub pipe : Pipe
  pub epoll_fd : ℤ
  pub garbage : ℕ
  pub epoll : Bool
  pub listen : Listen
  pub accepted : List Accepted
  pub threads : List ℤ
  pub writes : List ℤ
  pub joins : List ℤ

abbrev start_with : Calls → Messenger → Alloc → Exit (ℤ × Messenger × Alloc)
start_with c m a = osd_start ok m c.garbage c.epoll c.listen c.accepted c.threads c.writes c.joins a

-- `main` behind `cceph_mem_store_new`, by what that returned. The table of functions is written
-- without a look at what `malloc` returned; `mount` of the store in memory returns CCEPH_OK.
unfoldable pub main_with : Calls → Errno × Option MemStore × Alloc → Exit ℤ
unfolding osd_initial osd_start
main_with c (err, none, a) = returns (errno_code err)
main_with c (err, some store, a) =
    let (funcs, a') = malloc a in
    let started = osd_initial c.thread_count c.pipe c.epoll_fd a' >>= λ r. elim r.1 [
      | none ↦ returns (r.0)
      | some m ↦ start_with c m r.2 >>= λ s. returns (s.0)
    ] in
    if funcs then started else abort

-- What `main` returns, by `argc`; EXIT_FAILURE is 1.
unfoldable pub osd_main : ℕ → Calls → Alloc → Exit ℤ
unfolding main_with
osd_main argc c a = if argc == 2 then main_with c (mem_store_new a) else returns (pos 1)

mem_store_new-Plenty :
    (a : Alloc)
    → Plenty a
    → (a' : Alloc) × (mem_store_new a ≡ (ok, some (record { colls = leaf }), a')) × Plenty a'
unfolding mem_store_new
mem_store_new-Plenty a p =
    let (a', there, p') = malloc-Plenty a p in (a', rw (mem_store_new, there) refl, p')

-- `cceph_osd_initial` where nothing fails.
osd_initial-made :
    (count fd epoll_fd : ℕ) (a : Alloc)
    → Plenty a
    → (a' : Alloc) × (osd_initial count (record { ret = pos 0; read_fd = pos fd }) (pos epoll_fd) a
        ≡ returns (
          pos 0,
          some (record {
            state = unknown;
            thread_count = count;
            next_conn_id = 1;
            conn_list = [];
            wake_fd = pos fd;
            armed = [];
          }),
          a',
        ))
      × Plenty a'
unfolding osd_initial messenger_new server_messenger_new
osd_initial-made count fd epoll_fd a p =
    let (a₁, there, p₁) = malloc-Plenty a p in
    let (a₂, made, p₂) = malloc-Plenty a₁ p₁ in
    let (a₃, threads_there, p₃) = malloc-Plenty a₂ p₂ in
    let (a₄, server, p₄) = malloc-Plenty a₃ p₃ in
    (
      a₄,
      rw (osd_initial, there, messenger_new, made, threads_there, server_messenger_new, server)
          refl,
      p₄,
    )

-- The daemon, run with one argument where no allocation fails and its messenger can be made,
-- started and stopped, cannot listen: `socket`, `bind` or `listen` fails. Then `main` returns 0, so the
-- failure is not told.
pub osd_main-unheard :
    (c : Calls) (fd epoll_fd : ℕ) (a : Alloc)
    → c.pipe ≡ record { ret = pos 0; read_fd = pos fd }
    → c.epoll_fd ≡ pos epoll_fd
    → Plenty a
    → NoneNegative c.threads
    → all_are 1 (take c.thread_count c.writes) ≡ true
    → all_are 0 (take c.thread_count c.joins) ≡ true
    → (is_neg c.listen.socket_fd || (is_neg c.listen.bind_ret || is_neg c.listen.listen_ret)) ≡ true
    → osd_main 2 c a ≡ returns (pos 0)
unfolding osd_main main_with
osd_main-unheard c fd epoll_fd a piped polled p none_ wrote joined failed =
    let (a₁, store, p₁) = mem_store_new-Plenty a p in
    let (a₂, funcs, p₂) = malloc-Plenty a₁ p₁ in
    let (a₃, made, p₃) = osd_initial-made c.thread_count fd epoll_fd a₂ p₂ in
    let m : Messenger = record {
      state = unknown;
      thread_count = c.thread_count;
      next_conn_id = 1;
      conn_list = [];
      wake_fd = pos fd;
      armed = [];
    } in
    let (m', a', started, stopped) =
      osd_start-unheard m c.garbage c.epoll c.listen c.accepted c.threads c.writes c.joins a₃ refl
        (tt, omega arith, omega arith) (omega arith) p₃ none_ wrote joined failed in
    ap (main_with c) store ∙ rw (funcs, piped, polled, made, started) refl
