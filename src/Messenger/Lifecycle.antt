-- ===== src/Messenger/Lifecycle.antt =====
-- The life of a messenger, and the calls that are out of order.
use ceph_in_c.Base.{
  ℕ, ◌+◌, ◌^◌, ◌<◌, ◌≡◌, refl, ◌∙◌, ap, Bool, true, false, some, List, [], ◌∷◌, arith, take, zero,
  suc,
}
use ceph_in_c.Base.Int.{ℤ, pos, is_neg, to_int, to_int-of_lt}
use ceph_in_c.Base.Errno.{returns, abort}
use ceph_in_c.Base.Alloc.{Alloc, Plenty, malloc-Plenty}
use ceph_in_c.Messenger.{
  unknown, normal, destroyed, is_normal, Messenger, get_conn_by_host_and_port,
}
use ceph_in_c.Messenger.Life.{
  messenger_new, wake_thread_pipe, create_threads, is_unknown, is_destroyed, messenger_start,
  all_are, messenger_stop, messenger_free,
}
use ceph_in_c.Messenger.Numbers.{Numbered}
use ceph_in_c.Messenger.Adding.{Added, add_conn-Added}

-- The results of `pthread_create`, 0 or an error number, are not negative.
abbrev pub NoneNegative : List ℤ → Type 0
NoneNegative [] = Unit
NoneNegative (r ∷ rs) = (is_neg r ≡ false) × NoneNegative rs

create_threads_lem :
    (n : ℕ) (ret : ℤ) (rs : List ℤ)
    → is_neg ret ≡ false
    → NoneNegative rs
    → is_neg (create_threads ret (take n rs)) ≡ false
unfolding create_threads
create_threads_lem zero ret rs h p = h
create_threads_lem (suc n) ret [] h p = h
create_threads_lem (suc n) ret (r ∷ rs) h p =
    rw (create_threads, p.0) (create_threads_lem n r rs p.0 p.1)

pub started-Added :
    (m : Messenger) (garbage : ℕ) (epoll : Bool) (threads : List ℤ) (a : Alloc)
    → m.state ≡ unknown
    → Numbered m
    → m.next_conn_id + 1 < 2 ^ 31
    → Plenty a
    → NoneNegative threads
    → (added : Added (record m { state = normal }) wake_thread_pipe 0 m.wake_fd garbage epoll a)
      × (messenger_start m garbage epoll threads a ≡ returns (pos 0, added.after, added.rest))
unfolding messenger_start
started-Added m garbage epoll threads a new v h p none_ =
    let added =
      add_conn-Added (record m { state = normal }) wake_thread_pipe 0 m.wake_fd garbage epoll a refl
        v h p in
    let is_new : is_unknown m.state ≡ true = ap is_unknown new in
    let n = m.next_conn_id + 1 in
    let int : to_int (pos n) ≡ pos n = to_int-of_lt n h in
    let run : is_neg (create_threads (pos n) (take m.thread_count threads)) ≡ false =
      create_threads_lem m.thread_count (pos n) threads refl none_ in
    (added, rw (messenger_start, is_new, added.returned, int, run) refl)

pub stop_lem :
    (m : Messenger) (count : ℕ) (writes joins : List ℤ)
    → m.state ≡ normal
    → m.thread_count ≡ count
    → all_are 1 (take count writes) ≡ true
    → all_are 0 (take count joins) ≡ true
    → messenger_stop m writes joins ≡ returns (pos 0, record m { state = destroyed })
unfolding messenger_stop
stop_lem m count writes joins runs threads wrote joined =
    let norm : is_normal m.state ≡ true = ap is_normal runs in
    let all_written : all_are 1 (take m.thread_count writes) ≡ true =
      ap (λ n. all_are 1 (take n writes)) threads ∙ wrote in
    let all_joined : all_are 0 (take m.thread_count joins) ≡ true =
      ap (λ n. all_are 0 (take n joins)) threads ∙ joined in
    rw (messenger_stop, norm, all_written, all_joined) refl

-- What is known of a messenger before and after it is started.
pub record Started (m : Messenger) (garbage : ℕ) (epoll : Bool) (threads : List ℤ) (a : Alloc)
    : Type 0 where
  pub after : Messenger
  pub rest : Alloc
  pub returned : messenger_start m garbage epoll threads a ≡ returns (pos 0, after, rest)
  pub runs : after.state ≡ normal
  pub waked :
      get_conn_by_host_and_port after wake_thread_pipe 0
      ≡ some (record {
        id = pos 2;
        host = wake_thread_pipe;
        port = 0;
        fd = m.wake_fd;
        state = garbage;
      })

-- The calls in order, and those that are out of order, on a messenger that was made.
abbrev pub Lived : ℕ → ℕ → ℕ → ℕ → Bool → List ℤ → List ℤ → List ℤ → Alloc → Type 0
Lived count fd epoll_fd garbage epoll threads writes joins a =
    (m : Messenger) × (a' : Alloc) × (messenger_new count (record { ret = pos 0; read_fd = pos fd })
        (pos epoll_fd) a
      ≡ returns (pos 0, some m, a'))
    × (messenger_stop m writes joins ≡ abort)
    × (messenger_free m ≡ abort)
    × ((s : Started m garbage epoll threads a') × (messenger_start s.after garbage epoll threads
            s.rest
          ≡ abort)
        × (messenger_free s.after ≡ abort)
        × ((last : Messenger) × (messenger_stop s.after writes joins ≡ returns (pos 0, last))
            × (messenger_start last garbage epoll threads s.rest ≡ abort)
            × (messenger_stop last writes joins ≡ abort)
            × (messenger_free last ≡ returns (pos 0))))

-- A messenger whose `pipe` and `epoll_create1` succeed is made where no allocation fails. It can be
-- started, where no result of `pthread_create` is negative: it returns 0, and the first connection, with
-- number 2, is the pipe that wakes the threads. Then it can be stopped, where every write to the
-- pipe puts one byte and every join returns 0, and freed then. Each of the three calls aborts where it
-- comes out of this order: a stop or a free before the start, a second start or a free before the
-- stop, and a start or a second stop afterwards.
pub messenger_life :
    (count fd epoll_fd garbage : ℕ) (epoll : Bool) (threads writes joins : List ℤ) (a : Alloc)
    → Plenty a
    → NoneNegative threads
    → all_are 1 (take count writes) ≡ true
    → all_are 0 (take count joins) ≡ true
    → Lived count fd epoll_fd garbage epoll threads writes joins a
unfolding messenger_new messenger_start messenger_stop messenger_free
messenger_life count fd epoll_fd garbage epoll threads writes joins a p none_ wrote joined =
    let (a₁, there, p₁) = malloc-Plenty a p in
    let (a₂, threads_there, p₂) = malloc-Plenty a₁ p₁ in
    let m : Messenger = record {
      state = unknown;
      thread_count = count;
      next_conn_id = 1;
      conn_list = [];
      wake_fd = pos fd;
      armed = [];
    } in
    let (added, run) =
      started-Added m garbage epoll threads a₂ refl (tt, omega arith, omega arith) (omega arith) p₂
        none_ in
    let s : Started m garbage epoll threads a₂ = record {
      after = added.after;
      rest = added.rest;
      returned = run;
      runs = added.runs;
      waked = added.addressed;
    } in
    let last : Messenger = record added.after { state = destroyed } in
    (
      m,
      a₂,
      rw (messenger_new, there, threads_there) refl,
      refl,
      refl,
      (
        s,
        rw (messenger_start, ap is_unknown added.runs) refl,
        rw (messenger_free, ap is_destroyed added.runs) refl,
        (
          last,
          stop_lem added.after count writes joins added.runs added.threads wrote joined,
          refl,
          refl,
          refl,
        ),
      ),
    )
