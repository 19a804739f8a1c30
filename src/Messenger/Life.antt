-- ===== src/Messenger/Life.antt =====
-- message/messenger.c: a messenger is made, started, stopped and freed.
use ceph_in_c.Base.{ℕ, Bool, true, false, Option, none, some, List, [], ◌∷◌, take, if◌then◌else◌}
use ceph_in_c.Base.Int.{ℤ, pos, is_neg, is_nat, to_int}
use ceph_in_c.Base.Order.{CString}
use ceph_in_c.Base.Errno.{err_no_enough_mem, errno_code, Exit, returns, abort, ◌>>=◌}
use ceph_in_c.Base.Alloc.{Alloc, malloc}
use ceph_in_c.Messenger.{Messenger, State, unknown, normal, destroyed, is_normal, add_conn}

-- What `pipe` comes to: its return value and the descriptor to read from.
pub record Pipe : Type 0 where
  pub ret : ℤ
  pub read_fd : ℤ

-- `epoll` is what `epoll_create1` returns. Where it fails, the messenger is freed and then read
-- through NULL.
unfoldable pub messenger_new : ℕ → Pipe → ℤ → Alloc → Exit (ℤ × Option Messenger × Alloc)
messenger_new thread_count pipe epoll a =
    let no_mem = errno_code err_no_enough_mem in
    let (there, a₁) = malloc a in
    let (threads_there, a₂) = malloc a₁ in
    if there
    then if threads_there
      then if is_neg pipe.ret
        then returns (pipe.ret, none, a₂)
        else if is_neg epoll
        then abort
        else returns (
          pos 0,
          some (record {
            state = unknown;
            thread_count = thread_count;
            next_conn_id = 1;
            conn_list = [];
            wake_fd = pipe.read_fd;
            armed = [];
          }),
          a₂,
        )
      else returns (no_mem, none, a₂)
    else returns (no_mem, none, a₁)

-- The string "wake_thread_pipe".
abbrev pub wake_thread_pipe : CString
wake_thread_pipe =
    119 ∷ 97 ∷ 107 ∷ 101 ∷ 95 ∷ 116 ∷ 104 ∷ 114 ∷ 101 ∷ 97 ∷ 100 ∷ 95 ∷ 112 ∷ 105 ∷ 112 ∷ 101 ∷ []

-- The loop over the threads: the first negative result of `pthread_create`, or the last result.
unfoldable pub create_threads : ℤ → List ℤ → ℤ
create_threads ret [] = ret
create_threads ret (r ∷ rs) = let rest = create_threads r rs in if is_neg r then r else rest

abbrev pub is_unknown : State → Bool
is_unknown unknown = true
is_unknown _ = false

abbrev pub is_destroyed : State → Bool
is_destroyed destroyed = true
is_destroyed _ = false

-- `threads` is what `pthread_create` returns for each of the threads; `int ret` takes the number of
-- the connection.
unfoldable pub messenger_start :
    Messenger → ℕ → Bool → List ℤ → Alloc → Exit (ℤ × Messenger × Alloc)
unfolding create_threads add_conn
messenger_start m garbage epoll threads a =
    let started : Messenger = record m { state = normal } in
    if is_unknown m.state
    then (add_conn started wake_thread_pipe 0 m.wake_fd garbage epoll a >>= λ r.
        let ret = to_int r.0 in
        let failed : Messenger = record r.1 { state = unknown } in
        if is_neg ret
        then returns (ret, failed, r.2)
        else if is_neg (create_threads ret (take m.thread_count threads))
        then returns (create_threads ret (take m.thread_count threads), failed, r.2)
        else returns (pos 0, r.1, r.2))
    else abort

-- Every result is asserted to be the given number.
unfoldable pub all_are : ℕ → List ℤ → Bool
all_are n [] = true
all_are n (r ∷ rs) = let rest = all_are n rs in if is_nat r n then rest else false

-- `writes` and `joins` are what `write` and `pthread_join` return for each of the threads.
unfoldable pub messenger_stop : Messenger → List ℤ → List ℤ → Exit (ℤ × Messenger)
unfolding all_are
messenger_stop m writes joins =
    if is_normal m.state
    then if all_are 1 (take m.thread_count writes)
      then if all_are 0 (take m.thread_count joins)
        then returns (pos 0, record m { state = destroyed })
        else abort
      else abort
    else abort

unfoldable pub messenger_free : Messenger → Exit ℤ
messenger_free m = if is_destroyed m.state then returns (pos 0) else abort
