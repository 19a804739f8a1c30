-- ===== src/Messenger/Poll.antt =====
-- message/messenger.c: one round of the loop of `start_epoll`.
use ceph_in_c.Base.{ℕ, Bool, true, false, ◌||◌, none, some, [], ◌∷◌, ◌==◌, if◌then◌else◌}
use ceph_in_c.Base.Int.{ℤ, int_eq}
use ceph_in_c.Base.Errno.{Exit, returns, abort, ◌>>=◌}
use ceph_in_c.Base.Alloc.{Alloc}
use ceph_in_c.Io.{Inbox, segment, again, broken, put_back}
use ceph_in_c.Message.{MsgHeader, Msg}
use ceph_in_c.Messenger.{
  Messenger, get_conn_by_fd, without_fd, close_conn, arm, epoll_ret, below_minus_one,
}
use ceph_in_c.Messenger.Talk.{ReadMsg, read_msg}

-- An event of `epoll_wait`: the descriptor, and EPOLLERR, EPOLLHUP and EPOLLIN.
pub record EpollEvent : Type 0 where
  pub fd : ℤ
  pub error : Bool
  pub hup : Bool
  pub readable : Bool

abbrev not_ : Bool → Bool
not_ true = false
not_ false = true

abbrev pub is_conn_err : EpollEvent → Bool
is_conn_err event = (event.error || event.hup) || not_ event.readable

abbrev pub messenger_op_stop : ℕ
messenger_op_stop = 1

-- How a round ends: the loop goes on, or ends, or a message goes to `msg_process` first.
pub data Turn : Type 0 where
  goes_on : Turn
  stops : Turn
  processes : ℤ → Msg → Turn

-- What the round meets: what has come on the descriptor, the allocations, the memory of the header,
-- and whether `epoll_ctl` succeeds.
pub record World : Type 0 where
  pub inbox : Inbox
  pub alloc : Alloc
  pub stack : MsgHeader
  pub epoll : Bool

pub record Round : Type 0 where
  pub turn : Turn
  pub messenger : Messenger
  pub inbox : Inbox
  pub alloc : Alloc

abbrev same_world : Turn → Messenger → World → Round
same_world turn m w = record { turn = turn; messenger = m; inbox = w.inbox; alloc = w.alloc }

-- A byte of the pipe, which is asserted to be there and to be the stop.
abbrev pub wake_up : Messenger → ℤ → World → Exit Round
wake_up m fd w = elim w.inbox [
  | [] ↦ abort
  | x ∷ s ↦ elim x [
    | segment b bs ↦
        if b == messenger_op_stop
        then if w.epoll
          then returns (record {
            turn = stops;
            messenger = arm true fd m;
            inbox = put_back bs s;
            alloc = w.alloc;
          })
          else abort
        else abort
    | again ↦ abort
    | broken ↦ abort
  ]
]

-- The message that was read, or NULL; `epoll_ctl` may fail.
abbrev pub after_read : ℤ → ℤ → Bool → ReadMsg → Exit Round
after_read id fd epoll r = elim r.msg [
  | none ↦
      returns (record { turn = goes_on; messenger = r.messenger; inbox = r.inbox; alloc = r.alloc })
  | some msg ↦ returns (record {
    turn = processes id msg;
    messenger =
        if below_minus_one (epoll_ret epoll)
        then (close_conn r.messenger id).1
        else arm epoll fd r.messenger;
    inbox = r.inbox;
    alloc = r.alloc;
  })
]

-- EPOLLONESHOT: the event takes the descriptor out of those that are waited for.
unfoldable pub poll_round : Messenger → EpollEvent → World → Exit Round
unfolding get_conn_by_fd without_fd close_conn read_msg
poll_round m event w =
    let fd = event.fd in
    let shot : Messenger = record m { armed = without_fd fd m.armed } in
    elim (get_conn_by_fd shot fd) [
      | none ↦ returns (same_world goes_on shot w)
      | some c ↦
          if is_conn_err event
          then returns (same_world goes_on (close_conn shot c.id).1 w)
          else if int_eq fd m.wake_fd
          then wake_up shot fd w
          else (read_msg shot c.id w.stack w.inbox w.alloc >>= after_read c.id fd w.epoll)
    ]
