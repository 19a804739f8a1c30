-- ===== src/Messenger/Steps.antt =====
-- What each call of a messenger does to the list of its connections, whatever the call meets. Each
-- holds the lock of the list while it changes it.
use mathlib.Core.Path.{subst}
use ceph_in_c.Base.{
  ◌≡◌, refl, sym, Bool, true, false, Option, none, some, List, arith, ◌==◌, inl, inr, Bool-cases,
  Option-cases, if◌then◌else◌,
}
use ceph_in_c.Base.Int.{ℤ, int_eq, is_nat}
use ceph_in_c.Base.Errno.{Errno, Exit, returns, abort, ◌>>=◌}
use ceph_in_c.Base.Alloc.{Alloc}
use ceph_in_c.Io.{Out, Inbox}
use ceph_in_c.Message.{MsgHeader, write_obj_req_new, write_obj_req_recv, write_obj_ack_new, Msg}
use ceph_in_c.Messenger.{
  conn_state_closed, Messenger, is_normal, get_conn_by_id, without_conn, without_fd, close_conn,
  arm, epoll_ret, below_minus_one, get_conn_by_fd,
}
use ceph_in_c.Messenger.Talk.{
  write_message, send_msg, ReadMsg, read_end, read_req, read_ack, read_msg,
}
use ceph_in_c.Messenger.Poll.{
  EpollEvent, World, Round, is_conn_err, wake_up, after_read, poll_round,
}
use ceph_in_c.Messenger.Sends.{Trimmed, Trimmed-refl, close_conn-Trimmed, send_msg_lem}

abbrev pub AllOf : {A : Type 0} → (A → Type 0) → Exit A → Type 0
AllOf P (returns a) = P a
AllOf P abort = Unit

AllOf-bind :
    {A B : Type 0} (P : B → Type 0) (r : Exit A) (f : A → Exit B)
    → ((a : A) → AllOf P (f a))
    → AllOf P (r >>= f)
AllOf-bind P (returns a) f h = h a
AllOf-bind P abort f h = tt

pub AllOf-if :
    {A : Type 0} (P : A → Type 0) (b : Bool) (x y : Exit A)
    → AllOf P x
    → AllOf P y
    → AllOf P (if b then x else y)
AllOf-if P true x y hx hy = hx
AllOf-if P false x y hx hy = hy

AllOf-option :
    {A B : Type 0} (P : B → Type 0) (x : Option A) (n : Exit B) (f : A → Exit B)
    → AllOf P n
    → ((a : A) → AllOf P (f a))
    → AllOf P (elim x [ none ↦ n | some a ↦ f a ])
AllOf-option P none n f hn hf = hn
AllOf-option P (some a) n f hn hf = hf a

less :
    (m : Messenger) (id fd : ℤ)
    → Trimmed m
        (record m { conn_list = without_conn id m.conn_list; armed = without_fd fd m.armed })
less m id fd = record { same_count = refl; same_or_less = inr (id, refl) }

-- What each call does to the list, whatever it meets.
pub send_msg-Trimmed :
    (m : Messenger) (id : ℤ) (msg : Msg) (o : Out)
    → AllOf (λ r. Trimmed m r.1) (send_msg m id msg o)
unfolding send_msg
send_msg-Trimmed m id msg o = elim (Bool-cases (is_normal m.state)) [
  | inr stopped ↦ rw (send_msg, stopped) tt
  | inl runs ↦
      let P : Errno × Messenger × Out → Type 0 = λ r. Trimmed m r.1 in
      subst (AllOf P) (sym (send_msg_lem m id msg o (ground (arith, runs)))) (
        AllOf-option P (get_conn_by_id m id) _ _ (Trimmed-refl m) (λ c.
          AllOf-if P (c.state == conn_state_closed) _ _ (Trimmed-refl m) (
            AllOf-bind P (write_message o msg) _
              (λ r. AllOf-if P (is_nat r.0 0) _ _ (Trimmed-refl m) (less m id c.fd)))))
]

abbrev Keeps : Messenger → ReadMsg → Type 0
Keeps m r = Trimmed m r.messenger

read_end-Trimmed :
    (m : Messenger) (id code : ℤ) (msg : Option Msg) (s : Inbox) (a : Alloc)
    → AllOf (Keeps m) (read_end m id code msg s a)
read_end-Trimmed m id code msg s a = ground (arith, close_conn-Trimmed m id, Trimmed-refl m)

read_req-Trimmed :
    (m : Messenger) (id : ℤ) (header : MsgHeader) (s : Inbox) (a : Alloc)
    → AllOf (Keeps m) (read_req m id header s a)
read_req-Trimmed m id header s a = AllOf-bind (Keeps m) (write_obj_req_new a) _ (λ new.
    AllOf-bind (Keeps m) (write_obj_req_recv new.0 s new.1) _ (λ r. search (read_end-Trimmed m id)))

read_ack-Trimmed :
    (m : Messenger) (id : ℤ) (header : MsgHeader) (s : Inbox) (a : Alloc)
    → AllOf (Keeps m) (read_ack m id header s a)
read_ack-Trimmed m id header s a =
    AllOf-bind (Keeps m) (write_obj_ack_new a) _ (λ new. search (read_end-Trimmed m id))

read_msg-Trimmed :
    (m : Messenger) (id : ℤ) (stack : MsgHeader) (s : Inbox) (a : Alloc)
    → AllOf (Keeps m) (read_msg m id stack s a)
unfolding read_msg
read_msg-Trimmed m id stack s a =
    search (AllOf-if (Keeps m), read_req-Trimmed m id, read_ack-Trimmed m id, read_end-Trimmed m id)
      depth 14

-- The same where the messenger changed before in what is no part of the list.
Trimmed-armed :
    (m : Messenger) (armed : List ℤ) (m' : Messenger)
    → Trimmed (record m { armed = armed }) m'
    → Trimmed m m'
Trimmed-armed m armed m' t = record { same_count = t.same_count; same_or_less = t.same_or_less }

abbrev RoundKeeps : Messenger → Round → Type 0
RoundKeeps m r = Trimmed m r.messenger

arm-Trimmed :
    (m m' : Messenger) (epoll : Bool) (fd : ℤ) → Trimmed m m' → Trimmed m (arm epoll fd m')
arm-Trimmed m m' true fd t = record { same_count = t.same_count; same_or_less = t.same_or_less }
arm-Trimmed m m' false fd t = t

-- The test on what `epoll_ctl` returned is never passed.
pub never : (epoll : Bool) → below_minus_one (epoll_ret epoll) ≡ false
never true = refl
never false = refl

after_read-Trimmed :
    (m : Messenger) (id fd : ℤ) (epoll : Bool) (r : ReadMsg)
    → Trimmed m r.messenger
    → AllOf (RoundKeeps m) (after_read id fd epoll r)
after_read-Trimmed m id fd epoll r t = elim (Option-cases r.msg) [
  | inl n ↦ rw n t
  | inr (msg, y) ↦ rw (y, never epoll) (arm-Trimmed m r.messenger epoll fd t)
]

pub AllOf-follow :
    {A B : Type 0} (P : A → Type 0) (Q : B → Type 0) (r : Exit A) (f : A → Exit B)
    → AllOf P r
    → ((a : A) → P a → AllOf Q (f a))
    → AllOf Q (r >>= f)
AllOf-follow P Q (returns a) f h k = k a h
AllOf-follow P Q abort f h k = tt

wake_up-Trimmed :
    (m : Messenger) (armed : List ℤ) (fd : ℤ) (w : World)
    → AllOf (RoundKeeps m) (wake_up (record m { armed = armed }) fd w)
wake_up-Trimmed m armed fd w = ground (arith)

pub poll_round-Trimmed :
    (m : Messenger) (event : EpollEvent) (w : World) → AllOf (RoundKeeps m) (poll_round m event w)
unfolding poll_round
poll_round-Trimmed m event w =
    let fd = event.fd in
    let shot : Messenger = record m { armed = without_fd fd m.armed } in
    let same : Trimmed m shot = record { same_count = refl; same_or_less = inl refl } in
    elim (Option-cases (get_conn_by_fd shot fd)) [
      | inl n ↦ rw (poll_round, n) same
      | inr (c, y) ↦ elim (Bool-cases (is_conn_err event)) [
        | inl broken_ ↦
            rw (poll_round, y, broken_)
              (Trimmed-armed m shot.armed (close_conn shot c.id).1 (close_conn-Trimmed shot c.id))
        | inr fine ↦ elim (Bool-cases (int_eq fd m.wake_fd)) [
          | inl woken ↦ rw (poll_round, y, fine, woken) (wake_up-Trimmed m shot.armed fd w)
          | inr other ↦
              rw (poll_round, y, fine, other)
                (AllOf-follow (Keeps shot) (RoundKeeps m)
                  (read_msg shot c.id w.stack w.inbox w.alloc) (after_read c.id fd w.epoll)
                  (read_msg-Trimmed shot c.id w.stack w.inbox w.alloc)
                  (λ r t.
                    after_read-Trimmed m c.id fd w.epoll r
                      (Trimmed-armed m shot.armed r.messenger t)))
        ]
      ]
    ]
