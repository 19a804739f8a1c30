-- ===== src/Messenger/Sends.antt =====
-- A message is sent on a connection, or the connection is closed.
use ceph_in_c.Base.{
  ◌≡◌, ◌⊎◌, refl, ap, true, none, some, List, [], ◌∷◌, arith, ◌==◌, inl, inr, Bool-cases,
  Option-cases, if◌then◌else◌,
}
use ceph_in_c.Base.Int.{ℤ, is_nat}
use ceph_in_c.Base.Errno.{
  ok, err_conn_not_found, err_conn_closed, err_write_conn_err, returns, ◌>>=◌,
}
use ceph_in_c.Io.{Out}
use ceph_in_c.Message.{Msg}
use ceph_in_c.Messenger.{
  conn_state_closed, Connection, normal, Messenger, is_normal, has_id, get_conn_by_id, find_conn,
  without_conn, without_fd, close_conn,
}
use ceph_in_c.Messenger.Talk.{mark_closed, write_message, send_msg}

-- A call that closes no connection but one with a given number, and makes none.
pub record Trimmed (m m' : Messenger) : Type 0 where
  pub same_count : m'.next_conn_id ≡ m.next_conn_id
  pub same_or_less :
      (m'.conn_list ≡ m.conn_list) ⊎ ((id : ℤ) × (m'.conn_list ≡ without_conn id m.conn_list))

pub Trimmed-refl : (m : Messenger) → Trimmed m m
Trimmed-refl m = record { same_count = refl; same_or_less = inl refl }

-- The code that a close returns, and the list.
pub close_conn-Trimmed : (m : Messenger) (id : ℤ) → Trimmed m (close_conn m id).1
unfolding close_conn
close_conn-Trimmed m id = elim (Option-cases (get_conn_by_id m id)) [
  | inl n ↦ rw (close_conn, n) (Trimmed-refl m)
  | inr (c, y) ↦ rw (close_conn, y) (record { same_count = refl; same_or_less = inr (id, refl) })
]

without-mark :
    (id : ℤ) (cs : List Connection) → without_conn id (mark_closed id cs) ≡ without_conn id cs
unfolding without_conn mark_closed
without-mark id [] = refl
without-mark id (c ∷ cs) = elim (Bool-cases (has_id id c)) [
  | inl y ↦ rw (mark_closed, y, without_conn, y) refl
  | inr other ↦
      rw (mark_closed, other, without_conn, other) (ap (λ ds. c ∷ ds) (without-mark id cs))
]

abbrev mark : Connection → Connection
mark c = record c { state = conn_state_closed }

find-mark :
    (id : ℤ) (cs : List Connection) {c : Connection}
    → find_conn (has_id id) cs ≡ some c
    → find_conn (has_id id) (mark_closed id cs) ≡ some (record c { state = conn_state_closed })
unfolding find_conn mark_closed
find-mark id [] h = cc
find-mark id (d ∷ cs) {c} h = elim (Bool-cases (has_id id d)) [
  | inl y ↦
      let same : d ≡ c = ground (arith, y) in
      rw (mark_closed, y, find_conn, y) (ap (λ (z : Connection). some (mark z)) same)
  | inr other ↦
      rw (mark_closed, other, find_conn, other) (find-mark id cs {c = c} (ground (arith, other)))
]

-- A message that cannot be written closes its connection.
close-marked :
    (m : Messenger) (id : ℤ) {c : Connection}
    → get_conn_by_id m id ≡ some c
    → (close_conn (record m { conn_list = mark_closed id m.conn_list }) id).1
      ≡ record m { conn_list = without_conn id m.conn_list; armed = without_fd c.fd m.armed }
unfolding close_conn get_conn_by_id
close-marked m id h = rw (close_conn, find-mark id m.conn_list h, without-mark id m.conn_list) refl

pub send_msg_lem :
    (m : Messenger) (id : ℤ) (msg : Msg) (o : Out)
    → m.state ≡ normal
    → send_msg m id msg o ≡ elim (get_conn_by_id m id) [
      | none ↦ returns (err_conn_not_found, m, o)
      | some c ↦
          if c.state == conn_state_closed
          then returns (err_conn_closed, m, o)
          else (write_message o msg >>= λ r.
              if is_nat r.0 0
              then returns (ok, m, r.1)
              else returns (
                err_write_conn_err,
                record m {
                  conn_list = without_conn id m.conn_list;
                  armed = without_fd c.fd m.armed;
                },
                r.1,
              ))
    ]
unfolding send_msg
send_msg_lem m id msg o running =
    let norm : is_normal m.state ≡ true = ap is_normal running in
    elim (Option-cases (get_conn_by_id m id)) [
      | inl n ↦ rw (send_msg, norm, n) refl
      | inr (c, y) ↦ rw (send_msg, norm, y, close-marked m id y) refl
    ]
