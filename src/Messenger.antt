-- ===== src/Messenger.antt =====
-- message/messenger.c: the list of connections, and the calls that look up, add and close one. Each
-- holds `conn_list_lock` while it uses the list. What the system calls come to is an input.
pub mod Talk
pub mod Poll
pub mod Life
pub mod Lifecycle
pub mod Numbers
pub mod Adding
pub mod Sends
pub mod Steps
pub mod Delivery
pub mod Reach
use ceph_in_c.Base.{
  ℕ, ◌+◌, ◌^◌, ◌%◌, Bool, true, false, ◌&&◌, Option, none, some, List, [], ◌∷◌, ltb, ◌==◌,
  if◌then◌else◌,
}
use ceph_in_c.Base.Int.{ℤ, pos, negsuc, signed64, int_eq, is_neg, to_int}
use ceph_in_c.Atomic.{atomic_add64}
use ceph_in_c.Base.Order.{CString, strcmp}
use Prim.Native.Nat.{Ordering}
use ceph_in_c.Base.Errno.{Errno, ok, err_conn_not_found, Exit, returns, abort, ◌>>=◌}
use ceph_in_c.Base.Alloc.{Alloc, malloc}

abbrev pub conn_state_closed : ℕ
conn_state_closed = 2

-- `cceph_connection`, without its lock; `state` is one of CCEPH_CONN_STATE_*.
pub record Connection : Type 0 where
  pub id : ℤ
  pub host : CString
  pub port : ℕ
  pub fd : ℤ
  pub state : ℕ

-- CCEPH_MESSENGER_STATE_*
pub data State : Type 0 where
  unknown normal destroyed : State

-- `cceph_messenger_`, what of it is used here. `next_conn_id` is a bit pattern; `armed` holds the
-- descriptors that the next `epoll_wait` may return.
pub record Messenger : Type 0 where
  pub state : State
  pub thread_count : ℕ
  pub next_conn_id : ℕ
  pub conn_list : List Connection
  pub wake_fd : ℤ
  pub armed : List ℤ

abbrev pub is_normal : State → Bool
is_normal normal = true
is_normal _ = false

-- The first connection that passes a test.
unfoldable pub find_conn : (Connection → Bool) → List Connection → Option Connection
find_conn test [] = none
find_conn test (c ∷ cs) = if test c then some c else find_conn test cs

-- The parameter is an int, and the number of a connection an int64_t.
abbrev pub has_id : ℤ → Connection → Bool
has_id id c = int_eq c.id (to_int id)

unfoldable pub get_conn_by_id : Messenger → ℤ → Option Connection
unfolding find_conn
get_conn_by_id m id = find_conn (has_id id) m.conn_list

unfoldable pub get_conn_by_fd : Messenger → ℤ → Option Connection
unfolding find_conn
get_conn_by_fd m fd = find_conn (λ c. int_eq c.fd fd) m.conn_list

abbrev is_equal : Ordering → Bool
is_equal Ordering.eq = true
is_equal _ = false

abbrev pub at_address : CString → ℕ → Connection → Bool
at_address host port c = (c.port == port) && is_equal (strcmp c.host host)

unfoldable pub get_conn_by_host_and_port : Messenger → CString → ℕ → Option Connection
unfolding find_conn
get_conn_by_host_and_port m host port = find_conn (at_address host port) m.conn_list

-- The list without the first connection that has the number.
unfoldable pub without_conn : ℤ → List Connection → List Connection
without_conn id [] = []
without_conn id (c ∷ cs) = let rest = without_conn id cs in if has_id id c then cs else c ∷ rest

unfoldable pub without_fd : ℤ → List ℤ → List ℤ
without_fd fd [] = []
without_fd fd (f ∷ fs) = let rest = without_fd fd fs in if int_eq f fd then rest else f ∷ rest

-- `close` takes the descriptor out of the epoll set.
unfoldable pub close_conn : Messenger → ℤ → Errno × Messenger
unfolding get_conn_by_id without_conn without_fd
close_conn m id = elim (get_conn_by_id m id) [
  | none ↦ (err_conn_not_found, m)
  | some c ↦
      (ok, record m { conn_list = without_conn id m.conn_list; armed = without_fd c.fd m.armed })
]

-- `wait_for_next_msg`, and the addition to the epoll set: the argument tells whether `epoll_ctl`
-- succeeds; it returns 0 or -1.
abbrev pub arm : Bool → ℤ → Messenger → Messenger
arm succeeds fd m = if succeeds then record m { armed = fd ∷ m.armed } else m

abbrev pub epoll_ret : Bool → ℤ
epoll_ret succeeds = if succeeds then pos 0 else negsuc 0

-- The test `ret < -1`.
abbrev pub below_minus_one : ℤ → Bool
below_minus_one (pos n) = false
below_minus_one (negsuc n) = ltb 0 n

-- `garbage` is what the new memory holds where the field `state` is, which is not written. The
-- results are the number of the connection, or -1, the messenger and the allocations left. The
-- memory for `host` has no room for the NUL, which is not modelled.
unfoldable pub add_conn :
    Messenger → CString → ℕ → ℤ → ℕ → Bool → Alloc → Exit (ℤ × Messenger × Alloc)
unfolding close_conn
add_conn m host port fd garbage epoll a =
    let id = atomic_add64 m.next_conn_id 1 in
    let conn : Connection = record {
      id = signed64 id;
      host = host;
      port = port;
      fd = fd;
      state = garbage;
    } in
    let listed : Messenger = record m { next_conn_id = id; conn_list = conn ∷ m.conn_list } in
    let (there, a₁) = malloc a in
    let (host_there, a₂) = malloc a₁ in
    if is_normal m.state && (there && host_there)
    then if below_minus_one (epoll_ret epoll)
      then returns (negsuc 0, (close_conn listed conn.id).1, a₂)
      else returns (conn.id, arm epoll fd listed, a₂)
    else abort

-- What `socket` and `connect` come to: the descriptor, and the result of `connect`.
pub record Dial : Type 0 where
  pub fd : ℤ
  pub ret : ℤ

unfoldable pub get_conn :
    Messenger → CString → ℕ → Dial → ℕ → Bool → Alloc → Exit (ℤ × Messenger × Alloc)
unfolding get_conn_by_host_and_port add_conn
get_conn m host port dial garbage epoll a =
    let added = add_conn m host port dial.fd garbage epoll a >>= λ r.
    if is_neg r.0 then abort else if int_eq r.0 (pos 0) then abort else returns r in
    let dialled = if is_neg dial.ret then returns (dial.ret, m, a) else added in
    if is_normal m.state && ltb 0 port
    then elim (get_conn_by_host_and_port m host port) [
      | some c ↦ if int_eq c.id (negsuc 0) then dialled else returns (c.id, m, a)
      | none ↦ dialled
    ]
    else abort
