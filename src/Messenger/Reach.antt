-- ===== src/Messenger/Reach.antt =====
-- The messengers that are reached from a new one, over any interleaving of the calls of its threads:
-- each holds the lock of the list while it changes it.
use mathlib.Core.Path.{subst}
use ceph_in_c.Base.{
  ℕ, ◌+◌, ◌-◌, ◌^◌, ◌%◌, ◌≤◌, ◌<◌, ◌≡◌, ◌⊎◌, refl, ◌∙◌, sym, ap, Bool, true, false, ◌&&◌, some,
  List, [], ◌∷◌, arith, ltb, inl, inr, Bool-cases, Option-cases, if◌then◌else◌,
}
use ceph_in_c.Base.Int.{ℤ, pos, negsuc, signed64, int_eq, is_neg, to_int-of_lt}
use ceph_in_c.Base.Order.{CString}
use ceph_in_c.Base.Errno.{Errno, returns, abort}
use ceph_in_c.Base.Alloc.{Alloc, malloc}
use ceph_in_c.Io.{Out}
use ceph_in_c.Message.{Msg}
use ceph_in_c.Messenger.{
  Connection, Messenger, is_normal, has_id, find_conn, get_conn_by_id, get_conn_by_host_and_port,
  close_conn, add_conn, Dial, get_conn,
}
use ceph_in_c.Messenger.Talk.{send_msg}
use ceph_in_c.Messenger.Poll.{EpollEvent, World, Round, poll_round}
use ceph_in_c.Messenger.Numbers.{Descends, Numbered, Descends-more, Descends-without}
use ceph_in_c.Messenger.Sends.{Trimmed, close_conn-Trimmed}
use ceph_in_c.Messenger.Steps.{AllOf, AllOf-follow, AllOf-if, send_msg-Trimmed, poll_round-Trimmed}

-- One call, with whatever the system calls in it come to. Fewer than 2 ^ 31 connections are made.
pub data Step (m : Messenger) : Messenger → Type 0 where
  adds :
      (host : CString) (port : ℕ) (fd : ℤ) (garbage : ℕ) (epoll : Bool) (a : Alloc) {id : ℤ}
      {m' : Messenger} {a' : Alloc}
      → m.next_conn_id + 1 < 2 ^ 31
      → add_conn m host port fd garbage epoll a ≡ returns (id, m', a')
      → Step m m'
  connects :
      (host : CString) (port : ℕ) (dial : Dial) (garbage : ℕ) (epoll : Bool) (a : Alloc) {id : ℤ}
      {m' : Messenger} {a' : Alloc}
      → m.next_conn_id + 1 < 2 ^ 31
      → get_conn m host port dial garbage epoll a ≡ returns (id, m', a')
      → Step m m'
  closes : (id : ℤ) → Step m (close_conn m id).1
  sends :
      (id : ℤ) (msg : Msg) (o : Out) {e : Errno} {m' : Messenger} {o' : Out}
      → send_msg m id msg o ≡ returns (e, m', o')
      → Step m m'
  polls :
      (event : EpollEvent) (w : World) {r : Round}
      → poll_round m event w ≡ returns r
      → Step m r.messenger

-- From a messenger as `cceph_messenger_new` leaves its counter and its list.
pub data Reach : Messenger → Type 0 where
  start : (m : Messenger) → m.next_conn_id ≡ 1 → m.conn_list ≡ [] → Reach m
  next : {m m' : Messenger} → Reach m → Step m m' → Reach m'

-- One connection more, with the next number.
record Grown (m m' : Messenger) : Type 0 where
  conn : Connection
  counted : m'.next_conn_id ≡ m.next_conn_id + 1
  named : conn.id ≡ pos (m.next_conn_id + 1)
  listed : m'.conn_list ≡ conn ∷ m.conn_list

abbrev Result : Type 0
Result = ℤ × Messenger × Alloc

add_conn-Grown :
    (m : Messenger) (host : CString) (port : ℕ) (fd : ℤ) (garbage : ℕ) (epoll : Bool) (a : Alloc)
    → m.next_conn_id + 1 < 2 ^ 31
    → AllOf (λ (r : Result). Grown m r.1) (add_conn m host port fd garbage epoll a)
unfolding add_conn
add_conn-Grown m host port fd garbage true a h =
    let low : (m.next_conn_id + 1) % 2 ^ 64 ≡ m.next_conn_id + 1 = omega arith in
    let small : signed64 (m.next_conn_id + 1) ≡ pos (m.next_conn_id + 1) = ground arith in
    let made : Connection = record {
      id = pos (m.next_conn_id + 1);
      host = host;
      port = port;
      fd = fd;
      state = garbage;
    } in
    elim (Bool-cases (is_normal m.state && ((malloc a).0 && (malloc (malloc a).1).0))) [
      | inl y ↦
          rw (add_conn, y, low, small)
            (record { conn = made; counted = refl; named = refl; listed = refl })
      | inr y ↦ rw (add_conn, y) tt
    ]
add_conn-Grown m host port fd garbage false a h =
    let low : (m.next_conn_id + 1) % 2 ^ 64 ≡ m.next_conn_id + 1 = omega arith in
    let small : signed64 (m.next_conn_id + 1) ≡ pos (m.next_conn_id + 1) = ground arith in
    let made : Connection = record {
      id = pos (m.next_conn_id + 1);
      host = host;
      port = port;
      fd = fd;
      state = garbage;
    } in
    elim (Bool-cases (is_normal m.state && ((malloc a).0 && (malloc (malloc a).1).0))) [
      | inl y ↦
          rw (add_conn, y, low, small)
            (record { conn = made; counted = refl; named = refl; listed = refl })
      | inr y ↦ rw (add_conn, y) tt
    ]

get_conn-Grown :
    (m : Messenger) (host : CString) (port : ℕ) (dial : Dial) (garbage : ℕ) (epoll : Bool)
    (a : Alloc)
    → m.next_conn_id + 1 < 2 ^ 31
    → AllOf (λ (r : Result). (r.1 ≡ m) ⊎ Grown m r.1) (get_conn m host port dial garbage epoll a)
unfolding get_conn
get_conn-Grown m host port dial garbage epoll a h =
    let P : Result → Type 0 = λ (r : Result). (r.1 ≡ m) ⊎ Grown m r.1 in
    let added =
      AllOf-follow (λ (r : Result). Grown m r.1) P (add_conn m host port dial.fd garbage epoll a)
        (λ r. if is_neg r.0 then abort else if int_eq r.0 (pos 0) then abort else returns r)
        (add_conn-Grown m host port dial.fd garbage epoll a h)
        (λ r g. AllOf-if P (is_neg r.0) _ _ tt (AllOf-if P (int_eq r.0 (pos 0)) _ _ tt (inr g))) in
    let dialled = AllOf-if P (is_neg dial.ret) (returns (dial.ret, m, a)) _ (inl refl) added in
    elim (Bool-cases (is_normal m.state && ltb 0 port)) [
      | inr y ↦ rw (get_conn, y) tt
      | inl y ↦ elim (Option-cases (get_conn_by_host_and_port m host port)) [
        | inl n ↦ rw (get_conn, y, n) dialled
        | inr (c, there) ↦
            rw (get_conn, y, there)
              (AllOf-if P (int_eq c.id (negsuc 0)) _ (returns (c.id, m, a)) dialled (inl refl))
      ]
    ]

Trimmed-Numbered : {m m' : Messenger} → Trimmed m m' → Numbered m → Numbered m'
Trimmed-Numbered {m} {m'} t (d, first, b) = elim t.same_or_less [
  | inl same ↦ rw (t.same_count, same) (d, first, b)
  | inr (id, less) ↦
      rw (t.same_count, less) (Descends-without m.next_conn_id id m.conn_list d, first, b)
]

Grown-Numbered :
    {m m' : Messenger} → m.next_conn_id + 1 < 2 ^ 31 → Grown m m' → Numbered m → Numbered m'
Grown-Numbered {m} {m'} h g (d, first, b) =
    let n = m.next_conn_id in
    rw (g.counted, g.listed)
      (
        (
          n + 1,
          (g.named, omega arith, omega arith),
          Descends-more n (n + 1 - 1) m.conn_list (omega arith) d,
        ),
        omega arith,
        h,
      )

Step-Numbered : {m m' : Messenger} → Step m m' → Numbered m → Numbered m'
Step-Numbered {m} (adds host port fd garbage epoll a h e) v =
    Grown-Numbered h
      (subst (AllOf (λ (r : Result). Grown m r.1)) e
        (add_conn-Grown m host port fd garbage epoll a h))
      v
Step-Numbered {m} (connects host port dial garbage epoll a h e) v =
    elim (subst (AllOf (λ (r : Result). (r.1 ≡ m) ⊎ Grown m r.1)) e
      (get_conn-Grown m host port dial garbage epoll a h)) [
        | inl same ↦ subst Numbered (sym same) v
        | inr g ↦ Grown-Numbered h g v
      ]
Step-Numbered {m} (closes id) v = Trimmed-Numbered (close_conn-Trimmed m id) v
Step-Numbered {m} (sends id msg o e) v =
    Trimmed-Numbered
      (subst (AllOf (λ (r : Errno × Messenger × Out). Trimmed m r.1)) e
        (send_msg-Trimmed m id msg o))
      v
Step-Numbered {m} (polls event w e) v =
    Trimmed-Numbered
      (subst (AllOf (λ (r : Round). Trimmed m r.messenger)) e (poll_round-Trimmed m event w)) v

pub Reach-Numbered : {m : Messenger} → Reach m → Numbered m
Reach-Numbered (start m count empty) = rw (count, empty) (tt, omega arith, omega arith)
Reach-Numbered (next r s) = Step-Numbered s (Reach-Numbered r)

abbrev pub IsListed : Connection → List Connection → Type 0
IsListed c [] = ⊥
IsListed c (d ∷ ds) = (c ≡ d) ⊎ IsListed c ds

-- A connection of the list has a number that is at most the bound.
listed_bound :
    (n : ℕ) (c : Connection) (cs : List Connection)
    → Descends n cs
    → IsListed c cs
    → (k : ℕ) × (c.id ≡ pos k) × (1 < k) × (k ≤ n)
listed_bound n c [] d i = absurd i
listed_bound n c (e ∷ es) (k, (named, one, le), d) (inl same) =
    (k, ap (λ (z : Connection). z.id) same ∙ named, one, le)
listed_bound n c (e ∷ es) (k, (named, one, le), d) (inr i) =
    let (l, here, one', le') = listed_bound (k - 1) c es d i in (l, here, one', omega arith)

listed_found :
    (n : ℕ) (c : Connection) (cs : List Connection)
    → n < 2 ^ 31
    → Descends n cs
    → IsListed c cs
    → find_conn (has_id c.id) cs ≡ some c
unfolding find_conn
listed_found n c [] b d i = absurd i
listed_found n c (e ∷ es) b (k, (named, one, le), d) (inl same) =
    let number : c.id ≡ pos k = ap (λ (z : Connection). z.id) same ∙ named in
    let test : has_id c.id e ≡ true =
      rw (number, named, to_int-of_lt k (omega arith)) (ground arith) in
    rw (find_conn, test) (ap some (sym same))
listed_found n c (e ∷ es) b (k, (named, one, le), d) (inr i) =
    let (l, number, one', le') = listed_bound (k - 1) c es d i in
    let test : has_id c.id e ≡ false =
      rw (number, named, to_int-of_lt l (omega arith)) (ground arith) in
    rw (find_conn, test) (listed_found (k - 1) c es (omega arith) d i)

-- In every messenger that is reached from a new one, over any interleaving of its calls and whatever
-- the system calls come to, while fewer than 2 ^ 31 connections were made: each connection of the
-- list has a positive number that is at most the counter, and is the one that is found by its number.
pub Reach-found :
    {m : Messenger} (c : Connection)
    → Reach m
    → IsListed c m.conn_list
    → ((k : ℕ) × (c.id ≡ pos k) × (1 < k) × (k ≤ m.next_conn_id)) × (get_conn_by_id m c.id ≡ some c)
unfolding get_conn_by_id
Reach-found {m} c r i =
    let (d, first, b) = Reach-Numbered r in
    (listed_bound m.next_conn_id c m.conn_list d i, listed_found m.next_conn_id c m.conn_list b d i)
