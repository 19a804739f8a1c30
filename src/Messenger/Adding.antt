-- ===== src/Messenger/Adding.antt =====
-- A connection is added to a messenger.
use ceph_in_c.Base.{
  ℕ, ◌+◌, ◌-◌, ◌^◌, ◌%◌, ◌<◌, ◌≡◌, refl, Bool, true, false, some, List, ◌∷◌, arith, ◌==◌,
  if◌then◌else◌,
}
use ceph_in_c.Base.Int.{ℤ, pos, signed64, to_int-of_lt}
use ceph_in_c.Base.Order.{CString, strcmp_refl}
use ceph_in_c.Base.Errno.{returns}
use ceph_in_c.Base.Alloc.{Alloc, Plenty, malloc-Plenty}
use ceph_in_c.Messenger.{
  Connection, normal, Messenger, find_conn, has_id, at_address, get_conn_by_id,
  get_conn_by_host_and_port, add_conn,
}
use ceph_in_c.Messenger.Numbers.{Descends, Numbered, Descends-more}

-- A connection that was added to a messenger: its number is the next one, it is found by it and by
-- its address, and every other number finds what it found before.
pub record Added (m : Messenger) (host : CString) (port : ℕ) (fd : ℤ) (garbage : ℕ) (epoll : Bool)
    (a : Alloc) : Type 0 where
  pub after : Messenger
  pub rest : Alloc
  pub returned :
      add_conn m host port fd garbage epoll a ≡ returns (pos (m.next_conn_id + 1), after, rest)
  pub plenty : Plenty rest
  pub numbered : Descends after.next_conn_id after.conn_list
  pub counted : after.next_conn_id ≡ m.next_conn_id + 1
  pub runs : after.state ≡ normal
  pub threads : after.thread_count ≡ m.thread_count
  pub found :
      (j : ℕ)
      → j < 2 ^ 31
      → get_conn_by_id after (pos j) ≡ (
          if j == m.next_conn_id + 1
          then some (record {
            id = pos (m.next_conn_id + 1);
            host = host;
            port = port;
            fd = fd;
            state = garbage;
          })
          else get_conn_by_id m (pos j))
  pub addressed :
      get_conn_by_host_and_port after host port
      ≡ some (record {
        id = pos (m.next_conn_id + 1);
        host = host;
        port = port;
        fd = fd;
        state = garbage;
      })
  pub elsewhere :
      (host' : CString) (port' : ℕ)
      → at_address host' port' (record {
        id = pos (m.next_conn_id + 1);
        host = host;
        port = port;
        fd = fd;
        state = garbage;
      })
        ≡ false
      → get_conn_by_host_and_port after host' port' ≡ get_conn_by_host_and_port m host' port'

module _ (m : Messenger) (host : CString) (port : ℕ) (fd : ℤ) (garbage : ℕ) where
  abbrev conn_of : Connection
  conn_of = record {
    id = pos (m.next_conn_id + 1);
    host = host;
    port = port;
    fd = fd;
    state = garbage;
  }

  abbrev listed : Messenger
  listed = record m { next_conn_id = m.next_conn_id + 1; conn_list = conn_of ∷ m.conn_list }

  listed-find :
      (armed : List ℤ) (j : ℕ)
      → j < 2 ^ 31
      → get_conn_by_id (record listed { armed = armed }) (pos j)
        ≡ (if j == m.next_conn_id + 1 then some conn_of else get_conn_by_id m (pos j))
  unfolding get_conn_by_id find_conn
  listed-find armed j h =
      let test : has_id (pos j) conn_of ≡ (j == m.next_conn_id + 1) =
        rw (to_int-of_lt j h) (ground arith) in
      rw (find_conn, test) refl

  listed-address :
      (armed : List ℤ)
      → get_conn_by_host_and_port (record listed { armed = armed }) host port ≡ some conn_of
  unfolding get_conn_by_host_and_port find_conn
  listed-address armed =
      let there : at_address host port conn_of ≡ true = ground (arith, strcmp_refl host) in
      rw (find_conn, there) refl

  listed-elsewhere :
      (armed : List ℤ) (host' : CString) (port' : ℕ)
      → at_address host' port' conn_of ≡ false
      → get_conn_by_host_and_port (record listed { armed = armed }) host' port'
        ≡ get_conn_by_host_and_port m host' port'
  unfolding get_conn_by_host_and_port find_conn
  listed-elsewhere armed host' port' other = rw (find_conn, other) refl

  -- Where the messenger runs, no allocation fails, and fewer than 2 ^ 31 connections were made, a
  -- connection is added, whatever `epoll_ctl` comes to: it gets the next number, it is found by its
  -- number and first by its address, and every other number and address finds what it found before.
  pub add_conn-Added :
      (epoll : Bool) (a : Alloc)
      → m.state ≡ normal
      → Numbered m
      → m.next_conn_id + 1 < 2 ^ 31
      → Plenty a
      → Added m host port fd garbage epoll a
  unfolding add_conn
  add_conn-Added epoll a running (d, first, b) h p =
      let (a₁, m₁, p₁) = malloc-Plenty a p in
      let (a₂, m₂, p₂) = malloc-Plenty a₁ p₁ in
      let low : (m.next_conn_id + 1) % 2 ^ 64 ≡ m.next_conn_id + 1 = omega arith in
      let small : signed64 (m.next_conn_id + 1) ≡ pos (m.next_conn_id + 1) = ground arith in
      let chain : Descends (m.next_conn_id + 1) (conn_of ∷ m.conn_list) = (
        m.next_conn_id + 1,
        (refl, omega arith, omega arith),
        Descends-more m.next_conn_id (m.next_conn_id + 1 - 1) m.conn_list (omega arith) d,
      ) in
      elim epoll as (λ k. Added m host port fd garbage k a) [
        | true ↦ record {
          after = record listed { armed = fd ∷ m.armed };
          rest = a₂;
          returned = rw (add_conn, running, m₁, m₂, low, small) refl;
          plenty = p₂;
          numbered = chain;
          counted = refl;
          runs = running;
          threads = refl;
          found = listed-find (fd ∷ m.armed);
          addressed = listed-address (fd ∷ m.armed);
          elsewhere = listed-elsewhere (fd ∷ m.armed);
        }
        | false ↦ record {
          after = listed;
          rest = a₂;
          returned = rw (add_conn, running, m₁, m₂, low, small) refl;
          plenty = p₂;
          numbered = chain;
          counted = refl;
          runs = running;
          threads = refl;
          found = listed-find m.armed;
          addressed = listed-address m.armed;
          elsewhere = listed-elsewhere m.armed;
        }
      ]
