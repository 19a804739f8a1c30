-- ===== src/Messenger/Numbers.antt =====
-- The numbers of connections, and what is found by them.
use ceph_in_c.Base.{
  ℕ, ◌-◌, ◌^◌, ◌≤◌, ◌<◌, ◌≡◌, refl, ◌∙◌, ap, true, false, none, some, List, [], ◌∷◌, arith, ◌==◌,
  inl, inr, Bool-cases, Option-cases, if◌then◌else◌,
}
use ceph_in_c.Base.Int.{ℤ, pos, to_int-of_lt}
use ceph_in_c.Base.Errno.{ok, err_conn_not_found}
use ceph_in_c.Messenger.{
  Connection, Messenger, find_conn, has_id, get_conn_by_id, without_conn, close_conn,
}

-- The connections have positive numbers above 1 and at most n, and the later one stands first.
abbrev pub Descends : ℕ → List Connection → Type 0
Descends n [] = Unit
Descends n (c ∷ cs) = (k : ℕ) × ((c.id ≡ pos k) × (1 < k) × (k ≤ n)) × Descends (k - 1) cs

-- The same of a messenger: the numbers are at most the counter, which is positive and an int.
abbrev pub Numbered : Messenger → Type 0
Numbered m = Descends m.next_conn_id m.conn_list × (0 < m.next_conn_id) × (m.next_conn_id < 2 ^ 31)

pub Descends-more : (n l : ℕ) (cs : List Connection) → n ≤ l → Descends n cs → Descends l cs
Descends-more n l [] h d = tt
Descends-more n l (c ∷ cs) h (k, (e, one, le), d) = (k, (e, one, omega arith), d)

pub Descends-without :
    (n : ℕ) (id : ℤ) (cs : List Connection) → Descends n cs → Descends n (without_conn id cs)
unfolding without_conn
Descends-without n id [] d = tt
Descends-without n id (c ∷ cs) (k, (e, one, le), d) = elim (Bool-cases (has_id id c)) [
  | inl y ↦ rw (without_conn, y) (Descends-more (k - 1) n cs (omega arith) d)
  | inr other ↦ rw (without_conn, other) (k, (e, one, le), Descends-without (k - 1) id cs d)
]

-- The test for a number that is an int.
has_id_lem : (j k : ℕ) (c : Connection) → j < 2 ^ 31 → c.id ≡ pos k → has_id (pos j) c ≡ (k == j)
has_id_lem j k c h e = rw (e, to_int-of_lt j h) refl

find_above :
    (n j : ℕ) (cs : List Connection)
    → Descends n cs
    → n < j
    → j < 2 ^ 31
    → find_conn (has_id (pos j)) cs ≡ none
unfolding find_conn
find_above n j [] d h b = refl
find_above n j (c ∷ cs) (k, (e, one, le), d) h b =
    let other : has_id (pos j) c ≡ false = has_id_lem j k c b e ∙ ground arith in
    rw (find_conn, other) (find_above (k - 1) j cs d (omega arith) b)

find-without :
    (n i j : ℕ) (cs : List Connection)
    → Descends n cs
    → i < 2 ^ 31
    → j < 2 ^ 31
    → n < 2 ^ 31
    → find_conn (has_id (pos j)) (without_conn (pos i) cs)
      ≡ (if j == i then none else find_conn (has_id (pos j)) cs)
unfolding find_conn without_conn
find-without n i j [] d hi hj hn = ground arith
find-without n i j (c ∷ cs) (k, (e, one, le), d) hi hj hn =
    let here = has_id_lem i k c hi e in
    let there = has_id_lem j k c hj e in
    let rest = find-without (k - 1) i j cs d hi hj (omega arith) in
    let above : k ≡ j → find_conn (has_id (pos j)) cs ≡ none =
      λ same. find_above (k - 1) j cs d (omega arith) hj in
    elim (Bool-cases (k == i)) [
      | inl y ↦ elim (Bool-cases (k == j)) [
        | inl z ↦
            let equal : (j == i) ≡ true = ground (arith, y, z) in
            rw (without_conn, here, y, equal) (above (ground (arith, z)))
        | inr z ↦
            let differ : (j == i) ≡ false = ground (arith, y, z) in
            rw (without_conn, here, y, differ, there, z) refl
      ]
      | inr y ↦ elim (Bool-cases (k == j)) [
        | inl z ↦
            let differ : (j == i) ≡ false = ground (arith, y, z) in
            rw (without_conn, here, y, find_conn, there, z, differ) refl
        | inr z ↦ rw (without_conn, here, y, find_conn, there, z) rest
      ]
    ]

-- Looking for a number after the first connection with a number was closed.
pub close_conn-find :
    (m : Messenger) (i j : ℕ)
    → Numbered m
    → i < 2 ^ 31
    → j < 2 ^ 31
    → ((close_conn m (pos i)).0
        ≡ elim (get_conn_by_id m (pos i)) [ none ↦ err_conn_not_found | some c ↦ ok ])
      × (get_conn_by_id (close_conn m (pos i)).1 (pos j)
          ≡ (if j == i then none else get_conn_by_id m (pos j)))
unfolding close_conn get_conn_by_id
close_conn-find m i j (d, first, b) hi hj =
    elim (Option-cases (find_conn (has_id (pos i)) m.conn_list)) [
      | inl n ↦ (
        rw (close_conn, n) refl,
        elim (Bool-cases (j == i)) [
          | inl y ↦
              let equal : j ≡ i = ground (arith, y) in
              rw (close_conn, n, y) (ap (λ l. find_conn (has_id (pos l)) m.conn_list) equal ∙ n)
          | inr y ↦ rw (close_conn, n, y) refl
        ],
      )
      | inr (c, y) ↦ (
        rw (close_conn, y) refl,
        rw (close_conn, y) (find-without m.next_conn_id i j m.conn_list d hi hj b),
      )
    ]
