-- ===== src/Client/Counting.antt =====
-- What an acknowledgement does to the list of waiting requests, and when it signals.
use ceph_in_c.Base.{
  ℕ, ◌<◌, ◌≡◌, refl, ap, Bool, true, false, Option, none, some, List, [], ◌∷◌, arith, inl, inr,
  Bool-cases, Option-cases, if◌then◌else◌,
}
use ceph_in_c.Base.Errno.{ok, returns}
use ceph_in_c.Client.{
  WaitReq, Client, Ack, is_acked, count_ack, ack_loop, has_quorum, do_object_write_ack,
}

-- The list with one more acknowledgement of the first write request that has the number.
unfoldable pub first_counted : ℕ → List WaitReq → List WaitReq
first_counted id [] = []
first_counted id (w ∷ ws) = if is_acked id w then count_ack w ∷ ws else w ∷ first_counted id ws

-- The first write request that has the number.
unfoldable pub first_acked : ℕ → List WaitReq → Option WaitReq
first_acked id [] = none
first_acked id (w ∷ ws) = if is_acked id w then some w else first_acked id ws

abbrev pub is_some : {A : Type 0} → Option A → Bool
is_some none = false
is_some (some a) = true

-- The last request of the list, or else what was there before.
unfoldable pub last_or : Option WaitReq → List WaitReq → Option WaitReq
last_or before [] = before
last_or before (w ∷ ws) = last_or (some w) ws

-- Once a request was found the loop changes nothing, and goes on to the last one.
ack_loop-found :
    (check : Bool) (last : Option WaitReq) (id : ℕ) (ws : List WaitReq)
    → ack_loop check true last id ws ≡ (true, last_or last ws, ws)
unfolding ack_loop last_or
ack_loop-found check last id [] = refl
ack_loop-found check last id (w ∷ ws) =
    let rest = ack_loop-found check (some w) id ws in
    elim (Bool-cases (is_acked id w)) [
      | inl y ↦ rw (ack_loop, y, rest) refl
      | inr n ↦ rw (ack_loop, n, rest) refl
    ]

-- The request at which the loop ends without the check for duplicates.
end_at : Option WaitReq → ℕ → List WaitReq → Option WaitReq
end_at last id [] = last
end_at last id (w ∷ ws) = if is_acked id w then some (count_ack w) else end_at (some w) id ws

end_at-first :
    (last : Option WaitReq) (id : ℕ) (ws : List WaitReq) {w : WaitReq}
    → first_acked id ws ≡ some w
    → end_at last id ws ≡ some (count_ack w)
unfolding end_at first_acked
end_at-first last id [] h = cc
end_at-first last id (v ∷ ws) {w} h = elim (Bool-cases (is_acked id v)) [
  | inl y ↦
      let same : v ≡ w = ground (arith, y) in rw (end_at, y) (ap (λ z. some (count_ack z)) same)
  | inr n ↦ rw (end_at, n) (end_at-first (some v) id ws (ground (arith, n)))
]

-- What `wait_req` is at the end of the loop.
abbrev loop_end : Bool → Option WaitReq → ℕ → List WaitReq → Option WaitReq
loop_end true last id ws = last_or last (first_counted id ws)
loop_end false last id ws = end_at last id ws

ack_loop-first :
    (check : Bool) (last : Option WaitReq) (id : ℕ) (ws : List WaitReq)
    → ack_loop check false last id ws
      ≡ (is_some (first_acked id ws), loop_end check last id ws, first_counted id ws)
unfolding ack_loop first_acked first_counted last_or end_at
ack_loop-first true last id [] = refl
ack_loop-first false last id [] = refl
ack_loop-first true last id (w ∷ ws) = elim (Bool-cases (is_acked id w)) [
  | inl y ↦ rw (ack_loop, y, ack_loop-found true (some (count_ack w)) id ws) refl
  | inr n ↦ rw (ack_loop, n, ack_loop-first true (some w) id ws) refl
]
ack_loop-first false last id (w ∷ ws) = elim (Bool-cases (is_acked id w)) [
  | inl y ↦ rw (ack_loop, y) refl
  | inr n ↦ rw (ack_loop, n, ack_loop-first false (some w) id ws) refl
]

abbrev quorum_of : Option WaitReq → Bool
quorum_of none = false
quorum_of (some w) = has_quorum w

-- Whether an acknowledgement signals: without the check for duplicates by the request that it
-- counts for, and with the check by the last request of the list.
abbrev pub signals : Bool → ℕ → List WaitReq → Bool
signals check id ws = elim (first_acked id ws) [
  | none ↦ false
  | some w ↦
      if check then quorum_of (last_or none (first_counted id ws)) else has_quorum (count_ack w)
]

last_or-some : (w : WaitReq) (ws : List WaitReq) → (z : WaitReq) × (last_or (some w) ws ≡ some z)
unfolding last_or
last_or-some w [] = (w, refl)
last_or-some w (v ∷ ws) = last_or-some v ws

last_or-first_counted :
    (id : ℕ) (ws : List WaitReq) {w : WaitReq}
    → first_acked id ws ≡ some w
    → (z : WaitReq) × (last_or none (first_counted id ws) ≡ some z)
unfolding first_acked first_counted last_or
last_or-first_counted id [] h = cc
last_or-first_counted id (v ∷ ws) h = elim (Bool-cases (is_acked id v)) [
  | inl y ↦ rw (y) (last_or-some (count_ack v) ws)
  | inr n ↦ rw (n) (last_or-some v (first_counted id ws))
]

-- An acknowledgement for the client, on a connection with a positive id, always returns CCEPH_OK.
-- It counts once, for the first write request that has its number, whether or not duplicates are
-- checked for, and changes no other request; where there is no such request it changes nothing. It
-- signals as `signals` says.
pub do_object_write_ack-first :
    (check : Bool) (client : Client) (conn_id : ℕ) (ack : Ack)
    → 0 < conn_id
    → ack.client_id ≡ client.client_id
    → do_object_write_ack check client conn_id ack
      ≡ returns (
        ok,
        record client { wait_req_list = first_counted ack.req_id client.wait_req_list },
        signals check ack.req_id client.wait_req_list,
      )
unfolding do_object_write_ack
do_object_write_ack-first true client conn_id ack h e =
    let id = ack.req_id in
    let ws = client.wait_req_list in
    let loop = ack_loop-first true none id ws in
    elim (Option-cases (first_acked id ws)) [
      | inl n ↦ ground (arith, loop, n)
      | inr (w, y) ↦ let (z, last) = last_or-first_counted id ws y in ground (arith, loop, y, last)
    ]
do_object_write_ack-first false client conn_id ack h e =
    let id = ack.req_id in
    let ws = client.wait_req_list in
    let loop = ack_loop-first false none id ws in
    elim (Option-cases (first_acked id ws)) [
      | inl n ↦ ground (arith, loop, n)
      | inr (w, y) ↦ ground (arith, loop, y, end_at-first none id ws y)
    ]
