-- ===== src/Client/Finish.antt =====
-- `is_req_finished`: which request is finished, and what is left of the list.
use ceph_in_c.Base.{
  ℕ, ◌≡◌, refl, ap, Bool, true, false, ◌||◌, ◌&&◌, Option, none, some, List, [], ◌∷◌, ◌++◌, arith,
  ltb, ◌==◌, inl, inr, Bool-cases,
}
use ceph_in_c.Client.{WaitReq, Client, has_quorum, finished_loop, is_req_finished}

-- The entry is finished: there is a commit, or more than half of the servers have acknowledged.
abbrev pub is_done : WaitReq → Bool
is_done w = ltb 0 w.commit_count || has_quorum w

-- No entry of the request is finished.
abbrev pub Pending : ℕ → List WaitReq → Type 0
Pending req [] = Unit
Pending req (w ∷ ws) = (((w.req == req) && is_done w) ≡ false) × Pending req ws

-- What the search for a finished entry comes to: the entry stood in the list, and is taken out of
-- it, or no entry is finished, and the list is as it was.
abbrev pub Searched : ℕ → List WaitReq → Option WaitReq → List WaitReq → Type 0
Searched req ws none left = (left ≡ ws) × Pending req ws
Searched req ws (some w) left =
    ((w.req == req) ≡ true)
    × (is_done w ≡ true)
    × (before : List WaitReq) × (after : List WaitReq) × (ws ≡ before ++ (w ∷ after))
    × (left ≡ before ++ after)

-- An entry that is not finished stays before the rest.
Searched-cons :
    (req : ℕ) (v : WaitReq) (ws : List WaitReq) (found : Option WaitReq) (left : List WaitReq)
    → ((v.req == req) && is_done v) ≡ false
    → Searched req ws found left
    → Searched req (v ∷ ws) found (v ∷ left)
Searched-cons req v ws none left n s = (ap (λ l. v ∷ l) s.0, (n, s.1))
Searched-cons req v ws (some w) left n s =
    let (here, done, before, after, e, l) = s in
    (here, done, v ∷ before, after, ap (λ l. v ∷ l) e, ap (λ l. v ∷ l) l)

finished_loop-Searched :
    (req : ℕ) (ws : List WaitReq)
    → Searched req ws (finished_loop req ws).0 (finished_loop req ws).1
unfolding finished_loop
finished_loop-Searched req [] = (refl, tt)
finished_loop-Searched req (w ∷ ws) =
    let rest = Searched-cons req w ws (finished_loop req ws).0 (finished_loop req ws).1 in
    let more = finished_loop-Searched req ws in
    elim (Bool-cases (w.req == req)) [
      | inr n ↦ rw (finished_loop, n) (rest (ground (arith, n)) more)
      | inl y ↦ elim (Bool-cases (ltb 0 w.commit_count)) [
        | inl c ↦ rw (finished_loop, y, c) (y, ground (arith, c), [], ws, refl, refl)
        | inr c ↦ elim (Bool-cases (has_quorum w)) [
          | inl q ↦ rw (finished_loop, y, c, q) (y, ground (arith, q), [], ws, refl, refl)
          | inr q ↦ rw (finished_loop, y, c, q) (rest (ground (arith, c, q)) more)
        ]
      ]
    ]

-- `is_req_finished` returns an entry of the request only if it is finished, and takes that entry
-- and no other out of the list; where it returns none, no entry of the request is finished and the
-- list is as it was.
pub is_req_finished-Searched :
    (client : Client) (req : ℕ)
    → Searched req client.wait_req_list
        (is_req_finished client req).0
        (is_req_finished client req).1.wait_req_list
unfolding is_req_finished
is_req_finished-Searched client req = finished_loop-Searched req client.wait_req_list
