-- ===== src/Io/Bytes.antt =====
-- What a receiver gets of a stream of bytes, however it is cut into segments.
use ceph_in_c.Base.{
  ℕ, zero, suc, ◌+◌, ◌-◌, ◌^◌, ◌≤◌, ◌<◌, ◌≡◌, refl, ◌∙◌, sym, ap, inl, inr, Bool-cases,
  length-append, List, [], ◌∷◌, ◌++◌, arith, leb, length, take, drop, if◌then◌else◌,
}
use ceph_in_c.Buffer.Slices.{take_within, take_over, drop_within, drop_over, take_whole}
use ceph_in_c.Base.Int.{pos, to_int-of_lt}
use ceph_in_c.Base.Errno.{err_conn_closed, errno_code}
use ceph_in_c.Io.{Inbox, segment, again, broken, put_back, recv_loop}

-- All the bytes that come.
abbrev pub stream : Inbox → List ℕ
stream [] = []
stream (segment b bs ∷ s) = (b ∷ bs) ++ stream s
stream (again ∷ s) = stream s
stream (broken ∷ s) = stream s

-- No call fails with another error than EAGAIN.
abbrev pub Clear : Inbox → Type 0
Clear [] = Unit
Clear (segment b bs ∷ s) = Clear s
Clear (again ∷ s) = Clear s
Clear (broken ∷ s) = ⊥

-- What a call of `cceph_recv_from_conn` does to a stream of bytes.
pub record Received (size total : ℕ) (s : Inbox) : Type 0 where
  pub rest : Inbox
  pub returned : recv_loop size total s ≡ (
    if leb size (length (stream s)) then pos (total + size) else errno_code err_conn_closed,
    take size (stream s),
    rest,
  )
  pub clear : Clear rest
  pub left : stream rest ≡ drop size (stream s)

stream-put_back : (bs : List ℕ) (s : Inbox) → stream (put_back bs s) ≡ bs ++ stream s
stream-put_back [] s = refl
stream-put_back (b ∷ bs) s = refl

Clear-put_back : (bs : List ℕ) (s : Inbox) → Clear s → Clear (put_back bs s)
Clear-put_back [] s c = c
Clear-put_back (b ∷ bs) s c = c

same_code :
    (size got total left : ℕ) {all : ℕ}
    → got ≤ size
    → all ≡ got + left
    → (if leb (size - got) left
        then pos (total + got + (size - got))
        else errno_code err_conn_closed)
      ≡ (if leb size all then pos (total + size) else errno_code err_conn_closed)
same_code size got total left h e = ground arith

-- On a connection without errors other than EAGAIN, and for fewer than 2 ^ 31 bytes in all, the loop of
-- `cceph_recv_from_conn` ends. However the bytes are cut into segments, it puts the first `size` of
-- them into the buffer, returns the total, and leaves the others; where the peer closes before
-- `size` bytes have come it returns CCEPH_ERR_CONN_CLOSED.
pub recv_loop-Received :
    (size total : ℕ) (s : Inbox) → total + size < 2 ^ 31 → Clear s → Received size total s
unfolding recv_loop
recv_loop-Received zero total s h c = record {
  rest = s;
  returned = ground (arith, to_int-of_lt total (omega arith));
  clear = c;
  left = refl;
}
recv_loop-Received (suc n) total [] h c = record {
  rest = [];
  returned = ground arith;
  clear = tt;
  left = refl;
}
recv_loop-Received (suc n) total (again ∷ s) h c =
    let r = recv_loop-Received (suc n) total s h c in
    record { rest = r.rest; returned = r.returned; clear = r.clear; left = r.left }
recv_loop-Received (suc n) total (broken ∷ s) h c = absurd c
recv_loop-Received (suc n) total (segment b bs ∷ s) h c =
    elim (Bool-cases (leb (length (b ∷ bs)) (suc n))) [
      | inl y ↦
          let seg : List ℕ = b ∷ bs in
          let there : length seg ≤ suc n = ground (arith, y) in
          let r = recv_loop-Received (suc n - length seg) (total + length seg) s (omega arith) c in
          record {
            rest = r.rest;
            returned =
                let last : take (suc n) (stream (segment b bs ∷ s))
                    ≡ seg ++ take (suc n - length seg) (stream s) =
                  take_over (suc n) seg (stream s) there in
                let code : (if leb (suc n - length seg) (length (stream s))
                      then pos (total + length seg + (suc n - length seg))
                      else errno_code err_conn_closed)
                    ≡ (if leb (suc n) (length (seg ++ stream s))
                        then pos (total + suc n)
                        else errno_code err_conn_closed) =
                  same_code (suc n) (length seg) total (length (stream s)) there
                    (length-append seg (stream s)) in
                rw (recv_loop, y, r.returned) (λ i. (code i, sym last i, r.rest));
            clear = r.clear;
            left = r.left ∙ sym (drop_over (suc n) seg (stream s) there);
          }
      | inr m ↦
          let seg : List ℕ = b ∷ bs in
          let there : suc n ≤ length seg = ground (arith, m) in
          record {
            rest = put_back (drop (suc n) seg) s;
            returned =
                let first : take (suc n) (stream (segment b bs ∷ s)) ≡ take (suc n) seg =
                  take_within (suc n) seg (stream s) there in
                ground
                  (arith, m, first, length-append seg (stream s), to_int-of_lt (total + suc n) h);
            clear = Clear-put_back (drop (suc n) seg) s c;
            left =
                stream-put_back (drop (suc n) seg) s
                ∙ sym (drop_within (suc n) seg (stream s) there);
          }
    ]

-- What is left after bytes were received that came first.
pub record Came (xs later : List ℕ) (s : Inbox) : Type 0 where
  pub rest : Inbox
  pub returned : recv_loop (length xs) 0 s ≡ (pos (length xs), xs, rest)
  pub clear : Clear rest
  pub left : stream rest ≡ later

pub recv_loop-first :
    (xs later : List ℕ) (s : Inbox)
    → length xs < 2 ^ 31
    → Clear s
    → stream s ≡ xs ++ later
    → Came xs later s
recv_loop-first xs later s h c e =
    let r = recv_loop-Received (length xs) 0 s (omega arith) c in
    let n = length xs in
    let code : (if leb n (length (stream s)) then pos (0 + n) else errno_code err_conn_closed)
        ≡ pos n =
      ground (arith, ap length e, length-append xs later) in
    let bytes : take n (stream s) ≡ xs =
      ap (take n) e ∙ take_within n xs later (omega arith) ∙ take_whole n xs (omega arith) in
    let behind : drop n (stream s) ≡ later =
      ap (drop n) e
      ∙ drop_over n xs later (omega arith)
      ∙ ap (λ k. drop k later) {x = n - n} {y = 0} (omega arith) in
    record {
      rest = r.rest;
      returned = r.returned ∙ (λ i. (code i, bytes i, r.rest));
      clear = r.clear;
      left = r.left ∙ behind;
    }
