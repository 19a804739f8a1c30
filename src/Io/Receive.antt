-- ===== src/Io/Receive.antt =====
-- Integers, strings and data are received as they were sent.
use mathlib.Core.List.{append-nil}
use ceph_in_c.Base.{
  ℕ, ◌^◌, ◌<◌, ◌≡◌, refl, ◌∙◌, sym, ap, true, Option, some, List, [], ◌++◌, arith, ltb, length,
  drop, length-drop,
}
use ceph_in_c.Base.Int.{pos, signed16, is_nat}
use ceph_in_c.Base.Order.{CString}
use ceph_in_c.Base.Errno.{Exit, returns}
use ceph_in_c.Base.Alloc.{Alloc, Plenty, malloc-Plenty}
use ceph_in_c.Buffer.Plentiful.{nil_of_length}
use ceph_in_c.Encode.{bytes_of, value_of}
use ceph_in_c.Encode.Bytes.{bound, length-bytes_of, value_of-bytes_of}
use ceph_in_c.Io.{Inbox, recv_loop, recv_int, Block, recv_string, recv_data}
use ceph_in_c.Io.Bytes.{stream, Clear, recv_loop-first}
use mathlib.Core.List.{append_assoc}

-- An integer that came whole.
pub record Valued (k value old : ℕ) (later : List ℕ) (s : Inbox) : Type 0 where
  pub rest : Inbox
  pub returned : recv_int k old s ≡ (pos 0, value, rest)
  pub clear : Clear rest
  pub left : stream rest ≡ later

pub recv_int-first :
    (k value old : ℕ) (later : List ℕ) (s : Inbox)
    → k < 2 ^ 31
    → value < bound k
    → Clear s
    → stream s ≡ bytes_of k value ++ later
    → Valued k value old later s
unfolding recv_int
recv_int-first k value old later s h b c e =
    let bytes : List ℕ = bytes_of k value in
    let long : length bytes ≡ k = length-bytes_of k value in
    let r = recv_loop-first bytes later s (omega (arith, long)) c e in
    let stale : List ℕ = drop (length bytes) (bytes_of k old) in
    let covered : stale ≡ [] =
      nil_of_length stale
        (omega (arith, length-drop (length bytes) (bytes_of k old), length-bytes_of k old, long)) in
    let same : value_of (bytes ++ stale) ≡ value =
      ap (λ t. value_of (bytes ++ t)) covered
      ∙ ap value_of (append-nil bytes)
      ∙ value_of-bytes_of k value b in
    let all : is_nat (pos (length bytes)) k ≡ true = ground (arith, long) in
    let got : recv_loop k 0 s ≡ (pos (length bytes), bytes, r.rest) =
      ap (λ m. recv_loop m 0 s) (sym long) ∙ r.returned in
    record {
      rest = r.rest;
      returned = rw (recv_int, got, all, same) refl;
      clear = r.clear;
      left = r.left;
    }

-- A string or data that came whole.
pub record Blocked (bytes later : List ℕ) (r : Exit Block) : Type 0 where
  pub block : Block
  pub returned : r ≡ returns block
  pub success : block.code ≡ pos 0
  pub sized : block.size ≡ length bytes
  pub whole_ : block.bytes ≡ some bytes
  pub clear : Clear block.inbox
  pub left : stream block.inbox ≡ later
  pub plenty : Plenty block.alloc

pub recv_string-first :
    (string : CString) (later : List ℕ) (old : ℕ) (before : Option CString) (s : Inbox) (a : Alloc)
    → length string < 2 ^ 15
    → Clear s
    → Plenty a
    → stream s ≡ (bytes_of 2 (length string) ++ string) ++ later
    → Blocked string later (recv_string old before s a)
unfolding recv_string bound
recv_string-first string later old before s a h c p e =
    let n = length string in
    let size =
      recv_int-first 2 n old (string ++ later) s (omega arith) (omega arith) c
        (e ∙ append_assoc (bytes_of 2 n) string later) in
    let (a', m, p') = malloc-Plenty a p in
    let r = recv_loop-first string later size.rest (omega arith) size.clear size.left in
    let positive : signed16 n ≡ pos n = ground arith in
    let all : is_nat (pos n) n ≡ true = ground arith in
    record {
      block = record { code = pos 0; size = n; bytes = some string; inbox = r.rest; alloc = a' };
      returned = rw (recv_string, size.returned, positive, m, size.returned, r.returned, all) refl;
      success = refl;
      sized = refl;
      whole_ = refl;
      clear = r.clear;
      left = r.left;
      plenty = p';
    }

pub recv_data-first :
    (data' later : List ℕ) (old : ℕ) (before : Option (List ℕ)) (s : Inbox) (a : Alloc)
    → length data' < 2 ^ 31
    → Clear s
    → Plenty a
    → stream s ≡ (bytes_of 8 (length data') ++ data') ++ later
    → Blocked data' later (returns (recv_data old before s a))
unfolding recv_data bound
recv_data-first data' later old before s a h c p e =
    let n = length data' in
    let size =
      recv_int-first 8 n old (data' ++ later) s (omega arith) (omega arith) c
        (e ∙ append_assoc (bytes_of 8 n) data' later) in
    let (a', m, p') = malloc-Plenty a p in
    let r = recv_loop-first data' later size.rest h size.clear size.left in
    let positive : ltb n (2 ^ 63) ≡ true = ground arith in
    let all : is_nat (pos n) n ≡ true = ground arith in
    record {
      block = record { code = pos 0; size = n; bytes = some data'; inbox = r.rest; alloc = a' };
      returned = rw (recv_data, size.returned, m, positive, r.returned, all) refl;
      success = refl;
      sized = refl;
      whole_ = refl;
      clear = r.clear;
      left = r.left;
      plenty = p';
    }
