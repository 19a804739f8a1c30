-- ===== src/Io/Send.antt =====
-- What is written to a socket that takes all the bytes.
use mathlib.Core.List.{append_assoc}
use ceph_in_c.Base.{
  ℕ, ◌^◌, ◌%◌, ◌<◌, ◌≡◌, refl, ◌∙◌, ap, true, false, List, [], ◌∷◌, ◌++◌, arith, leb, ◌==◌, length,
  take, length-take,
}
use ceph_in_c.Base.Int.{ℤ, pos, negsuc, signed16, is_nat, to_int, to_int-of_lt}
use ceph_in_c.Base.Order.{CString}
use ceph_in_c.Base.Errno.{Exit, returns}
use ceph_in_c.Buffer.Slices.{take_whole}
use ceph_in_c.Encode.{bytes_of}
use ceph_in_c.Encode.Bytes.{length-bytes_of}
use ceph_in_c.Io.{
  Sent, whole, part, fails, Out, Result, send, send_int8, send_int, send_string, send_data,
}

-- The calls to come take all the bytes.
abbrev pub AllWhole : List Sent → Type 0
AllWhole [] = Unit
AllWhole (whole ∷ ss) = AllWhole ss
AllWhole (part n e ∷ ss) = ⊥
AllWhole (fails e ∷ ss) = ⊥

-- A call that sent all of the bytes, and what it left.
pub record Wrote (o : Out) (bytes : List ℕ) (r : ℤ × Out) : Type 0 where
  pub success : r.0 ≡ pos 0
  pub wired : r.1.wire ≡ o.wire ++ bytes
  pub still : AllWhole r.1.outcomes

-- The same of a call of `send`.
record Taken (o : Out) (bytes : List ℕ) (r : Result) : Type 0 where
  counted : r.ret ≡ pos (length bytes)
  wired : r.out.wire ≡ o.wire ++ bytes
  still : AllWhole r.out.outcomes

module _ (wire bytes : List ℕ) (h : length bytes < 2 ^ 31) where
  counted_lem : to_int (pos (length (take (length bytes) bytes))) ≡ pos (length bytes)
  counted_lem =
      ap (λ bs. to_int (pos (length bs))) (take_whole (length bytes) bytes (omega arith))
      ∙ to_int-of_lt (length bytes) h

  wired_lem : wire ++ take (length bytes) bytes ≡ wire ++ bytes
  wired_lem = ap (λ bs. wire ++ bs) (take_whole (length bytes) bytes (omega arith))

  send-Taken :
      (outs : List Sent)
      → AllWhole outs
      → let o : Out = record { outcomes = outs; wire = wire } in Taken o bytes (send o bytes)
  unfolding send
  send-Taken [] a = record { counted = counted_lem; wired = wired_lem; still = tt }
  send-Taken (whole ∷ ss) a = record { counted = counted_lem; wired = wired_lem; still = a }
  send-Taken (part n e ∷ ss) a = absurd a
  send-Taken (fails e ∷ ss) a = absurd a

pub send_int8-Wrote :
    (o : Out) (value : ℕ) → AllWhole o.outcomes → Wrote o (bytes_of 1 value) (send_int8 o value)
unfolding send_int8
send_int8-Wrote o value a =
    let long = length-bytes_of 1 value in
    let t = send-Taken o.wire (bytes_of 1 value) (omega (arith, long)) o.outcomes a in
    let all : is_nat (send o (bytes_of 1 value)).ret 1 ≡ true = ground (arith, t.counted, long) in
    record { success = ground (arith, all); wired = rw all t.wired; still = rw all t.still }

pub send_int-Wrote :
    (k : ℕ) (o : Out) (value : ℕ)
    → k < 2 ^ 31
    → AllWhole o.outcomes
    → Wrote o (bytes_of k value) (send_int k o value)
unfolding send_int
send_int-Wrote k o value h a =
    let long = length-bytes_of k value in
    let t = send-Taken o.wire (bytes_of k value) (omega (arith, long)) o.outcomes a in
    let all : is_nat (send o (bytes_of k value)).ret k ≡ true = ground (arith, t.counted, long) in
    record { success = ground (arith, all); wired = rw all t.wired; still = rw all t.still }

-- A call that returns, and that sent all of the bytes.
pub record Written (o : Out) (bytes : List ℕ) (r : Exit (ℤ × Out)) : Type 0 where
  pub out : Out
  pub returned : r ≡ returns (pos 0, out)
  pub wired : out.wire ≡ o.wire ++ bytes
  pub still : AllWhole out.outcomes

-- A string shorter than 2 ^ 15 bytes is sent as its length, in two bytes, and its bytes.
pub send_string-Written :
    (o : Out) (string : CString)
    → length string < 2 ^ 15
    → AllWhole o.outcomes
    → Written o (bytes_of 2 (length string) ++ string) (send_string o string)
unfolding send_string
send_string-Written o string h a =
    let n = length string in
    let low : n % 2 ^ 16 ≡ n = omega arith in
    let long = length-bytes_of 2 n in
    let size = send o (bytes_of 2 n) in
    let t = send-Taken o.wire (bytes_of 2 n) (omega (arith, long)) o.outcomes a in
    let sized : is_nat size.ret 2 ≡ true = ground (arith, t.counted, long) in
    let same : take n string ≡ string = take_whole n string (omega arith) in
    let u = send-Taken size.out.wire string (omega arith) size.out.outcomes t.still in
    let all : is_nat (send size.out string).ret n ≡ true = ground (arith, u.counted) in
    let positive : signed16 n ≡ pos n = ground arith in
    record {
      out = (send size.out string).out;
      returned = rw (send_string, low, sized, positive, same, low, all) refl;
      wired = u.wired ∙ ap (λ w. w ++ string) t.wired ∙ append_assoc o.wire (bytes_of 2 n) string;
      still = u.still;
    }

-- Data of fewer than 2 ^ 31 bytes are sent as their length, in eight bytes, and themselves.
pub send_data-Written :
    (o : Out) (data' : List ℕ)
    → length data' < 2 ^ 31
    → AllWhole o.outcomes
    → Written o (bytes_of 8 (length data') ++ data') (send_data o (length data') data')
unfolding send_data
send_data-Written o data' h a =
    let n = length data' in
    let long = length-bytes_of 8 n in
    let size = send o (bytes_of 8 n) in
    let t = send-Taken o.wire (bytes_of 8 n) (omega (arith, long)) o.outcomes a in
    let sized : is_nat size.ret 8 ≡ true = ground (arith, t.counted, long) in
    let same : take n data' ≡ data' = take_whole n data' (omega arith) in
    let u = send-Taken size.out.wire data' h size.out.outcomes t.still in
    let all : is_nat (send size.out data').ret n ≡ true = ground (arith, u.counted) in
    let within : leb n n ≡ true = ground arith in
    record {
      out = (send size.out data').out;
      returned = rw (send_data, sized, within, same, all) refl;
      wired = u.wired ∙ ap (λ w. w ++ data') t.wired ∙ append_assoc o.wire (bytes_of 8 n) data';
      still = u.still;
    }

-- A call of `send` that takes only some of the bytes, as `errno` is e, is an error of `cceph_send_int8`,
-- which returns -1, where it took none, but the calls for two, four and eight bytes return e, which
-- is not negative.
pub send_int-part :
    (k n e value : ℕ) (left : List Sent) (o : Out)
    → n < k
    → k < 2 ^ 31
    → o.outcomes ≡ part n e ∷ left
    → ((send_int k o value).0 ≡ pos e)
      × ((send_int8 (record o { outcomes = part 0 e ∷ left }) value).0 ≡ negsuc 0)
unfolding send_int send_int8 send
send_int-part k n e value left o h b eq =
    let bytes : List ℕ = bytes_of k value in
    let some_ : length (take n bytes) ≡ n =
      omega (arith, length-take n bytes, length-bytes_of k value) in
    let count : to_int (pos (length (take n bytes))) ≡ pos n =
      ap (λ m. to_int (pos m)) some_ ∙ to_int-of_lt n (omega arith) in
    let short : (n == k) ≡ false = ground arith in
    (rw (send_int, eq, count, short) refl, rw (send_int8, to_int-of_lt 0 (omega arith)) refl)
