-- ===== src/Io.antt =====
-- message/io.c: integers, strings and data on a socket.
pub mod Bytes
pub mod Receive
pub mod Send
use ceph_in_c.Base.{
  ℕ, zero, suc, ◌+◌, ◌-◌, ◌^◌, ◌%◌, Bool, true, false, Option, none, some, List, [], ◌∷◌, ◌++◌, ltb,
  leb, ◌==◌, length, take, drop, if◌then◌else◌,
}
use ceph_in_c.Base.Int.{ℤ, pos, negsuc, signed16, is_neg, is_nat, to_int}
use ceph_in_c.Base.Order.{CString}
use ceph_in_c.Base.Errno.{err_conn_closed, errno_code, Exit, returns, abort, ◌>>=◌}
use ceph_in_c.Base.Alloc.{Alloc, malloc}
use ceph_in_c.Encode.{bytes_of, value_of}

-- What comes of one call of `send`: the kernel takes all the bytes, or only some of them (and
-- `errno` is what an earlier call left), or the call returns -1.
pub data Sent : Type 0 where
  whole : Sent
  part : ℕ → ℕ → Sent
  fails : ℕ → Sent

-- A socket that is written to: what comes of the next calls (after the end of the list they take
-- all the bytes), and the bytes that were taken.
pub record Out : Type 0 where
  pub outcomes : List Sent
  pub wire : List ℕ

-- What `send` returns, as an int, and `errno`.
pub record Result : Type 0 where
  pub ret : ℤ
  pub errno : ℕ
  pub out : Out

abbrev take_bytes : ℕ → ℕ → List Sent → Out → List ℕ → Result
take_bytes n errno left o bytes = record {
  ret = to_int (pos (length (take n bytes)));
  errno = errno;
  out = record { outcomes = left; wire = o.wire ++ take n bytes };
}

unfoldable pub send : Out → List ℕ → Result
send o bytes = elim o.outcomes [
  | [] ↦ take_bytes (length bytes) 0 [] o bytes
  | s ∷ left ↦ elim s [
    | whole ↦ take_bytes (length bytes) 0 left o bytes
    | part n errno ↦ take_bytes n errno left o bytes
    | fails errno ↦ record { ret = negsuc 0; errno = errno; out = record o { outcomes = left } }
  ]
]

-- `ret < 0 ? ret : errno`
abbrev pub err_no : Result → ℤ
err_no r = if is_neg r.ret then r.ret else pos r.errno

-- An error that is made negative.
abbrev pub negative : ℤ → ℤ
negative e = if is_neg e then e else negsuc 0

unfoldable pub send_int8 : Out → ℕ → ℤ × Out
send_int8 o value =
    let r = send o (bytes_of 1 value) in
    if is_nat r.ret 1 then (pos 0, r.out) else (negative (err_no r), r.out)

-- An integer of k bytes, which is 2, 4 or 8; the error is returned as it is.
unfoldable pub send_int : ℕ → Out → ℕ → ℤ × Out
send_int k o value =
    let r = send o (bytes_of k value) in
    if is_nat r.ret k then (pos 0, r.out) else (err_no r, r.out)

abbrev pub send_int16 : Out → ℕ → ℤ × Out
send_int16 o value = send_int 2 o value

abbrev pub send_int32 : Out → ℕ → ℤ × Out
send_int32 o value = send_int 4 o value

abbrev pub send_int64 : Out → ℕ → ℤ × Out
send_int64 o value = send_int 8 o value

-- The bytes behind a size that was sent before, and the code of the whole.
abbrev send_behind : Out → List ℕ → ℤ × Out
send_behind o bytes =
    let r = send o bytes in
    if is_nat r.ret (length bytes) then (pos 0, r.out) else (negative (err_no r), r.out)

-- `int16_t size = strlen(string)`. A size that is negative reads far past the string, which has no
-- defined result.
unfoldable pub send_string : Out → CString → Exit (ℤ × Out)
send_string o string =
    let size = length string % 2 ^ 16 in
    let r = send o (bytes_of 2 size) in
    if is_nat r.ret 2
    then elim (signed16 size) [
      | pos n ↦ returns (send_behind r.out (take n string))
      | negsuc n ↦ abort
    ]
    else returns (negative (err_no r), r.out)

-- `size` is the int64_t that is sent first; one that is larger than the data, or negative, reads past
-- the data, which has no defined result.
unfoldable pub send_data : Out → ℕ → List ℕ → Exit (ℤ × Out)
send_data o size data' =
    let r = send o (bytes_of 8 size) in
    if is_nat r.ret 8
    then if leb size (length data') then returns (send_behind r.out (take size data')) else abort
    else returns (negative (err_no r), r.out)

-- What calls of `recv` meet: a segment of bytes, at least one, that has come in; EAGAIN; another
-- error. After the end of the list the peer has closed the connection, and `recv` returns 0.
pub data Incoming : Type 0 where
  segment : ℕ → List ℕ → Incoming
  again : Incoming
  broken : Incoming

abbrev pub Inbox : Type 0
Inbox = List Incoming

-- The part of a segment that a call of `recv` left.
abbrev pub put_back : List ℕ → Inbox → Inbox
put_back [] s = s
put_back (b ∷ bs) s = segment b bs ∷ s

-- The loop of `cceph_recv_from_conn`, with `size` and `total`: a call of `recv` takes what it can of
-- the first segment, and the loop calls again for what is missing. The results are what is
-- returned, the bytes in the buffer, and what is left to come.
unfoldable pub recv_loop : ℕ → ℕ → Inbox → ℤ × List ℕ × Inbox
recv_loop zero total s = (to_int (pos total), [], s)
recv_loop (suc n) total [] = (errno_code err_conn_closed, [], [])
recv_loop (suc n) total (again ∷ s) = recv_loop (suc n) total s
recv_loop (suc n) total (broken ∷ s) = (errno_code err_conn_closed, [], s)
recv_loop (suc n) total (segment b bs ∷ s) =
    let count = length (b ∷ bs) in
    let rest = recv_loop (suc n - count) (total + count) s in
    if leb count (suc n)
    then (rest.0, (b ∷ bs) ++ rest.1, rest.2)
    else (to_int (pos (total + suc n)), take (suc n) (b ∷ bs), put_back (drop (suc n) (b ∷ bs)) s)

abbrev pub recv_from_conn : ℕ → Inbox → ℤ × List ℕ × Inbox
recv_from_conn size s = recv_loop size 0 s

-- `(ret == size) ? 0 : (ret < 0 ? ret : -1)`
abbrev pub recv_code : ℤ → ℕ → ℤ
recv_code ret size = if is_nat ret size then pos 0 else negative ret

-- An integer of k bytes, which is 1, 2, 4 or 8: the code, and what is in `*value` afterwards, the bytes
-- that were received over the old ones.
unfoldable pub recv_int : ℕ → ℕ → Inbox → ℤ × ℕ × Inbox
recv_int k old s =
    let (ret, bytes, s') = recv_from_conn k s in
    (recv_code ret k, value_of (bytes ++ drop (length bytes) (bytes_of k old)), s')

abbrev pub recv_int8 : ℕ → Inbox → ℤ × ℕ × Inbox
recv_int8 old s = recv_int 1 old s

abbrev pub recv_int16 : ℕ → Inbox → ℤ × ℕ × Inbox
recv_int16 old s = recv_int 2 old s

abbrev pub recv_int32 : ℕ → Inbox → ℤ × ℕ × Inbox
recv_int32 old s = recv_int 4 old s

abbrev pub recv_int64 : ℕ → Inbox → ℤ × ℕ × Inbox
recv_int64 old s = recv_int 8 old s

-- The code, `*size`, the bytes behind `*string` (or NULL) and what is left.
pub record Block : Type 0 where
  pub code : ℤ
  pub size : ℕ
  pub bytes : Option (List ℕ)
  pub inbox : Inbox
  pub alloc : Alloc

-- The bytes behind a size that was received before.
abbrev recv_behind : ℕ → Inbox → Alloc → Block
recv_behind size s a =
    let (ret, bytes, s') = recv_from_conn size s in
    record {
      code = recv_code ret size;
      size = size;
      bytes = if is_nat ret size then some bytes else none;
      inbox = s';
      alloc = a;
    }

-- Writing the NUL behind a size that is negative, or through the NULL of a `malloc` that failed, has
-- no defined result.
unfoldable pub recv_string : ℕ → Option CString → Inbox → Alloc → Exit Block
recv_string old string s a =
    let (code, size, s') = recv_int16 old s in
    let (there, a') = malloc a in
    if is_nat code 0
    then elim (signed16 size) [
      | pos n ↦ if there then returns (recv_behind n s' a') else abort
      | negsuc n ↦ abort
    ]
    else returns (record { code = code; size = size; bytes = string; inbox = s'; alloc = a })

-- `recv` into the NULL of a `malloc` that failed, as one of a negative size does, is an error of the
-- connection; it is not called for no bytes.
unfoldable pub recv_data : ℕ → Option (List ℕ) → Inbox → Alloc → Block
recv_data old data' s a =
    let (code, size, s') = recv_int64 old s in
    let (there, a') = malloc a in
    let closed : Block = record {
      code = errno_code err_conn_closed;
      size = size;
      bytes = none;
      inbox = s';
      alloc = a';
    } in
    if is_nat code 0
    then if ltb size (2 ^ 63)
      then if there
        then recv_behind size s' a'
        else if size == 0
        then record closed { code = pos 0 }
        else closed
      else closed
    else record { code = code; size = size; bytes = data'; inbox = s'; alloc = a }
