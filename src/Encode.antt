-- ===== src/Encode.antt =====
-- common/encode.c: integers and strings in a buffer. An integer of k bytes is its bit pattern,
-- below 256 ^ k, and its bytes in memory are in little-endian order.
pub mod Bytes
pub mod RoundTrip
use ceph_in_c.Base.{
  ℕ, zero, suc, ◌+◌, ◌*◌, ◌/◌, ◌%◌, ◌^◌, List, [], ◌∷◌, ◌++◌, length, take, drop, if◌then◌else◌,
}
use ceph_in_c.Base.Int.{ℤ, pos, negsuc, signed32, to_int}
use ceph_in_c.Base.Order.{CString}
use ceph_in_c.Base.Errno.{Errno, ok, err_no_enough_mem, Exit, returns, abort, ◌>>=◌}
use ceph_in_c.Base.Alloc.{Alloc, malloc}
use ceph_in_c.Buffer.{Buffer, buffer_append, BufferReader, reader_read}

-- The k bytes of an integer in memory.
unfoldable pub bytes_of : ℕ → ℕ → List ℕ
bytes_of zero value = []
bytes_of (suc k) value = value % 256 ∷ bytes_of k (value / 256)

-- The integer that bytes in memory are.
unfoldable pub value_of : List ℕ → ℕ
value_of [] = 0
value_of (b ∷ bs) = b + 256 * value_of bs

-- CCEPH_ENCODE_BASIC_TYPE for a type of k bytes.
unfoldable pub encode_basic : ℕ → Buffer → ℕ → Alloc → Exit (Errno × Buffer × Alloc)
unfolding bytes_of
encode_basic k buffer value a = buffer_append buffer (bytes_of k value) a

-- The code, and what is in `*value` afterwards: the bytes that were read over the old ones.
unfoldable pub decode_basic : ℕ → BufferReader → ℕ → Exit (Errno × ℕ × BufferReader)
unfolding bytes_of value_of
decode_basic k reader old = reader_read reader k >>= λ r.
    returns (r.0, value_of (r.1 ++ drop (length r.1) (bytes_of k old)), r.2)

-- An append of an int number of bytes, which is asserted to be positive.
abbrev pub append_int : Buffer → List ℕ → ℤ → Alloc → Exit (Errno × Buffer × Alloc)
append_int buffer bytes (pos n) a = buffer_append buffer (take n bytes) a
append_int buffer bytes (negsuc n) a = abort

-- `int length = strlen(value)`, then its four bytes, then the string without its NUL.
unfoldable pub encode_string : Buffer → CString → Alloc → Exit (Errno × Buffer × Alloc)
unfolding bytes_of
encode_string buffer value a = buffer_append buffer (bytes_of 4 (length value % 2 ^ 32)) a >>= λ r.
    elim r.0 [
      | ok ↦ append_int r.1 value (to_int (pos (length value))) r.2
      | err ↦ returns (err, r.1, r.2)
    ]

-- The part of `cceph_decode_string` behind the length. A negative size is no size for `malloc`.
abbrev pub read_string : BufferReader → ℤ → Alloc → Exit (Errno × List ℕ × BufferReader × Alloc)
read_string reader (negsuc n) a = returns (err_no_enough_mem, [], reader, (malloc a).1)
read_string reader (pos n) a =
    let (there, a') = malloc a in
    if there
    then (reader_read reader n >>= λ r. returns (r.0, r.1, r.2, a'))
    else returns (err_no_enough_mem, [], reader, a')

-- The bytes behind `*value`, none where it stays NULL; no NUL is put behind them.
unfoldable pub decode_string : BufferReader → Alloc → Exit (Errno × List ℕ × BufferReader × Alloc)
unfolding value_of bytes_of
decode_string reader a = decode_basic 4 reader 0 >>= λ r. elim r.0 [
  | ok ↦ read_string r.2 (signed32 r.1) a
  | err ↦ returns (err, [], r.2, a)
]
