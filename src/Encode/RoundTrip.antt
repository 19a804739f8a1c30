-- ===== src/Encode/RoundTrip.antt =====
-- What is encoded into a buffer is decoded by a reader.
use mathlib.Core.List.{append_assoc, append-nil}
use ceph_in_c.Base.{
  ℕ, suc, ◌-◌, ◌/◌, ◌%◌, ◌^◌, ◌<◌, ◌≡◌, refl, ◌∙◌, ap, List, [], ◌∷◌, ◌++◌, arith, length, take,
  drop, leb, length-append, length-drop, if◌then◌else◌,
}
use ceph_in_c.Base.Int.{pos, signed32, to_int-of_lt}
use ceph_in_c.Base.Order.{CString}
use ceph_in_c.Base.Errno.{ok, err_buffer_end, returns, abort, ◌>>=◌}
use ceph_in_c.Base.Alloc.{Alloc, Plenty, malloc-Plenty}
use ceph_in_c.Buffer.{Buffer, buffer_append, BufferReader, reader_read}
use ceph_in_c.Buffer.Slices.{take_within, drop_over, take_whole}
use ceph_in_c.Buffer.Append.{content, IsValid}
use ceph_in_c.Buffer.Plentiful.{nil_of_length, Appended, buffer_append-Appended}
use ceph_in_c.Buffer.Reader.{Ready, ahead, reader_read-Took}
use ceph_in_c.Encode.{bytes_of, value_of, encode_basic, decode_basic, encode_string, decode_string}
use ceph_in_c.Encode.Bytes.{bound, length-bytes_of, value_of-bytes_of}

-- A read of as many bytes as stand first before the reader.
pub reader_read-first :
    (r : BufferReader) (x : ℕ) (xs later : List ℕ)
    → Ready r.nodes r.at
    → ahead r.nodes r.at ≡ (x ∷ xs) ++ later
    → (r' : BufferReader) × (reader_read r (length (x ∷ xs)) ≡ returns (ok, x ∷ xs, r'))
      × Ready r'.nodes r'.at
      × (ahead r'.nodes r'.at ≡ later)
reader_read-first r x xs later v e =
    let d = reader_read-Took r (length xs) v in
    let whole : List ℕ = x ∷ xs in
    let bytes : take (length whole) (ahead r.nodes r.at) ≡ whole =
      ap (take (length whole)) e
      ∙ take_within (length whole) whole later (omega arith)
      ∙ take_whole (length whole) whole (omega arith) in
    let code : (if leb (length whole) (length (ahead r.nodes r.at)) then ok else err_buffer_end)
        ≡ ok =
      ground (arith, ap length e, length-append whole later) in
    (
      d.reader,
      d.returned ∙ (λ i. returns (code i, bytes i, d.reader)),
      d.ready,
      d.behind
          ∙ ap (drop (length whole)) e
          ∙ drop_over (length whole) whole later (omega arith)
          ∙ ap (λ k. drop k later) {x = length whole - length whole} {y = 0} (omega arith),
    )

append-bytes_of :
    (k value : ℕ) (b : Buffer) (a : Alloc)
    → IsValid b
    → Plenty a
    → Appended b (bytes_of (suc k) value) (buffer_append b (bytes_of (suc k) value) a)
unfolding bytes_of
append-bytes_of k value b a v p =
    buffer_append-Appended b (value % 256) (bytes_of k (value / 256)) a v p

pub encode_basic-Appended :
    (k value : ℕ) (b : Buffer) (a : Alloc)
    → IsValid b
    → Plenty a
    → Appended b (bytes_of (suc k) value) (encode_basic (suc k) b value a)
unfolding encode_basic
encode_basic-Appended k value b a v p = append-bytes_of k value b a v p

pub decode_basic-first :
    (k value old : ℕ) (r : BufferReader) (later : List ℕ)
    → value < bound (suc k)
    → Ready r.nodes r.at
    → ahead r.nodes r.at ≡ bytes_of (suc k) value ++ later
    → (r' : BufferReader) × (decode_basic (suc k) r old ≡ returns (ok, value, r'))
      × Ready r'.nodes r'.at
      × (ahead r'.nodes r'.at ≡ later)
unfolding decode_basic bytes_of
decode_basic-first k value old r later h v e =
    let long = length-bytes_of k (value / 256) in
    let (r', read, ready, behind) =
      reader_read-first r (value % 256) (bytes_of k (value / 256)) later v e in
    let bytes : List ℕ = value % 256 ∷ bytes_of k (value / 256) in
    let stale : List ℕ = drop (length bytes) (bytes_of (suc k) old) in
    let covered : stale ≡ [] = nil_of_length stale (
      omega (
        arith,
        length-drop (length bytes) (bytes_of (suc k) old),
        length-bytes_of (suc k) old,
        long,
      )) in
    let same : value_of (bytes ++ stale) ≡ value =
      ap (λ t. value_of (bytes ++ t)) covered
      ∙ ap value_of (append-nil bytes)
      ∙ value_of-bytes_of (suc k) value h in
    (
      r',
      ap
            (λ o. o >>= λ r.
              returns (r.0, value_of (r.1 ++ drop (length r.1) (bytes_of (suc k) old)), r.2))
            (ap (reader_read r) {x = suc k} {y = length bytes} (omega (arith, long)) ∙ read)
          ∙ (λ i. returns (ok, same i, r')),
      ready,
      behind,
    )

-- An integer that fits its bytes, of one byte or more, that is encoded into a valid buffer is
-- behind what was there, in a valid buffer, where no allocation fails. A reader that stands before
-- its bytes decodes the same integer, with CCEPH_OK, and stands behind them.
pub decode_basic-encode_basic :
    (k value old : ℕ) (b : Buffer) (a : Alloc) (r : BufferReader) (later : List ℕ)
    → value < bound (suc k)
    → IsValid b
    → Plenty a
    → Ready r.nodes r.at
    → ahead r.nodes r.at ≡ bytes_of (suc k) value ++ later
    → Appended b (bytes_of (suc k) value) (encode_basic (suc k) b value a)
      × ((r' : BufferReader) × (decode_basic (suc k) r old ≡ returns (ok, value, r'))
          × Ready r'.nodes r'.at
          × (ahead r'.nodes r'.at ≡ later))
unfolding encode_basic
decode_basic-encode_basic k value old b a r later h vb p vr e =
    (append-bytes_of k value b a vb p, decode_basic-first k value old r later h vr e)

-- A string that is not empty, and shorter than 2 ^ 31 bytes, is encoded into a valid buffer as its
-- length and its bytes, where no allocation fails.
encode_string-Appended :
    (b : Buffer) (x : ℕ) (xs : CString) (a : Alloc)
    → length (x ∷ xs) < 2 ^ 31
    → IsValid b
    → Plenty a
    → Appended b (bytes_of 4 (length (x ∷ xs)) ++ (x ∷ xs)) (encode_string b (x ∷ xs) a)
unfolding encode_string
encode_string-Appended b x xs a h v p =
    let n = length (x ∷ xs) in
    let low : n % 2 ^ 32 ≡ n = omega arith in
    let d = append-bytes_of 3 n b a v p in
    let s = buffer_append-Appended d.result x xs d.rest d.valid d.plenty in
    record {
      result = s.result;
      rest = s.rest;
      returned =
          rw (encode_string, low, d.returned, to_int-of_lt n h, take_whole n (x ∷ xs) (omega arith))
            s.returned;
      valid = s.valid;
      recorded =
          s.recorded
          ∙ ap (λ ys. ys ++ (x ∷ xs)) d.recorded
          ∙ append_assoc (content b) (bytes_of 4 n) (x ∷ xs);
      plenty = s.plenty;
    }

pub bound_four : bound 4 ≡ 2 ^ 32
unfolding bound
bound_four = omega arith

decode_string-first :
    (x : ℕ) (xs : CString) (r : BufferReader) (a : Alloc) (later : List ℕ)
    → length (x ∷ xs) < 2 ^ 31
    → Plenty a
    → Ready r.nodes r.at
    → ahead r.nodes r.at ≡ (bytes_of 4 (length (x ∷ xs)) ++ (x ∷ xs)) ++ later
    → (r' : BufferReader) × (a' : Alloc) × (decode_string r a ≡ returns (ok, x ∷ xs, r', a'))
      × Ready r'.nodes r'.at
      × (ahead r'.nodes r'.at ≡ later)
unfolding decode_string
decode_string-first x xs r a later h p v e =
    let n = length (x ∷ xs) in
    let (a', m, p') = malloc-Plenty a p in
    let (r₁, sized, ready₁, ahead₁) =
      decode_basic-first 3 n 0 r ((x ∷ xs) ++ later) (omega (arith, bound_four)) v
        (e ∙ append_assoc (bytes_of 4 n) (x ∷ xs) later) in
    let (r₂, read, ready₂, ahead₂) = reader_read-first r₁ x xs later ready₁ ahead₁ in
    let positive : signed32 n ≡ pos n = ground arith in
    (r₂, a', rw (decode_string, sized, positive, m, read) refl, ready₂, ahead₂)

-- A string that is not empty, and shorter than 2 ^ 31 bytes, is encoded into a valid buffer behind
-- what was there, where no allocation fails; the buffer stays valid. A reader that stands before
-- what was encoded decodes the same bytes, with CCEPH_OK, and stands behind them.
pub decode_string-encode_string :
    (x : ℕ) (xs : CString) (b : Buffer) (r : BufferReader) (a c : Alloc) (later : List ℕ)
    → length (x ∷ xs) < 2 ^ 31
    → IsValid b
    → Plenty a
    → Plenty c
    → Ready r.nodes r.at
    → ahead r.nodes r.at ≡ (bytes_of 4 (length (x ∷ xs)) ++ (x ∷ xs)) ++ later
    → Appended b (bytes_of 4 (length (x ∷ xs)) ++ (x ∷ xs)) (encode_string b (x ∷ xs) a)
      × ((r' : BufferReader) × (c' : Alloc) × (decode_string r c ≡ returns (ok, x ∷ xs, r', c'))
          × Ready r'.nodes r'.at
          × (ahead r'.nodes r'.at ≡ later))
decode_string-encode_string x xs b r a c later h v p q ready e =
    (encode_string-Appended b x xs a h v p, decode_string-first x xs r c later h q ready e)

-- The empty string is not encoded: where no allocation fails, its length is written, and then the
-- assertion of `cceph_buffer_append` on the number of bytes ends the process.
pub encode_string-empty :
    (b : Buffer) (a : Alloc) → IsValid b → Plenty a → encode_string b [] a ≡ abort
unfolding encode_string buffer_append
encode_string-empty b a v p =
    let d = append-bytes_of 3 0 b a v p in
    let low : 0 % 2 ^ 32 ≡ 0 = omega arith in
    rw (encode_string, low, d.returned, to_int-of_lt 0 (omega arith)) refl
