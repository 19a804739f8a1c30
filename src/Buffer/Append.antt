-- ===== src/Buffer/Append.antt =====
-- `cceph_buffer_append`: the invariant of a buffer, and what is in it.
use mathlib.Core.List.{append_assoc, append-nil}
use Prim.Native.Nat.{min}
use ceph_in_c.Base.{
  ℕ, zero, suc, ◌+◌, ◌-◌, ◌*◌, ◌≤◌, ◌<◌, ◌≡◌, ◌⊎◌, refl, ◌∙◌, sym, ap, inl, inr, Bool-cases, true,
  List, [], ◌∷◌, ◌++◌, arith, ◌==◌, length, take, drop, length-append, length-take, length-drop,
}
use ceph_in_c.Base.Errno.{Errno, ok, err_no_enough_mem, Exit, returns}
use ceph_in_c.Base.Alloc.{Alloc, malloc}
use ceph_in_c.Buffer.{
  BufferNode, Buffer, node_length, buffer_node_new, ensure_room, put_bytes, in_bounds, append_from,
  buffer_append, contents,
}
use ceph_in_c.Buffer.Slices.{take_add}

-- The bytes of a buffer.
abbrev pub content : Buffer → List ℕ
content b = contents b.before ++ b.current.written

-- The nodes before the last one are full.
abbrev pub Full : List BufferNode → Type 0
Full [] = Unit
Full (n ∷ ns) = (length n.written ≡ node_length) × Full ns

pub record Shape (b : Buffer) : Type 0 where
  pub full : Full b.before
  pub current_length : b.current.length ≡ node_length
  pub fits : length b.current.written ≤ node_length
  pub offset : b.offset ≡ length (content b)
  pub length_lem : b.length ≡ node_length * suc (length b.before)

-- A node is there for its bytes: the last node of a buffer is empty only in the empty buffer.
pub record IsValid (b : Buffer) : Type 0 where
  pub shape : Shape b
  pub started : (b.before ≡ []) ⊎ (0 < length b.current.written)

pub contents-append : (ms ns : List BufferNode) → contents (ms ++ ns) ≡ contents ms ++ contents ns
unfolding contents
contents-append [] ns = refl
contents-append (m ∷ ms) ns =
    ap (λ xs. m.written ++ xs) (contents-append ms ns)
    ∙ sym (append_assoc m.written (contents ms) (contents ns))

pub length-contents :
    (ns : List BufferNode) → Full ns → length (contents ns) ≡ node_length * length ns
unfolding contents
length-contents [] f = refl
length-contents (n ∷ ns) f =
    omega (arith, length-append n.written (contents ns), length-contents ns f.1, f.0)

Full-append :
    (ns : List BufferNode) (n : BufferNode)
    → Full ns
    → length n.written ≡ node_length
    → Full (ns ++ (n ∷ []))
Full-append [] n f e = (e, tt)
Full-append (m ∷ ms) n f e = (f.0, Full-append ms n f.1 e)

-- A buffer with room in its last node, which has the bytes that another one had.
pub record Roomy (b : Buffer) (out : Errno × Buffer × Alloc) : Type 0 where
  pub result : Buffer
  pub rest : Alloc
  pub returned : out ≡ (ok, result, rest)
  pub shape : Shape result
  pub room : length result.current.written < node_length
  pub same : content result ≡ content b

grown : Buffer → Buffer
grown b = record b {
  before = b.before ++ (b.current ∷ []);
  current = record { written = []; length = node_length };
  length = b.length + node_length;
}

grown_same : (b : Buffer) → content (grown b) ≡ content b
unfolding grown contents
grown_same b =
    ap (λ xs. xs ++ []) (contents-append b.before (b.current ∷ []))
    ∙ append-nil (contents b.before ++ contents (b.current ∷ []))
    ∙ ap (λ xs. contents b.before ++ xs) (append-nil b.current.written)

grown-Shape : (b : Buffer) → Shape b → length b.current.written ≡ node_length → Shape (grown b)
unfolding grown
grown-Shape b s e = record {
  full = Full-append b.before b.current s.full e;
  current_length = refl;
  fits = omega arith;
  offset = s.offset ∙ ap length (sym (grown_same b));
  length_lem = omega (arith, s.length_lem, length-append b.before (b.current ∷ []));
}

pub ensure_room-Roomy :
    (b : Buffer) (a : Alloc)
    → Shape b
    → (Roomy b (ensure_room b a)) ⊎ (ensure_room b a ≡ (err_no_enough_mem, b, (malloc a).1))
unfolding ensure_room buffer_node_new grown
ensure_room-Roomy b a s = elim (Bool-cases (b.current.length - length b.current.written == 0)) [
  | inr room ↦ inl (record {
    result = b;
    rest = a;
    returned = ground arith;
    shape = s;
    room = ground (arith, s.current_length, s.fits);
    same = refl;
  })
  | inl none_left ↦
      let e : length b.current.written ≡ node_length = ground (arith, s.current_length, s.fits) in
      elim (Bool-cases (malloc a).0) [
        | inl m ↦ inl (record {
          result = grown b;
          rest = (malloc a).1;
          returned = ground (arith, m);
          shape = grown-Shape b s e;
          room = omega arith;
          same = grown_same b;
        })
        | inr m ↦ inr (ground (arith, m))
      ]
]

-- Bytes for which there is room are put behind the others, and the assertions of the round hold.
pub put_bytes-IsValid :
    (b : Buffer) (xs : List ℕ)
    → Shape b
    → 0 < length xs
    → length b.current.written + length xs ≤ node_length
    → IsValid (put_bytes b xs)
      × (content (put_bytes b xs) ≡ content b ++ xs)
      × (in_bounds (put_bytes b xs) ≡ true)
put_bytes-IsValid b xs s some_there fits =
    let long = length-append b.current.written xs in
    let more : content (put_bytes b xs) ≡ content b ++ xs =
      sym (append_assoc (contents b.before) b.current.written xs) in
    let all = length-append (content b) xs in
    let size = length-append (contents b.before) b.current.written in
    let blocks = length-contents b.before s.full in
    (
      record {
        shape = record {
          full = s.full;
          current_length = s.current_length;
          fits = omega (arith, long);
          offset = omega (arith, s.offset, all, ap length more);
          length_lem = s.length_lem;
        };
        started = inr (omega (arith, long));
      },
      more,
      ground (arith, long, s.current_length, s.offset, s.length_lem, size, blocks),
    )

-- What an append comes to: everything is there, or an allocation failed and a proper prefix is.
pub record Grown (b : Buffer) (bytes : List ℕ) (out : Exit (Errno × Buffer × Alloc)) : Type 0 where
  pub err : Errno
  pub result : Buffer
  pub rest : Alloc
  pub count : ℕ
  pub returned : out ≡ returns (err, result, rest)
  pub valid : IsValid result
  pub recorded : content result ≡ content b ++ take count bytes
  pub complete :
      ((err ≡ ok) × (count ≡ length bytes)) ⊎ ((err ≡ err_no_enough_mem) × (count < length bytes))

pub joined :
    (k n : ℕ) (start bytes : List ℕ) {old new end : List ℕ}
    → end ≡ new ++ take n (drop k bytes)
    → new ≡ old ++ take k bytes
    → old ≡ start
    → end ≡ start ++ take (k + n) bytes
joined k n start bytes e w o =
    rw (e, w, o, append_assoc) (ap (λ ys. start ++ ys) (take_add k n bytes))

append_from-Grown :
    (rounds : ℕ) (b : Buffer) (bytes : List ℕ) (a : Alloc)
    → length bytes ≤ rounds
    → IsValid b
    → Grown b bytes (append_from rounds b bytes a)
unfolding append_from
append_from-Grown rounds b [] a h v = record {
  err = ok;
  result = b;
  rest = a;
  count = 0;
  returned = refl;
  valid = v;
  recorded = sym (append-nil (content b));
  complete = inl (refl, refl);
}
append_from-Grown zero b (x ∷ xs) a h v = absurd (omega arith)
append_from-Grown (suc rounds) b (x ∷ xs) a h v = elim (ensure_room-Roomy b a v.shape) [
  | inr failed ↦ record {
    err = err_no_enough_mem;
    result = b;
    rest = (malloc a).1;
    count = 0;
    returned = ground (arith, failed);
    valid = v;
    recorded = sym (append-nil (content b));
    complete = inr (refl, omega arith);
  }
  | inl r ↦
      let k = min (length (x ∷ xs)) (r.result.current.length - length r.result.current.written) in
      let part : List ℕ = take k (x ∷ xs) in
      let size = length-take k (x ∷ xs) in
      let (v₂, more, bounds) =
        put_bytes-IsValid r.result part r.shape
          (omega (arith, size, r.shape.current_length, r.room))
          (omega (arith, size, r.shape.current_length, r.room)) in
      let d =
        append_from-Grown rounds (put_bytes r.result part) (drop k (x ∷ xs)) r.rest
          (omega (arith, length-drop k (x ∷ xs), r.shape.current_length, r.room)) v₂ in
      record {
        err = d.err;
        result = d.result;
        rest = d.rest;
        count = k + d.count;
        returned = ground (arith, r.returned, bounds, d.returned);
        valid = d.valid;
        recorded = joined k d.count (content b) (x ∷ xs) d.recorded more r.same;
        complete = ground (arith, d.complete, length-drop k (x ∷ xs));
      }
]

-- `cceph_buffer_append` of some bytes to a valid buffer always returns, whichever allocations
-- fail: its assertions hold. The buffer stays valid. Where it returns CCEPH_OK all the bytes are
-- behind the old ones, and otherwise, on CCEPH_ERR_NO_ENOUGH_MEM, a proper prefix of them is.
pub buffer_append-Grown :
    (b : Buffer) (x : ℕ) (xs : List ℕ) (a : Alloc)
    → IsValid b
    → Grown b (x ∷ xs) (buffer_append b (x ∷ xs) a)
unfolding buffer_append
buffer_append-Grown b x xs a v = append_from-Grown (length (x ∷ xs)) b (x ∷ xs) a (omega arith) v
