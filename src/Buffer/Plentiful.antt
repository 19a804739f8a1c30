-- ===== src/Buffer/Plentiful.antt =====
-- The buffer where no allocation fails: new, append and flat.
use mathlib.Core.List.{append_assoc, append-nil}
use mathlib.Core.Path.{subst}
use Prim.Native.Nat.{min}
use ceph_in_c.Base.{
  ℕ, zero, suc, ◌-◌, ◌≤◌, ◌≡◌, refl, ◌∙◌, sym, ap, inl, inr, Bool-cases, some, List, [], ◌∷◌, ◌++◌,
  arith, ◌==◌, length, take, drop, length-take, length-drop,
}
use ceph_in_c.Base.Errno.{Errno, ok, Exit, returns}
use ceph_in_c.Base.Alloc.{Alloc, Plenty, malloc-Plenty}
use ceph_in_c.Buffer.{
  Buffer, node_length, buffer_node_new, buffer_new, ensure_room, put_bytes, append_from,
  buffer_append, contents, buffer_flat,
}
use ceph_in_c.Buffer.Slices.{take-drop}
use ceph_in_c.Buffer.Append.{
  content, IsValid, ensure_room-Roomy, put_bytes-IsValid, contents-append,
}

-- A buffer with the bytes behind those that it had.
pub record Appended (b : Buffer) (bytes : List ℕ) (out : Exit (Errno × Buffer × Alloc))
    : Type 0 where
  pub result : Buffer
  pub rest : Alloc
  pub returned : out ≡ returns (ok, result, rest)
  pub valid : IsValid result
  pub recorded : content result ≡ content b ++ bytes
  pub plenty : Plenty rest

buffer_node_new-Plenty :
    (a : Alloc)
    → Plenty a
    → (a' : Alloc) × (buffer_node_new a
        ≡ (some (record { written = []; length = node_length }), a'))
      × Plenty a'
unfolding buffer_node_new
buffer_node_new-Plenty a p = let (a', m, p') = malloc-Plenty a p in (a', ground (arith, m), p')

ensure_room-Plenty :
    (b : Buffer) (a : Alloc) → Plenty a → ((ensure_room b a).0 ≡ ok) × Plenty (ensure_room b a).2
unfolding ensure_room
ensure_room-Plenty b a p =
    let (a', m, p') = buffer_node_new-Plenty a p in
    elim (Bool-cases (b.current.length - length b.current.written == 0)) [
      | inl full ↦
          let same : a' ≡ (ensure_room b a).2 = ground (arith, m) in
          (ground (arith, m), subst Plenty same p')
      | inr room ↦
          let same : a ≡ (ensure_room b a).2 = ground arith in (ground arith, subst Plenty same p)
    ]

-- The last part of the bytes behind the first.
joined_whole :
    (k : ℕ) (start bytes : List ℕ) {old new end : List ℕ}
    → end ≡ new ++ drop k bytes
    → new ≡ old ++ take k bytes
    → old ≡ start
    → end ≡ start ++ bytes
joined_whole k start bytes e w o =
    rw (e, w, o, append_assoc) (ap (λ ys. start ++ ys) (take-drop k bytes))

pub nil_of_length {ℓ} : {A : Type ℓ} (xs : List A) → length xs ≡ 0 → xs ≡ []
nil_of_length [] h = refl
nil_of_length (x ∷ xs) h = absurd (omega arith)

pub contents_all : (b : Buffer) → contents (b.before ++ (b.current ∷ [])) ≡ content b
unfolding contents
contents_all b =
    contents-append b.before (b.current ∷ [])
    ∙ ap (λ xs. contents b.before ++ xs) (append-nil b.current.written)

flat-content :
    (b : Buffer) (a : Alloc)
    → IsValid b
    → Plenty a
    → (a' : Alloc) × (buffer_flat b a ≡ (ok, content b, length (content b), a'))
unfolding buffer_flat
flat-content b a v p =
    let (a', m, p') = malloc-Plenty a p in
    elim (Bool-cases (b.offset == 0)) [
      | inl empty ↦
          let zero_bytes : length (content b) ≡ 0 = ground (arith, v.shape.offset) in
          (a, ground (arith, nil_of_length (content b) zero_bytes, zero_bytes))
      | inr some_there ↦ (a', ground (arith, m, contents_all b, v.shape.offset))
    ]

append_from-Appended :
    (rounds : ℕ) (b : Buffer) (bytes : List ℕ) (a : Alloc)
    → length bytes ≤ rounds
    → IsValid b
    → Plenty a
    → Appended b bytes (append_from rounds b bytes a)
unfolding append_from
append_from-Appended rounds b [] a h v p = record {
  result = b;
  rest = a;
  returned = refl;
  valid = v;
  recorded = sym (append-nil (content b));
  plenty = p;
}
append_from-Appended zero b (x ∷ xs) a h v p = absurd (omega arith)
append_from-Appended (suc rounds) b (x ∷ xs) a h v p = elim (ensure_room-Roomy b a v.shape) [
  | inr failed ↦ absurd (ground (arith, failed, (ensure_room-Plenty b a p).0))
  | inl r ↦
      let k = min (length (x ∷ xs)) (r.result.current.length - length r.result.current.written) in
      let part : List ℕ = take k (x ∷ xs) in
      let size = length-take k (x ∷ xs) in
      let left : Plenty r.rest = rw r.returned at (ensure_room-Plenty b a p).1 in
      let (v₂, more, bounds) =
        put_bytes-IsValid r.result part r.shape
          (omega (arith, size, r.shape.current_length, r.room))
          (omega (arith, size, r.shape.current_length, r.room)) in
      let d =
        append_from-Appended rounds (put_bytes r.result part) (drop k (x ∷ xs)) r.rest
          (omega (arith, length-drop k (x ∷ xs), r.shape.current_length, r.room)) v₂ left in
      record {
        result = d.result;
        rest = d.rest;
        returned = ground (arith, r.returned, bounds, d.returned);
        valid = d.valid;
        recorded = joined_whole k (content b) (x ∷ xs) d.recorded more r.same;
        plenty = d.plenty;
      }
]

-- Where no allocation fails, `cceph_buffer_append` of some bytes to a valid buffer returns
-- CCEPH_OK, puts the bytes behind those that are there, over as many nodes as it takes, and leaves
-- a valid buffer.
pub buffer_append-Appended :
    (b : Buffer) (x : ℕ) (xs : List ℕ) (a : Alloc)
    → IsValid b
    → Plenty a
    → Appended b (x ∷ xs) (buffer_append b (x ∷ xs) a)
unfolding buffer_append
buffer_append-Appended b x xs a v p =
    append_from-Appended (length (x ∷ xs)) b (x ∷ xs) a (omega arith) v p

-- Where no allocation fails, a new buffer is valid and empty, and `cceph_buffer_flat` of a valid
-- buffer returns its bytes and their number.
pub buffer_new-flat :
    (b : Buffer) (a : Alloc)
    → IsValid b
    → Plenty a
    → ((new : Buffer) × (a' : Alloc) × (buffer_new a ≡ (ok, some new, a'))
        × IsValid new
        × (content new ≡ [])
        × Plenty a')
      × ((a' : Alloc) × (buffer_flat b a ≡ (ok, content b, length (content b), a')))
unfolding buffer_new buffer_node_new buffer_flat contents
buffer_new-flat b a v p =
    let (a₁, m₁, p₁) = malloc-Plenty a p in
    let (a₂, m₂, p₂) = malloc-Plenty a₁ p₁ in
    (
      (
        record {
          before = [];
          current = record { written = []; length = node_length };
          length = node_length;
          offset = 0;
        },
        a₂,
        ground (arith, m₁, m₂),
        record {
          shape = record {
            full = tt;
            current_length = refl;
            fits = omega arith;
            offset = refl;
            length_lem = omega arith;
          };
          started = inl refl;
        },
        refl,
        p₂,
      ),
      flat-content b a v p,
    )
