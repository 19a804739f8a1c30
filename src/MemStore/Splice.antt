-- ===== src/MemStore/Splice.antt =====
-- What the bytes of an object are after a write, byte by byte, and what is read back.
use ceph_in_c.Base.{
  ℕ, zero, suc, ◌+◌, ◌-◌, ◌^◌, ◌≤◌, ◌<◌, ◌≡◌, refl, ◌∙◌, ap, Option, some, none, List, [], ◌∷◌,
  ◌++◌, arith, ltb, length, take, drop, replicate, get_elem?, length-append, length-take,
  length-drop, length-replicate, if◌then◌else◌, inl, inr, Bool-cases,
}
use ceph_in_c.Base.Int.{pos}
use ceph_in_c.Base.Errno.{ok}
use ceph_in_c.Base.Alloc.{Alloc, Plenty}
use ceph_in_c.OsTypes.Update.{take-length}
use ceph_in_c.MemStore.{write_content}
use ceph_in_c.MemStore.Spec.{spliced}
use ceph_in_c.MemStore.Content.{write_content-spliced}
use ceph_in_c.MemStore.Read.{read_content}
use ceph_in_c.MemStore.Read.Bytes.{read_content-part}

module _ {ℓ} {A : Type ℓ} where
  get_elem?-append :
      (xs ys : List A) (i : ℕ)
      → get_elem? (xs ++ ys) i
        ≡ (if ltb i (length xs) then get_elem? xs i else get_elem? ys (i - length xs))
  get_elem?-append [] ys i = ground arith
  get_elem?-append (x ∷ xs) ys zero = ground arith
  get_elem?-append (x ∷ xs) ys (suc i) = ground (arith, get_elem?-append xs ys i)

  get_elem?-take_lem :
      (n i : ℕ) (xs : List A) → get_elem? (take n xs) i ≡ (if ltb i n then get_elem? xs i else none)
  get_elem?-take_lem zero i xs = ground arith
  get_elem?-take_lem (suc n) i [] = ground arith
  get_elem?-take_lem (suc n) zero (x ∷ xs) = ground arith
  get_elem?-take_lem (suc n) (suc i) (x ∷ xs) = ground (arith, get_elem?-take_lem n i xs)

  get_elem?-drop : (n i : ℕ) (xs : List A) → get_elem? (drop n xs) i ≡ get_elem? xs (n + i)
  get_elem?-drop zero i xs = ap (get_elem? xs) (omega arith)
  get_elem?-drop (suc n) i [] = ground arith
  get_elem?-drop (suc n) i (x ∷ xs) =
      get_elem?-drop n i xs
      ∙ ap (get_elem? (x ∷ xs)) {x = suc (n + i)} {y = suc n + i} (omega arith)

  get_elem?-replicate :
      (n i : ℕ) (a : A) → get_elem? (replicate n a) i ≡ (if ltb i n then some a else none)
  get_elem?-replicate zero i a = ground arith
  get_elem?-replicate (suc n) zero a = ground arith
  get_elem?-replicate (suc n) (suc i) a = ground (arith, get_elem?-replicate n i a)

  take_front : (xs ys : List A) → take (length xs) (xs ++ ys) ≡ xs
  take_front [] ys = ground arith
  take_front (x ∷ xs) ys = ap (λ zs. x ∷ zs) (take_front xs ys)

  drop_front : (n : ℕ) (xs ys : List A) → length xs ≡ n → drop n (xs ++ ys) ≡ ys
  drop_front zero [] ys e = refl
  drop_front (suc n) [] ys e = absurd (omega arith)
  drop_front zero (x ∷ xs) ys e = absurd (omega arith)
  drop_front (suc n) (x ∷ xs) ys e = drop_front n xs ys (omega arith)

-- The byte at a place after a write of `bytes` at `offset`.
abbrev pub byte_after : List ℕ → ℕ → List ℕ → ℕ → Option ℕ
byte_after content offset bytes i =
    if ltb i offset
    then (if ltb i (length content) then get_elem? content i else some 0)
    else if ltb i (offset + length bytes)
    then get_elem? bytes (i - offset)
    else get_elem? content i

length-head :
    (content : List ℕ) (offset : ℕ)
    → length (take offset (content ++ replicate (offset - length content) 0)) ≡ offset
length-head content offset =
    let zeros : List ℕ = replicate (offset - length content) 0 in
    omega (
      arith,
      length-take offset (content ++ zeros),
      length-append content zeros,
      length-replicate {A = ℕ} (offset - length content) 0,
    )

get_elem?-head :
    (content : List ℕ) (offset i : ℕ)
    → i < offset
    → get_elem? (take offset (content ++ replicate (offset - length content) 0)) i
      ≡ (if ltb i (length content) then get_elem? content i else some 0)
get_elem?-head content offset i h =
    let zeros : List ℕ = replicate (offset - length content) 0 in
    ground (
      arith,
      get_elem?-take_lem offset i (content ++ zeros),
      get_elem?-append content zeros i,
      get_elem?-replicate {A = ℕ} (offset - length content) (i - length content) 0,
    )

get_elem?-tail :
    (content bytes : List ℕ) (offset i : ℕ)
    → offset ≤ i
    → get_elem? (bytes ++ drop (offset + length bytes) content) (i - offset) ≡ (
        if ltb i (offset + length bytes) then get_elem? bytes (i - offset) else get_elem? content i)
get_elem?-tail content bytes offset i h =
    let rest = drop (offset + length bytes) content in
    let split = get_elem?-append bytes rest (i - offset) in
    let behind = get_elem?-drop (offset + length bytes) (i - offset - length bytes) content in
    elim (Bool-cases (ltb i (offset + length bytes))) [
      | inl inside ↦ ground (arith, split)
      | inr outside ↦
          let at =
            ap (get_elem? content) {x = offset + length bytes + (i - offset - length bytes)} {y = i}
              (ground arith) in
          ground (arith, split, behind, at)
    ]

-- Where no allocation fails, a write changes the bytes from `offset` on to those that are written,
-- and fills the gap behind the old end with zeros; every other byte stays. The object is as long as
-- before, or ends with the written bytes.
pub get_elem?-write_content :
    (content : List ℕ) (offset : ℕ) (bytes : List ℕ) (a : Alloc) (i : ℕ)
    → Plenty a
    → (after : List ℕ) × (a' : Alloc) × (write_content content offset (length bytes) bytes a
        ≡ (some after, a'))
      × (get_elem? after i ≡ byte_after content offset bytes i)
      × (length after ≡ offset + length bytes + (length content - (offset + length bytes)))
unfolding spliced
get_elem?-write_content content offset bytes a i p =
    let (a', e, p') = write_content-spliced content offset (length bytes) bytes a (omega arith) p in
    let head = take offset (content ++ replicate (offset - length content) 0) in
    let rest = bytes ++ drop (offset + length bytes) content in
    let long = length-head content offset in
    let split = get_elem?-append head rest i in
    (
      spliced content offset bytes,
      a',
      e ∙ ap (λ bs. (some (spliced content offset bs), a')) (take-length bytes),
      elim (Bool-cases (ltb i offset)) [
        | inl low ↦ ground (arith, long, split, get_elem?-head content offset i (ground arith))
        | inr high ↦
            ground (arith, long, split, get_elem?-tail content bytes offset i (ground arith))
      ],
      omega (
        arith,
        long,
        length-append head rest,
        length-append bytes (drop (offset + length bytes) content),
        length-drop (offset + length bytes) content,
      ),
    )

-- What was written is read back: a read of as many bytes at the same offset, returns exactly the
-- bytes of the write before it, where the object is shorter than 2 ^ 31 bytes before and the write
-- ends below 2 ^ 31, some bytes are written, and no allocation fails.
pub read_content-write_content :
    (content : List ℕ) (offset b : ℕ) (bs : List ℕ) (a : Alloc)
    → length content < 2 ^ 31
    → offset + length (b ∷ bs) < 2 ^ 31
    → Plenty a
    → (after : List ℕ) × (a₁ : Alloc) × (a₂ : Alloc) × (write_content content offset
          (length (b ∷ bs))
          (b ∷ bs)
          a
        ≡ (some after, a₁))
      × (read_content after offset (pos (length (b ∷ bs))) a₁ ≡ (ok, b ∷ bs, a₂))
unfolding spliced
read_content-write_content content offset b bs a small fits p =
    let bytes = b ∷ bs in
    let (a₁, e, p₁) = write_content-spliced content offset (length bytes) bytes a (omega arith) p in
    let after = spliced content offset bytes in
    let rest = drop (offset + length bytes) content in
    let head = take offset (content ++ replicate (offset - length content) 0) in
    let long = length-head content offset in
    let size : length after < 2 ^ 31 = omega (
      arith,
      long,
      length-append head (bytes ++ rest),
      length-append bytes rest,
      length-drop (offset + length bytes) content,
    ) in
    let (a₂, r, p₂) =
      read_content-part after offset (pos (length bytes)) a₁ size (omega arith) p₁ in
    (
      after,
      a₁,
      a₂,
      e ∙ ap (λ bs. (some (spliced content offset bs), a₁)) (take-length bytes),
      r
          ∙ ap (λ bs. (ok, bs, a₂))
              (ap (take (length bytes)) (drop_front offset head (bytes ++ rest) long)
                ∙ take_front bytes rest),
    )
