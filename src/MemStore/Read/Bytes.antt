-- ===== src/MemStore/Read/Bytes.antt =====
-- The bytes that a read returns.
use ceph_in_c.Base.{
  ℕ, zero, suc, ◌+◌, ◌-◌, ◌^◌, ◌≤◌, ◌<◌, ◌≡◌, refl, ◌∙◌, sym, ap, List, [], ◌∷◌, arith, ltb, length,
  take, drop, length-drop, inl, inr, Bool-cases,
}
use ceph_in_c.Base.Int.{ℤ, pos, negsuc, to_int, to_int-of_lt, to_int-negsuc}
use ceph_in_c.Base.Errno.{ok}
use ceph_in_c.Base.Alloc.{Alloc, Plenty, malloc-Plenty}
use ceph_in_c.MemStore.Read.{read_length, read_content}

-- The bytes from `offset` on: as many as are wanted, or all where the number is not positive.
abbrev pub part : List ℕ → ℕ → ℤ → List ℕ
part content offset (negsuc n) = drop offset content
part content offset (pos zero) = drop offset content
part content offset (pos (suc n)) = take (suc n) (drop offset content)

-- The number fits an int.
abbrev pub FitsInt : ℤ → Type 0
FitsInt (pos n) = n < 2 ^ 31
FitsInt (negsuc n) = n < 2 ^ 31

module _ {ℓ} {A : Type ℓ} where
  drop_end : (n : ℕ) (xs : List A) → length xs ≤ n → drop n xs ≡ []
  drop_end zero [] h = refl
  drop_end zero (x ∷ xs) h = absurd (omega arith)
  drop_end (suc n) [] h = refl
  drop_end (suc n) (x ∷ xs) h = drop_end n xs (omega arith)

  take_end : (n : ℕ) (xs : List A) → length xs ≤ n → take n xs ≡ xs
  take_end zero [] h = refl
  take_end zero (x ∷ xs) h = absurd (omega arith)
  take_end (suc n) [] h = refl
  take_end (suc n) (x ∷ xs) h = ap (λ ys. x ∷ ys) (take_end n xs (omega arith))

part_end :
    (content : List ℕ) (offset : ℕ) (wanted : ℤ)
    → length content ≤ offset
    → part content offset wanted ≡ []
part_end content offset (negsuc n) h = drop_end offset content h
part_end content offset (pos zero) h = drop_end offset content h
part_end content offset (pos (suc n)) h = ap (take (suc n)) (drop_end offset content h)

-- The size that is read, inside an object.
part-read_length :
    (content : List ℕ) (offset : ℕ) (wanted : ℤ)
    → length content < 2 ^ 31
    → FitsInt wanted
    → offset < length content
    → (n : ℕ) × (read_length wanted (length content) offset ≡ pos n)
      × (take n (drop offset content) ≡ part content offset wanted)
unfolding read_length
part-read_length content offset (negsuc n) small fits inside = (
  length content - offset,
  ground (
    arith,
    to_int-negsuc n fits,
    to_int-of_lt (length content) small,
    to_int-of_lt (length content - offset) (omega arith),
  ),
  take_end (length content - offset) (drop offset content)
      (omega (arith, length-drop offset content)),
)
part-read_length content offset (pos zero) small fits inside = (
  length content - offset,
  ground (
    arith,
    to_int-of_lt 0 fits,
    to_int-of_lt (length content) small,
    to_int-of_lt (length content - offset) (omega arith),
  ),
  take_end (length content - offset) (drop offset content)
      (omega (arith, length-drop offset content)),
)
part-read_length content offset (pos (suc n)) small fits inside =
    let left = length content - offset in
    let rest = length-drop offset content in
    elim (Bool-cases (ltb left (suc n))) [
      | inl short ↦ (
        left,
        ground (arith, to_int-of_lt (suc n) fits, to_int-of_lt left (omega arith)),
        take_end left (drop offset content) (omega (arith, rest))
            ∙ sym (take_end (suc n) (drop offset content) (ground (arith, rest))),
      )
      | inr long ↦ (suc n, ground (arith, to_int-of_lt (suc n) fits), refl)
    ]

-- Of an object that is shorter than 2 ^ 31 bytes, a read whose `length` fits an int returns the
-- bytes from `offset` on, as many as are wanted, or all where `length` is not positive, and none
-- behind the end of the object, where no allocation fails.
pub read_content-part :
    (content : List ℕ) (offset : ℕ) (wanted : ℤ) (a : Alloc)
    → length content < 2 ^ 31
    → FitsInt wanted
    → Plenty a
    → (a' : Alloc) × (read_content content offset wanted a ≡ (ok, part content offset wanted, a'))
      × Plenty a'
unfolding read_content
read_content-part content offset wanted a small fits p =
    let (a', m, p') = malloc-Plenty a p in
    elim (Bool-cases (ltb offset (length content))) [
      | inl inside ↦
          let (n, size, same) = part-read_length content offset wanted small fits (ground arith) in
          (a', ground (arith, m, size, same), p')
      | inr behind ↦ (a, ground (arith, part_end content offset wanted (ground arith)), p)
    ]

-- A `length` of 2 ^ 32 + n bytes is cut to its low 32 bits: of an object with at least n bytes
-- from `offset` on, only the first n of them are returned, where the whole rest was asked for.
-- Here n is positive, the object is shorter than 2 ^ 31 bytes, and no allocation fails.
pub read_content-truncates :
    (content : List ℕ) (offset n : ℕ) (a : Alloc)
    → 0 < n
    → offset + n ≤ length content
    → length content < 2 ^ 31
    → Plenty a
    → (a' : Alloc) × (read_content content offset (pos (2 ^ 32 + n)) a
        ≡ (ok, take n (drop offset content), a'))
unfolding read_content read_length
read_content-truncates content offset n a h fits small p =
    let (a', m, p') = malloc-Plenty a p in
    let cut : to_int (pos (2 ^ 32 + n)) ≡ pos n = unfold to_int in ground arith in
    (a', ground (arith, m, cut))
