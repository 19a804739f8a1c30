-- ===== src/MemStore/Content.antt =====
-- The bytes of an object after a write.
use mathlib.Core.List.{append-nil}
use ceph_in_c.Base.{
  ℕ, zero, suc, ◌+◌, ◌-◌, ◌≤◌, ◌≡◌, refl, sym, ◌∙◌, ap, inl, inr, some, List, [], ◌∷◌, ◌++◌, arith,
  ltb, length, get_elem?, take, drop, replicate, length-append, length-take, length-replicate,
  if◌then◌else◌, Bool-cases,
}
use ceph_in_c.Base.Alloc.{Alloc, Plenty, malloc-Plenty}
use ceph_in_c.MemStore.{expand, copy_into, write_content}
use ceph_in_c.MemStore.Spec.{spliced}

module _ {ℓ} {A : Type ℓ} where
  get_elem?-append :
      (xs ys : List A) (i : ℕ)
      → get_elem? (xs ++ ys) i
        ≡ (if ltb i (length xs) then get_elem? xs i else get_elem? ys (i - length xs))
  get_elem?-append [] ys i = ground arith
  get_elem?-append (x ∷ xs) ys zero = ground arith
  get_elem?-append (x ∷ xs) ys (suc i) = ground (arith, get_elem?-append xs ys i)

  take-append : (n : ℕ) (xs ys : List A) → take n (xs ++ ys) ≡ take n xs ++ take (n - length xs) ys
  take-append zero [] ys = let e : 0 ≡ 0 - 0 = omega arith in ap (λ k. take k ys) e
  take-append zero (x ∷ xs) ys =
      let e : 0 ≡ 0 - suc (length xs) = omega arith in ap (λ k. take k ys) e
  take-append (suc n) [] ys = let e : suc n ≡ suc n - 0 = omega arith in ap (λ k. take k ys) e
  take-append (suc n) (x ∷ xs) ys =
      let e : n - length xs ≡ suc n - suc (length xs) = omega arith in
      ap (λ zs. x ∷ zs) (take-append n xs ys ∙ ap (λ k. take n xs ++ take k ys) e)

  drop_beyond : (n : ℕ) (xs : List A) → length xs ≤ n → drop n xs ≡ []
  drop_beyond zero [] h = refl
  drop_beyond zero (x ∷ xs) h = absurd (omega arith)
  drop_beyond (suc n) [] h = refl
  drop_beyond (suc n) (x ∷ xs) h = drop_beyond n xs (omega arith)

  take-replicate : (n m : ℕ) (a : A) → n ≤ m → take n (replicate m a) ≡ replicate n a
  take-replicate zero m a h = refl
  take-replicate (suc n) zero a h = absurd (omega arith)
  take-replicate (suc n) (suc m) a h = ap (λ xs. a ∷ xs) (take-replicate n m a (omega arith))

-- The part before the write is the same whether the object was expanded or not.
take-expand :
    (content : List ℕ) (offset end : ℕ)
    → offset ≤ end
    → take offset (expand content end)
      ≡ take offset (content ++ replicate (offset - length content) 0)
unfolding expand
take-expand content offset end h =
    let n = length content in
    take-append offset content (replicate (end - n) 0)
    ∙ ap (λ xs. take offset content ++ xs)
        (take-replicate (offset - n) (end - n) 0 (omega arith)
          ∙ sym (take-replicate (offset - n) (offset - n) 0 (omega arith)))
    ∙ sym (take-append offset content (replicate (offset - n) 0))

expand_within : (content : List ℕ) (end : ℕ) → end ≤ length content → expand content end ≡ content
unfolding expand
expand_within content end h =
    let e : end - length content ≡ 0 = omega arith in
    ap (λ k. content ++ replicate k 0) e ∙ append-nil content

length-expand :
    (content : List ℕ) (end : ℕ) → length content ≤ end → length (expand content end) ≡ end
unfolding expand
length-expand content end h = omega (
  arith,
  length-append content (replicate (end - length content) 0),
  length-replicate {A = ℕ} (end - length content) 0,
)

drop-expand : (content : List ℕ) (end : ℕ) → drop end (expand content end) ≡ drop end content
drop-expand content end = elim (Bool-cases (ltb (length content) end)) [
  | inl short ↦
      drop_beyond end (expand content end) (omega (arith, length-expand content end (ground arith)))
      ∙ sym (drop_beyond end content (ground arith))
  | inr long ↦ ap (drop end) (expand_within content end (ground arith))
]

-- On an object of any length, a copy into the expanded bytes is the splice.
copy_into-expand :
    (content : List ℕ) (offset size : ℕ) (bytes : List ℕ)
    → size ≤ length bytes
    → copy_into (expand content (offset + size)) offset size bytes
      ≡ spliced content offset (take size bytes)
unfolding copy_into spliced
copy_into-expand content offset size bytes fits =
    let len : length (take size bytes) ≡ size = omega (arith, length-take size bytes, fits) in
    rw (take-expand content offset (offset + size) (omega arith), drop-expand, len) refl

-- With enough memory a write gives the spliced bytes, whether the object grows or not.
pub write_content-spliced :
    (content : List ℕ) (offset size : ℕ) (bytes : List ℕ) (a : Alloc)
    → size ≤ length bytes
    → Plenty a
    → (a' : Alloc) × (write_content content offset size bytes a
        ≡ (some (spliced content offset (take size bytes)), a'))
      × Plenty a'
unfolding write_content
write_content-spliced content offset size bytes a fits p =
    let (a', e, p') = malloc-Plenty a p in
    let done = copy_into-expand content offset size bytes fits in
    elim (Bool-cases (ltb (length content) (offset + size))) [
      | inl short ↦ (a', ground (arith, e, done), p')
      | inr long ↦
          let kept =
            ap (λ c. copy_into c offset size bytes)
              (sym (expand_within content (offset + size) (ground arith)))
            ∙ done in
          (a, ground (arith, kept), p)
    ]
