-- ===== src/Tran/Get.antt =====
-- The operations of a transaction, read by their index.
use ceph_in_c.Base.{
  ℕ, zero, suc, ◌≡◌, refl, ap, none, some, List, [], ◌∷◌, map, arith, leb, length, take, get_elem?,
  if◌then◌else◌, length-take,
}
use ceph_in_c.Tran.{TranOp, slot, Tran, get_op_count, get_op}
use ceph_in_c.Tran.Ops.{ops, IsValid}

module _ {ℓ} {A : Type ℓ} where
  get_elem?-take :
      (n i : ℕ) (xs : List A) → get_elem? (take n xs) i ≡ (if leb n i then none else get_elem? xs i)
  get_elem?-take zero i xs = ground arith
  get_elem?-take (suc n) i [] = ground arith
  get_elem?-take (suc n) zero (x ∷ xs) = ground arith
  get_elem?-take (suc n) (suc i) (x ∷ xs) = ground (arith, get_elem?-take n i xs)

slot-map-some : (xs : List TranOp) (i : ℕ) → slot (get_elem? (map some xs) i) ≡ get_elem? xs i
slot-map-some [] i = refl
slot-map-some (x ∷ xs) zero = refl
slot-map-some (x ∷ xs) (suc i) = slot-map-some xs i

length-map-some : (xs : List TranOp) → length (map some xs) ≡ length xs
length-map-some [] = refl
length-map-some (x ∷ xs) = ap suc (length-map-some xs)

-- Of a valid transaction, `cceph_os_tran_get_op` reads the list of its operations at every index,
-- NULL outside, and `cceph_os_tran_get_op_count` is its length.
pub get_op-ops :
    (t : Tran) (i : ℕ)
    → IsValid t
    → (get_op t i ≡ get_elem? (ops t) i) × (get_op_count t ≡ length (ops t))
unfolding get_op get_op_count
get_op-ops t i v = (
  ground (
    arith,
    get_elem?-take t.op_buffer_index i t.op_buffer,
    ap (λ xs. slot (get_elem? xs i)) v.written,
    slot-map-some (ops t) i,
  ),
  omega (
    arith,
    v.sized,
    v.fits,
    ap length v.written,
    length-map-some (ops t),
    length-take t.op_buffer_index t.op_buffer,
  ),
)
