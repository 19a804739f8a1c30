-- ===== src/Encode/Bytes.antt =====
-- Integers as bytes in memory.
use ceph_in_c.Base.{ℕ, zero, suc, ◌*◌, ◌/◌, ◌<◌, ◌≡◌, refl, ap, arith, length}
use ceph_in_c.Encode.{bytes_of, value_of}

-- 256 ^ k
unfoldable pub bound : ℕ → ℕ
bound zero = 1
bound (suc k) = 256 * bound k

pub length-bytes_of : (k n : ℕ) → length (bytes_of k n) ≡ k
unfolding bytes_of
length-bytes_of zero n = refl
length-bytes_of (suc k) n = ap suc (length-bytes_of k (n / 256))

-- An integer that k bytes can hold is read back from its k bytes.
pub value_of-bytes_of : (k n : ℕ) → n < bound k → value_of (bytes_of k n) ≡ n
unfolding bytes_of value_of bound
value_of-bytes_of zero n h = omega arith
value_of-bytes_of (suc k) n h = omega (arith, value_of-bytes_of k (n / 256) (omega arith))
