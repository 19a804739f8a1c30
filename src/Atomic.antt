-- ===== src/Atomic.antt =====
-- common/atomic.c: counters of 32 and 64 bits, as bit patterns. Each call is one locked instruction, so
-- the calls of several threads come one after another.
use ceph_in_c.Base.{ℕ, zero, suc, ◌+◌, ◌-◌, ◌^◌, ◌%◌, ◌<◌, ◌≡◌, ◌≢◌, arith}

-- `cceph_atomic_get`, `cceph_atomic_get64`
abbrev pub atomic_get : ℕ → ℕ
atomic_get v = v

-- `cceph_atomic_set`, `cceph_atomic_set64`: the counter afterwards.
abbrev pub atomic_set : ℕ → ℕ → ℕ
atomic_set v i = i

-- The counter afterwards, which is also the result.
abbrev pub atomic_add : ℕ → ℕ → ℕ
atomic_add v i = (v + i) % 2 ^ 32

abbrev pub atomic_add64 : ℕ → ℕ → ℕ
atomic_add64 v i = (v + i) % 2 ^ 64

-- `-i` on bit patterns.
abbrev pub atomic_sub : ℕ → ℕ → ℕ
atomic_sub v i = atomic_add v ((2 ^ 32 - i) % 2 ^ 32)

abbrev pub atomic_sub64 : ℕ → ℕ → ℕ
atomic_sub64 v i = atomic_add64 v ((2 ^ 64 - i) % 2 ^ 64)

abbrev pub atomic_inc : ℕ → ℕ
atomic_inc v = (v + 1) % 2 ^ 32

abbrev pub atomic_inc64 : ℕ → ℕ
atomic_inc64 v = (v + 1) % 2 ^ 64

abbrev pub atomic_dec : ℕ → ℕ
atomic_dec v = (v + (2 ^ 32 - 1)) % 2 ^ 32

abbrev pub atomic_dec64 : ℕ → ℕ
atomic_dec64 v = (v + (2 ^ 64 - 1)) % 2 ^ 64

-- `cceph_atomic_exchange` and `cceph_atomic_exchange64`: the result, and the counter afterwards.
abbrev pub atomic_exchange : ℕ → ℕ → ℕ × ℕ
atomic_exchange v i = (v, i)

-- The result of the call number n, from 0, that adds 1, whichever thread makes it.
unfoldable pub nth_number : ℕ → ℕ → ℕ
nth_number v zero = atomic_add64 v 1
nth_number v (suc n) = atomic_add64 (nth_number v n) 1

nth_number_lem : (v n : ℕ) → nth_number v n ≡ (v + n + 1) % 2 ^ 64
unfolding nth_number
nth_number_lem v zero = omega arith
nth_number_lem v (suc n) = let rest = nth_number_lem v n in omega (arith, rest)

-- What was added is taken away again, and an increment is undone by a decrement.
pub atomic_sub64-add64 :
    (v i : ℕ)
    → v < 2 ^ 64
    → i < 2 ^ 64
    → (atomic_sub64 (atomic_add64 v i) i ≡ v) × (atomic_dec64 (atomic_inc64 v) ≡ v)
atomic_sub64-add64 v i h k = (omega arith, omega arith)

-- Of any 2 ^ 64 successive calls of `cceph_atomic_add64` with 1, whichever threads make them, no two return
-- the same number.
pub nth_number-distinct : (v i j : ℕ) → i < j → j < i + 2 ^ 64 → nth_number v i ≢ nth_number v j
nth_number-distinct v i j h k same =
    let e = nth_number_lem v i in let f = nth_number_lem v j in omega (arith, e, f, same)
