-- ===== src/Osdmap.antt =====
-- common/osdmap.c: the map of the daemons in a buffer. Integers are bit patterns; host and port are
-- not encoded and not in the model.
pub mod RoundTrip
use ceph_in_c.Base.{ℕ, zero, suc, ◌^◌, List, [], ◌∷◌, ◌++◌, ◌==◌, length, take, map, if◌then◌else◌}
use ceph_in_c.Base.Int.{ℤ, pos, negsuc, signed32}
use ceph_in_c.Base.Errno.{Errno, ok, err_no_enough_mem, Exit, returns, abort, ◌>>=◌}
use ceph_in_c.Base.Alloc.{Alloc, malloc}
use ceph_in_c.Buffer.{Buffer, BufferReader}
use ceph_in_c.Encode.{bytes_of, encode_basic, decode_basic}

-- `cceph_osd_entity`, what of it is persisted.
pub record OsdEntity : Type 0 where
  pub id : ℕ

-- `cceph_osdmap`
pub record Osdmap : Type 0 where
  pub epoch : ℕ
  pub pg_count : ℕ
  pub osd_count : ℕ
  pub osds : List OsdEntity

-- The codes of the two calls are dropped.
unfoldable pub encode_osd_entity : Buffer → OsdEntity → Alloc → Exit (Errno × Buffer × Alloc)
encode_osd_entity buffer osd_entity a = encode_basic 1 buffer 1 a >>= λ r.
    encode_basic 4 r.1 osd_entity.id r.2 >>= λ s. returns (ok, s.1, s.2)

-- The loop over the daemons.
unfoldable pub encode_entities : Buffer → List OsdEntity → Alloc → Exit (Errno × Buffer × Alloc)
encode_entities buffer [] a = returns (ok, buffer, a)
encode_entities buffer (e ∷ es) a = encode_osd_entity buffer e a >>= λ r. encode_entities r.1 es r.2

-- The number of rounds of a loop up to an int.
abbrev pub rounds : ℤ → ℕ
rounds (pos n) = n
rounds (negsuc n) = 0

-- The codes of the calls are dropped.
unfoldable pub encode_osdmap : Buffer → Osdmap → Alloc → Exit (Errno × Buffer × Alloc)
encode_osdmap buffer osdmap a = encode_basic 1 buffer 1 a >>= λ r.
    encode_basic 4 r.1 osdmap.epoch r.2 >>= λ s. encode_basic 4 s.1 osdmap.pg_count s.2 >>= λ t.
    encode_basic 4 t.1 osdmap.osd_count t.2 >>= λ u.
    encode_entities u.1 (take (rounds (signed32 osdmap.osd_count)) osdmap.osds) u.2

-- `stale` is what the memory of the entity holds at its id.
unfoldable pub decode_osd_entity : BufferReader → ℕ → Exit (Errno × OsdEntity × BufferReader)
decode_osd_entity reader stale = decode_basic 1 reader 0 >>= λ v.
    if v.1 == 1
    then (decode_basic 4 v.2 stale >>= λ d. returns (ok, record { id = d.1 }, d.2))
    else abort

unfoldable pub decode_entities : ℕ → BufferReader → ℕ → Exit (Errno × List OsdEntity × BufferReader)
decode_entities zero reader stale = returns (ok, [], reader)
decode_entities (suc n) reader stale = decode_osd_entity reader stale >>= λ e.
    decode_entities n e.2 stale >>= λ es. returns (ok, e.1 ∷ es.1, es.2)

-- The array of the daemons, by the number that was decoded. A negative size is no size for
-- `malloc`.
unfoldable pub decode_osds :
    ℤ → BufferReader → ℕ → Alloc → Exit (Errno × List OsdEntity × BufferReader × Alloc)
decode_osds (negsuc n) reader stale a = returns (err_no_enough_mem, [], reader, (malloc a).1)
decode_osds (pos n) reader stale a =
    let (there, a') = malloc a in
    let osds = decode_entities n reader stale in
    if there
    then (osds >>= λ r. returns (ok, r.1, r.2, a'))
    else returns (err_no_enough_mem, [], reader, a')

-- `old` is the map before the call.
unfoldable pub decode_osdmap :
    BufferReader → Osdmap → ℕ → Alloc → Exit (Errno × Osdmap × BufferReader × Alloc)
decode_osdmap reader old stale a = decode_basic 1 reader 0 >>= λ v.
    if v.1 == 1
    then (decode_basic 4 v.2 old.epoch >>= λ e. decode_basic 4 e.2 old.pg_count >>= λ p.
        decode_basic 4 p.2 old.osd_count >>= λ c. decode_osds (signed32 c.1) c.2 stale a >>= λ d.
        returns
          (d.0, record { epoch = e.1; pg_count = p.1; osd_count = c.1; osds = d.1 }, d.2, d.3))
    else abort
