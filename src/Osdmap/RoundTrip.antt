-- ===== src/Osdmap/RoundTrip.antt =====
-- A map of the daemons that is encoded is decoded to the same map.
use mathlib.Core.List.{append_assoc, append-nil}
use ceph_in_c.Base.{ℕ, ◌^◌, ◌<◌, ◌≡◌, refl, ◌∙◌, sym, ap, List, [], ◌∷◌, ◌++◌, arith, length}
use ceph_in_c.Base.Int.{pos, signed32}
use ceph_in_c.Base.Errno.{Errno, ok, Exit, returns, ◌>>=◌}
use ceph_in_c.Base.Alloc.{Alloc, Plenty, malloc-Plenty}
use ceph_in_c.Buffer.{Buffer, BufferReader}
use ceph_in_c.Buffer.Slices.{take_whole}
use ceph_in_c.Buffer.Append.{content, IsValid}
use ceph_in_c.Buffer.Plentiful.{Appended}
use ceph_in_c.Buffer.Reader.{Ready, ahead}
use ceph_in_c.Encode.{bytes_of}
use ceph_in_c.Encode.Bytes.{bound}
use ceph_in_c.Encode.RoundTrip.{encode_basic-Appended, decode_basic-first, bound_four}
use ceph_in_c.Osdmap.{
  OsdEntity, Osdmap, encode_osd_entity, encode_entities, encode_osdmap, decode_osd_entity,
  decode_entities, decode_osds, decode_osdmap,
}

abbrev entity_bytes : OsdEntity → List ℕ
entity_bytes e = bytes_of 1 1 ++ bytes_of 4 e.id

abbrev entities_bytes : List OsdEntity → List ℕ
entities_bytes [] = []
entities_bytes (e ∷ es) = entity_bytes e ++ entities_bytes es

-- What a map is in a buffer: a version, the epoch, the two counts, and the daemons.
abbrev pub osdmap_bytes : Osdmap → List ℕ
osdmap_bytes m =
    bytes_of 1 1
    ++ (bytes_of 4 m.epoch
        ++ (bytes_of 4 m.pg_count ++ (bytes_of 4 m.osd_count ++ entities_bytes m.osds)))

abbrev EntitiesFit : List OsdEntity → Type 0
EntitiesFit [] = Unit
EntitiesFit (e ∷ es) = (e.id < 2 ^ 32) × EntitiesFit es

-- The fields are bit patterns of 32 bits, and the count is that of the daemons.
pub record OsdmapFits (m : Osdmap) : Type 0 where
  pub epoch : m.epoch < 2 ^ 32
  pub pg_count : m.pg_count < 2 ^ 32
  pub counted : m.osd_count ≡ length m.osds
  pub osd_count : m.osd_count < 2 ^ 31
  pub osds : EntitiesFit m.osds

-- An append, then another one to what it leaves.
Appended-bind :
    {b : Buffer} {xs : List ℕ} {out : Exit (Errno × Buffer × Alloc)} (ys : List ℕ)
    (next : Errno × Buffer × Alloc → Exit (Errno × Buffer × Alloc))
    → Appended b xs out
    → ((c : Buffer) (a : Alloc) → IsValid c → Plenty a → Appended c ys (next (ok, c, a)))
    → Appended b (xs ++ ys) (out >>= next)
Appended-bind {b} {xs} ys next d f =
    let e = f d.result d.rest d.valid d.plenty in
    record {
      result = e.result;
      rest = e.rest;
      returned = ap (λ o. o >>= next) d.returned ∙ e.returned;
      valid = e.valid;
      recorded = e.recorded ∙ ap (λ zs. zs ++ ys) d.recorded ∙ append_assoc (content b) xs ys;
      plenty = e.plenty;
    }

Appended-ok :
    {b : Buffer} {xs : List ℕ} {out : Exit (Errno × Buffer × Alloc)}
    → Appended b xs out
    → Appended b xs (out >>= λ s. returns (ok, s.1, s.2))
Appended-ok d = record {
  result = d.result;
  rest = d.rest;
  returned = ap (λ o. o >>= λ s. returns (ok, s.1, s.2)) d.returned;
  valid = d.valid;
  recorded = d.recorded;
  plenty = d.plenty;
}

encode_osd_entity-Appended :
    (b : Buffer) (e : OsdEntity) (a : Alloc)
    → IsValid b
    → Plenty a
    → Appended b (entity_bytes e) (encode_osd_entity b e a)
unfolding encode_osd_entity
encode_osd_entity-Appended b e a v p =
    Appended-bind (bytes_of 4 e.id) _ (encode_basic-Appended 0 1 b a v p)
      λ c a' w q. Appended-ok (encode_basic-Appended 3 e.id c a' w q)

encode_entities-Appended :
    (es : List OsdEntity) (b : Buffer) (a : Alloc)
    → IsValid b
    → Plenty a
    → Appended b (entities_bytes es) (encode_entities b es a)
unfolding encode_entities
encode_entities-Appended [] b a v p = record {
  result = b;
  rest = a;
  returned = refl;
  valid = v;
  recorded = sym (append-nil (content b));
  plenty = p;
}
encode_entities-Appended (e ∷ es) b a v p =
    Appended-bind (entities_bytes es) _ (encode_osd_entity-Appended b e a v p)
      λ c a' w q. encode_entities-Appended es c a' w q

encode_osdmap-Appended :
    (m : Osdmap) (b : Buffer) (a : Alloc)
    → OsdmapFits m
    → IsValid b
    → Plenty a
    → Appended b (osdmap_bytes m) (encode_osdmap b m a)
unfolding encode_osdmap
encode_osdmap-Appended m b a f v p =
    let positive : signed32 m.osd_count ≡ pos m.osd_count = ground (arith, f.osd_count) in
    let all = take_whole m.osd_count m.osds (omega (arith, f.counted)) in
    rw (encode_osdmap, positive, all)
      (Appended-bind _ _ (encode_basic-Appended 0 1 b a v p) λ c a₁ w q.
        Appended-bind _ _ (encode_basic-Appended 3 m.epoch c a₁ w q) λ c a₂ w q.
          Appended-bind _ _ (encode_basic-Appended 3 m.pg_count c a₂ w q) λ c a₃ w q.
            Appended-bind _ _ (encode_basic-Appended 3 m.osd_count c a₃ w q)
              λ c a₄ w q. encode_entities-Appended m.osds c a₄ w q)

bound_one : 1 < bound 1
unfolding bound
bound_one = omega arith

decode_osd_entity-first :
    (e : OsdEntity) (stale : ℕ) (r : BufferReader) (later : List ℕ)
    → e.id < 2 ^ 32
    → Ready r.nodes r.at
    → ahead r.nodes r.at ≡ entity_bytes e ++ later
    → (r' : BufferReader) × (decode_osd_entity r stale ≡ returns (ok, e, r'))
      × Ready r'.nodes r'.at
      × (ahead r'.nodes r'.at ≡ later)
unfolding decode_osd_entity
decode_osd_entity-first e stale r later h v q =
    let (r₁, e₁, v₁, q₁) =
      decode_basic-first 0 1 0 r (bytes_of 4 e.id ++ later) bound_one v
        (q ∙ append_assoc (bytes_of 1 1) (bytes_of 4 e.id) later) in
    let (r₂, e₂, v₂, q₂) =
      decode_basic-first 3 e.id stale r₁ later (omega (arith, bound_four, h)) v₁ q₁ in
    (r₂, rw (decode_osd_entity, e₁, e₂) refl, v₂, q₂)

decode_entities-first :
    (es : List OsdEntity) (stale : ℕ) (r : BufferReader) (later : List ℕ)
    → EntitiesFit es
    → Ready r.nodes r.at
    → ahead r.nodes r.at ≡ entities_bytes es ++ later
    → (r' : BufferReader) × (decode_entities (length es) r stale ≡ returns (ok, es, r'))
      × Ready r'.nodes r'.at
      × (ahead r'.nodes r'.at ≡ later)
unfolding decode_entities
decode_entities-first [] stale r later f v q = (r, refl, v, q)
decode_entities-first (e ∷ es) stale r later f v q =
    let (r₁, e₁, v₁, q₁) =
      decode_osd_entity-first e stale r (entities_bytes es ++ later) f.0 v
        (q ∙ append_assoc (entity_bytes e) (entities_bytes es) later) in
    let (r₂, e₂, v₂, q₂) = decode_entities-first es stale r₁ later f.1 v₁ q₁ in
    (r₂, rw (decode_entities, e₁, e₂) refl, v₂, q₂)

-- The fields of a map before a reader, and what follows them.
osdmap_bytes-later :
    (m : Osdmap) (later : List ℕ)
    → osdmap_bytes m ++ later
      ≡ bytes_of 1 1
        ++ (bytes_of 4 m.epoch
            ++ (bytes_of 4 m.pg_count
                ++ (bytes_of 4 m.osd_count ++ (entities_bytes m.osds ++ later))))
osdmap_bytes-later m later = rw (append_assoc, append_assoc, append_assoc, append_assoc) refl

decode_osdmap-first :
    (m old : Osdmap) (stale : ℕ) (r : BufferReader) (a : Alloc) (later : List ℕ)
    → OsdmapFits m
    → Plenty a
    → Ready r.nodes r.at
    → ahead r.nodes r.at ≡ osdmap_bytes m ++ later
    → (r' : BufferReader) × (a' : Alloc) × (decode_osdmap r old stale a ≡ returns (ok, m, r', a'))
      × Ready r'.nodes r'.at
      × (ahead r'.nodes r'.at ≡ later)
unfolding decode_osdmap decode_osds
decode_osdmap-first m old stale r a later f p v q =
    let (a', fine, p') = malloc-Plenty a p in
    let (r₁, e₁, v₁, q₁) =
      decode_basic-first 0 1 0 r _ bound_one v (q ∙ osdmap_bytes-later m later) in
    let (r₂, e₂, v₂, q₂) =
      decode_basic-first 3 m.epoch old.epoch r₁ _ (omega (arith, bound_four, f.epoch)) v₁ q₁ in
    let (r₃, e₃, v₃, q₃) =
      decode_basic-first 3 m.pg_count old.pg_count r₂ _ (omega (arith, bound_four, f.pg_count)) v₂
        q₂ in
    let (r₄, e₄, v₄, q₄) =
      decode_basic-first 3 m.osd_count old.osd_count r₃ _ (omega (arith, bound_four, f.osd_count))
        v₃ q₃ in
    let (r₅, e₅, v₅, q₅) = decode_entities-first m.osds stale r₄ later f.osds v₄ q₄ in
    let positive : signed32 m.osd_count ≡ pos m.osd_count = ground (arith, f.osd_count) in
    let osds : decode_entities m.osd_count r₄ stale ≡ returns (ok, m.osds, r₅) =
      ap (λ n. decode_entities n r₄ stale) f.counted ∙ e₅ in
    (r₅, a', rw (decode_osdmap, e₁, e₂, e₃, e₄, positive, decode_osds, fine, osds) refl, v₅, q₅)

-- A map whose fields are bit patterns of 32 bits and whose count is that of its daemons is encoded
-- into a valid buffer behind what was there, where no allocation fails. A reader that stands before
-- its bytes decodes the same map, with CCEPH_OK, whatever was in the map before, and stands behind
-- them.
pub decode_osdmap-encode_osdmap :
    (m old : Osdmap) (stale : ℕ) (b : Buffer) (r : BufferReader) (a c : Alloc) (later : List ℕ)
    → OsdmapFits m
    → IsValid b
    → Plenty a
    → Plenty c
    → Ready r.nodes r.at
    → ahead r.nodes r.at ≡ osdmap_bytes m ++ later
    → Appended b (osdmap_bytes m) (encode_osdmap b m a)
      × ((r' : BufferReader) × (c' : Alloc) × (decode_osdmap r old stale c
            ≡ returns (ok, m, r', c'))
          × Ready r'.nodes r'.at
          × (ahead r'.nodes r'.at ≡ later))
decode_osdmap-encode_osdmap m old stale b r a c later f v p q ready e =
    (encode_osdmap-Appended m b a f v p, decode_osdmap-first m old stale r c later f q ready e)
