-- ===== src/Buffer/Start.antt =====
-- `cceph_buffer_reader_new`: what a new reader has before it.
use ceph_in_c.Base.{
  ℕ, suc, ◌<◌, ◌≡◌, ◌∙◌, ap, inl, inr, some, List, [], ◌∷◌, ◌++◌, arith, length, length-append,
}
use ceph_in_c.Base.Errno.{ok, abort}
use ceph_in_c.Base.Alloc.{Alloc, Plenty, malloc-Plenty}
use ceph_in_c.Buffer.{
  BufferNode, Buffer, contents, BufferReader, reader_new, read_from, reader_read,
}
use ceph_in_c.Buffer.Append.{content, Full, IsValid, length-contents}
use ceph_in_c.Buffer.Plentiful.{nil_of_length, contents_all}
use ceph_in_c.Buffer.Reader.{Filled, Ready, Ready-start, ahead, ahead_start}

Filled-Full :
    (ns : List BufferNode) (n : BufferNode)
    → Full ns
    → 0 < length n.written
    → Filled (ns ++ (n ∷ []))
Filled-Full [] n f h = (h, tt)
Filled-Full (m ∷ ms) n f h = (omega (arith, f.0), Filled-Full ms n f.1 h)

-- A new reader of a valid buffer that has bytes stands before all of
-- them, where no allocation fails.
pub reader_new-Ready :
    (b : Buffer) (a : Alloc)
    → IsValid b
    → 0 < length (content b)
    → Plenty a
    → (r : BufferReader) × (a' : Alloc) × (reader_new b a ≡ (ok, some r, a'))
      × Ready r.nodes r.at
      × (ahead r.nodes r.at ≡ content b)
      × Plenty a'
unfolding reader_new contents
reader_new-Ready b a v h p =
    let (a', m, p') = malloc-Plenty a p in
    let nodes : List BufferNode = b.before ++ (b.current ∷ []) in
    let size = length-append (contents b.before) b.current.written in
    let last : 0 < length b.current.written = elim v.started [
      | inl none_before ↦ omega (arith, size, ap (λ ns. length (contents ns)) none_before)
      | inr started ↦ started
    ] in
    (
      record { nodes = nodes; at = 0 },
      a',
      ground (arith, m),
      Ready-start nodes (Filled-Full b.before b.current v.shape.full last),
      ahead_start nodes ∙ contents_all b,
      p',
    )

-- The first read of a valid buffer without bytes does not return CCEPH_ERR_BUFFER_END: it ends the
-- process, where no allocation fails, by the assertion on `read_length`.
pub reader_read-empty :
    (b : Buffer) (left : ℕ) (a : Alloc)
    → IsValid b
    → content b ≡ []
    → Plenty a
    → (r : BufferReader) × (a' : Alloc) × (reader_new b a ≡ (ok, some r, a'))
      × (reader_read r (suc left) ≡ abort)
unfolding reader_new reader_read read_from
reader_read-empty b left a v e p =
    let (a', m, p') = malloc-Plenty a p in
    let size = length-append (contents b.before) b.current.written in
    let blocks = length-contents b.before v.shape.full in
    let no_bytes = ap length e in
    let no_nodes = nil_of_length b.before (omega (arith, size, blocks, no_bytes)) in
    let no_current = nil_of_length b.current.written (omega (arith, size, no_bytes)) in
    (
      record { nodes = b.before ++ (b.current ∷ []); at = 0 },
      a',
      ground (arith, m),
      rw (no_nodes, no_current) (ground arith),
    )
