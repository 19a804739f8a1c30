-- ===== src/Buffer/Reader.antt =====
-- `cceph_buffer_reader_read`.
use mathlib.Core.List.{append-nil}
use Prim.Native.Nat.{min}
use ceph_in_c.Base.{
  ℕ, zero, suc, ◌+◌, ◌-◌, ◌≤◌, ◌<◌, ◌≡◌, refl, ◌∙◌, sym, ap, inl, inr, Bool-cases, true, false,
  List, [], ◌∷◌, ◌++◌, arith, ltb, leb, ◌==◌, length, take, drop, length-append, length-drop,
  if◌then◌else◌,
}
use ceph_in_c.Base.Errno.{Errno, ok, err_buffer_end, Exit, returns, ◌>>=◌}
use ceph_in_c.Buffer.{BufferNode, contents, BufferReader, read_from, reader_read}
use ceph_in_c.Buffer.Slices.{take_within, take_over, drop_within, drop_over, drop-drop, take_whole}

-- Every node has some bytes.
abbrev pub Filled : List BufferNode → Type 0
Filled [] = Unit
Filled (n ∷ ns) = (0 < length n.written) × Filled ns

-- A reader stands before a byte, or is at its end.
abbrev pub Ready : List BufferNode → ℕ → Type 0
Ready [] at = Unit
Ready (n ∷ ns) at = (at < length n.written) × Filled ns

-- The bytes that a reader has still to read.
abbrev pub ahead : List BufferNode → ℕ → List ℕ
ahead [] at = []
ahead (n ∷ ns) at = drop at n.written ++ contents ns

-- What a read of `left` bytes comes to.
pub record Took (bytes : List ℕ) (left : ℕ) (out : Exit (Errno × List ℕ × BufferReader))
    : Type 0 where
  pub reader : BufferReader
  pub returned :
      out
      ≡ returns (if leb left (length bytes) then ok else err_buffer_end, take left bytes, reader)
  pub ready : Ready reader.nodes reader.at
  pub behind : ahead reader.nodes reader.at ≡ drop left bytes

pub ahead_start : (ns : List BufferNode) → ahead ns 0 ≡ contents ns
unfolding contents
ahead_start [] = refl
ahead_start (n ∷ ns) = refl

pub Ready-start : (ns : List BufferNode) → Filled ns → Ready ns 0
Ready-start [] f = tt
Ready-start (n ∷ ns) f = f

read_from-none :
    (rounds : ℕ) (nodes : List BufferNode) (at left : ℕ)
    → left ≡ 0
    → read_from rounds nodes at left ≡ returns (ok, [], record { nodes = nodes; at = at })
unfolding read_from
read_from-none rounds nodes at zero h = refl
read_from-none rounds nodes at (suc left) h = absurd (omega arith)

-- A read that ends inside its first node.
read_inside :
    (rounds : ℕ) (n : BufferNode) (ns : List BufferNode) (at left : ℕ)
    → suc left < length n.written - at
    → Ready (n ∷ ns) at
    → Took (ahead (n ∷ ns) at) (suc left) (read_from (suc rounds) (n ∷ ns) at (suc left))
unfolding read_from
read_inside rounds n ns at left h v =
    let here : List ℕ = drop at n.written in
    let later : List ℕ = contents ns in
    let k = min (suc left) (length n.written - at) in
    let e : k ≡ suc left = omega arith in
    let rest = length-drop at n.written in
    record {
      reader = record { nodes = n ∷ ns; at = at + suc left };
      returned = ground (
        arith,
        e,
        read_from-none rounds (n ∷ ns) (at + k) (suc left - k) (omega (arith, e)),
        take_within (suc left) here later (omega (arith, rest)),
        append-nil (take (suc left) here),
        rest,
        length-append here later,
      );
      ready = (omega arith, v.1);
      behind =
          ap (λ xs. xs ++ later) (sym (drop-drop (suc left) at n.written))
          ∙ sym (drop_within (suc left) here later (omega (arith, rest)));
    }

-- The step of the loop to the next node.
read_from-step :
    (rounds : ℕ) (n : BufferNode) (ns : List BufferNode) (at left : ℕ)
    → length n.written - at ≤ suc left
    → at < length n.written
    → read_from (suc rounds) (n ∷ ns) at (suc left) ≡ (
        read_from rounds ns 0 (suc left - (length n.written - at)) >>= λ r.
        returns (r.0, drop at n.written ++ r.1, r.2))
unfolding read_from
read_from-step rounds n ns at left h v =
    let size = length n.written - at in
    let e : min (suc left) size ≡ size = omega arith in
    let some_there : (size == 0) ≡ false = ground arith in
    let at_end : (at + size == length n.written) ≡ true = ground arith in
    let whole = take_whole size (drop at n.written) (omega (arith, length-drop at n.written)) in
    rw (read_from, e, some_there, at_end, whole) refl

-- The code of a read, by the code of the read from the next node on.
code_past :
    (here later : List ℕ) (left size : ℕ)
    → length here ≡ size
    → size ≤ left
    → (if leb (left - size) (length later) then ok else err_buffer_end)
      ≡ (if leb left (length (here ++ later)) then ok else err_buffer_end)
code_past here later left size e h = ground (arith, length-append here later)

-- A read that takes all of its first node, by the read of what is left from the next one on.
read_past :
    (rounds : ℕ) (n : BufferNode) (ns : List BufferNode) (at left : ℕ)
    → length n.written - at ≤ suc left
    → Ready (n ∷ ns) at
    → Took
        (ahead ns 0)
        (suc left - (length n.written - at))
        (read_from rounds ns 0 (suc left - (length n.written - at)))
    → Took (ahead (n ∷ ns) at) (suc left) (read_from (suc rounds) (n ∷ ns) at (suc left))
read_past rounds n ns at left h v d =
    let here : List ℕ = drop at n.written in
    let later : List ℕ = contents ns in
    let size = length n.written - at in
    let rest = length-drop at n.written in
    let next = ahead_start ns in
    let bytes : here ++ take (suc left - size) (ahead ns 0) ≡ take (suc left) (here ++ later) =
      ap (λ xs. here ++ take (suc left - size) xs) next
      ∙ ap (λ j. here ++ take j later) {x = suc left - size} {y = suc left - length here}
          (omega (arith, rest))
      ∙ sym (take_over (suc left) here later (omega (arith, rest))) in
    let code =
      ap (λ xs. if leb (suc left - size) (length xs) then ok else err_buffer_end) next
      ∙ code_past here later (suc left) size rest h in
    record {
      reader = d.reader;
      returned =
          read_from-step rounds n ns at left h v.0
          ∙ ap (λ o. o >>= λ r. returns (r.0, here ++ r.1, r.2)) d.returned
          ∙ (λ i. returns (code i, bytes i, d.reader));
      ready = d.ready;
      behind =
          d.behind
          ∙ ap (drop (suc left - (length n.written - at))) next
          ∙ ap (λ j. drop j later) {x = suc left - (length n.written - at)}
              {y = suc left - length here} (omega (arith, rest))
          ∙ sym (drop_over (suc left) here later (omega (arith, rest)));
    }

read_from-Took :
    (rounds : ℕ) (nodes : List BufferNode) (at left : ℕ)
    → left ≤ rounds
    → Ready nodes at
    → Took (ahead nodes at) left (read_from rounds nodes at left)
unfolding read_from
read_from-Took rounds nodes at zero h v = record {
  reader = record { nodes = nodes; at = at };
  returned = ground arith;
  ready = v;
  behind = refl;
}
read_from-Took rounds [] at (suc left) h v = record {
  reader = record { nodes = []; at = at };
  returned = ground arith;
  ready = tt;
  behind = refl;
}
read_from-Took zero (n ∷ ns) at (suc left) h v = absurd (omega arith)
read_from-Took (suc rounds) (n ∷ ns) at (suc left) h v =
    elim (Bool-cases (ltb (suc left) (length n.written - at))) [
      | inl inside ↦ read_inside rounds n ns at left (ground arith) v
      | inr past ↦ read_past rounds n ns at left (ground arith) v (
          read_from-Took rounds ns 0 (suc left - (length n.written - at)) (omega (arith, v.0))
            (Ready-start ns v.1))
    ]

-- `cceph_buffer_reader_read` of some bytes always returns, for a reader that stands before a byte
-- or at its end. It reads as many bytes as are asked for, over the ends of nodes, or all that are
-- left, with CCEPH_ERR_BUFFER_END; the reader then stands behind them.
pub reader_read-Took :
    (r : BufferReader) (left : ℕ)
    → Ready r.nodes r.at
    → Took (ahead r.nodes r.at) (suc left) (reader_read r (suc left))
unfolding reader_read
reader_read-Took r left v = read_from-Took (suc left) r.nodes r.at (suc left) (omega arith) v
