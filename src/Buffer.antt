-- ===== src/Buffer.antt =====
-- common/buffer.c: a buffer of bytes that grows by nodes, and its reader. Freeing leaves no trace.
pub mod Slices
pub mod Append
pub mod Plentiful
pub mod Reader
pub mod Start
use Prim.Native.Nat.{min}
use ceph_in_c.Base.{
  ℕ, zero, suc, ◌+◌, ◌-◌, Bool, false, Option, none, some, List, [], ◌∷◌, ◌++◌, leb, ◌==◌, length,
  take, drop, if◌then◌else◌,
}
use ceph_in_c.Base.Errno.{Errno, ok, err_no_enough_mem, err_buffer_end, Exit, returns, abort, ◌>>=◌}
use ceph_in_c.Base.Alloc.{Alloc, malloc}

abbrev pub node_length : ℕ
node_length = 4096

-- `written` is the bytes from `data` up to `ptr`.
pub record BufferNode : Type 0 where
  pub written : List ℕ
  pub length : ℕ

-- The list of nodes from `head` on is `before` and then `current`, which is its last node.
pub record Buffer : Type 0 where
  pub before : List BufferNode
  pub current : BufferNode
  pub length : ℕ
  pub offset : ℕ

unfoldable pub buffer_node_new : Alloc → Option BufferNode × Alloc
buffer_node_new a =
    let (there, a') = malloc a in
    if there then (some (record { written = []; length = node_length }), a') else (none, a')

-- The buffer is missing where the pointer stays NULL.
unfoldable pub buffer_new : Alloc → Errno × Option Buffer × Alloc
buffer_new a =
    let (made, a₁) = buffer_node_new a in
    let (there, a₂) = malloc a₁ in
    elim made [
      | none ↦ (err_no_enough_mem, none, a₁)
      | some node ↦
          if there
          then (
            ok,
            some (record { before = []; current = node; length = node.length; offset = 0 }),
            a₂,
          )
          else (err_no_enough_mem, none, a₂)
    ]

-- The part of a round of `cceph_buffer_append` that finds room: a new node where the current one
-- is full.
unfoldable pub ensure_room : Buffer → Alloc → Errno × Buffer × Alloc
ensure_room b a =
    if b.current.length - length b.current.written == 0
    then (let (made, a') = buffer_node_new a in
        elim made [
          | none ↦ (err_no_enough_mem, b, a')
          | some node ↦ (
            ok,
            record b {
              before = b.before ++ (b.current ∷ []);
              current = node;
              length = b.length + node.length;
            },
            a',
          )
        ])
    else (ok, b, a)

-- The copy of bytes to the write position, which moves behind them.
abbrev pub put_bytes : Buffer → List ℕ → Buffer
put_bytes b bytes = record b {
  current = record b.current { written = b.current.written ++ bytes };
  offset = b.offset + length bytes;
}

-- The two assertions at the end of a round.
abbrev pub in_bounds : Buffer → Bool
in_bounds b =
    if leb (length b.current.written) b.current.length then leb b.offset b.length else false

-- The loop of `cceph_buffer_append`, on what is left of the bytes. A round copies a byte at least,
-- so there are no more rounds than bytes.
unfoldable pub append_from : ℕ → Buffer → List ℕ → Alloc → Exit (Errno × Buffer × Alloc)
append_from rounds b [] a = returns (ok, b, a)
append_from zero b (x ∷ xs) a = abort
append_from (suc rounds) b (x ∷ xs) a =
    let (ret, b₁, a') = ensure_room b a in
    let copy_size = min (length (x ∷ xs)) (b₁.current.length - length b₁.current.written) in
    let b₂ = put_bytes b₁ (take copy_size (x ∷ xs)) in
    let rest = append_from rounds b₂ (drop copy_size (x ∷ xs)) a' in
    elim ret [ ok ↦ if in_bounds b₂ then rest else abort | err ↦ returns (err, b₁, a') ]

-- `cceph_buffer_append` of the bytes behind `data`; it asserts that there are some.
unfoldable pub buffer_append : Buffer → List ℕ → Alloc → Exit (Errno × Buffer × Alloc)
buffer_append b [] a = abort
buffer_append b (x ∷ xs) a = append_from (length (x ∷ xs)) b (x ∷ xs) a

-- The bytes of the nodes in order.
unfoldable pub contents : List BufferNode → List ℕ
contents [] = []
contents (n ∷ ns) = n.written ++ contents ns

-- The bytes and their number.
unfoldable pub buffer_flat : Buffer → Alloc → Errno × List ℕ × ℕ × Alloc
unfolding contents
buffer_flat b a =
    let (there, a') = malloc a in
    if b.offset == 0
    then (ok, [], 0, a)
    else if there
    then (ok, contents (b.before ++ (b.current ∷ [])), b.offset, a')
    else (err_no_enough_mem, [], 0, a')

-- The nodes from the reader's on, none where it is NULL, and the place of `ptr` in the first one.
-- The nodes are those of the buffer when the reader was made.
pub record BufferReader : Type 0 where
  pub nodes : List BufferNode
  pub at : ℕ

unfoldable pub reader_new : Buffer → Alloc → Errno × Option BufferReader × Alloc
reader_new b a =
    let (there, a') = malloc a in
    if there
    then (ok, some (record { nodes = b.before ++ (b.current ∷ []); at = 0 }), a')
    else (err_no_enough_mem, none, a')

-- The loop of `cceph_buffer_reader_read`: the code, the bytes that were copied, and the reader. A
-- round copies a byte at least, or the assertion on `read_length` fails.
unfoldable pub read_from : ℕ → List BufferNode → ℕ → ℕ → Exit (Errno × List ℕ × BufferReader)
read_from rounds nodes at zero = returns (ok, [], record { nodes = nodes; at = at })
read_from rounds [] at (suc left) = returns (err_buffer_end, [], record { nodes = []; at = at })
read_from zero (n ∷ ns) at (suc left) = abort
read_from (suc rounds) (n ∷ ns) at (suc left) =
    let read_length = min (suc left) (length n.written - at) in
    let bytes = take read_length (drop at n.written) in
    let next = read_from rounds ns 0 (suc left - read_length) in
    let same = read_from rounds (n ∷ ns) (at + read_length) (suc left - read_length) in
    if read_length == 0
    then abort
    else (if at + read_length == length n.written then next else same) >>= λ r.
        returns (r.0, bytes ++ r.1, r.2)

unfoldable pub reader_read : BufferReader → ℕ → Exit (Errno × List ℕ × BufferReader)
reader_read r zero = abort
reader_read r (suc left) = read_from (suc left) r.nodes r.at (suc left)
