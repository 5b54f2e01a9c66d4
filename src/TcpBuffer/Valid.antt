-- ===== src/TcpBuffer/Valid.antt =====
-- The representation invariant of tcp_buffer.h, and the bytes that a buffer holds.
use rocket_rpc.Common.{
  ℕ, ◌+◌, ◌-◌, ◌^◌, ◌≤◌, ◌<◌, ◌≡◌, none, some, List, arith, length, slice, splice, length-replicate,
  length-slice,
}
use rocket_rpc.Common.Words.{add_size}
use rocket_rpc.TcpBuffer.{TcpBuffer, load, store, move, create, readable, writable, prepend_size}

-- The state of a buffer to which nothing has been prepended since its last compaction.
pub record IsValid (b : TcpBuffer) : Type 0 where
  pub behind : prepend_size ≤ b.read_index
  pub order : b.read_index ≤ b.write_index
  pub inside : b.write_index ≤ length b.mem
  pub small : length b.mem < 2 ^ 63

-- What `makeSpace` needs, also after a `prepend`.
-- `front`: with the readable bytes moved to index 8 they still end inside the storage.
pub record IsSafe (b : TcpBuffer) : Type 0 where
  pub order : b.read_index ≤ b.write_index
  pub inside : b.write_index ≤ length b.mem
  pub front : prepend_size + b.write_index ≤ length b.mem + b.read_index
  pub small : length b.mem < 2 ^ 63

-- The readable bytes, oldest first.
abbrev pub content : TcpBuffer → List ℕ
content b = slice b.read_index (b.write_index - b.read_index) b.mem

pub readable_lem : {b : TcpBuffer} → IsSafe b → readable b ≡ b.write_index - b.read_index
unfolding readable
readable_lem v = omega arith

pub writable_lem : {b : TcpBuffer} → IsSafe b → writable b ≡ length b.mem - b.write_index
unfolding writable
writable_lem v = omega arith

pub length-content : {b : TcpBuffer} → IsSafe b → length (content b) ≡ readable b
unfolding readable
length-content {b} v =
    omega (arith, length-slice b.read_index (b.write_index - b.read_index) b.mem (omega arith))

pub IsValid-IsSafe : {b : TcpBuffer} → IsValid b → IsSafe b
IsValid-IsSafe v = omega arith

pub create-IsValid : (size : ℕ) → size < 2 ^ 62 → IsValid (create size)
unfolding create
create-IsValid size h = omega (arith, length-replicate {A = ℕ} (add_size prepend_size size) 0)

pub load-some : (mem : List ℕ) (i n : ℕ) → i + n ≤ length mem → load mem i n ≡ some (slice i n mem)
unfolding load
load-some mem i n h = ground arith

pub store-some :
    (mem : List ℕ) (i : ℕ) (ds : List ℕ)
    → i + length ds ≤ length mem
    → store mem i ds ≡ some (splice i ds mem)
unfolding store
store-some mem i ds h = ground arith

pub store-none :
    (mem : List ℕ) (i : ℕ) (ds : List ℕ) → length mem < i + length ds → store mem i ds ≡ none
unfolding store
store-none mem i ds h = ground arith

pub move-some :
    (mem : List ℕ) (dst src n : ℕ)
    → src + n ≤ length mem
    → dst + n ≤ length mem
    → move mem dst src n ≡ some (splice dst (slice src n mem) mem)
unfolding move
move-some mem dst src n h k =
    rw (load-some mem src n h)
      (store-some mem dst (slice src n mem) (omega (arith, length-slice src n mem h)))
