-- ===== src/TcpBuffer.antt =====
-- src/rocket/net/tcp/tcp_buffer.{h,cc}: the byte buffer of a connection.
-- An operation that touches memory returns an `Option`: `none` is an access outside the storage
-- of the vector, which the C++ code does not check.
pub mod Valid
pub mod Room
pub mod Fifo
pub mod Front
pub mod Ints
pub mod Search
pub mod Storage
pub mod Io
pub mod Tests
use rocket_rpc.Common.{
  ℕ, ◌+◌, ◌-◌, ◌*◌, ◌%◌, min, max, Bool, true, false, not, ◌&&◌, ◌||◌, Option, none, some, List,
  ◌>>=◌, ltb, leb, ◌==◌, if◌then◌else◌, length, replicate, slice, splice, resize,
}
use rocket_rpc.Common.Words.{size_mod, add_size, sub_size, le_bytes, of_le_bytes, bswap}

pub record TcpBuffer : Type 0 where
  pub mem : List ℕ
  pub read_index : ℕ
  pub write_index : ℕ

abbrev pub default_size : ℕ
default_size = 1024

abbrev pub prepend_size : ℕ
prepend_size = 8

abbrev pub max_buffer_size : ℕ
max_buffer_size = 64 * 1024 * 1024

-- `n` bytes from index `i` on.
pub load : List ℕ → ℕ → ℕ → Option (List ℕ)
load mem i n = if leb (i + n) (length mem) then some (slice i n mem) else none

-- The memory after a `memcpy` of `ds` to index `i`.
pub store : List ℕ → ℕ → List ℕ → Option (List ℕ)
store mem i ds = if leb (i + length ds) (length mem) then some (splice i ds mem) else none

-- `memmove` within the storage.
pub move : List ℕ → ℕ → ℕ → ℕ → Option (List ℕ)
move mem dst src n = do ds ← load mem src n; store mem dst ds

pub create : ℕ → TcpBuffer
create size = record {
  mem = replicate (add_size prepend_size size) 0;
  read_index = prepend_size;
  write_index = prepend_size;
}

pub capacity : TcpBuffer → ℕ
capacity b = length b.mem

pub readable : TcpBuffer → ℕ
readable b = sub_size b.write_index b.read_index

pub writable : TcpBuffer → ℕ
writable b = sub_size (length b.mem) b.write_index

pub prependable : TcpBuffer → ℕ
prependable b = b.read_index

pub is_empty : TcpBuffer → Bool
is_empty b = b.read_index == b.write_index

-- Where the readable bytes start after a move to the front.
rebase : TcpBuffer → List ℕ → TcpBuffer
rebase b mem = record {
  mem = mem;
  read_index = prepend_size;
  write_index = add_size prepend_size (readable b);
}

-- The storage after the `memmove` of the readable bytes to index 8, made under a test.
to_front : TcpBuffer → Bool → Option (List ℕ)
to_front b test = if test then move b.mem prepend_size b.read_index (readable b) else some b.mem

-- The first branch of `makeSpace`: enough room after compaction.
compact : TcpBuffer → Option (Bool × TcpBuffer)
compact b = do mem ← to_front b (ltb 0 (readable b)); some (true, rebase b mem)

-- The new size of the storage when it has to grow.
grown_size : TcpBuffer → ℕ → ℕ
grown_size b len =
    max (add_size (add_size prepend_size (readable b)) len)
      (min ((length b.mem * 2) % size_mod) max_buffer_size)

-- The second branch: the bytes are moved before the vector is resized.
grow : TcpBuffer → ℕ → Option (Bool × TcpBuffer)
grow b len = if ltb max_buffer_size (grown_size b len) then some (false, b) else do
  mem ← to_front b (not (b.read_index == prepend_size) && ltb 0 (readable b))
  let b' = rebase b (resize (grown_size b len) 0 mem)
  some (leb len (writable b'), b')

make_space : TcpBuffer → ℕ → Option (Bool × TcpBuffer)
make_space b len =
    if len == 0
    then some (true, b)
    else if leb (add_size len prepend_size) (add_size (writable b) (prependable b))
    then compact b
    else if ltb (max_buffer_size - prepend_size) (readable b)
        || ltb (sub_size (max_buffer_size - prepend_size) (readable b)) len
    then some (false, b)
    else grow b len

pub ensure_writable : TcpBuffer → ℕ → Option (Bool × TcpBuffer)
ensure_writable b len =
    if ltb max_buffer_size len || ltb (sub_size max_buffer_size len) (readable b)
    then some (false, b)
    else if ltb (writable b) len
    then make_space b len
    else some (true, b)

-- Copies `ds` to the write index and moves the index behind it.
pub put : TcpBuffer → List ℕ → Option TcpBuffer
put b ds = do
  mem ← store b.mem b.write_index ds
  some (record b { mem = mem; write_index = add_size b.write_index (length ds) })

-- The rest of `append`, after `ensureWritable` has answered.
fill : List ℕ → ℕ → Bool × TcpBuffer → Option (Bool × TcpBuffer)
fill source len (true, b) = do ds ← load source 0 len; b' ← put b ds; some (true, b')
fill source len (false, b) = some (false, b)

-- `none` for a null pointer; a pointer to fewer than `len` bytes is a fault.
pub append : TcpBuffer → Option (List ℕ) → ℕ → Option (Bool × TcpBuffer)
append b none len = some (len == 0, b)
append b (some source) len =
    if len == 0 then some (true, b) else do enough ← ensure_writable b len; fill source len enough

-- `append(std::string_view)` and both overloads of `writeToBuffer`.
pub append_view : TcpBuffer → List ℕ → Option (Bool × TcpBuffer)
append_view b ds = append b (some ds) (length ds)

-- `appendInt32` and `appendInt64` (k = 4, 8).
pub append_int : ℕ → TcpBuffer → ℕ → Option (Bool × TcpBuffer)
append_int k b x = append_view b (le_bytes k (bswap k x))

pub prepend : TcpBuffer → List ℕ → Option TcpBuffer
prepend b ds = if ltb (prependable b) (length ds) then some b else do
  let start = sub_size b.read_index (length ds)
  mem ← store b.mem start ds
  some (record b { mem = mem; read_index = start })

pub prepend_int32 : TcpBuffer → ℕ → Option TcpBuffer
prepend_int32 b x = prepend b (le_bytes 4 (bswap 4 x))

-- `consumeAll` and `clear`.
pub consume_all : TcpBuffer → TcpBuffer
consume_all b = record b { read_index = prepend_size; write_index = prepend_size }

-- `consume` and `moveReadIndex`.
pub consume : TcpBuffer → ℕ → TcpBuffer
consume b len =
    if ltb len (readable b)
    then record b { read_index = add_size b.read_index len }
    else consume_all b

pub move_write_index : TcpBuffer → ℕ → TcpBuffer
move_write_index b size = record b { write_index = add_size b.write_index (min size (writable b)) }

-- `readableSpan` and `readableView`.
pub readable_span : TcpBuffer → Option (List ℕ)
readable_span b = load b.mem b.read_index (readable b)

-- `retrieve`, `retrieveAsString` and `readFromBuffer`.
pub retrieve : TcpBuffer → ℕ → Option (List ℕ × TcpBuffer)
retrieve b len = do
  let actual = min len (readable b)
  ds ← load b.mem b.read_index actual
  some (ds, consume b actual)

pub retrieve_all : TcpBuffer → Option (List ℕ × TcpBuffer)
retrieve_all b = retrieve b (readable b)

-- `peekInt32` and `peekInt64`: no test that so many bytes are readable.
pub peek_int : ℕ → TcpBuffer → Option ℕ
peek_int k b = do ds ← load b.mem b.read_index k; some (bswap k (of_le_bytes ds))

pub retrieve_int : ℕ → TcpBuffer → Option (ℕ × TcpBuffer)
retrieve_int k b = do x ← peek_int k b; some (x, consume b k)
