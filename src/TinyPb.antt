-- ===== src/TinyPb.antt =====
-- src/rocket/net/coder/tinypb_coder.cc, `encode`: messages into the output buffer.
-- The checksum (3rd-party/CRC.h) is a parameter. `htonl` and the byte order in memory are those of
-- a little-endian host, as in tcp_buffer.cc.
pub mod Encode
pub mod Batch
pub mod Parse
pub mod Decode
pub mod Layout
pub mod Accept
pub mod Safe
pub mod RoundTrip
pub mod Tests
use rocket_rpc.Common.{
  ℕ, ◌+◌, ◌-◌, ◌*◌, ◌%◌, ◌^◌, Bool, true, false, ◌||◌, Option, none, some, List, [], ◌∷◌, ◌++◌,
  ◌>>=◌, ltb, if◌then◌else◌, length, codes,
}
use rocket_rpc.Common.Words.{size_mod, le_bytes, bswap}
use rocket_rpc.TcpBuffer.{TcpBuffer, load, store, ensure_writable, move_write_index}
use rocket_rpc.Protocol.{TinyPb, Protocol, null, tiny_pb, text, pb_start, pb_end, header_size}

abbrev pub max_packet_size : ℕ
max_packet_size = 1024 * 1024

-- `static_cast<std::int32_t>` of a size.
abbrev pub to_int32 : ℕ → ℕ
to_int32 n = n % 2 ^ 32

-- The pointer `p` into the storage of the output buffer, and the storage.
pub record Cursor : Type 0 where
  pub mem : List ℕ
  pub pos : ℕ

-- The four bytes that `writeInt32To` copies.
pub int32_bytes : ℕ → List ℕ
int32_bytes x = le_bytes 4 (bswap 4 x)

-- `appendTo`: a copy of `ds` to the pointer, unless it is empty.
append_to : List ℕ → Cursor → Option Cursor
append_to [] c = some c
append_to (d ∷ ds) c = do
  mem ← store c.mem c.pos (d ∷ ds)
  some (record { mem = mem; pos = c.pos + length (d ∷ ds) })

-- A sequence of such copies.
append_all : List (List ℕ) → Cursor → Option Cursor
append_all [] c = some c
append_all (ds ∷ rest) c = do c' ← append_to ds c; append_all rest c'

-- The copies of `encode` from `PB_START` to `m_pb_data`, in order.
pub body_parts : TinyPb → ℕ → List (List ℕ)
body_parts m pk_len =
    (pb_start ∷ [])
    ∷ int32_bytes pk_len
    ∷ int32_bytes (to_int32 (length m.msg_id))
    ∷ m.msg_id
    ∷ int32_bytes (to_int32 (length m.method_name))
    ∷ m.method_name
    ∷ int32_bytes m.err_code
    ∷ int32_bytes (to_int32 (length m.err_info))
    ∷ m.err_info
    ∷ m.pb_data
    ∷ []

abbrev pub default_msg_id : List ℕ
default_msg_id = codes "default_msg_id"

pub with_id : TinyPb → TinyPb
with_id m = record m { msg_id = elim m.msg_id [ [] ↦ default_msg_id | x ∷ r ↦ x ∷ r ] }

pub packet_size : TinyPb → ℕ
packet_size m =
    (header_size + length m.msg_id + length m.method_name + length m.err_info + length m.pb_data)
    % size_mod

-- What `encode` sets in a message that it has written.
filled_in : TinyPb → ℕ → ℕ → TinyPb
filled_in m pk_len checksum = record m {
  pk_len = pk_len;
  msg_id_len = to_int32 (length m.msg_id);
  method_name_len = to_int32 (length m.method_name);
  err_info_len = to_int32 (length m.err_info);
  check_sum = checksum;
  parse_success = true;
}

module _ (crc : List ℕ → ℕ) where
  -- The copies into the storage, the checksum of what has been copied, and the end.
  write_packet : TinyPb → ℕ → TcpBuffer → Option (ℕ × TcpBuffer)
  write_packet m pk_len b = do
    c ← append_all (body_parts m pk_len) (record { mem = b.mem; pos = b.write_index })
    body ← load c.mem b.write_index (c.pos - b.write_index)
    c' ← append_all (int32_bytes (crc body) ∷ (pb_end ∷ []) ∷ []) c
    some (crc body, move_write_index (record b { mem = c'.mem }) (c'.pos - b.write_index))

  -- The rest of a round, after `ensureWritable` has answered.
  write_message : TinyPb → Bool × TcpBuffer → Option (Bool × TinyPb × TcpBuffer)
  write_message m (false, b) = some (false, m, b)
  write_message m (true, b) = do
    (checksum, b') ← write_packet m (to_int32 (packet_size m)) b
    some (true, filled_in m (to_int32 (packet_size m)) checksum, b')

  -- A round for a message that has an id.
  encode_with_id : TinyPb → TcpBuffer → Option (Bool × TinyPb × TcpBuffer)
  encode_with_id m b =
      if ltb max_packet_size (packet_size m) || ltb (2 ^ 31 - 1) (packet_size m)
      then some (false, m, b)
      else do enough ← ensure_writable b (packet_size m); write_message m enough

  -- One round of the loop: `false` is a `return false`.
  pub encode_message : TinyPb → TcpBuffer → Option (Bool × TinyPb × TcpBuffer)
  encode_message m b = encode_with_id (with_id m) b

  -- The loop over the messages.
  encode_loop : List Protocol → TcpBuffer → Option (Bool × List Protocol × TcpBuffer)
  encode_loop [] b = some (true, [], b)
  encode_loop (null ∷ ms) b = do (ok, ms', b') ← encode_loop ms b; some (ok, null ∷ ms', b')
  encode_loop (text t ∷ ms) b = do (ok, ms', b') ← encode_loop ms b; some (ok, text t ∷ ms', b')
  encode_loop (tiny_pb m ∷ ms) b = do
    (done, m', b') ← encode_message m b
    let rest = encode_loop ms b'
    if done
        then (do (ok, ms', b'') ← rest; some (ok, tiny_pb m' ∷ ms', b''))
        else some (false, tiny_pb m' ∷ ms, b')

  -- The result, the messages after the call, and the buffer; `none` is a null buffer.
  pub encode : List Protocol → Option TcpBuffer → Option (Bool × List Protocol × Option TcpBuffer)
  encode ms none = some (false, ms, none)
  encode ms (some b) = do (ok, ms', b') ← encode_loop ms b; some (ok, ms', some b')
