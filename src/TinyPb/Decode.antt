-- ===== src/TinyPb/Decode.antt =====
-- src/rocket/net/coder/tinypb_coder.cc, `decode`: packets out of the input buffer.
pub mod Found
pub mod Partial
pub mod Stream
pub mod Total
use rocket_rpc.Common.{
  ℕ, zero, suc, ◌+◌, ◌^◌, Bool, true, false, ◌||◌, Option, none, some, List, [], ◌∷◌, ◌++◌, ltb,
  ◌==◌, if◌then◌else◌, length,
}
use rocket_rpc.Common.Words.{add_size, sub_size, slt32}
use rocket_rpc.Common.Search.{find_first}
use rocket_rpc.TcpBuffer.{TcpBuffer, load, readable, readable_span, consume}
use rocket_rpc.Protocol.{TinyPb, Protocol, tiny_pb, DecodeResult, pb_start, pb_end, header_size}
use rocket_rpc.TinyPb.{max_packet_size}
use rocket_rpc.TinyPb.Parse.{
  Parse, fault, rejected, parsed, ◌>>=◌, access, read_int32, parse_packet,
}

-- What one round of the loop does with the buffer: `return result` with what is left, `continue`
-- behind a byte that starts no packet, a message, or a rejected packet.
pub data Round : Type 0 where
  stop : TcpBuffer → Round
  resync : TcpBuffer → Round
  accept : TinyPb → TcpBuffer → Round
  reject : TcpBuffer → Round

-- The end of a round: `return result`, or the next round, which `next` makes.
after_round :
    (TcpBuffer → List Protocol → Option (DecodeResult × TcpBuffer))
    → List Protocol
    → Parse Round
    → Option (DecodeResult × TcpBuffer)
after_round next got fault = none
after_round next got (rejected r) = none
after_round next got (parsed (stop b)) = some (record { messages = got; fatal = false }, b)
after_round next got (parsed (resync b)) = next b got
after_round next got (parsed (accept m b)) = next b (got ++ tiny_pb m ∷ [])
after_round next got (parsed (reject b)) = some (record { messages = got; fatal = true }, b)

-- `std::find(data, end, PB_START)`.
abbrev pub starts_packet : List ℕ → Bool
starts_packet (x ∷ r) = x == pb_start
starts_packet [] = false

-- `data[pk_end_index] == PB_END`, of the one byte read there.
abbrev pub is_end : List ℕ → Bool
is_end (x ∷ r) = x == pb_end
is_end [] = false

module _ (crc : List ℕ → ℕ) where
  -- The packet has been read: its bytes are consumed, with the garbage in front of it.
  conclude : TcpBuffer → ℕ → Parse TinyPb → Parse Round
  conclude b end fault = fault
  conclude b end (rejected r) = parsed (reject (consume b (add_size end 1)))
  conclude b end (parsed m) = parsed (accept m (consume b (add_size end 1)))

  -- The packet of `pk_len` bytes that starts at `start`, if all of it is there.
  at_packet : TcpBuffer → List ℕ → ℕ → ℕ → Parse Round
  at_packet b bytes start pk_len =
      if slt32 pk_len header_size || ltb max_packet_size pk_len
      then parsed (resync (consume b (add_size start 1)))
      else if ltb (sub_size (readable b) start) pk_len
      then parsed (stop (consume b start))
      else do
        let end = sub_size (add_size start pk_len) 1
        last ← access (load bytes end 1)
        if is_end last
            then conclude b end (parse_packet crc bytes start end pk_len)
            else parsed (resync (consume b (add_size start 1)))

  at_start : TcpBuffer → List ℕ → Option ℕ → Parse Round
  at_start b bytes none = parsed (stop (consume b (readable b)))
  at_start b bytes (some start) =
      if ltb (sub_size (readable b) start) 5
      then parsed (stop (consume b start))
      else do pk_len ← read_int32 bytes (add_size start 1); at_packet b bytes start pk_len

  -- One round of `while (true)`.
  pub decode_round : TcpBuffer → Parse Round
  decode_round b =
      if readable b == 0
      then parsed (stop b)
      else do bytes ← access (readable_span b); at_start b bytes (find_first starts_packet bytes)

  -- The loop, on fuel: `none` is a fault, or no fuel left. `got` holds the messages so far.
  pub decode_loop : ℕ → TcpBuffer → List Protocol → Option (DecodeResult × TcpBuffer)
  decode_loop zero b got = none
  decode_loop (suc fuel) b got = after_round (decode_loop fuel) got (decode_round b)

  -- Each round but the last consumes a byte, so this fuel is enough.
  pub decode : TcpBuffer → Option (DecodeResult × TcpBuffer)
  decode b = decode_loop (suc (readable b)) b []
