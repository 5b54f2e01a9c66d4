-- ===== src/TinyPb/Tests.antt =====
-- Small messages through `encode` and `decode`, with a checksum that is always 7.
use rocket_rpc.Common.{
  ℕ, ◌+◌, ◌^◌, ◌<◌, ◌≡◌, refl, true, false, some, List, [], ◌∷◌, ◌++◌, arith, map, take, take_of_ge,
  length-append, length-take, replicate, length, ◌-◌, codes,
}
use rocket_rpc.Common.Words.{All}
use rocket_rpc.TcpBuffer.{TcpBuffer, readable}
use rocket_rpc.TcpBuffer.Valid.{IsValid, IsValid-IsSafe, readable_lem, content}
use rocket_rpc.Protocol.{TinyPb, Protocol, null, tiny_pb}
use rocket_rpc.TinyPb.{with_id, encode_message, encode}
use rocket_rpc.TinyPb.Encode.{frame, length-frame, length-body, takes, Encodes, encode_message_lem}
use rocket_rpc.TinyPb.Batch.{Fits, frames, after_encode, encode_lem}
use rocket_rpc.TinyPb.Accept.{IsPacket}
use rocket_rpc.TinyPb.RoundTrip.{HasCode, tiny_only, decode-encode}
use rocket_rpc.TinyPb.Decode.{decode}
use rocket_rpc.TinyPb.Decode.Stream.{Item, wire, received, decode_stream}
use rocket_rpc.TinyPb.Decode.Total.{Ends, decode_total}

abbrev seven : List ℕ → ℕ
seven ds = 7

seven-bound : (ds : List ℕ) → seven ds < 2 ^ 32
seven-bound ds = omega arith

abbrev call : TinyPb
call = record {
  msg_id = codes "1";
  pk_len = 0;
  msg_id_len = 0;
  method_name_len = 0;
  method_name = codes "Order.make";
  err_code = 0;
  err_info_len = 0;
  err_info = [];
  pb_data = 9 ∷ 2 ∷ 3 ∷ [];
  check_sum = 0;
  parse_success = false;
}

abbrev calls : List Protocol
calls = tiny_pb call ∷ null ∷ tiny_pb call ∷ []

abbrev start : TcpBuffer
start = record { mem = replicate 64 0; read_index = 8; write_index = 8 }

start-IsValid : IsValid start
start-IsValid = record {
  behind = omega arith;
  order = omega arith;
  inside = omega arith;
  small = omega arith;
}

call-IsPacket : IsPacket call
call-IsPacket = record { fits = omega arith; code = omega arith }

-- One whole packet behind a byte that starts none, and the first six bytes of another.
abbrev items : List Item
items = record { garbage = 5 ∷ []; message = call } ∷ []

abbrev stream : List ℕ
stream = wire seven items ++ ([] ++ take 6 (frame seven call))

abbrev arrived : TcpBuffer
arrived = record {
  mem = 0 ∷ 0 ∷ 0 ∷ 0 ∷ 0 ∷ 0 ∷ 0 ∷ 0 ∷ stream;
  read_index = 8;
  write_index = 8 + length stream;
}

length-packet : length (frame seven call) ≡ 40
length-packet = omega (arith, length-frame seven call, length-body call)

length-stream : length stream ≡ 47
length-stream = omega (
  arith,
  length-packet,
  length-append (frame seven call) [],
  length-append (frame seven call ++ []) (take 6 (frame seven call)),
  length-take 6 (frame seven call),
)

arrived-IsValid : IsValid arrived
arrived-IsValid = record {
  behind = omega arith;
  order = omega arith;
  inside = omega arith;
  small = omega (arith, length-stream);
}

content-arrived : content arrived ≡ stream
content-arrived = take_of_ge (8 + length stream - 8) stream (omega arith)

calls-Fits : All Fits calls
unfolding with_id
calls-Fits = (omega arith, (tt, (omega arith, tt)))

calls-HasCode : All HasCode calls
calls-HasCode = (omega arith, (tt, (omega arith, tt)))

length-frames : length (frames seven calls) ≡ 80
unfolding frames with_id
length-frames = omega (
  arith,
  length-append (frame seven call) (frame seven call ++ []),
  length-append (frame seven call) [],
  length-packet,
)

decode-encode_example :
    (sent : List Protocol) × (b₁ : TcpBuffer) × (b₂ : TcpBuffer) × (encode seven calls (some start)
      ≡ some (true, sent, some b₁))
    × (decode seven b₁ ≡ some (record { messages = tiny_only sent; fatal = false }, b₂))
    × (content b₂ ≡ [])
decode-encode_example =
    decode-encode seven calls start seven-bound start-IsValid refl calls-Fits calls-HasCode
      (omega (arith, length-frames))

decode_stream_example :
    (b' : TcpBuffer) × (decode seven arrived
      ≡ some (record { messages = received seven items; fatal = false }, b'))
    × IsValid b'
    × (content b' ≡ take 6 (frame seven call))
decode_stream_example =
    decode_stream seven seven-bound items call [] 6 arrived (((refl, tt), call-IsPacket), tt)
      call-IsPacket tt (omega arith) arrived-IsValid content-arrived

decode_total_example : Ends arrived (decode seven arrived)
decode_total_example = decode_total seven arrived arrived-IsValid

encode_message_lem_example :
    Encodes seven start
      (with_id call)
      (takes seven start (with_id call))
      (encode_message seven call start)
unfolding with_id
encode_message_lem_example = encode_message_lem seven call start start-IsValid (omega arith)

readable-start : readable start ≡ 0
readable-start = omega (arith, readable_lem (IsValid-IsSafe start-IsValid))

encode_lem_example :
    (b' : TcpBuffer) × (encode seven calls (some start)
      ≡ some (true, map (after_encode seven) calls, some b'))
    × IsValid b'
    × (content b' ≡ content start ++ frames seven calls)
encode_lem_example =
    encode_lem seven calls start start-IsValid calls-Fits
      (omega (arith, length-frames, readable-start))
