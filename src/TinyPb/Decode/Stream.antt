-- ===== src/TinyPb/Decode/Stream.antt =====
-- `decode` on a stream of frames with an incomplete one, or nothing, at the end.
use rocket_rpc.Common.{
  ℕ, zero, suc, ◌+◌, ◌^◌, ◌<◌, ◌≡◌, sym, ap, ◌∙◌, false, some, List, [], ◌∷◌, ◌++◌, arith,
  append-nil, append_assoc, length, length-append, take,
}
use rocket_rpc.Common.Words.{All}
use rocket_rpc.TcpBuffer.{TcpBuffer, readable, consume}
use rocket_rpc.TcpBuffer.Valid.{IsValid, IsValid-IsSafe, content, length-content}
use rocket_rpc.Protocol.{TinyPb, Protocol, tiny_pb}
use rocket_rpc.TinyPb.Encode.{size, frame, written, length-frame}
use rocket_rpc.TinyPb.Parse.{parsed}
use rocket_rpc.TinyPb.Accept.{IsPacket}
use rocket_rpc.TinyPb.Decode.{stop, accept, decode_round, decode_loop, decode, after_round}
use rocket_rpc.TinyPb.Decode.Found.{IsGarbage, decode_round_lem, left_lem}
use rocket_rpc.TinyPb.Decode.Partial.{Stops, garbage_round, partial_round}

-- Packets on the wire, each behind bytes that start none.
pub record Item : Type 0 where
  pub garbage : List ℕ
  pub message : TinyPb

module _ (crc : List ℕ → ℕ) where
  abbrev pub wire : List Item → List ℕ
  wire [] = []
  wire (i ∷ is) = i.garbage ++ (frame crc i.message ++ wire is)

  abbrev pub received : List Item → List Protocol
  received [] = []
  received (i ∷ is) = tiny_pb (written crc i.message) ∷ received is

abbrev pub IsItem : Item → Type 0
IsItem i = All IsGarbage i.garbage × IsPacket i.message

module _ (crc : List ℕ → ℕ) (crc_bound : (ds : List ℕ) → crc ds < 2 ^ 32) where
  -- The loop takes the packets at the front, and goes on with what follows them.
  stream_lem :
      (is : List Item) (tail : List ℕ) (b : TcpBuffer) (fuel : ℕ) (got : List Protocol)
      → IsValid b
      → All IsItem is
      → content b ≡ wire crc is ++ tail
      → readable b < fuel
      → (b' : TcpBuffer) × (fuel' : ℕ) × (decode_loop crc fuel b got
          ≡ decode_loop crc fuel' b' (got ++ received crc is))
        × IsValid b'
        × (content b' ≡ tail)
        × (readable b' < fuel')
  unfolding decode_loop after_round
  stream_lem [] tail b fuel got v h e f =
      (b, fuel, ap (decode_loop crc fuel b) (sym (append-nil got)), v, e, f)
  stream_lem (i ∷ is) tail b zero got v h e f = absurd (omega arith)
  stream_lem (i ∷ is) tail b (suc fuel) got v h e f =
      let m : TinyPb = i.message in
      let rest : List ℕ = wire crc is ++ tail in
      let e' : content b ≡ i.garbage ++ (frame crc i.message ++ (wire crc is ++ tail)) =
        e
        ∙ append_assoc i.garbage (frame crc i.message ++ wire crc is) tail
        ∙ ap (◌++◌ i.garbage) (append_assoc (frame crc i.message) (wire crc is) tail) in
      let round : decode_round crc b
          ≡ parsed
              (accept (written crc i.message) (consume b (length i.garbage + size i.message))) =
        decode_round_lem crc crc_bound i.message h.0.1 i.garbage (wire crc is ++ tail) h.0.0 b v
          e' in
      let (v', left) =
        left_lem crc crc_bound i.message h.0.1 i.garbage (wire crc is ++ tail) h.0.0 b v e' in
      let shorter : readable (consume b (length i.garbage + size i.message)) < fuel = omega (
        arith,
        length-content (IsValid-IsSafe v),
        length-content (IsValid-IsSafe v'),
        ap length left,
        ap length e',
        length-append i.garbage (frame crc i.message ++ (wire crc is ++ tail)),
        length-append (frame crc i.message) (wire crc is ++ tail),
        length-frame crc i.message,
      ) in
      let (b', fuel', step, valid, rest', enough) =
        stream_lem is tail (consume b (length i.garbage + size i.message)) fuel
          (got ++ tiny_pb (written crc i.message) ∷ []) v' h.1 left shorter in
      (
        b',
        fuel',
        rw round (
            step
            ∙ ap (decode_loop crc fuel' b')
                (append_assoc got (tiny_pb (written crc i.message) ∷ []) (received crc is))),
        valid,
        rest',
        enough,
      )

  stops_with :
      (b : TcpBuffer) (fuel : ℕ) (got : List Protocol) (b' : TcpBuffer)
      → decode_round crc b ≡ parsed (stop b')
      → readable b < fuel
      → decode_loop crc fuel b got ≡ some (record { messages = got; fatal = false }, b')
  unfolding decode_loop after_round
  stops_with b zero got b' e f = absurd (omega arith)
  stops_with b (suc fuel) got b' e f = rw e

  -- The start of a packet, or nothing, behind bytes that start none.
  rest_round :
      (m : TinyPb) (g : List ℕ) (k : ℕ) (b : TcpBuffer)
      → IsPacket m
      → All IsGarbage g
      → k < size m
      → IsValid b
      → content b ≡ g ++ take k (frame crc m)
      → Stops crc b (take k (frame crc m))
  rest_round m g zero b p h s v e = garbage_round crc b v g h (e ∙ append-nil g)
  rest_round m g (suc k) b p h s v e = partial_round crc b v m p g h (suc k) (omega arith) s e

  -- From a stream of whole packets, each behind any bytes that start none, and of a packet that is
  -- cut off after `k` bytes, `decode` returns exactly the messages of the whole packets, in order,
  -- with their fields, drops the bytes between them, and keeps exactly the `k` bytes of the last.
  pub decode_stream :
      (is : List Item) (m : TinyPb) (g : List ℕ) (k : ℕ) (b : TcpBuffer)
      → All IsItem is
      → IsPacket m
      → All IsGarbage g
      → k < size m
      → IsValid b
      → content b ≡ wire crc is ++ (g ++ take k (frame crc m))
      → (b' : TcpBuffer) × (decode crc b
          ≡ some (record { messages = received crc is; fatal = false }, b'))
        × IsValid b'
        × (content b' ≡ take k (frame crc m))
  unfolding decode
  decode_stream is m g k b items p h s v e =
      let (b₁, fuel, step, v₁, rest, enough) =
        stream_lem is (g ++ take k (frame crc m)) b (suc (readable b)) [] v items e (omega arith) in
      let (b₂, round, v₂, left) = rest_round m g k b₁ p h s v₁ rest in
      (b₂, step ∙ stops_with b₁ fuel (received crc is) b₂ round enough, v₂, left)
