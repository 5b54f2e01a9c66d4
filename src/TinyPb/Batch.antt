-- ===== src/TinyPb/Batch.antt =====
-- `encode` on a list of messages: the frames of all TinyPB messages, in order.
use rocket_rpc.Common.{
  ℕ, ◌+◌, ◌-◌, ◌≤◌, ◌≡◌, refl, sym, ap, ◌∙◌, true, some, List, [], ◌∷◌, ◌++◌, arith, append-nil,
  append_assoc, map, length, length-append, le→leb,
}
use rocket_rpc.Common.Words.{All}
use rocket_rpc.TcpBuffer.{TcpBuffer, readable, prepend_size, max_buffer_size}
use rocket_rpc.TcpBuffer.Valid.{IsValid, IsValid-IsSafe, content, readable_lem, length-content}
use rocket_rpc.TcpBuffer.Room.{accepts}
use rocket_rpc.Protocol.{TinyPb, Protocol, tiny_pb, text, null}
use rocket_rpc.TinyPb.{max_packet_size, with_id, encode_message, encode_loop, encode}
use rocket_rpc.TinyPb.Encode.{
  size, frame, length-frame, length-body, written, takes, Encodes, encode_message_lem,
}

-- A packet of at most 1 MiB; other messages are skipped.
abbrev pub Fits : Protocol → Type 0
Fits (tiny_pb m) = size (with_id m) ≤ max_packet_size
Fits _ = Unit

pub accepts_small :
    (b : TcpBuffer) (n : ℕ)
    → prepend_size + (b.write_index - b.read_index) + n ≤ max_buffer_size
    → accepts b n ≡ true
accepts_small b n h = ground arith

module _ (crc : List ℕ → ℕ) where
  unfoldable pub frames : List Protocol → List ℕ
  frames [] = []
  frames (tiny_pb m ∷ ms) = frame crc (with_id m) ++ frames ms
  frames (null ∷ ms) = frames ms
  frames (text t ∷ ms) = frames ms

  unfoldable pub after_encode : Protocol → Protocol
  after_encode (tiny_pb m) = tiny_pb (written crc (with_id m))
  after_encode null = null
  after_encode (text t) = text t

  -- A message that is taken.
  taken :
      (m : TinyPb) (b : TcpBuffer)
      → IsValid b
      → size (with_id m) ≤ max_packet_size
      → prepend_size + readable b + size (with_id m) ≤ max_buffer_size
      → Encodes crc b (with_id m) true (encode_message crc m b)
  taken m b v h k =
      let ok : takes crc b (with_id m) ≡ true = rw (
        le→leb (size (with_id m)) max_packet_size h,
        accepts_small b (size (with_id m)) (omega (arith, readable_lem (IsValid-IsSafe v))),
      ) in
      rw ok at (encode_message_lem crc m b v (omega arith))

  loop_lem :
      (ms : List Protocol) (b : TcpBuffer)
      → IsValid b
      → All Fits ms
      → prepend_size + readable b + length (frames ms) ≤ max_buffer_size
      → (b' : TcpBuffer) × (encode_loop crc ms b ≡ some (true, map after_encode ms, b'))
        × IsValid b'
        × (content b' ≡ content b ++ frames ms)
  unfolding encode_loop frames after_encode
  loop_lem [] b v h k = (b, refl, v, sym (append-nil (content b)))
  loop_lem (null ∷ ms) b v h k =
      let (b', e, valid, longer) = loop_lem ms b v h.1 k in (b', rw e, valid, longer)
  loop_lem (text t ∷ ms) b v h k =
      let (b', e, valid, longer) = loop_lem ms b v h.1 k in (b', rw e, valid, longer)
  loop_lem (tiny_pb m ∷ ms) b v h k =
      let f : List ℕ = frame crc (with_id m) in
      let n : length (frame crc (with_id m) ++ frames ms) ≡ size (with_id m) + length (frames ms) =
        omega (
          arith,
          length-append (frame crc (with_id m)) (frames ms),
          length-frame crc (with_id m),
          length-body (with_id m),
        ) in
      let len : length (frame crc (with_id m)) ≡ size (with_id m) =
        omega (arith, length-frame crc (with_id m), length-body (with_id m)) in
      let (b₁, e₁, v₁, longer₁) = taken m b v h.0 (omega arith) in
      let r₁ : readable b₁ ≡ readable b + size (with_id m) = omega (
        arith,
        length-content (IsValid-IsSafe v₁),
        length-content (IsValid-IsSafe v),
        ap length longer₁,
        length-append (content b) (frame crc (with_id m)),
      ) in
      let (b₂, e₂, v₂, longer₂) = loop_lem ms b₁ v₁ h.1 (omega arith) in
      (
        b₂,
        rw (e₁, e₂),
        v₂,
        longer₂ ∙ ap (λ c. c ++ frames ms) longer₁ ∙ append_assoc (content b) f (frames ms),
      )

  -- `encode` of messages whose packets have at most 1 MiB each and fit in the buffer together
  -- succeeds, appends the frames of the TinyPB messages in order, skips the others, and fills in
  -- the length, checksum and status fields of each message that it has written.
  pub encode_lem :
      (ms : List Protocol) (b : TcpBuffer)
      → IsValid b
      → All Fits ms
      → prepend_size + readable b + length (frames ms) ≤ max_buffer_size
      → (b' : TcpBuffer) × (encode crc ms (some b) ≡ some (true, map after_encode ms, some b'))
        × IsValid b'
        × (content b' ≡ content b ++ frames ms)
  unfolding encode
  encode_lem ms b v h k =
      let (b', e, valid, longer) = loop_lem ms b v h k in (b', rw e, valid, longer)
