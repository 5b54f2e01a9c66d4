-- ===== src/TinyPb/RoundTrip.antt =====
-- What `encode` writes, `decode` reads.
use rocket_rpc.Common.{
  ℕ, ◌+◌, ◌^◌, ◌≤◌, ◌<◌, ◌≡◌, refl, sym, ap, ◌∙◌, true, false, some, List, [], ◌∷◌, ◌++◌, arith,
  append-nil, map, length, take,
}
use rocket_rpc.Common.Words.{All}
use rocket_rpc.TcpBuffer.{TcpBuffer, readable, prepend_size, max_buffer_size}
use rocket_rpc.TcpBuffer.Valid.{IsValid, IsValid-IsSafe, content, length-content}
use rocket_rpc.Protocol.{TinyPb, Protocol, tiny_pb, text, null}
use rocket_rpc.TinyPb.{with_id, encode}
use rocket_rpc.TinyPb.Encode.{frame, written}
use rocket_rpc.TinyPb.Batch.{Fits, frames, after_encode, encode_lem}
use rocket_rpc.TinyPb.Decode.{decode}
use rocket_rpc.TinyPb.Decode.Stream.{Item, IsItem, wire, received, decode_stream}

-- The TinyPB messages of a list.
pub tiny_only : List Protocol → List Protocol
tiny_only [] = []
tiny_only (tiny_pb m ∷ ms) = tiny_pb m ∷ tiny_only ms
tiny_only (null ∷ ms) = tiny_only ms
tiny_only (text t ∷ ms) = tiny_only ms

items : List Protocol → List Item
items [] = []
items (tiny_pb m ∷ ms) = record { garbage = []; message = with_id m } ∷ items ms
items (null ∷ ms) = items ms
items (text t ∷ ms) = items ms

-- An error code that is an `int32_t`.
abbrev pub HasCode : Protocol → Type 0
HasCode (tiny_pb m) = m.err_code < 2 ^ 32
HasCode _ = Unit

code-with_id : (m : TinyPb) → (with_id m).err_code ≡ m.err_code
unfolding with_id
code-with_id m = refl

items-IsItem : (ms : List Protocol) → All Fits ms → All HasCode ms → All IsItem (items ms)
unfolding items
items-IsItem [] f c = tt
items-IsItem (tiny_pb m ∷ ms) f c =
    ((tt, record { fits = f.0; code = rw (code-with_id m) c.0 }), items-IsItem ms f.1 c.1)
items-IsItem (null ∷ ms) f c = items-IsItem ms f.1 c.1
items-IsItem (text t ∷ ms) f c = items-IsItem ms f.1 c.1

module _ (crc : List ℕ → ℕ) where
  wire-items : (ms : List Protocol) → frames crc ms ≡ wire crc (items ms)
  unfolding items frames
  wire-items [] = refl
  wire-items (tiny_pb m ∷ ms) = ap (◌++◌ (frame crc (with_id m))) (wire-items ms)
  wire-items (null ∷ ms) = wire-items ms
  wire-items (text t ∷ ms) = wire-items ms

  received-items :
      (ms : List Protocol) → received crc (items ms) ≡ tiny_only (map (after_encode crc) ms)
  unfolding items tiny_only after_encode
  received-items [] = refl
  received-items (tiny_pb m ∷ ms) = ap (◌∷◌ (tiny_pb (written crc (with_id m)))) (received-items ms)
  received-items (null ∷ ms) = received-items ms
  received-items (text t ∷ ms) = received-items ms

abbrev blank : TinyPb
blank = record {
  msg_id = [];
  pk_len = 0;
  msg_id_len = 0;
  method_name_len = 0;
  method_name = [];
  err_code = 0;
  err_info_len = 0;
  err_info = [];
  pb_data = [];
  check_sum = 0;
  parse_success = false;
}

-- Messages that are encoded into an empty buffer, and fit there, come out of it again: `decode`
-- returns the TinyPB messages, in order, with every field as `encode` left it, and nothing else,
-- reports no fatal error, and leaves the buffer empty.
pub decode-encode :
    (crc : List ℕ → ℕ) (ms : List Protocol) (b : TcpBuffer)
    → ((ds : List ℕ) → crc ds < 2 ^ 32)
    → IsValid b
    → content b ≡ []
    → All Fits ms
    → All HasCode ms
    → prepend_size + length (frames crc ms) ≤ max_buffer_size
    → (sent : List Protocol) × (b₁ : TcpBuffer) × (b₂ : TcpBuffer) × (encode crc ms (some b)
        ≡ some (true, sent, some b₁))
      × (decode crc b₁ ≡ some (record { messages = tiny_only sent; fatal = false }, b₂))
      × (content b₂ ≡ [])
decode-encode crc ms b bound v empty fits codes room =
    let held : readable b ≡ 0 = omega (arith, length-content (IsValid-IsSafe v), ap length empty) in
    let (b₁, e₁, v₁, longer) = encode_lem crc ms b v fits (omega arith) in
    let stream : content b₁ ≡ wire crc (items ms) ++ ([] ++ take 0 (frame crc blank)) =
      longer
      ∙ ap (λ c. c ++ frames crc ms) empty
      ∙ wire-items crc ms
      ∙ sym (append-nil (wire crc (items ms))) in
    let (b₂, e₂, v₂, left) =
      decode_stream crc bound (items ms) blank [] 0 b₁ (items-IsItem ms fits codes)
        (record { fits = omega arith; code = omega arith }) tt (omega arith) v₁ stream in
    (
      map (after_encode crc) ms,
      b₁,
      b₂,
      e₁,
      e₂ ∙ ap (λ l. some (record { messages = l; fatal = false }, b₂)) (received-items crc ms),
      left,
    )
