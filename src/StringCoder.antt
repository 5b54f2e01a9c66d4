-- ===== src/StringCoder.antt =====
-- src/rocket/net/coder/string_coder.h: messages with no frame.
pub mod Tests
use rocket_rpc.Common.{
  ℕ, Bool, true, false, Option, some, List, [], ◌∷◌, ◌++◌, ◌>>=◌, ◌==◌, if◌then◌else◌, length,
  codes, ◌+◌, ◌≤◌, ◌<◌, ◌≡◌, refl, sym, ap, ◌∙◌, arith, append-nil, append_assoc, length-append,
  take_of_ge, drop_of_ge,
}
use rocket_rpc.TcpBuffer.{TcpBuffer, readable, append_view, retrieve, prepend_size, max_buffer_size}
use rocket_rpc.TcpBuffer.Valid.{IsValid, IsValid-IsSafe, content, readable_lem, length-content}
use rocket_rpc.TcpBuffer.Fifo.{append_accepted, retrieve_lem}
use rocket_rpc.Protocol.{Protocol, text, DecodeResult}
use rocket_rpc.TinyPb.Batch.{accepts_small}

-- The bytes that a message adds; another protocol, and an empty text, add none.
pub info_of : Protocol → List ℕ
info_of (text t) = t.info
info_of _ = []

-- One round of the loop, with the rounds after it.
sent : (TcpBuffer → Option (Bool × TcpBuffer)) → Bool × TcpBuffer → Option (Bool × TcpBuffer)
sent next (true, b) = next b
sent next (false, b) = some (false, b)

put_info : (TcpBuffer → Option (Bool × TcpBuffer)) → List ℕ → TcpBuffer → Option (Bool × TcpBuffer)
put_info next [] b = next b
put_info next (x ∷ info) b = do r ← append_view b (x ∷ info); sent next r

-- The result and the buffer after the call.
pub encode : List Protocol → TcpBuffer → Option (Bool × TcpBuffer)
encode [] b = some (true, b)
encode (m ∷ ms) b = put_info (encode ms) (info_of m) b

pub decode : TcpBuffer → Option (DecodeResult × TcpBuffer)
decode b = if readable b == 0 then some (record { messages = []; fatal = false }, b) else do
  (bytes, b') ← retrieve b (readable b)
  let message = text (record { msg_id = codes "string_msg"; info = bytes })
  some (record { messages = message ∷ []; fatal = false }, b')

-- All bytes of the messages, with nothing between them.
pub all_info : List Protocol → List ℕ
all_info [] = []
all_info (m ∷ ms) = info_of m ++ all_info ms

put_info_lem :
    (next : TcpBuffer → Option (Bool × TcpBuffer)) (info : List ℕ) (b : TcpBuffer)
    → IsValid b
    → prepend_size + readable b + length info ≤ max_buffer_size
    → (b' : TcpBuffer) × (put_info next info b ≡ next b')
      × IsValid b'
      × (content b' ≡ content b ++ info)
unfolding put_info sent
put_info_lem next [] b v h = (b, refl, v, sym (append-nil (content b)))
put_info_lem next (x ∷ info) b v h =
    let (b', e, valid, longer) =
      append_accepted b v (x ∷ info)
        (accepts_small b (length (x ∷ info)) (omega (arith, readable_lem (IsValid-IsSafe v)))) in
    (b', rw e, valid, longer)

-- Texts that fit in the buffer together are all added to it, in order, with nothing between them.
pub encode_joined_lem :
    (ms : List Protocol) (b : TcpBuffer)
    → IsValid b
    → prepend_size + readable b + length (all_info ms) ≤ max_buffer_size
    → (b' : TcpBuffer) × (encode ms b ≡ some (true, b'))
      × IsValid b'
      × (content b' ≡ content b ++ all_info ms)
unfolding encode all_info
encode_joined_lem [] b v h = (b, refl, v, sym (append-nil (content b)))
encode_joined_lem (m ∷ ms) b v h =
    let n : length (info_of m ++ all_info ms) ≡ length (info_of m) + length (all_info ms) =
      length-append (info_of m) (all_info ms) in
    let (b₁, e₁, v₁, longer₁) = put_info_lem (encode ms) (info_of m) b v (omega arith) in
    let held : readable b₁ ≡ readable b + length (info_of m) = omega (
      arith,
      length-content (IsValid-IsSafe v),
      length-content (IsValid-IsSafe v₁),
      ap length longer₁,
      length-append (content b) (info_of m),
    ) in
    let (b₂, e₂, v₂, longer₂) = encode_joined_lem ms b₁ v₁ (omega arith) in
    (
      b₂,
      e₁ ∙ e₂,
      v₂,
      longer₂
          ∙ ap (λ c. c ++ all_info ms) longer₁
          ∙ append_assoc (content b) (info_of m) (all_info ms),
    )

-- Texts that are encoded into an empty buffer come back as one message that joins them all, if any
-- of them has a byte: the boundaries between the messages are lost. The buffer is empty again.
pub decode-encode_joined :
    (ms : List Protocol) (b : TcpBuffer)
    → IsValid b
    → content b ≡ []
    → 0 < length (all_info ms)
    → prepend_size + length (all_info ms) ≤ max_buffer_size
    → (b₁ : TcpBuffer) × (b₂ : TcpBuffer) × (encode ms b ≡ some (true, b₁))
      × (decode b₁
          ≡ some (
            record {
              messages = text (record { msg_id = codes "string_msg"; info = all_info ms }) ∷ [];
              fatal = false;
            },
            b₂,
          ))
      × (content b₂ ≡ [])
unfolding decode
decode-encode_joined ms b v empty some_bytes room =
    let held : readable b ≡ 0 = omega (arith, length-content (IsValid-IsSafe v), ap length empty) in
    let (b₁, e₁, v₁, longer) = encode_joined_lem ms b v (omega arith) in
    let all : content b₁ ≡ all_info ms = longer ∙ ap (λ c. c ++ all_info ms) empty in
    let more : (readable b₁ == 0) ≡ false =
      ground (arith, length-content (IsValid-IsSafe v₁), ap length all) in
    let whole : length (content b₁) ≡ readable b₁ = length-content (IsValid-IsSafe v₁) in
    let (b₂, e₂, v₂, left) = retrieve_lem b₁ v₁ (readable b₁) in
    (
      b₁,
      b₂,
      e₁,
      rw (more, e₂, take_of_ge (readable b₁) (content b₁) (omega arith), all),
      left ∙ drop_of_ge (readable b₁) (content b₁) (omega arith),
    )
