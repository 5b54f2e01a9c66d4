-- ===== src/TinyPb/Decode/Total.antt =====
-- `decode` ends, and stays inside the storage, on any bytes.
use rocket_rpc.Common.{
  ℕ, zero, suc, ◌+◌, ◌^◌, ◌≤◌, ◌<◌, ◌≡◌, refl, ap, ◌∙◌, true, false, ◌||◌, Option, none, some, List,
  [], ◌∷◌, ◌++◌, arith, inl, inr, ltb, ltb→ge, Bool-cases, ◌==◌, if◌then◌else◌, length, drop,
  drop-drop, length-drop,
}
use rocket_rpc.Common.Words.{add_size, sub_size, slt32}
use rocket_rpc.Common.Search.{find_first, IsFirst, find_first-IsFirst}
use rocket_rpc.TcpBuffer.{TcpBuffer, load, readable, consume}
use rocket_rpc.TcpBuffer.Valid.{IsValid, IsValid-IsSafe, content, readable_lem, length-content}
use rocket_rpc.TcpBuffer.Fifo.{readable_span_lem, consume_lem}
use rocket_rpc.Protocol.{TinyPb, Protocol, tiny_pb, DecodeResult, header_size}
use rocket_rpc.TinyPb.{max_packet_size}
use rocket_rpc.TinyPb.Parse.{Parse, fault, rejected, parsed, ◌>>=◌, access, parse_packet}
use rocket_rpc.TinyPb.Safe.{Safe, Sure, load_inside, read_int32_inside, parse_packet-Safe}
use rocket_rpc.TinyPb.Decode.{
  Round, stop, resync, accept, reject, starts_packet, is_end, conclude, at_packet, at_start,
  decode_round, decode_loop, decode, after_round,
}

-- The buffer after some of its oldest bytes have been consumed, `least` of them or more.
abbrev pub Consumed : ℕ → TcpBuffer → TcpBuffer → Type 0
Consumed least b b' =
    IsValid b' × ((k : ℕ) × (content b' ≡ drop k (content b))) × (readable b' + least ≤ readable b)

-- A round that goes on has consumed a byte; none adds or changes bytes.
abbrev pub RoundOk : TcpBuffer → Round → Type 0
RoundOk b (stop b') = Consumed 0 b b'
RoundOk b (resync b') = Consumed 1 b b'
RoundOk b (accept m b') = Consumed 1 b b'
RoundOk b (reject b') = Consumed 1 b b'

module _ (b : TcpBuffer) (v : IsValid b) where
  consume-Consumed : (n least : ℕ) → least ≤ n → n ≤ readable b → Consumed least b (consume b n)
  consume-Consumed n least h k =
      let (valid, left) = consume_lem b v n in
      (
        valid,
        (n, left),
        omega (
          arith,
          length-content (IsValid-IsSafe v),
          length-content (IsValid-IsSafe valid),
          ap length left,
          length-drop n (content b),
        ),
      )

  module _ (crc : List ℕ → ℕ) where
    conclude-Sure :
        (end : ℕ) (r : Parse TinyPb)
        → end < readable b
        → readable b < 2 ^ 63
        → Safe (λ _. Unit) r
        → Sure (RoundOk b) (conclude crc b end r)
    unfolding conclude
    conclude-Sure end fault h k s = s
    conclude-Sure end (rejected r) h k s =
        consume-Consumed (add_size end 1) 1 (omega arith) (omega arith)
    conclude-Sure end (parsed m) h k s =
        consume-Consumed (add_size end 1) 1 (omega arith) (omega arith)

    whole-Sure :
        (bytes : List ℕ) (start pk_len : ℕ)
        → length bytes ≡ readable b
        → start < readable b
        → readable b < 2 ^ 63
        → (slt32 pk_len header_size || ltb max_packet_size pk_len) ≡ false
        → ltb (sub_size (readable b) start) pk_len ≡ false
        → let end = sub_size (add_size start pk_len) 1 in
          Sure (RoundOk b) (
            access (load bytes end 1) >>= λ last.
            if is_end last
            then conclude crc b end (parse_packet crc bytes start end pk_len)
            else parsed (resync (consume b (add_size start 1))))
    whole-Sure bytes start pk_len len h limit legal there =
        let size : (header_size ≤ pk_len) × (pk_len ≤ max_packet_size) = ground arith in
        let end : ℕ = sub_size (add_size start pk_len) 1 in
        let inside : sub_size (add_size start pk_len) 1 < readable b =
          omega (arith, ltb→ge (sub_size (readable b) start) pk_len there) in
        load_inside bytes (Sure (RoundOk b)) end 1 _ (omega arith) λ last.
          elim (Bool-cases (is_end last)) [
            | inl hit ↦ rw hit (
                conclude-Sure end (parse_packet crc bytes start end pk_len) inside limit (
                  parse_packet-Safe bytes end (omega arith) (omega arith) crc start pk_len
                    (omega arith)))
            | inr miss ↦ rw miss (consume-Consumed (add_size start 1) 1 (omega arith) (omega arith))
          ]

    at_packet-Sure :
        (bytes : List ℕ) (start pk_len : ℕ)
        → length bytes ≡ readable b
        → start < readable b
        → readable b < 2 ^ 63
        → Sure (RoundOk b) (at_packet crc b bytes start pk_len)
    unfolding at_packet
    at_packet-Sure bytes start pk_len len h limit =
        elim (Bool-cases (slt32 pk_len header_size || ltb max_packet_size pk_len)) [
          | inl bad ↦ rw bad (consume-Consumed (add_size start 1) 1 (omega arith) (omega arith))
          | inr legal ↦ rw legal (elim (Bool-cases (ltb (sub_size (readable b) start) pk_len)) [
            | inl short ↦ rw short (consume-Consumed start 0 (omega arith) (omega arith))
            | inr there ↦ rw there (whole-Sure bytes start pk_len len h limit legal there)
          ])
        ]

    at_start-Sure :
        (bytes : List ℕ) (found : Option ℕ)
        → length bytes ≡ readable b
        → IsFirst starts_packet bytes found
        → readable b < 2 ^ 63
        → Sure (RoundOk b) (at_start crc b bytes found)
    unfolding at_start
    at_start-Sure bytes none len f limit =
        consume-Consumed (readable b) 0 (omega arith) (omega arith)
    at_start-Sure bytes (some start) len f limit =
        elim (Bool-cases (ltb (sub_size (readable b) start) 5)) [
          | inl short ↦ rw short (consume-Consumed start 0 (omega arith) (omega (arith, f.0)))
          | inr enough ↦ rw enough (
              read_int32_inside bytes (Sure (RoundOk b)) (add_size start 1) _
                (omega (arith, f.0, ltb→ge (sub_size (readable b) start) 5 enough))
                λ pk_len. at_packet-Sure bytes start pk_len len (omega (arith, f.0)) limit)
        ]

    decode_round-Sure : Sure (RoundOk b) (decode_round crc b)
    unfolding decode_round
    decode_round-Sure = elim (Bool-cases (readable b == 0)) [
      | inl nothing ↦ rw nothing (v, (0, refl), omega arith)
      | inr more ↦
          rw (more, readable_span_lem b v)
            (at_start-Sure (content b) (find_first starts_packet (content b))
              (length-content (IsValid-IsSafe v))
              (find_first-IsFirst starts_packet refl (content b))
              (omega (arith, v, readable_lem (IsValid-IsSafe v))))
    ]

  round_cases :
      (crc : List ℕ → ℕ) → (round : Round) × (decode_round crc b ≡ parsed round) × RoundOk b round
  round_cases crc = cases (decode_round crc b) refl (decode_round-Sure crc)
    where
      cases :
          (r : Parse Round)
          → decode_round crc b ≡ r
          → Sure (RoundOk b) r
          → (round : Round) × (decode_round crc b ≡ parsed round) × RoundOk b round
      cases fault e s = absurd s
      cases (rejected r) e s = absurd s
      cases (parsed round) e s = (round, e, s)

Consumed-trans :
    (n : ℕ) (b₀ b₁ b₂ : TcpBuffer) → Consumed n b₀ b₁ → Consumed 0 b₁ b₂ → Consumed 0 b₀ b₂
Consumed-trans n b₀ b₁ b₂ c d = (
  d.0,
  (
    c.1.0 + d.1.0,
    d.1.1 ∙ ap (drop d.1.0) c.1.1 ∙ drop-drop c.1.0 d.1.0 (c.1.0 + d.1.0) (content b₀) refl,
  ),
  omega (arith, c.2, d.2),
)

-- What a call of `decode` leaves.
abbrev pub Ends : TcpBuffer → Option (DecodeResult × TcpBuffer) → Type 0
Ends b r = (d : DecodeResult) × (b' : TcpBuffer) × (r ≡ some (d, b')) × Consumed 0 b b'

Ends-after :
    (b b' : TcpBuffer) (r : Option (DecodeResult × TcpBuffer))
    → Consumed 1 b b'
    → Ends b' r
    → Ends b r
Ends-after b b' r c e = (e.0, e.1, e.2, Consumed-trans 1 b b' e.1 c e.3)

after-Ends :
    (next : TcpBuffer → List Protocol → Option (DecodeResult × TcpBuffer)) (b : TcpBuffer)
    (got : List Protocol) (round : Round)
    → ((b' : TcpBuffer) (got' : List Protocol)
        → IsValid b'
        → readable b' < readable b
        → Ends b' (next b' got'))
    → RoundOk b round
    → Ends b (after_round next got (parsed round))
unfolding after_round
after-Ends next b got (stop b') ends c = (record { messages = got; fatal = false }, b', refl, c)
after-Ends next b got (resync b') ends c =
    Ends-after b b' (next b' got) c (ends b' got c.0 (omega (arith, c.2)))
after-Ends next b got (accept m b') ends c =
    Ends-after b b' (next b' (got ++ tiny_pb m ∷ [])) c
      (ends b' (got ++ tiny_pb m ∷ []) c.0 (omega (arith, c.2)))
after-Ends next b got (reject b') ends c =
    (record { messages = got; fatal = true }, b', refl, (c.0, c.1, omega (arith, c.2)))

module _ (crc : List ℕ → ℕ) where
  loop-Ends :
      (fuel : ℕ) (b : TcpBuffer) (got : List Protocol)
      → IsValid b
      → readable b < fuel
      → Ends b (decode_loop crc fuel b got)
  unfolding decode_loop
  loop-Ends zero b got v h = absurd (omega arith)
  loop-Ends (suc fuel) b got v h =
      let (round, e, ok) = round_cases b v crc in
      rw e (
        after-Ends (decode_loop crc fuel) b got round
          (λ b' got' v' shorter. loop-Ends fuel b' got' v' (omega arith)) ok)

  -- Whatever bytes have arrived, `decode` ends, never reads outside the readable bytes, and leaves
  -- a valid buffer that holds the bytes that arrived last, a suffix of those before.
  pub decode_total : (b : TcpBuffer) → IsValid b → Ends b (decode crc b)
  unfolding decode
  decode_total b v = loop-Ends (suc (readable b)) b [] v (omega arith)
