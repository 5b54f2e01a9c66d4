-- ===== src/TinyPb/Decode/Partial.antt =====
-- A round of `decode` on the start of a packet, behind bytes that start none.
use rocket_rpc.Common.{
  ℕ, ◌+◌, ◌-◌, ◌^◌, ◌<◌, ◌≡◌, refl, sym, ap, ◌∙◌, true, false, ◌||◌, none, some, List, [], ◌∷◌,
  ◌++◌, arith, ltb, dec_lt, ◌==◌, length, take, drop, append-nil, length-append, length-take,
  drop-append, take-append_ge, drop_of_ge,
}
use rocket_rpc.Common.Words.{All, add_size, sub_size, slt32}
use rocket_rpc.Common.Search.{find_first}
use rocket_rpc.TcpBuffer.{TcpBuffer, readable, consume}
use rocket_rpc.TcpBuffer.Valid.{IsValid, IsValid-IsSafe, content, readable_lem, length-content}
use rocket_rpc.TcpBuffer.Fifo.{readable_span_lem, consume_lem}
use rocket_rpc.Protocol.{TinyPb, pb_start, header_size}
use rocket_rpc.TinyPb.{max_packet_size, int32_bytes}
use rocket_rpc.TinyPb.Encode.{size, frame, length-frame, length-body, length-int32_bytes}
use rocket_rpc.TinyPb.Parse.{parsed}
use rocket_rpc.TinyPb.Layout.{At, At-step, read_int32-At, frame-layout, from_pk_len, from_msg_id}
use rocket_rpc.TinyPb.Accept.{IsPacket}
use rocket_rpc.TinyPb.Decode.{stop, starts_packet, at_packet, at_start, decode_round}
use rocket_rpc.TinyPb.Decode.Found.{IsGarbage, find_first-append}

find_first-garbage : (g : List ℕ) → All IsGarbage g → find_first starts_packet g ≡ none
unfolding find_first
find_first-garbage [] h = refl
find_first-garbage (x ∷ g) h = rw (h.0, find_first-garbage g h.1)

-- The round returns, and leaves `kept` in the buffer.
abbrev pub Stops : (List ℕ → ℕ) → TcpBuffer → List ℕ → Type 0
Stops crc b kept =
    (b' : TcpBuffer) × (decode_round crc b ≡ parsed (stop b')) × IsValid b' × (content b' ≡ kept)

module _ (crc : List ℕ → ℕ) (b : TcpBuffer) (v : IsValid b) where
  pub garbage_round : (g : List ℕ) → All IsGarbage g → content b ≡ g → Stops crc b []
  unfolding decode_round at_start
  garbage_round [] h e =
      let nothing : (readable b == 0) ≡ true =
        ground (arith, length-content (IsValid-IsSafe v), ap length e) in
      (b, rw nothing, v, e)
  garbage_round (x ∷ g) h e =
      let more : (readable b == 0) ≡ false =
        ground (arith, length-content (IsValid-IsSafe v), ap length e) in
      let (valid, left) = consume_lem b v (readable b) in
      (
        consume b (readable b),
        rw (more, readable_span_lem b v, e, find_first-garbage (x ∷ g) h),
        valid,
        left
            ∙ drop_of_ge (readable b) (content b)
                (omega (arith, length-content (IsValid-IsSafe v))),
      )

  module _ (m : TinyPb) (p : IsPacket m) (g : List ℕ) (garbage : All IsGarbage g) (k : ℕ)
      (some_bytes : 0 < k) (short : k < size m) (e : content b ≡ g ++ take k (frame crc m)) where
    count : readable b ≡ length g + k
    count = omega (
      arith,
      length-content (IsValid-IsSafe v),
      ap length e,
      length-append g (take k (frame crc m)),
      length-take k (frame crc m),
      length-frame crc m,
      length-body m,
    )

    in_range : readable b < 2 ^ 63
    in_range = omega (arith, v, readable_lem (IsValid-IsSafe v))

    layout : frame crc m ≡ (pb_start ∷ []) ++ from_pk_len crc m []
    layout = sym (append-nil (frame crc m)) ∙ frame-layout crc m [] (omega (arith, p.fits))

    shape : take k (frame crc m) ≡ pb_start ∷ take (k - 1) (from_pk_len crc m [])
    shape =
        ap (take k) layout ∙ take-append_ge k (pb_start ∷ []) (from_pk_len crc m []) (omega arith)

    at_pk_len : At (content b) (length g + 1) (take (k - 1) (from_pk_len crc m []))
    at_pk_len =
        At-step (content b) (length g) (pb_start ∷ []) (length g + 1)
          (record {
            here =
                ap (drop (length g)) e
                ∙ drop-append (length g) g (take k (frame crc m)) refl
                ∙ shape;
            within = omega (arith, count, length-content (IsValid-IsSafe v));
          })
          refl

    left_lem :
        IsValid (consume b (length g)) × (content (consume b (length g)) ≡ take k (frame crc m))
    left_lem =
        let (valid, left) = consume_lem b v (length g) in
        (
          valid,
          left ∙ ap (drop (length g)) e ∙ drop-append (length g) g (take k (frame crc m)) refl,
        )

    found : find_first starts_packet (content b) ≡ some (length g)
    found =
        ap (find_first starts_packet) (e ∙ ap (◌++◌ g) shape)
        ∙ find_first-append g (take (k - 1) (from_pk_len crc m [])) garbage

    at_packet_stops :
        at_packet crc b (content b) (length g) (size m) ≡ parsed (stop (consume b (length g)))
    unfolding at_packet
    at_packet_stops =
        let legal : (slt32 (size m) header_size || ltb max_packet_size (size m)) ≡ false =
          ground (arith, p.fits) in
        let missing : ltb (sub_size (readable b) (length g)) (size m) ≡ true =
          ground (arith, count, in_range) in
        rw (legal, missing)

    at_start_stops :
        at_start crc b (content b) (some (length g)) ≡ parsed (stop (consume b (length g)))
    unfolding at_start
    at_start_stops = elim (dec_lt k 5) [
      | yes few ↦
          let little : ltb (sub_size (readable b) (length g)) 5 ≡ true =
            ground (arith, count, in_range) in
          rw little
      | no enough ↦
          let long : ltb (sub_size (readable b) (length g)) 5 ≡ false =
            ground (arith, count, in_range) in
          let next : add_size (length g) 1 ≡ length g + 1 = omega (arith, count, in_range) in
          let n : length (int32_bytes (size m)) ≡ 4 = length-int32_bytes (size m) in
          let bytes : At (content b) (length g + 1) (
              int32_bytes (size m)
              ++ take (k - 1 - length (int32_bytes (size m))) (from_msg_id crc m [])) =
            record {
              here =
                  at_pk_len.here
                  ∙ take-append_ge (k - 1) (int32_bytes (size m)) (from_msg_id crc m [])
                      (omega (arith, length-int32_bytes (size m)));
              within = at_pk_len.within;
            } in
          rw
            (
              long,
              next,
              read_int32-At (content b) (length g + 1) (size m)
                  (take (k - 1 - length (int32_bytes (size m))) (from_msg_id crc m [])) bytes
                  (omega (arith, p.fits)),
            )
            at_packet_stops
    ]

    pub partial_round : Stops crc b (take k (frame crc m))
    unfolding decode_round
    partial_round =
        let more : (readable b == 0) ≡ false = ground (arith, count) in
        let (valid, left) = left_lem in
        (consume b (length g), rw (more, readable_span_lem b v, found) at_start_stops, valid, left)
