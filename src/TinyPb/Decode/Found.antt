-- ===== src/TinyPb/Decode/Found.antt =====
-- A round of `decode` that finds a whole packet, behind bytes that start none.
use rocket_rpc.Common.{
  ℕ, ◌+◌, ◌-◌, ◌^◌, ◌≤◌, ◌<◌, ◌≡◌, refl, sym, ap, ◌∙◌, false, ◌||◌, some, List, [], ◌∷◌, ◌++◌,
  arith, ltb, ◌==◌, length, drop, append_assoc, length-append, drop-append,
}
use rocket_rpc.Common.Words.{All, add_size, sub_size, slt32}
use rocket_rpc.Common.Search.{find_first}
use rocket_rpc.TcpBuffer.{TcpBuffer, readable, consume}
use rocket_rpc.TcpBuffer.Valid.{IsValid, IsValid-IsSafe, content, readable_lem, length-content}
use rocket_rpc.TcpBuffer.Fifo.{readable_span_lem, consume_lem}
use rocket_rpc.Protocol.{TinyPb, pb_start, pb_end, header_size}
use rocket_rpc.TinyPb.{max_packet_size}
use rocket_rpc.TinyPb.Encode.{size, frame, written, length-frame, length-body}
use rocket_rpc.TinyPb.Parse.{parsed}
use rocket_rpc.TinyPb.Layout.{At, load-At, read_int32-At, frame-layout, from_pk_len, from_msg_id}
use rocket_rpc.TinyPb.Accept.{IsPacket, parse_packet_lem, at_pk_len, at_end, in_bytes}
use rocket_rpc.TinyPb.Decode.{accept, starts_packet, conclude, at_packet, at_start, decode_round}

-- A byte that is no start byte.
abbrev pub IsGarbage : ℕ → Type 0
IsGarbage x = (x == pb_start) ≡ false

pub find_first-append :
    (g r : List ℕ)
    → All IsGarbage g
    → find_first starts_packet (g ++ pb_start ∷ r) ≡ some (length g)
unfolding find_first
find_first-append [] r h = refl
find_first-append (x ∷ g) r h = rw (h.0, find_first-append g r h.1)

module _ (crc : List ℕ → ℕ) (crc_bound : (ds : List ℕ) → crc ds < 2 ^ 32) (m : TinyPb)
    (p : IsPacket m) (g rest : List ℕ) (garbage : All IsGarbage g) where
  at_frame :
      (bytes : List ℕ)
      → bytes ≡ g ++ (frame crc m ++ rest)
      → At bytes (length g) (frame crc m ++ rest)
  at_frame bytes e = record {
    here = ap (drop (length g)) e ∙ drop-append (length g) g (frame crc m ++ rest) refl;
    within = omega (arith, ap length e, length-append g (frame crc m ++ rest));
  }

  found :
      (bytes : List ℕ)
      → bytes ≡ g ++ (frame crc m ++ rest)
      → find_first starts_packet bytes ≡ some (length g)
  found bytes e =
      ap (find_first starts_packet)
        (e ∙ ap (◌++◌ g) (frame-layout crc m rest (omega (arith, p.fits))))
      ∙ find_first-append g (from_pk_len crc m rest) garbage

  module _ (b : TcpBuffer) (v : IsValid b) (e : content b ≡ g ++ (frame crc m ++ rest)) where
    a : At (content b) (length g) (frame crc m ++ rest)
    a = at_frame (content b) e

    limit : length (content b) < 2 ^ 63
    limit = omega (arith, v, length-content (IsValid-IsSafe v), readable_lem (IsValid-IsSafe v))

    whole : length g + size m ≤ readable b
    whole = omega (
      arith,
      in_bytes crc crc_bound m p (content b) limit (length g) rest a,
      length-content (IsValid-IsSafe v),
    )

    in_range : readable b < 2 ^ 63
    in_range = omega (arith, limit, length-content (IsValid-IsSafe v))

    at_packet_lem :
        at_packet crc b (content b) (length g) (size m)
        ≡ parsed (accept (written crc m) (consume b (length g + size m)))
    unfolding at_packet conclude
    at_packet_lem =
        let legal : (slt32 (size m) header_size || ltb max_packet_size (size m)) ≡ false =
          ground (arith, p.fits) in
        let there : ltb (sub_size (readable b) (length g)) (size m) ≡ false =
          ground (arith, whole, in_range) in
        let last : sub_size (add_size (length g) (size m)) 1 ≡ length g + size m - 1 =
          omega (arith, whole, in_range) in
        let next : add_size (length g + size m - 1) 1 ≡ length g + size m =
          omega (arith, whole, in_range) in
        rw (
          legal,
          there,
          last,
          load-At (content b) (length g + size m - 1) (pb_end ∷ []) rest 1
              (at_end crc crc_bound m p (content b) limit (length g) rest a) refl,
          parse_packet_lem crc crc_bound m p (content b) limit (length g) rest a,
          next,
        )

    pub decode_round_lem :
        decode_round crc b ≡ parsed (accept (written crc m) (consume b (length g + size m)))
    unfolding decode_round at_start
    decode_round_lem =
        let some_left : (readable b == 0) ≡ false = ground (arith, whole) in
        let long : ltb (sub_size (readable b) (length g)) 5 ≡ false =
          ground (arith, whole, in_range) in
        let next : add_size (length g) 1 ≡ length g + 1 = omega (arith, whole, in_range) in
        rw
          (
            some_left,
            readable_span_lem b v,
            found (content b) e,
            long,
            next,
            read_int32-At (content b) (length g + 1) (size m) (from_msg_id crc m rest)
                (at_pk_len crc crc_bound m p (content b) limit (length g) rest a)
                (omega (arith, p.fits)),
          )
          at_packet_lem

    -- The packet is consumed with the garbage, and what follows it is left.
    pub left_lem :
        IsValid (consume b (length g + size m)) × (content (consume b (length g + size m)) ≡ rest)
    left_lem =
        let (valid, left) = consume_lem b v (length g + size m) in
        (
          valid,
          left
              ∙ ap (drop (length g + size m)) (e ∙ sym (append_assoc g (frame crc m) rest))
              ∙ drop-append (length g + size m) (g ++ frame crc m) rest
                  (omega (arith, length-append g (frame crc m), length-frame crc m, length-body m)),
        )
