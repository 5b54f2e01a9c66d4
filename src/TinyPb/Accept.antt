-- ===== src/TinyPb/Accept.antt =====
-- The parse of a packet that `encode` has written.
use rocket_rpc.Common.{
  ℕ, ◌+◌, ◌-◌, ◌^◌, ◌≤◌, ◌<◌, ◌≡◌, refl, ◌∙◌, true, not, ◌||◌, List, [], ◌∷◌, ◌++◌, arith,
  append_assoc, ltb, ◌==◌, length, length-append,
}
use rocket_rpc.Common.Words.{add_size, sub_size}
use rocket_rpc.Protocol.{TinyPb, pb_start, pb_end}
use rocket_rpc.TinyPb.{int32_bytes, to_int32, packet_size, max_packet_size}
use rocket_rpc.TinyPb.Encode.{
  size, body, frame, written, length-int32_bytes, length-body, length-frame, packet_size_lem,
}
use rocket_rpc.TinyPb.Parse.{parsed, read_err_code, read_payload, read_checksum, parse_packet}
use rocket_rpc.TinyPb.Layout.{
  At, At-length, At-step, load-At, read_int32-At, read_string-At, check_remaining-true,
  from_checksum, from_payload, from_err_info, from_err_code, from_method_name, from_msg_id,
  from_pk_len, frame-layout,
}

-- A message whose packet the decoder takes: at most 1 MiB, and its error code is an `int32_t`.
pub record IsPacket (m : TinyPb) : Type 0 where
  pub fits : size m ≤ max_packet_size
  pub code : m.err_code < 2 ^ 32

module _ (crc : List ℕ → ℕ) (crc_bound : (ds : List ℕ) → crc ds < 2 ^ 32) (m : TinyPb)
    (p : IsPacket m) (bytes : List ℕ) (limit : length bytes < 2 ^ 63) (start : ℕ) (rest : List ℕ)
    (a : At bytes start (frame crc m ++ rest)) where
  abbrev msg_id_at : ℕ
  msg_id_at = start + 5

  abbrev method_name_at : ℕ
  method_name_at = msg_id_at + 4 + length m.msg_id

  abbrev err_code_at : ℕ
  err_code_at = method_name_at + 4 + length m.method_name

  abbrev err_info_at : ℕ
  err_info_at = err_code_at + 4

  abbrev payload_at : ℕ
  payload_at = err_info_at + 4 + length m.err_info

  abbrev checksum_at : ℕ
  checksum_at = payload_at + length m.pb_data

  abbrev end_at : ℕ
  end_at = checksum_at + 4

  pub in_bytes : start + size m ≤ length bytes
  in_bytes = omega (
    arith,
    At-length bytes start a,
    length-append (frame crc m) rest,
    length-frame crc m,
    length-body m,
  )

  at_start : At bytes start ((pb_start ∷ []) ++ from_pk_len crc m rest)
  at_start = record {
    here = a.here ∙ frame-layout crc m rest (omega (arith, p.fits));
    within = a.within;
  }

  pub at_pk_len : At bytes (start + 1) (from_pk_len crc m rest)
  at_pk_len = At-step bytes start (pb_start ∷ []) (start + 1) at_start refl

  at_msg_id : At bytes msg_id_at (from_msg_id crc m rest)
  at_msg_id =
      At-step bytes (start + 1) (int32_bytes (size m)) (start + 5) at_pk_len
        (omega (arith, length-int32_bytes (size m)))

  string_step :
      (i : ℕ) (ds post : List ℕ)
      → At bytes i (int32_bytes (length ds) ++ (ds ++ post))
      → At bytes (i + 4 + length ds) post
  string_step i ds post b =
      At-step bytes (i + 4) ds (i + 4 + length ds)
        (At-step bytes i (int32_bytes (length ds)) (i + 4) b
          (omega (arith, length-int32_bytes (length ds))))
        refl

  at_method_name : At bytes method_name_at (from_method_name crc m rest)
  at_method_name = string_step msg_id_at m.msg_id (from_method_name crc m rest) at_msg_id

  at_err_code : At bytes err_code_at (from_err_code crc m rest)
  at_err_code = string_step method_name_at m.method_name (from_err_code crc m rest) at_method_name

  at_err_info : At bytes err_info_at (from_err_info crc m rest)
  at_err_info =
      At-step bytes err_code_at (int32_bytes m.err_code) (err_code_at + 4) at_err_code
        (omega (arith, length-int32_bytes m.err_code))

  at_payload : At bytes payload_at (from_payload crc m rest)
  at_payload = string_step err_info_at m.err_info (from_payload crc m rest) at_err_info

  at_checksum : At bytes checksum_at (from_checksum crc m rest)
  at_checksum = At-step bytes payload_at m.pb_data checksum_at at_payload refl

  end_at_lem : start + size m - 1 ≡ end_at
  end_at_lem = omega arith

  end_limit : end_at < 2 ^ 63
  end_limit = omega (arith, in_bytes)

  read_payload_lem : read_payload bytes end_at payload_at ≡ parsed (m.pb_data, checksum_at)
  unfolding read_payload
  read_payload_lem =
      let room : not (ltb end_at payload_at || ltb (sub_size end_at payload_at) 4) ≡ true =
        ground (arith, end_limit) in
      let index : sub_size end_at 4 ≡ checksum_at = omega (arith, end_limit) in
      let order : not (ltb checksum_at payload_at) ≡ true = ground arith in
      let count : sub_size checksum_at payload_at ≡ length m.pb_data = omega (arith, end_limit) in
      rw (
        room,
        index,
        order,
        count,
        load-At bytes payload_at m.pb_data (from_checksum crc m rest) (length m.pb_data) at_payload
            refl,
      )

  read_checksum_lem : read_checksum crc bytes start end_at checksum_at ≡ parsed (crc (body m))
  unfolding read_checksum frame
  read_checksum_lem =
      let count : sub_size checksum_at start ≡ length (body m) =
        omega (arith, end_limit, length-body m) in
      let whole : At bytes start (body m ++ (int32_bytes (crc (body m)) ++ pb_end ∷ [] ++ rest)) =
        record {
          here = a.here ∙ append_assoc (body m) (int32_bytes (crc (body m)) ++ pb_end ∷ []) rest;
          within = a.within;
        } in
      let same : (crc (body m) == crc (body m)) ≡ true = ground arith in
      rw (
        check_remaining-true bytes checksum_at end_at 4 (omega arith) end_limit,
        read_int32-At bytes checksum_at (crc (body m)) ((pb_end ∷ []) ++ rest) at_checksum
            (crc_bound (body m)),
        count,
        load-At bytes start (body m) (int32_bytes (crc (body m)) ++ pb_end ∷ [] ++ rest)
            (length (body m)) whole refl,
        same,
      )

  read_err_code_lem : read_err_code bytes end_at err_code_at ≡ parsed (m.err_code, err_info_at)
  unfolding read_err_code
  read_err_code_lem =
      let next : add_size err_code_at 4 ≡ err_info_at = omega (arith, end_limit) in
      rw (
        check_remaining-true bytes err_code_at end_at 4 (omega arith) end_limit,
        read_int32-At bytes err_code_at m.err_code (from_err_info crc m rest) at_err_code p.code,
        next,
      )

  written_lem :
      parsed (record {
        msg_id = m.msg_id;
        pk_len = size m;
        msg_id_len = length m.msg_id;
        method_name_len = length m.method_name;
        method_name = m.method_name;
        err_code = m.err_code;
        err_info_len = length m.err_info;
        err_info = m.err_info;
        pb_data = m.pb_data;
        check_sum = crc (body m);
        parse_success = true;
      })
      ≡ parsed (written crc m)
  unfolding written
  written_lem =
      let n : to_int32 (packet_size m) ≡ size m = omega (arith, packet_size_lem m, p.fits) in
      let e₁ : to_int32 (length m.msg_id) ≡ length m.msg_id = omega (arith, p.fits) in
      let e₂ : to_int32 (length m.method_name) ≡ length m.method_name = omega (arith, p.fits) in
      let e₃ : to_int32 (length m.err_info) ≡ length m.err_info = omega (arith, p.fits) in
      rw (n, e₁, e₂, e₃)

  pub parse_packet_lem :
      parse_packet crc bytes start (start + size m - 1) (size m) ≡ parsed (written crc m)
  unfolding parse_packet
  parse_packet_lem =
      let first : add_size start 5 ≡ msg_id_at = omega (arith, end_limit) in
      rw
        (
          end_at_lem,
          first,
          read_string-At bytes end_at msg_id_at m.msg_id (from_method_name crc m rest)
              method_name_at at_msg_id (omega (arith, p.fits)) refl (omega arith) end_limit,
          read_string-At bytes end_at method_name_at m.method_name (from_err_code crc m rest)
              err_code_at at_method_name (omega (arith, p.fits)) refl (omega arith) end_limit,
          read_err_code_lem,
          read_string-At bytes end_at err_info_at m.err_info (from_payload crc m rest) payload_at
              at_err_info (omega (arith, p.fits)) refl (omega arith) end_limit,
          read_payload_lem,
          read_checksum_lem,
        )
        written_lem

  pub at_end : At bytes (start + size m - 1) ((pb_end ∷ []) ++ rest)
  at_end =
      At-step bytes checksum_at (int32_bytes (crc (body m))) (start + size m - 1) at_checksum
        (omega (arith, length-int32_bytes (crc (body m))))
