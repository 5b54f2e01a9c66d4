-- ===== src/TinyPb/Layout.antt =====
-- The readable bytes from an index on, and the reads of tinypb_coder.cc there.
use mathlib.Core.List.{flatten}
use rocket_rpc.Common.{
  ℕ, ◌+◌, ◌^◌, ◌≤◌, ◌<◌, ◌≡◌, refl, sym, ap, ◌∙◌, true, false, some, List, [], ◌∷◌, ◌++◌, arith,
  append-nil, append_assoc, length, take, drop, length-append, length-drop, drop-drop, drop-append,
  take-append,
}
use rocket_rpc.Common.Words.{le_bytes, bswap, bswap-round_trip, add_size, slt32}
use rocket_rpc.TcpBuffer.{load}
use rocket_rpc.TcpBuffer.Valid.{load-some}
use rocket_rpc.Protocol.{TinyPb, pb_start, pb_end}
use rocket_rpc.TinyPb.{int32_bytes, body_parts, to_int32, packet_size}
use rocket_rpc.TinyPb.Encode.{size, body, frame, length-int32_bytes, packet_size_lem}
use rocket_rpc.TinyPb.Parse.{parsed, read_int32, check_remaining, read_length, read_string}

-- From index `i` on the bytes are `tail`.
pub record At (bytes : List ℕ) (i : ℕ) (tail : List ℕ) : Type 0 where
  pub here : drop i bytes ≡ tail
  pub within : i ≤ length bytes

module _ (bytes : List ℕ) where
  pub At-length : (i : ℕ) {tail : List ℕ} → At bytes i tail → i + length tail ≡ length bytes
  At-length i a = omega (arith, a.within, ap length a.here, length-drop i bytes)

  pub At-step :
      (i : ℕ) (ds : List ℕ) {post : List ℕ} (k : ℕ)
      → At bytes i (ds ++ post)
      → k ≡ i + length ds
      → At bytes k post
  At-step i ds {post} k a e = record {
    here =
        sym (drop-drop i (length ds) k bytes e)
        ∙ ap (drop (length ds)) a.here
        ∙ drop-append (length ds) ds post refl;
    within = omega (arith, At-length i a, length-append ds post);
  }

  pub load-At :
      (i : ℕ) (ds post : List ℕ) (n : ℕ)
      → At bytes i (ds ++ post)
      → n ≡ length ds
      → load bytes i n ≡ some ds
  load-At i ds post n a e =
      rw (load-some bytes i n (omega (arith, At-length i a, length-append ds post)))
        (ap some (ap (take n) a.here ∙ take-append n ds post e))

  pub read_int32-At :
      (i x : ℕ) (post : List ℕ)
      → At bytes i (int32_bytes x ++ post)
      → x < 2 ^ 32
      → read_int32 bytes i ≡ parsed x
  unfolding read_int32 int32_bytes
  read_int32-At i x post a h =
      rw (load-At i (le_bytes 4 (bswap 4 x)) post 4 a (sym (length-int32_bytes x)))
        (ap parsed (bswap-round_trip 4 x h))

  pub check_remaining-true :
      (i end need : ℕ) → i + need ≤ end → end < 2 ^ 63 → check_remaining i end need ≡ true
  unfolding check_remaining
  check_remaining-true i end need h k = ground arith

  -- A string that is stored behind its length is read, if it ends before the end byte.
  pub read_string-At :
      (end i : ℕ) (ds post : List ℕ) (j : ℕ)
      → At bytes i (int32_bytes (length ds) ++ (ds ++ post))
      → length ds < 2 ^ 31
      → j ≡ i + 4 + length ds
      → j ≤ end
      → end < 2 ^ 63
      → read_string bytes end i ≡ parsed (length ds, ds, j)
  unfolding read_string read_length
  read_string-At end i ds post j a small at_j before limit =
      let behind : At bytes (i + 4) (ds ++ post) =
        At-step i (int32_bytes (length ds)) (i + 4) a
          (omega (arith, length-int32_bytes (length ds))) in
      let e₁ : add_size i 4 ≡ i + 4 = omega arith in
      let e₂ : add_size (i + 4) (length ds) ≡ j = omega arith in
      let sign : slt32 (length ds) 0 ≡ false = ground arith in
      rw (
        check_remaining-true i end 4 (omega arith) limit,
        read_int32-At i (length ds) (ds ++ post) a (omega arith),
        sign,
        e₁,
        check_remaining-true (i + 4) end (length ds) (omega arith) limit,
        load-At (i + 4) ds post (length ds) behind refl,
        e₂,
      )

-- A frame and what follows it, bracketed to the right, from its end to its start.
module _ (crc : List ℕ → ℕ) (m : TinyPb) (rest : List ℕ) where
  abbrev pub from_checksum : List ℕ
  from_checksum = int32_bytes (crc (body m)) ++ ((pb_end ∷ []) ++ rest)

  abbrev pub from_payload : List ℕ
  from_payload = m.pb_data ++ from_checksum

  abbrev pub from_err_info : List ℕ
  from_err_info = int32_bytes (length m.err_info) ++ (m.err_info ++ from_payload)

  abbrev pub from_err_code : List ℕ
  from_err_code = int32_bytes m.err_code ++ from_err_info

  abbrev pub from_method_name : List ℕ
  from_method_name = int32_bytes (length m.method_name) ++ (m.method_name ++ from_err_code)

  abbrev pub from_msg_id : List ℕ
  from_msg_id = int32_bytes (length m.msg_id) ++ (m.msg_id ++ from_method_name)

  abbrev pub from_pk_len : List ℕ
  from_pk_len = int32_bytes (size m) ++ from_msg_id

  pub frame-layout : size m < 2 ^ 31 → frame crc m ++ rest ≡ (pb_start ∷ []) ++ from_pk_len
  unfolding frame body body_parts flatten
  frame-layout h =
      let n : to_int32 (packet_size m) ≡ size m = omega (arith, packet_size_lem m) in
      let e₁ : to_int32 (length m.msg_id) ≡ length m.msg_id = omega arith in
      let e₂ : to_int32 (length m.method_name) ≡ length m.method_name = omega arith in
      let e₃ : to_int32 (length m.err_info) ≡ length m.err_info = omega arith in
      simp (n, e₁, e₂, e₃, append_assoc, append-nil)
