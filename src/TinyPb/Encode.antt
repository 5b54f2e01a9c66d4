-- ===== src/TinyPb/Encode.antt =====
-- What `encode` writes: the frame of tinypb_protocol.h, behind what the buffer holds.
use mathlib.Core.List.{flatten}
use rocket_rpc.Common.{
  ℕ, ◌+◌, ◌-◌, ◌^◌, ◌≤◌, ◌<◌, ◌≡◌, Bool, leb, lt→ltb, lt→leb, le→ltb, le→leb, Option, ◌&&◌, dec_lt,
  refl, sym, ap, ◌∙◌, true, false, some, List, [], ◌∷◌, ◌++◌, arith, append-nil, append_assoc,
  if◌then◌else◌, length, take, drop, splice, length-append, length-splice, splice-splice,
  slice-splice_self, take-append-drop,
}
use rocket_rpc.Common.Words.{length-le_bytes, bswap}
use rocket_rpc.TcpBuffer.{TcpBuffer, load, move_write_index}
use rocket_rpc.TcpBuffer.Valid.{IsValid, IsValid-IsSafe, content, load-some, store-some}
use rocket_rpc.TcpBuffer.Room.{Roomy, accepts, ensure_writable_lem}
use rocket_rpc.TcpBuffer.Fifo.{move_write_index_lem}
use rocket_rpc.Protocol.{TinyPb, pb_end, header_size}
use rocket_rpc.TinyPb.{
  Cursor, max_packet_size, to_int32, int32_bytes, append_to, append_all, body_parts, with_id,
  packet_size, write_packet, filled_in, write_message, encode_with_id, encode_message,
}

pub length-int32_bytes : (x : ℕ) → length (int32_bytes x) ≡ 4
unfolding int32_bytes
length-int32_bytes x = length-le_bytes 4 (bswap 4 x)

-- The pointer after `ds` has been copied to index `s` of `mem`.
abbrev cursor_at : ℕ → List ℕ → List ℕ → Cursor
cursor_at s ds mem = record { mem = splice s ds mem; pos = s + length ds }

append_to_lem :
    (s : ℕ) (ds es mem : List ℕ)
    → s + length ds + length es ≤ length mem
    → append_to es (cursor_at s ds mem) ≡ some (cursor_at s (ds ++ es) mem)
unfolding append_to
append_to_lem s ds [] mem h = rw (append-nil ds)
append_to_lem s ds (e ∷ es) mem h =
    rw
      (
        store-some (splice s ds mem) (s + length ds) (e ∷ es)
            (omega (arith, length-splice s ds mem (omega arith))),
        splice-splice s (s + length ds) ds (e ∷ es) mem refl h,
      )
      (ap (λ n. some (record { mem = splice s (ds ++ e ∷ es) mem; pos = n }))
        (omega (arith, length-append ds (e ∷ es))))

append_all_lem :
    (s : ℕ) (ds : List ℕ) (dss : List (List ℕ)) (mem : List ℕ)
    → s + length ds + length (flatten dss) ≤ length mem
    → append_all dss (cursor_at s ds mem) ≡ some (cursor_at s (ds ++ flatten dss) mem)
unfolding append_all flatten
append_all_lem s ds [] mem h = rw (append-nil ds)
append_all_lem s ds (es ∷ dss) mem h =
    let n : length (es ++ flatten dss) ≡ length es + length (flatten dss) =
      length-append es (flatten dss) in
    rw (
      append_to_lem s ds es mem (omega arith),
      append_all_lem s (ds ++ es) dss mem (omega (arith, length-append ds es)),
      append_assoc ds es (flatten dss),
    )

-- The frame of a message up to the checksum, and whole.
unfoldable pub body : TinyPb → List ℕ
body m = flatten (body_parts m (to_int32 (packet_size m)))

splice_nil : (s : ℕ) (mem : List ℕ) → splice s [] mem ≡ mem
splice_nil s mem = ap (λ n. take s mem ++ drop n mem) (omega arith) ∙ take-append-drop s mem

copy_lem :
    (s : ℕ) (dss : List (List ℕ)) (mem : List ℕ)
    → s + length (flatten dss) ≤ length mem
    → append_all dss (record { mem = mem; pos = s }) ≡ some (cursor_at s (flatten dss) mem)
copy_lem s dss mem h = ap (append_all dss) start ∙ append_all_lem s [] dss mem (omega arith)
  where
    at_s : s ≡ s + 0
    at_s = omega arith

    start : ◌≡◌ {A = Cursor} (record { mem = mem; pos = s }) (cursor_at s [] mem)
    start = λ i. record { mem = sym (splice_nil s mem) i; pos = at_s i }

load-splice :
    (s : ℕ) (ds mem : List ℕ)
    → s + length ds ≤ length mem
    → load (splice s ds mem) s (length ds) ≡ some ds
load-splice s ds mem h =
    rw (load-some (splice s ds mem) s (length ds) (omega (arith, length-splice s ds mem h)))
      (ap some (slice-splice_self s (length ds) ds mem (omega arith) refl))

tail_length : (x : ℕ) → length (flatten (int32_bytes x ∷ (pb_end ∷ []) ∷ [])) ≡ 5
unfolding flatten
tail_length x = omega (arith, length-append (int32_bytes x) (pb_end ∷ []), length-int32_bytes x)

module _ (crc : List ℕ → ℕ) where
  unfoldable pub frame : TinyPb → List ℕ
  frame m = body m ++ (int32_bytes (crc (body m)) ++ pb_end ∷ [])

  pub length-frame : (m : TinyPb) → length (frame m) ≡ length (body m) + 5
  unfolding frame
  length-frame m = omega (
    arith,
    length-append (body m) (int32_bytes (crc (body m)) ++ pb_end ∷ []),
    length-append (int32_bytes (crc (body m))) (pb_end ∷ []),
    length-int32_bytes (crc (body m)),
  )

  write_packet_lem :
      (m : TinyPb) (b : TcpBuffer)
      → IsValid b
      → b.write_index + length (frame m) ≤ length b.mem
      → (b' : TcpBuffer) × (write_packet crc m (to_int32 (packet_size m)) b
          ≡ some (crc (body m), b'))
        × IsValid b'
        × (content b' ≡ content b ++ frame m)
  unfolding write_packet body frame flatten
  write_packet_lem m b v h =
      let fits : b.write_index + (length (body m) + 5) ≤ length b.mem =
        omega (arith, length-frame m) in
      let n : b.write_index + length (body m) - b.write_index ≡ length (body m) = omega arith in
      let end : List (List ℕ) = int32_bytes (crc (body m)) ∷ (pb_end ∷ []) ∷ [] in
      let k : length (flatten end) ≡ 5 = tail_length (crc (body m)) in
      let k' : b.write_index + length (frame m) - b.write_index ≡ length (frame m) = omega arith in
      let (valid, longer) =
        move_write_index_lem b (frame m) (b.write_index + length (frame m) - b.write_index) v h
          k' in
      (
        move_write_index (record b { mem = splice b.write_index (frame m) b.mem })
            (b.write_index + length (frame m) - b.write_index),
        rw (
          copy_lem b.write_index (body_parts m (to_int32 (packet_size m))) b.mem (omega arith),
          n,
          load-splice b.write_index (body m) b.mem (omega arith),
          append_all_lem b.write_index (body m) end b.mem (omega arith),
        ),
        valid,
        longer,
      )

-- The true length of the packet, for a message that has its id.
abbrev pub size : TinyPb → ℕ
size m = header_size + length m.msg_id + length m.method_name + length m.err_info + length m.pb_data

abbrev total_length : List (List ℕ) → ℕ
total_length [] = 0
total_length (ds ∷ dss) = length ds + total_length dss

length-flatten : (dss : List (List ℕ)) → length (flatten dss) ≡ total_length dss
unfolding flatten
length-flatten [] = refl
length-flatten (ds ∷ dss) = omega (arith, length-append ds (flatten dss), length-flatten dss)

pub length-body : (m : TinyPb) → length (body m) + 5 ≡ size m
unfolding body body_parts
length-body m = omega (
  arith,
  length-flatten (body_parts m (to_int32 (packet_size m))),
  length-int32_bytes (to_int32 (packet_size m)),
  length-int32_bytes (to_int32 (length m.msg_id)),
  length-int32_bytes (to_int32 (length m.method_name)),
  length-int32_bytes m.err_code,
  length-int32_bytes (to_int32 (length m.err_info)),
)

pub packet_size_lem : (m : TinyPb) → size m < 2 ^ 64 → packet_size m ≡ size m
unfolding packet_size
packet_size_lem m h = omega arith

module _ (crc : List ℕ → ℕ) where
  -- A message with an id as `encode` leaves it.
  unfoldable pub written : TinyPb → TinyPb
  unfolding filled_in
  written m = filled_in m (to_int32 (packet_size m)) (crc (body m))

  -- Whether `encode` takes a message that has an id.
  abbrev pub takes : TcpBuffer → TinyPb → Bool
  takes b m = leb (size m) max_packet_size && accepts b (size m)

  -- What a round with the answer `ok` does.
  abbrev pub Encodes : TcpBuffer → TinyPb → Bool → Option (Bool × TinyPb × TcpBuffer) → Type 0
  Encodes b m ok r =
      (b' : TcpBuffer) × (r ≡ some (ok, (if ok then written m else m), b'))
      × IsValid b'
      × (content b' ≡ content b ++ (if ok then frame crc m else []))

  write_message_lem :
      (m : TinyPb) (b : TcpBuffer) (ok : Bool) (b₁ : TcpBuffer)
      → IsValid b
      → Roomy b (size m) ok b₁
      → Encodes b m ok (write_message crc m (ok, b₁))
  unfolding write_message written
  write_message_lem m b false b₁ v r =
      (b₁, refl, omega (arith, r.valid, r.kept v.behind), r.same ∙ sym (append-nil (content b)))
  write_message_lem m b true b₁ v r =
      let valid : IsValid b₁ = omega (arith, r.valid, r.kept v.behind) in
      let (b', e, valid', longer) =
        write_packet_lem crc m b₁ valid
          (omega (arith, r.room refl, length-frame crc m, length-body m)) in
      (b', rw e, valid', longer ∙ ap (λ c. c ++ frame crc m) r.same)

  encode_with_id_lem :
      (m : TinyPb) (b : TcpBuffer)
      → IsValid b
      → size m < 2 ^ 64
      → Encodes b m (takes b m) (encode_with_id crc m b)
  unfolding encode_with_id
  encode_with_id_lem m b v h = elim (dec_lt max_packet_size (size m)) [
    | yes big ↦
        rw
          (
            packet_size_lem m h,
            lt→ltb max_packet_size (size m) big,
            lt→leb (size m) max_packet_size big,
          )
          (b, refl, v, sym (append-nil (content b)))
    | no fits ↦
        let (b₁, ask, roomy) = ensure_writable_lem b (IsValid-IsSafe v) (size m) in
        rw
          (
            packet_size_lem m h,
            le→ltb max_packet_size (size m) (omega arith),
            le→ltb (2 ^ 31 - 1) (size m) (omega arith),
            le→leb (size m) max_packet_size (omega arith),
            ask,
          )
          (write_message_lem m b (accepts b (size m)) b₁ v roomy)
  ]

  -- One round of `encode`, for a message whose length is below the limit of `size_t`: it never
  -- leaves the storage, it takes the message exactly if the packet has at most 1 MiB and the buffer
  -- accepts it, it then appends the frame of the message and nothing else, and otherwise it
  -- leaves the bytes of the buffer alone.
  pub encode_message_lem :
      (m : TinyPb) (b : TcpBuffer)
      → IsValid b
      → size (with_id m) < 2 ^ 64
      → Encodes b (with_id m) (takes b (with_id m)) (encode_message crc m b)
  unfolding encode_message
  encode_message_lem m b v h = encode_with_id_lem (with_id m) b v h
