-- ===== src/TcpBuffer/Room.antt =====
-- `ensureWritable` and `makeSpace`: when they find room, and that they keep the bytes.
use rocket_rpc.Common.{
  ℕ, ◌+◌, ◌-◌, ◌^◌, ◌≤◌, ◌<◌, ◌≡◌, refl, sym, ap, ◌∙◌, ◌⊎◌, inl, inr, Bool, true, false, ◌&&◌, ◌||◌,
  not, some, List, arith, dec_lt, le→ltb, le→leb, ltb, leb, ◌==◌, length, slice, splice, resize,
  length-slice, length-splice, length-resize, slice-splice_self, slice-resize,
}
use rocket_rpc.TcpBuffer.{
  TcpBuffer, readable, writable, prepend_size, max_buffer_size, rebase, to_front, compact, grow,
  grown_size, make_space, ensure_writable, prependable,
}
use rocket_rpc.TcpBuffer.Valid.{IsSafe, content, readable_lem, writable_lem, move-some}

-- What holds when the request for `len` bytes of room has been answered.
pub record Roomy (b : TcpBuffer) (len : ℕ) (ok : Bool) (b' : TcpBuffer) : Type 0 where
  pub valid : IsSafe b'
  pub kept : prepend_size ≤ b.read_index → prepend_size ≤ b'.read_index
  pub same : content b' ≡ content b
  pub room : ok ≡ true → b'.write_index + len ≤ length b'.mem

-- When room for `len` bytes is found: the limit on the bytes held is kept, and the bytes fit
-- behind the write index, or after a move to the front, or in a storage of at most 64 MiB.
abbrev pub accepts : TcpBuffer → ℕ → Bool
accepts b len =
    let total = b.write_index - b.read_index + len in
    leb total max_buffer_size
    && (leb (b.write_index + len) (length b.mem)
        || (leb (prepend_size + total) (length b.mem)
            || leb (prepend_size + total) max_buffer_size))

module _ (b : TcpBuffer) (v : IsSafe b) where
  to_front_lem :
      (test : Bool)
      → (test ≡ false → (b.read_index ≡ prepend_size) ⊎ (b.read_index ≡ b.write_index))
      → (m : List ℕ) × (to_front b test ≡ some m)
        × (length m ≡ length b.mem)
        × (slice prepend_size (b.write_index - b.read_index) m ≡ content b)
  unfolding to_front
  to_front_lem true h = (
    splice prepend_size (content b) b.mem,
    rw (readable_lem v) (
        move-some b.mem prepend_size b.read_index (b.write_index - b.read_index) (omega arith)
          (omega arith)),
    length-splice prepend_size (content b) b.mem (omega (arith, len)),
    slice-splice_self prepend_size (b.write_index - b.read_index) (content b) b.mem (omega arith)
        (sym len),
  )
    where
      len : length (content b) ≡ b.write_index - b.read_index
      len = length-slice b.read_index (b.write_index - b.read_index) b.mem (omega arith)
  to_front_lem false h = (
    b.mem,
    refl,
    refl,
    elim (h refl) [
      | inl e ↦ ap (λ i. slice i (b.write_index - b.read_index) b.mem) (sym e)
      | inr e ↦ let z : b.write_index - b.read_index ≡ 0 = omega arith in rw z
    ],
  )

  rebase_lem :
      (m : List ℕ)
      → slice prepend_size (b.write_index - b.read_index) m ≡ content b
      → prepend_size + (b.write_index - b.read_index) ≤ length m
      → length m < 2 ^ 63
      → IsSafe (rebase b m)
        × (content (rebase b m) ≡ content b)
        × ((rebase b m).write_index ≡ prepend_size + (b.write_index - b.read_index))
        × ((rebase b m).mem ≡ m)
  unfolding rebase
  rebase_lem m e h k = (
    omega (arith, readable_lem v),
    ap (λ n. slice prepend_size n m) (omega (arith, readable_lem v)) ∙ e,
    omega (arith, readable_lem v),
    refl,
  )

  compact_lem :
      (len : ℕ)
      → prepend_size + (b.write_index - b.read_index) + len ≤ length b.mem
      → (b' : TcpBuffer) × (compact b ≡ some (true, b')) × Roomy b len true b'
  unfolding compact rebase
  compact_lem len h =
      let (m, e, l, s) =
        to_front_lem (ltb 0 (readable b)) (λ f. inr (ground (arith, readable_lem v))) in
      let (valid, same, at, is_m) = rebase_lem m s (omega arith) (omega (arith, v.small)) in
      (
        rebase b m,
        rw e,
        record {
          valid = valid;
          kept = λ _. omega arith;
          same = same;
          room = λ _. omega (arith, ap length is_m);
        },
      )

  grown_size_bounds :
      (len : ℕ)
      → prepend_size + (b.write_index - b.read_index) + len ≤ max_buffer_size
      → (grown_size b len ≤ max_buffer_size)
        × (prepend_size + (b.write_index - b.read_index) + len ≤ grown_size b len)
  unfolding grown_size
  grown_size_bounds len h = omega (arith, readable_lem v)

  grow_lem :
      (len : ℕ)
      → prepend_size + (b.write_index - b.read_index) + len ≤ max_buffer_size
      → (b' : TcpBuffer) × (grow b len ≡ some (true, b')) × Roomy b len true b'
  unfolding grow rebase
  grow_lem len h =
      let (m, e, l, s) =
        to_front_lem (not (b.read_index == prepend_size) && ltb 0 (readable b))
          (λ f. ground (arith, readable_lem v)) in
      let (upper, lower) = grown_size_bounds len h in
      let size : ℕ = grown_size b len in
      let size_m : length (resize size 0 m) ≡ size = length-resize size 0 m in
      let (valid, same, at, is_m) =
        rebase_lem (resize size 0 m)
          (slice-resize prepend_size (b.write_index - b.read_index) size 0 m (omega arith)
              (omega (arith, v.front))
            ∙ s)
          (omega arith) (omega arith) in
      let fits : (rebase b (resize size 0 m)).write_index + len
          ≤ length (rebase b (resize size 0 m)).mem =
        omega (arith, ap length is_m) in
      (
        rebase b (resize size 0 m),
        rw (
          le→ltb _ _ upper,
          e,
          le→leb len (writable (rebase b (resize size 0 m))) (omega (arith, writable_lem valid)),
        ),
        record { valid = valid; kept = λ _. omega arith; same = same; room = λ _. fits },
      )

module _ (b : TcpBuffer) (v : IsSafe b) (len : ℕ) where
  ensure_refused :
      max_buffer_size < b.write_index - b.read_index + len → ensure_writable b len ≡ some (false, b)
  unfolding ensure_writable
  ensure_refused h = ground (arith, readable_lem v)

  ensure_enough :
      b.write_index - b.read_index + len ≤ max_buffer_size
      → b.write_index + len ≤ length b.mem
      → ensure_writable b len ≡ some (true, b)
  unfolding ensure_writable
  ensure_enough h k = ground (arith, readable_lem v, writable_lem v)

  ensure_compacts :
      b.write_index - b.read_index + len ≤ max_buffer_size
      → length b.mem < b.write_index + len
      → prepend_size + (b.write_index - b.read_index) + len ≤ length b.mem
      → ensure_writable b len ≡ compact b
  unfolding ensure_writable make_space prependable
  ensure_compacts h k m = ground (arith, readable_lem v, writable_lem v)

  ensure_stuck :
      b.write_index - b.read_index + len ≤ max_buffer_size
      → length b.mem < b.write_index + len
      → length b.mem < prepend_size + (b.write_index - b.read_index) + len
      → max_buffer_size < prepend_size + (b.write_index - b.read_index) + len
      → ensure_writable b len ≡ some (false, b)
  unfolding ensure_writable make_space prependable
  ensure_stuck h k m s = ground (arith, readable_lem v, writable_lem v)

  ensure_grows :
      length b.mem < b.write_index + len
      → length b.mem < prepend_size + (b.write_index - b.read_index) + len
      → prepend_size + (b.write_index - b.read_index) + len ≤ max_buffer_size
      → ensure_writable b len ≡ grow b len
  unfolding ensure_writable make_space prependable
  ensure_grows k m s = ground (arith, readable_lem v, writable_lem v)

  answered :
      {ok : Bool} {b' : TcpBuffer}
      → ensure_writable b len ≡ some (ok, b')
      → accepts b len ≡ ok
      → Roomy b len ok b'
      → (b' : TcpBuffer) × (ensure_writable b len ≡ some (accepts b len, b'))
        × Roomy b len (accepts b len) b'
  answered {ok} {b'} e a r = rw a (b', e, r)

  unchanged : (ok : Bool) → (ok ≡ true → b.write_index + len ≤ length b.mem) → Roomy b len ok b
  unchanged ok h = record { valid = v; kept = λ k. k; same = refl; room = h }

  -- `ensureWritable` never leaves the storage, answers exactly as `accepts` says, keeps the
  -- readable bytes and the invariant, and gives `len` bytes of room behind the write index
  -- whenever it answers true.
  pub ensure_writable_lem :
      (b' : TcpBuffer) × (ensure_writable b len ≡ some (accepts b len, b'))
      × Roomy b len (accepts b len) b'
  ensure_writable_lem = elim (dec_lt max_buffer_size (b.write_index - b.read_index + len)) [
    | yes big ↦ answered (ensure_refused big) (ground arith) (unchanged false (λ e. cc))
    | no small ↦ elim (dec_lt (length b.mem) (b.write_index + len)) [
      | no enough ↦
          answered (ensure_enough (omega arith) (omega arith)) (ground arith)
            (unchanged true (λ _. omega arith))
      | yes short ↦
          elim (dec_lt (length b.mem) (prepend_size + (b.write_index - b.read_index) + len)) [
            | no fits ↦
                let (b', e, r) = compact_lem b v len (omega arith) in
                answered (ensure_compacts (omega arith) short (omega arith) ∙ e) (ground arith) r
            | yes full ↦
                elim (dec_lt max_buffer_size
                  (prepend_size + (b.write_index - b.read_index) + len)) [
                    | yes over ↦
                        answered (ensure_stuck (omega arith) short full over) (ground arith)
                          (unchanged false (λ e. cc))
                    | no under ↦
                        let (b', e, r) = grow_lem b v len (omega arith) in
                        answered (ensure_grows short full (omega arith) ∙ e) (ground arith) r
                  ]
          ]
    ]
  ]
