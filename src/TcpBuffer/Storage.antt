-- ===== src/TcpBuffer/Storage.antt =====
-- `resizeBuffer`, `adjustBuffer` and `shrink` of tcp_buffer.cc: the bytes in another storage.
use rocket_rpc.Common.{
  ℕ, ◌+◌, ◌-◌, ◌/◌, ◌^◌, ◌≤◌, ◌<◌, ◌≡◌, refl, sym, ap, ◌∙◌, subst, ◌&&◌, Option, none, some, List,
  arith, ◌>>=◌, ltb, if◌then◌else◌, length, slice, splice, replicate, length-replicate,
  length-splice, length-slice, slice-splice_self, Bool-cases, inl, inr,
}
use rocket_rpc.Common.Words.{add_size}
use rocket_rpc.TcpBuffer.{TcpBuffer, load, store, move, readable, prependable, rebase, prepend_size}
use rocket_rpc.TcpBuffer.Valid.{
  IsValid, IsSafe, content, readable_lem, load-some, store-some, store-none, move-some,
}

-- The readable bytes at index 8 of a new storage of `size` zero bytes.
relocate : TcpBuffer → ℕ → Option TcpBuffer
relocate b size = do
  ds ← load b.mem b.read_index (readable b)
  mem ← store (replicate size 0) prepend_size ds
  some (rebase b mem)

pub resize_buffer : TcpBuffer → ℕ → Option TcpBuffer
unfolding relocate
resize_buffer b new_size = relocate b new_size

pub shrink : TcpBuffer → ℕ → Option TcpBuffer
unfolding relocate
shrink b reserve = relocate b (add_size (add_size prepend_size (readable b)) reserve)

pub adjust_buffer : TcpBuffer → Option TcpBuffer
adjust_buffer b =
    if ltb prepend_size (prependable b) && ltb (readable b / 2) (prependable b)
    then (do mem ← move b.mem prepend_size b.read_index (readable b); some (rebase b mem))
    else some b

-- The buffer after a change of its storage: the same bytes, in a storage of `size` bytes.
pub record Restored (b : TcpBuffer) (size : ℕ) (b' : TcpBuffer) : Type 0 where
  pub valid : IsValid b'
  pub same : content b' ≡ content b
  pub size_is : length b'.mem ≡ size

module _ (b : TcpBuffer) (v : IsSafe b) where
  rebase-Restored :
      (m : List ℕ)
      → slice prepend_size (b.write_index - b.read_index) m ≡ content b
      → prepend_size + (b.write_index - b.read_index) ≤ length m
      → length m < 2 ^ 63
      → Restored b (length m) (rebase b m)
  unfolding rebase
  rebase-Restored m e h k = record {
    valid = omega (arith, readable_lem v);
    same = ap (λ n. slice prepend_size n m) (omega (arith, readable_lem v)) ∙ e;
    size_is = refl;
  }

  len : length (content b) ≡ b.write_index - b.read_index
  len = length-slice b.read_index (b.write_index - b.read_index) b.mem (omega arith)

  spliced :
      (m : List ℕ)
      → prepend_size + (b.write_index - b.read_index) ≤ length m
      → length m < 2 ^ 63
      → Restored b (length m) (rebase b (splice prepend_size (content b) m))
  spliced m h k =
      let e : length (splice prepend_size (content b) m) ≡ length m =
        length-splice prepend_size (content b) m (omega (arith, len)) in
      subst (λ n. Restored b n (rebase b (splice prepend_size (content b) m))) e
        (rebase-Restored (splice prepend_size (content b) m)
          (slice-splice_self prepend_size (b.write_index - b.read_index) (content b) m (omega arith)
            (sym len))
          (omega arith) (omega arith))

  relocate_lem :
      (size : ℕ)
      → prepend_size + (b.write_index - b.read_index) ≤ size
      → size < 2 ^ 63
      → (b' : TcpBuffer) × (relocate b size ≡ some b') × Restored b size b'
  unfolding relocate
  relocate_lem size h k =
      let n : length (replicate {A = ℕ} size 0) ≡ size = length-replicate size 0 in
      (
        rebase b (splice prepend_size (content b) (replicate size 0)),
        rw (
          readable_lem v,
          load-some b.mem b.read_index (b.write_index - b.read_index) (omega arith),
          store-some (replicate size 0) prepend_size (content b) (omega (arith, len)),
        ),
        subst (λ z. Restored b z (rebase b (splice prepend_size (content b) (replicate size 0)))) n
            (spliced (replicate size 0) (omega arith) (omega arith)),
      )

  -- `resizeBuffer` keeps the bytes in a storage of the new size, if they fit behind index 8.
  pub resize_buffer_lem :
      (size : ℕ)
      → size < 2 ^ 63
      → prepend_size + readable b ≤ size
      → (b' : TcpBuffer) × (resize_buffer b size ≡ some b') × Restored b size b'
  unfolding resize_buffer
  resize_buffer_lem size k h = relocate_lem size (omega (arith, readable_lem v)) k

  -- `resizeBuffer` to a size in which the readable bytes do not fit behind index 8 writes past the
  -- end of the new storage.
  pub resize_buffer_faults :
      (size : ℕ) → size < prepend_size + readable b → resize_buffer b size ≡ none
  unfolding resize_buffer relocate
  resize_buffer_faults size h = rw (
    readable_lem v,
    load-some b.mem b.read_index (b.write_index - b.read_index) (omega arith),
    store-none (replicate size 0) prepend_size (content b)
        (omega (arith, len, length-replicate {A = ℕ} size 0, readable_lem v)),
  )

  -- `shrink` never leaves the storage: it keeps the bytes in a storage that has room for them, the
  -- eight bytes in front and the reserve.
  pub shrink_lem :
      (reserve : ℕ)
      → reserve < 2 ^ 62
      → length b.mem < 2 ^ 62
      → (b' : TcpBuffer) × (shrink b reserve ≡ some b')
        × Restored b (prepend_size + readable b + reserve) b'
  unfolding shrink
  shrink_lem reserve h k =
      let e : add_size (add_size prepend_size (readable b)) reserve
          ≡ prepend_size + readable b + reserve =
        omega (arith, readable_lem v) in
      rw e (
        relocate_lem (prepend_size + readable b + reserve) (omega (arith, readable_lem v))
          (omega (arith, readable_lem v)))

  -- `adjustBuffer` never leaves the storage, and changes neither the bytes nor its size.
  pub adjust_buffer_lem :
      (b' : TcpBuffer) × (adjust_buffer b ≡ some b')
      × IsSafe b'
      × (content b' ≡ content b)
      × (length b'.mem ≡ length b.mem)
  unfolding adjust_buffer
  adjust_buffer_lem =
      elim (Bool-cases (ltb prepend_size (prependable b) && ltb (readable b / 2) (prependable b))) [
        | inl wide ↦ rw wide (
            let r : Restored b (length b.mem) (rebase b (splice prepend_size (content b) b.mem)) =
              spliced b.mem (omega arith) v.small in
            (
              rebase b (splice prepend_size (content b) b.mem),
              rw (
                readable_lem v,
                move-some b.mem prepend_size b.read_index (b.write_index - b.read_index)
                    (omega arith) (omega arith),
              ),
              omega (arith, r.valid),
              r.same,
              r.size_is,
            ))
        | inr narrow ↦ rw narrow (b, refl, v, refl, refl)
      ]
