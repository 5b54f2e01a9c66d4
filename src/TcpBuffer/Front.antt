-- ===== src/TcpBuffer/Front.antt =====
-- `prepend`: bytes before the readable ones, in the eight bytes that are kept free there.
use rocket_rpc.Common.{
  ℕ, ◌+◌, ◌-◌, ◌^◌, ◌≤◌, ◌<◌, ◌≡◌, refl, sym, ap, ◌∙◌, some, none, List, [], ◌++◌, arith, ltb,
  if◌then◌else◌, length, take, drop, slice, splice, drop-append, slice_add, Bool-cases, inl, inr,
  ltb→ge, length-splice, slice-splice_self, length-take, drop-drop, ap₂, length-slice,
}
use rocket_rpc.Common.Words.{sub_size}
use rocket_rpc.TcpBuffer.{
  TcpBuffer, store, move, readable, writable, prependable, prepend, ensure_writable, make_space,
  grow, grown_size, to_front, append_view, append, prepend_size, max_buffer_size,
}
use rocket_rpc.TcpBuffer.Valid.{IsSafe, content, load-some, store-some}

-- A write that ends where the region starts puts its bytes in front of the region.
slice-splice_front :
    (r n i k : ℕ) (ds xs : List ℕ)
    → r ≡ i + length ds
    → k ≡ length ds + n
    → r ≤ length xs
    → slice i k (splice i ds xs) ≡ ds ++ slice r n xs
slice-splice_front r n i k ds xs e e' h =
    slice_add i (length ds) n k (splice i ds xs) e'
    ∙ ap₂ ◌++◌ (slice-splice_self i (length ds) ds xs (omega arith) refl) (
        ap (take n) (
          sym (drop-drop i (length ds) (i + length ds) (splice i ds xs) refl)
          ∙ ap (drop (length ds)) (
              drop-append i (take i xs) (ds ++ drop (i + length ds) xs)
                (omega (arith, length-take i xs)))
          ∙ drop-append (length ds) ds (drop (i + length ds) xs) refl
          ∙ ap (λ j. drop j xs) (sym e)))

module _ (b : TcpBuffer) (v : IsSafe b) (ds : List ℕ) where
  -- `prepend` puts the bytes before the readable ones if so many are free there, and changes
  -- nothing otherwise. The buffer stays safe to grow if the readable bytes, with the new ones,
  -- still fit behind index 8.
  pub prepend_lem :
      prepend_size + (b.write_index - b.read_index) + length ds ≤ length b.mem
      → (b' : TcpBuffer) × (prepend b ds ≡ some b')
        × IsSafe b'
        × (content b' ≡ (if ltb b.read_index (length ds) then [] else ds) ++ content b)
  unfolding prepend prependable
  prepend_lem h = elim (Bool-cases (ltb b.read_index (length ds))) [
    | inl short ↦ rw short (b, refl, v, refl)
    | inr room ↦ rw room (
        let i : ℕ = b.read_index - length ds in
        let fits : length ds ≤ b.read_index = ltb→ge b.read_index (length ds) room in
        let e : sub_size b.read_index (length ds) ≡ b.read_index - length ds =
          omega (arith, v.small, v.inside, v.order) in
        rw (e, store-some b.mem (b.read_index - length ds) ds (omega (arith, v.inside, v.order)))
          (
            record b { mem = splice i ds b.mem; read_index = i },
            refl,
            omega (
              arith,
              length-splice (b.read_index - length ds) ds b.mem (omega (arith, v.inside, v.order)),
            ),
            slice-splice_front b.read_index (b.write_index - b.read_index) i (b.write_index - i) ds
                b.mem (omega arith) (omega (arith, v.order)) (omega (arith, v.inside, v.order)),
          ))
  ]

-- The state in which growing moves bytes past the end of the storage: bytes stand in front of
-- index 8, and the readable ones, moved to index 8, do not fit in the storage of the moment.
pub record IsCramped (b : TcpBuffer) : Type 0 where
  pub before : b.read_index < prepend_size
  pub order : b.read_index < b.write_index
  pub inside : b.write_index ≤ length b.mem
  pub cramped : length b.mem + b.read_index < prepend_size + b.write_index
  pub small : length b.mem < 2 ^ 63

module _ (b : TcpBuffer) (c : IsCramped b) where
  readable_cramped : readable b ≡ b.write_index - b.read_index
  unfolding readable
  readable_cramped = omega arith

  writable_cramped : writable b ≡ length b.mem - b.write_index
  unfolding writable
  writable_cramped = omega arith

  move_faults : move b.mem prepend_size b.read_index (b.write_index - b.read_index) ≡ none
  unfolding move store
  move_faults =
      let n : ℕ = b.write_index - b.read_index in
      rw (load-some b.mem b.read_index (b.write_index - b.read_index) (omega arith))
        (ground (arith, length-slice b.read_index (b.write_index - b.read_index) b.mem))

  grow_faults :
      (len : ℕ)
      → prepend_size + (b.write_index - b.read_index) + len ≤ max_buffer_size
      → grow b len ≡ none
  unfolding grow grown_size to_front
  grow_faults len h = ground (arith, readable_cramped, move_faults)

  -- In such a state every `append` that does not fit behind the write index, but within the
  -- 64 MiB, makes `makeSpace` write past the end of the storage before it is resized.
  pub append_faults :
      (ds : List ℕ)
      → length b.mem < b.write_index + length ds
      → prepend_size + (b.write_index - b.read_index) + length ds ≤ max_buffer_size
      → append_view b ds ≡ none
  unfolding append_view append ensure_writable make_space prependable
  append_faults ds h k = ground (arith, readable_cramped, writable_cramped, grow_faults (length ds))
