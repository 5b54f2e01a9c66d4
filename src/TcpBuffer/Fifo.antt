-- ===== src/TcpBuffer/Fifo.antt =====
-- `append`, `consume` and `retrieve`: the buffer as a queue of bytes.
use rocket_rpc.Common.{
  ℕ, ◌+◌, ◌-◌, ◌≤◌, ◌≡◌, refl, sym, ap, ◌∙◌, Bool, true, false, ◌||◌, some, List, [], ◌++◌,
  append-nil, arith, min, ltb, ◌==◌, if◌then◌else◌, Bool-cases, inl, inr, ltb→lt, ltb→ge, length,
  take, drop, slice, splice, length-splice, slice-splice_extend, drop-slice, take-slice, take_of_ge,
  drop_of_ge, take-min, drop-min,
}
use rocket_rpc.Common.Words.{add_size, sub_size}
use rocket_rpc.TcpBuffer.{
  TcpBuffer, readable, writable, move_write_index, put, append, append_view, fill, consume,
  consume_all, retrieve, retrieve_all, readable_span,
}
use rocket_rpc.TcpBuffer.Valid.{
  IsValid, IsValid-IsSafe, content, readable_lem, length-content, load-some, store-some,
}
use rocket_rpc.TcpBuffer.Room.{Roomy, accepts, ensure_writable_lem}

nothing : {xs : List ℕ} → length xs ≡ 0 → xs ≡ []
nothing {xs} h = sym (take_of_ge 0 xs (omega arith))

module _ (b : TcpBuffer) (v : IsValid b) where
  pub put_lem :
      (ds : List ℕ)
      → b.write_index + length ds ≤ length b.mem
      → (b' : TcpBuffer) × (put b ds ≡ some b')
        × IsValid b'
        × (content b' ≡ content b ++ ds)
        × (b'.write_index ≡ b.write_index + length ds)
        × (length b'.mem ≡ length b.mem)
  unfolding put
  put_lem ds h =
      let len : length (splice b.write_index ds b.mem) ≡ length b.mem =
        length-splice b.write_index ds b.mem h in
      (
        record b { mem = splice b.write_index ds b.mem; write_index = b.write_index + length ds },
        rw (store-some b.mem b.write_index ds h) (ground (arith, v.small)),
        omega (arith, v.small),
        slice-splice_extend b.read_index (b.write_index - b.read_index) b.write_index
            (b.write_index + length ds - b.read_index) ds b.mem (omega (arith, v.order))
            (omega (arith, v.order)) (omega (arith, v.inside)),
        refl,
        len,
      )

  -- The readable bytes can be read, and are `content`.
  pub readable_span_lem : readable_span b ≡ some (content b)
  unfolding readable_span
  readable_span_lem =
      rw (readable_lem (IsValid-IsSafe v))
        (load-some b.mem b.read_index (b.write_index - b.read_index) (omega arith))

  -- `consume` drops the oldest bytes; past the end it empties the buffer.
  pub consume_lem :
      (len : ℕ) → IsValid (consume b len) × (content (consume b len) ≡ drop len (content b))
  unfolding consume consume_all
  consume_lem len = elim (Bool-cases (ltb len (readable b))) [
    | inl more ↦ rw more (
        let e : add_size b.read_index len ≡ b.read_index + len =
          omega (arith, ltb→lt len (readable b) more, readable_lem (IsValid-IsSafe v), v.small) in
        rw e (
          omega (arith, ltb→lt len (readable b) more, readable_lem (IsValid-IsSafe v)),
          ap (λ n. slice (b.read_index + len) n b.mem) (omega arith)
              ∙ sym (drop-slice b.read_index (b.write_index - b.read_index) len b.mem),
        ))
    | inr all ↦ rw all (
      omega arith,
      sym (
          drop_of_ge len (content b)
            (omega (arith, length-content (IsValid-IsSafe v), ltb→ge len (readable b) all))),
    )
  ]

module _ (b : TcpBuffer) (v : IsValid b) where
  fill_lem :
      (ds : List ℕ) (ok : Bool) (b₁ : TcpBuffer)
      → Roomy b (length ds) ok b₁
      → (b' : TcpBuffer) × (fill ds (length ds) (ok, b₁) ≡ some (ok, b'))
        × IsValid b'
        × (content b' ≡ content b ++ (if ok then ds else []))
  unfolding fill
  fill_lem ds true b₁ r =
      let valid : IsValid b₁ = omega (arith, r.valid, r.kept v.behind) in
      let (b', e, valid', longer, at, size) = put_lem b₁ valid ds (r.room refl) in
      (
        b',
        rw (load-some ds 0 (length ds) (omega arith), take_of_ge (length ds) ds (omega arith), e),
        valid',
        longer ∙ ap (λ c. c ++ ds) r.same,
      )
  fill_lem ds false b₁ r =
      (b₁, refl, omega (arith, r.valid, r.kept v.behind), r.same ∙ sym (append-nil (content b)))

  -- What `append` adds to the buffer: all bytes or none.
  pub append_lem :
      (ds : List ℕ)
      → let ok = (length ds == 0) || accepts b (length ds) in
        (b' : TcpBuffer) × (append_view b ds ≡ some (ok, b'))
        × IsValid b'
        × (content b' ≡ content b ++ (if ok then ds else []))
  unfolding append_view append
  append_lem ds = elim (Bool-cases (length ds == 0)) [
    | inl e ↦
        rw e (
          b,
          refl,
          v,
          sym (ap (◌++◌ (content b)) (nothing (ground arith)) ∙ append-nil (content b)),
        )
    | inr e ↦
        let (b', ask, roomy) = ensure_writable_lem b (IsValid-IsSafe v) (length ds) in
        rw (e, ask) (fill_lem ds (accepts b (length ds)) b' roomy)
  ]

  -- `retrieve` returns the oldest bytes, at most `len`, and leaves the rest.
  pub retrieve_lem :
      (len : ℕ)
      → (b' : TcpBuffer) × (retrieve b len ≡ some (take len (content b), b'))
        × IsValid b'
        × (content b' ≡ drop len (content b))
  unfolding retrieve
  retrieve_lem len =
      let n : ℕ = min len (readable b) in
      let (valid, rest) = consume_lem b v n in
      let whole : readable b ≡ length (content b) = sym (length-content (IsValid-IsSafe v)) in
      (
        consume b n,
        rw (load-some b.mem b.read_index n (omega (arith, readable_lem (IsValid-IsSafe v)))) (
            ap (λ ds. some (ds, consume b n))
              (sym (
                  take-slice b.read_index (b.write_index - b.read_index) n b.mem
                    (omega (arith, readable_lem (IsValid-IsSafe v))))
                ∙ take-min len (readable b) (content b) whole)),
        valid,
        rest ∙ drop-min len (readable b) (content b) whole,
      )

  -- `retrieveAll` returns every readable byte and empties the buffer.
  pub retrieve_all_lem :
      (b' : TcpBuffer) × (retrieve_all b ≡ some (content b, b')) × IsValid b' × (content b' ≡ [])
  unfolding retrieve_all
  retrieve_all_lem =
      let (b', e, valid, rest) = retrieve_lem (readable b) in
      let whole : length (content b) ≡ readable b = length-content (IsValid-IsSafe v) in
      (
        b',
        e ∙ ap (λ ds. some (ds, b')) (take_of_ge (readable b) (content b) (omega arith)),
        valid,
        rest ∙ drop_of_ge (readable b) (content b) (omega arith),
      )

  -- Where there is room, `append` adds all bytes.
  pub append_accepted :
      (ds : List ℕ)
      → accepts b (length ds) ≡ true
      → (b' : TcpBuffer) × (append_view b ds ≡ some (true, b'))
        × IsValid b'
        × (content b' ≡ content b ++ ds)
  append_accepted ds h =
      let (b', e, valid, longer) = append_lem ds in
      let ok : ((length ds == 0) || accepts b (length ds)) ≡ true = either (length ds == 0) h in
      (
        b',
        e ∙ ap (λ o. some (o, b')) ok,
        valid,
        longer ∙ ap (λ o. content b ++ (if o then ds else [])) ok,
      )
    where
      either : (x : Bool) {y : Bool} → y ≡ true → (x || y) ≡ true
      either true e = refl
      either false e = e

-- `moveWriteIndex` after bytes have been written behind the write index takes them into the buffer.
pub move_write_index_lem :
    (b : TcpBuffer) (ds : List ℕ) (k : ℕ)
    → IsValid b
    → b.write_index + length ds ≤ length b.mem
    → k ≡ length ds
    → let b' = move_write_index (record b { mem = splice b.write_index ds b.mem }) k in
      IsValid b' × (content b' ≡ content b ++ ds)
unfolding move_write_index writable
move_write_index_lem b ds k v h e =
    let size : length (splice b.write_index ds b.mem) ≡ length b.mem =
      length-splice b.write_index ds b.mem h in
    let at : add_size b.write_index
          (min k (sub_size (length (splice b.write_index ds b.mem)) b.write_index))
        ≡ b.write_index + length ds =
      omega (arith, v.small) in
    rw at (
      omega (arith, v.small),
      slice-splice_extend b.read_index (b.write_index - b.read_index) b.write_index
          (b.write_index + length ds - b.read_index) ds b.mem (omega (arith, v.order))
          (omega (arith, v.order)) (omega (arith, v.inside)),
    )
