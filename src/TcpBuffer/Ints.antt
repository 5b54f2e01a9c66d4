-- ===== src/TcpBuffer/Ints.antt =====
-- The integers of the buffer: network byte order, and what is appended is retrieved.
use mathlib.Core.List.{reverse}
use rocket_rpc.Common.{
  ℕ, ◌^◌, ◌≤◌, ◌<◌, ◌≡◌, sym, ap, ◌∙◌, true, some, List, [], ◌++◌, arith, append-nil, length, take,
  drop, take-append, drop-append, take-slice, length-append, ◌-◌,
}
use rocket_rpc.Common.Words.{
  le_bytes, of_le_bytes, bswap, length-le_bytes, bswap-round_trip, le_bytes-bswap,
}
use rocket_rpc.TcpBuffer.{
  TcpBuffer, readable, append_int, prepend, prepend_int32, consume, peek_int, retrieve_int,
}
use rocket_rpc.TcpBuffer.Valid.{
  IsValid, IsValid-IsSafe, content, readable_lem, length-content, load-some,
}
use rocket_rpc.TcpBuffer.Room.{accepts}
use rocket_rpc.TcpBuffer.Fifo.{append_accepted, consume_lem}

module _ (b : TcpBuffer) (k x : ℕ) (v : IsValid b) where
  -- An integer that is appended goes out as its bytes, the most significant first.
  pub append_int_lem :
      accepts b k ≡ true
      → (b' : TcpBuffer) × (append_int k b x ≡ some (true, b'))
        × IsValid b'
        × (content b' ≡ content b ++ reverse (le_bytes k x))
  unfolding append_int
  append_int_lem h =
      let (b', e, valid, longer) =
        append_accepted b v (le_bytes k (bswap k x)) (rw (length-le_bytes k (bswap k x)) h) in
      (b', e, valid, longer ∙ ap (◌++◌ (content b)) (le_bytes-bswap k x))

  peek_int_lem : k ≤ readable b → peek_int k b ≡ some (bswap k (of_le_bytes (take k (content b))))
  unfolding peek_int
  peek_int_lem h =
      rw (load-some b.mem b.read_index k (omega (arith, readable_lem (IsValid-IsSafe v)))) (
        ap (λ ds. some (bswap k (of_le_bytes ds)))
          (sym (
            take-slice b.read_index (b.write_index - b.read_index) k b.mem
              (omega (arith, readable_lem (IsValid-IsSafe v))))))

  retrieve_int_lem :
      (rest : List ℕ)
      → x < 256 ^ k
      → content b ≡ le_bytes k (bswap k x) ++ rest
      → (b' : TcpBuffer) × (retrieve_int k b ≡ some (x, b')) × IsValid b' × (content b' ≡ rest)
  unfolding retrieve_int
  retrieve_int_lem rest h e =
      let bytes : List ℕ = le_bytes k (bswap k x) in
      let len : k ≡ length bytes = sym (length-le_bytes k (bswap k x)) in
      let (valid, left) = consume_lem b v k in
      let enough : k ≤ readable b =
        omega (arith, length-content (IsValid-IsSafe v), ap length e, length-append bytes rest) in
      (
        consume b k,
        rw (peek_int_lem enough, e, take-append k bytes rest len, bswap-round_trip k x h),
        valid,
        left ∙ ap (drop k) e ∙ drop-append k bytes rest len,
      )

-- An integer of `k` bytes that is appended to an empty buffer is what `retrieveInt` returns, and
-- the buffer is empty again.
pub retrieve_int-append_int :
    (b : TcpBuffer) (k x : ℕ)
    → IsValid b
    → content b ≡ []
    → accepts b k ≡ true
    → x < 256 ^ k
    → (b' b'' : TcpBuffer) × (append_int k b x ≡ some (true, b'))
      × (retrieve_int k b' ≡ some (x, b''))
      × IsValid b''
      × (content b'' ≡ [])
retrieve_int-append_int b k x v e h bound =
    let (b', ap', valid, longer) = append_int_lem b k x v h in
    let at : content b' ≡ le_bytes k (bswap k x) ++ [] =
      longer
      ∙ ap (λ c. c ++ reverse (le_bytes k x)) e
      ∙ sym (le_bytes-bswap k x)
      ∙ sym (append-nil (le_bytes k (bswap k x))) in
    let (b'', ret, valid', rest) = retrieve_int_lem b' k x valid [] bound at in
    (b', b'', ap', ret, valid', rest)

-- `prependInt32` puts the same four bytes in front.
pub prepend_int32_lem :
    (b : TcpBuffer) (x : ℕ) → prepend_int32 b x ≡ prepend b (reverse (le_bytes 4 x))
unfolding prepend_int32
prepend_int32_lem b x = ap (prepend b) (le_bytes-bswap 4 x)
