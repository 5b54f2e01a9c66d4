-- ===== src/TcpBuffer/Io.antt =====
-- `readFromFd` and `writeToFd` of tcp_buffer.cc. The answer of the kernel to `readv` and `writev`
-- is an argument.
use rocket_rpc.Common.{
  ℕ, ◌+◌, ◌-◌, ◌≤◌, ◌<◌, ◌≡◌, refl, ap, ◌∙◌, Bool, true, false, ◌||◌, Option, none, some, List, [],
  ◌++◌, arith, append-nil, append_assoc, take-append-drop, min, ◌>>=◌, ltb, leb, le→ltb, le→leb,
  lt→leb, ◌==◌, if◌then◌else◌, length, take, drop, splice, length-take, length-drop, length-splice,
  slice-splice_extend, dec_le,
}
use rocket_rpc.Common.Words.{sub_size}
use rocket_rpc.TcpBuffer.{
  TcpBuffer, load, store, readable, writable, put, append_view, consume, max_buffer_size,
  prepend_size,
}
use rocket_rpc.TcpBuffer.Valid.{
  IsValid, IsValid-IsSafe, content, readable_lem, writable_lem, load-some, store-some,
}
use rocket_rpc.TcpBuffer.Room.{accepts}
use rocket_rpc.TcpBuffer.Fifo.{put_lem, append_lem}

-- What `readv` answers: an error number, or the bytes that it has stored.
pub data ReadReply : Type 0 where
  refused : ℕ → ReadReply
  received : List ℕ → ReadReply

-- What `writev` answers: an error number, or how many bytes it has taken.
pub data WriteReply : Type 0 where
  blocked : ℕ → WriteReply
  sent : ℕ → WriteReply

-- The result of the two functions: -1 with the saved error number, or a count.
pub data IoResult : Type 0 where
  failed : ℕ → IoResult
  done : ℕ → IoResult

abbrev pub extra_size : ℕ
extra_size = 65536

-- EMSGSIZE
abbrev pub message_too_long : ℕ
message_too_long = 90

-- How many bytes the one or two regions that are offered to `readv` take.
unfoldable pub offered : TcpBuffer → ℕ
offered b = if ltb (writable b) extra_size then writable b + extra_size else writable b

-- The bytes past the storage went to the second region, and are appended.
spill : TcpBuffer → List ℕ → Option (IoResult × TcpBuffer)
spill b ds = do
  mem ← store b.mem b.write_index (take (writable b) ds)
  (ok, b') ← append_view (record b { mem = mem; write_index = length mem }) (drop (writable b) ds)
  some (if ok then done (length ds) else failed message_too_long, b')

-- A reply with more bytes than were offered is a fault: the kernel gives none.
pub read_from_fd : TcpBuffer → ReadReply → Option (IoResult × TcpBuffer)
read_from_fd b (refused e) = some (failed e, b)
read_from_fd b (received ds) =
    if ltb (offered b) (length ds)
    then none
    else if leb (length ds) (writable b)
    then (do b' ← put b ds; some (done (length ds), b'))
    else spill b ds

-- The state and the result after `writev`.
unfoldable pub sent_result : TcpBuffer → WriteReply → IoResult × TcpBuffer
sent_result b (blocked e) = (failed e, b)
sent_result b (sent n) = (done n, consume b n)

-- The second component is what is offered to `writev`: with nothing to send there is no call.
pub write_to_fd : TcpBuffer → WriteReply → Option (IoResult × List ℕ × TcpBuffer)
write_to_fd b reply = if readable b == 0 then some (done 0, [], b) else do
  let first = min (sub_size (length b.mem) b.read_index) (readable b)
  let second = sub_size (readable b) first
  front ← load b.mem b.read_index first
  back ← if ltb 0 second then load b.mem 0 second else some []
  let (result, b') = sent_result b reply
  some (result, front ++ back, b')

-- A refused `append` would have made the buffer grow past its limit.
too_big :
    (full : TcpBuffer) (m : ℕ)
    → ((m == 0) || accepts full m) ≡ false
    → max_buffer_size < prepend_size + (full.write_index - full.read_index + m)
too_big full m h = ground arith

module _ (b : TcpBuffer) (v : IsValid b) (ds : List ℕ) where
  full_lem :
      writable b < length ds
      → (full : TcpBuffer) × (spill b ds ≡ (
          append_view full (drop (writable b) ds) >>= λ r.
          some (if r.0 then done (length ds) else failed message_too_long, r.1)))
        × IsValid full
        × (content full ≡ content b ++ take (writable b) ds)
        × (full.write_index ≡ length full.mem)
        × (full.write_index - full.read_index ≡ readable b + writable b)
  unfolding spill
  full_lem h =
      let head : List ℕ = take (writable b) ds in
      let space : writable b ≡ length b.mem - b.write_index = writable_lem (IsValid-IsSafe v) in
      let len : length (take (writable b) ds) ≡ writable b =
        omega (arith, length-take (writable b) ds) in
      let fits : b.write_index + length (take (writable b) ds) ≤ length b.mem = omega arith in
      let size : length (splice b.write_index head b.mem) ≡ length b.mem =
        length-splice b.write_index (take (writable b) ds) b.mem (omega arith) in
      (
        record b {
          mem = splice b.write_index head b.mem;
          write_index = length (splice b.write_index head b.mem);
        },
        rw (store-some b.mem b.write_index (take (writable b) ds) fits),
        omega arith,
        slice-splice_extend b.read_index (b.write_index - b.read_index) b.write_index
            (length (splice b.write_index head b.mem) - b.read_index) head b.mem (omega arith)
            (omega arith) (omega arith),
        refl,
        omega (arith, readable_lem (IsValid-IsSafe v)),
      )

  -- What a read does: all bytes are kept in order behind the old ones, or the buffer would grow
  -- past its limit, and the result is an error that keeps only what fitted into the storage.
  pub data Received (r : IoResult × TcpBuffer) : Type 0 where
    kept : IsValid r.1 → r.0 ≡ done (length ds) → content r.1 ≡ content b ++ ds → Received r
    too_long :
        IsValid r.1
        → r.0 ≡ failed message_too_long
        → content r.1 ≡ content b ++ take (writable b) ds
        → max_buffer_size < prepend_size + readable b + length ds
        → Received r

  ended :
      (ok : Bool) (b' : TcpBuffer)
      → IsValid b'
      → content b' ≡ content b ++ take (writable b) ds ++ (if ok then drop (writable b) ds else [])
      → (ok ≡ false → max_buffer_size < prepend_size + readable b + length ds)
      → Received (if ok then done (length ds) else failed message_too_long, b')
  ended true b' valid e h = kept valid refl (
      e
      ∙ append_assoc (content b) (take (writable b) ds) (drop (writable b) ds)
      ∙ ap (◌++◌ (content b)) (take-append-drop (writable b) ds))
  ended false b' valid e h =
      too_long valid refl (e ∙ append-nil (content b ++ take (writable b) ds)) (h refl)

  spill_lem :
      writable b < length ds → (r : IoResult × TcpBuffer) × (spill b ds ≡ some r) × Received r
  spill_lem h =
      let (full, e, valid, held, at_end, count) = full_lem h in
      let rest : List ℕ = drop (writable b) ds in
      let (b', ask, valid', longer) = append_lem full valid (drop (writable b) ds) in
      let ok : Bool = (length rest == 0) || accepts full (length rest) in
      (
        (if ok then done (length ds) else failed message_too_long, b'),
        e ∙ rw ask,
        ended ok b' valid' (longer ∙ ap (λ c. c ++ (if ok then rest else [])) held) (λ no_room.
            omega (arith, too_big full (length rest) no_room, length-drop (writable b) ds, count)),
      )

  -- `readFromFd` keeps the invariant and never leaves the storage, if the kernel stores no more
  -- bytes than it was offered.
  pub read_from_fd_lem :
      length ds ≤ offered b
      → (r : IoResult × TcpBuffer) × (read_from_fd b (received ds) ≡ some r) × Received r
  unfolding read_from_fd
  read_from_fd_lem h = elim (dec_le (length ds) (writable b)) [
    | yes fits ↦
        let (b', e, valid, longer, at, size) =
          put_lem b v ds (omega (arith, writable_lem (IsValid-IsSafe v))) in
        (
          (done (length ds), b'),
          rw (le→ltb (offered b) (length ds) h, le→leb (length ds) (writable b) fits, e),
          kept valid refl longer,
        )
    | no over ↦
        let (r, e, what) = spill_lem (omega arith) in
        (
          r,
          rw (le→ltb (offered b) (length ds) h, lt→leb (length ds) (writable b) (omega arith)) e,
          what,
        )
  ]

-- `writeToFd` offers exactly the readable bytes, in one region, and drops those that the kernel
-- has taken; an error leaves the buffer as it was.
pub write_to_fd_lem :
    (b : TcpBuffer) (reply : WriteReply)
    → IsValid b
    → 0 < readable b
    → write_to_fd b reply ≡ some ((sent_result b reply).0, content b, (sent_result b reply).1)
unfolding write_to_fd
write_to_fd_lem b reply v h =
    let r : readable b ≡ b.write_index - b.read_index = readable_lem (IsValid-IsSafe v) in
    let some_left : (readable b == 0) ≡ false = ground arith in
    let first : min (sub_size (length b.mem) b.read_index) (b.write_index - b.read_index)
        ≡ b.write_index - b.read_index =
      omega arith in
    let second : sub_size (b.write_index - b.read_index) (b.write_index - b.read_index) ≡ 0 =
      omega (arith, v.small) in
    rw
      (
        some_left,
        r,
        first,
        second,
        load-some b.mem b.read_index (b.write_index - b.read_index) (omega arith),
      )
      (ap (λ ds. some ((sent_result b reply).0, ds, (sent_result b reply).1))
        (append-nil (content b)))
