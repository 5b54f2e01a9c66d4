-- ===== src/TcpConnection/Flush.antt =====
-- What a flush of the output buffer sends, and what it keeps.
use rocket_rpc.Common.{
  ℕ, zero, suc, ◌<◌, ◌≤◌, ◌≡◌, ◌≢◌, ◌⊎◌, Bool, true, false, length, length-drop, refl, sym, ap, ◌∙◌,
  Option, some, List, [], ◌∷◌, ◌++◌, append_assoc, arith, ◌==◌, if◌then◌else◌, Bool-cases, inl, inr,
  take, take-append-drop,
}
use rocket_rpc.TcpBuffer.{TcpBuffer, readable, consume}
use rocket_rpc.TcpBuffer.Valid.{IsValid, content, length-content, IsValid-IsSafe}
use rocket_rpc.TcpBuffer.Fifo.{consume_lem}
use rocket_rpc.TcpBuffer.Io.{WriteReply, blocked, sent, sent_result, write_to_fd_lem}
use rocket_rpc.TcpConnection.{
  FlushEnd, stopped, broken, running, after_write, flush_loop, interrupted, would_block,
}

-- The answers that are not EINTR.
pub answers : List WriteReply → ℕ
answers [] = 0
answers (blocked e ∷ replies) =
    let rest = answers replies in if e == interrupted then rest else suc rest
answers (sent n ∷ replies) = suc (answers replies)

-- The loop has sent `ds` of the bytes of `b` and left `b'`; it has ended if there were more than
-- `readable b` answers.
abbrev pub Sends : TcpBuffer → List WriteReply → Option (FlushEnd × List ℕ × TcpBuffer) → Type 0
Sends b replies r =
    (end : FlushEnd) × (ds : List ℕ) × (b' : TcpBuffer) × (r ≡ some (end, ds, b'))
    × IsValid b'
    × (content b ≡ ds ++ content b')
    × ((end ≢ running) ⊎ (answers replies ≤ readable b))

stops : stopped ≢ running
stops e = absurd cc

breaks : (t : Bool) → (if t then stopped else broken) ≢ running
breaks true e = absurd cc
breaks false e = absurd cc

consumed :
    (b : TcpBuffer) (n : ℕ) → IsValid b → 0 < readable b → readable (consume b (suc n)) < readable b
consumed b n v more =
    let (valid, left) = consume_lem b v (suc n) in
    let whole : readable b ≡ length (content b) = sym (length-content (IsValid-IsSafe v)) in
    let rest : readable (consume b (suc n)) ≡ length (content (consume b (suc n))) =
      sym (length-content (IsValid-IsSafe valid)) in
    omega (arith, whole, rest, ap length left, length-drop (suc n) (content b))

-- Whatever the kernel answers, what the socket has taken followed by what the buffer still holds is
-- what the buffer held: no byte is lost, repeated or reordered. The loop of `flushOutputInLoop` has
-- ended once the kernel has given more answers other than EINTR than there are bytes to send, so
-- that only EINTR without end keeps it running.
pub flush_loop_lem :
    (b : TcpBuffer) (replies : List WriteReply) → IsValid b → Sends b replies (flush_loop b replies)
unfolding flush_loop after_write sent_result answers
flush_loop_lem b [] v = elim (Bool-cases (readable b == 0)) [
  | inl empty ↦ rw empty (stopped, [], b, refl, v, refl, inl stops)
  | inr more ↦ rw more (running, [], b, refl, v, refl, inr (omega arith))
]
flush_loop_lem b (blocked e ∷ replies) v = elim (Bool-cases (readable b == 0)) [
  | inl empty ↦ rw empty (stopped, [], b, refl, v, refl, inl stops)
  | inr more ↦
      rw (more, write_to_fd_lem b (blocked e) v (ground arith))
        (elim (Bool-cases (e == interrupted)) [
          | inl again ↦ rw again (flush_loop_lem b replies v)
          | inr other ↦ rw other (
            if e == would_block then stopped else broken,
            [],
            b,
            refl,
            v,
            refl,
            inl (breaks (e == would_block)),
          )
        ])
]
flush_loop_lem b (sent zero ∷ replies) v = elim (Bool-cases (readable b == 0)) [
  | inl empty ↦ rw empty (stopped, [], b, refl, v, refl, inl stops)
  | inr more ↦
      let (valid, left) = consume_lem b v 0 in
      rw (more, write_to_fd_lem b (sent zero) v (ground arith))
        (stopped, [], consume b 0, refl, valid, sym left, inl stops)
]
flush_loop_lem b (sent (suc n) ∷ replies) v = elim (Bool-cases (readable b == 0)) [
  | inl empty ↦ rw empty (stopped, [], b, refl, v, refl, inl stops)
  | inr more ↦
      let (valid, left) = consume_lem b v (suc n) in
      let (end, ds, b', e, valid', rest, over) = flush_loop_lem (consume b (suc n)) replies valid in
      rw (more, write_to_fd_lem b (sent (suc n)) v (ground arith), e)
        (
          end,
          take (suc n) (content b) ++ ds,
          b',
          refl,
          valid',
          sym (take-append-drop (suc n) (content b))
              ∙ ap (◌++◌ (take (suc n) (content b))) (sym left ∙ rest)
              ∙ sym (append_assoc (take (suc n) (content b)) ds (content b')),
          elim over [
            | inl done ↦ inl done
            | inr few ↦ inr (omega (arith, few, consumed b n v (ground arith)))
          ],
        )
]
