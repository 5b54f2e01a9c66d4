-- ===== src/TimingWheel/Wait.antt =====
-- How long the event loop may sleep.
use rocket_rpc.Common.{
  ℕ, zero, suc, ◌+◌, ◌-◌, ◌*◌, ◌%◌, ◌≤◌, ◌<◌, ◌≡◌, refl, ap, false, Option, none, some, List, [],
  ◌∷◌, min, arith, dec_le, ◌==◌, Bool-cases, inl, inr, length,
}
use rocket_rpc.TimingWheel.{
  TimingWheel, slots_per_level, tick_ms, first_full, slot_wait, wheel_wait, with_overflow,
  ms_until_next_expire, slot_count, entries, pending_count, until_next_tick, ticks_of,
}

module _ (w : TimingWheel) where
  first_full-none :
      (i n j : ℕ)
      → first_full w i n ≡ none
      → j < n
      → length (w.l1 ((w.l1_cursor + (i + j)) % slots_per_level)) ≡ 0
  unfolding first_full
  first_full-none i zero j h b = absurd (omega arith)
  first_full-none i (suc n) zero h b =
      elim (Bool-cases (length (w.l1 ((w.l1_cursor + i) % slots_per_level)) == 0)) [
        | inl empty ↦ let z : i + 0 ≡ i = omega arith in rw z (ground arith)
        | inr full ↦ let h' : some i ≡ none = rw full at h in absurd cc
      ]
  first_full-none i (suc n) (suc j) h b =
      elim (Bool-cases (length (w.l1 ((w.l1_cursor + i) % slots_per_level)) == 0)) [
        | inl empty ↦
            let z : i + suc j ≡ suc i + j = omega arith in
            let h' : first_full w (suc i) n ≡ none = rw empty at h in
            rw z (first_full-none (suc i) n j h' (omega arith))
        | inr full ↦ let h' : some i ≡ none = rw full at h in absurd cc
      ]

  first_full-some :
      (i n j : ℕ)
      → first_full w i n ≡ some j
      → (j < i + n) × (0 < length (w.l1 ((w.l1_cursor + j) % slots_per_level)))
  unfolding first_full
  first_full-some i zero j h = absurd cc
  first_full-some i (suc n) j h =
      elim (Bool-cases (length (w.l1 ((w.l1_cursor + i) % slots_per_level)) == 0)) [
        | inl empty ↦
            let h' : first_full w (suc i) n ≡ some j = rw empty at h in
            let (b, l) = first_full-some (suc i) n j h' in (omega arith, l)
        | inr full ↦
            let h' : some i ≡ some j = rw full at h in
            let same : i ≡ j = cc in rw⁻¹ same (omega arith, ground arith)
      ]

  slot_count-zero : (n : ℕ) → ((x : ℕ) → x < n → length (w.l1 x) ≡ 0) → slot_count w n ≡ 0
  unfolding slot_count
  slot_count-zero zero h = refl
  slot_count-zero (suc n) h =
      omega (arith, h n (omega arith), slot_count-zero n (λ x b. h x (omega arith)))

  slot_wait-none : (o : Option ℕ) → slot_wait w o ≡ none → o ≡ none
  unfolding slot_wait
  slot_wait-none none h = refl
  slot_wait-none (some i) h = absurd cc

  with_overflow-none :
      (m : List (ℕ × ℕ)) (o : Option ℕ)
      → with_overflow w.now m o ≡ none
      → (entries m ≡ 0) × (o ≡ none)
  unfolding with_overflow entries
  with_overflow-none [] o h = (refl, h)
  with_overflow-none ((k, e) ∷ m) none h = absurd cc
  with_overflow-none ((k, e) ∷ m) (some n) h = absurd cc

  -- The loop sleeps with no limit only if no event is pending: whenever `msUntilNextExpire`
  -- returns nothing, `pendingCount` is zero.
  pub idle_lem : w.l1_cursor < slots_per_level → ms_until_next_expire w ≡ none → pending_count w ≡ 0
  unfolding ms_until_next_expire wheel_wait pending_count
  idle_lem c h =
      let (no_entry, no_wait) = with_overflow-none w.overflow (wheel_wait w) h in
      let no_full : first_full w 0 slots_per_level ≡ none =
        slot_wait-none (first_full w 0 slots_per_level) no_wait in
      let count : slot_count w slots_per_level ≡ 0 = slot_count-zero slots_per_level λ x b.
        let i : ℕ = (x + slots_per_level - w.l1_cursor) % slots_per_level in
        let reach : (w.l1_cursor + (0 + i)) % slots_per_level ≡ x = omega arith in
        rw reach at (first_full-none 0 slots_per_level i no_full (omega arith)) in
      omega arith

  -- What is due after a sleep: an entry of the overflow map, or a slot that the ticks reach.
  pub data Due (t : ℕ) : Type 0 where
    entry : (k e : ℕ) (m : List (ℕ × ℕ)) → w.overflow ≡ (k, e) ∷ m → k ≤ t → Due t
    slot :
        (i : ℕ) → i < ticks_of w t → 0 < length (w.l1 ((w.l1_cursor + i) % slots_per_level)) → Due t

  slot-Due :
      (o : Option ℕ) (m : ℕ)
      → (w.last_tick_ms == 0) ≡ false
      → w.last_tick_ms ≤ w.now
      → first_full w 0 slots_per_level ≡ o
      → slot_wait w o ≡ some m
      → Due (w.now + m)
  unfolding slot_wait until_next_tick ticks_of
  slot-Due none m s order f h = absurd cc
  slot-Due (some i) m s order f h =
      let (b, l) = first_full-some 0 slots_per_level i f in
      let value : until_next_tick w + i * tick_ms ≡ m = cc in
      slot i (omega (arith, rw s at value)) l

  overflow-Due :
      (l : List (ℕ × ℕ)) (o : Option ℕ) (m : ℕ)
      → w.overflow ≡ l
      → ((n : ℕ) → o ≡ some n → Due (w.now + n))
      → with_overflow w.now l o ≡ some m
      → Due (w.now + m)
  unfolding with_overflow
  overflow-Due [] o m e slots h = slots m h
  overflow-Due ((k, f) ∷ l) none m e slots h =
      let value : k - w.now ≡ m = cc in entry k f l e (omega arith)
  overflow-Due ((k, f) ∷ l) (some n) m e slots h =
      let value : min n (k - w.now) ≡ m = cc in
      elim (dec_le n (k - w.now)) [
        | yes sooner ↦ let same : n ≡ m = omega arith in slots m (ap some same)
        | no later ↦ entry k f l e (omega arith)
      ]

  -- A sleep as long as `msUntilNextExpire` says is not in vain: at its end the first entry of the
  -- overflow map is due, or the ticks that `fireExpired` runs then reach a slot with an event.
  pub wake_lem :
      (m : ℕ)
      → (w.last_tick_ms == 0) ≡ false
      → w.last_tick_ms ≤ w.now
      → ms_until_next_expire w ≡ some m
      → Due (w.now + m)
  unfolding ms_until_next_expire wheel_wait
  wake_lem m s order h =
      overflow-Due w.overflow (wheel_wait w) m refl
        (λ n. slot-Due (first_full w 0 slots_per_level) n s order refl) h
