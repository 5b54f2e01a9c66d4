-- ===== src/TimingWheel/Due.antt =====
-- When an event fires that has just been added to a wheel without it.
use rocket_rpc.Common.{
  ℕ, ◌+◌, ◌-◌, ◌/◌, ◌%◌, ◌≤◌, ◌<◌, ◌≡◌, refl, sym, ap, ap₂, ◌∙◌, true, false, ◌||◌, some, List, [],
  ◌∷◌, ◌++◌, arith, map, ltb, leb, lt→ltb, le→ltb, lt→leb, le→leb, ◌==◌, Bool-cases, inl, inr,
  ℕ_discrete,
}
use mathlib.Core.Bool.{true≢false}
use rocket_rpc.TimingWheel.{
  TimingWheel, TimerEvent, tick_ms, slots_per_level, l1_range, update, insert, delay_of, schedule,
  start_clock, add_event, live, advance, drain, ticks_of, next_tick_ms, collect,
}
use rocket_rpc.TimingWheel.Slots.{
  at, update-same, update-other, has, has-append, has-advance, has-advance_none, overflow-advance,
  events-advance,
}

-- The clock of the wheel runs, its cursor is a slot, and the event, which is not cancelled, is in
-- no slot and not in the overflow map.
pub record IsFresh (w : TimingWheel) (e : ℕ) : Type 0 where
  pub cursor : w.l1_cursor < slots_per_level
  pub started : (w.last_tick_ms == 0) ≡ false
  pub active : (w.events e).is_cancelled ≡ false
  pub no_slot : (i : ℕ) → i < slots_per_level → has e (at w i) ≡ false
  pub no_entry : has e (map (λ p. p.1) w.overflow) ≡ false

has-live :
    (events : ℕ → TimerEvent) (e : ℕ) (es : List ℕ)
    → (events e).is_cancelled ≡ false
    → has e (live events es) ≡ has e es
unfolding has live
has-live events e [] a = refl
has-live events e (f ∷ es) a = elim (Bool-cases (events f).is_cancelled) [
  | inl off ↦
      rw (off, has-live events e es a)
        (elim (ℕ_discrete e f) [
          | yes same ↦
              absurd (true≢false (sym off ∙ ap (λ g. (events g).is_cancelled) (sym same) ∙ a))
          | no differ ↦ ground arith
        ])
  | inr on ↦ rw (on, has-live events e es a) refl
]

has-drain_none :
    (events : ℕ → TimerEvent) (e t : ℕ) (m : List (ℕ × ℕ))
    → has e (map (λ p. p.1) m) ≡ false
    → has e (drain events t m).0 ≡ false
unfolding has drain live
has-drain_none events e t [] h = refl
has-drain_none events e t ((k, f) ∷ m) h =
    let rest : has e (drain events t m).0 ≡ false = has-drain_none events e t m (ground arith) in
    let other : (e == f) ≡ false = ground arith in
    elim (Bool-cases (leb k t)) [
      | inr later ↦ rw later refl
      | inl due ↦ elim (Bool-cases (events f).is_cancelled) [
        | inl off ↦ rw (due, off) rest
        | inr on ↦ rw (due, on, other) rest
      ]
    ]

-- The entry of an event leaves the map as soon as its time has come.
has-drain :
    (events : ℕ → TimerEvent) (e k t : ℕ) (m : List (ℕ × ℕ))
    → (events e).is_cancelled ≡ false
    → has e (map (λ p. p.1) m) ≡ false
    → has e (drain events t (insert k e m)).0 ≡ leb k t
unfolding has drain live insert
has-drain events e k t [] a h = elim (Bool-cases (leb k t)) [
  | inl due ↦ rw (due, a) (ground arith)
  | inr later ↦ rw later refl
]
has-drain events e k t ((j, f) ∷ m) a h =
    let other : (e == f) ≡ false = ground arith in
    let rest : has e (drain events t (insert k e m)).0 ≡ leb k t =
      has-drain events e k t m a (ground arith) in
    elim (Bool-cases (ltb k j)) [
      | inl first ↦ rw first (elim (Bool-cases (leb k t)) [
        | inl due ↦ rw (due, a) (ground arith)
        | inr later ↦ rw later refl
      ])
      | inr behind ↦ rw behind (elim (Bool-cases (leb j t)) [
        | inr later ↦ rw later (ground arith)
        | inl due ↦ elim (Bool-cases (events f).is_cancelled) [
          | inl off ↦ rw (due, off) rest
          | inr on ↦ rw (due, on, other) rest
        ]
      ])
    ]

-- What is collected comes from the slots or from the overflow map.
has-collect :
    (v : TimingWheel) (e t : ℕ)
    → (v.last_tick_ms == 0) ≡ false
    → has e (collect v t).0 ≡ (
        has e (advance (ticks_of v t) (record v { last_tick_ms = next_tick_ms v t })).0
        || has e (drain v.events t v.overflow).0)
unfolding collect
has-collect v e t s =
    let v' : TimingWheel = record v { last_tick_ms = next_tick_ms v t } in
    let o : (advance (ticks_of v t) v').1.overflow ≡ v.overflow =
      overflow-advance (ticks_of v t) v' in
    let n : (advance (ticks_of v t) v').1.events ≡ v.events = events-advance (ticks_of v t) v' in
    rw s (
      has-append e (advance (ticks_of v t) v').0 _
      ∙ ap (λ m. has e (advance (ticks_of v t) v').0 || m)
          (ap₂ (λ ev m. has e (drain ev t m).0) n o))

module _ (w : TimingWheel) (e : ℕ) (f : IsFresh w e) where
  -- How many ticks after the next one the event is due.
  abbrev distance : ℕ
  distance = (delay_of w e - 1) / tick_ms

  add_event_lem : add_event w (some e) ≡ schedule w e
  unfolding add_event start_clock
  add_event_lem = rw (f.active, f.started) refl

  -- The event is put into the slot that is `d` ticks away.
  has-put :
      (i d : ℕ)
      → i < slots_per_level
      → d < slots_per_level
      → let idx = (w.l1_cursor + d) % slots_per_level in
        has e (update idx (w.l1 idx ++ e ∷ []) w.l1 ((w.l1_cursor + i) % slots_per_level))
        ≡ (i == d)
  unfolding has at
  has-put i d b c = elim (ℕ_discrete i d) [
    | yes same ↦
        rw
          (
            same,
            update-same ((w.l1_cursor + d) % slots_per_level)
                (w.l1 ((w.l1_cursor + d) % slots_per_level) ++ e ∷ []) w.l1,
            has-append e (w.l1 ((w.l1_cursor + d) % slots_per_level)) (e ∷ []),
            f.no_slot d c,
          )
          (ground arith)
    | no differ ↦
        ap (has e) (
          update-other ((w.l1_cursor + d) % slots_per_level) ((w.l1_cursor + i) % slots_per_level)
            (w.l1 ((w.l1_cursor + d) % slots_per_level) ++ e ∷ []) w.l1
            (λ q. omega (arith, f.cursor)))
        ∙ f.no_slot i b
        ∙ ground arith
  ]

  -- In the slots the event is due after `distance` more ticks.
  has-slots :
      (k t : ℕ)
      → delay_of w e ≤ l1_range
      → k ≤ slots_per_level
      → has e (advance k (record (schedule w e) { last_tick_ms = t })).0
        ≡ ltb ((delay_of w e - 1) / tick_ms) k
  unfolding schedule at
  has-slots k t h b = rw (le→leb (delay_of w e) l1_range h) (
      has-advance e k _ ((delay_of w e - 1) / tick_ms) f.cursor (omega arith) λ i c.
        has-live w.events e _ f.active ∙ has-put i ((delay_of w e - 1) / tick_ms) c (omega arith))

  overflow-short : delay_of w e ≤ l1_range → (schedule w e).overflow ≡ w.overflow
  unfolding schedule
  overflow-short h = rw (le→leb (delay_of w e) l1_range h) refl

  keeps : (schedule w e).last_tick_ms ≡ w.last_tick_ms
  unfolding schedule
  keeps = elim (Bool-cases (leb (delay_of w e) l1_range)) [ inl h ↦ rw h refl | inr h ↦ rw h refl ]

  events-schedule : (schedule w e).events ≡ w.events
  unfolding schedule
  events-schedule = elim (Bool-cases (leb (delay_of w e) l1_range)) [
    | inl h ↦ rw h refl
    | inr h ↦ rw h refl
  ]

  none_late :
      (t : ℕ)
      → delay_of w e ≤ l1_range
      → has e (drain (schedule w e).events t (schedule w e).overflow).0 ≡ false
  none_late t h =
      rw (overflow-short h) (has-drain_none (schedule w e).events e t w.overflow f.no_entry)

  -- The first `fireExpired` after an event has been added with a delay within the range of the
  -- wheel collects it exactly if enough ticks have passed since the last tick of the wheel.
  pub short_lem :
      (t : ℕ)
      → delay_of w e ≤ l1_range
      → has e (collect (add_event w (some e)) t).0
        ≡ ltb ((delay_of w e - 1) / tick_ms) ((t - w.last_tick_ms) / tick_ms)
  unfolding collect ticks_of
  short_lem t h = rw add_event_lem (
      has-collect (schedule w e) e t (rw keeps f.started)
      ∙ ap₂ ◌||◌
          (has-slots (ticks_of (schedule w e) t) (next_tick_ms (schedule w e) t) h (omega arith))
          (none_late t h)
      ∙ rw keeps (ground arith))

  -- No timer is late by a tick: an event that is added to a wheel without it, with a delay within
  -- the range of the wheel, is collected if `fireExpired` is called next a tick or more after the
  -- time at which it is due.
  pub on_time_lem :
      (t : ℕ)
      → delay_of w e ≤ l1_range
      → w.last_tick_ms ≤ w.now
      → w.now + delay_of w e + tick_ms ≤ t
      → has e (collect (add_event w (some e)) t).0 ≡ true
  on_time_lem t h order due =
      short_lem t h
      ∙ lt→ltb ((delay_of w e - 1) / tick_ms) ((t - w.last_tick_ms) / tick_ms) (omega arith)

  -- On a wheel that has run its last tick less than a tick ago no timer is early by a tick: such an
  -- event is not collected if `fireExpired` is called next a tick or more before it is due.
  pub not_early_lem :
      (t : ℕ)
      → delay_of w e ≤ l1_range
      → w.last_tick_ms ≤ w.now
      → w.now < w.last_tick_ms + tick_ms
      → t + tick_ms ≤ w.now + delay_of w e
      → has e (collect (add_event w (some e)) t).0 ≡ false
  not_early_lem t h order fresh early =
      short_lem t h
      ∙ le→ltb ((delay_of w e - 1) / tick_ms) ((t - w.last_tick_ms) / tick_ms) (omega arith)

  -- On a wheel that has not run a tick for the length of its range, which is what the wheel of an
  -- idle loop is, every timer within the range is early: a call of `fireExpired` at the very time
  -- of the addition collects the event.
  pub stale_lem :
      delay_of w e ≤ l1_range
      → w.last_tick_ms + l1_range ≤ w.now
      → has e (collect (add_event w (some e)) w.now).0 ≡ true
  stale_lem h idle =
      short_lem w.now h
      ∙ lt→ltb ((delay_of w e - 1) / tick_ms) ((w.now - w.last_tick_ms) / tick_ms) (omega arith)

  -- An event with a longer delay is collected by the first call of `fireExpired` exactly if the
  -- time of the call is not before the time at which it is due.
  pub long_lem :
      (t : ℕ)
      → l1_range < delay_of w e
      → has e (collect (add_event w (some e)) t).0 ≡ leb (w.now + delay_of w e) t
  unfolding schedule at
  long_lem t h = rw add_event_lem (
      has-collect (schedule w e) e t (rw keeps f.started)
      ∙ rw (lt→leb (delay_of w e) l1_range h) (
          ap₂ ◌||◌
            (has-advance_none e _ _ f.cursor λ i b. has-live w.events e _ f.active ∙ f.no_slot i b)
            (has-drain w.events e (w.now + delay_of w e) t w.overflow f.active f.no_entry)))
