-- ===== src/TimingWheel/Slots.antt =====
-- The slots of the wheel by their distance from the cursor: what a tick and an insertion do.
use rocket_rpc.Common.{
  ℕ, zero, suc, ◌+◌, ◌%◌, ◌<◌, ◌≡◌, refl, ap, ◌∙◌, Bool, false, ◌||◌, List, [], ◌∷◌, ◌++◌, arith,
  ltb, lt→ltb, le→ltb, dec_lt, ◌==◌, if◌then◌else◌,
}
use rocket_rpc.TimingWheel.{
  TimingWheel, slots_per_level, update, live, collect_expired, tick_l1, advance,
}

-- The slot that the cursor reaches after `i` ticks.
unfoldable pub at : TimingWheel → ℕ → List ℕ
at w i = w.l1 ((w.l1_cursor + i) % slots_per_level)

pub update-same {ℓ} : {A : Type ℓ} (i : ℕ) (a : A) (f : ℕ → A) → update i a f i ≡ a
unfolding update
update-same i a f = ground arith

pub update-other {ℓ} :
    {A : Type ℓ} (i j : ℕ) (a : A) (f : ℕ → A) → (j ≡ i → ⊥) → update i a f j ≡ f j
unfolding update
update-other i j a f h = ground arith

-- One round of the loop of `fireExpired`.
abbrev pub round : TimingWheel → TimingWheel
round w = tick_l1 (collect_expired w).1

module _ (w : TimingWheel) (c : w.l1_cursor < slots_per_level) where
  pub out-round : (collect_expired w).0 ≡ live w.events (at w 0)
  unfolding collect_expired at
  out-round = ap (λ i. live w.events (w.l1 i)) (omega arith)

  pub cursor-round : (round w).l1_cursor < slots_per_level
  unfolding tick_l1
  cursor-round = omega arith

  pub events-round : (round w).events ≡ w.events
  unfolding tick_l1 collect_expired
  events-round = refl

  -- A round moves each slot one place nearer; the one at the cursor becomes the farthest, empty.
  pub at-round :
      (i : ℕ)
      → i < slots_per_level
      → at (round w) i ≡ (if ltb (suc i) slots_per_level then at w (suc i) else [])
  unfolding at tick_l1 collect_expired
  at-round i h = elim (dec_lt (suc i) slots_per_level) [
    | yes more ↦
        let j : ((w.l1_cursor + 1) % slots_per_level + i) % slots_per_level
            ≡ (w.l1_cursor + suc i) % slots_per_level =
          omega arith in
        rw (lt→ltb (suc i) slots_per_level more, j)
          (update-other w.l1_cursor ((w.l1_cursor + suc i) % slots_per_level) [] _
              (λ e. omega arith)
            ∙ update-other w.l1_cursor ((w.l1_cursor + suc i) % slots_per_level) _ w.l1
                (λ e. omega arith))
    | no last ↦
        let j : ((w.l1_cursor + 1) % slots_per_level + i) % slots_per_level ≡ w.l1_cursor =
          omega arith in
        rw (le→ltb (suc i) slots_per_level (omega arith), j) (update-same w.l1_cursor [] _)
  ]

-- Whether an event is in a list.
unfoldable pub has : ℕ → List ℕ → Bool
has e [] = false
has e (f ∷ es) = (e == f) || has e es

pub has-append : (e : ℕ) (es fs : List ℕ) → has e (es ++ fs) ≡ (has e es || has e fs)
unfolding has
has-append e [] fs = refl
has-append e (f ∷ es) fs = rw (has-append e es fs) (ground arith)

module _ (e : ℕ) where
  has-round :
      (w : TimingWheel) (i : ℕ)
      → w.l1_cursor < slots_per_level
      → i < slots_per_level
      → has e (live (round w).events (at (round w) i))
        ≡ (if ltb (suc i) slots_per_level then has e (live w.events (at w (suc i))) else false)
  unfolding has live
  has-round w i c b =
      rw (at-round w c i b, events-round w c)
        (elim (dec_lt (suc i) slots_per_level) [
          | yes more ↦ rw (lt→ltb (suc i) slots_per_level more) refl
          | no last ↦ rw (le→ltb (suc i) slots_per_level (omega arith)) refl
        ])

  -- An event that is in no slot is not collected.
  pub has-advance_none :
      (k : ℕ) (w : TimingWheel)
      → w.l1_cursor < slots_per_level
      → ((i : ℕ) → i < slots_per_level → has e (live w.events (at w i)) ≡ false)
      → has e (advance k w).0 ≡ false
  unfolding advance has
  has-advance_none zero w c h = refl
  has-advance_none (suc k) w c h =
      rw
        (
          has-append e (collect_expired w).0 (advance k (round w)).0,
          out-round w c,
          h 0 (omega arith),
        )
        (has-advance_none k (round w) (cursor-round w c) λ i b.
          has-round w i c b ∙ elim (dec_lt (suc i) slots_per_level) [
            | yes more ↦ rw (lt→ltb (suc i) slots_per_level more) (h (suc i) more)
            | no last ↦ rw (le→ltb (suc i) slots_per_level (omega arith)) refl
          ])

  -- An event whose only slot is `d` ticks away is collected by more than `d` ticks, by no fewer.
  pub has-advance :
      (k : ℕ) (w : TimingWheel) (d : ℕ)
      → w.l1_cursor < slots_per_level
      → d < slots_per_level
      → ((i : ℕ) → i < slots_per_level → has e (live w.events (at w i)) ≡ (i == d))
      → has e (advance k w).0 ≡ ltb d k
  unfolding advance has
  has-advance zero w d c b h = ground arith
  has-advance (suc k) w zero c b h =
      rw
        (
          has-append e (collect_expired w).0 (advance k (round w)).0,
          out-round w c,
          h 0 (omega arith),
        )
        (ground arith)
  has-advance (suc k) w (suc d) c b h =
      rw
        (
          has-append e (collect_expired w).0 (advance k (round w)).0,
          out-round w c,
          h 0 (omega arith),
        )
        (ap (λ o. (0 == suc d) || o)
            (has-advance k (round w) d (cursor-round w c) (omega arith) (λ i b'.
              has-round w i c b' ∙ elim (dec_lt (suc i) slots_per_level) [
                | yes more ↦ rw (lt→ltb (suc i) slots_per_level more, h (suc i) more) (ground arith)
                | no last ↦ rw (le→ltb (suc i) slots_per_level (omega arith)) (ground arith)
              ]))
          ∙ ground arith)

-- The ticks change neither the overflow map nor the events.
pub overflow-advance : (k : ℕ) (w : TimingWheel) → (advance k w).1.overflow ≡ w.overflow
unfolding advance tick_l1 collect_expired
overflow-advance zero w = refl
overflow-advance (suc k) w = overflow-advance k (round w)

pub events-advance : (k : ℕ) (w : TimingWheel) → (advance k w).1.events ≡ w.events
unfolding advance tick_l1 collect_expired
events-advance zero w = refl
events-advance (suc k) w = events-advance k (round w)
