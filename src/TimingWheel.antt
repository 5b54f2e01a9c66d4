-- ===== src/TimingWheel.antt =====
-- src/rocket/net/timing_wheel.{h,cc}, timer_event.{h,cc} and timer.cc: the timers of an event loop.
-- A time is a number of milliseconds on the steady clock: it is not negative, and below 2 ^ 63. An
-- event stands for a `TimerEvent` by its address; `events` is the store of these shared objects.
pub mod Slots
pub mod Due
pub mod Wait
pub mod Tests
use rocket_rpc.Common.{
  ℕ, zero, suc, ◌+◌, ◌-◌, ◌*◌, ◌/◌, ◌%◌, min, max, Bool, true, false, not, ◌&&◌, Option, none, some,
  List, [], ◌∷◌, ◌++◌, ltb, leb, ◌==◌, if◌then◌else◌, length,
}

pub record TimerEvent : Type 0 where
  pub arrive_time : ℕ
  pub interval : ℕ
  pub is_repeated : Bool
  pub is_cancelled : Bool
  pub has_callback : Bool

abbrev pub tick_ms : ℕ
tick_ms = 10

abbrev pub slots_per_level : ℕ
slots_per_level = 256

abbrev pub l1_range : ℕ
l1_range = slots_per_level * tick_ms

-- `m_l1` by its index, `m_overflow` in the order of its keys, and the objects outside the wheel:
-- the events, and what the clock shows.
pub record TimingWheel : Type 0 where
  pub l1 : ℕ → List ℕ
  pub overflow : List (ℕ × ℕ)
  pub l1_cursor : ℕ
  pub last_tick_ms : ℕ
  pub events : ℕ → TimerEvent
  pub now : ℕ

-- A change of one place of an array, or of one object of the store.
pub update {ℓ} : {A : Type ℓ} → ℕ → A → (ℕ → A) → ℕ → A
update i a f j = if j == i then a else f j

pub set_event : ℕ → TimerEvent → TimingWheel → TimingWheel
set_event e t w = record w { events = update e t w.events }

-- `std::multimap::insert`: behind the entries with the same key.
pub insert : ℕ → ℕ → List (ℕ × ℕ) → List (ℕ × ℕ)
insert k e [] = (k, e) ∷ []
insert k e ((j, f) ∷ m) = if ltb k j then (k, e) ∷ (j, f) ∷ m else (j, f) ∷ insert k e m

-- The erasure of the first entry of the range of a key that holds the event.
pub erase : ℕ → ℕ → List (ℕ × ℕ) → List (ℕ × ℕ)
erase k e [] = []
erase k e ((j, f) ∷ m) = if (j == k) && (f == e) then m else (j, f) ∷ erase k e m

-- An event whose time has come counts as one of the next tick; `now + delay` is its arrival.
pub delay_of : TimingWheel → ℕ → ℕ
delay_of w e =
    let arrival = (w.events e).arrive_time in if leb arrival w.now then tick_ms else arrival - w.now

pub schedule : TimingWheel → ℕ → TimingWheel
schedule w e =
    let delay = delay_of w e in
    if leb delay l1_range
    then (let idx = (w.l1_cursor + (delay - 1) / tick_ms) % slots_per_level in
        record w { l1 = update idx (w.l1 idx ++ e ∷ []) w.l1 })
    else record w { overflow = insert (w.now + delay) e w.overflow }

-- The first use initialises the clock of the wheel.
pub start_clock : TimingWheel → TimingWheel
start_clock w = record w { last_tick_ms = if w.last_tick_ms == 0 then w.now else w.last_tick_ms }

-- `none` is a null pointer, here and in `cancel_event`.
pub add_event : TimingWheel → Option ℕ → TimingWheel
add_event w none = w
add_event w (some e) = if (w.events e).is_cancelled then w else schedule (start_clock w) e

pub cancel : ℕ → TimingWheel → TimingWheel
cancel e w = set_event e (record (w.events e) { is_cancelled = true }) w

pub cancel_event : TimingWheel → Option ℕ → TimingWheel
cancel_event w none = w
cancel_event w (some e) = record (cancel e w) {
  overflow = erase (w.events e).arrive_time e w.overflow;
}

pub reset_arrive_time : ℕ → TimingWheel → TimingWheel
reset_arrive_time e w =
    set_event e (record (w.events e) { arrive_time = w.now + (w.events e).interval }) w

-- The constructor of `TimerEvent`, at the address `e`.
pub create_event : ℕ → ℕ → Bool → Bool → TimingWheel → TimingWheel
create_event e interval repeated callback w = reset_arrive_time e (
    set_event e
      (record {
        arrive_time = 0;
        interval = interval;
        is_repeated = repeated;
        is_cancelled = false;
        has_callback = callback;
      })
      w)

is_live : (ℕ → TimerEvent) → ℕ → Bool
is_live events e = not (events e).is_cancelled

-- The events of a slot that are not cancelled.
pub live : (ℕ → TimerEvent) → List ℕ → List ℕ
live events [] = []
live events (e ∷ es) = if (events e).is_cancelled then live events es else e ∷ live events es

-- The scan of the 256 slots from the cursor on: how many empty slots come first, if any is full.
pub first_full : TimingWheel → ℕ → ℕ → Option ℕ
first_full w i zero = none
first_full w i (suc n) =
    let rest = first_full w (suc i) n in
    if length (w.l1 ((w.l1_cursor + i) % slots_per_level)) == 0 then rest else some i

until_next_tick : TimingWheel → ℕ
until_next_tick w =
    let elapsed = if w.last_tick_ms == 0 then 0 else w.now - w.last_tick_ms in
    max 1 (tick_ms - min elapsed tick_ms)

slot_wait : TimingWheel → Option ℕ → Option ℕ
slot_wait w none = none
slot_wait w (some i) = some (until_next_tick w + i * tick_ms)

wheel_wait : TimingWheel → Option ℕ
wheel_wait w = slot_wait w (first_full w 0 slots_per_level)

-- The wait for the slots against that for the first entry of the overflow map.
with_overflow : ℕ → List (ℕ × ℕ) → Option ℕ → Option ℕ
with_overflow now [] next = next
with_overflow now ((earliest, e) ∷ m) none = some (earliest - now)
with_overflow now ((earliest, e) ∷ m) (some next) = some (min next (earliest - now))

pub ms_until_next_expire : TimingWheel → Option ℕ
ms_until_next_expire w = with_overflow w.now w.overflow (wheel_wait w)

-- What is added to `out`, and the slot without cancelled events.
pub collect_expired : TimingWheel → List ℕ × TimingWheel
collect_expired w = (
  live w.events (w.l1 w.l1_cursor),
  record w { l1 = update w.l1_cursor (live w.events (w.l1 w.l1_cursor)) w.l1 },
)

pub tick_l1 : TimingWheel → TimingWheel
tick_l1 w = record w {
  l1 = update w.l1_cursor [] w.l1;
  l1_cursor = (w.l1_cursor + 1) % slots_per_level;
}

-- The loop over the ticks that have passed.
pub advance : ℕ → TimingWheel → List ℕ × TimingWheel
advance zero w = ([], w)
advance (suc ticks) w =
    let (out, w₁) = collect_expired w in
    let (more, w₂) = advance ticks (tick_l1 w₁) in (out ++ more, w₂)

-- The loop over the entries at the front of the overflow map whose time has come.
pub drain : (ℕ → TimerEvent) → ℕ → List (ℕ × ℕ) → List ℕ × List (ℕ × ℕ)
drain events now_ms [] = ([], [])
drain events now_ms ((k, e) ∷ m) =
    let (out, rest) = drain events now_ms m in
    if leb k now_ms then (live events (e ∷ []) ++ out, rest) else ([], (k, e) ∷ m)

-- How many ticks are run, and the new time of the last tick.
pub ticks_of : TimingWheel → ℕ → ℕ
ticks_of w now_ms = min ((now_ms - w.last_tick_ms) / tick_ms) slots_per_level

pub next_tick_ms : TimingWheel → ℕ → ℕ
next_tick_ms w now_ms =
    let ticks = (now_ms - w.last_tick_ms) / tick_ms in
    if ltb slots_per_level ticks then now_ms else w.last_tick_ms + ticks * tick_ms

-- The part of `fireExpired` under the lock: the events to fire.
pub collect : TimingWheel → ℕ → List ℕ × TimingWheel
collect w now_ms =
    if w.last_tick_ms == 0
    then ([], record w { last_tick_ms = now_ms })
    else let (expired, w₁) =
        advance (ticks_of w now_ms) (record w { last_tick_ms = next_tick_ms w now_ms }) in
      let (late, rest) = drain w₁.events now_ms w₁.overflow in
      (expired ++ late, record w₁ { overflow = rest })

-- The callbacks are code of the callers: a change of the state, at their own time.
module _ (callback : ℕ → TimingWheel → TimingWheel) where
  run_callback : ℕ → TimingWheel → TimingWheel
  run_callback e w = if (w.events e).has_callback then callback e w else w

  repeat : ℕ → TimingWheel → TimingWheel
  repeat e w =
      if (w.events e).is_repeated && not (w.events e).is_cancelled
      then add_event (reset_arrive_time e w) (some e)
      else w

  fire_one : ℕ → TimingWheel → TimingWheel
  fire_one e w = if (w.events e).is_cancelled then w else repeat e (run_callback e w)

  fire_all : List ℕ → TimingWheel → TimingWheel
  fire_all [] w = w
  fire_all (e ∷ es) w = fire_all es (fire_one e w)

  pub fire_expired : TimingWheel → ℕ → TimingWheel
  fire_expired w now_ms = let (expired, w₁) = collect w now_ms in fire_all expired w₁

slot_count : TimingWheel → ℕ → ℕ
slot_count w zero = 0
slot_count w (suc n) = length (w.l1 n) + slot_count w n

pub entries : List (ℕ × ℕ) → ℕ
entries [] = 0
entries (x ∷ m) = suc (entries m)

pub pending_count : TimingWheel → ℕ
pending_count w = entries w.overflow + slot_count w slots_per_level
