-- ===== src/TimingWheel/Tests.antt =====
-- A wheel whose last tick was at 1000 ms, and one event.
use rocket_rpc.Common.{ℕ, ◌≡◌, refl, true, false, some, [], arith}
use rocket_rpc.TimingWheel.{
  TimerEvent, TimingWheel, add_event, advance, cancel, cancel_event, collect, collect_expired,
  create_event, delay_of, drain, entries, erase, fire_all, fire_expired, fire_one, first_full,
  insert, live, ms_until_next_expire, next_tick_ms, pending_count, repeat, reset_arrive_time,
  run_callback, schedule, set_event, slot_count, slot_wait, start_clock, tick_l1, ticks_of,
  until_next_tick, update, wheel_wait, with_overflow,
}
use rocket_rpc.TimingWheel.Slots.{at, has}
use rocket_rpc.TimingWheel.Due.{IsFresh, on_time_lem, not_early_lem, stale_lem}
use rocket_rpc.TimingWheel.Wait.{Due, wake_lem}

abbrev timer : ℕ → ℕ → TimerEvent
timer arrive interval = record {
  arrive_time = arrive;
  interval = interval;
  is_repeated = false;
  is_cancelled = false;
  has_callback = true;
}

-- The clock shows `now`, and event 7 is due at `due`.
abbrev wheel : ℕ → ℕ → TimingWheel
wheel now due = record {
  l1 = λ i. [];
  overflow = [];
  l1_cursor = 250;
  last_tick_ms = 1000;
  events = λ e. timer due 0;
  now = now;
}

wheel-IsFresh : (now due : ℕ) → IsFresh (wheel now due) 7
unfolding has at
wheel-IsFresh now due = record {
  cursor = omega arith;
  started = refl;
  active = refl;
  no_slot = λ i b. refl;
  no_entry = refl;
}

on_time_lem_example : has 7 (collect (add_event (wheel 1005 1100) (some 7)) 1110).0 ≡ true
unfolding delay_of
on_time_lem_example =
    on_time_lem (wheel 1005 1100) 7 (wheel-IsFresh 1005 1100) 1110 (omega arith) (omega arith)
      (omega arith)

not_early_lem_example : has 7 (collect (add_event (wheel 1005 1100) (some 7)) 1090).0 ≡ false
unfolding delay_of
not_early_lem_example =
    not_early_lem (wheel 1005 1100) 7 (wheel-IsFresh 1005 1100) 1090 (omega arith) (omega arith)
      (omega arith) (omega arith)

-- An event that is due two seconds later.
stale_lem_example : has 7 (collect (add_event (wheel 4000 6000) (some 7)) 4000).0 ≡ true
unfolding delay_of
stale_lem_example =
    stale_lem (wheel 4000 6000) 7 (wheel-IsFresh 4000 6000) (omega arith) (omega arith)

wake_lem_example : Due (add_event (wheel 1005 9000) (some 7)) 9000
unfolding update insert delay_of schedule start_clock add_event first_full slot_wait wheel_wait
    with_overflow until_next_tick ms_until_next_expire
wake_lem_example = wake_lem (add_event (wheel 1005 9000) (some 7)) 7995 refl (omega arith) refl

create_run :
    (create_event 7 50 true true (wheel 1005 0)).events 7
    ≡ record (timer 1055 50) { is_repeated = true }
unfolding update set_event reset_arrive_time create_event
create_run = refl

cancel_run : pending_count (cancel_event (add_event (wheel 1005 9000) (some 7)) (some 7)) ≡ 0
unfolding cancel_event cancel erase set_event update insert delay_of schedule start_clock add_event
    slot_count entries pending_count
cancel_run = refl

-- A repeated event goes back into the wheel.
fire_run :
    pending_count (
      fire_expired
        (λ e w. w)
        (add_event (create_event 7 50 true true (wheel 1005 0)) (some 7))
        1070)
    ≡ 1
unfolding update insert delay_of schedule start_clock add_event set_event reset_arrive_time
    create_event live collect_expired tick_l1 advance drain ticks_of next_tick_ms collect
    run_callback repeat fire_one fire_all fire_expired slot_count entries pending_count
fire_run = refl
