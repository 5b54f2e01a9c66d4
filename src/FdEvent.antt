-- ===== src/FdEvent.antt =====
-- src/rocket/net/fd_event.{h,cc}: the callbacks of a descriptor. A callback is a number.
pub mod Masks
use rocket_rpc.Common.{ℕ, ◌+◌, Bool, true, false, Option, none, some, ◌==◌, ◌/◌, ◌%◌}

pub data TriggerEvent : Type 0 where
  in_event out_event error_event : TriggerEvent

unfoldable pub to_mask : TriggerEvent → ℕ
to_mask in_event = 1
to_mask out_event = 2
to_mask error_event = 4

pub record FdEvent : Type 0 where
  pub read_callback : Option ℕ
  pub write_callback : Option ℕ
  pub error_callback : Option ℕ

unfoldable pub create : FdEvent
create = record { read_callback = none; write_callback = none; error_callback = none }

unfoldable pub handler : FdEvent → TriggerEvent → Option ℕ
handler e in_event = e.read_callback
handler e out_event = e.write_callback
handler e error_event = e.error_callback

unfoldable pub listen : TriggerEvent → Option ℕ → FdEvent → FdEvent
listen in_event callback e = record e { read_callback = callback }
listen out_event callback e = record e { write_callback = callback }
listen error_event callback e = record e { error_callback = callback }

pub cancel : TriggerEvent → FdEvent → FdEvent
cancel in_event e = record e { read_callback = none }
cancel out_event e = record e { write_callback = none }
cancel error_event e = record e { error_callback = none }

-- Whether a callback is set.
pub is_set : Option ℕ → Bool
is_set none = false
is_set (some callback) = true

pub is_listening : TriggerEvent → FdEvent → Bool
is_listening in_event e = is_set e.read_callback
is_listening out_event e = is_set e.write_callback
is_listening error_event e = is_set e.error_callback

-- The bit of an event, if its callback is set.
pub mask_of : Option ℕ → TriggerEvent → ℕ
mask_of none event = 0
mask_of (some callback) event = to_mask event

-- The bits are different, so that `|=` is a sum.
pub listen_mask : FdEvent → ℕ
listen_mask e =
    mask_of e.read_callback in_event
    + mask_of e.write_callback out_event
    + mask_of e.error_callback error_event

-- `mask & toMask(event)`, for the lowest three bits.
unfoldable pub has_event : ℕ → TriggerEvent → Bool
has_event mask event = (mask / to_mask event) % 2 == 1

unfoldable pub clear_callbacks : FdEvent → FdEvent
clear_callbacks e = record { read_callback = none; write_callback = none; error_callback = none }
