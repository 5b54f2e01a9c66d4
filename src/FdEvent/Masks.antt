-- ===== src/FdEvent/Masks.antt =====
-- The mask that a poller is given, and the callbacks.
use rocket_rpc.Common.{ℕ, ◌+◌, ◌≡◌, ◌≢◌, refl, Option, none, some}
use rocket_rpc.FdEvent.{
  FdEvent, TriggerEvent, in_event, out_event, error_event, to_mask, handler, listen, cancel, is_set,
  is_listening, mask_of, listen_mask, has_event,
}

masks :
    (r w e : Option ℕ) (t : TriggerEvent)
    → has_event (mask_of r in_event + mask_of w out_event + mask_of e error_event) t
      ≡ is_listening t (record { read_callback = r; write_callback = w; error_callback = e })
unfolding has_event is_listening mask_of is_set to_mask
masks none none none in_event = refl
masks none none none out_event = refl
masks none none none error_event = refl
masks none none (some c) in_event = refl
masks none none (some c) out_event = refl
masks none none (some c) error_event = refl
masks none (some b) none in_event = refl
masks none (some b) none out_event = refl
masks none (some b) none error_event = refl
masks none (some b) (some c) in_event = refl
masks none (some b) (some c) out_event = refl
masks none (some b) (some c) error_event = refl
masks (some a) none none in_event = refl
masks (some a) none none out_event = refl
masks (some a) none none error_event = refl
masks (some a) none (some c) in_event = refl
masks (some a) none (some c) out_event = refl
masks (some a) none (some c) error_event = refl
masks (some a) (some b) none in_event = refl
masks (some a) (some b) none out_event = refl
masks (some a) (some b) none error_event = refl
masks (some a) (some b) (some c) in_event = refl
masks (some a) (some b) (some c) out_event = refl
masks (some a) (some b) (some c) error_event = refl

apart :
    (f : FdEvent) (t other : TriggerEvent) (callback : Option ℕ)
    → t ≢ other
    → (handler (listen t callback f) other ≡ handler f other)
      × (handler (cancel t f) other ≡ handler f other)
unfolding handler listen cancel
apart f in_event in_event callback ne = absurd (ne refl)
apart f in_event out_event callback ne = (refl, refl)
apart f in_event error_event callback ne = (refl, refl)
apart f out_event in_event callback ne = (refl, refl)
apart f out_event out_event callback ne = absurd (ne refl)
apart f out_event error_event callback ne = (refl, refl)
apart f error_event in_event callback ne = (refl, refl)
apart f error_event out_event callback ne = (refl, refl)
apart f error_event error_event callback ne = absurd (ne refl)

its_own :
    (f : FdEvent) (t : TriggerEvent) (callback : Option ℕ)
    → (handler (listen t callback f) t ≡ callback) × (handler (cancel t f) t ≡ none)
unfolding handler listen cancel
its_own f in_event callback = (refl, refl)
its_own f out_event callback = (refl, refl)
its_own f error_event callback = (refl, refl)

-- The mask has the bit of an event exactly when a callback is set for it; setting a callback for one
-- event, or cancelling it, shows in that event's handler and in no other's.
pub listen_mask_lem :
    (f : FdEvent) (t other : TriggerEvent) (callback : Option ℕ)
    → t ≢ other
    → (has_event (listen_mask f) t ≡ is_listening t f)
      × (handler (listen t callback f) t ≡ callback)
      × (handler (listen t callback f) other ≡ handler f other)
      × (handler (cancel t f) t ≡ none)
      × (handler (cancel t f) other ≡ handler f other)
unfolding listen_mask
listen_mask_lem f t other callback ne =
    let (own_listen, own_cancel) = its_own f t callback in
    let (other_listen, other_cancel) = apart f t other callback ne in
    (
      masks f.read_callback f.write_callback f.error_callback t,
      own_listen,
      other_listen,
      own_cancel,
      other_cancel,
    )
