-- ===== src/RpcChannel/Start/Ends.antt =====
-- How a call starts: it is over at once, or it waits with its timer set; and what `Init` hands over.
use rocket_rpc.Common.{
  ℕ, ◌≤◌, ◌≡◌, refl, ◌⊎◌, inl, inr, Bool, true, false, not, ◌&&◌, Option, none, some, List, [], ◌∷◌,
  arith, ◌==◌, if◌then◌else◌, codes, Bool-cases,
}
use rocket_rpc.RpcDispatcher.{failed_serialize}
use rocket_rpc.RpcController.{RpcController, set_error, set_msg_id}
use rocket_rpc.TcpClient.{TcpClient}
use rocket_rpc.RpcChannel.{
  RequestState, error, begin, claim, clean, complete, before_done, finish_rpc, finish_claimed,
  run_done, is_empty, rpc_channel_init, rpc_peer_addr, rpc_pool_exhausted,
}
use rocket_rpc.RpcChannel.Runs.{start}
use rocket_rpc.RpcChannel.Start.{
  RpcChannel, Chosen, refused, chosen, Started, invalid, ended, started, chosen_id, end, send_with,
  with_client, call_internal, Answers, choose_client, by_service_client, by_address_client, pin,
  cached, Captured, capture, Slot, init, empty_slot, same_object, legacy_matches, capture_closure,
}

-- The closure of a call, if it has one, has run once.
abbrev pub Once : Bool → ℕ → Type 0
Once has_done runs = runs ≡ (if has_done then 1 else 0)

-- An error is set: the code, and the mark.
abbrev pub Failed : ℕ → RpcController → Type 0
Failed code c = (c.error_code ≡ code) × (c.is_failed ≡ true)

-- A call that never gets a state: its closure has run, and the controller, if there is one, has an error.
abbrev pub IsInvalid : Bool → Option RpcController → ℕ → Type 0
IsInvalid has_done none runs = Once has_done runs
IsInvalid has_done (some c) runs = Once has_done runs × Failed rpc_channel_init c

-- A call that is over at once, with an error of the choice of a client or of the serialization.
abbrev pub IsEnded : Bool → ℕ → RequestState → Type 0
IsEnded has_done code r =
    (r.finished ≡ true) × Once has_done r.runs × Failed code r.controller × (r.has_timer ≡ false)

-- A call that waits: as at the start of its interleavings, with a timer of at least one millisecond.
abbrev pub IsStarted :
    RpcController → List ℕ → Bool → List ℕ → TcpClient → RequestState → ℕ → Type 0
IsStarted c response has_done new_id client r timeout =
    (r ≡ (start c response has_done (chosen_id new_id c.msg_id) client).call.request)
    × (is_empty r.msg_id ≡ false)
    × (1 ≤ timeout)

-- Whatever start the call makes.
pub Starts : Option RpcController → List ℕ → Bool → List ℕ → TcpClient → Started → Type 0
Starts c response has_done new_id client (invalid c' runs) = IsInvalid has_done c' runs
Starts c response has_done new_id client (ended r) =
    (code : ℕ) × ((code ≡ failed_serialize)
      ⊎ ((code ≡ rpc_pool_exhausted) ⊎ (code ≡ rpc_peer_addr)))
    × IsEnded has_done code r
Starts none response has_done new_id client (started r timeout request connects) = ⊥
Starts (some c) response has_done new_id client (started r timeout request connects) =
    IsStarted c response has_done new_id client r timeout

chosen_id-full :
    (new_id id : List ℕ) → is_empty new_id ≡ false → is_empty (chosen_id new_id id) ≡ false
unfolding chosen_id is_empty
chosen_id-full new_id [] h = h
chosen_id-full new_id (x ∷ id) h = refl

-- The codes with which the choice of a client fails.
pub IsRefusal : Chosen → Type 0
IsRefusal (chosen k) = 0 ≤ 0
IsRefusal (refused code info) = (code ≡ rpc_pool_exhausted) ⊎ (code ≡ rpc_peer_addr)

choose_client-IsRefusal : (a : Answers) (ch : RpcChannel) → IsRefusal (choose_client a ch).0
unfolding choose_client by_service_client by_address_client pin IsRefusal
choose_client-IsRefusal a ch =
    elim (Bool-cases (ch.has_pool && ch.has_registry && not (is_empty ch.service_name))) [
      | inl h ↦ rw h (by_service a.by_service)
      | inr h ↦ rw h (by_address ch.peer_addr)
    ]
  where
    by_service : (o : Option (ℕ × List ℕ)) → IsRefusal (by_service_client ch o).0
    by_service none = inl refl
    by_service (some (k, peer)) = omega arith

    pinned : (peer : List ℕ) (o p : Option ℕ) → IsRefusal (pin ch peer o p).0
    pinned peer (some k) p = omega arith
    pinned peer none (some k) = omega arith
    pinned peer none none = inl refl

    by_address : (o : Option (List ℕ)) → IsRefusal (by_address_client a ch o).0
    by_address none = inr refl
    by_address (some peer) =
        elim ch.has_pool
          as (λ b.
            IsRefusal
              (if b
                then pin ch peer (cached a.is_connected ch.client) a.acquired
                else (chosen a.made, record ch { client = some a.made })).0) [
                  | true ↦ pinned peer (cached a.is_connected ch.client) a.acquired
                  | false ↦ omega arith
                ]

module _ (parse : List ℕ → Option (List ℕ)) where
  end-error :
      (c : RpcController) (response : List ℕ) (has_done has_client : Bool) (client : TcpClient)
      (code : ℕ) (info : List ℕ)
      → IsEnded has_done code
          (finish_rpc parse
            (error code info)
            (record (begin c response has_done) { has_client = has_client })
            client).1.0
  unfolding finish_rpc finish_claimed claim clean complete before_done run_done begin set_error
  end-error c response true b client code info = (refl, refl, (refl, refl), refl)
  end-error c response false b client code info = (refl, refl, (refl, refl), refl)

  sends :
      (c : RpcController) (response : List ℕ) (has_done connects : Bool) (client : TcpClient)
      (new_id : List ℕ) (request : Option (List ℕ))
      → is_empty new_id ≡ false
      → Starts (some c) response has_done new_id client (
          send_with parse
            (set_msg_id (chosen_id new_id c.msg_id) c)
            (record (begin (set_msg_id (chosen_id new_id c.msg_id) c) response has_done) {
              has_client = true;
            })
            connects
            client
            request)
  unfolding send_with Starts end start begin set_msg_id
  sends c response has_done connects client new_id none h = (
    failed_serialize,
    inl refl,
    end-error (set_msg_id (chosen_id new_id c.msg_id) c) response has_done true client
        failed_serialize (codes "failed to serialize"),
  )
  sends c response has_done connects client new_id (some m) h =
      (refl, chosen_id-full new_id c.msg_id h, omega arith)

  starts :
      (c : Option RpcController) (valid : Bool) (response : List ℕ) (has_done has_pool : Bool)
      (client : TcpClient) (new_id : List ℕ) (request : Option (List ℕ)) (choice : Chosen)
      → is_empty new_id ≡ false
      → IsRefusal choice
      → Starts c response has_done new_id client
          (call_internal parse c valid response has_done has_pool client new_id request choice)
  unfolding call_internal with_client Starts end set_error IsRefusal begin
  starts none valid response has_done has_pool client new_id request choice full refusal = refl
  starts (some c) false response has_done has_pool client new_id request choice full refusal =
      (refl, (refl, refl))
  starts (some c) true response has_done has_pool client new_id request (chosen k) full refusal =
      sends c response has_done (not has_pool) client new_id request full
  starts (some c) true response has_done has_pool client new_id request (refused code info) full
        refusal =
      (code, inr refusal, end-error c response has_done false client code info)

  -- A call either never gets a state, or is over at once with one of the three errors of its start,
  -- and in both cases its closure, if it has one, has run exactly once; or it waits as in `start`,
  -- with a message id that is not empty and a timer of at least one millisecond.
  pub call_internal_lem :
      (c : Option RpcController) (valid : Bool) (response : List ℕ) (has_done has_pool : Bool)
      (client : TcpClient) (new_id : List ℕ) (request : Option (List ℕ)) (a : Answers)
      (ch : RpcChannel)
      → is_empty new_id ≡ false
      → Starts c response has_done new_id client (
          call_internal parse c valid response has_done has_pool client new_id request
            (choose_client a ch).0)
  call_internal_lem c valid response has_done has_pool client new_id request a ch full =
      starts c valid response has_done has_pool client new_id request (choose_client a ch).0 full
        (choose_client-IsRefusal a ch)

abbrev pub slot_of : ℕ → ℕ → ℕ → ℕ → Slot
slot_of controller request response closure = record {
  controller = some controller;
  request = some request;
  response = some response;
  closure = some closure;
}

abbrev pub nothing : Captured
nothing = record { done = none; closure_owner = none }

abbrev pub owned : ℕ → Captured
owned closure = record { done = some closure; closure_owner = some closure }

-- A channel whose hand-off has been taken.
abbrev pub emptied : RpcChannel → RpcChannel
emptied ch = record ch { slot = empty_slot; is_init = false }

-- `Init` hands its objects to the next call with the same controller, request and response: that call
-- runs and owns the closure of `Init`, where it brings none or the same, and leaves nothing to hand
-- over, so that a second call gets nothing. A call with another controller takes nothing and
-- leaves the objects for later.
pub capture-init :
    (ch : RpcChannel) (c r m closure other : ℕ)
    → (c == other) ≡ false
    → (capture (init (slot_of c r m closure) ch) c r m none ≡ (owned closure, emptied ch))
      × (capture (init (slot_of c r m closure) ch) c r m (some closure)
          ≡ (owned closure, emptied ch))
      × (capture (capture (init (slot_of c r m closure) ch) c r m none).1 c r m none
          ≡ (nothing, emptied ch))
      × (capture (init (slot_of c r m closure) ch) other r m none
          ≡ (nothing, init (slot_of c r m closure) ch))
unfolding capture init legacy_matches capture_closure same_object
capture-init ch c r m closure other h =
    let same_c : (c == c) ≡ true = ground arith in
    let same_r : (r == r) ≡ true = ground arith in
    let same_m : (m == m) ≡ true = ground arith in
    let same_k : (closure == closure) ≡ true = ground arith in
    (
      rw (same_c, same_r, same_m) refl,
      rw (same_c, same_r, same_m, same_k) refl,
      rw (same_c, same_r, same_m) refl,
      rw h refl,
    )
