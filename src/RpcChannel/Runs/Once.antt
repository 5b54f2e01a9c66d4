-- ===== src/RpcChannel/Runs/Once.antt =====
-- A call is completed once, by one thread, and is then left alone.
use rocket_rpc.Common.{
  ℕ, ◌≡◌, refl, sym, ap, subst, ◌∙◌, Bool, true, false, Option, none, List, if◌then◌else◌,
}
use rocket_rpc.RpcController.{RpcController, set_msg_id}
use rocket_rpc.TcpClient.{TcpClient}
use rocket_rpc.TcpClient.Reads.{waiting}
use rocket_rpc.RpcChannel.{
  RequestState, Call, Caller, looking, registering, looking_again, withdrawing, sending, returned,
  Outcome, answer, begin, is_empty, complete, advance, look, register, look_again, withdraw, send,
}
use rocket_rpc.RpcChannel.Kept.{complete-Same, complete-runs}
use rocket_rpc.RpcChannel.Runs.{
  Phase, running, claimed, cleaned, completed, System, won, enter, take, Step, goes_on, attempts,
  cleans, finishes, takes, delivers, other_calls, stops, start, Reach,
}
use rocket_rpc.RpcChannel.Runs.Inv.{Reach-Inv, request_in, ended, must_be_over, claim-finished}

module _ (parse : List ℕ → Option (List ℕ)) (own : ℕ) where
  claimed≢completed : (q o : Outcome) → claimed q ≡ completed o → ⊥
  claimed≢completed q o e = cc

  cleaned≢completed : (q o : Outcome) → cleaned q ≡ completed o → ⊥
  cleaned≢completed q o e = cc

  advance-request : (c : Call) (k : Caller) → (advance own c k).request ≡ c.request
  unfolding advance look register look_again withdraw send
  advance-request c looking = refl
  advance-request c registering = refl
  advance-request c looking_again = refl
  advance-request c withdrawing = refl
  advance-request c sending = refl
  advance-request c returned = refl

  enter-finished :
      (o : Outcome) (s : System)
      → s.call.request.finished ≡ true
      → (enter o s).call.request ≡ s.call.request × ((enter o s).phase ≡ s.phase)
  unfolding enter won
  enter-finished o s h =
      let e = claim-finished s.call.request h in (ap (λ p. p.1) e, ap (λ p. won o p.0 s.phase) e)

  complete-finished :
      (o : Outcome) (r : RequestState) → r.finished ≡ true → (complete parse o r).finished ≡ true
  complete-finished o r h = (complete-Same parse o r).0 ∙ h

module _ (parse : List ℕ → Option (List ℕ)) (own : ℕ) (c₀ : RpcController) (m₀ : List ℕ)
    (has_done : Bool) (id : List ℕ) (client₀ : TcpClient) (is_id : is_empty id ≡ false)
    (free : waiting client₀ id ≡ none) where
  -- What the caller's objects and the closure have seen, by how far the completion is.
  unfoldable pub Settled : Phase → RequestState → Type 0
  Settled running r = (r.runs ≡ 0) × (r.controller ≡ set_msg_id id c₀) × (r.response ≡ m₀)
  Settled (claimed o) r = (r.runs ≡ 0) × (r.controller ≡ set_msg_id id c₀) × (r.response ≡ m₀)
  Settled (cleaned o) r = (r.runs ≡ 0) × (r.controller ≡ set_msg_id id c₀) × (r.response ≡ m₀)
  Settled (completed o) r =
      (r.runs ≡ (if has_done then 1 else 0))
      × (r ≡ complete parse o (ended parse own c₀ m₀ has_done id client₀ is_id))

  settled : (p : Phase) → Settled p (request_in parse own c₀ m₀ has_done id client₀ is_id p)
  unfolding Settled request_in start begin
  settled running = (refl, refl, refl)
  settled (claimed o) = (refl, refl, refl)
  settled (cleaned o) = (refl, refl, refl)
  settled (completed o) =
      (complete-runs parse o (ended parse own c₀ m₀ has_done id client₀ is_id), refl)

  -- In every interleaving, whatever the number of threads that try to complete the call: until the
  -- winner's last step the closure has not run and the controller and the response message are as
  -- the caller gave them; after it the closure has run exactly once, and exactly the winner's
  -- outcome has been written.
  pub completed_once :
      {s : System}
      → Reach parse own (start c₀ m₀ has_done id client₀) s
      → Settled s.phase s.call.request
  completed_once {s} r =
      let inv = Reach-Inv parse own c₀ m₀ has_done id client₀ is_id free r in
      subst (Settled s.phase) (sym inv.request) (settled s.phase)

  -- When the call is completed and `doSendRead` has returned, in whatever order they ran, no callback
  -- for the response is left with the client.
  pub no_callback_left :
      {s : System} (o : Outcome)
      → Reach parse own (start c₀ m₀ has_done id client₀) s
      → s.phase ≡ completed o
      → s.call.caller ≡ returned
      → waiting s.call.client id ≡ none
  unfolding must_be_over
  no_callback_left o r p c =
      let inv = Reach-Inv parse own c₀ m₀ has_done id client₀ is_id free r in
      inv.over (rw (c, p) refl)

  finished : (o : Outcome) (r : RequestState) → Settled (completed o) r → r.finished ≡ true
  unfolding Settled
  finished o r h =
      ap (λ k. k.finished) h.1
      ∙ complete-finished parse own o (ended parse own c₀ m₀ has_done id client₀ is_id) refl

  frozen :
      {s t : System}
      → s.call.request.finished ≡ true
      → Step parse own s t
      → (o : Outcome) → s.phase ≡ completed o
      → (t.call.request ≡ s.call.request) × (t.phase ≡ completed o)
  unfolding take
  frozen {s} f goes_on o p = (advance-request parse own s.call s.call.caller, p)
  frozen {s} f (attempts q) o p = let (r, k) = enter-finished parse own q s f in (r, k ∙ p)
  frozen f (cleans q e) o p = absurd (claimed≢completed parse own q o (sym e ∙ p))
  frozen f (finishes q e) o p = absurd (cleaned≢completed parse own q o (sym e ∙ p))
  frozen f (takes r _ _) o p = (refl, p)
  frozen {s} f (delivers r _) o p =
      let (q, k) = enter-finished parse own (answer r) s f in (q, k ∙ p)
  frozen f (other_calls client _) o p = (refl, p)
  frozen f (stops client _) o p = (refl, p)

  -- Once the call is completed, no step of any thread writes to the controller, to the response
  -- message or to any other part of the request, and the closure does not run again.
  pub completed-stable :
      {s t : System} (o : Outcome)
      → Reach parse own (start c₀ m₀ has_done id client₀) s
      → s.phase ≡ completed o
      → Step parse own s t
      → (t.call.request ≡ s.call.request) × (t.phase ≡ completed o)
  completed-stable {s} o r p st =
      let done : Settled (completed o) s.call.request =
        subst (λ k. Settled k s.call.request) p (completed_once r) in
      frozen (finished o s.call.request done) st o p
