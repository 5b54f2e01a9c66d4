-- ===== src/RpcChannel/Runs/Inv.antt =====
-- What holds in every interleaving of a call: the state of the request follows from how far the
-- completion is, and when the callback for the response can still be registered.
use rocket_rpc.Common.{
  ℕ, ◌≡◌, refl, sym, ap, ap₂, subst, ◌∙◌, Bool, true, false, not, ◌&&◌, Option, none, List,
  if◌then◌else◌,
}
use mathlib.Core.Bool.{false≢true}
use rocket_rpc.RpcController.{RpcController, set_msg_id}
use rocket_rpc.TcpClient.{TcpClient, cancel_read, take_callback}
use rocket_rpc.TcpClient.Reads.{waiting, waiting-cancel_read, waiting-take_callback}
use rocket_rpc.RpcChannel.{
  RequestState, Caller, looking, registering, looking_again, withdrawing, sending, returned,
  Response, Outcome, answer, begin, claim, clean, is_empty, complete, advance, look, register,
  look_again, withdraw, send,
}
use rocket_rpc.RpcChannel.Runs.{
  Phase, running, claimed, cleaned, completed, System, won, enter, clean_up, take, finish, Step,
  goes_on, attempts, cleans, finishes, takes, delivers, other_calls, stops, start, Reach, here,
  later,
}
use rocket_rpc.RpcChannel.Kept.{complete-Same}

-- Whether the wait for the response must be over, by where the caller and the completion are.
unfoldable pub must_be_over : Caller → Phase → Bool
must_be_over looking p = true
must_be_over registering p = true
must_be_over looking_again p = false
must_be_over withdrawing p = false
must_be_over sending running = false
must_be_over sending (claimed o) = false
must_be_over sending (cleaned o) = true
must_be_over sending (completed o) = true
must_be_over returned running = false
must_be_over returned (claimed o) = false
must_be_over returned (cleaned o) = true
must_be_over returned (completed o) = true

over-won :
    (c : Caller) (o : Outcome) (b : Bool) (p : Phase)
    → must_be_over c (won o b p) ≡ true
    → must_be_over c p ≡ true
unfolding won must_be_over
over-won c o false p h = h
over-won looking o true p h = refl
over-won registering o true p h = refl
over-won looking_again o true p h = h
over-won withdrawing o true p h = h
over-won sending o true p h = absurd (false≢true h)
over-won returned o true p h = absurd (false≢true h)

over-returned : (p : Phase) → must_be_over returned p ≡ must_be_over sending p
unfolding must_be_over
over-returned running = refl
over-returned (claimed o) = refl
over-returned (cleaned o) = refl
over-returned (completed o) = refl

over-completed :
    (c : Caller) (o : Outcome) → must_be_over c (completed o) ≡ must_be_over c (cleaned o)
unfolding must_be_over
over-completed looking o = refl
over-completed registering o = refl
over-completed looking_again o = refl
over-completed withdrawing o = refl
over-completed sending o = refl
over-completed returned o = refl

pub claim-finished : (r : RequestState) → r.finished ≡ true → claim r ≡ (false, r)
unfolding claim
claim-finished r h = ap (λ b. if b then (false, r) else (true, record r { finished = true })) h

module _ (parse : List ℕ → Option (List ℕ)) (own : ℕ) (c₀ : RpcController) (m₀ : List ℕ)
    (has_done : Bool) (id : List ℕ) (client₀ : TcpClient) (is_id : is_empty id ≡ false) where
  abbrev pub r₀ : RequestState
  r₀ = (start c₀ m₀ has_done id client₀).call.request

  abbrev pub ended : RequestState
  ended = record r₀ { finished = true; has_timer = false }

  -- The request, by how far its completion is.
  unfoldable pub request_in : Phase → RequestState
  request_in running = r₀
  request_in (claimed o) = record r₀ { finished = true }
  request_in (cleaned o) = ended
  request_in (completed o) = complete parse o ended

  pub record Inv (s : System) : Type 0 where
    pub request : s.call.request ≡ request_in s.phase
    pub over : must_be_over s.call.caller s.phase ≡ true → waiting s.call.client id ≡ none

  id-request_in : (p : Phase) → (request_in p).msg_id ≡ id
  unfolding request_in start begin set_msg_id
  id-request_in running = refl
  id-request_in (claimed o) = refl
  id-request_in (cleaned o) = refl
  id-request_in (completed o) = (complete-Same parse o ended).3

  claim-request_in :
      (p : Phase) (o : Outcome)
      → (claim (request_in p)).1 ≡ request_in (won o (claim (request_in p)).0 p)
  unfolding request_in won start begin
  claim-request_in running o = unfold claim in refl
  claim-request_in (claimed q) o = unfold claim in refl
  claim-request_in (cleaned q) o = unfold claim in refl
  claim-request_in (completed q) o =
      rw (claim-finished (complete parse q ended) ((complete-Same parse q ended).0)) refl

  -- A request that nobody has finished yet is still running.
  finished-request_in :
      (p : Phase) → (request_in p).finished ≡ false → must_be_over sending p ≡ true → ⊥
  unfolding request_in start begin must_be_over
  finished-request_in running h o = false≢true o
  finished-request_in (claimed q) h o = false≢true o
  finished-request_in (cleaned q) h o = false≢true (sym h)
  finished-request_in (completed q) h o = false≢true (sym h ∙ (complete-Same parse q ended).0)

  enter-Inv : (o : Outcome) (s : System) → Inv s → Inv (enter o s)
  unfolding enter
  enter-Inv o s inv = record {
    request =
        subst (λ r. (claim r).1 ≡ request_in (won o (claim r).0 s.phase)) (sym inv.request)
          (claim-request_in s.phase o);
    over = λ h. inv.over (over-won s.call.caller o (claim s.call.request).0 s.phase h);
  }

  id-Inv : (s : System) → Inv s → s.call.request.msg_id ≡ id
  id-Inv s inv = ap (λ r. r.msg_id) inv.request ∙ id-request_in s.phase

  cancelled :
      (s : System) → Inv s → waiting (cancel_read s.call.client s.call.request.msg_id) id ≡ none
  cancelled s inv =
      subst (λ k. waiting (cancel_read s.call.client k) id ≡ none) (sym (id-Inv s inv))
        (waiting-cancel_read s.call.client id)

  go-Inv :
      (s : System) (c : Caller)
      → s.call.caller ≡ c
      → Inv s
      → Inv (record s { call = advance own s.call c })
  unfolding advance look register look_again withdraw send must_be_over
  go-Inv s looking e inv = record { request = inv.request; over = λ h. inv.over (rw e refl) }
  go-Inv s registering e inv = record { request = inv.request; over = λ h. absurd (false≢true h) }
  go-Inv s looking_again e inv = record {
    request = inv.request;
    over = again s.call.request.finished refl;
  }
    where
      again :
          (b : Bool)
          → s.call.request.finished ≡ b
          → must_be_over (if b then withdrawing else sending) s.phase ≡ true
          → waiting s.call.client id ≡ none
      again true f h = absurd (false≢true h)
      again false f h =
          absurd (finished-request_in s.phase (ap (λ r. r.finished) (sym inv.request) ∙ f) h)
  go-Inv s withdrawing e inv = record { request = inv.request; over = λ h. cancelled s inv }
  go-Inv s sending e inv = record {
    request = inv.request;
    over = λ h. inv.over (rw e (sym (over-returned s.phase) ∙ h));
  }
  go-Inv s returned e inv = inv

  client-request_in : (p : Phase) → (request_in p).has_client ≡ true
  unfolding request_in start begin
  client-request_in running = refl
  client-request_in (claimed o) = refl
  client-request_in (cleaned o) = refl
  client-request_in (completed o) = (complete-Same parse o ended).2

  cleans_up :
      (s : System)
      → Inv s
      → (s.call.request.has_client && not (is_empty s.call.request.msg_id)) ≡ true
  cleans_up s inv =
      ap₂ (λ b k. b && not (is_empty k))
        (ap (λ r. r.has_client) inv.request ∙ client-request_in s.phase) (id-Inv s inv)
      ∙ rw is_id refl

  timer_off : RequestState → RequestState
  timer_off r = record r { has_timer = false }

  clean-Inv : (o : Outcome) (s : System) → s.phase ≡ claimed o → Inv s → Inv (clean_up o s)
  unfolding clean_up clean request_in timer_off
  clean-Inv o s p inv = record {
    request = ap timer_off (inv.request ∙ ap request_in p);
    over = λ h.
        subst
          (λ b.
            waiting (if b then cancel_read s.call.client s.call.request.msg_id else s.call.client)
              id
            ≡ none)
          (sym (cleans_up s inv)) (cancelled s inv);
  }

  take-Inv : (r : Option Response) (s : System) → Inv s → Inv (take r s)
  unfolding take
  take-Inv r s inv = record {
    request = inv.request;
    over = λ h.
        subst (λ k. waiting (take_callback s.call.client k).1 id ≡ none) (sym (id-Inv s inv))
          (waiting-take_callback s.call.client id);
  }

  finish-Inv : (o : Outcome) (s : System) → s.phase ≡ cleaned o → Inv s → Inv (finish parse own o s)
  unfolding finish request_in
  finish-Inv o s p inv = record {
    request = ap (complete parse o) (inv.request ∙ ap request_in p);
    over = λ h. inv.over (rw p (sym (over-completed s.call.caller o) ∙ h));
  }

  -- No step of any thread breaks the invariant.
  Step-Inv : {s t : System} → Step parse own s t → Inv s → Inv t
  Step-Inv {s} goes_on inv = go-Inv s s.call.caller refl inv
  Step-Inv {s} (attempts o) inv = enter-Inv o s inv
  Step-Inv {s} (cleans o p) inv = clean-Inv o s p inv
  Step-Inv {s} (finishes o p) inv = finish-Inv o s p inv
  Step-Inv {s} (takes r _ _) inv = take-Inv r s inv
  Step-Inv {s} (delivers r _) inv =
      let after : Inv (enter (answer r) s) = enter-Inv (answer r) s inv in
      record { request = after.request; over = after.over }
  Step-Inv {s} (other_calls client w) inv = record {
    request = inv.request;
    over =
        λ h. subst (λ k. waiting client k ≡ waiting s.call.client k) (id-Inv s inv) w ∙ inv.over h;
  }
  Step-Inv {s} (stops client w) inv = record {
    request = inv.request;
    over = λ h. subst (λ k. waiting client k ≡ none) (id-Inv s inv) w;
  }

  start-Inv : waiting client₀ id ≡ none → Inv (start c₀ m₀ has_done id client₀)
  unfolding request_in start
  start-Inv w = record { request = refl; over = λ h. w }

  pub Reach-Inv :
      {s : System}
      → waiting client₀ id ≡ none
      → Reach parse own (start c₀ m₀ has_done id client₀) s
      → Inv s
  Reach-Inv w here = start-Inv w
  Reach-Inv w (later r st) = Step-Inv st (Reach-Inv w r)
