-- ===== src/RpcChannel/Runs/Blocking.antt =====
-- `CallMethodBlocking`: the caller waits for its own closure, for a time, and then completes the call
-- itself or waits for the thread that has won it.
use rocket_rpc.Common.{
  ℕ, ◌<◌, ◌≡◌, refl, subst, Bool, true, false, Option, none, some, List, arith, if◌then◌else◌,
}
use rocket_rpc.RpcController.{RpcController}
use rocket_rpc.TcpClient.{TcpClient}
use rocket_rpc.TcpClient.Reads.{waiting}
use rocket_rpc.RpcChannel.{RequestState, Outcome, cancel, is_empty}
use rocket_rpc.RpcChannel.Runs.{
  Phase, running, claimed, cleaned, completed, System, enter, Step, attempts, start, Reach, here,
  later,
}
use rocket_rpc.RpcChannel.Runs.Once.{Settled, completed_once, completed-stable}

-- Where the blocked caller is: waiting for a time, in its own `finishRpc` that has won, waiting for
-- the winner, or back, with `local_timeout`.
pub data Blocked : Type 0 where
  in_time winning losing : Blocked
  back : Bool → Blocked

-- The value that the call returns; `none` is -1.
pub result : Bool → RpcController → Option ℕ
result true c = none
result false c = some c.error_code

-- The time is over.
unfoldable pub give_up : Bool → Blocked
give_up finished = if finished then losing else winning

module _ (parse : List ℕ → Option (List ℕ)) (own : ℕ) (s₀ : System) where
  pub data Run : System → Blocked → Type 0 where
    begins : Run s₀ in_time
    goes : {s t : System} {b : Blocked} → Run s b → Step parse own s t → Run t b
    -- `wait_for` ends because the closure has run.
    woken : {s : System} → Run s in_time → 0 < s.call.request.runs → Run s (back false)
    times_out :
        {s : System} → Run s in_time → Run (enter cancel s) (give_up s.call.request.finished)
    wins : {s : System} → Run s winning → s.phase ≡ completed cancel → Run s (back true)
    -- The second wait, with no limit, ends because the closure has run.
    loses : {s : System} → Run s losing → 0 < s.call.request.runs → Run s (back true)

  in_time≢back : (l : Bool) → in_time ≡ back l → ⊥
  in_time≢back l e = cc

  give_up≢back : (f l : Bool) → give_up f ≡ back l → ⊥
  unfolding give_up
  give_up≢back true l e = cc
  give_up≢back false l e = cc

  Run-Reach : {s : System} {b : Blocked} → Run s b → Reach parse own s₀ s
  Run-Reach begins = here
  Run-Reach (goes r st) = later (Run-Reach r) st
  Run-Reach (woken r h) = Run-Reach r
  Run-Reach (times_out r) = later (Run-Reach r) (attempts cancel)
  Run-Reach (wins r p) = Run-Reach r
  Run-Reach (loses r h) = Run-Reach r

abbrev IsOver : Phase → Type 0
IsOver p = (o : Outcome) × (p ≡ completed o)

-- Whether the caller is back.
abbrev pub IsBack : Blocked → Type 0
IsBack b = (local_timeout : Bool) × (b ≡ back local_timeout)

module _ (parse : List ℕ → Option (List ℕ)) (own : ℕ) (c₀ : RpcController) (m₀ : List ℕ)
    (has_done : Bool) (id : List ℕ) (client₀ : TcpClient) (is_id : is_empty id ≡ false)
    (free : waiting client₀ id ≡ none) where
  has_run :
      (p : Phase) (r : RequestState)
      → Settled parse own c₀ m₀ has_done id client₀ is_id free p r
      → 0 < r.runs
      → IsOver p
  unfolding Settled
  has_run running r s h = absurd (omega (arith, s.0))
  has_run (claimed o) r s h = absurd (omega (arith, s.0))
  has_run (cleaned o) r s h = absurd (omega (arith, s.0))
  has_run (completed o) r s h = (o, refl)

  at_once :
      {s : System}
      → Reach parse own (start c₀ m₀ has_done id client₀) s
      → 0 < s.call.request.runs
      → IsOver s.phase
  at_once {s} r h =
      has_run s.phase s.call.request
        (completed_once parse own c₀ m₀ has_done id client₀ is_id free r) h

  back-IsOver :
      {s : System} {b : Blocked} (l : Bool)
      → Run parse own (start c₀ m₀ has_done id client₀) s b
      → b ≡ back l
      → IsOver s.phase
  back-IsOver l begins e = absurd (in_time≢back parse own (start c₀ m₀ has_done id client₀) l e)
  back-IsOver l (goes r st) e =
      let (o, p) = back-IsOver l r e in
      (
        o,
        (completed-stable parse own c₀ m₀ has_done id client₀ is_id free o
            (Run-Reach parse own (start c₀ m₀ has_done id client₀) r) p st).1,
      )
  back-IsOver l (woken r h) e = at_once (Run-Reach parse own (start c₀ m₀ has_done id client₀) r) h
  back-IsOver l (times_out {s} r) e =
      absurd (give_up≢back parse own (start c₀ m₀ has_done id client₀) s.call.request.finished l e)
  back-IsOver l (wins r p) e = (cancel, p)
  back-IsOver l (loses r h) e = at_once (Run-Reach parse own (start c₀ m₀ has_done id client₀) r) h

-- A blocking call that is back, in time or not, has had its closure run exactly once, and no
-- later step of the timer, of a response or of any other thread writes to its controller, its
-- response message or the rest of its request.
pub blocking-stable :
    (parse : List ℕ → Option (List ℕ)) (own : ℕ) (c₀ : RpcController) (m₀ id : List ℕ)
    (client₀ : TcpClient)
    → is_empty id ≡ false
    → waiting client₀ id ≡ none
    → {s t : System} {b : Blocked} → Run parse own (start c₀ m₀ true id client₀) s b
    → IsBack b
    → Step parse own s t
    → (s.call.request.runs ≡ 1) × (t.call.request ≡ s.call.request)
unfolding Settled
blocking-stable parse own c₀ m₀ id client₀ is_id free {s} r (l, e) st =
    let reached = Run-Reach parse own (start c₀ m₀ true id client₀) r in
    let (o, p) = back-IsOver parse own c₀ m₀ true id client₀ is_id free l r e in
    let done : Settled parse own c₀ m₀ true id client₀ is_id free (completed o) s.call.request =
      subst (λ k. Settled parse own c₀ m₀ true id client₀ is_id free k s.call.request) p
        (completed_once parse own c₀ m₀ true id client₀ is_id free reached) in
    (done.0, (completed-stable parse own c₀ m₀ true id client₀ is_id free o reached p st).0)
