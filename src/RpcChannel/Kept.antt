-- ===== src/RpcChannel/Kept.antt =====
-- What the completion of a call leaves alone.
use rocket_rpc.Common.{
  ℕ, ◌+◌, ◌≡◌, refl, ap₂, subst, ◌∙◌, true, false, Option, none, some, List, if◌then◌else◌,
  Bool-cases, inl, inr, ◌==◌,
}
use rocket_rpc.RpcChannel.{
  RequestState, Outcome, error, time_out, cancel, answer, complete, before_done, run_done, store,
}

-- Everything that the completion leaves alone.
abbrev pub Same : RequestState → RequestState → Type 0
Same r r' =
    (r'.finished ≡ r.finished)
    × (r'.has_done ≡ r.has_done)
    × (r'.has_client ≡ r.has_client)
    × (r'.msg_id ≡ r.msg_id)

module _ (parse : List ℕ → Option (List ℕ)) where
  before_done-Same : (o : Outcome) (r : RequestState) → Same r (before_done parse o r)
  unfolding before_done store
  before_done-Same (error code info) r = (refl, refl, refl, refl)
  before_done-Same time_out r = (refl, refl, refl, refl)
  before_done-Same cancel r = (refl, refl, refl, refl)
  before_done-Same (answer none) r = (refl, refl, refl, refl)
  before_done-Same (answer (some a)) r = elim (Bool-cases (a.err_code == 0)) [
    | inl h ↦ rw h (stored (parse a.pb_data))
    | inr h ↦ rw h (refl, refl, refl, refl)
  ]
    where
      stored : (o : Option (List ℕ)) → Same r (store parse o r)
      stored none = (refl, refl, refl, refl)
      stored (some m) = (refl, refl, refl, refl)

  run_done-Same : (r : RequestState) → Same r (run_done parse r)
  unfolding run_done
  run_done-Same r =
      subst (λ b. Same r (if b then record r { runs = r.runs + 1 } else r)) refl
        (elim r.has_done as (λ b. Same r (if b then record r { runs = r.runs + 1 } else r)) [
          | true ↦ (refl, refl, refl, refl)
          | false ↦ (refl, refl, refl, refl)
        ])

  pub complete-Same : (o : Outcome) (r : RequestState) → Same r (complete parse o r)
  unfolding complete
  complete-Same o r =
      let (f, d, c, m) = before_done-Same o r in
      let (f', d', c', m') = run_done-Same (before_done parse o r) in
      (f' ∙ f, d' ∙ d, c' ∙ c, m' ∙ m)

  before_done-runs : (o : Outcome) (r : RequestState) → (before_done parse o r).runs ≡ r.runs
  unfolding before_done store
  before_done-runs (error code info) r = refl
  before_done-runs time_out r = refl
  before_done-runs cancel r = refl
  before_done-runs (answer none) r = refl
  before_done-runs (answer (some a)) r = elim (Bool-cases (a.err_code == 0)) [
    | inl h ↦ rw h (stored (parse a.pb_data))
    | inr h ↦ rw h refl
  ]
    where
      stored : (o : Option (List ℕ)) → (store parse o r).runs ≡ r.runs
      stored none = refl
      stored (some m) = refl

  run_done-runs :
      (r : RequestState) → (run_done parse r).runs ≡ (if r.has_done then r.runs + 1 else r.runs)
  unfolding run_done
  run_done-runs r =
      elim r.has_done
        as (λ b.
          (if b then record r { runs = r.runs + 1 } else r).runs
          ≡ (if b then r.runs + 1 else r.runs)) [ true ↦ refl | false ↦ refl ]

  -- The closure, if there is one, runs once.
  pub complete-runs :
      (o : Outcome) (r : RequestState)
      → (complete parse o r).runs ≡ (if r.has_done then r.runs + 1 else r.runs)
  unfolding complete
  complete-runs o r =
      run_done-runs (before_done parse o r)
      ∙ ap₂ (λ b (n : ℕ). if b then n + 1 else n) ((before_done-Same o r).1) (before_done-runs o r)
