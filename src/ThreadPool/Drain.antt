-- ===== src/ThreadPool/Drain.antt =====
-- `stopAndDrain`: the workers of a stopped pool come to an end, and by then all tasks are done.
use rocket_rpc.Common.{
  ℕ, ◌+◌, ◌*◌, ◌<◌, ◌≡◌, refl, sym, ap, ◌∙◌, true, List, [], ◌∷◌, ◌++◌, append-nil, arith, length,
  length-append, dec_lt, Bool-cases, inl, inr, ◌⊎◌,
}
use rocket_rpc.ThreadPool.{
  ThreadPool, next_task, work, WorkerStep, passes, finishes, Reachable, IsJoined,
}
use rocket_rpc.ThreadPool.Queue.{IsPool, reachable-IsPool}

-- What a pool has still to do.
pub burden : ThreadPool → ℕ
burden p = 3 * length p.tasks + 2 * length p.running + p.waiting

no_length : (xs : List ℕ) → length xs ≡ 0 → xs ≡ []
no_length [] h = refl
no_length (x ∷ xs) h = absurd (omega arith)

module _ (threads max_pending_tasks : ℕ) (p : ThreadPool)
    (r : Reachable threads max_pending_tasks p) where
  v : IsPool threads max_pending_tasks p
  v = reachable-IsPool threads max_pending_tasks p r

  -- When `stopAndDrain` returns from a pool that has workers, no task waits or runs, and every task
  -- that was ever accepted has been started, in the order of acceptance.
  pub joined_lem :
      0 < threads → IsJoined p → (p.tasks ≡ []) × (p.running ≡ []) × (p.started ≡ p.accepted)
  joined_lem some_worker joined =
      let (over, empty) = v.left (omega (arith, v.size)) in
      (
        empty,
        no_length p.running (omega (arith, v.workers, v.size)),
        sym (v.fifo ∙ ap (◌++◌ p.started) empty ∙ append-nil p.started),
      )

  busy : (rs : List ℕ) → p.running ≡ rs → 0 < length rs → (p' : ThreadPool) × WorkerStep p p'
  busy [] e h = absurd (omega arith)
  busy (t ∷ after) e h = (_, finishes [] t after e)

  -- Somebody is awake or runs a task.
  moves : 0 < p.waiting + length p.running → (p' : ThreadPool) × WorkerStep p p'
  moves h = elim (dec_lt 0 p.waiting) [
    | yes some_wait ↦ (work p, passes some_wait)
    | no all_busy ↦ busy p.running refl (omega arith)
  ]

  unslept : p.notified ≡ true → p.exited < threads → 0 < p.waiting + length p.running
  unslept h more = omega (arith, v.workers, (v.woken h).1)

  attended :
      p.exited < threads → 0 < length p.tasks → p.notifies ≡ 0 → 0 < p.waiting + length p.running
  attended more left quiet = elim (dec_lt 0 p.asleep) [
    | yes sleeps ↦ omega (arith, v.awake sleeps)
    | no nobody ↦ omega (arith, v.workers)
  ]

next_task-burden :
    (p : ThreadPool) (ts : List ℕ)
    → p.tasks ≡ ts
    → 0 < p.waiting
    → burden (next_task p ts) < burden p
unfolding next_task burden
next_task-burden p [] e w = elim (Bool-cases p.is_stopped) [
  | inl over ↦ rw over (omega arith)
  | inr runs ↦ rw runs (omega arith)
]
next_task-burden p (t ∷ ts) e w = omega (arith, ap length e, length-append p.running (t ∷ []))

-- Every step of a worker leaves less to do, so the workers of a pool that accepts no more tasks
-- come to an end after at most `burden` steps, if each task does.
pub burden_lem : (p p' : ThreadPool) → WorkerStep p p' → burden p' < burden p
unfolding work burden
burden_lem p p' (passes w) = next_task-burden p p.tasks refl w
burden_lem p p' (finishes before t after e) =
    omega (arith, ap length e, length-append before (t ∷ after), length-append before after)

-- While a worker has not exited, and either `stopAndDrain` has called `notify_all`, or tasks wait and no
-- call of `notify_one` is due any more, the workers are not all asleep: one of them can take a step,
-- and it leaves less to do.
pub progress_lem :
    (threads max_pending_tasks : ℕ) (p : ThreadPool)
    → Reachable threads max_pending_tasks p
    → p.exited < threads
    → (p.notified ≡ true) ⊎ ((0 < length p.tasks) × (p.notifies ≡ 0))
    → (p' : ThreadPool) × WorkerStep p p' × (burden p' < burden p)
progress_lem threads max_pending_tasks p r more h =
    let (p', st) = moves threads max_pending_tasks p r (elim h [
      | inl over ↦ unslept threads max_pending_tasks p r over more
      | inr left ↦ attended threads max_pending_tasks p r more left.0 left.1
    ]) in
    (p', st, burden_lem p p' st)
