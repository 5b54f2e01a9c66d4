-- ===== src/ThreadPool/Queue.antt =====
-- The invariant of the pool: what the queue holds, and who works.
use rocket_rpc.Common.{
  ℕ, ◌+◌, ◌-◌, ◌≤◌, ◌<◌, ◌≡◌, refl, sym, ap, ◌∙◌, true, false, List, [], ◌∷◌, ◌++◌, append_assoc,
  arith, leb, ◌==◌, length, length-append, Bool-cases, inl, inr, not, ◌&&◌, leb→gt,
}
use mathlib.Core.Bool.{true≢false}
use rocket_rpc.ThreadPool.{
  ThreadPool, create, is_full, cannot_run, enqueue, try_execute, submit, next_task, work,
  request_stop, WorkerStep, passes, finishes, Step, executes, submits, works, notifies_one, wakes,
  stops, notifies_all, notify_one, notify_all, Reachable, new, step,
}

-- `fifo`: the tasks leave the queue in the order in which they were accepted, and none is lost or
-- made up. `left`: a worker exits only from a stopped pool with an empty queue. `awake`: while a
-- worker sleeps, there is for each task in the queue a worker that will look, or a call of
-- `notify_one` that is due. `woken`: nobody sleeps after `notify_all`.
pub record IsPool (threads max_pending_tasks : ℕ) (p : ThreadPool) : Type 0 where
  pub size : p.threads ≡ threads
  pub limit : p.max_pending_tasks ≡ max_pending_tasks
  pub fifo : p.accepted ≡ p.started ++ p.tasks
  pub bound : (max_pending_tasks == 0) ≡ false → length p.tasks ≤ max_pending_tasks
  pub workers : p.waiting + p.asleep + length p.running + p.exited ≡ threads
  pub left : 0 < p.exited → (p.is_stopped ≡ true) × (p.tasks ≡ [])
  pub awake : 0 < p.asleep → length p.tasks ≤ p.waiting + p.notifies
  pub woken : p.notified ≡ true → (p.is_stopped ≡ true) × (p.asleep ≡ 0)

module _ (threads max_pending_tasks : ℕ) where
  create-IsPool : IsPool threads max_pending_tasks (create threads max_pending_tasks)
  unfolding create
  create-IsPool = record {
    size = refl;
    limit = refl;
    fifo = refl;
    bound = λ h. omega arith;
    workers = omega arith;
    left = λ h. absurd (omega arith);
    awake = λ h. absurd (omega arith);
    woken = λ h. absurd (true≢false (sym h));
  }

  module _ (p : ThreadPool) (v : IsPool threads max_pending_tasks p) where
    enqueue-IsPool :
        (t : ℕ)
        → cannot_run p ≡ false
        → is_full p ≡ false
        → IsPool threads max_pending_tasks (enqueue p t)
    unfolding enqueue cannot_run is_full
    enqueue-IsPool t runs room = record {
      size = v.size;
      limit = v.limit;
      fifo = ap (λ a. a ++ t ∷ []) v.fifo ∙ append_assoc p.started p.tasks (t ∷ []);
      bound = λ h.
          let room' : leb max_pending_tasks (length p.tasks) ≡ false = not_full h in
          omega (
            arith,
            length-append p.tasks (t ∷ []),
            v.bound h,
            leb→gt max_pending_tasks (length p.tasks) room',
          );
      workers = v.workers;
      left = λ h. absurd (true≢false (sym (v.left h).0 ∙ alive));
      awake = λ h. omega (arith, v.awake h, length-append p.tasks (t ∷ []));
      woken = v.woken;
    }
      where
        alive : p.is_stopped ≡ false
        alive = ground arith

        not_full : (max_pending_tasks == 0) ≡ false → leb max_pending_tasks (length p.tasks) ≡ false
        not_full h =
            let known : (not (max_pending_tasks == 0) && leb max_pending_tasks (length p.tasks))
                ≡ false =
              rw v.limit at room in
            rw h at known

    try_execute-IsPool : (t : ℕ) → IsPool threads max_pending_tasks (try_execute p t).1
    unfolding try_execute
    try_execute-IsPool t = elim (Bool-cases (cannot_run p)) [
      | inl dead ↦ rw dead v
      | inr runs ↦ elim (Bool-cases (is_full p)) [
        | inl busy ↦ rw (runs, busy) v
        | inr room ↦ rw (runs, room) (enqueue-IsPool t runs room)
      ]
    ]

    submit-IsPool : (t : ℕ) → IsPool threads max_pending_tasks (submit p t).1
    unfolding submit
    submit-IsPool t = elim (Bool-cases (cannot_run p)) [
      | inl dead ↦ rw dead v
      | inr runs ↦ elim (Bool-cases (is_full p)) [
        | inl busy ↦ rw (runs, busy) v
        | inr room ↦ rw (runs, room) (enqueue-IsPool t runs room)
      ]
    ]

    request_stop-IsPool : IsPool threads max_pending_tasks (request_stop p)
    unfolding request_stop
    request_stop-IsPool = record {
      size = v.size;
      limit = v.limit;
      fifo = v.fifo;
      bound = v.bound;
      workers = v.workers;
      left = λ h. (refl, (v.left h).1);
      awake = v.awake;
      woken = λ h. (refl, (v.woken h).1);
    }

    notify_one-IsPool : 0 < p.notifies → IsPool threads max_pending_tasks (notify_one p)
    unfolding notify_one
    notify_one-IsPool due = elim (Bool-cases (p.asleep == 0)) [
      | inl nobody ↦ rw nobody (record {
        size = v.size;
        limit = v.limit;
        fifo = v.fifo;
        bound = v.bound;
        workers = v.workers;
        left = v.left;
        awake = λ h. absurd (ground arith);
        woken = v.woken;
      })
      | inr somebody ↦ rw somebody (record {
        size = v.size;
        limit = v.limit;
        fifo = v.fifo;
        bound = v.bound;
        workers = omega (arith, v.workers, sleeps somebody);
        left = v.left;
        awake = λ h. omega (arith, v.awake (sleeps somebody));
        woken = λ h. absurd (omega (arith, (v.woken h).1, sleeps somebody));
      })
    ]
      where
        sleeps : (p.asleep == 0) ≡ false → 0 < p.asleep
        sleeps h = ground arith

    wake-IsPool :
        0 < p.asleep
        → IsPool threads max_pending_tasks
            (record p { waiting = p.waiting + 1; asleep = p.asleep - 1 })
    wake-IsPool sleeps = record {
      size = v.size;
      limit = v.limit;
      fifo = v.fifo;
      bound = v.bound;
      workers = omega (arith, v.workers);
      left = v.left;
      awake = λ h. omega (arith, v.awake sleeps);
      woken = λ h. absurd (omega (arith, (v.woken h).1));
    }

    notify_all-IsPool : p.is_stopped ≡ true → IsPool threads max_pending_tasks (notify_all p)
    unfolding notify_all
    notify_all-IsPool over = record {
      size = v.size;
      limit = v.limit;
      fifo = v.fifo;
      bound = v.bound;
      workers = omega (arith, v.workers);
      left = v.left;
      awake = λ h. absurd (omega arith);
      woken = λ _. (over, refl);
    }

    next_task-IsPool :
        (ts : List ℕ)
        → p.tasks ≡ ts
        → 0 < p.waiting
        → IsPool threads max_pending_tasks (next_task p ts)
    unfolding next_task
    next_task-IsPool [] e w = elim (Bool-cases p.is_stopped) [
      | inr runs ↦ rw runs (record {
        size = v.size;
        limit = v.limit;
        fifo = v.fifo;
        bound = v.bound;
        workers = omega (arith, v.workers);
        left = λ h. absurd (true≢false (sym (v.left h).0 ∙ runs));
        awake = λ h. omega (arith, ap length e);
        woken = λ h. absurd (true≢false (sym (v.woken h).0 ∙ runs));
      })
      | inl over ↦ rw over (record {
        size = v.size;
        limit = v.limit;
        fifo = v.fifo;
        bound = v.bound;
        workers = omega (arith, v.workers);
        left = λ _. (refl, e);
        awake = λ h. omega (arith, ap length e);
        woken = λ h. (refl, (v.woken h).1);
      })
    ]
    next_task-IsPool (t ∷ ts) e w = record {
      size = v.size;
      limit = v.limit;
      fifo = v.fifo ∙ ap (◌++◌ p.started) e ∙ sym (append_assoc p.started (t ∷ []) ts);
      bound = λ l. omega (arith, v.bound l, ap length e);
      workers = omega (arith, v.workers, length-append p.running (t ∷ []));
      left = λ l. absurd (omega (arith, ap length e, ap length (v.left l).1));
      awake = λ h. omega (arith, v.awake h, ap length e);
      woken = v.woken;
    }

    worker-IsPool : (p' : ThreadPool) → WorkerStep p p' → IsPool threads max_pending_tasks p'
    unfolding work
    worker-IsPool p' (passes w) = next_task-IsPool p.tasks refl w
    worker-IsPool p' (finishes before t after e) = record {
      size = v.size;
      limit = v.limit;
      fifo = v.fifo;
      bound = v.bound;
      workers = omega (
        arith,
        v.workers,
        ap length e,
        length-append before (t ∷ after),
        length-append before after,
      );
      left = v.left;
      awake = λ h. omega (arith, v.awake h);
      woken = v.woken;
    }

    step-IsPool : (p' : ThreadPool) → Step p p' → IsPool threads max_pending_tasks p'
    step-IsPool p' (executes t) = try_execute-IsPool t
    step-IsPool p' (submits t) = submit-IsPool t
    step-IsPool p' (works p'' s) = worker-IsPool p' s
    step-IsPool p' (notifies_one due) = notify_one-IsPool due
    step-IsPool p' (wakes sleeps) = wake-IsPool sleeps
    step-IsPool p' stops = request_stop-IsPool
    step-IsPool p' (notifies_all over) = notify_all-IsPool over

  -- In every order of the steps of callers and workers: the tasks are started in the order in
  -- which they were accepted, none is lost or started twice, no more wait than the limit allows,
  -- no worker is lost, and a worker exits only from a stopped pool with an empty queue. While a
  -- worker sleeps, no more tasks wait than there are awake workers that will look at the queue and
  -- calls of `notify_one` that are due, and no worker sleeps once `stopAndDrain` has called
  -- `notify_all`.
  pub reachable-IsPool :
      (p : ThreadPool) → Reachable threads max_pending_tasks p → IsPool threads max_pending_tasks p
  reachable-IsPool p new = create-IsPool
  reachable-IsPool p (step q p' r s) = step-IsPool q (reachable-IsPool q r) p s
