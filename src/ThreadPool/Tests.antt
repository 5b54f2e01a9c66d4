-- ===== src/ThreadPool/Tests.antt =====
-- A pool of one worker and at most two pending tasks.
use rocket_rpc.Common.{◌<◌, inl, ◌≡◌, refl, true, false, none, [], ◌∷◌, arith}
use rocket_rpc.ThreadPool.{
  ThreadPool, create, pending_count, cannot_run, is_full, enqueue, try_execute, execute, submit,
  full, next_task, work, request_stop, WorkerStep, passes, finishes, executes, works, stops,
  notifies_all, notify_all, Reachable, new, step,
}
use rocket_rpc.ThreadPool.Queue.{IsPool, reachable-IsPool}
use rocket_rpc.ThreadPool.Drain.{burden, joined_lem, progress_lem}

abbrev empty : ThreadPool
empty = create 1 2

-- One task in the queue, then the pool is stopped.
abbrev queued : ThreadPool
queued = (try_execute empty 7).1

abbrev stopped : ThreadPool
stopped = request_stop queued

stopped-Reachable : Reachable 1 2 stopped
stopped-Reachable = step queued stopped (step empty queued new (executes 7)) stops

-- The worker takes the task, ends it, and returns.
abbrev busy : ThreadPool
busy = record {
  tasks = [];
  is_stopped = true;
  threads = 1;
  max_pending_tasks = 2;
  waiting = 0;
  asleep = 0;
  running = 7 ∷ [];
  exited = 0;
  notifies = 1;
  notified = false;
  accepted = 7 ∷ [];
  started = 7 ∷ [];
}

abbrev idle : ThreadPool
idle = record busy { waiting = 1; running = [] }

abbrev joined : ThreadPool
joined = record busy { running = []; exited = 1 }

takes : WorkerStep stopped busy
unfolding create try_execute cannot_run is_full enqueue request_stop work next_task
takes = passes (omega arith)

leaves : WorkerStep idle joined
unfolding work next_task
leaves = passes (omega arith)

joined-Reachable : Reachable 1 2 joined
joined-Reachable =
    step idle joined
      (step busy idle (step stopped busy stopped-Reachable (works busy takes))
        (works idle (finishes [] 7 [] refl)))
      (works joined leaves)

reachable-IsPool_example : IsPool 1 2 joined
reachable-IsPool_example = reachable-IsPool 1 2 joined joined-Reachable

joined_lem_example :
    (joined.tasks ≡ []) × (joined.running ≡ []) × (joined.started ≡ joined.accepted)
joined_lem_example = joined_lem 1 2 joined joined-Reachable (omega arith) refl

-- The worker of a new pool goes to sleep, and the pool is stopped.
abbrev asleep_1 : ThreadPool
asleep_1 = request_stop (work empty)

asleep_1-Reachable : Reachable 1 2 asleep_1
unfolding create
asleep_1-Reachable =
    step (work empty) asleep_1
      (step empty (work empty) new (works (work empty) (passes (omega arith)))) stops

abbrev woken_1 : ThreadPool
woken_1 = notify_all asleep_1

is_over : asleep_1.is_stopped ≡ true
unfolding request_stop
is_over = refl

woken_1-Reachable : Reachable 1 2 woken_1
woken_1-Reachable = step asleep_1 woken_1 asleep_1-Reachable (notifies_all is_over)

is_notified : woken_1.notified ≡ true
unfolding notify_all
is_notified = refl

none_left : woken_1.exited < 1
unfolding notify_all request_stop work next_task create
none_left = omega arith

progress_lem_example : (p' : ThreadPool) × WorkerStep woken_1 p' × (burden p' < burden woken_1)
progress_lem_example = progress_lem 1 2 woken_1 woken_1-Reachable none_left (inl is_notified)

full_run :
    ((submit (enqueue (enqueue empty 1) 2) 3).0 ≡ full)
    × (execute (enqueue (enqueue empty 1) 2) 3 ≡ none)
    × (pending_count (enqueue empty 1) ≡ 1)
unfolding create submit cannot_run is_full enqueue execute try_execute pending_count
full_run = (refl, refl, refl)
