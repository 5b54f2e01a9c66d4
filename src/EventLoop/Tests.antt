-- ===== src/EventLoop/Tests.antt =====
-- Runs of the loop, and the theorems at these runs.
use rocket_rpc.Common.{ℕ, ◌<◌, ◌≡◌, ◌⊎◌, refl, true, false, some, List, [], ◌∷◌, ltb, if◌then◌else◌}
use rocket_rpc.EventLoop.{
  EventLoop, create, wakeup, push_task, add_task, swap_tasks, mark_run, wake_if, wake_if_pending,
  process_pending_tasks, rounds, after_swap, run_batch, process_events, process_event, call_handler,
  poll_timeout, queue_in_loop, Callbacks,
}
use rocket_rpc.FdEvent.{
  FdEvent, in_event, out_event, listen, handler, has_event, to_mask, cancel, is_listening,
  listen_mask,
}
use rocket_rpc.EventLoop.Steps.{System, start, adds, Reach, here, later}
use rocket_rpc.EventLoop.Steps.Awake.{Reach-Ordered, Ordered, poll-awake}
use rocket_rpc.EventLoop.Tasks.{IsSettled, process_pending_tasks-end}
use rocket_rpc.FdEvent as Fd

-- A task above 0 adds task 5, without waking the loop.
abbrev adds_more : ℕ → EventLoop → EventLoop
adds_more task l = if ltb 0 task then add_task 5 false l else l

process_test :
    (process_pending_tasks adds_more (queue_in_loop 3 (queue_in_loop 0 create))).executed
    ≡ 0 ∷ 3 ∷ 5 ∷ 5 ∷ 5 ∷ 5 ∷ 5 ∷ 5 ∷ 5 ∷ []
unfolding process_pending_tasks rounds after_swap run_batch add_task push_task swap_tasks mark_run
    wake_if wake_if_pending wakeup queue_in_loop create
process_test = refl

-- The handler of the first event, 7, cancels the other of the same descriptor.
abbrev cancels : ℕ → List ℕ × Callbacks → List ℕ × Callbacks
cancels callback s = (s.0, λ fd. Fd.create)

process_events_test :
    (process_events cancels
      ((4, 3) ∷ [])
      ([], λ fd. listen in_event (some 7) (listen out_event (some 8) Fd.create))).0
    ≡ 7 ∷ []
unfolding process_events process_event call_handler Fd.create listen handler has_event to_mask
process_events_test = refl

poll_timeout_test : poll_timeout (some 0) ≡ some 1
unfolding poll_timeout
poll_timeout_test = refl

process_pending_tasks-end_example :
    IsSettled (process_pending_tasks adds_more (queue_in_loop 3 create))
process_pending_tasks-end_example = process_pending_tasks-end adds_more (queue_in_loop 3 create)

-- A task is added; the loop has not been woken yet.
abbrev added : System
added = record start { loop = push_task 6 create; waking = 1 }

added-Reach : Reach added
added-Reach = later here (adds 6)

poll-awake_example :
    (added.loop.pending_tasks ≡ []) ⊎ ((added.loop.woken ≡ true) ⊎ (0 < added.waking))
poll-awake_example = poll-awake added-Reach refl

Reach-Ordered_example : Ordered added
Reach-Ordered_example = Reach-Ordered added-Reach
