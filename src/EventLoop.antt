-- ===== src/EventLoop.antt =====
-- src/rocket/net/event_loop.{h,cc}: the queue of tasks, the rounds that the loop runs, and the calls of
-- handlers. A task and a descriptor are numbers. `Steps` interleaves the loop with other threads.
pub mod Steps
pub mod Tasks
pub mod Tests
use rocket_rpc.Common.{
  ℕ, zero, suc, Bool, true, false, Option, none, some, List, [], ◌∷◌, ◌++◌, ◌==◌, if◌then◌else◌,
}
use rocket_rpc.FdEvent.{FdEvent, TriggerEvent, in_event, out_event, error_event, handler, has_event}

abbrev pub max_pending_task_rounds : ℕ
max_pending_task_rounds = 8

-- `queued` is every task that was ever added, in order; `executed`, those that have run; `woken`
-- says that the wakeup channel holds something to read.
pub record EventLoop : Type 0 where
  pub pending_tasks : List ℕ
  pub woken : Bool
  pub stop_flag : Bool
  pub queued : List ℕ
  pub executed : List ℕ

pub create : EventLoop
create = record { pending_tasks = []; woken = false; stop_flag = false; queued = []; executed = [] }

pub wakeup : EventLoop → EventLoop
wakeup l = record l { woken = true }

-- The part of `addTask` under the mutex.
pub push_task : ℕ → EventLoop → EventLoop
push_task task l = record l {
  pending_tasks = l.pending_tasks ++ task ∷ [];
  queued = l.queued ++ task ∷ [];
}

pub add_task : ℕ → Bool → EventLoop → EventLoop
add_task task is_wake_up l = if is_wake_up then wakeup (push_task task l) else push_task task l

pub queue_in_loop : ℕ → EventLoop → EventLoop
queue_in_loop task l = add_task task true l

pub set_stop_flag : EventLoop → EventLoop
set_stop_flag l = record l { stop_flag = true }

pub stop : EventLoop → EventLoop
stop l = wakeup (set_stop_flag l)

-- The time that `loop` gives to the poller; `none` is -1, no limit.
pub poll_timeout : Option ℕ → Option ℕ
poll_timeout none = none
poll_timeout (some ms) = if ms == 0 then some 1 else some ms

-- `tasks.swap(m_pending_tasks)`: the tasks of a round.
pub swap_tasks : EventLoop → List ℕ × EventLoop
swap_tasks l = (l.pending_tasks, record l { pending_tasks = [] })

-- The end of `processPendingTasks`, after the last round.
pub wake_if : List ℕ → EventLoop → EventLoop
wake_if [] l = l
wake_if (task ∷ tasks) l = wakeup l

pub wake_if_pending : EventLoop → EventLoop
wake_if_pending l = wake_if l.pending_tasks l

pub mark_run : ℕ → EventLoop → EventLoop
mark_run task l = record l { executed = l.executed ++ task ∷ [] }

-- What a task does to its loop is outside: it may add tasks.
module _ (run : ℕ → EventLoop → EventLoop) where
  -- The inner `while` of `processPendingTasks`.
  pub run_batch : List ℕ → EventLoop → EventLoop
  run_batch [] l = l
  run_batch (task ∷ tasks) l = run_batch tasks (run task (mark_run task l))

  -- One round: the other rounds follow unless there was nothing to run.
  after_swap : List ℕ → (EventLoop → EventLoop) → EventLoop → EventLoop
  after_swap [] next l = l
  after_swap (task ∷ tasks) next l = next (run_batch (task ∷ tasks) l)

  pub rounds : ℕ → EventLoop → EventLoop
  rounds zero l = wake_if_pending l
  rounds (suc k) l = let (tasks, l₁) = swap_tasks l in after_swap tasks (rounds k) l₁

  pub process_pending_tasks : EventLoop → EventLoop
  process_pending_tasks l = rounds max_pending_task_rounds l

-- A handler changes the callbacks of descriptors, so that each is looked up when its turn comes.
abbrev pub Callbacks : Type 0
Callbacks = ℕ → FdEvent

module _ (call : ℕ → List ℕ × Callbacks → List ℕ × Callbacks) where
  call_handler : Option ℕ → List ℕ × Callbacks → List ℕ × Callbacks
  call_handler none s = s
  call_handler (some callback) s = call callback (s.0 ++ callback ∷ [], s.1)

  pub process_event : ℕ → ℕ → TriggerEvent → List ℕ × Callbacks → List ℕ × Callbacks
  process_event fd mask event s =
      if has_event mask event then call_handler (handler (s.1 fd) event) s else s

  -- `processEvents`, with the list of the handlers that it has called.
  pub process_events : List (ℕ × ℕ) → List ℕ × Callbacks → List ℕ × Callbacks
  process_events [] s = s
  process_events ((fd, mask) ∷ events) s = process_events events (
      process_event fd mask error_event
        (process_event fd mask out_event (process_event fd mask in_event s)))
