-- ===== src/EventLoop/Steps.antt =====
-- The loop and the threads that give it tasks, interleaved.
pub mod Awake
use rocket_rpc.Common.{ℕ, suc, ◌≡◌, Bool, true, false, List, [], ◌∷◌, if◌then◌else◌}
use rocket_rpc.EventLoop.{
  EventLoop, create, wakeup, push_task, set_stop_flag, swap_tasks, wake_if_pending, mark_run,
  max_pending_task_rounds,
}

-- Where the loop is: in `poll`, in the handlers, in the timers, before the next round of tasks (with
-- the rounds left), in a round (with its tasks), or out of the loop.
pub data At : Type 0 where
  polling handling firing ended : At
  swapping : ℕ → At
  running : ℕ → List ℕ → At

-- `waking` counts the threads that are in `queueInLoop` or `stop` before their `wakeup`.
pub record System : Type 0 where
  pub loop : EventLoop
  pub at : At
  pub waking : ℕ

-- Where the loop goes after a swap: out of `processPendingTasks` if there is nothing to run.
pub after_swap : ℕ → List ℕ → At
after_swap k [] = polling
after_swap k (task ∷ tasks) = running k (task ∷ tasks)

-- `while (!m_stop_flag)`.
pub after_poll : Bool → At
after_poll stop_flag = if stop_flag then ended else handling

-- The loop thread runs code of handlers, of timers or of tasks.
pub data InLoop : At → Type 0 where
  in_handler : InLoop handling
  in_timer : InLoop firing
  in_task : (k : ℕ) (tasks : List ℕ) → InLoop (running k tasks)

abbrev pub start : System
start = record { loop = create; at = polling; waking = 0 }

pub data Step (s : System) : System → Type 0 where
  -- Any thread adds a task that is to wake the loop, and then wakes it.
  adds : (task : ℕ) → Step s (record s { loop = push_task task s.loop; waking = suc s.waking })
  wakes : (n : ℕ) → s.waking ≡ suc n → Step s (record s { loop = wakeup s.loop; waking = n })
  stops : Step s (record s { loop = set_stop_flag s.loop; waking = suc s.waking })
  -- Code on the loop thread adds a task without waking the loop.
  defers : (task : ℕ) → InLoop s.at → Step s (record s { loop = push_task task s.loop })
  -- `poll` returns, for whatever reason; the stop flag is looked at before the next `poll`.
  polls : s.at ≡ polling → Step s (record s { at = after_poll s.loop.stop_flag })
  -- The handler of the wakeup channel.
  drains : s.at ≡ handling → Step s (record s { loop = record s.loop { woken = false } })
  handled : s.at ≡ handling → Step s (record s { at = firing })
  fired : s.at ≡ firing → Step s (record s { at = swapping max_pending_task_rounds })
  -- A round begins: the tasks are taken, under the mutex.
  swaps :
      (k : ℕ)
      → s.at ≡ swapping (suc k)
      → Step s (record s { loop = (swap_tasks s.loop).1; at = after_swap k (swap_tasks s.loop).0 })
  -- No round is left.
  gives_up : s.at ≡ swapping 0 → Step s (record s { loop = wake_if_pending s.loop; at = polling })
  runs :
      (k task : ℕ) (tasks : List ℕ)
      → s.at ≡ running k (task ∷ tasks)
      → Step s (record s { loop = mark_run task s.loop; at = running k tasks })
  round_over : (k : ℕ) → s.at ≡ running k [] → Step s (record s { at = swapping k })

pub data Reach : System → Type 0 where
  here : Reach start
  later : {s t : System} → Reach s → Step s t → Reach t
