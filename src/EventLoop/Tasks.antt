-- ===== src/EventLoop/Tasks.antt =====
-- What `processPendingTasks` does on the loop thread.
use rocket_rpc.Common.{ℕ, zero, suc, ◌≡◌, ◌⊎◌, inl, inr, refl, true, List, [], ◌∷◌}
use rocket_rpc.EventLoop.{
  EventLoop, wakeup, wake_if, wake_if_pending, swap_tasks, run_batch, after_swap, rounds,
  process_pending_tasks, max_pending_task_rounds,
}

-- The loop can sleep: nothing waits, or `poll` is made to return at once.
abbrev pub IsSettled : EventLoop → Type 0
IsSettled l = (l.pending_tasks ≡ []) ⊎ (l.woken ≡ true)

module _ (run : ℕ → EventLoop → EventLoop) where
  wake_if-end : (p : List ℕ) (l : EventLoop) → l.pending_tasks ≡ p → IsSettled (wake_if p l)
  unfolding wake_if wakeup
  wake_if-end [] l e = inl e
  wake_if-end (x ∷ p) l e = inr refl

  after_swap-end :
      (next : EventLoop → EventLoop)
      → ((l : EventLoop) → IsSettled (next l))
      → (p : List ℕ) (l : EventLoop) → l.pending_tasks ≡ []
      → IsSettled (after_swap run p next l)
  unfolding after_swap
  after_swap-end next h [] l e = inl e
  after_swap-end next h (x ∷ p) l e = h (run_batch run (x ∷ p) l)

  rounds-end : (k : ℕ) (l : EventLoop) → IsSettled (rounds run k l)
  unfolding rounds wake_if_pending swap_tasks
  rounds-end zero l = wake_if-end l.pending_tasks l refl
  rounds-end (suc k) l =
      after_swap-end (rounds run k) (rounds-end k) l.pending_tasks (record l { pending_tasks = [] })
        refl

  -- `processPendingTasks` comes to an end whatever the tasks add, even without end; it then leaves no
  -- task behind, or has made the next `poll` return at once.
  pub process_pending_tasks-end : (l : EventLoop) → IsSettled (process_pending_tasks run l)
  unfolding process_pending_tasks
  process_pending_tasks-end l = rounds-end max_pending_task_rounds l
