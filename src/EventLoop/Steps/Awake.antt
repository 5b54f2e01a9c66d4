-- ===== src/EventLoop/Steps/Awake.antt =====
-- No wakeup is lost, and tasks run in the order in which they were added.
use rocket_rpc.Common.{
  ℕ, suc, ◌<◌, ◌≡◌, ◌⊎◌, inl, inr, refl, sym, ap, subst, ◌∙◌, Bool, true, false, List, [], ◌∷◌,
  ◌++◌, arith, append_assoc, append-nil,
}
use rocket_rpc.EventLoop.{
  EventLoop, create, wakeup, push_task, set_stop_flag, swap_tasks, wake_if_pending, wake_if,
  mark_run,
}
use rocket_rpc.EventLoop.Steps.{
  System, At, polling, handling, firing, ended, swapping, running, after_swap, after_poll, InLoop,
  in_handler, in_timer, in_task, Step, adds, wakes, stops, defers, polls, drains, handled, fired,
  swaps, gives_up, runs, round_over, Reach, here, later,
}

-- The tasks that a round has taken and not yet run.
unfoldable pub batch : At → List ℕ
batch (running k tasks) = tasks
batch polling = []
batch handling = []
batch firing = []
batch ended = []
batch (swapping k) = []

-- What must hold of a loop that is about to sleep in `poll`.
Awake : At → EventLoop → ℕ → Type 0
Awake polling l waking = (l.pending_tasks ≡ []) ⊎ ((l.woken ≡ true) ⊎ (0 < waking))
Awake handling l waking = 0 < 1
Awake firing l waking = 0 < 1
Awake ended l waking = 0 < 1
Awake (swapping k) l waking = 0 < 1
Awake (running k tasks) l waking = 0 < 1

abbrev pub Ordered : System → Type 0
Ordered s = s.loop.queued ≡ s.loop.executed ++ (batch s.at ++ s.loop.pending_tasks)

add_last :
    (q e b p : List ℕ) (task : ℕ)
    → q ≡ e ++ (b ++ p)
    → q ++ task ∷ [] ≡ e ++ (b ++ (p ++ task ∷ []))
add_last q e b p task o =
    ap (λ l. l ++ task ∷ []) o
    ∙ append_assoc e (b ++ p) (task ∷ [])
    ∙ ap (λ l. e ++ l) (append_assoc b p (task ∷ []))

-- The loop goes on with other tasks in its hands.
hand :
    (s : System) {b : List ℕ} (c p : List ℕ)
    → batch s.at ≡ b
    → b ++ s.loop.pending_tasks ≡ c ++ p
    → Ordered s
    → s.loop.queued ≡ s.loop.executed ++ (c ++ p)
hand s c p e f o =
    o
    ∙ ap (λ l. s.loop.executed ++ (l ++ s.loop.pending_tasks)) e
    ∙ ap (λ l. s.loop.executed ++ l) f

batch-after_swap : (k : ℕ) (p : List ℕ) → batch (after_swap k p) ≡ p
unfolding after_swap batch
batch-after_swap k [] = refl
batch-after_swap k (x ∷ p) = refl

batch-after_poll : (b : Bool) → batch (after_poll b) ≡ []
unfolding after_poll batch
batch-after_poll true = refl
batch-after_poll false = refl

wake_if-tasks :
    (p : List ℕ) (l : EventLoop)
    → ((wake_if p l).queued ≡ l.queued)
      × ((wake_if p l).executed ≡ l.executed)
      × ((wake_if p l).pending_tasks ≡ l.pending_tasks)
unfolding wake_if wakeup
wake_if-tasks [] l = (refl, refl, refl)
wake_if-tasks (x ∷ p) l = (refl, refl, refl)

Step-Ordered : {s t : System} → Step s t → Ordered s → Ordered t
unfolding push_task wakeup swap_tasks mark_run wake_if_pending batch set_stop_flag
Step-Ordered {s} (adds task) o =
    add_last s.loop.queued s.loop.executed (batch s.at) s.loop.pending_tasks task o
Step-Ordered (wakes n e) o = o
Step-Ordered stops o = o
Step-Ordered {s} (defers task i) o =
    add_last s.loop.queued s.loop.executed (batch s.at) s.loop.pending_tasks task o
Step-Ordered {s} (polls e) o =
    hand s (batch (after_poll s.loop.stop_flag)) s.loop.pending_tasks (ap batch e)
      (ap (λ b. b ++ s.loop.pending_tasks) (sym (batch-after_poll s.loop.stop_flag))) o
Step-Ordered (drains e) o = o
Step-Ordered {s} (handled e) o = hand s [] s.loop.pending_tasks (ap batch e) refl o
Step-Ordered {s} (fired e) o = hand s [] s.loop.pending_tasks (ap batch e) refl o
Step-Ordered {s} (swaps k e) o =
    hand s (batch (after_swap k s.loop.pending_tasks)) [] (ap batch e)
      (sym (batch-after_swap k s.loop.pending_tasks)
        ∙ sym (append-nil (batch (after_swap k s.loop.pending_tasks))))
      o
Step-Ordered {s} (gives_up e) o =
    let (q, x, p) = wake_if-tasks s.loop.pending_tasks s.loop in
    q
    ∙ hand s [] s.loop.pending_tasks (ap batch e) refl o
    ∙ sym (
        ap (λ l. l ++ (wake_if s.loop.pending_tasks s.loop).pending_tasks) x
        ∙ ap (λ l. s.loop.executed ++ l) p)
Step-Ordered {s} (runs k task tasks e) o =
    hand s (task ∷ tasks) s.loop.pending_tasks (ap batch e) refl o
    ∙ sym (append_assoc s.loop.executed (task ∷ []) (tasks ++ s.loop.pending_tasks))
Step-Ordered {s} (round_over k e) o = hand s [] s.loop.pending_tasks (ap batch e) refl o

-- In every interleaving, each task that was ever added has run, is in the round that runs, or is
-- waiting, in this order and in the order in which they were added: none is lost, run twice or overtaken.
pub Reach-Ordered : {s : System} → Reach s → Ordered s
unfolding create batch
Reach-Ordered here = refl
Reach-Ordered (later r st) = Step-Ordered st (Reach-Ordered r)

Awake-waking : (a : At) (l : EventLoop) (n : ℕ) → Awake a l (suc n)
unfolding Awake
Awake-waking polling l n = inr (inr (omega arith))
Awake-waking handling l n = omega arith
Awake-waking firing l n = omega arith
Awake-waking ended l n = omega arith
Awake-waking (swapping k) l n = omega arith
Awake-waking (running k tasks) l n = omega arith

Awake-woken : (a : At) (l : EventLoop) (n : ℕ) → l.woken ≡ true → Awake a l n
unfolding Awake
Awake-woken polling l n h = inr (inl h)
Awake-woken handling l n h = omega arith
Awake-woken firing l n h = omega arith
Awake-woken ended l n h = omega arith
Awake-woken (swapping k) l n h = omega arith
Awake-woken (running k tasks) l n h = omega arith

Awake-InLoop : {a : At} → InLoop a → (l : EventLoop) (n : ℕ) → Awake a l n
unfolding Awake
Awake-InLoop in_handler l n = omega arith
Awake-InLoop in_timer l n = omega arith
Awake-InLoop (in_task k tasks) l n = omega arith

Awake-after_poll : (b : Bool) (l : EventLoop) (n : ℕ) → Awake (after_poll b) l n
unfolding Awake after_poll
Awake-after_poll true l n = omega arith
Awake-after_poll false l n = omega arith

Awake-after_swap :
    (k : ℕ) (p : List ℕ) (l : EventLoop) (n : ℕ) → l.pending_tasks ≡ [] → Awake (after_swap k p) l n
unfolding Awake after_swap
Awake-after_swap k [] l n e = inl e
Awake-after_swap k (x ∷ p) l n e = omega arith

Awake-wake_if :
    (p : List ℕ) (l : EventLoop) (n : ℕ) → l.pending_tasks ≡ p → Awake polling (wake_if p l) n
unfolding Awake wake_if wakeup
Awake-wake_if [] l n e = inl e
Awake-wake_if (x ∷ p) l n e = inr (inl refl)

Step-Awake : {s t : System} → Step s t → Awake t.at t.loop t.waking
unfolding wakeup wake_if_pending
Step-Awake {s} (adds task) = Awake-waking s.at (push_task task s.loop) s.waking
Step-Awake {s} (wakes n e) = Awake-woken s.at (wakeup s.loop) n refl
Step-Awake {s} stops = Awake-waking s.at (set_stop_flag s.loop) s.waking
Step-Awake {s} (defers task i) = Awake-InLoop i (push_task task s.loop) s.waking
Step-Awake {s} (polls e) = Awake-after_poll s.loop.stop_flag s.loop s.waking
Step-Awake {s} (drains e) =
    subst (λ a. Awake a (record s.loop { woken = false }) s.waking) (sym e)
      (Awake-InLoop in_handler (record s.loop { woken = false }) s.waking)
Step-Awake {s} (handled e) = Awake-InLoop in_timer s.loop s.waking
Step-Awake {s} (fired e) = unfold Awake in omega arith
Step-Awake {s} (swaps k e) =
    unfold swap_tasks in
    Awake-after_swap k s.loop.pending_tasks (record s.loop { pending_tasks = [] }) s.waking refl
Step-Awake {s} (gives_up e) = Awake-wake_if s.loop.pending_tasks s.loop s.waking refl
Step-Awake {s} (runs k task tasks e) =
    Awake-InLoop (in_task k tasks) (mark_run task s.loop) s.waking
Step-Awake {s} (round_over k e) = unfold Awake in omega arith

-- Whenever the loop is about to sleep in `poll`, in every interleaving, there is no task waiting, or
-- the wakeup channel holds something, so that `poll` returns at once, or a thread that added a task
-- or stopped the loop is about to wake it: no wakeup is lost.
pub poll-awake :
    {s : System}
    → Reach s
    → s.at ≡ polling
    → (s.loop.pending_tasks ≡ []) ⊎ ((s.loop.woken ≡ true) ⊎ (0 < s.waking))
unfolding Awake create
poll-awake here e = inl refl
poll-awake (later {s} {t} r st) e = subst (λ a. Awake a t.loop t.waking) e (Step-Awake st)
