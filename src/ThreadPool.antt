-- ===== src/ThreadPool.antt =====
-- src/rocket/common/thread_pool.h: workers that share a bounded queue of tasks.
-- A task is a number. What is done under the mutex is one step, and a call of `notify_one` or
-- `notify_all` after it is another.
pub mod Queue
pub mod Drain
pub mod Tests
use rocket_rpc.Common.{
  ℕ, ◌+◌, ◌-◌, ◌<◌, ◌≡◌, Bool, true, false, not, ◌&&◌, ◌||◌, Option, none, some, List, [], ◌∷◌,
  ◌++◌, leb, ◌==◌, if◌then◌else◌, length,
}

-- `waiting` workers are about to test the condition, `asleep` ones have found that it does not hold and
-- sleep until they are woken, `running` holds the tasks of those that run one, and `exited` workers
-- have returned. The code has none of the further fields: `notifies` are calls of `notify_one` that
-- are due, `notified` tells that `stopAndDrain` has called `notify_all`, and `accepted` and
-- `started` record the tasks in the order in which they entered and left the queue.
pub record ThreadPool : Type 0 where
  pub tasks : List ℕ
  pub is_stopped : Bool
  pub threads : ℕ
  pub max_pending_tasks : ℕ
  pub waiting : ℕ
  pub asleep : ℕ
  pub running : List ℕ
  pub exited : ℕ
  pub notifies : ℕ
  pub notified : Bool
  pub accepted : List ℕ
  pub started : List ℕ

pub create : ℕ → ℕ → ThreadPool
create threads max_pending_tasks = record {
  tasks = [];
  is_stopped = false;
  threads = threads;
  max_pending_tasks = max_pending_tasks;
  waiting = threads;
  asleep = 0;
  running = [];
  exited = 0;
  notifies = 0;
  notified = false;
  accepted = [];
  started = [];
}

pub pending_count : ThreadPool → ℕ
pending_count p = length p.tasks

cannot_run : ThreadPool → Bool
cannot_run p = p.is_stopped || (p.threads == 0)

pub is_full : ThreadPool → Bool
is_full p = not (p.max_pending_tasks == 0) && leb p.max_pending_tasks (length p.tasks)

enqueue : ThreadPool → ℕ → ThreadPool
enqueue p t = record p {
  tasks = p.tasks ++ t ∷ [];
  notifies = p.notifies + 1;
  accepted = p.accepted ++ t ∷ [];
}

-- `notify_one`, which wakes a worker if one sleeps.
pub notify_one : ThreadPool → ThreadPool
notify_one p =
    if p.asleep == 0
    then record p { notifies = p.notifies - 1 }
    else record p { notifies = p.notifies - 1; waiting = p.waiting + 1; asleep = p.asleep - 1 }

pub try_execute : ThreadPool → ℕ → Bool × ThreadPool
try_execute p t = if cannot_run p || is_full p then (false, p) else (true, enqueue p t)

-- `execute`: `none` is the exception.
pub execute : ThreadPool → ℕ → Option ThreadPool
execute p t = let (ok, p') = try_execute p t in if ok then some p' else none

-- The two exceptions of `submit`, or the future.
pub data Submitted : Type 0 where
  stopped full future : Submitted

pub submit : ThreadPool → ℕ → Submitted × ThreadPool
submit p t =
    if cannot_run p then (stopped, p) else if is_full p then (full, p) else (future, enqueue p t)

-- A pass of a worker. With the queue empty the worker of a stopped pool returns, and that of another
-- one goes to sleep; otherwise it takes the first task.
next_task : ThreadPool → List ℕ → ThreadPool
next_task p [] =
    if p.is_stopped
    then record p { waiting = p.waiting - 1; exited = p.exited + 1 }
    else record p { waiting = p.waiting - 1; asleep = p.asleep + 1 }
next_task p (t ∷ rest) = record p {
  tasks = rest;
  waiting = p.waiting - 1;
  running = p.running ++ t ∷ [];
  started = p.started ++ t ∷ [];
}

pub work : ThreadPool → ThreadPool
work p = next_task p p.tasks

-- The first part of `stopAndDrain`, `notify_all` as the second; the rest waits until every worker has
-- exited.
pub request_stop : ThreadPool → ThreadPool
request_stop p = record p { is_stopped = true }

pub notify_all : ThreadPool → ThreadPool
notify_all p = record p { notified = true; waiting = p.waiting + p.asleep; asleep = 0 }

-- `stopAndDrain` returns.
abbrev pub IsJoined : ThreadPool → Type 0
IsJoined p = p.exited ≡ p.threads

-- What the workers do: a pass, or the end of a task, in any order.
pub data WorkerStep (p : ThreadPool) : ThreadPool → Type 0 where
  passes : 0 < p.waiting → WorkerStep p (work p)
  finishes :
      (before : List ℕ) (t : ℕ) (after : List ℕ)
      → p.running ≡ before ++ t ∷ after
      → WorkerStep p (record p { waiting = p.waiting + 1; running = before ++ after })

pub data Step (p : ThreadPool) : ThreadPool → Type 0 where
  executes : (t : ℕ) → Step p (try_execute p t).1
  submits : (t : ℕ) → Step p (submit p t).1
  works : (p' : ThreadPool) → WorkerStep p p' → Step p p'
  notifies_one : 0 < p.notifies → Step p (notify_one p)
  -- Without a reason, as the standard allows.
  wakes : 0 < p.asleep → Step p (record p { waiting = p.waiting + 1; asleep = p.asleep - 1 })
  stops : Step p (request_stop p)
  notifies_all : p.is_stopped ≡ true → Step p (notify_all p)

-- The pools that the steps make of a new one.
pub data Reachable (threads max_pending_tasks : ℕ) : ThreadPool → Type 0 where
  new : Reachable threads max_pending_tasks (create threads max_pending_tasks)
  step :
      (p p' : ThreadPool)
      → Reachable threads max_pending_tasks p
      → Step p p'
      → Reachable threads max_pending_tasks p'
