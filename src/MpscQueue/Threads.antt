-- ===== src/MpscQueue/Threads.antt =====
-- Producers and the consumer, interleaved at every access, beside a plain queue `fifo` that says what
-- they do: a node goes in at the exchange, and out when `pop` returns it.
pub mod Inv
pub mod Producers
pub mod Consumer
pub mod Fifo
pub mod Tests
use rocket_rpc.Common.{ℕ, ◌≡◌, ◌≢◌, Option, none, some, List, [], ◌∷◌, ◌++◌}
use rocket_rpc.MpscQueue.{
  MpscQueue, create, exchange, link, stub, store, Popping, looking, at_tail, inserting, linking,
  rereading, Popped, goes_on, returns, pop_step,
}
use rocket_rpc.MpscQueue.Chain.{NotIn}

-- `unlinked` holds the links that a thread has still to make, after its exchange; `consumer` is `none`
-- between two calls of `pop`.
pub record System : Type 0 where
  pub queue : MpscQueue
  pub unlinked : ℕ → Option ℕ
  pub consumer : Option Popping
  pub fifo : List ℕ
  pub pushed : List ℕ
  pub popped : List ℕ

abbrev pub start : System
start = record {
  queue = create;
  unlinked = λ a. none;
  consumer = none;
  fifo = [];
  pushed = [];
  popped = [];
}

pub without_first : List ℕ → List ℕ
without_first [] = []
without_first (a ∷ l) = l

-- What the plain queue does when `pop` goes on, or returns.
pub after : Popped × MpscQueue → System → System
after (goes_on p, q) s = record s { queue = q; consumer = some p }
after (returns none, q) s = record s { queue = q; consumer = none }
after (returns (some h), q) s = record s {
  queue = q;
  consumer = none;
  fifo = without_first s.fifo;
  popped = s.popped ++ h ∷ [];
}

-- The link of `push(&stub_)`, from the exchange on.
pub owing : Popping → System → ℕ → Option ℕ
owing looking s = s.unlinked
owing at_tail s = s.unlinked
owing inserting s = store s.unlinked s.queue.tail (some stub)
owing (linking prev) s = store s.unlinked prev none
owing rereading s = s.unlinked

pub enqueue : ℕ → System → System
enqueue node s = record s {
  queue = (exchange node s.queue).1;
  unlinked = store s.unlinked s.queue.tail (some node);
  fifo = s.fifo ++ node ∷ [];
  pushed = s.pushed ++ node ∷ [];
}

pub finish_push : ℕ → ℕ → System → System
finish_push prev node s = record s {
  queue = link prev node s.queue;
  unlinked = store s.unlinked prev none;
}

pub pop_next : Popping → System → System
pop_next p s = after (pop_step p s.queue) (record s { unlinked = owing p s })

-- A producer pushes a node that is not in the queue; every thread may be between its two accesses.
pub data Step (s : System) : System → Type 0 where
  exchanges : (node : ℕ) → node ≢ stub → NotIn node s.fifo → Step s (enqueue node s)
  links :
      (prev node : ℕ) → node ≢ stub → s.unlinked prev ≡ some node → Step s (finish_push prev node s)
  calls_pop : s.consumer ≡ none → Step s (record s { consumer = some looking })
  pops : (p : Popping) → s.consumer ≡ some p → Step s (pop_next p s)

pub data Reach : System → Type 0 where
  here : Reach start
  later : {s t : System} → Reach s → Step s t → Reach t
