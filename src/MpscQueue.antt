-- ===== src/MpscQueue.antt =====
-- src/rocket/net/mpsc_queue.h: the queue of many producers and one consumer. A node is a number, and 0
-- is the stub in the queue object; a null pointer is `none`. An operation is cut into its accesses to
-- what threads share, so that threads can come in between.
pub mod Chain
pub mod Threads
pub mod Twice
use rocket_rpc.Common.{
  ℕ, zero, suc, ◌+◌, ◌-◌, Bool, true, false, Option, none, some, List, [], ◌∷◌, ◌==◌, if◌then◌else◌,
  ltb,
}

abbrev pub stub : ℕ
stub = 0

-- A store to one place.
unfoldable pub store : (ℕ → Option ℕ) → ℕ → Option ℕ → ℕ → Option ℕ
store f k v = λ j. if j == k then v else f j

pub record MpscQueue : Type 0 where
  pub next : ℕ → Option ℕ
  pub head : ℕ
  pub tail : ℕ

pub create : MpscQueue
create = record { next = λ a. none; head = stub; tail = stub }

-- `push`, up to the exchange; the node that was the tail.
pub exchange : ℕ → MpscQueue → ℕ × MpscQueue
exchange node q = (q.tail, record q { next = store q.next node none; tail = node })

-- The last store of `push`.
pub link : ℕ → ℕ → MpscQueue → MpscQueue
link prev node q = record q { next = store q.next prev (some node) }

pub push : ℕ → MpscQueue → MpscQueue
push node q = let (prev, q₁) = exchange node q in link prev node q₁

-- Where the consumer is in `pop`: at the look at `head_` and what follows it, at the load of the tail, at
-- the exchange and at the link of `push(&stub_)`, and at the second load of `next`.
pub data Popping : Type 0 where
  looking at_tail inserting rereading : Popping
  linking : ℕ → Popping

-- The next access: `pop` goes on, or it returns.
pub data Popped : Type 0 where
  goes_on : Popping → Popped
  returns : Option ℕ → Popped

move_head : MpscQueue → Option ℕ → Popped × MpscQueue
move_head q none = (returns none, q)
move_head q (some n) = (goes_on looking, record q { head = n })

-- The head goes out if there is one behind it.
take_head : Popped → MpscQueue → Option ℕ → Popped × MpscQueue
take_head otherwise q none = (otherwise, q)
take_head otherwise q (some n) = (returns (some q.head), record q { head = n })

pub pop_step : Popping → MpscQueue → Popped × MpscQueue
pop_step looking q =
    if q.head == stub
    then move_head q (q.next q.head)
    else take_head (goes_on at_tail) q (q.next q.head)
pop_step at_tail q = if q.head == q.tail then (goes_on inserting, q) else (returns none, q)
pop_step inserting q = let (prev, q₁) = exchange stub q in (goes_on (linking prev), q₁)
pop_step (linking prev) q = (goes_on rereading, link prev stub q)
pop_step rereading q = take_head (returns none) q (q.next q.head)

pop_on : (Popping → MpscQueue → Option ℕ × MpscQueue) → Popped × MpscQueue → Option ℕ × MpscQueue
pop_on pop_rest (goes_on p, q) = pop_rest p q
pop_on pop_rest (returns r, q) = (r, q)

pop_in : ℕ → Popping → MpscQueue → Option ℕ × MpscQueue
pop_in zero p q = (none, q)
pop_in (suc fuel) p q = pop_on (pop_in fuel) (pop_step p q)

-- `pop` with no thread in between: at most six accesses.
pub pop : MpscQueue → Option ℕ × MpscQueue
pop q = pop_in 6 looking q

is_none : Option ℕ → Bool
is_none none = true
is_none (some a) = false

pub empty : MpscQueue → Bool
empty q = if q.head == stub then is_none (q.next stub) else false

-- The detachment at the end of `tryPopAll`.
detach : MpscQueue → Option ℕ × MpscQueue
detach q = (some q.head, record q { head = stub; tail = stub })

detach_if : MpscQueue → Option ℕ → Option ℕ × MpscQueue
detach_if q none = (none, q)
detach_if q (some n) = detach q

detach_last : MpscQueue → Option ℕ × MpscQueue
detach_last q =
    if q.head == q.tail then (let q₁ = push stub q in detach_if q₁ (q₁.next q₁.head)) else (none, q)

detach_from : MpscQueue → Option ℕ → Option ℕ × MpscQueue
detach_from q none = detach_last q
detach_from q (some n) = detach q

pop_all_behind : MpscQueue → Option ℕ → Option ℕ × MpscQueue
pop_all_behind q none = (none, q)
pop_all_behind q (some n) = detach_from (record q { head = n }) (q.next n)

-- `tryPopAll` with no thread in between; the head of the chain.
pub try_pop_all : MpscQueue → Option ℕ × MpscQueue
try_pop_all q =
    if q.head == stub then pop_all_behind q (q.next q.head) else detach_from q (q.next q.head)

-- `MpscNodePool` of a thread: its free nodes, how many it counts, and those given back to the heap.
pub record MpscNodePool : Type 0 where
  pub free_nodes : List ℕ
  pub free_count : ℕ
  pub deleted : List ℕ

abbrev pub max_free : ℕ
max_free = 128

-- `alloc`; `none` is a node from the heap.
alloc_from : MpscNodePool → List ℕ → Option ℕ × MpscNodePool
alloc_from p [] = (none, p)
alloc_from p (n ∷ ns) = (some n, record p { free_nodes = ns; free_count = p.free_count - 1 })

pub alloc : MpscNodePool → Option ℕ × MpscNodePool
alloc p = alloc_from p p.free_nodes

pub free : ℕ → MpscNodePool → MpscNodePool
free node p =
    if ltb p.free_count max_free
    then record p { free_nodes = node ∷ p.free_nodes; free_count = p.free_count + 1 }
    else record p { deleted = node ∷ p.deleted }

pub purge : MpscNodePool → MpscNodePool
purge p = record { free_nodes = []; free_count = 0; deleted = p.free_nodes }
