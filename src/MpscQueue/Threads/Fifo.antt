-- ===== src/MpscQueue/Threads/Fifo.antt =====
-- In every interleaving the queue does what the plain queue does.
use rocket_rpc.Common.{ℕ, ◌≡◌, refl, List, [], ◌∷◌, ◌++◌}
use rocket_rpc.MpscQueue.{create}
use rocket_rpc.MpscQueue.Chain.{NotIn, Distinct, Chain, behind, values}
use rocket_rpc.MpscQueue.Threads.{
  System, start, Step, exchanges, links, calls_pop, pops, Reach, here, later,
}
use rocket_rpc.MpscQueue.Threads.Inv.{Inv, Knows}
use rocket_rpc.MpscQueue.Threads.Producers.{enqueue-Inv, finish_push-Inv}
use rocket_rpc.MpscQueue.Threads.Consumer.{pop_next-Inv}

Step-Inv : {s t : System} → Step s t → Inv s → Inv t
unfolding Knows
Step-Inv {s} (exchanges node ne n) inv = enqueue-Inv node s ne n inv
Step-Inv {s} (links prev node ne u) inv = finish_push-Inv prev node s ne u inv
Step-Inv {s} (calls_pop e) inv = record {
  rest = inv.rest;
  memory = inv.memory;
  holds = inv.holds;
  order = inv.order;
  knows = tt;
}
Step-Inv {s} (pops p e) inv = pop_next-Inv p s e inv

start-Inv : Inv start
unfolding create behind Chain Distinct NotIn values Knows
start-Inv = record {
  rest = [];
  memory = record {
    chain = (refl, refl);
    distinct = (tt, tt);
    idle = λ a n. refl;
    linked = λ a b e. refl;
  };
  holds = refl;
  order = refl;
  knows = tt;
}

pub Reach-Inv : {s : System} → Reach s → Inv s
Reach-Inv here = start-Inv
Reach-Inv (later r st) = Step-Inv st (Reach-Inv r)

-- However producers and the consumer are interleaved, access by access, the queue refines the plain
-- queue: the nodes that `pop` has returned, followed by those that the plain queue still holds,
-- are the nodes that were pushed, in the order of their exchanges; and the plain queue holds the
-- nodes of the chain from the head, half-made links counted in, without the stub.
pub fifo-refines :
    {s : System}
    → Reach s
    → (s.pushed ≡ s.popped ++ s.fifo)
      × ((rest : List ℕ) × Chain (behind s.queue.next s.unlinked) s.queue.head rest s.queue.tail
          × (s.fifo ≡ values (s.queue.head ∷ rest)))
fifo-refines r = let inv = Reach-Inv r in (inv.order, (inv.rest, inv.memory.chain, inv.holds))
