-- ===== src/MpscQueue/Threads/Tests.antt =====
-- Two producers and the consumer, and the theorems at these runs.
use rocket_rpc.Common.{ℕ, ◌≡◌, refl, false, some, List, [], ◌∷◌, ◌++◌, arith}
use rocket_rpc.MpscQueue.{
  MpscQueue, create, exchange, link, push, store, looking, pop_step, move_head, take_head, pop,
  pop_in, pop_on, empty, is_none, MpscNodePool, alloc, alloc_from, free, purge,
}
use rocket_rpc.MpscQueue.Chain.{NotIn, Distinct, Chain, behind, values}
use rocket_rpc.MpscQueue.Twice.{first, pop_lem}
use rocket_rpc.MpscQueue.Threads.{
  System, start, after, owing, enqueue, finish_push, pop_next, exchanges, links, calls_pop, pops,
  Reach, here, later,
}
use rocket_rpc.MpscQueue.Threads.Fifo.{fifo-refines}

-- Both producers have exchanged, the second has linked, and `pop` comes back with nothing; then the
-- first links, and `pop` is called again.
abbrev raced : System
raced =
    pop_next looking
      (record (finish_push 5 6 (enqueue 6 (enqueue 5 start))) { consumer = some looking })

abbrev popped_one : System
popped_one =
    pop_next looking (pop_next looking (record (finish_push 0 5 raced) { consumer = some looking }))

popped_one-Reach : Reach popped_one
unfolding create exchange link store pop_step move_head take_head after owing enqueue finish_push
    pop_next NotIn
popped_one-Reach =
    later
      (later
        (later
          (later
            (later
              (later
                (later
                  (later (later here (exchanges 5 (omega arith) tt))
                    (exchanges 6 (omega arith) ((omega arith), tt)))
                  (links 5 6 (omega arith) refl))
                (calls_pop refl))
              (pops looking refl))
            (links 0 5 (omega arith) refl))
          (calls_pop refl))
        (pops looking refl))
      (pops looking refl)

popped_test : popped_one.popped ≡ 5 ∷ []
unfolding create exchange link store pop_step move_head take_head after owing enqueue finish_push
    pop_next
popped_test = refl

fifo-refines_example :
    (popped_one.pushed ≡ popped_one.popped ++ popped_one.fifo)
    × ((rest : List ℕ) × Chain
          (behind popped_one.queue.next popped_one.unlinked)
          popped_one.queue.head
          rest
          popped_one.queue.tail
        × (popped_one.fifo ≡ values (popped_one.queue.head ∷ rest)))
fifo-refines_example = fifo-refines popped_one-Reach

abbrev two : MpscQueue
two = push 6 (push 5 create)

two-Chain : Chain two.next two.head (5 ∷ 6 ∷ []) two.tail
unfolding push exchange link store create Chain
two-Chain = (refl, (refl, (refl, refl)))

two-Distinct : Distinct (two.head ∷ 5 ∷ 6 ∷ [])
unfolding Distinct NotIn push exchange link create
two-Distinct = (((omega arith), ((omega arith), tt)), (((omega arith), tt), (tt, tt)))

pop_lem_example : (pop two).0 ≡ first (values (two.head ∷ 5 ∷ 6 ∷ []))
pop_lem_example = pop_lem two (5 ∷ 6 ∷ []) two-Chain two-Distinct

pop_test : (pop (pop two).1).0 ≡ some 6
unfolding pop pop_in pop_on pop_step move_head take_head push exchange link store create
pop_test = refl

empty_test : empty two ≡ false
unfolding empty is_none push exchange link store create
empty_test = refl

abbrev no_nodes : MpscNodePool
no_nodes = record { free_nodes = []; free_count = 0; deleted = [] }

pool_test : (alloc (free 4 (free 3 no_nodes))).0 ≡ some 4
unfolding alloc alloc_from free
pool_test = refl

purge_test : (purge (free 3 no_nodes)).deleted ≡ 3 ∷ []
unfolding purge free
purge_test = refl
