-- ===== src/MpscQueue/Twice.antt =====
-- What one thread alone sees: `pop` and `tryPopAll`.
use rocket_rpc.Common.{
  ℕ, suc, ◌≡◌, ◌≢◌, refl, sym, ap, subst, ◌∙◌, true, false, Option, none, some, List, [], ◌∷◌,
  arith, ◌==◌, if◌then◌else◌, Bool-cases, inl, inr,
}
use rocket_rpc.MpscQueue.{
  MpscQueue, Popping, Popped, goes_on, returns, create, exchange, link, push, stub, store, looking,
  at_tail, inserting, rereading, pop_step, pop_in, pop_on, pop, take_head, move_head, try_pop_all,
  detach, detach_from, pop_all_behind,
}
use rocket_rpc.MpscQueue.Chain.{NotIn, Distinct, Chain, values, not_same, store-same, store-other}

-- The front of a list.
pub first : List ℕ → Option ℕ
first [] = none
first (a ∷ l) = some a

looks :
    (q : MpscQueue)
    → q.head ≢ stub
    → q.next q.head ≡ none
    → pop_step looking q ≡ (goes_on at_tail, q)
unfolding pop_step take_head
looks q n e = rw (not_same q.head stub n) (ap (take_head (goes_on at_tail) q) e)

sees_tail : (q : MpscQueue) → q.head ≡ q.tail → pop_step at_tail q ≡ (goes_on inserting, q)
unfolding pop_step
sees_tail q e =
    let same : (q.head == q.tail) ≡ true = ground arith in
    ap (λ b. if b then (goes_on inserting, q) else (returns none, q)) same

-- The queue after `push(&stub_)` of `pop`.
stubbed : MpscQueue → MpscQueue
stubbed q = link q.tail stub (exchange stub q).1

rereads :
    (q : MpscQueue) → q.head ≡ q.tail → (pop_step rereading (stubbed q)).0 ≡ returns (some q.head)
unfolding pop_step take_head stubbed link exchange
rereads q e =
    ap (λ o. (take_head (returns none) (stubbed q) o).0)
      (ap (store (store q.next stub none) q.tail (some stub)) e
        ∙ store-same (store q.next stub none) q.tail (some stub))

pop_on-returns :
    (f : Popping → MpscQueue → Option ℕ × MpscQueue) (r : Popped × MpscQueue) (o : Option ℕ)
    → r.0 ≡ returns o
    → (pop_on f r).0 ≡ o
unfolding pop_on
pop_on-returns f (r, q) o e = ap (λ k. (pop_on f (k, q)).0) e

-- `pop` at a node: the node comes out, also where it is the last one.
pop-node :
    (fuel : ℕ) (q : MpscQueue) (rest : List ℕ)
    → q.head ≢ stub
    → Chain q.next q.head rest q.tail
    → (pop_in (suc (suc (suc (suc (suc fuel))))) looking q).0 ≡ some q.head
unfolding pop_in pop_on Chain exchange
pop-node fuel q [] n (e, c) =
    ap (λ r. (pop_on (pop_in (suc (suc (suc (suc fuel))))) r).0) (looks q n c)
    ∙ ap (λ r. (pop_on (pop_in (suc (suc (suc fuel)))) r).0) (sees_tail q e)
    ∙ unfold pop_step stubbed in
      pop_on-returns (pop_in fuel) (pop_step rereading (stubbed q)) (some q.head) (rereads q e)
pop-node fuel q (b ∷ rest) n (e, c) =
    unfold pop_step take_head in rw (not_same q.head stub n, e) refl

values-node : (a : ℕ) (l : List ℕ) → a ≢ stub → first (values (a ∷ l)) ≡ some a
unfolding values first
values-node a l n = rw (not_same a stub n) refl

passes :
    (q : MpscQueue) (o : Option ℕ)
    → q.head ≡ stub
    → q.next q.head ≡ o
    → pop_step looking q ≡ move_head q o
unfolding pop_step
passes q o h e =
    let same : (q.head == stub) ≡ true = ground (arith, h) in
    ap
      (λ b.
        if b then move_head q (q.next q.head) else take_head (goes_on at_tail) q (q.next q.head))
      same
    ∙ ap (move_head q) e

pop-stub :
    (q : MpscQueue) (rest : List ℕ)
    → q.head ≡ stub
    → Chain q.next q.head rest q.tail
    → NotIn stub rest
    → (pop q).0 ≡ first (values rest)
unfolding pop pop_in pop_on Chain NotIn move_head first values
pop-stub q [] h (e, c) n = ap (λ r. (pop_on (pop_in 5) r).0) (passes q none h c)
pop-stub q (b ∷ rest) h (e, c) n =
    ap (λ r. (pop_on (pop_in 5) r).0) (passes q (some b) h e)
    ∙ pop-node 0 (record q { head = b }) rest (λ k. n.0 (sym k)) c
    ∙ sym (values-node b rest (λ k. n.0 (sym k)))

-- With every link made and no thread in between, `pop` returns the front of the queue, and null
-- only where the queue holds nothing: the stub alone.
pub pop_lem :
    (q : MpscQueue) (rest : List ℕ)
    → Chain q.next q.head rest q.tail
    → Distinct (q.head ∷ rest)
    → (pop q).0 ≡ first (values (q.head ∷ rest))
unfolding Distinct
pop_lem q rest c d = elim (Bool-cases (q.head == stub)) [
  | inl e ↦
      let h : q.head ≡ stub = is_stub q.head e in
      pop-stub q rest h c (subst (λ k. NotIn k rest) h d.0)
      ∙ sym (unfold values in ap (λ b. first (if b then values rest else q.head ∷ values rest)) e)
  | inr e ↦
      let h : q.head ≢ stub = is_node q.head e in
      unfold pop in pop-node 1 q rest h c ∙ sym (values-node q.head rest h)
]
  where
    is_stub : (a : ℕ) → (a == stub) ≡ true → a ≡ stub
    is_stub a e = ground arith

    is_node : (a : ℕ) → (a == stub) ≡ false → a ≢ stub
    is_node a e = ground arith

detaches :
    (next : ℕ → Option ℕ) (tail a b : ℕ)
    → next stub ≡ some a
    → next a ≡ some b
    → try_pop_all (record { next = next; head = stub; tail = tail })
      ≡ (some a, record { next = next; head = stub; tail = stub })
unfolding try_pop_all detach
detaches next tail a b e f =
    ap (pop_all_behind (record { next = next; head = stub; tail = tail })) e
    ∙ unfold pop_all_behind in
      ap (detach_from (record { next = next; head = a; tail = tail })) f
      ∙ unfold detach_from in refl

pops_first :
    (next : ℕ → Option ℕ) (tail a b : ℕ)
    → a ≢ stub
    → next stub ≡ some a
    → next a ≡ some b
    → (pop (record { next = next; head = stub; tail = tail })).0 ≡ some a
unfolding pop pop_in pop_on
pops_first next tail a b n e f =
    ap (λ r. (pop_on (pop_in 5) r).0)
      (passes (record { next = next; head = stub; tail = tail }) (some a) refl e)
    ∙ unfold move_head pop_step take_head in rw (not_same a stub n, f) refl

-- `tryPopAll` on a queue with two nodes returns the chain from the first, but leaves the stub's link
-- to it: the queue is then not empty, and `pop` returns the first node again, which is no longer
-- the queue's.
pub try_pop_all_twice :
    (a b : ℕ)
    → a ≢ stub
    → b ≢ stub
    → a ≢ b
    → let q = push b (push a create) in
      ((try_pop_all q).0 ≡ some a) × ((pop (try_pop_all q).1).0 ≡ some a)
unfolding push exchange link create
try_pop_all_twice a b na nb ab =
    let one = store (store (λ k. none) a none) stub (some a) in
    let two = store (store one b none) a (some b) in
    let from_stub : two stub ≡ some a =
      store-other (store one b none) a stub (some b) (λ e. na (sym e))
      ∙ store-other one b stub none (λ e. nb (sym e))
      ∙ store-same (store (λ k. none) a none) stub (some a) in
    let from_a : two a ≡ some b = store-same (store one b none) a (some b) in
    let detached = detaches two b a b from_stub from_a in
    (
      ap (λ r. r.0) detached,
      ap (λ r. (pop r.1).0) detached ∙ pops_first two stub a b na from_stub from_a,
    )
