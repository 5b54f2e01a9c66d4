-- ===== src/MpscQueue/Threads/Consumer.antt =====
-- What the consumer does keeps the chain.
use rocket_rpc.Common.{
  ℕ, ◌≡◌, ◌≢◌, refl, sym, ap, subst, ◌∙◌, Bool, true, false, Option, none, some, List, [], ◌∷◌,
  ◌++◌, arith, ◌==◌, if◌then◌else◌, append_assoc,
}
use rocket_rpc.MpscQueue.{
  exchange, link, stub, Popping, looking, at_tail, inserting, linking, rereading, Popped, goes_on,
  returns, pop_step, move_head, take_head,
}
use rocket_rpc.MpscQueue.Chain.{
  NotIn, Chain, behind, values, store-same, values-snoc_stub, Chain-alone, not_same,
}
use rocket_rpc.MpscQueue.Threads.{System, without_first, after, owing, pop_next}
use rocket_rpc.MpscQueue.Threads.Inv.{Inv, Knows, exchange-IsChain, link-IsChain, drop-IsChain}

-- The consumer goes on, or leaves `pop` with nothing: only what it knows is new.
moved-Inv :
    (c : Option Popping) (s : System) (inv : Inv s)
    → Knows c s.queue.head inv.rest s.unlinked
    → Inv (record s { consumer = c })
moved-Inv c s inv k = record {
  rest = inv.rest;
  memory = inv.memory;
  holds = inv.holds;
  order = inv.order;
  knows = k;
}

values-node : (a : ℕ) (l : List ℕ) → (a == stub) ≡ false → values (a ∷ l) ≡ a ∷ values l
unfolding values
values-node a l e = ap (λ b. if b then values l else a ∷ values l) e

values-stub : (a : ℕ) (l : List ℕ) → (a == stub) ≡ true → values (a ∷ l) ≡ values l
unfolding values
values-stub a l e = ap (λ b. if b then values l else a ∷ values l) e

-- The head, a node with one behind it, is returned.
return-Inv :
    (n : ℕ) (s : System)
    → s.queue.next s.queue.head ≡ some n
    → (s.queue.head == stub) ≡ false
    → Inv s
    → Inv (after (returns (some s.queue.head), record s.queue { head = n }) s)
unfolding after Knows without_first
return-Inv n s e node inv =
    let q = s.queue in
    let (rest, r, m) = drop-IsChain q.next s.unlinked q.head inv.rest q.tail n e inv.memory in
    let all : s.fifo ≡ q.head ∷ values inv.rest = inv.holds ∙ values-node q.head inv.rest node in
    record {
      rest = rest;
      memory = m;
      holds = ap without_first all ∙ ap values r;
      order =
          inv.order
          ∙ ap (λ l. s.popped ++ l) (all ∙ ap (λ l. q.head ∷ l) (sym (ap without_first all)))
          ∙ sym (append_assoc s.popped (q.head ∷ []) (without_first s.fifo));
      knows = tt;
    }

take_head-Inv :
    (otherwise : Popped) (o : Option ℕ) (s : System)
    → s.queue.next s.queue.head ≡ o
    → (s.queue.head == stub) ≡ false
    → Inv s
    → Inv (after (otherwise, s.queue) s)
    → Inv (after (take_head otherwise s.queue o) s)
unfolding take_head
take_head-Inv otherwise none s e node inv other = other
take_head-Inv otherwise (some n) s e node inv other = return-Inv n s e node inv

move_head-Inv :
    (o : Option ℕ) (s : System)
    → s.queue.next s.queue.head ≡ o
    → (s.queue.head == stub) ≡ true
    → Inv s
    → Inv (after (move_head s.queue o) s)
unfolding move_head after Knows
move_head-Inv none s e is_stub inv = moved-Inv none s inv tt
move_head-Inv (some n) s e is_stub inv =
    let q = s.queue in
    let (rest, r, m) = drop-IsChain q.next s.unlinked q.head inv.rest q.tail n e inv.memory in
    record {
      rest = rest;
      memory = m;
      holds = inv.holds ∙ values-stub q.head inv.rest is_stub ∙ ap values r;
      order = inv.order;
      knows = tt;
    }

is_node : (a : ℕ) → (a == stub) ≡ false → a ≢ stub
is_node a e = ground arith

looking-Inv :
    (b : Bool) (s : System)
    → (s.queue.head == stub) ≡ b
    → Inv s
    → Inv (
        after
          (if b
            then move_head s.queue (s.queue.next s.queue.head)
            else take_head (goes_on at_tail) s.queue (s.queue.next s.queue.head))
          s)
looking-Inv true s e inv = move_head-Inv (s.queue.next s.queue.head) s refl e inv
looking-Inv false s e inv =
    take_head-Inv (goes_on at_tail) (s.queue.next s.queue.head) s refl e inv
      (unfold after in moved-Inv (some at_tail) s inv (unfold Knows in is_node s.queue.head e))

at_tail-Inv :
    (b : Bool) (s : System)
    → (s.queue.head == s.queue.tail) ≡ b
    → s.queue.head ≢ stub
    → Inv s
    → Inv (after (if b then (goes_on inserting, s.queue) else (returns none, s.queue)) s)
unfolding after Knows NotIn
at_tail-Inv false s e k inv = moved-Inv none s inv tt
at_tail-Inv true s e k inv =
    let q = s.queue in
    let same : q.tail ≡ q.head = equal q.head q.tail e in
    let alone : inv.rest ≡ [] =
      Chain-alone (behind q.next s.unlinked) q.head inv.rest
        (subst (Chain (behind q.next s.unlinked) q.head inv.rest) same inv.memory.chain)
        inv.memory.distinct in
    moved-Inv (some inserting) s inv (k, subst (NotIn stub) (sym alone) tt)
  where
    equal : (a b : ℕ) → (a == b) ≡ true → b ≡ a
    equal a b e = ground arith

known :
    (s : System) (p : Popping)
    → s.consumer ≡ some p
    → (inv : Inv s) → Knows (some p) s.queue.head inv.rest s.unlinked
known s p e inv = subst (λ c. Knows c s.queue.head inv.rest s.unlinked) e inv.knows

-- Every access of `pop` keeps the chain.
pub pop_next-Inv : (p : Popping) (s : System) → s.consumer ≡ some p → Inv s → Inv (pop_next p s)
unfolding pop_next owing pop_step exchange link after Knows NotIn
pop_next-Inv looking s e inv = looking-Inv (s.queue.head == stub) s refl inv
pop_next-Inv at_tail s e inv =
    at_tail-Inv (s.queue.head == s.queue.tail) s refl (known s at_tail e inv) inv
pop_next-Inv inserting s e inv =
    let q = s.queue in
    let k : Knows (some inserting) q.head inv.rest s.unlinked = known s inserting e inv in
    let out : NotIn stub (q.head ∷ inv.rest) = ((λ (x : stub ≡ q.head). k.0 (sym x)), k.1) in
    record {
      rest = inv.rest ++ stub ∷ [];
      memory = exchange-IsChain q.next s.unlinked q.head inv.rest q.tail stub out inv.memory;
      holds = inv.holds ∙ sym (values-snoc_stub (q.head ∷ inv.rest));
      order = inv.order;
      knows = (k.0, store-same s.unlinked q.tail (some stub));
    }
pop_next-Inv (linking prev) s e inv =
    let q = s.queue in
    let k : Knows (some (linking prev)) q.head inv.rest s.unlinked = known s (linking prev) e inv in
    record {
      rest = inv.rest;
      memory = link-IsChain q.next s.unlinked q.head inv.rest q.tail prev stub k.1 inv.memory;
      holds = inv.holds;
      order = inv.order;
      knows = k.0;
    }
pop_next-Inv rereading s e inv =
    take_head-Inv (returns none) (s.queue.next s.queue.head) s refl
      (not_same s.queue.head stub (known s rereading e inv)) inv (moved-Inv none s inv tt)
