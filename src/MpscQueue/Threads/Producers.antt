-- ===== src/MpscQueue/Threads/Producers.antt =====
-- What the producers do keeps the chain.
use rocket_rpc.Common.{
  ℕ, ◌≡◌, ◌≢◌, sym, ap, subst, ◌∙◌, Option, none, some, List, [], ◌∷◌, ◌++◌, append_assoc,
}
use rocket_rpc.MpscQueue.{
  exchange, link, stub, store, Popping, looking, at_tail, inserting, linking, rereading,
}
use rocket_rpc.MpscQueue.Chain.{NotIn, store-other, NotIn-snoc, NotIn-values, values-snoc}
use rocket_rpc.MpscQueue.Threads.{System, enqueue, finish_push}
use rocket_rpc.MpscQueue.Threads.Inv.{Inv, Knows, tail-next, exchange-IsChain, link-IsChain}

Knows-exchange :
    (c : Option Popping) (head : ℕ) (rest : List ℕ) (next unlinked : ℕ → Option ℕ) (tail node : ℕ)
    → node ≢ stub
    → unlinked tail ≡ none
    → Knows c head rest unlinked
    → Knows c head (rest ++ node ∷ []) (store unlinked tail (some node))
unfolding Knows
Knows-exchange none head rest next unlinked tail node ne u k = tt
Knows-exchange (some looking) head rest next unlinked tail node ne u k = tt
Knows-exchange (some at_tail) head rest next unlinked tail node ne u k = k
Knows-exchange (some inserting) head rest next unlinked tail node ne u k =
    (k.0, NotIn-snoc stub rest node k.1 (λ e. ne (sym e)))
Knows-exchange (some (linking prev)) head rest next unlinked tail node ne u k =
    (k.0, store-other unlinked tail prev (some node) (λ e. owed≢none (ap unlinked e ∙ u) k.1) ∙ k.1)
  where
    owed≢none : {o : Option ℕ} → o ≡ none → o ≡ some stub → ⊥
    owed≢none e f = cc
Knows-exchange (some rereading) head rest next unlinked tail node ne u k = k

Knows-link :
    (c : Option Popping) (head : ℕ) (rest : List ℕ) (unlinked : ℕ → Option ℕ) (prev node : ℕ)
    → node ≢ stub
    → unlinked prev ≡ some node
    → Knows c head rest unlinked
    → Knows c head rest (store unlinked prev none)
unfolding Knows
Knows-link none head rest unlinked prev node ne u k = tt
Knows-link (some looking) head rest unlinked prev node ne u k = tt
Knows-link (some at_tail) head rest unlinked prev node ne u k = k
Knows-link (some inserting) head rest unlinked prev node ne u k = k
Knows-link (some (linking p)) head rest unlinked prev node ne u k =
    (k.0, store-other unlinked prev p none (λ e. ne (the_stub (ap unlinked e ∙ u) k.1)) ∙ k.1)
  where
    the_stub : {o : Option ℕ} → o ≡ some node → o ≡ some stub → node ≡ stub
    the_stub e f = cc
Knows-link (some rereading) head rest unlinked prev node ne u k = k

pub enqueue-Inv :
    (node : ℕ) (s : System) → node ≢ stub → NotIn node s.fifo → Inv s → Inv (enqueue node s)
unfolding enqueue exchange
enqueue-Inv node s ne n inv =
    let q = s.queue in
    let out : NotIn node (q.head ∷ inv.rest) =
      NotIn-values node (q.head ∷ inv.rest) ne (subst (NotIn node) inv.holds n) in
    record {
      rest = inv.rest ++ node ∷ [];
      memory = exchange-IsChain q.next s.unlinked q.head inv.rest q.tail node out inv.memory;
      holds = ap (λ l. l ++ node ∷ []) inv.holds ∙ sym (values-snoc (q.head ∷ inv.rest) node ne);
      order = ap (λ l. l ++ node ∷ []) inv.order ∙ append_assoc s.popped s.fifo (node ∷ []);
      knows =
          Knows-exchange s.consumer q.head inv.rest q.next s.unlinked q.tail node ne
            (tail-next q.next s.unlinked q.head inv.rest q.tail inv.memory.chain).1 inv.knows;
    }

pub finish_push-Inv :
    (prev node : ℕ) (s : System)
    → node ≢ stub
    → s.unlinked prev ≡ some node
    → Inv s
    → Inv (finish_push prev node s)
unfolding finish_push link
finish_push-Inv prev node s ne u inv =
    let q = s.queue in
    record {
      rest = inv.rest;
      memory = link-IsChain q.next s.unlinked q.head inv.rest q.tail prev node u inv.memory;
      holds = inv.holds;
      order = inv.order;
      knows = Knows-link s.consumer q.head inv.rest s.unlinked prev node ne u inv.knows;
    }
