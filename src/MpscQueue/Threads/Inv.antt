-- ===== src/MpscQueue/Threads/Inv.antt =====
-- The chain that the queue is at every moment, half-made links included, and what the consumer knows.
use rocket_rpc.Common.{
  ℕ, ◌≡◌, ◌≢◌, refl, sym, ap, subst, ◌∙◌, Option, none, some, List, [], ◌∷◌, ◌++◌, ℕ_discrete,
}
use rocket_rpc.MpscQueue.{stub, store, Popping, looking, at_tail, inserting, linking, rereading}
use rocket_rpc.MpscQueue.Chain.{
  NotIn, Distinct, Chain, behind, values, behind-none, behind-some, behind-same, not_last,
  NotIn-snoc_inv, store-same, store-other, Distinct-snoc, Chain-last, Chain-same, Chain-snoc,
}
use rocket_rpc.MpscQueue.Threads.{System}

-- What the consumer knows at each place of `pop`.
unfoldable pub Knows : Option Popping → ℕ → List ℕ → (ℕ → Option ℕ) → Type 0
Knows none head rest unlinked = Unit
Knows (some looking) head rest unlinked = Unit
Knows (some at_tail) head rest unlinked = head ≢ stub
Knows (some inserting) head rest unlinked = (head ≢ stub) × NotIn stub rest
Knows (some (linking prev)) head rest unlinked = (head ≢ stub) × (unlinked prev ≡ some stub)
Knows (some rereading) head rest unlinked = head ≢ stub

-- The memory: the nodes from the head to the tail form a chain, if the links that threads still owe are
-- counted in; a link that is there is not owed, and only nodes of the chain are owed a link.
pub record IsChain (next unlinked : ℕ → Option ℕ) (head : ℕ) (rest : List ℕ) (tail : ℕ)
    : Type 0 where
  pub chain : Chain (behind next unlinked) head rest tail
  pub distinct : Distinct (head ∷ rest)
  pub idle : (a : ℕ) → NotIn a (head ∷ rest) → unlinked a ≡ none
  pub linked : (a b : ℕ) → next a ≡ some b → unlinked a ≡ none

pub record Inv (s : System) : Type 0 where
  pub rest : List ℕ
  pub memory : IsChain s.queue.next s.unlinked s.queue.head rest s.queue.tail
  pub holds : s.fifo ≡ values (s.queue.head ∷ rest)
  pub order : s.pushed ≡ s.popped ++ s.fifo
  pub knows : Knows s.consumer s.queue.head rest s.unlinked

none≢some : {o : Option ℕ} (b : ℕ) → o ≡ none → o ≡ some b → ⊥
none≢some b e f = cc

module _ (next unlinked : ℕ → Option ℕ) (head : ℕ) (rest : List ℕ) (tail : ℕ) where
  pub tail-next :
      Chain (behind next unlinked) head rest tail → (next tail ≡ none) × (unlinked tail ≡ none)
  tail-next c = ends (next tail) refl
    where
      last : behind next unlinked tail ≡ none
      last = Chain-last (behind next unlinked) head rest tail c

      ends : (o : Option ℕ) → next tail ≡ o → (next tail ≡ none) × (unlinked tail ≡ none)
      ends none e = (e, sym (behind-none next unlinked tail e) ∙ last)
      ends (some b) e = absurd (none≢some b last (behind-some next unlinked tail b e))

  pub exchange-IsChain :
      (node : ℕ)
      → NotIn node (head ∷ rest)
      → IsChain next unlinked head rest tail
      → IsChain
          (store next node none)
          (store unlinked tail (some node))
          head
          (rest ++ node ∷ [])
          node
  exchange-IsChain node n m =
      let (nt, ut) = tail-next m.chain in
      let apart : node ≢ tail = not_last (behind next unlinked) node head rest tail m.chain n in
      record {
        chain =
            Chain-snoc (behind next unlinked)
              (behind (store next node none) (store unlinked tail (some node))) head rest tail node
              (behind-none (store next node none) (store unlinked tail (some node)) tail
                  (store-other next node tail none (λ e. apart (sym e)) ∙ nt)
                ∙ store-same unlinked tail (some node))
              (behind-none (store next node none) (store unlinked tail (some node)) node
                  (store-same next node none)
                ∙ store-other unlinked tail node (some node) apart
                ∙ m.idle node n)
              (λ a t x.
                behind-same next unlinked (store next node none) (store unlinked tail (some node)) a
                  (store-other next node a none x) (store-other unlinked tail a (some node) t))
              n m.distinct m.chain;
        distinct = Distinct-snoc (head ∷ rest) node m.distinct n;
        idle = λ a h.
            let (k, x) = NotIn-snoc_inv a (head ∷ rest) node h in
            store-other unlinked tail a (some node)
              (not_last (behind next unlinked) a head rest tail m.chain k)
            ∙ m.idle a k;
        linked = λ a b e. elim (ℕ_discrete a node) [
          | yes x ↦ absurd (none≢some b (ap (store next node none) x ∙ store-same next node none) e)
          | no x ↦
              let f : next a ≡ some b = sym (store-other next node a none x) ∙ e in
              store-other unlinked tail a (some node) (λ t. none≢some b (ap next t ∙ nt) f)
              ∙ m.linked a b f
        ];
      }

  owed :
      (prev node : ℕ)
      → unlinked prev ≡ some node
      → IsChain next unlinked head rest tail
      → next prev ≡ none
  owed prev node u m = open_link (next prev) refl
    where
      open_link : (o : Option ℕ) → next prev ≡ o → next prev ≡ none
      open_link none e = e
      open_link (some b) e = absurd (none≢some node (m.linked prev b e) u)

  pub link-IsChain :
      (prev node : ℕ)
      → unlinked prev ≡ some node
      → IsChain next unlinked head rest tail
      → IsChain (store next prev (some node)) (store unlinked prev none) head rest tail
  link-IsChain prev node u m =
      let same : (a : ℕ)
          → behind (store next prev (some node)) (store unlinked prev none) a
            ≡ behind next unlinked a =
        λ a. elim (ℕ_discrete a prev) [
          | yes x ↦
              behind-some (store next prev (some node)) (store unlinked prev none) a node
                (ap (store next prev (some node)) x ∙ store-same next prev (some node))
              ∙ sym
                  (behind-none next unlinked a (ap next x ∙ owed prev node u m) ∙ ap unlinked x ∙ u)
          | no x ↦
              behind-same next unlinked (store next prev (some node)) (store unlinked prev none) a
                (store-other next prev a (some node) x) (store-other unlinked prev a none x)
        ] in
      record {
        chain =
            Chain-same (behind next unlinked)
              (behind (store next prev (some node)) (store unlinked prev none)) head rest tail same
              m.chain;
        distinct = m.distinct;
        idle = λ a n. elim (ℕ_discrete a prev) [
          | yes x ↦ ap (store unlinked prev none) x ∙ store-same unlinked prev none
          | no x ↦ store-other unlinked prev a none x ∙ m.idle a n
        ];
        linked = λ a b e. elim (ℕ_discrete a prev) [
          | yes x ↦ ap (store unlinked prev none) x ∙ store-same unlinked prev none
          | no x ↦
              store-other unlinked prev a none x
              ∙ m.linked a b (sym (store-other next prev a (some node) x) ∙ e)
        ];
      }

-- The head goes out.
pub drop-IsChain :
    (next unlinked : ℕ → Option ℕ) (head : ℕ) (rest : List ℕ) (tail n : ℕ)
    → next head ≡ some n
    → IsChain next unlinked head rest tail
    → (rest' : List ℕ) × (rest ≡ n ∷ rest') × IsChain next unlinked n rest' tail
unfolding Chain Distinct NotIn
drop-IsChain next unlinked head [] tail n e m =
    absurd (none≢some n (m.chain.1) (behind-some next unlinked head n e))
drop-IsChain next unlinked head (b ∷ rest) tail n e m =
    let same : b ≡ n = some-inj (sym m.chain.0 ∙ behind-some next unlinked head n e) in
    (
      rest,
      ap (λ k. k ∷ rest) same,
      subst (λ k. IsChain next unlinked k rest tail) same
          (record {
            chain = m.chain.1;
            distinct = m.distinct.1;
            idle = λ a h. elim (ℕ_discrete a head) [
              | yes x ↦ ap unlinked x ∙ m.linked head n e
              | no x ↦ m.idle a (x, h)
            ];
            linked = m.linked;
          }),
    )
  where
    some-inj : {x y : ℕ} → some x ≡ some y → x ≡ y
    some-inj f = cc
