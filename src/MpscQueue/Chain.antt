-- ===== src/MpscQueue/Chain.antt =====
-- Chains of nodes: from one node to the next up to the last, no node twice.
use rocket_rpc.Common.{
  ℕ, ◌≡◌, ◌≢◌, inl, inr, refl, sym, ap, ap₂, subst, ◌∙◌, true, false, Option, none, some, List, [],
  ◌∷◌, ◌++◌, arith, ◌==◌, if◌then◌else◌, Bool-cases,
}
use rocket_rpc.MpscQueue.{store, stub}

unfoldable pub NotIn : ℕ → List ℕ → Type 0
NotIn a [] = Unit
NotIn a (b ∷ l) = (a ≢ b) × NotIn a l

unfoldable pub Distinct : List ℕ → Type 0
Distinct [] = Unit
Distinct (a ∷ l) = NotIn a l × Distinct l

-- From `h` by `s` through the list to `t`, behind which there is nothing.
unfoldable pub Chain : (ℕ → Option ℕ) → ℕ → List ℕ → ℕ → Type 0
Chain s h [] t = (h ≡ t) × (s h ≡ none)
Chain s h (b ∷ l) t = (s h ≡ some b) × Chain s b l t

-- What is behind a node: the link, or the link that a thread is about to make.
unfoldable pub behind : (next unlinked : ℕ → Option ℕ) → ℕ → Option ℕ
behind next unlinked a = elim (next a) [ none ↦ unlinked a | some b ↦ some b ]

-- The nodes other than the stub, with its place left out.
unfoldable pub values : List ℕ → List ℕ
values [] = []
values (a ∷ l) = let rest = values l in if a == stub then rest else a ∷ rest

pub behind-none :
    (next unlinked : ℕ → Option ℕ) (a : ℕ) → next a ≡ none → behind next unlinked a ≡ unlinked a
unfolding behind
behind-none next unlinked a e =
    ap (λ (o : Option ℕ). elim o as (λ _. Option ℕ) [ none ↦ unlinked a | some b ↦ some b ]) e

pub behind-some :
    (next unlinked : ℕ → Option ℕ) (a b : ℕ) → next a ≡ some b → behind next unlinked a ≡ some b
unfolding behind
behind-some next unlinked a b e =
    ap (λ (o : Option ℕ). elim o as (λ _. Option ℕ) [ none ↦ unlinked a | some c ↦ some c ]) e

pub behind-same :
    (next unlinked next' unlinked' : ℕ → Option ℕ) (a : ℕ)
    → next' a ≡ next a
    → unlinked' a ≡ unlinked a
    → behind next' unlinked' a ≡ behind next unlinked a
unfolding behind
behind-same next unlinked next' unlinked' a e f =
    ap₂ (λ (o u : Option ℕ). elim o as (λ _. Option ℕ) [ none ↦ u | some c ↦ some c ]) e f

pub store-same : (f : ℕ → Option ℕ) (k : ℕ) (v : Option ℕ) → store f k v k ≡ v
unfolding store
store-same f k v = ground arith

pub store-other : (f : ℕ → Option ℕ) (k a : ℕ) (v : Option ℕ) → a ≢ k → store f k v a ≡ f a
unfolding store
store-other f k a v n = ground arith

pub not_same : (a b : ℕ) → a ≢ b → (a == b) ≡ false
not_same a b n = ground arith

pub NotIn-snoc : (a : ℕ) (l : List ℕ) (x : ℕ) → NotIn a l → a ≢ x → NotIn a (l ++ x ∷ [])
unfolding NotIn
NotIn-snoc a [] x h n = (n, tt)
NotIn-snoc a (b ∷ l) x h n = (h.0, NotIn-snoc a l x h.1 n)

pub NotIn-snoc_inv : (a : ℕ) (l : List ℕ) (x : ℕ) → NotIn a (l ++ x ∷ []) → NotIn a l × (a ≢ x)
unfolding NotIn
NotIn-snoc_inv a [] x h = (tt, h.0)
NotIn-snoc_inv a (b ∷ l) x h = let (n, k) = NotIn-snoc_inv a l x h.1 in ((h.0, n), k)

pub Distinct-snoc : (l : List ℕ) (x : ℕ) → Distinct l → NotIn x l → Distinct (l ++ x ∷ [])
unfolding Distinct NotIn
Distinct-snoc [] x d n = (tt, tt)
Distinct-snoc (a ∷ l) x d n = (NotIn-snoc a l x d.0 (λ e. n.0 (sym e)), Distinct-snoc l x d.1 n.1)

-- A value that is not in the queue, and is not the stub, is nowhere in the chain.
pub NotIn-values : (x : ℕ) (l : List ℕ) → x ≢ stub → NotIn x (values l) → NotIn x l
unfolding NotIn values
NotIn-values x [] n h = tt
NotIn-values x (a ∷ l) n h = elim (Bool-cases (a == stub)) [
  | inl e ↦
      let k : NotIn x (values l) =
        subst (λ b. NotIn x (if b then values l else a ∷ values l)) e h in
      ((λ (f : x ≡ a). n (omega (arith, is_stub a e))), NotIn-values x l n k)
  | inr e ↦
      let k : NotIn x (a ∷ values l) =
        subst (λ b. NotIn x (if b then values l else a ∷ values l)) e h in
      (k.0, NotIn-values x l n k.1)
]
  where
    is_stub : (b : ℕ) → (b == stub) ≡ true → b ≡ stub
    is_stub b e = ground arith

pub values-snoc : (l : List ℕ) (x : ℕ) → x ≢ stub → values (l ++ x ∷ []) ≡ values l ++ x ∷ []
unfolding values
values-snoc [] x n = rw (not_same x stub n) refl
values-snoc (a ∷ l) x n = elim (Bool-cases (a == stub)) [
  | inl e ↦ rw e (values-snoc l x n)
  | inr e ↦ rw e (ap (λ r. a ∷ r) (values-snoc l x n))
]

pub values-snoc_stub : (l : List ℕ) → values (l ++ stub ∷ []) ≡ values l
unfolding values
values-snoc_stub [] = refl
values-snoc_stub (a ∷ l) = elim (Bool-cases (a == stub)) [
  | inl e ↦ rw e (values-snoc_stub l)
  | inr e ↦ rw e (ap (λ r. a ∷ r) (values-snoc_stub l))
]

-- The last node is in the chain, and nothing is behind it.
pub Chain-last : (s : ℕ → Option ℕ) (h : ℕ) (l : List ℕ) (t : ℕ) → Chain s h l t → s t ≡ none
unfolding Chain
Chain-last s h [] t c = subst (λ k. s k ≡ none) c.0 c.1
Chain-last s h (b ∷ l) t c = Chain-last s b l t c.1

pub not_last :
    (s : ℕ → Option ℕ) (x h : ℕ) (l : List ℕ) (t : ℕ) → Chain s h l t → NotIn x (h ∷ l) → x ≢ t
unfolding Chain NotIn
not_last s x h [] t c n e = n.0 (e ∙ sym c.0)
not_last s x h (b ∷ l) t c n e = not_last s x b l t c.1 n.1 e

-- A node that is its own chain's last one is its only one.
pub Chain-alone :
    (s : ℕ → Option ℕ) (h : ℕ) (l : List ℕ) → Chain s h l h → Distinct (h ∷ l) → l ≡ []
unfolding Chain Distinct
Chain-alone s h [] c d = refl
Chain-alone s h (b ∷ l) c d = absurd (not_last s h b l h c.1 d.0 refl)

pub Chain-same :
    (s s' : ℕ → Option ℕ) (h : ℕ) (l : List ℕ) (t : ℕ)
    → ((a : ℕ) → s' a ≡ s a)
    → Chain s h l t
    → Chain s' h l t
unfolding Chain
Chain-same s s' h [] t e c = (c.0, e h ∙ c.1)
Chain-same s s' h (b ∷ l) t e c = (e h ∙ c.0, Chain-same s s' b l t e c.1)

pub Chain-snoc :
    (s s' : ℕ → Option ℕ) (h : ℕ) (l : List ℕ) (t x : ℕ)
    → s' t ≡ some x
    → s' x ≡ none
    → ((a : ℕ) → a ≢ t → a ≢ x → s' a ≡ s a)
    → NotIn x (h ∷ l)
    → Distinct (h ∷ l)
    → Chain s h l t
    → Chain s' h (l ++ x ∷ []) x
unfolding Chain NotIn Distinct
Chain-snoc s s' h [] t x st sx o n d c = (subst (λ k. s' k ≡ some x) (sym c.0) st, (refl, sx))
Chain-snoc s s' h (b ∷ l) t x st sx o n d c = (
  o h (not_last s h b l t c.1 d.0) (λ e. n.0 (sym e)) ∙ c.0,
  Chain-snoc s s' b l t x st sx o n.1 d.1 c.1,
)
