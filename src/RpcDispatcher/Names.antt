-- ===== src/RpcDispatcher/Names.antt =====
-- The names of services and methods, and the maps of the dispatcher.
use rocket_rpc.Common.{
  ℕ, suc, ◌+◌, ◌-◌, ◌<◌, ◌≡◌, refl, sym, ap, ap₂, append_assoc, ◌∙◌, true, false, none, some, List,
  [], ◌∷◌, ◌++◌, arith, if◌then◌else◌, length, drop, Bool-cases, inl, inr, length-append,
  drop-append, take-append, take_of_ge,
}
use mathlib.Core.Bool.{false≢true}
use rocket_rpc.RpcDispatcher.{
  RpcDispatcher, RpcExecutionMode, same, lookup, assign, after_head, rfind_dot, split_at,
  parse_service_full_name, execution_mode_for, or_default, set_method_execution_mode,
}

-- A name with no dot.
abbrev pub NoDot : List ℕ → Type 0
NoDot name = rfind_dot name ≡ none

rfind_dot-split : (s m : List ℕ) → NoDot m → rfind_dot (s ++ 46 ∷ m) ≡ some (length s)
unfolding rfind_dot after_head
rfind_dot-split [] m h = rw h refl
rfind_dot-split (x ∷ s) m h = rw (rfind_dot-split s m h) refl

parse_at :
    (name : List ℕ)
    → 0 < length name
    → parse_service_full_name name ≡ split_at name (rfind_dot name)
unfolding parse_service_full_name
parse_at [] h = absurd (omega arith)
parse_at (x ∷ name) h = refl

-- A name is split at its last dot: the method is what follows it, whatever dots the service has.
pub parse_service_full_name_lem :
    (s m : List ℕ) → NoDot m → parse_service_full_name (s ++ 46 ∷ m) ≡ some (s, m)
unfolding split_at
parse_service_full_name_lem s m h =
    let len : length (s ++ 46 ∷ m) ≡ length s + suc (length m) = length-append s (46 ∷ m) in
    let behind : drop (length s + 1) (s ++ 46 ∷ m) ≡ m =
      ap (drop (length s + 1)) (sym (append_assoc s (46 ∷ []) m))
      ∙ drop-append (length s + 1) (s ++ 46 ∷ []) m (omega (arith, length-append s (46 ∷ []))) in
    parse_at (s ++ 46 ∷ m) (omega arith)
    ∙ rw (rfind_dot-split s m h, behind)
        (ap₂ (λ a b. some (a, b)) (take-append (length s) s (46 ∷ m) refl)
          (take_of_ge (length (s ++ 46 ∷ m) - length s - 1) m (omega arith)))

pub same_refl : (k : List ℕ) → same k k ≡ true
unfolding same
same_refl [] = refl
same_refl (x ∷ k) = rw (same_refl k) (ground arith)

pub lookup-assign {ℓ} :
    {A : Type ℓ} (k : List ℕ) (a : A) (m : List (List ℕ × A)) → lookup k (assign k a m) ≡ some a
unfolding lookup assign
lookup-assign k a [] = rw (same_refl k) refl
lookup-assign k a ((j, b) ∷ m) = elim (Bool-cases (same j k)) [
  | inl hit ↦ rw (hit, hit) refl
  | inr miss ↦ rw (miss, miss) (lookup-assign k a m)
]

pub lookup-assign_other {ℓ} :
    {A : Type ℓ} (k l : List ℕ) (a : A) (m : List (List ℕ × A))
    → same k l ≡ false
    → ((j : List ℕ) → same j k ≡ true → same j l ≡ false)
    → lookup l (assign k a m) ≡ lookup l m
unfolding lookup assign
lookup-assign_other k l a [] h t = rw h refl
lookup-assign_other k l a ((j, b) ∷ m) h t = elim (Bool-cases (same j k)) [
  | inl hit ↦ rw (hit, t j hit) refl
  | inr miss ↦ rw miss (ap (λ r. if same j l then some b else r) (lookup-assign_other k l a m h t))
]

pub same→≡ : (j k : List ℕ) → same j k ≡ true → j ≡ k
unfolding same
same→≡ [] [] h = refl
same→≡ [] (y ∷ k) h = absurd (false≢true h)
same→≡ (x ∷ j) [] h = absurd (false≢true h)
same→≡ (x ∷ j) (y ∷ k) h =
    let first : x ≡ y = ground arith in
    let rest : same j k ≡ true = ground arith in ap₂ ◌∷◌ first (same→≡ j k rest)

-- A mode that is set for a method is the one that it runs in, and every other method runs in the
-- mode in which it ran before.
pub set_method_execution_mode_lem :
    (d : RpcDispatcher) (x : ℕ) (name other : List ℕ) (mode : RpcExecutionMode)
    → same (x ∷ name) other ≡ false
    → let d' = (set_method_execution_mode d (x ∷ name) mode).1 in
      (execution_mode_for d' (x ∷ name) ≡ mode)
      × (execution_mode_for d' other ≡ execution_mode_for d other)
unfolding set_method_execution_mode execution_mode_for or_default
set_method_execution_mode_lem d x name other mode h = (
  rw (lookup-assign (x ∷ name) mode d.method_execution_modes) refl,
  ap (or_default d.default_execution_mode) (
      lookup-assign_other (x ∷ name) other mode d.method_execution_modes h
        λ j e. rw (same→≡ j (x ∷ name) e) h),
)
