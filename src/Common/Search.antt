-- ===== src/Common/Search.antt =====
-- The search of the C++ standard library (`std::find`, `std::search`, `std::memchr`) for the first
-- place in a sequence at which a test of what follows holds.
use Prim.Native.Nat.{ℕ, zero, suc, ◌<◌}
use mathlib.Core.Path.{◌≡◌, refl}
use mathlib.Core.Logic.{inl, inr}
use mathlib.Core.Bool.{Bool, true, false}
use mathlib.Core.Option.{Option, none, some}
use mathlib.Core.Option
use mathlib.Core.List.{List, [], ◌∷◌}
use native.Mathlib.Omega.{arith}
use rocket_rpc.Common.Lists.{length, drop}
use rocket_rpc.Common.Tests.{if◌then◌else◌, Bool-cases}

module _ {ℓ} {A : Type ℓ} (test : List A → Bool) where
  unfoldable pub find_first : List A → Option ℕ
  find_first [] = none
  find_first (x ∷ xs) = if test (x ∷ xs) then some 0 else Option.map suc (find_first xs)

  -- The result of a search: no place, or the first one.
  abbrev pub IsFirst : List A → Option ℕ → Type 0
  IsFirst xs none = (j : ℕ) → test (drop j xs) ≡ false
  IsFirst xs (some i) =
      (i < length xs) × (test (drop i xs) ≡ true) × ((j : ℕ) → j < i → test (drop j xs) ≡ false)

  drop-nil : (j : ℕ) → drop {A = A} j [] ≡ []
  drop-nil zero = refl
  drop-nil (suc j) = refl

  IsFirst-suc :
      (x : A) (xs : List A) (o : Option ℕ)
      → test (x ∷ xs) ≡ false
      → IsFirst xs o
      → IsFirst (x ∷ xs) (Option.map suc o)
  IsFirst-suc x xs none h f = elim [ zero ↦ h | suc j ↦ f j ]
  IsFirst-suc x xs (some i) h (lt, hit, before) =
      (omega arith, hit, elim [ zero ↦ λ _. h | suc j ↦ λ k. before j (omega arith) ])

  pub find_first-IsFirst : test [] ≡ false → (xs : List A) → IsFirst xs (find_first xs)
  unfolding find_first
  find_first-IsFirst h [] = λ j. rw (drop-nil j) h
  find_first-IsFirst h (x ∷ xs) = elim (Bool-cases (test (x ∷ xs))) [
    | inl hit ↦ rw hit (omega arith, hit, λ j k. absurd (omega arith))
    | inr miss ↦ rw miss (IsFirst-suc x xs (find_first xs) miss (find_first-IsFirst h xs))
  ]
