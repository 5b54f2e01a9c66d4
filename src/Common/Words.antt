-- ===== src/Common/Words.antt =====
-- Machine words: `size_t` arithmetic, and the bytes of an integer in memory.
-- A value of `size_t`, `int32_t` or `int64_t` is its bit pattern, a number below 2 ^ 64 or 2 ^ 32.
use Prim.Native.Nat.{ℕ, zero, suc, ◌+◌, ◌-◌, ◌*◌, ◌/◌, ◌%◌, ◌^◌, ◌<◌}
use mathlib.Core.Path.{◌≡◌, refl, ap, ap₂, ◌∙◌}
use mathlib.Core.Bool.{Bool}
use mathlib.Core.List.{List, [], ◌∷◌, ◌++◌, reverse, reverse-reverse, reverse-cons}
use native.Mathlib.Omega.{arith}
use native.Mathlib.Nat.{pow-suc}
use rocket_rpc.Common.Lists.{length, length-append}
use rocket_rpc.Common.Tests.{ltb}

abbrev pub size_mod : ℕ
size_mod = 2 ^ 64

abbrev pub add_size : ℕ → ℕ → ℕ
add_size a b = (a + b) % size_mod

-- Subtraction wraps round below zero.
abbrev pub sub_size : ℕ → ℕ → ℕ
sub_size a b = (a + size_mod - b) % size_mod

-- The comparison of two `int32_t` given by their bit patterns.
abbrev pub slt32 : ℕ → ℕ → Bool
slt32 a b = ltb ((a + 2 ^ 31) % 2 ^ 32) ((b + 2 ^ 31) % 2 ^ 32)

-- The `k` bytes of an integer as a little-endian host keeps them in memory.
pub le_bytes : ℕ → ℕ → List ℕ
le_bytes zero n = []
le_bytes (suc k) n = n % 256 ∷ le_bytes k (n / 256)

-- The integer that such bytes stand for.
pub of_le_bytes : List ℕ → ℕ
of_le_bytes [] = 0
of_le_bytes (b ∷ bs) = b + 256 * of_le_bytes bs

-- `__builtin_bswap32` and `__builtin_bswap64` (k = 4, 8): the bytes in the other order.
pub bswap : ℕ → ℕ → ℕ
bswap k n = of_le_bytes (reverse (le_bytes k n))

abbrev pub All {ℓ κ} : {A : Type ℓ} → (A → Type κ) → List A → Type κ
All P [] = Unit
All P (x ∷ xs) = P x × All P xs

pub All-append {ℓ κ} :
    {A : Type ℓ} (P : A → Type κ) (xs ys : List A) → All P xs → All P ys → All P (xs ++ ys)
All-append P [] ys hx hy = hy
All-append P (x ∷ xs) ys hx hy = (hx.0, All-append P xs ys hx.1 hy)

abbrev pub IsByte : ℕ → Type 0
IsByte b = b < 256

length-reverse {ℓ} : {A : Type ℓ} (xs : List A) → length (reverse xs) ≡ length xs
length-reverse [] = refl
length-reverse (x ∷ xs) =
    omega
      (arith, ap length (reverse-cons x xs), length-append (reverse xs) (x ∷ []), length-reverse xs)

All-reverse {ℓ κ} : {A : Type ℓ} (P : A → Type κ) (xs : List A) → All P xs → All P (reverse xs)
All-reverse P [] h = tt
All-reverse P (x ∷ xs) h =
    rw (reverse-cons x xs) (All-append P (reverse xs) (x ∷ []) (All-reverse P xs h.1) (h.0, tt))

pub length-le_bytes : (k n : ℕ) → length (le_bytes k n) ≡ k
unfolding le_bytes
length-le_bytes zero n = refl
length-le_bytes (suc k) n = ap suc (length-le_bytes k (n / 256))

pub le_bytes-IsByte : (k n : ℕ) → All IsByte (le_bytes k n)
unfolding le_bytes
le_bytes-IsByte zero n = tt
le_bytes-IsByte (suc k) n = (omega arith, le_bytes-IsByte k (n / 256))

of_le_bytes-le_bytes : (k n : ℕ) → n < 256 ^ k → of_le_bytes (le_bytes k n) ≡ n
unfolding le_bytes of_le_bytes
of_le_bytes-le_bytes zero n h = omega arith
of_le_bytes-le_bytes (suc k) n h =
    omega (arith, of_le_bytes-le_bytes k (n / 256) (omega (arith, pow-suc 256 k)))

le_bytes-of_le_bytes :
    (bs : List ℕ) (k : ℕ) → k ≡ length bs → All IsByte bs → le_bytes k (of_le_bytes bs) ≡ bs
unfolding le_bytes of_le_bytes
le_bytes-of_le_bytes [] zero e h = refl
le_bytes-of_le_bytes [] (suc k) e h = absurd (omega arith)
le_bytes-of_le_bytes (b ∷ bs) zero e h = absurd (omega arith)
le_bytes-of_le_bytes (b ∷ bs) (suc k) e h =
    ap₂ ◌∷◌ (omega arith)
      (ap (le_bytes k) (omega arith) ∙ le_bytes-of_le_bytes bs k (omega arith) h.1)

-- The bytes of a swapped integer are its bytes in the other order: big-endian.
pub le_bytes-bswap : (k n : ℕ) → le_bytes k (bswap k n) ≡ reverse (le_bytes k n)
unfolding bswap
le_bytes-bswap k n =
    le_bytes-of_le_bytes (reverse (le_bytes k n)) k
      (omega (arith, length-reverse (le_bytes k n), length-le_bytes k n))
      (All-reverse IsByte (le_bytes k n) (le_bytes-IsByte k n))

-- An integer that is swapped, stored, loaded and swapped again comes back.
pub bswap-round_trip : (k n : ℕ) → n < 256 ^ k → bswap k (of_le_bytes (le_bytes k (bswap k n))) ≡ n
unfolding bswap
bswap-round_trip k n h =
    ap (λ r. of_le_bytes (reverse (le_bytes k (of_le_bytes r)))) (le_bytes-bswap k n)
    ∙ ap (λ r. of_le_bytes (reverse r)) (le_bytes-bswap k n)
    ∙ ap of_le_bytes (reverse-reverse (le_bytes k n))
    ∙ of_le_bytes-le_bytes k n h
