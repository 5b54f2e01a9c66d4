-- ===== src/Common/Lists.antt =====
-- Lists measured and indexed by native numbers, and a region of memory as a list.
use Prim.Native.Nat.{ℕ, zero, suc, ◌+◌, ◌-◌, ◌≤◌, min}
use mathlib.Core.Path.{◌≡◌, refl, ap, ap₂, sym, ◌∙◌}
use mathlib.Core.List.{List, [], ◌∷◌, ◌++◌, append_assoc}
use native.Mathlib.Omega.{arith}
use native.Mathlib.Decide.{dec_le}

module _ {ℓ} {A : Type ℓ} where
  abbrev pub length : List A → ℕ
  length [] = 0
  length (x ∷ xs) = suc (length xs)

  abbrev pub take : ℕ → List A → List A
  take zero xs = []
  take (suc n) [] = []
  take (suc n) (x ∷ xs) = x ∷ take n xs

  abbrev pub drop : ℕ → List A → List A
  drop zero xs = xs
  drop (suc n) [] = []
  drop (suc n) (x ∷ xs) = drop n xs

  abbrev pub replicate : ℕ → A → List A
  replicate zero a = []
  replicate (suc n) a = a ∷ replicate n a

  pub length-append : (xs ys : List A) → length (xs ++ ys) ≡ length xs + length ys
  length-append [] ys = omega arith
  length-append (x ∷ xs) ys = omega (arith, length-append xs ys)

  pub take-append-drop : (n : ℕ) (xs : List A) → take n xs ++ drop n xs ≡ xs
  take-append-drop zero xs = refl
  take-append-drop (suc n) [] = refl
  take-append-drop (suc n) (x ∷ xs) = rw (take-append-drop n xs)

  pub length-take : (n : ℕ) (xs : List A) → length (take n xs) ≡ min n (length xs)
  length-take zero xs = omega arith
  length-take (suc n) [] = omega arith
  length-take (suc n) (x ∷ xs) = omega (arith, length-take n xs)

  pub length-drop : (n : ℕ) (xs : List A) → length (drop n xs) ≡ length xs - n
  length-drop zero xs = omega arith
  length-drop (suc n) [] = omega arith
  length-drop (suc n) (x ∷ xs) = omega (arith, length-drop n xs)

  pub length-replicate : (n : ℕ) (a : A) → length (replicate n a) ≡ n
  length-replicate zero a = refl
  length-replicate (suc n) a = ap suc (length-replicate n a)

  pub take_of_ge : (n : ℕ) (xs : List A) → length xs ≤ n → take n xs ≡ xs
  take_of_ge zero [] h = refl
  take_of_ge zero (x ∷ xs) h = absurd (omega arith)
  take_of_ge (suc n) [] h = refl
  take_of_ge (suc n) (x ∷ xs) h = ap (◌∷◌ x) (take_of_ge n xs (omega arith))

  pub drop_of_ge : (n : ℕ) (xs : List A) → length xs ≤ n → drop n xs ≡ []
  drop_of_ge zero [] h = refl
  drop_of_ge zero (x ∷ xs) h = absurd (omega arith)
  drop_of_ge (suc n) [] h = refl
  drop_of_ge (suc n) (x ∷ xs) h = drop_of_ge n xs (omega arith)

  -- The index is a variable with an equation, so that it may be any sum.
  pub take-append : (n : ℕ) (xs ys : List A) → n ≡ length xs → take n (xs ++ ys) ≡ xs
  take-append zero [] ys h = refl
  take-append zero (x ∷ xs) ys h = absurd (omega arith)
  take-append (suc n) [] ys h = absurd (omega arith)
  take-append (suc n) (x ∷ xs) ys h = ap (◌∷◌ x) (take-append n xs ys (omega arith))

  pub drop-append : (n : ℕ) (xs ys : List A) → n ≡ length xs → drop n (xs ++ ys) ≡ ys
  drop-append zero [] ys h = refl
  drop-append zero (x ∷ xs) ys h = absurd (omega arith)
  drop-append (suc n) [] ys h = absurd (omega arith)
  drop-append (suc n) (x ∷ xs) ys h = drop-append n xs ys (omega arith)

  pub take-append_le : (n : ℕ) (xs ys : List A) → n ≤ length xs → take n (xs ++ ys) ≡ take n xs
  take-append_le zero xs ys h = refl
  take-append_le (suc n) [] ys h = absurd (omega arith)
  take-append_le (suc n) (x ∷ xs) ys h = ap (◌∷◌ x) (take-append_le n xs ys (omega arith))

  pub take-append_ge :
      (n : ℕ) (xs ys : List A) → length xs ≤ n → take n (xs ++ ys) ≡ xs ++ take (n - length xs) ys
  take-append_ge n [] ys h = let e : n - 0 ≡ n = omega arith in rw e
  take-append_ge zero (x ∷ xs) ys h = absurd (omega arith)
  take-append_ge (suc n) (x ∷ xs) ys h =
      ap (◌∷◌ x) (take-append_ge n xs ys (omega arith) ∙ ap (λ k. xs ++ take k ys) (omega arith))

  pub drop-append_le :
      (n : ℕ) (xs ys : List A) → n ≤ length xs → drop n (xs ++ ys) ≡ drop n xs ++ ys
  drop-append_le zero xs ys h = refl
  drop-append_le (suc n) [] ys h = absurd (omega arith)
  drop-append_le (suc n) (x ∷ xs) ys h = drop-append_le n xs ys (omega arith)

  pub take_add :
      (n m : ℕ) (k : ℕ) (xs : List A) → k ≡ n + m → take k xs ≡ take n xs ++ take m (drop n xs)
  take_add zero m k xs h = ap (λ j. take j xs) (omega arith)
  take_add (suc n) m zero xs h = absurd (omega arith)
  take_add (suc n) zero (suc k) [] h = refl
  take_add (suc n) (suc m) (suc k) [] h = refl
  take_add (suc n) m (suc k) (x ∷ xs) h = ap (◌∷◌ x) (take_add n m k xs (omega arith))

  pub drop-drop : (n m : ℕ) (k : ℕ) (xs : List A) → k ≡ n + m → drop m (drop n xs) ≡ drop k xs
  drop-drop zero m k xs h = ap (λ j. drop j xs) (omega arith)
  drop-drop (suc n) m zero xs h = absurd (omega arith)
  drop-drop (suc n) zero (suc k) [] h = refl
  drop-drop (suc n) (suc m) (suc k) [] h = refl
  drop-drop (suc n) m (suc k) (x ∷ xs) h = drop-drop n m k xs (omega arith)

  pub drop-take : (n k : ℕ) (xs : List A) → drop n (take k xs) ≡ take (k - n) (drop n xs)
  drop-take zero k xs = ap (λ j. take j xs) (omega arith)
  drop-take (suc n) zero xs = let e : zero - suc n ≡ 0 = omega arith in rw e
  drop-take (suc n) (suc k) [] = sym (take_of_ge (suc k - suc n) [] (omega arith))
  drop-take (suc n) (suc k) (x ∷ xs) = drop-take n k xs ∙ ap (λ j. take j (drop n xs)) (omega arith)

  pub take-take : (n k : ℕ) (xs : List A) → n ≤ k → take n (take k xs) ≡ take n xs
  take-take zero k xs h = refl
  take-take (suc n) zero xs h = absurd (omega arith)
  take-take (suc n) (suc k) [] h = refl
  take-take (suc n) (suc k) (x ∷ xs) h = ap (◌∷◌ x) (take-take n k xs (omega arith))

  pub take-min : (n m : ℕ) (xs : List A) → m ≡ length xs → take (min n m) xs ≡ take n xs
  take-min n m xs e = elim (dec_le m n) [
    | yes h ↦ take_of_ge (min n m) xs (omega arith) ∙ sym (take_of_ge n xs (omega arith))
    | no h ↦ let k : min n m ≡ n = omega arith in rw k
  ]

  pub drop-min : (n m : ℕ) (xs : List A) → m ≡ length xs → drop (min n m) xs ≡ drop n xs
  drop-min n m xs e = elim (dec_le m n) [
    | yes h ↦ drop_of_ge (min n m) xs (omega arith) ∙ sym (drop_of_ge n xs (omega arith))
    | no h ↦ let k : min n m ≡ n = omega arith in rw k
  ]

module _ {ℓ} {A : Type ℓ} where
  -- Reading `n` items of a memory from index `i` on.
  abbrev pub slice : ℕ → ℕ → List A → List A
  slice i n xs = take n (drop i xs)

  -- Writing `ds` into a memory at index `i`.
  abbrev pub splice : ℕ → List A → List A → List A
  splice i ds xs = take i xs ++ (ds ++ drop (i + length ds) xs)

  -- `std::vector::resize`: cut, or fill up with a value.
  abbrev pub resize : ℕ → A → List A → List A
  resize n a xs = take n xs ++ replicate (n - length xs) a

  pub length-slice : (i n : ℕ) (xs : List A) → i + n ≤ length xs → length (slice i n xs) ≡ n
  length-slice i n xs h = omega (arith, length-take n (drop i xs), length-drop i xs)

  pub length-splice :
      (i : ℕ) (ds xs : List A) → i + length ds ≤ length xs → length (splice i ds xs) ≡ length xs
  length-splice i ds xs h = omega (
    arith,
    length-append (take i xs) (ds ++ drop (i + length ds) xs),
    length-append ds (drop (i + length ds) xs),
    length-take i xs,
    length-drop (i + length ds) xs,
  )

  pub length-resize : (n : ℕ) (a : A) (xs : List A) → length (resize n a xs) ≡ n
  length-resize n a xs = omega (
    arith,
    length-append (take n xs) (replicate (n - length xs) a),
    length-take n xs,
    length-replicate (n - length xs) a,
  )

  -- What was written is read back.
  pub slice-splice_self :
      (i : ℕ) (n : ℕ) (ds xs : List A)
      → i ≤ length xs
      → n ≡ length ds
      → slice i n (splice i ds xs) ≡ ds
  slice-splice_self i n ds xs h e =
      rw
        (drop-append i (take i xs) (ds ++ drop (i + length ds) xs)
          (omega (arith, length-take i xs)))
        (take-append n ds (drop (i + length ds) xs) e)

  -- A write does not disturb what lies before it.
  pub slice-splice_before :
      (r n i : ℕ) (ds xs : List A)
      → r + n ≤ i
      → i ≤ length xs
      → slice r n (splice i ds xs) ≡ slice r n xs
  slice-splice_before r n i ds xs h b =
      ap (take n) (
        drop-append_le r (take i xs) (ds ++ drop (i + length ds) xs)
          (omega (arith, length-take i xs)))
      ∙ take-append_le n (drop r (take i xs)) (ds ++ drop (i + length ds) xs)
          (omega (arith, length-drop r (take i xs), length-take i xs))
      ∙ ap (take n) (drop-take r i xs)
      ∙ take-take n (i - r) (drop r xs) (omega arith)

  pub slice_add :
      (r n m k : ℕ) (xs : List A) → k ≡ n + m → slice r k xs ≡ slice r n xs ++ slice (r + n) m xs
  slice_add r n m k xs e =
      take_add n m k (drop r xs) e
      ∙ ap (λ t. take n (drop r xs) ++ take m t) (drop-drop r n (r + n) xs refl)

  pub drop-slice : (i n k : ℕ) (xs : List A) → drop k (slice i n xs) ≡ slice (i + k) (n - k) xs
  drop-slice i n k xs =
      drop-take k n (drop i xs) ∙ ap (take (n - k)) (drop-drop i k (i + k) xs refl)

  pub take-slice : (i n k : ℕ) (xs : List A) → k ≤ n → take k (slice i n xs) ≡ slice i k xs
  take-slice i n k xs h = take-take k n (drop i xs) h

  pub slice-resize :
      (r n m : ℕ) (a : A) (xs : List A)
      → r + n ≤ m
      → r + n ≤ length xs
      → slice r n (resize m a xs) ≡ slice r n xs
  slice-resize r n m a xs h k =
      ap (take n) (
        drop-append_le r (take m xs) (replicate (m - length xs) a)
          (omega (arith, length-take m xs)))
      ∙ take-append_le n (drop r (take m xs)) (replicate (m - length xs) a)
          (omega (arith, length-drop r (take m xs), length-take m xs))
      ∙ ap (take n) (drop-take r m xs)
      ∙ take-take n (m - r) (drop r xs) (omega arith)

  -- A write just behind a region makes the region longer.
  pub slice-splice_extend :
      (r n i k : ℕ) (ds xs : List A)
      → i ≡ r + n
      → k ≡ n + length ds
      → i ≤ length xs
      → slice r k (splice i ds xs) ≡ slice r n xs ++ ds
  slice-splice_extend r n i k ds xs e e' h =
      slice_add r n (length ds) k (splice i ds xs) e'
      ∙ ap₂ ◌++◌ (slice-splice_before r n i ds xs (omega arith) h) (
          ap (λ j. slice j (length ds) (splice i ds xs)) (sym e)
          ∙ slice-splice_self i (length ds) ds xs h refl)

  -- Two writes, the second just behind the first, are one.
  pub splice-splice :
      (i j : ℕ) (ds es xs : List A)
      → j ≡ i + length ds
      → i + length ds + length es ≤ length xs
      → splice j es (splice i ds xs) ≡ splice i (ds ++ es) xs
  splice-splice i j ds es xs e h =
      ap₂ (λ a b. a ++ (es ++ b)) front back
      ∙ append_assoc (take i xs) ds (es ++ drop k xs)
      ∙ ap (◌++◌ (take i xs)) (sym (append_assoc ds es (drop k xs)))
    where
      k : ℕ
      k = i + length (ds ++ es)

      rest : List A
      rest = drop (i + length ds) xs

      at_j : j ≡ length (take i xs ++ ds)
      at_j = omega (arith, length-append (take i xs) ds, length-take i xs)

      regroup : splice i ds xs ≡ (take i xs ++ ds) ++ rest
      regroup = sym (append_assoc (take i xs) ds rest)

      front : take j (splice i ds xs) ≡ take i xs ++ ds
      front = ap (take j) regroup ∙ take-append j (take i xs ++ ds) rest at_j

      back : drop (j + length es) (splice i ds xs) ≡ drop k xs
      back =
          sym (drop-drop j (length es) (j + length es) (splice i ds xs) refl)
          ∙ ap (λ t. drop (length es) (drop j t)) regroup
          ∙ ap (drop (length es)) (drop-append j (take i xs ++ ds) rest at_j)
          ∙ drop-drop (i + length ds) (length es) k xs (omega (arith, length-append ds es))
