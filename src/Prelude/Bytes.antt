-- ===== src/Prelude/Bytes.antt =====
-- Byte strings as lists of numbers: Python's slices, slice assignment.
use Prim.Native.Nat.{ℕ, zero, suc, ◌+◌, ◌-◌, ◌≤◌}
use mathlib.Core.Path.{◌≡◌, refl, ap, sym, ◌∙◌}
use mathlib.Core.List.{List, [], ◌∷◌, ◌++◌}
use native.Mathlib.Omega.{arith}
use solidity_course_blockcha.Prelude.Lists.{length, take, drop, take_all}

-- b[a:a + n]
abbrev pub slice {ℓ} : {A : Type ℓ} → List A → ℕ → ℕ → List A
slice b a n = take n (drop a b)

-- b[a:a + len(r)] = r
unfoldable pub overwrite {ℓ} : {A : Type ℓ} → List A → ℕ → List A → List A
overwrite b zero r = r ++ drop (length r) b
overwrite [] (suc a) r = r
overwrite (x ∷ b) (suc a) r = x ∷ overwrite b a r

module _ {ℓ} {A : Type ℓ} where
  pub length-drop : (n : ℕ) (b : List A) → length (drop n b) ≡ length b - n
  length-drop zero b = omega arith
  length-drop (suc n) [] = omega arith
  length-drop (suc n) (x ∷ b) = omega (arith, length-drop n b)

  pub length-join : (xs ys : List A) → length (xs ++ ys) ≡ length xs + length ys
  length-join [] ys = omega arith
  length-join (x ∷ xs) ys = omega (arith, length-join xs ys)

  pub take-length : (xs ys : List A) → take (length xs) (xs ++ ys) ≡ xs
  take-length [] ys = refl
  take-length (x ∷ xs) ys = ap (◌∷◌ x) (take-length xs ys)

  pub drop-length : (xs ys : List A) → drop (length xs) (xs ++ ys) ≡ ys
  drop-length [] ys = refl
  drop-length (x ∷ xs) ys = drop-length xs ys

  drop-nil : (n : ℕ) → drop {A = A} n [] ≡ []
  drop-nil zero = refl
  drop-nil (suc n) = refl

  take-nil : (n : ℕ) → take {A = A} n [] ≡ []
  take-nil zero = refl
  take-nil (suc n) = refl

  pub drop-drop : (m n : ℕ) (b : List A) → drop m (drop n b) ≡ drop (n + m) b
  drop-drop m zero b = let e : m ≡ 0 + m = omega arith in ap (λ (k : ℕ). drop k b) e
  drop-drop m (suc n) [] = drop-nil m ∙ sym (drop-nil (suc n + m))
  drop-drop m (suc n) (x ∷ b) =
      let e : suc (n + m) ≡ suc n + m = omega arith in
      drop-drop m n b ∙ ap (λ (k : ℕ). drop k (x ∷ b)) e

  pub length-overwrite :
      (b : List A) (a : ℕ) (r : List A)
      → a + length r ≤ length b
      → length (overwrite b a r) ≡ length b
  unfolding overwrite
  length-overwrite b zero r h =
      omega (arith, length-join r (drop (length r) b), length-drop (length r) b)
  length-overwrite [] (suc a) r h = absurd (omega arith)
  length-overwrite (x ∷ b) (suc a) r h = ap suc (length-overwrite b a r (omega arith))

  -- The bytes written.
  pub slice-overwrite_self :
      (b : List A) (a : ℕ) (r : List A) → a ≤ length b → slice (overwrite b a r) a (length r) ≡ r
  unfolding overwrite
  slice-overwrite_self b zero r h = take-length r (drop (length r) b)
  slice-overwrite_self [] (suc a) r h = absurd (omega arith)
  slice-overwrite_self (x ∷ b) (suc a) r h = slice-overwrite_self b a r (omega arith)

  -- The bytes before.
  pub slice-overwrite_before :
      (b : List A) (a : ℕ) (r : List A) (i n : ℕ)
      → i + n ≤ a
      → a ≤ length b
      → slice (overwrite b a r) i n ≡ slice b i n
  unfolding overwrite
  slice-overwrite_before b a r i zero h k = refl
  slice-overwrite_before b zero r i (suc n) h k = absurd (omega arith)
  slice-overwrite_before [] (suc a) r i (suc n) h k = absurd (omega arith)
  slice-overwrite_before (x ∷ b) (suc a) r zero (suc n) h k =
      ap (◌∷◌ x) (slice-overwrite_before b a r 0 n (omega arith) (omega arith))
  slice-overwrite_before (x ∷ b) (suc a) r (suc i) (suc n) h k =
      slice-overwrite_before b a r i (suc n) (omega arith) (omega arith)

  drop-past : (xs ys : List A) (i : ℕ) → length xs ≤ i → drop i (xs ++ ys) ≡ drop (i - length xs) ys
  drop-past [] ys i h = let e : i ≡ i - 0 = omega arith in ap (λ (k : ℕ). drop k ys) e
  drop-past (x ∷ xs) ys zero h = absurd (omega arith)
  drop-past (x ∷ xs) ys (suc i) h =
      let e : i - length xs ≡ suc i - suc (length xs) = omega arith in
      drop-past xs ys i (omega arith) ∙ ap (λ (k : ℕ). drop k ys) e

  -- The bytes after.
  pub slice-overwrite_after :
      (b : List A) (a : ℕ) (r : List A) (i n : ℕ)
      → a + length r ≤ i
      → a + length r ≤ length b
      → slice (overwrite b a r) i n ≡ slice b i n
  unfolding overwrite
  slice-overwrite_after b zero r i n h k = ap (take n) (
      drop-past r (drop (length r) b) i (omega arith)
      ∙ drop-drop (i - length r) (length r) b
      ∙ ap (λ (m : ℕ). drop m b) (omega arith))
  slice-overwrite_after [] (suc a) r i n h k = absurd (omega arith)
  slice-overwrite_after (x ∷ b) (suc a) r zero n h k = absurd (omega arith)
  slice-overwrite_after (x ∷ b) (suc a) r (suc i) n h k =
      slice-overwrite_after b a r i n (omega arith) (omega arith)

  pub take_add : (m n : ℕ) (b : List A) → take (m + n) b ≡ take m b ++ slice b m n
  take_add zero n b = let e : 0 + n ≡ n = omega arith in ap (λ (k : ℕ). take k b) e
  take_add (suc m) n [] = take-nil (suc m + n) ∙ sym (take-nil n)
  take_add (suc m) n (x ∷ b) =
      let e : suc m + n ≡ suc (m + n) = omega arith in
      ap (λ (k : ℕ). take k (x ∷ b)) e ∙ ap (◌∷◌ x) (take_add m n b)

  -- All but the first bytes, from their slices.
  pub drop-slice : (b : List A) (a n : ℕ) → length b ≤ n → slice b a n ≡ drop a b
  drop-slice b a n h = take_all (drop a b) n (omega (arith, length-drop a b))

  pub slice-append_left :
      (b c : List A) (a n : ℕ) → a + n ≤ length b → slice (b ++ c) a n ≡ slice b a n
  slice-append_left b c a zero h = refl
  slice-append_left [] c a (suc n) h = absurd (omega arith)
  slice-append_left (x ∷ b) c zero (suc n) h = ap (◌∷◌ x) (slice-append_left b c 0 n (omega arith))
  slice-append_left (x ∷ b) c (suc a) (suc n) h = slice-append_left b c a (suc n) (omega arith)

  -- A piece at an offset, and what comes after it.
  pub piece_at :
      (bytes piece rest : List A) (offset : ℕ) {n : ℕ}
      → length piece ≡ n
      → drop offset bytes ≡ piece ++ rest
      → (slice bytes offset n ≡ piece) × (drop (offset + n) bytes ≡ rest)
  piece_at bytes piece rest offset {n} size at = (
    ap (take n) at ∙ ap (λ (k : ℕ). take k (piece ++ rest)) (sym size) ∙ take-length piece rest,
    sym (drop-drop n offset bytes)
        ∙ ap (drop n) at
        ∙ ap (λ (k : ℕ). drop k (piece ++ rest)) (sym size)
        ∙ drop-length piece rest,
  )
