-- ===== src/Prelude/Slices.antt =====
-- Laws of `take` and `drop` on the parts of a list.
use Prim.Native.Nat.{ℕ, zero, suc, ◌+◌, ◌≤◌}
use mathlib.Core.Path.{◌≡◌, refl, ap, sym, ◌∙◌}
use mathlib.Core.List.{List, [], ◌∷◌, ◌++◌}
use native.Mathlib.Omega.{arith}
use n6bagent.Prelude.Lists.{length, take, drop}

module _ {ℓ} {A : Type ℓ} where
  pub take-length-take : (m : ℕ) (xs : List A) → take (length (take m xs)) xs ≡ take m xs
  take-length-take zero xs = refl
  take-length-take (suc m) [] = refl
  take-length-take (suc m) (x ∷ xs) = ap (◌∷◌ x) (take-length-take m xs)

  pub drop-length-take : (m : ℕ) (xs : List A) → drop (length (take m xs)) xs ≡ drop m xs
  drop-length-take zero xs = refl
  drop-length-take (suc m) [] = refl
  drop-length-take (suc m) (x ∷ xs) = drop-length-take m xs

  pub drop-nil : (n : ℕ) → drop {A = A} n [] ≡ []
  drop-nil zero = refl
  drop-nil (suc n) = refl

  pub take-all : (xs : List A) → take (length xs) xs ≡ xs
  take-all [] = refl
  take-all (x ∷ xs) = ap (◌∷◌ x) (take-all xs)

  pub drop-all : (xs : List A) → drop (length xs) xs ≡ []
  drop-all [] = refl
  drop-all (x ∷ xs) = drop-all xs

  pub drop-drop : (a b c : ℕ) (xs : List A) → c ≡ a + b → drop b (drop a xs) ≡ drop c xs
  drop-drop zero b c xs e = ap (λ (n : ℕ). drop n xs) (omega arith)
  drop-drop (suc a) b c [] e = drop-nil b ∙ sym (drop-nil c)
  drop-drop (suc a) b zero (x ∷ xs) e = absurd (omega arith)
  drop-drop (suc a) b (suc c) (x ∷ xs) e = drop-drop a b c xs (omega arith)

  pub drop-append_le :
      (n : ℕ) (xs ys : List A) → n ≤ length xs → drop n (xs ++ ys) ≡ drop n xs ++ ys
  drop-append_le zero xs ys le = refl
  drop-append_le (suc n) [] ys le = absurd (omega arith)
  drop-append_le (suc n) (x ∷ xs) ys le = drop-append_le n xs ys (omega arith)

  pub take-append_le : (n : ℕ) (xs ys : List A) → n ≤ length xs → take n (xs ++ ys) ≡ take n xs
  take-append_le zero xs ys le = refl
  take-append_le (suc n) [] ys le = absurd (omega arith)
  take-append_le (suc n) (x ∷ xs) ys le = ap (◌∷◌ x) (take-append_le n xs ys (omega arith))

  pub take-take : (m n : ℕ) (xs : List A) → m ≤ n → take m (take n xs) ≡ take m xs
  take-take zero n xs le = refl
  take-take (suc m) zero xs le = absurd (omega arith)
  take-take (suc m) (suc n) [] le = refl
  take-take (suc m) (suc n) (x ∷ xs) le = ap (◌∷◌ x) (take-take m n xs (omega arith))

  pub take-drop-take :
      (m a n : ℕ) (xs : List A) → a + m ≤ n → take m (drop a (take n xs)) ≡ take m (drop a xs)
  take-drop-take m zero n xs le = take-take m n xs (omega arith)
  take-drop-take m (suc a) zero xs le = absurd (omega arith)
  take-drop-take m (suc a) (suc n) [] le = refl
  take-drop-take m (suc a) (suc n) (x ∷ xs) le = take-drop-take m a n xs (omega arith)

  pub take_nil : (n : ℕ) → take {A = A} n [] ≡ []
  take_nil zero = refl
  take_nil (suc n) = refl

  pub take_more : (a b : ℕ) (xs : List A) → take (a + b) xs ≡ take a xs ++ take b (drop a xs)
  take_more zero b xs = ap (λ (n : ℕ). take n xs) (omega arith)
  take_more (suc a) b [] = take_nil (suc a + b) ∙ sym (take_nil b)
  take_more (suc a) b (x ∷ xs) =
      let e : suc a + b ≡ suc (a + b) = omega arith in
      ap (λ (n : ℕ). take n (x ∷ xs)) e ∙ ap (◌∷◌ x) (take_more a b xs)

  pub take_add :
      (a b pos : ℕ) (xs : List A)
      → take (a + b) (drop pos xs) ≡ take a (drop pos xs) ++ take b (drop (pos + a) xs)
  take_add a b pos xs =
      take_more a b (drop pos xs)
      ∙ ap (λ (ys : List A). take a (drop pos xs) ++ take b ys) (drop-drop pos a (pos + a) xs refl)
