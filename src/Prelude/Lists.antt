-- ===== src/Prelude/Lists.antt =====
-- Lists measured and indexed by native numbers, under the library's names.
use Prim.Native.Nat.{ℕ, zero, suc, ◌+◌, ◌-◌, ◌≤◌, ◌<◌}
use mathlib.Core.Path.{◌≡◌, refl, ap}
use mathlib.Core.Logic.{◌≢◌}
use mathlib.Core.List.{List, [], ◌∷◌, ◌++◌}
use mathlib.Core.Option.{Option, none, some}
use native.Mathlib.Omega.{arith}

module _ {ℓ} {A : Type ℓ} where
  abbrev pub length : List A → ℕ
  length [] = 0
  length (x ∷ xs) = suc (length xs)

  abbrev pub get_elem? : List A → ℕ → Option A
  get_elem? [] i = none
  get_elem? (x ∷ xs) zero = some x
  get_elem? (x ∷ xs) (suc i) = get_elem? xs i

  abbrev pub get_or : List A → ℕ → A → A
  get_or [] i d = d
  get_or (x ∷ xs) zero d = x
  get_or (x ∷ xs) (suc i) d = get_or xs i d

  -- A write out of bounds changes nothing.
  abbrev pub set : List A → ℕ → A → List A
  set [] i v = []
  set (x ∷ xs) zero v = v ∷ xs
  set (x ∷ xs) (suc i) v = x ∷ set xs i v

  abbrev pub take : ℕ → List A → List A
  take zero xs = []
  take (suc n) [] = []
  take (suc n) (x ∷ xs) = x ∷ take n xs

  abbrev pub drop : ℕ → List A → List A
  drop zero xs = xs
  drop (suc n) [] = []
  drop (suc n) (x ∷ xs) = drop n xs

  abbrev pub All {κ} : (A → Type κ) → List A → Type κ
  All P [] = Unit {κ}
  All P (x ∷ xs) = P x × All P xs

  pub length-append : (xs ys : List A) → length (xs ++ ys) ≡ length xs + length ys
  length-append [] ys = omega arith
  length-append (x ∷ xs) ys = omega (arith, length-append xs ys)

  pub take-append-drop : (n : ℕ) (xs : List A) → take n xs ++ drop n xs ≡ xs
  take-append-drop zero xs = refl
  take-append-drop (suc n) [] = refl
  take-append-drop (suc n) (x ∷ xs) = rw (take-append-drop n xs)

  pub length-take : (n : ℕ) (xs : List A) → n ≤ length xs → length (take n xs) ≡ n
  length-take zero xs h = omega arith
  length-take (suc n) [] h = omega arith
  length-take (suc n) (x ∷ xs) h = omega (arith, length-take n xs)

  pub length-drop : (n : ℕ) (xs : List A) → length (drop n xs) ≡ length xs - n
  length-drop zero xs = omega arith
  length-drop (suc n) [] = omega arith
  length-drop (suc n) (x ∷ xs) = omega (arith, length-drop n xs)

  pub take-append : (xs ys : List A) → take (length xs) (xs ++ ys) ≡ xs
  take-append [] ys = refl
  take-append (x ∷ xs) ys = ap (◌∷◌ x) (take-append xs ys)

  pub drop-append : (xs ys : List A) → drop (length xs) (xs ++ ys) ≡ ys
  drop-append [] ys = refl
  drop-append (x ∷ xs) ys = drop-append xs ys

  pub length-set : (xs : List A) (i : ℕ) (v : A) → length (set xs i v) ≡ length xs
  length-set [] i v = refl
  length-set (x ∷ xs) zero v = refl
  length-set (x ∷ xs) (suc i) v = ap suc (length-set xs i v)

  pub get_elem?-set :
      (xs : List A) (i : ℕ) (v w : A) → get_elem? xs i ≡ some w → get_elem? (set xs i v) i ≡ some v
  get_elem?-set [] i v w h = cc
  get_elem?-set (x ∷ xs) zero v w h = refl
  get_elem?-set (x ∷ xs) (suc i) v w h = get_elem?-set xs i v w h

  pub get_elem?-append_length :
      (xs : List A) (v : A) → get_elem? (xs ++ v ∷ []) (length xs) ≡ some v
  get_elem?-append_length [] v = refl
  get_elem?-append_length (x ∷ xs) v = get_elem?-append_length xs v

  pub set-set : (xs : List A) (i : ℕ) (v w : A) → set (set xs i v) i w ≡ set xs i w
  set-set [] i v w = refl
  set-set (x ∷ xs) zero v w = refl
  set-set (x ∷ xs) (suc i) v w = ap (◌∷◌ x) (set-set xs i v w)

  pub get_elem?-append :
      (xs ys : List A) (i : ℕ) (v : A) → get_elem? xs i ≡ some v → get_elem? (xs ++ ys) i ≡ some v
  get_elem?-append [] ys i v h = cc
  get_elem?-append (x ∷ xs) ys zero v h = h
  get_elem?-append (x ∷ xs) ys (suc i) v h = get_elem?-append xs ys i v h

  pub get_elem?-lt : (xs : List A) (i : ℕ) (v : A) → get_elem? xs i ≡ some v → i < length xs
  get_elem?-lt [] i v h = cc
  get_elem?-lt (x ∷ xs) zero v h = omega arith
  get_elem?-lt (x ∷ xs) (suc i) v h = omega (arith, get_elem?-lt xs i v h)

  pub set-append_length : (xs : List A) (v w : A) → set (xs ++ v ∷ []) (length xs) w ≡ xs ++ w ∷ []
  set-append_length [] v w = refl
  set-append_length (x ∷ xs) v w = ap (◌∷◌ x) (set-append_length xs v w)

  pub set-get_elem? : (xs : List A) (i : ℕ) (v : A) → get_elem? xs i ≡ some v → set xs i v ≡ xs
  set-get_elem? [] i v h = refl
  set-get_elem? (x ∷ xs) zero v h = cc
  set-get_elem? (x ∷ xs) (suc i) v h = ap (◌∷◌ x) (set-get_elem? xs i v h)

  pub get_elem?-of_lt : (xs : List A) (i : ℕ) → i < length xs → (v : A) × (get_elem? xs i ≡ some v)
  get_elem?-of_lt [] i h = elim h [ ]
  get_elem?-of_lt (x ∷ xs) zero h = (x, refl)
  get_elem?-of_lt (x ∷ xs) (suc i) h = get_elem?-of_lt xs i (omega arith)

  pub get_elem?-set_ne :
      (xs : List A) (i j : ℕ) (v : A) → i ≢ j → get_elem? (set xs i v) j ≡ get_elem? xs j
  get_elem?-set_ne [] i j v h = refl
  get_elem?-set_ne (x ∷ xs) zero zero v h = absurd (h refl)
  get_elem?-set_ne (x ∷ xs) zero (suc j) v h = refl
  get_elem?-set_ne (x ∷ xs) (suc i) zero v h = refl
  get_elem?-set_ne (x ∷ xs) (suc i) (suc j) v h = get_elem?-set_ne xs i j v (λ e. h (ap suc e))
