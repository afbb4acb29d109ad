-- ===== src/Prelude/Lists.antt =====
-- Lists measured and cut by native numbers, under the library's names.
use Prim.Native.Nat.{ℕ, zero, suc, ◌+◌, ◌-◌, ◌≤◌, min}
use mathlib.Core.Path.{◌≡◌, refl, ap, ◌∙◌}
use mathlib.Core.List.{List, [], ◌∷◌, ◌++◌, map, reverse, reverse-cons}
use mathlib.Core.Logic.{◌≢◌}
use mathlib.Core.Option.{Option, none, some}
use native.Mathlib.Omega.{arith}

module _ {ℓ} {A : Type ℓ} where
  abbrev pub length : List A → ℕ
  length [] = 0
  length (x ∷ xs) = suc (length xs)

  abbrev pub get_elem? : List A → ℕ → Option A
  get_elem? [] i = none
  get_elem? (x ∷ xs) zero = some x
  get_elem? (x ∷ xs) (suc i) = get_elem? xs i

  abbrev pub get_or : List A → ℕ → A → A
  get_or [] i d = d
  get_or (x ∷ xs) zero d = x
  get_or (x ∷ xs) (suc i) d = get_or xs i d

  abbrev pub set : List A → ℕ → A → List A
  set [] i v = []
  set (x ∷ xs) zero v = v ∷ xs
  set (x ∷ xs) (suc i) v = x ∷ set xs i v

  abbrev pub All {κ} : (A → Type κ) → List A → Type κ
  All P [] = Unit {κ}
  All P (x ∷ xs) = P x × All P xs

  abbrev pub NoRepeat : List A → Type ℓ
  NoRepeat [] = Unit {ℓ}
  NoRepeat (x ∷ xs) = All (λ y. x ≢ y) xs × NoRepeat xs

  unfoldable pub take : ℕ → List A → List A
  take zero xs = []
  take (suc n) [] = []
  take (suc n) (x ∷ xs) = x ∷ take n xs

  unfoldable pub drop : ℕ → List A → List A
  drop zero xs = xs
  drop (suc n) [] = []
  drop (suc n) (x ∷ xs) = drop n xs

  unfoldable pub replicate : ℕ → A → List A
  replicate zero a = []
  replicate (suc n) a = a ∷ replicate n a

module _ {ℓ} {A : Type ℓ} where
  -- `&xs[o .. o + n]`
  unfoldable pub slice : ℕ → ℕ → List A → List A
  unfolding take drop
  slice o n xs = take n (drop o xs)

  pub length-append : (xs ys : List A) → length (xs ++ ys) ≡ length xs + length ys
  length-append [] ys = omega arith
  length-append (x ∷ xs) ys = omega (arith, length-append xs ys)

  pub length-take : (n : ℕ) (xs : List A) → length (take n xs) ≡ min n (length xs)
  unfolding take
  length-take zero xs = omega arith
  length-take (suc n) [] = omega arith
  length-take (suc n) (x ∷ xs) = omega (arith, length-take n xs)

  pub length-drop : (n : ℕ) (xs : List A) → length (drop n xs) ≡ length xs - n
  unfolding drop
  length-drop zero xs = omega arith
  length-drop (suc n) [] = omega arith
  length-drop (suc n) (x ∷ xs) = omega (arith, length-drop n xs)

  pub length-slice : (o n : ℕ) (xs : List A) → o + n ≤ length xs → length (slice o n xs) ≡ n
  length-slice o n xs h = unfold slice in omega (arith, length-take n (drop o xs), length-drop o xs)

  pub length-replicate : (n : ℕ) (a : A) → length (replicate n a) ≡ n
  unfolding replicate
  length-replicate zero a = refl
  length-replicate (suc n) a = ap suc (length-replicate n a)

  pub length-reverse : (ys : List A) → length (reverse ys) ≡ length ys
  length-reverse [] = refl
  length-reverse (y ∷ ys) =
      ap length (reverse-cons y ys)
      ∙ omega (arith, length-append (reverse ys) (y ∷ []), length-reverse ys)

  pub take-append-drop : (n : ℕ) (xs : List A) → take n xs ++ drop n xs ≡ xs
  unfolding take drop
  take-append-drop zero xs = refl
  take-append-drop (suc n) [] = refl
  take-append-drop (suc n) (x ∷ xs) = ap (◌∷◌ x) (take-append-drop n xs)

  pub take_all : (n : ℕ) (xs : List A) → length xs ≤ n → take n xs ≡ xs
  unfolding take
  take_all zero [] h = refl
  take_all zero (x ∷ xs) h = absurd (omega arith)
  take_all (suc n) [] h = refl
  take_all (suc n) (x ∷ xs) h = ap (◌∷◌ x) (take_all n xs (omega arith))

  pub drop_all : (n : ℕ) (xs : List A) → length xs ≤ n → drop n xs ≡ []
  unfolding drop
  drop_all zero [] h = refl
  drop_all zero (x ∷ xs) h = absurd (omega arith)
  drop_all (suc n) [] h = refl
  drop_all (suc n) (x ∷ xs) h = drop_all n xs (omega arith)

  pub take-append : (n : ℕ) (xs ys : List A) → length xs ≡ n → take n (xs ++ ys) ≡ xs
  unfolding take
  take-append zero [] ys h = refl
  take-append zero (x ∷ xs) ys h = absurd (omega arith)
  take-append (suc n) [] ys h = absurd (omega arith)
  take-append (suc n) (x ∷ xs) ys h = ap (◌∷◌ x) (take-append n xs ys (omega arith))

  -- A cut behind the first part falls into the second.
  pub drop-append :
      (o k : ℕ) (xs ys : List A) → length xs ≡ k → k ≤ o → drop o (xs ++ ys) ≡ drop (o - k) ys
  unfolding drop
  drop-append o k [] ys h le = ap (λ m. drop m ys) (omega arith)
  drop-append zero k (x ∷ xs) ys h le = absurd (omega arith)
  drop-append (suc o) k (x ∷ xs) ys h le =
      drop-append o (length xs) xs ys refl (omega arith) ∙ ap (λ m. drop m ys) (omega arith)

  pub drop_zero : (xs : List A) → drop 0 xs ≡ xs
  unfolding drop
  drop_zero xs = refl

  pub slice-here : (n : ℕ) (xs ys : List A) → length xs ≡ n → slice 0 n (xs ++ ys) ≡ xs
  unfolding slice
  slice-here n xs ys h = take-append n xs ys h

  pub slice-last : (n : ℕ) (xs : List A) → length xs ≡ n → slice 0 n xs ≡ xs
  unfolding slice
  slice-last n xs h = take_all n xs (omega arith)

  pub slice-skip :
      (o n k : ℕ) (xs ys : List A)
      → length xs ≡ k
      → k ≤ o
      → slice o n (xs ++ ys) ≡ slice (o - k) n ys
  unfolding slice
  slice-skip o n k xs ys h le = ap (take n) (drop-append o k xs ys h le)

  pub take-front : (n : ℕ) (xs ys : List A) → n ≤ length xs → take n (xs ++ ys) ≡ take n xs
  unfolding take
  take-front zero xs ys h = refl
  take-front (suc n) [] ys h = absurd (omega arith)
  take-front (suc n) (x ∷ xs) ys h = ap (◌∷◌ x) (take-front n xs ys (omega arith))

  pub drop-front : (o : ℕ) (xs ys : List A) → o ≤ length xs → drop o (xs ++ ys) ≡ drop o xs ++ ys
  unfolding drop
  drop-front zero xs ys h = refl
  drop-front (suc o) [] ys h = absurd (omega arith)
  drop-front (suc o) (x ∷ xs) ys h = drop-front o xs ys (omega arith)

  -- A cut that ends within the first part is one of the first part.
  pub slice-front :
      (o n : ℕ) (xs ys : List A) → o + n ≤ length xs → slice o n (xs ++ ys) ≡ slice o n xs
  unfolding slice
  slice-front o n xs ys h =
      ap (take n) (drop-front o xs ys (omega arith))
      ∙ take-front n (drop o xs) ys (omega (arith, length-drop o xs))

  -- An element behind the first part is one of the second.
  pub get_or-append :
      (xs ys : List A) (o k : ℕ) (d : A)
      → length xs ≡ k
      → k ≤ o
      → get_or (xs ++ ys) o d ≡ get_or ys (o - k) d
  get_or-append [] ys o k d h le = ap (λ m. get_or ys m d) (omega arith)
  get_or-append (x ∷ xs) ys zero k d h le = absurd (omega arith)
  get_or-append (x ∷ xs) ys (suc o) k d h le =
      get_or-append xs ys o (length xs) d refl (omega arith) ∙ ap (λ m. get_or ys m d) (omega arith)

  pub length-set : (xs : List A) (i : ℕ) (v : A) → length (set xs i v) ≡ length xs
  length-set [] i v = refl
  length-set (x ∷ xs) zero v = refl
  length-set (x ∷ xs) (suc i) v = ap suc (length-set xs i v)

  pub length-map {κ} : {B : Type κ} (f : A → B) (xs : List A) → length (map f xs) ≡ length xs
  length-map f [] = refl
  length-map f (x ∷ xs) = ap suc (length-map f xs)
