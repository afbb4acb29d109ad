-- ===== src/Fragment/Slots.antt =====
-- The slots of a reassembly buffer: what they hold, how many are filled, and what they add up to.
use never_been_found.Prelude.{
  ℕ, zero, suc, ◌+◌, ◌≤◌, ◌<◌, ◌≡◌, refl, ap, ◌⊎◌, inl, inr, Option, none, some, List, [], ◌∷◌,
  length, get_elem?, set, replicate, Bytes, arith,
}
use never_been_found.Fragment.{gather, frag_piece}
use never_been_found.Fragment.Pieces.{pieces}

-- Every filled slot from number `k` on holds the piece of its number.
abbrev pub Holds : Bytes → ℕ → List (Option Bytes) → Type 0
Holds p k [] = Unit {0}
Holds p k (s ∷ ss) = ((s ≡ none) ⊎ (s ≡ some (frag_piece p k))) × Holds p (suc k) ss

abbrev filled_one : Option Bytes → ℕ
filled_one none = 0
filled_one (some c) = 1

abbrev pub filled : List (Option Bytes) → ℕ
filled [] = 0
filled (s ∷ ss) = filled_one s + filled ss

pub Holds-replicate : (p : Bytes) (k n : ℕ) → Holds p k (replicate n none)
unfolding replicate
Holds-replicate p k zero = tt
Holds-replicate p k (suc n) = (inl refl, Holds-replicate p (suc k) n)

pub filled-replicate : (n : ℕ) → filled (replicate n none) ≡ 0
unfolding replicate
filled-replicate zero = refl
filled-replicate (suc n) = omega (arith, filled-replicate n)

pub filled-le : (ss : List (Option Bytes)) → filled ss ≤ length ss
filled-le [] = omega arith
filled-le (none ∷ ss) = omega (arith, filled-le ss)
filled-le (some c ∷ ss) = omega (arith, filled-le ss)

pub Holds-set :
    (p : Bytes) (k i : ℕ) (ss : List (Option Bytes))
    → Holds p k ss
    → Holds p k (set ss i (some (frag_piece p (k + i))))
Holds-set p k i [] h = tt
Holds-set p k zero (s ∷ ss) h = (inr (ap (λ j. some (frag_piece p j)) (omega arith)), h.1)
Holds-set p k (suc i) (s ∷ ss) h =
    (h.0, let e : k + suc i ≡ suc k + i = omega arith in rw e (Holds-set p (suc k) i ss h.1))

pub filled-set :
    (i : ℕ) (c : Bytes) (ss : List (Option Bytes))
    → get_elem? ss i ≡ some none
    → filled (set ss i (some c)) ≡ filled ss + 1
filled-set i c [] h = cc
filled-set zero c (s ∷ ss) h = ground arith
filled-set (suc i) c (s ∷ ss) h = omega (arith, filled-set i c ss h)

-- Slot `i` is filled.
unfoldable pub IsFilled : ℕ → List (Option Bytes) → Type 0
IsFilled i ss = (c : Bytes) × (get_elem? ss i ≡ some (some c))

pub gather_full :
    (p : Bytes) (k : ℕ) (ss : List (Option Bytes))
    → Holds p k ss
    → filled ss ≡ length ss
    → gather ss ≡ some (pieces p k (length ss))
unfolding gather pieces
gather_full p k [] h e = refl
gather_full p k (none ∷ ss) h e = absurd (omega (arith, filled-le ss))
gather_full p k (some c ∷ ss) h e = ground (arith, h, gather_full p (suc k) ss h.1)

filled-set_self :
    (i : ℕ) (c : Bytes) (ss : List (Option Bytes))
    → i < length ss
    → get_elem? (set ss i (some c)) i ≡ some (some c)
filled-set_self i c [] h = absurd (omega arith)
filled-set_self zero c (s ∷ ss) h = refl
filled-set_self (suc i) c (s ∷ ss) h = filled-set_self i c ss (omega arith)

-- A slot that is filled stays filled.
pub IsFilled-set :
    (i j : ℕ) (c : Bytes) (ss : List (Option Bytes))
    → IsFilled j ss
    → IsFilled j (set ss i (some c))
unfolding IsFilled
IsFilled-set i j c [] (d, e) = cc
IsFilled-set zero zero c (s ∷ ss) (d, e) = (c, refl)
IsFilled-set zero (suc j) c (s ∷ ss) h = h
IsFilled-set (suc i) zero c (s ∷ ss) h = h
IsFilled-set (suc i) (suc j) c (s ∷ ss) h = IsFilled-set i j c ss h

pub IsFilled-set_self :
    (i : ℕ) (c : Bytes) (ss : List (Option Bytes)) → i < length ss → IsFilled i (set ss i (some c))
unfolding IsFilled
IsFilled-set_self i c ss h = (c, filled-set_self i c ss h)

-- A slot within the buffer is free or filled.
pub slot_cases :
    (i : ℕ) (ss : List (Option Bytes))
    → i < length ss
    → (get_elem? ss i ≡ some none) ⊎ IsFilled i ss
unfolding IsFilled
slot_cases i [] h = absurd (omega arith)
slot_cases zero (none ∷ ss) h = inl refl
slot_cases zero (some c ∷ ss) h = inr (c, refl)
slot_cases (suc i) (s ∷ ss) h = slot_cases i ss (omega arith)

-- A buffer whose slots are all filled is full.
pub filled_full :
    (ss : List (Option Bytes)) → ((i : ℕ) → i < length ss → IsFilled i ss) → filled ss ≡ length ss
unfolding IsFilled
filled_full [] h = refl
filled_full (s ∷ ss) h =
    omega (arith, head (h 0 (omega arith)), filled_full ss (λ i lt. h (suc i) (omega arith)))
  where
    head : (c : Bytes) × (some s ≡ some (some c)) → filled_one s ≡ 1
    head (c, e) = ground arith
