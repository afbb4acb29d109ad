-- ===== src/Replay.antt =====
-- crates/nbf-crypto/src/replay.rs: sequence numbers are accepted in rising order only.
use never_been_found.Prelude.{
  ℕ, ◌<◌, ◌≡◌, refl, ap, ◌∙◌, inl, inr, Bool, Bool-cases, true, false, List, [], ◌∷◌, All, max, ltb,
  leb, lt→leb, if◌then◌else◌, arith,
}

pub record MonotonicCheck : Type 0 where
  pub last : ℕ

pub new : MonotonicCheck
new = record { last = 0 }

pub check : MonotonicCheck → ℕ → MonotonicCheck × Bool
check m seq = if leb seq m.last then (m, false) else (record { last = seq }, true)

-- The numbers that a run of checks accepts, in order.
pub accepted : MonotonicCheck → List ℕ → List ℕ
accepted m [] = []
accepted m (s ∷ ss) =
    let (m', good) = check m s in let rest = accepted m' ss in if good then s ∷ rest else rest

-- Each number is above the one before it, and the first is above `b`.
abbrev pub Rising : ℕ → List ℕ → Type 0
Rising b [] = Unit {0}
Rising b (s ∷ ss) = (b < s) × Rising s ss

pub accepted-Rising : (m : MonotonicCheck) (ss : List ℕ) → Rising m.last (accepted m ss)
unfolding accepted check
accepted-Rising m [] = tt
accepted-Rising m (s ∷ ss) =
    ground (arith, accepted-Rising m ss, accepted-Rising (record { last = s }) ss)

-- Numbers that already rise from the filter's last one on are all accepted.
pub accepted_all : (m : MonotonicCheck) (ss : List ℕ) → Rising m.last ss → accepted m ss ≡ ss
unfolding accepted check
accepted_all m [] h = refl
accepted_all m (s ∷ ss) h = ground (arith, accepted_all (record { last = s }) ss)

-- Every number before is smaller.
pub is_record : List ℕ → ℕ → Bool
is_record [] s = true
is_record (p ∷ ps) s = let rest = is_record ps s in if ltb p s then rest else false

-- The numbers of a list that are above all before them, those of `pre` included.
pub records : List ℕ → List ℕ → List ℕ
records pre [] = []
records pre (s ∷ ss) = let rest = records (s ∷ pre) ss in if is_record pre s then s ∷ rest else rest

-- The greatest of them, or 0.
abbrev greatest : List ℕ → ℕ
greatest [] = 0
greatest (p ∷ ps) = max p (greatest ps)

is_record-greatest :
    (pre : List ℕ) (s : ℕ)
    → 0 < s
    → is_record pre s ≡ (if leb s (greatest pre) then false else true)
unfolding is_record
is_record-greatest [] s h = rw (lt→leb s 0 h)
is_record-greatest (p ∷ ps) s h = ground (arith, is_record-greatest ps s h)

accepted-records_from :
    (pre ss : List ℕ)
    → All (λ s. 0 < s) ss
    → accepted (record { last = greatest pre }) ss ≡ records pre ss
unfolding accepted check records
accepted-records_from pre [] h = refl
accepted-records_from pre (s ∷ ss) (h, hs) = elim (Bool-cases (leb s (greatest pre))) [
  | inl old ↦
      rw (is_record-greatest pre s h, old)
        (ap (λ g. accepted (record { last = g }) ss) (old_max old)
          ∙ accepted-records_from (s ∷ pre) ss hs)
  | inr new_ ↦
      rw (is_record-greatest pre s h, new_)
        (ap (◌∷◌ s) (
          ap (λ g. accepted (record { last = g }) ss) (new_max new_)
          ∙ accepted-records_from (s ∷ pre) ss hs))
]
  where
    old_max : leb s (greatest pre) ≡ true → greatest pre ≡ max s (greatest pre)
    old_max e = ground arith

    new_max : leb s (greatest pre) ≡ false → s ≡ max s (greatest pre)
    new_max e = ground arith

-- A new filter, which keeps one number, accepts of any sequence of numbers from 1 on exactly those
-- that are above all numbers that came before them, accepted or not.
pub accepted-records : (ss : List ℕ) → All (λ s. 0 < s) ss → accepted new ss ≡ records [] ss
unfolding new
accepted-records ss h = accepted-records_from [] ss h
