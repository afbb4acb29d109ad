-- ===== src/Fragment/Steps.antt =====
-- One fragment of a message at the buffer of its circuit (crates/nbf-net/src/cell.rs,
-- `reassemble`).
use never_been_found.Prelude.{
  ℕ, ◌+◌, ◌<◌, ◌≤◌, ◌≡◌, ◌≢◌, refl, sym, ap, ◌∙◌, ◌⊎◌, inl, inr, Option, none, some, length,
  length-set, length-replicate, get_elem?, set, Bytes, arith, Map, lookup, insert, remove, nat_eq,
  lookup-insert_self, ==_refl, eq_or_ne,
}
use native.Mathlib.Nat.{zero-add}
use never_been_found.Fragment.{
  FragBuf, fresh, entry_for, fit_total, place, finish, gather, reassemble, collect, frag_count,
  frag_piece, frag_at,
}
use never_been_found.Fragment.Slots.{
  Holds, filled, Holds-replicate, filled-replicate, filled-le, Holds-set, filled-set, IsFilled,
  gather_full, IsFilled-set, IsFilled-set_self, slot_cases,
}
use never_been_found.Fragment.Pieces.{Fits, pieces, pieces_all, count_bounds, parse_frag-frag_at}

-- A buffer that holds some fragments of `p`, and not yet all.
pub record IsPartial (p : Bytes) (fb : FragBuf) : Type 0 where
  pub total : fb.total ≡ frag_count p
  pub slots : length fb.got ≡ frag_count p
  pub holds : Holds p 0 fb.got
  pub counts : fb.count ≡ filled fb.got
  pub short : fb.count < frag_count p

fresh-IsPartial : (p : Bytes) → Fits p → IsPartial p (fresh (frag_count p))
fresh-IsPartial p h = record {
  total = refl;
  slots = length-replicate (frag_count p) none;
  holds = Holds-replicate p 0 (frag_count p);
  counts = sym (filled-replicate (frag_count p));
  short = omega (arith, count_bounds p h);
}

fit_total-same : (fb : FragBuf) (n : ℕ) → fb.total ≡ n → fit_total n fb ≡ fb
unfolding fit_total
fit_total-same fb n e = ground arith

-- What one fragment does to a partial buffer.
record Placed (p : Bytes) (i : ℕ) (fb gb : FragBuf) : Type 0 where
  total : gb.total ≡ frag_count p
  slots : length gb.got ≡ frag_count p
  holds : Holds p 0 gb.got
  counts : gb.count ≡ filled gb.got
  grows : gb.count ≤ fb.count + 1
  here : IsFilled i gb.got
  keeps : (j : ℕ) → IsFilled j fb.got → IsFilled j gb.got

place-free :
    (i : ℕ) (c : Bytes) (fb : FragBuf)
    → get_elem? fb.got i ≡ some none
    → place i c fb ≡ record fb { got = set fb.got i (some c); count = fb.count + 1 }
unfolding place
place-free i c fb e = rw (e, place)

place-filled : (i : ℕ) (c : Bytes) (fb : FragBuf) → IsFilled i fb.got → place i c fb ≡ fb
unfolding place IsFilled
place-filled i c fb (d, e) = rw (e, place)

place-Placed :
    (p : Bytes) (i : ℕ) (fb : FragBuf)
    → i < frag_count p
    → IsPartial p fb
    → Placed p i fb (place i (frag_piece p i) fb)
place-Placed p i fb hi v = elim (slot_cases i fb.got (omega (arith, v.slots))) [
  | inl e ↦ rw (place-free i (frag_piece p i) fb e) (record {
    total = v.total;
    slots = length-set fb.got i (some (frag_piece p i)) ∙ v.slots;
    holds = rw zero-add at (Holds-set p 0 i fb.got v.holds);
    counts = omega (arith, v.counts, filled-set i (frag_piece p i) fb.got e);
    grows = omega arith;
    here = IsFilled-set_self i (frag_piece p i) fb.got (omega (arith, v.slots));
    keeps = λ j f. IsFilled-set i j (frag_piece p i) fb.got f;
  })
  | inr f ↦ rw (place-filled i (frag_piece p i) fb f) (record {
    total = v.total;
    slots = v.slots;
    holds = v.holds;
    counts = v.counts;
    grows = omega arith;
    here = f;
    keeps = λ j g. g;
  })
]

-- The result of one fragment: the whole message, or a buffer that has it and is still partial.
abbrev pub Stepped : Bytes → ℕ → ℕ → Map ℕ FragBuf → Option Bytes × Map ℕ FragBuf → Type 0
Stepped p i cid m r =
    ((r ≡ (some p, remove cid m)) × (frag_count p ≤ (entry_for cid (frag_count p) m).count + 1))
    ⊎ ((gb : FragBuf) × (r ≡ (none, insert cid gb m))
        × (gb.count ≤ (entry_for cid (frag_count p) m).count + 1)
        × IsPartial p gb
        × IsFilled i gb.got
        × ((j : ℕ) → IsFilled j (entry_for cid (frag_count p) m).got → IsFilled j gb.got))

finish_full :
    (cid : ℕ) (gb : FragBuf) (m : Map ℕ FragBuf) (out : Bytes)
    → gb.count ≡ gb.total
    → gather gb.got ≡ some out
    → finish cid gb m ≡ (some out, remove cid m)
unfolding finish
finish_full cid gb m out e g = rw (e, ==_refl gb.total, g, finish)

finish_short :
    (cid : ℕ) (gb : FragBuf) (m : Map ℕ FragBuf)
    → gb.count ≢ gb.total
    → finish cid gb m ≡ (none, insert cid gb m)
unfolding finish
finish_short cid gb m ne = ground arith

finish-Stepped :
    (p : Bytes) (i cid : ℕ) (m : Map ℕ FragBuf) (gb : FragBuf)
    → Fits p
    → Placed p i (entry_for cid (frag_count p) m) gb
    → Stepped p i cid m (finish cid gb m)
finish-Stepped p i cid m gb h d = elim (eq_or_ne gb.count gb.total) [
  | inl e ↦ inl (
    finish_full cid gb m p e (
        gather_full p 0 gb.got d.holds (omega (arith, e, d.counts, d.slots, d.total))
        ∙ ap some (ap (pieces p 0) d.slots ∙ pieces_all p h)),
    omega (arith, e, d.grows, d.total),
  )
  | inr ne ↦ inr (
    gb,
    finish_short cid gb m ne,
    d.grows,
    record {
      total = d.total;
      slots = d.slots;
      holds = d.holds;
      counts = d.counts;
      short = omega (arith, ne, d.total, d.slots, d.counts, filled-le gb.got);
    },
    d.here,
    d.keeps,
  )
]

collect_frag :
    (p : Bytes) (i cid : ℕ) (m : Map ℕ FragBuf)
    → Fits p
    → i < frag_count p
    → (entry_for cid (frag_count p) m).total ≡ frag_count p
    → collect cid (frag_at p i) m
      ≡ finish cid (place i (frag_piece p i) (entry_for cid (frag_count p) m)) m
unfolding collect reassemble
collect_frag p i cid m h hi e =
    rw (parse_frag-frag_at p i h hi, collect)
      (ap (λ fb. finish cid (place i (frag_piece p i) fb) m) (fit_total-same _ _ e))

pub collect-Stepped :
    (p : Bytes) (i cid : ℕ) (m : Map ℕ FragBuf)
    → Fits p
    → i < frag_count p
    → IsPartial p (entry_for cid (frag_count p) m)
    → Stepped p i cid m (collect cid (frag_at p i) m)
collect-Stepped p i cid m h hi v =
    rw (collect_frag p i cid m h hi v.total)
      (finish-Stepped p i cid m _ h (place-Placed p i _ hi v))

pub entry_for-insert :
    (cid n : ℕ) (gb : FragBuf) (m : Map ℕ FragBuf) → entry_for cid n (insert cid gb m) ≡ gb
unfolding entry_for
entry_for-insert cid n gb m = rw (lookup-insert_self cid gb m, entry_for)

pub start-IsPartial :
    (p : Bytes) (cid : ℕ) (m : Map ℕ FragBuf)
    → Fits p
    → lookup cid m ≡ none
    → IsPartial p (entry_for cid (frag_count p) m)
unfolding entry_for
start-IsPartial p cid m h e = rw (e, entry_for) (fresh-IsPartial p h)
