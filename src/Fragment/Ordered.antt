-- ===== src/Fragment/Ordered.antt =====
-- The fragments of a message in their own order (crates/nbf-net/src/cell.rs, `fragment` and
-- `reassemble`), one after the other.
use never_been_found.Prelude.{
  ℕ, zero, suc, ◌+◌, ◌-◌, ◌≤◌, ◌<◌, ◌≡◌, subst, inl, inr, none, some, List, [], ◌∷◌, map, Bytes,
  arith, Map, lookup, insert, nat_eq, eq_or_ne,
}
use never_been_found.Fragment.{
  frag_count, frag_at, range_from, fragment, FragBuf, entry_for, collect,
}
use never_been_found.Fragment.Slots.{IsFilled, filled_full}
use never_been_found.Fragment.Pieces.{Fits, count_bounds}
use never_been_found.Fragment.Steps.{IsPartial, collect-Stepped, entry_for-insert, start-IsPartial}

-- The payloads give the message at the last one and nothing before it.
pub data Gathers (p : Bytes) (cid : ℕ) : List Bytes → Map ℕ FragBuf → Type 0 where
  last :
      {f : Bytes} {m : Map ℕ FragBuf} (m' : Map ℕ FragBuf)
      → collect cid f m ≡ (some p, m')
      → Gathers p cid (f ∷ []) m
  more :
      {f : Bytes} {fs : List Bytes} {m : Map ℕ FragBuf} (m' : Map ℕ FragBuf)
      → collect cid f m ≡ (none, m')
      → Gathers p cid fs m'
      → Gathers p cid (f ∷ fs) m

-- The first `k` fragments are in the buffer.
record Has (p : Bytes) (k : ℕ) (fb : FragBuf) : Type 0 where
  partial : IsPartial p fb
  at_most : fb.count ≤ k
  all : (j : ℕ) → j < k → IsFilled j fb.got

module _ (p : Bytes) (cid : ℕ) (fits : Fits p) where
  all-suc :
      (k : ℕ) (fb gb : FragBuf)
      → ((j : ℕ) → j < k → IsFilled j fb.got)
      → ((j : ℕ) → IsFilled j fb.got → IsFilled j gb.got)
      → IsFilled k gb.got
      → (j : ℕ) → j < suc k
      → IsFilled j gb.got
  all-suc k fb gb before keeps here j lt = elim (eq_or_ne k j) [
    | inl same ↦ subst (λ i. IsFilled i gb.got) same here
    | inr ne ↦ keeps j (before j (omega (arith, ne)))
  ]

  range-Gathers :
      (k n : ℕ) (m : Map ℕ FragBuf)
      → k + suc n ≡ frag_count p
      → Has p k (entry_for cid (frag_count p) m)
      → Gathers p cid (map (frag_at p) (range_from k (suc n))) m
  unfolding range_from
  range-Gathers k zero m e v = elim (collect-Stepped p k cid m fits (omega (arith, e)) v.partial) [
    | inl (r, full) ↦ last _ r
    | inr (gb, r, count, v', here, keeps) ↦ absurd (
        omega (
          arith,
          v'.short,
          v'.counts,
          v'.slots,
          filled_full gb.got (λ i lt.
              all-suc k (entry_for cid (frag_count p) m) gb v.all keeps here i
                (omega (arith, e, v'.slots))),
        ))
  ]
  range-Gathers k (suc n) m e v =
      elim (collect-Stepped p k cid m fits (omega (arith, e)) v.partial) [
        | inl (r, full) ↦ absurd (omega (arith, e, full, v.at_most))
        | inr (gb, r, count, v', here, keeps) ↦
            let back : entry_for cid (frag_count p) (insert cid gb m) ≡ gb =
              entry_for-insert cid (frag_count p) gb m in
            more _ r (
              range-Gathers (suc k) n (insert cid gb m) (omega (arith, e)) (
                rw back (record {
                  partial = v';
                  at_most = omega (arith, count, v.at_most);
                  all = all-suc k (entry_for cid (frag_count p) m) gb v.all keeps here;
                })))
      ]

  start-Has : (m : Map ℕ FragBuf) → lookup cid m ≡ none → Has p 0 (entry_for cid (frag_count p) m)
  unfolding entry_for
  start-Has m e = record {
    partial = start-IsPartial p cid m fits e;
    at_most = rw (e, entry_for) (omega arith);
    all = λ j lt. absurd (omega (arith, lt));
  }

  -- The fragments of a message that fits, each once and in their order, at a node with no buffer
  -- for the circuit: the message comes out at the last one, and nothing before.
  pub fragment-Gathers : (m : Map ℕ FragBuf) → lookup cid m ≡ none → Gathers p cid (fragment p) m
  unfolding fragment
  fragment-Gathers m e =
      let n = frag_count p - 1 in
      let count : suc n ≡ frag_count p = omega (arith, count_bounds p fits) in
      subst (λ k. Gathers p cid (map (frag_at p) (range_from 0 k)) m) count
        (range-Gathers 0 n m (omega (arith, count)) (start-Has m e))
