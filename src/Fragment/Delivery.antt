-- ===== src/Fragment/Delivery.antt =====
-- Fragments of one message that arrive in any order, some of them more than once, before and after
-- one of them completes the message (`reassemble` over the fragments of `fragment`).
use never_been_found.Prelude.{
  ℕ, ◌+◌, ◌≤◌, ◌<◌, ◌≡◌, ◌≢◌, refl, ap, subst, ◌∙◌, ◌++◌, length, remove, ◌⊎◌, inl, inr, none, some,
  List, [], ◌∷◌, map, All, Bytes, arith, Map, lookup, insert, nat_eq, lookup-remove_self,
  lookup-insert, lookup-remove,
}
use never_been_found.Fragment.{
  FragBuf, entry_for, put_out, finish, reassemble, collect, deliver, frag_count, frag_at,
}
use never_been_found.Fragment.Slots.{IsFilled, filled_full}
use never_been_found.Fragment.Pieces.{Fits}
use never_been_found.Fragment.Steps.{IsPartial, collect-Stepped, entry_for-insert, start-IsPartial}

-- The number stands in the list.
abbrev pub Occurs : ℕ → List ℕ → Type 0
Occurs i [] = ⊥
Occurs i (x ∷ xs) = (x ≡ i) ⊎ Occurs i xs

deliver_done :
    (cid : ℕ) (f : Bytes) (fs : List Bytes) (m m' : Map ℕ FragBuf) (out : Bytes)
    → collect cid f m ≡ (some out, m')
    → deliver cid (f ∷ fs) m ≡ (out ∷ (deliver cid fs m').0, (deliver cid fs m').1)
unfolding deliver
deliver_done cid f fs m m' out e =
    ap {B = List Bytes × Map ℕ FragBuf}
      (λ r. (put_out r.0 (deliver cid fs r.1).0, (deliver cid fs r.1).1)) e

deliver_more :
    (cid : ℕ) (f : Bytes) (fs : List Bytes) (m m' : Map ℕ FragBuf)
    → collect cid f m ≡ (none, m')
    → deliver cid (f ∷ fs) m ≡ deliver cid fs m'
unfolding deliver
deliver_more cid f fs m m' e =
    ap {B = List Bytes × Map ℕ FragBuf}
      (λ r. (put_out r.0 (deliver cid fs r.1).0, (deliver cid fs r.1).1)) e

-- The fragments up to one of them give the message, and those after it start from no buffer.
pub record Completes (p : Bytes) (cid : ℕ) (is : List ℕ) (m : Map ℕ FragBuf) : Type 0 where
  pub before : List ℕ
  pub last : ℕ
  pub after : List ℕ
  pub cleared : Map ℕ FragBuf
  pub sequence : is ≡ before ++ (last ∷ after)
  pub nothing_yet : (deliver cid (map (frag_at p) before) m).0 ≡ []
  pub out_at_last : deliver cid (map (frag_at p) (before ++ (last ∷ []))) m ≡ (p ∷ [], cleared)
  pub no_buffer : lookup cid cleared ≡ none
  pub starts_anew : deliver cid (map (frag_at p) is) m ≡ (
    p ∷ (deliver cid (map (frag_at p) after) cleared).0,
    (deliver cid (map (frag_at p) after) cleared).1,
  )

-- After some deliveries the message has come out, or the buffer has all of them.
abbrev Delivered : Bytes → ℕ → Map ℕ FragBuf → List ℕ → Type 0
Delivered p cid m is =
    let r = deliver cid (map (frag_at p) is) m in
    ((v : Completes p cid is m) × (frag_count p
        ≤ (entry_for cid (frag_count p) m).count + (length v.before + 1)))
    ⊎ (IsPartial p (entry_for cid (frag_count p) r.1)
        × ((j : ℕ) → Occurs j is → IsFilled j (entry_for cid (frag_count p) r.1).got)
        × ((j : ℕ)
            → IsFilled j (entry_for cid (frag_count p) m).got
            → IsFilled j (entry_for cid (frag_count p) r.1).got))

Completes-now :
    (p : Bytes) (cid i : ℕ) (is : List ℕ) (m : Map ℕ FragBuf)
    → collect cid (frag_at p i) m ≡ (some p, remove cid m)
    → Completes p cid (i ∷ is) m
unfolding deliver
Completes-now p cid i is m e = record {
  before = [];
  last = i;
  after = is;
  cleared = remove cid m;
  sequence = refl;
  nothing_yet = refl;
  out_at_last = deliver_done cid _ [] m _ p e;
  no_buffer = lookup-remove_self cid m;
  starts_anew = deliver_done cid _ (map (frag_at p) is) m _ p e;
}

Completes-later :
    (p : Bytes) (cid i : ℕ) (is : List ℕ) (m m' : Map ℕ FragBuf)
    → collect cid (frag_at p i) m ≡ (none, m')
    → Completes p cid is m'
    → Completes p cid (i ∷ is) m
Completes-later p cid i is m m' e v = record {
  before = i ∷ v.before;
  last = v.last;
  after = v.after;
  cleared = v.cleared;
  sequence = ap (λ js. i ∷ js) v.sequence;
  nothing_yet =
      ap (λ r. r.0) (deliver_more cid _ (map (frag_at p) v.before) m m' e) ∙ v.nothing_yet;
  out_at_last = deliver_more cid _ _ m m' e ∙ v.out_at_last;
  no_buffer = v.no_buffer;
  starts_anew = deliver_more cid _ (map (frag_at p) is) m m' e ∙ v.starts_anew;
}

deliver-Delivered :
    (p : Bytes) (cid : ℕ) (is : List ℕ) (m : Map ℕ FragBuf)
    → Fits p
    → All (λ i. i < frag_count p) is
    → IsPartial p (entry_for cid (frag_count p) m)
    → Delivered p cid m is
unfolding Completes-later
deliver-Delivered p cid [] m h his v = unfold deliver in inr (v, (λ j o. absurd o), λ j f. f)
deliver-Delivered p cid (i ∷ is) m h his v = elim (collect-Stepped p i cid m h his.0 v) [
  | inl (e, full) ↦ inl (Completes-now p cid i is m e, omega (arith, full))
  | inr (gb, e, count, v', here, keeps) ↦
      let m' = insert cid gb m in
      let back : entry_for cid (frag_count p) m' ≡ gb = entry_for-insert cid (frag_count p) gb m in
      elim (deliver-Delivered p cid is m' h his.1 (rw back v')) [
        | inl (done, few) ↦ inl (
          Completes-later p cid i is m m' e done,
          omega (arith, count, few, ap (λ fb. fb.count) back),
        )
        | inr (v'', occ, kept) ↦ rw (deliver_more cid _ (map (frag_at p) is) m m' e) (
            inr (
              v'',
              (λ j o. elim o [
                | inl same ↦ kept j (rw back (subst (λ k. IsFilled k gb.got) same here))
                | inr later ↦ occ j later
              ]),
              λ j f. kept j (rw back (keeps j f)),
            ))
      ]
]

deliver-unaltered :
    (p : Bytes) (cid : ℕ) (is : List ℕ) (m : Map ℕ FragBuf)
    → Fits p
    → All (λ i. i < frag_count p) is
    → IsPartial p (entry_for cid (frag_count p) m)
    → All (λ out. out ≡ p) (deliver cid (map (frag_at p) is) m).0
deliver-unaltered p cid [] m h his v = unfold deliver in tt
deliver-unaltered p cid (i ∷ is) m h his v = elim (collect-Stepped p i cid m h his.0 v) [
  | inl (e, full) ↦ rw (deliver_done cid _ (map (frag_at p) is) m _ p e) (
    refl,
    deliver-unaltered p cid is (remove cid m) h his.1
        (start-IsPartial p cid (remove cid m) h (lookup-remove_self cid m)),
  )
  | inr (gb, e, count, v', here, keeps) ↦ rw (deliver_more cid _ (map (frag_at p) is) m _ e) (
      deliver-unaltered p cid is (insert cid gb m) h his.1
        (rw (entry_for-insert cid (frag_count p) gb m) v'))
]

empty_count :
    (p : Bytes) (cid : ℕ) (m : Map ℕ FragBuf)
    → lookup cid m ≡ none
    → (entry_for cid (frag_count p) m).count ≡ 0
unfolding entry_for
empty_count p cid m e = rw (e, entry_for)

-- Let the fragments of a message of at most 65535 fragments arrive in any order and with any
-- repetitions, each at least once, at a node with no buffer for the circuit. Then nothing comes out
-- before some fragment, not earlier than their number allows, and with this one the message does and
-- its buffer is removed. The fragments after it are gathered anew, from no buffer. Whatever comes
-- out, then or later, is the message, unaltered.
pub deliver-fragment :
    (p : Bytes) (cid : ℕ) (is : List ℕ) (m : Map ℕ FragBuf)
    → Fits p
    → All (λ i. i < frag_count p) is
    → ((i : ℕ) → i < frag_count p → Occurs i is)
    → lookup cid m ≡ none
    → (v : Completes p cid is m) × (frag_count p ≤ length v.before + 1)
      × All (λ out. out ≡ p) (deliver cid (map (frag_at p) is) m).0
deliver-fragment p cid is m h his all e =
    let start = start-IsPartial p cid m h e in
    elim (deliver-Delivered p cid is m h his start) [
      | inl (done, few) ↦ (
        done,
        omega (arith, few, empty_count p cid m e),
        deliver-unaltered p cid is m h his start,
      )
      | inr (v, occ, kept) ↦ absurd (
          omega (
            arith,
            v.short,
            v.counts,
            v.slots,
            filled_full _ (λ i lt. occ i (all i (omega (arith, v.slots)))),
          ))
    ]

finish_frame :
    (cid j : ℕ) (fb : FragBuf) (m : Map ℕ FragBuf)
    → cid ≢ j
    → lookup j (finish cid fb m).1 ≡ lookup j m
unfolding finish
finish_frame cid j fb m ne = ground (
  arith,
  lookup-insert cid j fb m,
  lookup-insert cid j (record fb { got = [] }) m,
  lookup-remove cid j m,
)

-- A CREATE payload of one circuit, well formed or not, leaves the buffers of all other circuits as
-- they are.
pub collect_frame :
    (cid j : ℕ) (payload : Bytes) (m : Map ℕ FragBuf)
    → cid ≢ j
    → lookup j (collect cid payload m).1 ≡ lookup j m
unfolding collect reassemble
collect_frame cid j payload m ne = grind (arith, finish_frame)
