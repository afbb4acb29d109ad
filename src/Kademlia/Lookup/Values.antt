-- ===== src/Kademlia/Lookup/Values.antt =====
-- Where the value of a search comes from (crates/nbf-dht/src/kademlia.rs, `lookup`).
use never_been_found.Prelude.{
  ℕ, zero, suc, ◌≡◌, refl, ap, ◌∙◌, inl, inr, Bool, true, false, Bool-cases, Option, none, some,
  Option-cases, List, [], ◌∷◌, Bytes, take,
}
use never_been_found.Addr.{SocketAddr}
use never_been_found.Descriptor.{Descriptor}
use never_been_found.Rpc.{Contact, addr, find, found}
use never_been_found.Kademlia.{Kademlia, bucket, closest}
use never_been_found.Kademlia.Lookup.{
  answered, Net, send_rpc, Search, unasked, batch, found_in, taken, settled, ask, ask_all, rounds,
  lookup_in, Outcome, done,
}
use never_been_found.Kademlia.Lookup.Batch.{List-cases}
use never_been_found.Kademlia.Lookup.Ends.{found_in-answered}

taken-eq-some :
    (want : Bool) (v : Option Descriptor) (d : Descriptor) → taken want v ≡ some d → v ≡ some d
taken-eq-some want none d e = cc
taken-eq-some true (some x) d e = e
taken-eq-some false (some x) d e = cc

done_value :
    (v w : Option Descriptor) (s t : Search) → ◌≡◌ {A = Outcome} (done v s) (done w t) → v ≡ w
done_value v w s t e = cc

module _ (net : Net) (key : Bytes) (want_value : Bool) where
  -- Some node has answered the question with the descriptor.
  abbrev pub Came : Descriptor → Type 0
  Came d =
      (n : ℕ) × (to : SocketAddr) × (ks : List Contact) × (net n to (find key want_value)
        ≡ answered (found ks (some d)))

  ask-Came :
      (c : Contact) (s : Search) (ks : List Contact) (v : Option Descriptor) (d : Descriptor)
      → found_in (ask net key want_value c s).0 ≡ some (ks, v)
      → taken want_value v ≡ some d
      → Came d
  unfolding ask
  ask-Came c s ks v d e f = (
    s.asked,
    addr c,
    ks,
    found_in-answered _ (addr c) s.asked s.table ks v e
        ∙ ap (λ w. answered (found ks w)) (taken-eq-some want_value v d f),
  )

  ask_all-Came :
      (cs : List Contact) (s : Search) (d : Descriptor)
      → (ask_all net key want_value cs s).0 ≡ some d
      → Came d
  unfolding ask_all
  ask_all-Came [] s d e = cc
  ask_all-Came (c ∷ cs) s d e = elim (Option-cases (found_in (ask net key want_value c s).0)) [
    | inl f ↦ ask_all-Came cs (ask net key want_value c s).1 d (rw (f, ask_all) at e)
    | inr ((ks, v), f) ↦ elim (Option-cases (taken want_value v)) [
      | inl g ↦ ask_all-Came cs _ d (rw (g, ask_all) at (rw (f, ask_all) at e))
      | inr (x, g) ↦ ask-Came c s ks v d f (g ∙ (rw (g, ask_all) at (rw (f, ask_all) at e)))
    ]
  ]

  rounds-Came :
      (fuel : ℕ) (seen : List Contact) (s t : Search) (d : Descriptor)
      → rounds net key want_value fuel seen s ≡ done (some d) t
      → Came d
  unfolding rounds
  rounds-Came zero seen s t d e = cc
  rounds-Came (suc fuel) seen s t d e = elim (List-cases (batch s.queried seen)) [
    | inl f ↦ let e1 = done_value _ _ _ _ (rw (f, rounds) at e) in cc
    | inr (c, cs, f) ↦
        let r = ask_all net key want_value (c ∷ cs) s in
        let e1 = rw (f, rounds) at e in
        elim (Option-cases r.0) [
          | inr (x, g) ↦ ask_all-Came (c ∷ cs) s d (g ∙ done_value _ _ _ _ (rw (g, rounds) at e1))
          | inl g ↦
              let next = closest key bucket (r.1).table in
              let e2 = rw (g, rounds) at e1 in
              elim (Bool-cases (settled next seen)) [
                | inl h ↦ let e3 = done_value _ _ _ _ (rw (h, rounds) at e2) in cc
                | inr h ↦ rounds-Came fuel next r.1 t d (rw (h, rounds) at e2)
              ]
        ]
  ]

  -- A search invents nothing: the descriptor that it returns is one with which some node answered
  -- the search's question.
  pub lookup-Came :
      (fuel : ℕ) (t : Kademlia) (s : Search) (d : Descriptor)
      → lookup_in net key want_value fuel t ≡ done (some d) s
      → Came d
  unfolding lookup_in
  lookup-Came fuel t s d e = rounds-Came fuel _ _ s d e

batch_first :
    (c : Contact) (cs seen : List Contact)
    → seen ≡ c ∷ cs
    → (rest : List Contact) × (batch [] seen ≡ c ∷ rest)
unfolding batch unasked take
batch_first c cs seen e = rw e (_, refl)

ask_first :
    (net : Net) (key : Bytes) (t : Kademlia) (c : Contact) (ks : List Contact) (d : Descriptor)
    → net 0 (addr c) (find key true) ≡ answered (found ks (some d))
    → found_in (ask net key true c (record { table = t; asked = 0; queried = [] })).0
      ≡ some (ks, some d)
unfolding ask send_rpc
ask_first net key t c ks d e = rw (e, send_rpc)

ask_all_first :
    (net : Net) (key : Bytes) (s : Search) (c : Contact) (cs ks : List Contact) (d : Descriptor)
    → found_in (ask net key true c s).0 ≡ some (ks, some d)
    → ask_all net key true (c ∷ cs) s ≡ (some d, (ask net key true c s).1)
unfolding ask_all
ask_all_first net key s c cs ks d e = rw (e, ask_all)

-- A search for a value takes the first one that it is given: where the nearest contact answers with
-- a descriptor, that is the result, whatever the id in it.
pub lookup_takes_first :
    (net : Net) (key : Bytes) (fuel : ℕ) (t : Kademlia) (c : Contact) (cs ks : List Contact)
    (d : Descriptor)
    → closest key bucket t ≡ c ∷ cs
    → net 0 (addr c) (find key true) ≡ answered (found ks (some d))
    → (s : Search) × (lookup_in net key true (suc fuel) t ≡ done (some d) s)
unfolding lookup_in rounds
lookup_takes_first net key fuel t c cs ks d near e =
    let s : Search = record { table = t; asked = 0; queried = [] } in
    let (rest, f) = batch_first c cs (closest key bucket t) near in
    let g = ask_all_first net key s c rest ks d (ask_first net key t c ks d e) in
    ((ask_all net key true (c ∷ rest) s).1, rw (f, rounds) (rw (ap (λ r. r.0) g, rounds)))
