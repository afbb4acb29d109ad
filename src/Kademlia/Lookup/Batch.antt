-- ===== src/Kademlia/Lookup/Batch.antt =====
-- The ids that a search has asked for and its next batch (crates/nbf-dht/src/kademlia.rs,
-- `lookup`).
use never_been_found.Prelude.{
  ℕ, ◌+◌, ◌≤◌, ◌<◌, ◌≡◌, refl, ap, inl, inr, ◌⊎◌, true, false, Bool-cases, ◌||◌, List, [], ◌∷◌,
  ◌++◌, length, All, take, Bytes, bytes_eq, bytes_eq_iff, bytes_eq_refl, if◌then◌else◌, arith,
}
use never_been_found.Addr.{SocketAddr}
use never_been_found.Rpc.{Contact}
use never_been_found.Kademlia.{Kademlia}
use never_been_found.Kademlia.Table.{All-take}
use never_been_found.Kademlia.Lookup.{
  Reply, answered, replaced, silent, unsent, send_rpc, contains, unasked, batch, alpha,
}

-- How many of the ids of `u` are not asked for yet.
abbrev pub left : List Bytes → List Bytes → ℕ
left [] queried = 0
left (x ∷ u) queried = (if contains x queried then 0 else 1) + left u queried

contains-append :
    (id : Bytes) (qs rs : List Bytes) → contains id (qs ++ rs) ≡ (contains id qs || contains id rs)
contains-append id [] rs = refl
contains-append id (q ∷ qs) rs = ground (arith, contains-append id qs rs)

pub left-append :
    (u queried : List Bytes) (id : Bytes) → left u (queried ++ (id ∷ [])) ≤ left u queried
left-append [] queried id = omega arith
left-append (x ∷ u) queried id =
    ground (arith, contains-append x queried (id ∷ []), left-append u queried id)

pub left_fresh :
    (u queried : List Bytes) (id : Bytes)
    → contains id u ≡ true
    → contains id queried ≡ false
    → left u (queried ++ (id ∷ [])) < left u queried
left_fresh [] queried id h e = cc
left_fresh (x ∷ u) queried id h e = elim (Bool-cases (bytes_eq x id)) [
  | inl same ↦ rw ((bytes_eq_iff x id).0 same) (
      ground
        (arith, contains-append id queried (id ∷ []), bytes_eq_refl id, left-append u queried id))
  | inr other ↦
      ground (arith, contains-append x queried (id ∷ []), left_fresh u queried id (ground arith) e)
]

pub List-cases :
    (xs : List Contact) → (xs ≡ []) ⊎ ((x : Contact) × (ys : List Contact) × (xs ≡ x ∷ ys))
List-cases [] = inl refl
List-cases (x ∷ xs) = inr (x, xs, refl)

pub left_nil : (u : List Bytes) → left u [] ≡ length u
left_nil [] = refl
left_nil (x ∷ u) = omega (arith, left_nil u)

-- Every contact is one of the ids.
abbrev pub Known : List Bytes → List Contact → Type 0
Known u cs = All (λ (c : Contact). contains c.node_id u ≡ true) cs

pub rt-send_rpc :
    (r : Reply) (to : SocketAddr) (tx : ℕ) (t : Kademlia) → (send_rpc r to tx t).1.rt ≡ t.rt
unfolding send_rpc
rt-send_rpc (answered m) to tx t = refl
rt-send_rpc (replaced other) to tx t = refl
rt-send_rpc silent to tx t = refl
rt-send_rpc unsent to tx t = refl

unasked-head :
    (queried : List Bytes) (cs rest : List Contact) (c : Contact)
    → unasked queried cs ≡ c ∷ rest
    → (contains c.node_id queried ≡ false)
unfolding unasked
unasked-head queried [] rest c e = cc
unasked-head queried (x ∷ cs) rest c e = elim (Bool-cases (contains x.node_id queried)) [
  | inl old ↦ unasked-head queried cs rest c (ground arith)
  | inr new ↦ ground arith
]

pub unasked-All :
    (P : Contact → Type 0) (queried : List Bytes) (cs : List Contact)
    → All P cs
    → All P (unasked queried cs)
unfolding unasked
unasked-All P queried [] h = tt
unasked-All P queried (x ∷ cs) (p, h) = elim (Bool-cases (contains x.node_id queried)) [
  | inl old ↦ rw old (unasked-All P queried cs h)
  | inr new ↦ rw new (p, unasked-All P queried cs h)
]

take-head :
    (xs rest : List Contact) (c : Contact)
    → take alpha xs ≡ c ∷ rest
    → (ys : List Contact) × (xs ≡ c ∷ ys)
unfolding take
take-head [] rest c e = cc
take-head (x ∷ xs) rest c e = let same : x ≡ c = cc in (xs, ap (λ y. y ∷ xs) same)

pub batch-head :
    (queried : List Bytes) (cs rest : List Contact) (c : Contact)
    → batch queried cs ≡ c ∷ rest
    → contains c.node_id queried ≡ false
unfolding batch
batch-head queried cs rest c e =
    let (ys, f) = take-head (unasked queried cs) rest c e in unasked-head queried cs ys c f

pub batch-All :
    (P : Contact → Type 0) (queried : List Bytes) (cs : List Contact)
    → All P cs
    → All P (batch queried cs)
unfolding batch
batch-All P queried cs h = All-take P alpha _ (unasked-All P queried cs h)
