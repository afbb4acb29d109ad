-- ===== src/Builder/Starts.antt =====
-- The start of a circuit (crates/nbf-net/src/builder.rs, `build_circuit`): its two ends before the
-- wait for CREATED, and the wait.
use never_been_found.Prelude.{
  ℕ, ◌+◌, ◌%◌, ◌^◌, ◌≡◌, ◌||◌, refl, ap, subst, ◌∙◌, inl, inr, true, false, Bool-cases, none, some,
  List, [], ◌∷◌, length, Bytes, Result, Result-cases, ok, err, ltb, ◌==◌, lookup, nat_eq,
  lookup-insert_self, lookup-remove_self,
}
use never_been_found.Errors.{NetError, bad_length, crypto}
use never_been_found.Suite.{Suite}
use never_been_found.Asym.{Asym}
use never_been_found.Addr.{SocketAddr}
use never_been_found.Descriptor.{Descriptor}
use never_been_found.Sphinx.{build_header, max_hops}
use never_been_found.Node.{Node, Effect, wake, new_cid}
use never_been_found.Control.{created_effects, handle_created, created_waited, created_passed}
use never_been_found.Engine.{Finder, lookup_route, created_cell}
use never_been_found.Engine.Routes.{
  SameCircuits, SameCircuits-refl, SameCircuits-trans, lookup_route-SameCircuits,
}
use never_been_found.Builder.{
  Started, resolve, create_sends, depart, start, await_created, origin_entry, settle,
}

pub resolve-SameCircuits :
    (f : Finder) (route : List Bytes) (n : Node) → SameCircuits n (resolve f route n).1
unfolding resolve
resolve-SameCircuits f [] n = SameCircuits-refl n
resolve-SameCircuits f (id ∷ ids) n =
    let first = lookup_route-SameCircuits f id n in
    let later = resolve-SameCircuits f ids (lookup_route f id n).1 in
    elim (Result-cases (lookup_route f id n).0) [
      | inr (e, h) ↦ rw (h, resolve) first
      | inl (d, h) ↦ elim (Result-cases (resolve f ids (lookup_route f id n).1).0) [
        | inr (e, h') ↦ rw (h, h', resolve) (SameCircuits-trans n _ _ first later)
        | inl (ds, h') ↦ rw (h, h', resolve) (SameCircuits-trans n _ _ first later)
      ]
    ]

abbrev pub took_id : Node → Node
took_id n = record n { next_cid = (n.next_cid + 1) % 2 ^ 32 }

module _ (f : Finder) (c : Suite) (a : Asym) where
  -- How `build_circuit` reaches its wait: a route of 1 to 5 hops, all found, a header built for
  -- their descriptors under a fresh tag, and CREATE sent to the first under a new id.
  pub record Departed (route : List Bytes) (n : Node) (rng : a.Rng) (s : Started) (es : List Effect)
      (n' : Node) : Type 0 where
    pub descs : List Descriptor
    pub found : (resolve f route n).0 ≡ ok descs
    pub header :
        (build_header c a descs (a.fill_bytes 16 rng).0 (a.fill_bytes 16 rng).1).0 ≡ ok s.built
    pub sends : es ≡ create_sends s.cid descs s.built
    pub own_id : s.cid ≡ n.next_cid
    pub same : SameCircuits (took_id n) n'

  -- The ends of `start`: on an error nothing is sent, and no circuit, waiter or id has changed.
  pub data StartsAs (route : List Bytes) (n : Node) (rng : a.Rng)
      (r : (Result NetError Started × List Effect) × Node × a.Rng) : Type 0 where
    departed :
        (s : Started) → (r.0).0 ≡ ok s → Departed route n rng s (r.0).1 r.1 → StartsAs route n rng r
    refused :
        (e : NetError)
        → (r.0).0 ≡ err e
        → (r.0).1 ≡ []
        → SameCircuits n r.1
        → StartsAs route n rng r

  depart-StartsAs :
      (route : List Bytes) (descs : List Descriptor) (n : Node) (rng : a.Rng)
      → (resolve f route n).0 ≡ ok descs
      → StartsAs route n rng (depart f c a descs (resolve f route n).1 rng)
  unfolding depart new_cid
  depart-StartsAs route descs n rng found =
      let same = resolve-SameCircuits f route n in
      elim (Result-cases
        (build_header c a descs (a.fill_bytes 16 rng).0 (a.fill_bytes 16 rng).1).0) [
          | inr (e, h) ↦ rw (h, depart) (refused (crypto e) refl refl same)
          | inl (built, h) ↦
              rw (h, depart)
                (departed (record { cid = _; built = built }) refl
                  (record {
                    descs = descs;
                    found = found;
                    header = h;
                    sends = refl;
                    own_id = ap (λ x. x.next_cid) same.rest_of;
                    same = record {
                      cache_of = same.cache_of;
                      table_of = same.table_of;
                      rest_of = ap took_id same.rest_of;
                    };
                  }))
        ]

  -- however it ends
  pub start-StartsAs :
      (route : List Bytes) (n : Node) (rng : a.Rng) → StartsAs route n rng (start f c a route n rng)
  unfolding start
  start-StartsAs route n rng =
      elim (Bool-cases ((length route == 0) || ltb max_hops (length route))) [
        | inl bad ↦ rw bad (refused (bad_length (length route)) refl refl (SameCircuits-refl n))
        | inr good ↦ elim (Result-cases (resolve f route n).0) [
          | inr (e, h) ↦ rw (good, h, start) (refused e refl refl (resolve-SameCircuits f route n))
          | inl (descs, h) ↦ rw (good, h, start) (depart-StartsAs route descs n rng h)
        ]
      ]

  same_start : (r : Result NetError Started) (s s' : Started) → r ≡ ok s → r ≡ ok s' → s' ≡ s
  same_start r s s' e e' = cc

  no_start : (r : Result NetError Started) (s : Started) (x : NetError) → r ≡ ok s → r ≡ err x → ⊥
  no_start r s x e e' = cc

  pub start-Departed :
      (route : List Bytes) (n : Node) (rng : a.Rng) (s : Started)
      → ((start f c a route n rng).0).0 ≡ ok s
      → Departed route n rng s (start f c a route n rng).0.1 (start f c a route n rng).1
  start-Departed route n rng s e = elim (start-StartsAs route n rng) [
    | departed s' e' d ↦
        subst
          (λ x. Departed route n rng x (start f c a route n rng).0.1 (start f c a route n rng).1)
          (same_start _ s s' e e') d
    | refused x e' q v ↦ absurd (no_start _ s x e e')
  ]

  -- A circuit that cannot be started leaves no trace: whatever the reason (a route of no or more
  -- than 5 hops, a hop that is not found, a header that cannot be built), no cell is sent, and the
  -- circuits, the waiters and the next id are what they were.
  start_fails :
      (route : List Bytes) (n : Node) (rng : a.Rng) (x : NetError)
      → ((start f c a route n rng).0).0 ≡ err x
      → let r = start f c a route n rng in
        ((r.0).1 ≡ [])
        × ((r.1).circuits ≡ n.circuits)
        × ((r.1).pending ≡ n.pending)
        × ((r.1).next_cid ≡ n.next_cid)
  start_fails route n rng x e = elim (start-StartsAs route n rng) [
    | departed s e' d ↦ absurd (no_start _ s x e' e)
    | refused x' e' q v ↦ (
      q,
      ap (λ y. y.circuits) v.rest_of,
      ap (λ y. y.pending) v.rest_of,
      ap (λ y. y.next_cid) v.rest_of,
    )
  ]

-- A CREATED for a circuit that nobody waits for and the node has no entry of.
unawaited :
    (from : SocketAddr) (cid : ℕ) (n : Node)
    → lookup cid n.pending ≡ none
    → lookup cid n.circuits ≡ none
    → handle_created from (created_cell cid) n ≡ (n, [])
unawaited from cid n p e =
    created_passed from (created_cell cid) n p ∙ ap (λ x. (n, created_effects x)) e

-- Let the next id of a node be one without a waiter and without an entry, and let the node start a
-- circuit with some route: all parts of CREATE are sent by then. A CREATED that comes back at once,
-- before the waiter is registered, is lost: the node stays as it is and nobody is woken, and the
-- waiter that is registered next goes on waiting. If the wait ends without another CREATED, the node
-- has no entry of the circuit, and one that comes later is lost as well.
pub created_out_of_time :
    (f : Finder) (c : Suite) (a : Asym) (from : SocketAddr) (route : List Bytes) (n : Node)
    (rng : a.Rng) (s : Started) (tx : ℕ)
    → ((start f c a route n rng).0).0 ≡ ok s
    → lookup n.next_cid n.pending ≡ none
    → lookup n.next_cid n.circuits ≡ none
    → let r = start f c a route n rng in
      let early = handle_created from (created_cell s.cid) r.1 in
      let waiting = await_created s.cid tx early.0 in
      let late = (settle false s waiting).1 in
      ((descs : List Descriptor) × ((r.0).1 ≡ create_sends s.cid descs s.built))
      × (early ≡ (r.1, []))
      × (lookup s.cid waiting.pending ≡ some tx)
      × (lookup s.cid late.circuits ≡ none)
      × (handle_created from (created_cell s.cid) late ≡ (late, []))
unfolding settle
created_out_of_time f c a from route n rng s tx e p q =
    let d = start-Departed f c a route n rng s e in
    let n1 = (start f c a route n rng).1 in
    let p1 : lookup s.cid n1.pending ≡ none =
      ap (λ x. lookup s.cid x.pending) (d.same).rest_of
      ∙ ap (λ k. lookup k n.pending) d.own_id
      ∙ p in
    let q1 : lookup s.cid n1.circuits ≡ none =
      ap (λ x. lookup s.cid x.circuits) (d.same).rest_of
      ∙ ap (λ k. lookup k n.circuits) d.own_id
      ∙ q in
    let lost = unawaited from s.cid n1 p1 q1 in
    let kept : lookup s.cid (handle_created from (created_cell s.cid) n1).0.circuits ≡ none =
      ap (λ x. lookup s.cid (x.0).circuits) lost ∙ q1 in
    (
      (d.descs, d.sends),
      lost,
      lookup-insert_self s.cid tx _,
      kept,
      unawaited from s.cid _ (lookup-remove_self s.cid _) kept,
    )

-- A CREATED from any address that comes in time wakes the waiter, and the rest of `build_circuit`
-- files the circuit: the node is its origin, under the id of CREATE, with the keys of the header
-- and the first hop as the next one.
pub created_in_time :
    (from : SocketAddr) (tx : ℕ) (s : Started) (n : Node)
    → let r = handle_created from (created_cell s.cid) (await_created s.cid tx n) in
      let (h, n') = settle true s r.0 in
      (r.1 ≡ wake tx ∷ [])
      × (lookup s.cid n'.circuits ≡ some (origin_entry s))
      × (h
          ≡ ok (record {
            cid = s.cid;
            fwd = (s.built).fwd_keys;
            bwd = (s.built).bwd_keys;
            tag = (s.built).tag;
          }))
unfolding settle
created_in_time from tx s n =
    rw
      (created_waited from (created_cell s.cid) (await_created s.cid tx n) tx
        (lookup-insert_self s.cid tx n.pending))
      (refl, lookup-insert_self s.cid (origin_entry s) n.circuits, refl)
