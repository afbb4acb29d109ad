-- ===== src/Relay/Backward.antt =====
-- The backward layers at the origin: the loop of crates/nbf-net/src/relay.rs and the function
-- `open_onion_bwd` of crates/nbf-net/src/cell.rs, which it does not call.
use never_been_found.Prelude.{
  ℕ, ◌≡◌, refl, ap, ◌∙◌, inl, inr, Option, Option-cases, none, some, List, [], ◌∷◌, Bytes, Result,
  Result-cases, ok, err, Map, lookup, nat_eq,
}
use never_been_found.Errors.{NetError}
use never_been_found.Suite.{Suite}
use never_been_found.Onion.{open_bwd, open_onion_bwd}
use never_been_found.Node.{Node, Effect, push}
use never_been_found.Relay.{Header, peel_bwd, at_origin}

abbrev pub value_of : Result NetError Bytes → Option Bytes
value_of (ok bytes) = some bytes
value_of (err e) = none

-- What the origin does with opened bytes, or with an error.
abbrev pub deliver_to : Node → ℕ → Map ℕ ℕ → Option Bytes → Node × List Effect
deliver_to n stream streams none = (n, [])
deliver_to n stream streams (some bytes) = elim (lookup stream streams) [
  | none ↦ (n, [])
  | some tx ↦ (n, push tx bytes ∷ [])
]

module _ (c : Suite) where
  peel_bwd-open_onion_bwd :
      (ks : List Bytes) (tag : Bytes) (seq : ℕ) (onion : Bytes)
      → peel_bwd c ks tag seq onion ≡ value_of (open_onion_bwd c ks tag seq onion)
  unfolding peel_bwd open_onion_bwd open_bwd
  peel_bwd-open_onion_bwd [] tag seq onion = refl
  peel_bwd-open_onion_bwd (k ∷ ks) tag seq onion =
      elim (Result-cases (open_bwd c k tag seq onion)) [
        | inl (inner, e) ↦ rw (e, peel_bwd) (peel_bwd-open_onion_bwd ks tag seq inner)
        | inr (x, e) ↦ rw (e, peel_bwd)
      ]

  at_origin-peel_bwd :
      (n : Node) (h : Header) (bwd : List Bytes) (tag : Bytes) (streams : Map ℕ ℕ)
      → at_origin c n h bwd tag streams
        ≡ deliver_to n h.stream streams (peel_bwd c bwd tag h.seq h.onion)
  unfolding at_origin
  at_origin-peel_bwd n h bwd tag streams = elim (Option-cases (peel_bwd c bwd tag h.seq h.onion)) [
    | inl e ↦ rw (e, at_origin)
    | inr (bytes, e) ↦ rw (e, at_origin)
  ]

  -- The handler of the origin does what it would do if it called `open_onion_bwd` on all of its
  -- keys: what that returns goes to the stream that the cell names, if there is one, and its error,
  -- at whichever layer, drops the cell.
  pub at_origin-open_onion_bwd :
      (n : Node) (h : Header) (bwd : List Bytes) (tag : Bytes) (streams : Map ℕ ℕ)
      → at_origin c n h bwd tag streams
        ≡ deliver_to n h.stream streams (value_of (open_onion_bwd c bwd tag h.seq h.onion))
  at_origin-open_onion_bwd n h bwd tag streams =
      at_origin-peel_bwd n h bwd tag streams
      ∙ ap (deliver_to n h.stream streams) (peel_bwd-open_onion_bwd bwd tag h.seq h.onion)
