-- ===== src/Cover.antt =====
-- Cover traffic (crates/nbf-net/src/cover.rs): one turn of `run_loop`, after its delay. The index
-- that the random generator draws for a peer is an argument, and so is the error of `send_cell`.
use never_been_found.Prelude.{
  ℕ, Bool, true, false, Bool-cases, inl, inr, Option, Option-cases, none, some, List, [], ◌∷◌, ◌++◌,
  replicate, get_elem?, Bytes, Map, if◌then◌else◌,
}
use never_been_found.Errors.{NetError}
use never_been_found.Suite.{Suite}
use never_been_found.Addr.{SocketAddr}
use never_been_found.Cell.{Cell, Cmd}
use never_been_found.Node.{
  Node, CircuitEntry, origin, relay, terminal, Effect, send, peer_key, bump,
}
use never_been_found.Engine.{route_peers}
use never_been_found.Builder.{CircuitHandle, pick_origin, send_message}

abbrev peer_of : Option (Bytes × SocketAddr × Bytes) → Option (SocketAddr × Bytes)
peer_of none = none
peer_of (some (id, addr, key)) = some (addr, key)

-- No peer where none is known.
pub pick_peer : ℕ → Node → Option (SocketAddr × Bytes)
pick_peer i n = peer_of (get_elem? (route_peers n) i)

abbrev pub padding_cell : Cell
padding_cell = record { cid = 0; cmd = Cmd.padding; flags = 0; payload = [] }

-- A padding that could not be sent is not counted.
abbrev pub count_sent : Option NetError → Node → Node
count_sent none n = record n { stats = record n.stats { padding_sent = bump n.stats.padding_sent } }
count_sent (some e) n = n

abbrev is_origin : CircuitEntry → Bool
is_origin (origin f b t next s) = true
is_origin (relay t f b prev next l) = false
is_origin (terminal t f b prev l) = false

pub any_origin : Map ℕ CircuitEntry → Bool
any_origin [] = false
any_origin ((cid, e) ∷ m) = let rest = any_origin m in if is_origin e then true else rest

abbrev pub count_drop : Node → Node
count_drop n = record n { stats = record n.stats { drops_sent = bump n.stats.drops_sent } }

module _ (c : Suite) (send_cell : SocketAddr → Cell → Option NetError) where
  pub pad : ℕ → Node → Node × List Effect
  pad i n = elim (pick_peer i n) [
    | none ↦ (n, [])
    | some (peer, key) ↦ (
      count_sent (send_cell peer padding_cell) n,
      peer_key peer key ∷ send peer padding_cell ∷ [],
    )
  ]

  -- 64 zeros as a message on stream 0; counted whether it could be sent or not.
  pub mimic : Node → Node × List Effect
  mimic n =
      if any_origin n.circuits
      then elim (pick_origin n.circuits) [
        | none ↦ (n, [])
        | some h ↦ let r = send_message c send_cell h (replicate 64 0) 0 n in (count_drop r.1, r.2)
      ]
      else (n, [])

  pub cover_turn : ℕ → Node → Node × List Effect
  cover_turn i n = let r = pad i n in let later = mimic r.0 in (later.0, r.1 ++ later.1)

  pad-keeps :
      (P : Node → Type 0) (i : ℕ) (n : Node)
      → ((e : Option NetError) → P (count_sent e n))
      → P n
      → P (pad i n).0
  unfolding pad
  pad-keeps P i n counted v = elim (Option-cases (pick_peer i n)) [
    | inl e ↦ rw (e, pad) v
    | inr (p, e) ↦ rw (e, pad) (counted _)
  ]

  mimic-keeps :
      (P : Node → Type 0) (n : Node)
      → ((h : CircuitHandle) → P (count_drop (send_message c send_cell h (replicate 64 0) 0 n).1))
      → P n
      → P (mimic n).0
  unfolding mimic
  mimic-keeps P n counted v = elim (Bool-cases (any_origin n.circuits)) [
    | inr off ↦ rw off v
    | inl on ↦ elim (Option-cases (pick_origin n.circuits)) [
      | inl e ↦ rw (on, e) v
      | inr (h, e) ↦ rw (on, e) (counted h)
    ]
  ]

  -- What counting and messages keep, a turn keeps.
  pub cover_turn-keeps :
      (P : Node → Type 0) (i : ℕ) (n : Node)
      → ((e : Option NetError) → P (count_sent e n))
      → ((m : Node) (h : CircuitHandle)
          → P m
          → P (count_drop (send_message c send_cell h (replicate 64 0) 0 m).1))
      → P n
      → P (cover_turn i n).0
  unfolding cover_turn
  cover_turn-keeps P i n counted drops v =
      let padded = pad-keeps P i n counted v in
      mimic-keeps P (pad i n).0 (λ h. drops _ h padded) padded
