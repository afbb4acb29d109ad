-- ===== src/Relay/Hop.antt =====
-- One RELAY cell at one node (crates/nbf-net/src/relay.rs): what each role does with it.
use never_been_found.Prelude.{
  Option-cases, inl, inr, none, lookup-insert, arith, ℕ, ◌<◌, ◌^◌, ◌≡◌, ◌≢◌, refl, ap, ◌∙◌, some,
  List, [], ◌∷◌, Bytes, lt→leb, Map, lookup, nat_eq,
}
use never_been_found.Addr.{SocketAddr, addr_eq_refl, addr_eq_ne}
use never_been_found.Suite.{Suite}
use never_been_found.Cell.{RCmd, echo, rcmd_code}
use never_been_found.Onion.{seal_onion, seal_bwd, seal_onion_bwd}
use never_been_found.Onion.Layers.{
  open_onion-seal_onion, seal_onion-nil, seal_onion_bwd-nil, seal_onion_bwd-cons, open_bwd-seal_bwd,
}
use never_been_found.Node.{Node, HopLink, CircuitEntry, origin, relay, terminal, send, push}
use never_been_found.Relay.{
  parse_relay, relay_payload, relay_cell, at_relay, at_terminal, at_origin, peel_bwd, act, handle,
  update_entry, set_relay_seq, set_terminal_seq, count_relayed,
}
use never_been_found.Relay.Wire.{header, parse_relay-payload}

pub update_entry_other :
    (cid j : ℕ) (f : CircuitEntry → CircuitEntry) (n : Node)
    → cid ≢ j
    → lookup j (update_entry cid f n).circuits ≡ lookup j n.circuits
unfolding update_entry
update_entry_other cid j f n ne = elim (Option-cases (lookup cid n.circuits)) [
  | inl e ↦ rw (e, update_entry)
  | inr (x, e) ↦ rw (e, update_entry) (ground (arith, lookup-insert cid j (f x) n.circuits))
]

module _ (c : Suite) where
  pub no_circuit :
      (n : Node) (from : SocketAddr) (cid : ℕ) (payload : Bytes)
      → lookup cid n.circuits ≡ none
      → handle c n from (relay_cell cid payload) ≡ (n, [])
  unfolding handle
  no_circuit n from cid payload e = elim (Option-cases (parse_relay payload)) [
    | inl p ↦ rw (p, handle)
    | inr (h, p) ↦ rw (p, handle) (rw (e, handle))
  ]

  pub handle-act :
      (n : Node) (from : SocketAddr) (cid seq : ℕ) (r : RCmd) (stream : ℕ) (onion : Bytes)
      (e : CircuitEntry)
      → seq < 2 ^ 32
      → stream < 2 ^ 16
      → lookup cid n.circuits ≡ some e
      → handle c n from (relay_cell cid (relay_payload seq (rcmd_code r) stream onion))
        ≡ act c e (count_relayed n) from cid (header seq r stream onion)
  unfolding handle
  handle-act n from cid seq r stream onion e hs ht hl =
      rw (parse_relay-payload seq r stream onion hs ht, handle) (rw (hl, handle))

  -- A hop passes a fresh cell from its predecessor on, without its own layer, and remembers its
  -- number, where the fields are in their ranges.
  pub relay_forward :
      (n : Node) (cid seq : ℕ) (r : RCmd) (stream : ℕ) (tag kf kb : Bytes) (ks : List Bytes)
      (m : Bytes) (prev next : HopLink) (last : ℕ)
      → seq < 2 ^ 32
      → stream < 2 ^ 16
      → lookup cid n.circuits ≡ some (relay tag kf kb prev next last)
      → last < seq
      → handle c n prev.peer (
          relay_cell cid
            (relay_payload seq (rcmd_code r) stream (seal_onion c (kf ∷ ks) tag seq m)))
        ≡ (
          update_entry cid (set_relay_seq seq) (count_relayed n),
          send next.peer (
                relay_cell next.cid
                  (relay_payload seq (rcmd_code r) stream (seal_onion c ks tag seq m)))
              ∷ [],
        )
  relay_forward n cid seq r stream tag kf kb ks m prev next last hs ht hl fresh =
      handle-act n prev.peer cid seq r stream _ (relay tag kf kb prev next last) hs ht hl
      ∙ unfold act at_relay in
        rw (addr_eq_refl prev.peer, lt→leb seq last fresh, open_onion-seal_onion c kf ks tag seq m)

  -- A cell from the successor, with fields in their ranges, gets one more layer and goes back to
  -- the predecessor, where the two have different addresses.
  pub relay_backward :
      (n : Node) (cid seq : ℕ) (r : RCmd) (stream : ℕ) (tag kf kb onion : Bytes)
      (prev next : HopLink) (last : ℕ)
      → seq < 2 ^ 32
      → stream < 2 ^ 16
      → lookup cid n.circuits ≡ some (relay tag kf kb prev next last)
      → next.peer ≢ prev.peer
      → handle c n next.peer (relay_cell cid (relay_payload seq (rcmd_code r) stream onion)) ≡ (
        count_relayed n,
        send prev.peer (
              relay_cell prev.cid
                (relay_payload seq (rcmd_code r) stream (seal_bwd c kb tag seq onion)))
            ∷ [],
      )
  relay_backward n cid seq r stream tag kf kb onion prev next last hs ht hl ne =
      handle-act n next.peer cid seq r stream _ (relay tag kf kb prev next last) hs ht hl
      ∙ unfold act at_relay in rw (addr_eq_ne _ _ ne, addr_eq_refl next.peer)

  -- The terminal answers a fresh ECHO from its predecessor, with fields in their ranges, with one
  -- layer of its own, and remembers its number.
  pub terminal_echo :
      (n : Node) (cid seq stream : ℕ) (tag kf kb m : Bytes) (prev : HopLink) (last : ℕ)
      → seq < 2 ^ 32
      → stream < 2 ^ 16
      → lookup cid n.circuits ≡ some (terminal tag kf kb prev last)
      → last < seq
      → handle c n prev.peer (
          relay_cell cid
            (relay_payload seq (rcmd_code echo) stream (seal_onion c (kf ∷ []) tag seq m)))
        ≡ (
          update_entry cid (set_terminal_seq seq) (count_relayed n),
          send prev.peer (
                relay_cell prev.cid
                  (relay_payload seq (rcmd_code echo) stream (seal_bwd c kb tag seq m)))
              ∷ [],
        )
  terminal_echo n cid seq stream tag kf kb m prev last hs ht hl fresh =
      handle-act n prev.peer cid seq echo stream _ (terminal tag kf kb prev last) hs ht hl
      ∙ unfold act at_terminal in
        rw (
          addr_eq_refl prev.peer,
          lt→leb seq last fresh,
          open_onion-seal_onion c kf [] tag seq m,
          seal_onion-nil c tag seq m,
        )

  peel_bwd-cons :
      (k : Bytes) (ks : List Bytes) (tag : Bytes) (seq : ℕ) (m : Bytes)
      → peel_bwd c (k ∷ ks) tag seq (seal_bwd c k tag seq m) ≡ peel_bwd c ks tag seq m
  unfolding peel_bwd
  peel_bwd-cons k ks tag seq m = rw (open_bwd-seal_bwd c k tag seq m, peel_bwd)

  peel_bwd-seal_onion_bwd :
      (ks : List Bytes) (tag : Bytes) (seq : ℕ) (m : Bytes)
      → peel_bwd c ks tag seq (seal_onion_bwd c ks tag seq m) ≡ some m
  peel_bwd-seal_onion_bwd [] tag seq m =
      ap (peel_bwd c [] tag seq) (seal_onion_bwd-nil c tag seq m) ∙ unfold peel_bwd in refl
  peel_bwd-seal_onion_bwd (k ∷ ks) tag seq m =
      rw (seal_onion_bwd-cons c k ks tag seq m)
        (peel_bwd-cons k ks tag seq _ ∙ peel_bwd-seal_onion_bwd ks tag seq m)

  -- The origin hands a reply that all hops have wrapped to the stream that it names.
  pub origin_receive :
      (n : Node) (from : SocketAddr) (cid seq : ℕ) (r : RCmd) (stream tx : ℕ) (fwd bwd : List Bytes)
      (tag m : Bytes) (next : HopLink) (streams : Map ℕ ℕ)
      → seq < 2 ^ 32
      → stream < 2 ^ 16
      → lookup cid n.circuits ≡ some (origin fwd bwd tag next streams)
      → lookup stream streams ≡ some tx
      → handle c n from
          (relay_cell cid (relay_payload seq (rcmd_code r) stream (seal_onion_bwd c bwd tag seq m)))
        ≡ (count_relayed n, push tx m ∷ [])
  origin_receive n from cid seq r stream tx fwd bwd tag m next streams hs ht hl hx =
      handle-act n from cid seq r stream _ (origin fwd bwd tag next streams) hs ht hl
      ∙ unfold act at_origin in
        rw (peel_bwd-seal_onion_bwd bwd tag seq m, at_origin) (rw (hx, at_origin))
