-- ===== src/Relay/Replays.antt =====
-- The replay filter of RELAY cells (crates/nbf-net/src/relay.rs, `last_fwd`), one cell after the
-- other and with two handlers at work at once.
use never_been_found.Prelude.{
  ℕ, ◌≤◌, ◌<◌, ◌^◌, ◌≡◌, refl, ap, subst, ◌∙◌, ◌⊎◌, inl, inr, Option, none, some, List, [], ◌∷◌,
  Bytes, lt→leb, le→leb, arith, Map, lookup, insert, nat_eq, lookup-insert_self, Option-cases,
  Bool-cases, Result-cases, leb, not, ◌||◌, eq_or_ne,
}
use native.Mathlib.Nat.{le_refl}
use never_been_found.Addr.{SocketAddr, addr_eq, addr_eq_refl}
use never_been_found.Suite.{Suite}
use never_been_found.Cell.{Cell, RCmd, rcmd_code}
use never_been_found.Onion.{seal_onion, open_onion}
use never_been_found.Onion.Layers.{open_onion-seal_onion}
use never_been_found.Node.{Node, HopLink, CircuitEntry, origin, relay, terminal, send}
use never_been_found.Relay.{
  Header, relay_payload, relay_cell, parse_relay, at_origin, at_relay, at_terminal, act, handle,
  update_entry, set_relay_seq, set_terminal_seq, count_relayed,
}
use never_been_found.Relay.Wire.{header}
use never_been_found.Relay.Hop.{relay_forward, handle-act, update_entry_other}

-- The last number that an entry accepted on the way out; 0 where there is none.
abbrev pub last_of : Option CircuitEntry → ℕ
last_of none = 0
last_of (some (origin f b t n s)) = 0
last_of (some (relay t f b p n l)) = l
last_of (some (terminal t f b p l)) = l

abbrev pub last_at : ℕ → Node → ℕ
last_at cid n = last_of (lookup cid n.circuits)

pub update_entry_put :
    (cid : ℕ) (f : CircuitEntry → CircuitEntry) (n : Node) (e : CircuitEntry)
    → lookup cid n.circuits ≡ some e
    → update_entry cid f n ≡ record n { circuits = insert cid (f e) n.circuits }
unfolding update_entry
update_entry_put cid f n e h = rw (h, update_entry)

pub update_entry_self :
    (cid : ℕ) (f : CircuitEntry → CircuitEntry) (n : Node) (e : CircuitEntry)
    → lookup cid n.circuits ≡ some e
    → lookup cid (update_entry cid f n).circuits ≡ some (f e)
update_entry_self cid f n e h =
    rw (update_entry_put cid f n e h) (lookup-insert_self cid (f e) n.circuits)

-- The id of the link that a circuit's cells come in by: its key in the map.
abbrev pub own_cid : CircuitEntry → ℕ
own_cid (origin f b t next s) = next.cid
own_cid (relay t f b prev next l) = prev.cid
own_cid (terminal t f b prev l) = prev.cid

own_cid-set_relay_seq : (seq : ℕ) (e : CircuitEntry) → own_cid (set_relay_seq seq e) ≡ own_cid e
own_cid-set_relay_seq seq (origin f b t n s) = refl
own_cid-set_relay_seq seq (relay t f b p n l) = refl
own_cid-set_relay_seq seq (terminal t f b p l) = refl

own_cid-set_terminal_seq :
    (seq : ℕ) (e : CircuitEntry) → own_cid (set_terminal_seq seq e) ≡ own_cid e
own_cid-set_terminal_seq seq (origin f b t n s) = refl
own_cid-set_terminal_seq seq (relay t f b p n l) = refl
own_cid-set_terminal_seq seq (terminal t f b p l) = refl

-- The same entry with another last number; an origin has none.
abbrev pub renumber : ℕ → CircuitEntry → CircuitEntry
renumber seq (origin f b t n s) = origin f b t n s
renumber seq (relay t f b p n l) = relay t f b p n seq
renumber seq (terminal t f b p l) = terminal t f b p seq

-- What `act` does to the circuits: nothing, or the new number at the cell's own entry.
pub data Wrote (e : CircuitEntry) (n : Node) (cid seq : ℕ) (n' : Node) : Type 0 where
  nothing : n' ≡ n → Wrote e n cid seq n'
  number :
      last_of (some e) < seq
      → (f : CircuitEntry → CircuitEntry) → last_of (some (f e)) ≡ seq
      → f e ≡ renumber seq e
      → ((x : CircuitEntry) → own_cid (f x) ≡ own_cid x)
      → n' ≡ update_entry cid f n
      → Wrote e n cid seq n'

Wrote-mono :
    (e : CircuitEntry) (n : Node) (cid seq : ℕ) (n' : Node) (j : ℕ)
    → Wrote e n cid seq n'
    → lookup cid n.circuits ≡ some e
    → last_at j n ≤ last_at j n'
Wrote-mono e n cid seq n' j (nothing same) hl = rw same (le_refl _)
Wrote-mono e n cid seq n' j (number fresh f at_f is keeps same) hl = elim (eq_or_ne cid j) [
  | inl here ↦
      subst (λ k. last_at k n ≤ last_at k n') here
        (rw (same, hl, update_entry_self cid f n e hl) (omega (arith, fresh, at_f)))
  | inr ne ↦ rw (same, update_entry_other cid j f n ne) (le_refl _)
]

module _ (c : Suite) where
  relay-Wrote :
      (t f b : Bytes) (p x : HopLink) (l : ℕ) (n : Node) (from : SocketAddr) (cid : ℕ) (h : Header)
      → Wrote (relay t f b p x l) n cid h.seq (at_relay c n from cid h t f b p x l).0
  unfolding at_relay
  relay-Wrote t f b p x l n from cid h = elim (Bool-cases (addr_eq from p.peer)) [
    | inl e ↦ elim (Bool-cases (leb h.seq l)) [
      | inl old ↦ rw (e, old) (nothing refl)
      | inr new ↦ elim (Result-cases (open_onion c f t h.seq h.onion)) [
        | inl (inner, o) ↦
            rw (e, new, o, at_relay)
              (number (ground arith) (set_relay_seq h.seq) refl refl (own_cid-set_relay_seq h.seq)
                refl)
        | inr (bad, o) ↦ rw (e, new, o, at_relay) (nothing refl)
      ]
    ]
    | inr e ↦ elim (Bool-cases (addr_eq from x.peer)) [
      | inl e' ↦ rw (e, e') (nothing refl)
      | inr e' ↦ rw (e, e') (nothing refl)
    ]
  ]

  terminal-Wrote :
      (t f b : Bytes) (p : HopLink) (l : ℕ) (n : Node) (from : SocketAddr) (cid : ℕ) (h : Header)
      → Wrote (terminal t f b p l) n cid h.seq (at_terminal c n from cid h t f b p l).0
  unfolding at_terminal
  terminal-Wrote t f b p l n from cid h =
      elim (Bool-cases (not (addr_eq from p.peer) || leb h.seq l)) [
        | inl old ↦ rw old (nothing refl)
        | inr new ↦ elim (Result-cases (open_onion c f t h.seq h.onion)) [
          | inl (inner, o) ↦
              rw (new, o, at_terminal)
                (number (ground arith) (set_terminal_seq h.seq) refl refl
                  (own_cid-set_terminal_seq h.seq) refl)
          | inr (bad, o) ↦ rw (new, o, at_terminal) (nothing refl)
        ]
      ]

  origin-Wrote :
      (f b : List Bytes) (t : Bytes) (x : HopLink) (s : Map ℕ ℕ) (n : Node) (cid : ℕ) (h : Header)
      → Wrote (origin f b t x s) n cid h.seq (at_origin c n h b t s).0
  unfolding at_origin
  origin-Wrote f b t x s n cid h = nothing (ground arith)

  pub act-Wrote :
      (e : CircuitEntry) (n : Node) (from : SocketAddr) (cid : ℕ) (h : Header)
      → Wrote e n cid h.seq (act c e n from cid h).0
  unfolding act
  act-Wrote (origin f b t x s) n from cid h = origin-Wrote f b t x s n cid h
  act-Wrote (relay t f b p x l) n from cid h = relay-Wrote t f b p x l n from cid h
  act-Wrote (terminal t f b p l) n from cid h = terminal-Wrote t f b p l n from cid h

  -- What a cell does to the node: nothing, or what `act` does with the entry of its circuit.
  pub handle-Wrote :
      (n : Node) (from : SocketAddr) (cell : Cell)
      → ((handle c n from cell).0 ≡ n)
        ⊎ ((x : CircuitEntry) × (seq : ℕ) × (lookup cell.cid n.circuits ≡ some x)
            × Wrote x (count_relayed n) cell.cid seq (handle c n from cell).0)
  unfolding handle
  handle-Wrote n from cell = elim (Option-cases (parse_relay cell.payload)) [
    | inl e ↦ rw (e, handle) (inl refl)
    | inr (h, e) ↦ elim (Option-cases (lookup cell.cid n.circuits)) [
      | inl e' ↦ rw (e, handle) (rw (e', handle) (inl refl))
      | inr (x, e') ↦
          rw (e, handle)
            (rw (e', handle) (inr (x, h.seq, refl, act-Wrote x (count_relayed n) from cell.cid h)))
    ]
  ]

  -- No cell ever lowers the number that any circuit of the node accepted last, whoever sent it and
  -- whatever it holds.
  pub last_at-handle :
      (n : Node) (from : SocketAddr) (cell : Cell) (j : ℕ)
      → last_at j n ≤ last_at j (handle c n from cell).0
  last_at-handle n from cell j = elim (handle-Wrote n from cell) [
    | inl same ↦ rw same (le_refl _)
    | inr (x, seq, e, w) ↦ Wrote-mono x (count_relayed n) cell.cid seq _ j w e
  ]

  stale :
      (n : Node) (cid seq : ℕ) (r : RCmd) (stream : ℕ) (tag kf kb onion : Bytes)
      (prev next : HopLink) (last : ℕ)
      → seq < 2 ^ 32
      → stream < 2 ^ 16
      → lookup cid n.circuits ≡ some (relay tag kf kb prev next last)
      → seq ≤ last
      → handle c n prev.peer (relay_cell cid (relay_payload seq (rcmd_code r) stream onion))
        ≡ (count_relayed n, [])
  stale n cid seq r stream tag kf kb onion prev next last hs ht hl old =
      handle-act c n prev.peer cid seq r stream onion (relay tag kf kb prev next last) hs ht hl
      ∙ unfold act at_relay in rw (addr_eq_refl prev.peer, le→leb seq last old)

  -- A fresh RELAY cell that a hop has passed on, with fields in their ranges, is worth nothing a
  -- second time: sent again by the predecessor, it changes no circuit and makes the hop send
  -- nothing.
  pub relay_replay :
      (n : Node) (cid seq : ℕ) (r : RCmd) (stream : ℕ) (tag kf kb : Bytes) (ks : List Bytes)
      (m : Bytes) (prev next : HopLink) (last : ℕ)
      → seq < 2 ^ 32
      → stream < 2 ^ 16
      → lookup cid n.circuits ≡ some (relay tag kf kb prev next last)
      → last < seq
      → let cell =
          relay_cell cid
            (relay_payload seq (rcmd_code r) stream (seal_onion c (kf ∷ ks) tag seq m)) in
        let n' = (handle c n prev.peer cell).0 in
        handle c n' prev.peer cell ≡ (count_relayed n', [])
  relay_replay n cid seq r stream tag kf kb ks m prev next last hs ht hl fresh =
      stale _ cid seq r stream tag kf kb _ prev next seq hs ht
        (ap (λ x. lookup cid (x.0).circuits)
            (relay_forward c n cid seq r stream tag kf kb ks m prev next last hs ht hl fresh)
          ∙ update_entry_self cid (set_relay_seq seq) (count_relayed n) _ hl)
        (le_refl seq)

  -- Two handlers at work at once on a fresh cell from the predecessor, both with the copy of the
  -- entry that they took before either wrote its number: the same cell is passed on twice.
  pub relay_race :
      (n : Node) (cid seq : ℕ) (r : RCmd) (stream : ℕ) (tag kf kb : Bytes) (ks : List Bytes)
      (m : Bytes) (prev next : HopLink) (last : ℕ)
      → lookup cid n.circuits ≡ some (relay tag kf kb prev next last)
      → last < seq
      → let copy = relay tag kf kb prev next last in
        let h = header seq r stream (seal_onion c (kf ∷ ks) tag seq m) in
        let first = act c copy n prev.peer cid h in
        let second = act c copy first.0 prev.peer cid h in
        (first.1
          ≡ send next.peer (
              relay_cell next.cid
                (relay_payload seq (rcmd_code r) stream (seal_onion c ks tag seq m)))
            ∷ [])
        × (second.1 ≡ first.1)
  unfolding act at_relay
  relay_race n cid seq r stream tag kf kb ks m prev next last hl fresh =
      rw (addr_eq_refl prev.peer, lt→leb seq last fresh, open_onion-seal_onion c kf ks tag seq m)
        (refl, refl)
