-- ===== src/Link/Sessions.antt =====
-- A session that carries many cells (crates/nbf-net/src/link.rs, `send_cell` and the receiving task
-- where a session is there), with and without a loss on the way.
use never_been_found.Prelude.{
  ℕ, suc, ◌<◌, ◌≡◌, ◌≢◌, refl, ap, false, Option, none, some, List, [], ◌∷◌, ◌++◌, map, All, Bytes,
  ok, arith, lookup, insert, lookup-insert_self,
}
use never_been_found.Addr.{SocketAddr, addr_eq_inst}
use never_been_found.Cell.{Cell, encode, decode}
use never_been_found.Cell.RoundTrip.{IsCell, decode-encode}
use never_been_found.Noise.{Noise}
use never_been_found.Link.{
  Link, Progress, sent, is_empty, is_handshake, cell_of, open_datagram, receive_datagram, transmit,
  begin_send,
}
use never_been_found.Link.Parts.{receive_cell}

-- The two sides of a session of snow: the states after each number of messages, and the datagram of
-- each message. The number of a message is its nonce, so no message is opened under another one.
pub record Counted (x : Noise) : Type 0 where
  pub sends : ℕ → x.TransportState
  pub gets : ℕ → x.TransportState
  pub seals : ℕ → Bytes → Bytes
  pub writes : (k : ℕ) (m : Bytes) → x.write_message (sends k) m ≡ some (seals k m, sends (suc k))
  pub reads : (k : ℕ) (m : Bytes) → x.read_message (gets k) (seals k m) ≡ some (m, gets (suc k))
  pub rejects : (j k : ℕ) (m : Bytes) → j ≢ k → x.read_message (gets j) (seals k m) ≡ none
  pub full : (k : ℕ) (m : Bytes) → is_empty (seals k m) ≡ false

-- The bytes of a cell; a cell that is too long has none.
abbrev pub wire_of : Cell → Bytes
wire_of cell = elim (encode cell) [ none ↦ [] | some w ↦ w ]

abbrev pub and_cell : Option Cell → List Cell → List Cell
and_cell none cells = cells
and_cell (some cell) cells = cell ∷ cells

module _ (x : Noise) where
  -- One cell after the other.
  pub send_all :
      SocketAddr → List Cell → ℕ → Link x → List Progress × Link x × List (SocketAddr × Bytes)
  send_all addr [] entropy l = ([], l, [])
  send_all addr (cell ∷ cells) entropy l =
      let r = begin_send x addr cell entropy l in
      let later = send_all addr cells entropy r.1 in (r.0 ∷ later.0, later.1, r.2 ++ later.2)

  -- One datagram after the other, and the cells that the node gets.
  pub receive_all :
      SocketAddr → List Bytes → ℕ → Link x → Link x × List (SocketAddr × Bytes) × List Cell
  receive_all src [] entropy l = (l, [], [])
  receive_all src (d ∷ ds) entropy l =
      let r = receive_datagram x src d entropy l in
      let later = receive_all src ds entropy r.0 in (later.0, r.1 ++ later.1, and_cell r.2 later.2)

  -- What is read off datagrams that are taken as cells in the clear.
  pub clear_cells : List Bytes → List Cell
  clear_cells [] = []
  clear_cells (d ∷ ds) = and_cell (cell_of x (decode d)) (clear_cells ds)

  module _ (s : Counted x) where
    -- The datagrams of cells from the `k`-th message on.
    unfoldable pub sealed : ℕ → List Cell → List Bytes
    sealed k [] = []
    sealed k (cell ∷ cells) = s.seals k (wire_of cell) ∷ sealed (suc k) cells

-- None of them looks like a fragment of a handshake.
abbrev pub Unmarked : List Bytes → Type 0
Unmarked = All (λ d. is_handshake d ≡ false)

module _ (x : Noise) (s : Counted x) (addr_a addr_b : SocketAddr) (entropy : ℕ) where
  wire_of-encode : (cell : Cell) → IsCell cell → encode cell ≡ some (wire_of cell)
  wire_of-encode cell v = let (w, e, size, back) = decode-encode cell v in rw (e, wire_of)

  decode-wire_of : (cell : Cell) → IsCell cell → decode (wire_of cell) ≡ ok cell
  decode-wire_of cell v = let (w, e, size, back) = decode-encode cell v in rw (e, wire_of) back

  begin_send_open :
      (k : ℕ) (cell : Cell) (l : Link x)
      → IsCell cell
      → lookup addr_b l.sessions ≡ some (s.sends k)
      → begin_send x addr_b cell entropy l ≡ (
        sent,
        record l { sessions = insert addr_b (s.sends (suc k)) l.sessions },
        (addr_b, s.seals k (wire_of cell)) ∷ [],
      )
  unfolding begin_send transmit
  begin_send_open k cell l v e =
      rw (e, begin_send)
        (rw (e, transmit)
          (rw (wire_of-encode cell v, transmit) (rw (s.writes k (wire_of cell), transmit))))

  -- The sender's side: every cell goes out, in one datagram.
  each_sent :
      (k : ℕ) (cells : List Cell) (l : Link x)
      → All IsCell cells
      → lookup addr_b l.sessions ≡ some (s.sends k)
      → All (λ p. p ≡ sent) (send_all x addr_b cells entropy l).0
        × ((send_all x addr_b cells entropy l).2 ≡ map (λ d. (addr_b, d)) (sealed x s k cells))
  unfolding send_all sealed
  each_sent k [] l v e = (tt, refl)
  each_sent k (cell ∷ cells) l (v, vs) e =
      let l' : Link x = record l { sessions = insert addr_b (s.sends (suc k)) l.sessions } in
      let (all, out) =
        each_sent (suc k) cells l' vs (lookup-insert_self addr_b (s.sends (suc k)) l.sessions) in
      rw (begin_send_open k cell l v e)
        ((refl, all), ap (λ o. (addr_b, s.seals k (wire_of cell)) ∷ o) out)

  receive_open :
      (k : ℕ) (cell : Cell) (l : Link x)
      → IsCell cell
      → is_handshake (s.seals k (wire_of cell)) ≡ false
      → lookup addr_a l.sessions ≡ some (s.gets k)
      → receive_datagram x addr_a (s.seals k (wire_of cell)) entropy l
        ≡ (record l { sessions = insert addr_a (s.gets (suc k)) l.sessions }, [], some cell)
  receive_open k cell l v plain e =
      receive_cell x addr_a (s.seals k (wire_of cell)) (wire_of cell) entropy l cell (s.gets k)
        (s.gets (suc k)) (s.full k (wire_of cell)) plain e (s.reads k (wire_of cell))
        (decode-wire_of cell v)

  each_received :
      (k : ℕ) (cells : List Cell) (l : Link x)
      → All IsCell cells
      → Unmarked (sealed x s k cells)
      → lookup addr_a l.sessions ≡ some (s.gets k)
      → ((receive_all x addr_a (sealed x s k cells) entropy l).1 ≡ [])
        × ((receive_all x addr_a (sealed x s k cells) entropy l).2 ≡ cells)
  unfolding receive_all sealed
  each_received k [] l v u e = (refl, refl)
  each_received k (cell ∷ cells) l (v, vs) (u, us) e =
      let l' : Link x = record l { sessions = insert addr_a (s.gets (suc k)) l.sessions } in
      let (quiet, got) =
        each_received (suc k) cells l' vs us
          (lookup-insert_self addr_a (s.gets (suc k)) l.sessions) in
      rw (receive_open k cell l v u e) (quiet, ap (λ c. cell ∷ c) got)

  -- Let two ends have the two sides of a session at one number, and let no datagram of the cells look
  -- like a fragment of a handshake. Then any number of cells, with fields in the ranges of their
  -- types, goes out in as many datagrams, all of them `sent`, and where these arrive in order and
  -- none is lost the peer gets exactly the cells, in order, and answers nothing.
  pub cells_cross :
      (k : ℕ) (cells : List Cell) (la lb : Link x)
      → All IsCell cells
      → Unmarked (sealed x s k cells)
      → lookup addr_b la.sessions ≡ some (s.sends k)
      → lookup addr_a lb.sessions ≡ some (s.gets k)
      → let out = send_all x addr_b cells entropy la in
        let in_ = receive_all x addr_a (sealed x s k cells) entropy lb in
        All (λ p. p ≡ sent) out.0
        × (out.2 ≡ map (λ d. (addr_b, d)) (sealed x s k cells))
        × (in_.1 ≡ [])
        × (in_.2 ≡ cells)
  cells_cross k cells la lb v u ea eb =
      let (ok_, out) = each_sent k cells la v ea in
      let (quiet, got) = each_received k cells lb v u eb in (ok_, out, quiet, got)

  receive_deaf :
      (j k : ℕ) (cell : Cell) (l : Link x)
      → j < k
      → is_handshake (s.seals k (wire_of cell)) ≡ false
      → lookup addr_a l.sessions ≡ some (s.gets j)
      → receive_datagram x addr_a (s.seals k (wire_of cell)) entropy l
        ≡ (l, [], cell_of x (decode (s.seals k (wire_of cell))))
  unfolding receive_datagram open_datagram
  receive_deaf j k cell l behind plain e = rw (
    s.full k (wire_of cell),
    plain,
    e,
    s.rejects j k (wire_of cell) (λ same. absurd (omega (arith, behind, same))),
    open_datagram,
  )

module _ (x : Noise) (s : Counted x) (addr_a addr_b : SocketAddr) (entropy : ℕ) where
  each_deaf :
      (j k : ℕ) (cells : List Cell) (l : Link x)
      → j < k
      → Unmarked (sealed x s k cells)
      → lookup addr_a l.sessions ≡ some (s.gets j)
      → receive_all x addr_a (sealed x s k cells) entropy l
        ≡ (l, [], clear_cells x (sealed x s k cells))
  unfolding receive_all sealed clear_cells
  each_deaf j k [] l behind u e = refl
  each_deaf j k (cell ∷ cells) l behind (u, us) e =
      rw (receive_deaf x s addr_a addr_b entropy j k cell l behind u e) (
        ap {B = Link x × List (SocketAddr × Bytes) × List Cell}
          (λ r. (r.0, r.1, and_cell (cell_of x (decode (s.seals k (wire_of cell)))) r.2))
          (each_deaf j (suc k) cells l (omega (arith, behind)) us e))

  -- Let the receiver's side of a session be behind the sender's, as after the loss of a datagram, and
  -- let no later datagram look like a fragment of a handshake. Then no later cell is ever opened:
  -- every one is `sent`, without a new handshake, and every datagram leaves the receiver's link as
  -- it was and is read as a cell in the clear, out of its ciphertext.
  pub loss_deafens :
      (j k : ℕ) (cells : List Cell) (la lb : Link x)
      → j < k
      → All IsCell cells
      → Unmarked (sealed x s k cells)
      → lookup addr_b la.sessions ≡ some (s.sends k)
      → lookup addr_a lb.sessions ≡ some (s.gets j)
      → let out = send_all x addr_b cells entropy la in
        All (λ p. p ≡ sent) out.0
        × (out.2 ≡ map (λ d. (addr_b, d)) (sealed x s k cells))
        × (receive_all x addr_a (sealed x s k cells) entropy lb
            ≡ (lb, [], clear_cells x (sealed x s k cells)))
  loss_deafens j k cells la lb behind v u ea eb =
      let (ok_, out) = each_sent x s addr_a addr_b entropy k cells la v ea in
      (ok_, out, each_deaf j k cells lb behind u eb)
