-- ===== src/Engine/Lives.antt =====
-- The circuits of a node under any sequence of cells (crates/nbf-net/src/node.rs, `handle_cell` in
-- the loop of `Node::spawn`).
use never_been_found.Prelude.{
  ℕ, ◌≤◌, ◌<◌, ◌≡◌, ◌≢◌, ◌⊎◌, All, refl, ap, subst, ◌∙◌, inl, inr, Option, some, false, List, [],
  ◌∷◌, ◌++◌, ◌==◌, ==_iff, if◌then◌else◌, arith, lookup, nat_eq, eq_or_ne,
}
use never_been_found.Suite.{Suite}
use never_been_found.Asym.{Asym}
use never_been_found.Addr.{SocketAddr}
use never_been_found.Identity.{NodeIdentity}
use never_been_found.Cell.{Cell, Cmd, create, destroy}
use never_been_found.Node.{Node, CircuitEntry, Effect}
use never_been_found.Relay.Replays.{last_of, renumber}
use never_been_found.Engine.{Finder, handle_cell}
use never_been_found.Engine.Filed.{same_entry}
use never_been_found.Engine.Lifecycle.{
  Change, stays, joins_end, joins_hop, ends, counts, handle_cell-Touches,
}

module _ (f : Finder) (c : Suite) (a : Asym) (identity : NodeIdentity a) where
  -- Cells of anyone, one after the other.
  pub handle_each : List (SocketAddr × Cell) → Node → Node × List Effect
  handle_each [] n = (n, [])
  handle_each ((from, cell) ∷ cells) n =
      let r = handle_cell f c a identity from cell n in
      let later = handle_each cells r.0 in (later.0, r.1 ++ later.1)

-- The commands of the cells of one id, in order.
unfoldable pub cmds_of : ℕ → List (SocketAddr × Cell) → List Cmd
cmds_of j [] = []
cmds_of j ((from, cell) ∷ cells) =
    let rest = cmds_of j cells in if cell.cid == j then cell.cmd ∷ rest else rest

-- A circuit under a sequence of commands.
pub data Life : List Cmd → Option CircuitEntry → Option CircuitEntry → Type 0 where
  done : (e : Option CircuitEntry) → Life [] e e
  then_ :
      (cmd : Cmd) (cmds : List Cmd) (e e1 e2 : Option CircuitEntry)
      → Change cmd e e1
      → Life cmds e1 e2
      → Life (cmd ∷ cmds) e e2

module _ (f : Finder) (c : Suite) (a : Asym) (identity : NodeIdentity a) (j : ℕ) where
  -- However the cells of many circuits are mixed, each circuit goes, from its entry before to its
  -- entry after, through a life under the commands of its own cells and of no others.
  pub handle_each-Life :
      (cells : List (SocketAddr × Cell)) (n : Node)
      → Life
          (cmds_of j cells)
          (lookup j n.circuits)
          (lookup j (handle_each f c a identity cells n).0.circuits)
  unfolding handle_each cmds_of
  handle_each-Life [] n = done _
  handle_each-Life ((from, cell) ∷ cells) n =
      let (own, others) = handle_cell-Touches f c a identity from cell n in
      let n1 = (handle_cell f c a identity from cell n).0 in
      let later = handle_each-Life cells n1 in
      elim (eq_or_ne cell.cid j) [
        | inl here ↦ rw ((==_iff cell.cid j).1 here) (
            then_ cell.cmd _ _ (lookup j n1.circuits) _
              (subst (λ k. Change cell.cmd (lookup k n.circuits) (lookup k n1.circuits)) here own)
              later)
        | inr ne ↦ rw (ne_false ne) (
            subst
              (λ e.
                Life (cmds_of j cells) e
                  (lookup j (handle_each f c a identity cells n1).0.circuits))
              (others j ne) later)
      ]
    where
      ne_false : {i : ℕ} → i ≢ j → (i == j) ≡ false
      ne_false {i} ne = ground (arith, ==_iff i j)

-- Another CREATE or DESTROY of the circuit.
abbrev pub Resets : Cmd → Type 0
Resets cmd = (cmd ≡ create) ⊎ (cmd ≡ destroy)

-- The same circuit, with a last number that is no lower.
abbrev pub SameBut : CircuitEntry → Option CircuitEntry → Type 0
SameBut e r =
    (e' : CircuitEntry) × (r ≡ some e')
    × (renumber 0 e' ≡ renumber 0 e)
    × (last_of (some e) ≤ last_of (some e'))

renumber_again : (k : ℕ) (e : CircuitEntry) → renumber 0 (renumber k e) ≡ renumber 0 e
renumber_again k (CircuitEntry.origin f b t n s) = refl
renumber_again k (CircuitEntry.relay t f b p n l) = refl
renumber_again k (CircuitEntry.terminal t f b p l) = refl

renumber_up :
    (k : ℕ) (e : CircuitEntry)
    → last_of (some e) < k
    → last_of (some e) ≤ last_of (some (renumber k e))
renumber_up k (CircuitEntry.origin f b t n s) h = omega arith
renumber_up k (CircuitEntry.relay t f b p n l) h = omega arith
renumber_up k (CircuitEntry.terminal t f b p l) h = omega arith

Change-SameBut :
    {cmd : Cmd} {o r : Option CircuitEntry} (e : CircuitEntry)
    → Change cmd o r
    → ¬ Resets cmd
    → o ≡ some e
    → SameBut e r
Change-SameBut e (stays cmd o) no_reset at_ = (e, at_, refl, omega arith)
Change-SameBut e (joins_end o tag kf kb prev) no_reset at_ = absurd (no_reset (inl refl))
Change-SameBut e (joins_hop o tag kf kb prev next) no_reset at_ = absurd (no_reset (inl refl))
Change-SameBut e (ends o) no_reset at_ = absurd (no_reset (inr refl))
Change-SameBut e (counts x seq fresh) no_reset at_ =
    let same = same_entry x e at_ in
    (
      renumber seq e,
      ap (λ y. some (renumber seq y)) same,
      renumber_again seq e,
      renumber_up seq e (subst (λ y. last_of (some y) < seq) same fresh),
    )

Life-SameBut :
    {cmds : List Cmd} {o r : Option CircuitEntry} (e : CircuitEntry)
    → Life cmds o r
    → All (λ cmd. ¬ Resets cmd) cmds
    → o ≡ some e
    → SameBut e r
Life-SameBut e (done o) no_reset at_ = (e, at_, refl, omega arith)
Life-SameBut e (then_ cmd cmds o o1 o2 change life) (h, hs) at_ =
    let (e1, at1, same1, up1) = Change-SameBut e change h at_ in
    let (e2, at2, same2, up2) = Life-SameBut e1 life hs at1 in
    (e2, at2, same2 ∙ same1, omega (arith, up1, up2))

module _ (f : Finder) (c : Suite) (a : Asym) (identity : NodeIdentity a) where
  -- As long as no CREATE and no DESTROY of its id arrives, a circuit keeps its role, its keys, its
  -- tag and its neighbours, whatever else arrives and from whom; the last number that it accepted
  -- never falls.
  pub circuit_stays :
      (j : ℕ) (e : CircuitEntry) (cells : List (SocketAddr × Cell)) (n : Node)
      → lookup j n.circuits ≡ some e
      → All (λ cmd. ¬ Resets cmd) (cmds_of j cells)
      → SameBut e (lookup j (handle_each f c a identity cells n).0.circuits)
  circuit_stays j e cells n at_ no_reset =
      Life-SameBut e (handle_each-Life f c a identity j cells n) no_reset at_
