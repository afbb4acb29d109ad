-- ===== src/Node.antt =====
-- The state of a node (crates/nbf-net/src/node.rs) and what its handlers ask of the outside.
-- A `Sender` of a stream or of a waiting task is a number. Every handler runs to its end on one
-- state and returns the next one with its effects, in order.
use never_been_found.Prelude.{
  ℕ, ◌+◌, ◌%◌, ◌^◌, ◌≡◌, refl, none, some, List, Bytes, Map, lookup, insert, nat_eq,
}
use never_been_found.Addr.{SocketAddr}
use never_been_found.Descriptor.{Descriptor}
use never_been_found.Cell.{Cell}
use never_been_found.Fragment.{FragBuf}
use never_been_found.Kademlia.{Kademlia}

pub record Stats : Type 0 where
  pub created : ℕ
  pub relayed : ℕ
  pub destroyed : ℕ
  pub padding_recv : ℕ
  pub padding_sent : ℕ
  pub drops_sent : ℕ

-- `+= 1` on a u64
abbrev pub bump : ℕ → ℕ
bump n = (n + 1) % 2 ^ 64

pub record HopLink : Type 0 where
  pub cid : ℕ
  pub peer : SocketAddr

pub data CircuitEntry : Type 0 where
  -- fwd, bwd, tag, next, streams
  origin : List Bytes → List Bytes → Bytes → HopLink → Map ℕ ℕ → CircuitEntry
  -- tag, k_fwd, k_bwd, prev, next, last_fwd
  relay : Bytes → Bytes → Bytes → HopLink → HopLink → ℕ → CircuitEntry
  -- tag, k_fwd, k_bwd, prev, last_fwd
  terminal : Bytes → Bytes → Bytes → HopLink → ℕ → CircuitEntry

-- `impl Clone for CircuitEntry`, field by field. The handlers work with such a copy.
pub cloned_entry : CircuitEntry → CircuitEntry
cloned_entry (origin fwd bwd tag next streams) = origin fwd bwd tag next streams
cloned_entry (relay tag k_fwd k_bwd prev next last) = relay tag k_fwd k_bwd prev next last
cloned_entry (terminal tag k_fwd k_bwd prev last) = terminal tag k_fwd k_bwd prev last

cloned_entry_same : (e : CircuitEntry) → cloned_entry e ≡ e
unfolding cloned_entry
cloned_entry_same (origin fwd bwd tag next streams) = refl
cloned_entry_same (relay tag k_fwd k_bwd prev next last) = refl
cloned_entry_same (terminal tag k_fwd k_bwd prev last) = refl

pub record Node : Type 0 where
  pub circuits : Map ℕ CircuitEntry
  pub pending : Map ℕ ℕ
  pub next_cid : ℕ
  pub seq_origin : ℕ
  pub stats : Stats
  pub dht_cache : Map Bytes Descriptor
  pub dht : Kademlia
  pub create_frags : Map ℕ FragBuf

pub data Effect : Type 0 where
  -- `link.send_cell(addr, cell)`
  send : SocketAddr → Cell → Effect
  -- `link.set_peer_static_async(addr, key)`
  peer_key : SocketAddr → Bytes → Effect
  -- `tx.send(Ok(()))` to the task that waits for CREATED
  wake : ℕ → Effect
  -- `tx.send(data)` to a stream
  push : ℕ → Bytes → Effect

-- `next_cid.fetch_add(1)`
unfoldable pub new_cid : Node → ℕ × Node
new_cid n = (n.next_cid, record n { next_cid = (n.next_cid + 1) % 2 ^ 32 })

abbrev pub set_stream : ℕ → ℕ → CircuitEntry → CircuitEntry
set_stream stream tx (origin f b t n s) = origin f b t n (insert stream tx s)
set_stream stream tx (relay t f b p n l) = relay t f b p n l
set_stream stream tx (terminal t f b p l) = terminal t f b p l

-- Only an origin has streams.
pub register_stream : ℕ → ℕ → ℕ → Node → Node
register_stream cid stream tx n = elim (lookup cid n.circuits) [
  | none ↦ n
  | some e ↦ record n { circuits = insert cid (set_stream stream tx e) n.circuits }
]

pub register_stream_put :
    (cid stream tx : ℕ) (n : Node) (e : CircuitEntry)
    → lookup cid n.circuits ≡ some e
    → register_stream cid stream tx n
      ≡ record n { circuits = insert cid (set_stream stream tx e) n.circuits }
unfolding register_stream
register_stream_put cid stream tx n e h = rw (h, register_stream)

pub register_stream_missing :
    (cid stream tx : ℕ) (n : Node)
    → lookup cid n.circuits ≡ none
    → register_stream cid stream tx n ≡ n
unfolding register_stream
register_stream_missing cid stream tx n h = rw (h, register_stream)
