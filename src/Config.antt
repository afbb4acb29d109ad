-- ===== src/Config.antt =====
-- The settings of a node (crates/nbf-net/src/node.rs, `NodeConfig` and what `Node::spawn` reads of
-- it). Text is its bytes; the parser of addresses and the seeding of the random generator are the
-- library's, so arguments.
use never_been_found.Prelude.{
  ℕ, Bool, true, Option, none, some, List, [], ◌∷◌, Bytes, if◌then◌else◌,
}
use never_been_found.Suite.{Suite}
use never_been_found.Asym.{Asym}
use never_been_found.Addr.{v4, SocketAddr}
use never_been_found.Identity.{NodeIdentity}
use never_been_found.Node.{Node}
use never_been_found.Engine.{spawn}

pub record CoverCfg : Type 0 where
  pub enabled : Bool
  pub min_interval_ms : ℕ
  pub max_interval_ms : ℕ

-- `CoverCfg::default()`
abbrev pub default_cover : CoverCfg
default_cover = record { enabled = true; min_interval_ms = 500; max_interval_ms = 2000 }

pub record NodeConfig : Type 0 where
  pub cell_port : ℕ
  pub dht_port : ℕ
  pub seeds : List Bytes
  pub cover : CoverCfg
  pub rng_seed : Option ℕ

-- `127.0.0.1:{port}`
abbrev pub local_addr : ℕ → SocketAddr
local_addr port = record { ip = v4 (127 ∷ 0 ∷ 0 ∷ 1 ∷ []); port = port }

-- `seeds.iter().filter_map(|s| s.parse().ok())`
unfoldable pub seed_addrs : (Bytes → Option SocketAddr) → List Bytes → List SocketAddr
seed_addrs parse [] = []
seed_addrs parse (s ∷ ss) =
    let rest = seed_addrs parse ss in elim (parse s) [ none ↦ rest | some addr ↦ addr ∷ rest ]

-- The tasks that `Node::spawn` starts, in order: the table's own loop, the search for the seeds,
-- the loop over cells, and the cover traffic where it is on.
pub data Task : Type 0 where
  dht_run : Task
  dht_join : List SocketAddr → Task
  cell_loop : Task
  cover_loop : Task

unfoldable pub tasks_of : (Bytes → Option SocketAddr) → NodeConfig → List Task
tasks_of parse config =
    dht_run
    ∷ dht_join (seed_addrs parse config.seeds)
    ∷ cell_loop
    ∷ (if (config.cover).enabled then cover_loop ∷ [] else [])

module _ (c : Suite) (a : Asym) where
  -- A fixed seed, or entropy.
  abbrev node_rng : (ℕ → a.Rng) → a.Rng → Option ℕ → a.Rng
  node_rng seed_from entropy none = entropy
  node_rng seed_from entropy (some s) = seed_from s

  pub spawn_node : (ℕ → a.Rng) → a.Rng → NodeConfig → ℕ → Option (NodeIdentity a × Node × a.Rng)
  spawn_node seed_from entropy config now =
      spawn c a (node_rng seed_from entropy config.rng_seed) (local_addr config.cell_port)
        config.dht_port now
