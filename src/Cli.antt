-- ===== src/Cli.antt =====
-- The command line (crates/nbf-cli/src/main.rs and demo.rs). `thread_rng().gen_range` and
-- `hex::decode` are arguments. The first wait for the nodes to know each other is not modelled: a
-- function takes the node as it is then.
pub mod Draws
pub mod Routes
pub mod Ports
pub mod Session
use never_been_found.Prelude.{
  ℕ, zero, suc, ◌+◌, ◌*◌, ◌%◌, ◌^◌, ◌<◌, Bool, true, not, Option, none, some, List, [], ◌∷◌, ◌++◌,
  map, length, Bytes, bytes_eq, Result, ok, err, ◌>>=◌, ◌>>◌, guard, ltb, ◌==◌, if◌then◌else◌,
}
use never_been_found.Addr.{SocketAddr}
use never_been_found.Errors.{NetError}
use never_been_found.Fragment.{range_from}
use never_been_found.Config.{NodeConfig}

-- `anyhow::Error`, and what panics.
pub data CliError : Type 0 where
  too_few : ℕ → CliError
  bad_hex : CliError
  bad_target : CliError
  net : NetError → CliError
  panicked : CliError

-- `gen_range(0..n)` gives a number below `n`.
pub record Gen : Type 1 where
  pub State : Type 0
  pub gen_range : ℕ → State → ℕ × State
  pub gen_range_lt : (n : ℕ) (s : State) → 0 < n → (gen_range n s).0 < n

-- "127.0.0.1:12001"
abbrev pub seed_text : Bytes
seed_text =
    b'1' ∷ b'2' ∷ b'7' ∷ b'.' ∷ b'0' ∷ b'.' ∷ b'0' ∷ b'.' ∷ b'1' ∷ b':' ∷ b'1' ∷ b'2' ∷ b'0' ∷ b'0'
    ∷ b'1' ∷ []

-- The first node has none, the others have the first.
abbrev pub seeds_for : ℕ → List Bytes
seeds_for zero = []
seeds_for (suc i) = seed_text ∷ []

-- A u16 that overflows wraps, as in a release build.
unfoldable pub cfg : ℕ → Bool → NodeConfig
cfg i enabled = record {
  cell_port = (12000 + i * 2 % 2 ^ 16) % 2 ^ 16;
  dht_port = ((12000 + i * 2 % 2 ^ 16) % 2 ^ 16 + 1) % 2 ^ 16;
  seeds = seeds_for i;
  cover = record { enabled = enabled; min_interval_ms = 500; max_interval_ms = 2000 };
  rng_seed = none;
}

-- The nodes that `send_once` and `demo` start.
pub node_cfgs : ℕ → List NodeConfig
node_cfgs n_nodes = map (λ i. cfg i true) (range_from 0 (n_nodes % 2 ^ 16))

-- The node of `nbf node`.
abbrev pub node_config : ℕ → ℕ → List Bytes → Bool → NodeConfig
node_config cell_port dht_port seed cover = record {
  cell_port = cell_port;
  dht_port = dht_port;
  seeds = seed;
  cover = record { enabled = cover; min_interval_ms = 500; max_interval_ms = 2000 };
  rng_seed = none;
}

-- What can be asked for, with its arguments.
pub data Command : Type 0 where
  run_node : (cell_port dht_port : ℕ) (seed : List Bytes) (cover : Bool) → Command
  send_to : (seed to msg : Bytes) → Command
  run_demo : Command

-- The argument `--to`.
pub parse_target : (Bytes → Option Bytes) → Bytes → Result CliError Bytes
parse_target hex_decode to = elim (hex_decode to) [
  | none ↦ err bad_hex
  | some bytes ↦ if length bytes == 20 then ok bytes else err bad_target
]

-- The ids of the peers, but for the target's.
unfoldable pub pool_of : Bytes → List (Bytes × SocketAddr × Bytes) → List Bytes
pool_of target [] = []
pool_of target (p ∷ ps) =
    let rest = pool_of target ps in if bytes_eq p.0 target then rest else p.0 ∷ rest

-- `pool.remove(i)`: what is removed and what is left; it panics out of range.
unfoldable pub remove_at : ℕ → List Bytes → Option (Bytes × List Bytes)
remove_at i [] = none
remove_at zero (x ∷ xs) = some (x, xs)
remove_at (suc i) (x ∷ xs) = elim (remove_at i xs) [
  | none ↦ none
  | some (y, rest) ↦ some (y, x ∷ rest)
]

-- `for _ in 0..k { .. }`: the hops, in the order of the draws.
unfoldable pub draw_hops : (g : Gen) → ℕ → List Bytes → g.State → Option (List Bytes × g.State)
draw_hops g zero pool s = some ([], s)
draw_hops g (suc k) pool s =
    let (i, s') = g.gen_range (length pool) s in
    elim (remove_at i pool) [
      | none ↦ none
      | some (hop, rest) ↦ elim (draw_hops g k rest s') [
        | none ↦ none
        | some (hops, s'') ↦ some (hop ∷ hops, s'')
      ]
    ]

-- The route of `send_once`: three drawn hops and the target.
unfoldable pub choose_route :
    (g : Gen) → Bytes → List (Bytes × SocketAddr × Bytes) → g.State → Result CliError (List Bytes)
choose_route g target peers s =
    let pool = pool_of target peers in
    if ltb (length pool) 3 then err (too_few (length pool)) else elim (draw_hops g 3 pool s) [
      | none ↦ err panicked
      | some (hops, s') ↦ ok (hops ++ (target ∷ []))
    ]

-- The route of `demo`, out of the ids of its nodes.
pub demo_route : List Bytes → Option (List Bytes)
demo_route (n0 ∷ n1 ∷ n2 ∷ n3 ∷ n4 ∷ service ∷ rest) = some (n1 ∷ n2 ∷ n3 ∷ service ∷ [])
demo_route _ = none
