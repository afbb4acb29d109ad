-- ===== src/Cli/Ports.antt =====
-- The ports and seeds of the nodes that the command line starts (crates/nbf-cli/src/demo.rs,
-- `cfg`).
use never_been_found.Prelude.{
  ℕ, suc, ◌+◌, ◌<◌, ◌≡◌, ◌≢◌, true, Bool, Option, some, [], ◌∷◌, Bytes, arith,
}
use never_been_found.Addr.{SocketAddr}
use never_been_found.Config.{
  local_addr, seed_addrs, dht_run, dht_join, cell_loop, cover_loop, tasks_of,
}
use never_been_found.Cli.{seed_text, cfg}

ports_of :
    (i : ℕ) (b : Bool)
    → i < 26768
    → ((cfg i b).cell_port ≡ 12000 + (i + i)) × ((cfg i b).dht_port ≡ 12001 + (i + i))
unfolding cfg
ports_of i b h = (omega arith, omega arith)

-- Of the first 26768 nodes, no two ports are the same, whether they carry cells or the distributed
-- table.
pub cfg_ports_apart :
    (i j : ℕ) (b : Bool)
    → i < 26768
    → j < 26768
    → ((cfg i b).cell_port ≢ (cfg j b).dht_port)
      × ((cfg i b).cell_port ≡ (cfg j b).cell_port → i ≡ j)
      × ((cfg i b).dht_port ≡ (cfg j b).dht_port → i ≡ j)
cfg_ports_apart i j b hi hj =
    let (ci, di) = ports_of i b hi in
    let (cj, dj) = ports_of j b hj in
    (
      (λ e. absurd (omega (arith, ci, dj, e))),
      (λ e. omega (arith, ci, cj, e)),
      (λ e. omega (arith, di, dj, e)),
    )

-- Given that the text of the first node's address for the table is parsed: every node but the first
-- starts a search from that address alone, next to its loops and its cover traffic.
pub cfg_joins :
    (parse : Bytes → Option SocketAddr) (i : ℕ)
    → parse seed_text ≡ some (local_addr (cfg 0 true).dht_port)
    → tasks_of parse (cfg (suc i) true)
      ≡ dht_run ∷ dht_join (local_addr (cfg 0 true).dht_port ∷ []) ∷ cell_loop ∷ cover_loop ∷ []
unfolding cfg seed_addrs tasks_of
cfg_joins parse i e = rw (e, seed_addrs)
