-- ===== src/Examples/Circuits.antt =====
-- RELAY cells at concrete nodes: a route of a hop and a terminal, and the origin.
use never_been_found.Prelude.{
  ℕ, ◌+◌, ◌<◌, ◌≡◌, ◌≢◌, ◌↔◌, refl, ap, none, some, List, [], ◌∷◌, length, replicate, Bytes, arith,
  Map, lookup, nat_eq,
}
use never_been_found.Addr.{SocketAddr, v4}
use never_been_found.Cell.{Cmd, Cell, echo, rcmd_code, encode}
use never_been_found.Onion.{seal_onion, seal_onion_bwd, open_onion_bwd}
use never_been_found.Node.{
  Stats, Node, HopLink, CircuitEntry, origin, relay, terminal, Effect, send, push,
}
use never_been_found.Relay.{relay_payload, relay_cell, act, handle, count_relayed}
use never_been_found.Relay.Wire.{header}
use never_been_found.Relay.Trip.{Station, OnRoute, at_end, at_hop, round_trip, echo_delivers}
use never_been_found.Relay.Replays.{relay_replay, relay_race}
use never_been_found.Relay.Sizes.{relay_backward_overflow}
use never_been_found.Descriptor.{Descriptor}
use never_been_found.Kademlia.{new_table}
use never_been_found.Relay.{at_origin}
use never_been_found.Relay.Backward.{deliver_to, value_of, at_origin-open_onion_bwd}
use never_been_found.Examples.Toy.{suite}

abbrev pub host : ℕ → SocketAddr
host k = record { ip = v4 (127 ∷ 0 ∷ 0 ∷ k ∷ []); port = 7000 + k }

abbrev pub link : ℕ → HopLink
link k = record { cid = 9; peer = host k }

abbrev tag : Bytes
tag = replicate 16 1

abbrev pub kf : ℕ → Bytes
kf k = replicate 32 k

abbrev idle : Stats
idle = record {
  created = 0;
  relayed = 0;
  destroyed = 0;
  padding_recv = 0;
  padding_sent = 0;
  drops_sent = 0;
}

abbrev pub blank_desc : Descriptor
blank_desc = record {
  node_id = [];
  ed_pub = [];
  link_pub = [];
  sphinx_pub = [];
  kem_pk = [];
  cell_addr = host 0;
  dht_port = 0;
  ts = 0;
  sig = [];
}

abbrev pub node_with : CircuitEntry → Node
node_with e = record {
  circuits = (9, e) ∷ [];
  pending = [];
  next_cid = 1;
  seq_origin = 1;
  stats = idle;
  dht_cache = [];
  dht = new_table [] blank_desc;
  create_frags = [];
}

-- The origin is host 1, the hop host 2, the terminal host 3.
abbrev pub hop_entry : CircuitEntry
hop_entry = relay tag (kf 4) (kf 5) (link 1) (link 3) 0

abbrev end_entry : CircuitEntry
end_entry = terminal tag (kf 6) (kf 7) (link 2) 0

abbrev pub first_entry : CircuitEntry
first_entry = origin (kf 4 ∷ kf 6 ∷ []) (kf 5 ∷ kf 7 ∷ []) tag (link 2) ((3, 70) ∷ [])

abbrev pub msg : Bytes
msg = 104 ∷ 105 ∷ []

pub has_entry : (e : CircuitEntry) → lookup 9 (node_with e).circuits ≡ some e
unfolding lookup
has_entry e = refl

hosts-ne : (j k : ℕ) → j ≢ k → host j ≢ host k
hosts-ne j k ne e = ne (let p = ap (λ a. a.port) e in omega (arith, p))

abbrev pub echo_cell : List Bytes → Cell
echo_cell keys = relay_cell 9 (relay_payload 5 (rcmd_code echo) 3 (seal_onion suite keys tag 5 msg))

abbrev stations : List Station
stations =
    record { addr = host 2; node = node_with hop_entry }
    ∷ record { addr = host 3; node = node_with end_entry }
    ∷ []

stations-OnRoute : OnRoute tag 9 5 (host 1) (host 2) stations (kf 4 ∷ kf 6 ∷ []) (kf 5 ∷ kf 7 ∷ [])
stations-OnRoute =
    at_hop 0 (has_entry hop_entry) (omega arith) (hosts-ne 3 1 (λ e. absurd (omega arith)))
      (at_end 0 (has_entry end_entry) (omega arith))

abbrev streams : Map ℕ ℕ
streams = (3, 70) ∷ []

streams_70 : lookup 3 streams ≡ some 70
unfolding lookup
streams_70 = refl

echo_delivers_example :
    (back : Cell) × (round_trip suite stations (host 2) (host 1) (echo_cell (kf 4 ∷ kf 6 ∷ []))
      ≡ some back)
    × (handle suite (node_with first_entry) (host 2) back
        ≡ (count_relayed (node_with first_entry), push 70 msg ∷ []))
echo_delivers_example =
    echo_delivers suite tag 9 5 3 msg (omega arith) (omega arith) (node_with first_entry) (link 2)
      streams 70 stations-OnRoute (has_entry first_entry) streams_70

abbrev after_one : Node
after_one = (handle suite (node_with hop_entry) (host 1) (echo_cell (kf 4 ∷ kf 6 ∷ []))).0

relay_replay_example :
    handle suite after_one (host 1) (echo_cell (kf 4 ∷ kf 6 ∷ [])) ≡ (count_relayed after_one, [])
relay_replay_example =
    relay_replay suite (node_with hop_entry) 9 5 echo 3 tag (kf 4) (kf 5) (kf 6 ∷ []) msg (link 1)
      (link 3) 0 (omega arith) (omega arith) (has_entry hop_entry) (omega arith)

abbrev first_run : Node × List Effect
first_run =
    act suite hop_entry (node_with hop_entry) (host 1) 9
      (header 5 echo 3 (seal_onion suite (kf 4 ∷ kf 6 ∷ []) tag 5 msg))

relay_race_example :
    (first_run.1 ≡ send (host 3) (echo_cell (kf 6 ∷ [])) ∷ [])
    × ((act suite hop_entry first_run.0
          (host 1)
          9
          (header 5 echo 3 (seal_onion suite (kf 4 ∷ kf 6 ∷ []) tag 5 msg))).1
        ≡ first_run.1)
relay_race_example =
    relay_race suite (node_with hop_entry) 9 5 echo 3 tag (kf 4) (kf 5) (kf 6 ∷ []) msg (link 1)
      (link 3) 0 (has_entry hop_entry) (omega arith)

relay_backward_overflow_example :
    (out : Cell) × ((handle suite
        (node_with hop_entry)
        (host 3)
        (relay_cell 9 (relay_payload 5 (rcmd_code echo) 3 (replicate 1250 0)))).1
      ≡ send (host 1) out ∷ [])
    × ((encode out ≡ none)
        ↔ (1256 < length (relay_payload 5 (rcmd_code echo) 3 (replicate 1250 0))))
relay_backward_overflow_example =
    relay_backward_overflow suite (node_with hop_entry) 9 5 echo 3 tag (kf 4) (kf 5)
      (replicate 1250 0) (link 1) (link 3) 0 (omega arith) (omega arith) (has_entry hop_entry)
      (hosts-ne 3 1 (λ e. absurd (omega arith)))

abbrev destroy_9 : Cell
destroy_9 = record { cid = 9; cmd = Cmd.destroy; flags = 0; payload = [] }

abbrev created_9 : Cell
created_9 = record { cid = 9; cmd = Cmd.created; flags = 0; payload = [] }

abbrev waiting : Node
waiting = record (node_with hop_entry) { pending = (9, 80) ∷ [] }

waiting_80 : lookup 9 waiting.pending ≡ some 80
unfolding lookup
waiting_80 = refl

at_origin-open_onion_bwd_example :
    let h = header 5 echo 3 (seal_onion_bwd suite (kf 5 ∷ kf 7 ∷ []) tag 5 msg) in
    at_origin suite (node_with first_entry) h (kf 5 ∷ kf 7 ∷ []) tag streams
    ≡ deliver_to
        (node_with first_entry)
        h.stream
        streams
        (value_of (open_onion_bwd suite (kf 5 ∷ kf 7 ∷ []) tag h.seq h.onion))
at_origin-open_onion_bwd_example =
    let h = header 5 echo 3 (seal_onion_bwd suite (kf 5 ∷ kf 7 ∷ []) tag 5 msg) in
    at_origin-open_onion_bwd suite (node_with first_entry) h (kf 5 ∷ kf 7 ∷ []) tag streams
