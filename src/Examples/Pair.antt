-- ===== src/Examples/Pair.antt =====
-- A circuit over two nodes, from its start to the answer of an ECHO.
use never_been_found.Prelude.{
  ℕ, ◌≡◌, refl, ap, some, List, [], ◌∷◌, map, length, length-replicate, replicate, Bytes, bytes_eq,
  ok, arith, lookup, none, false, nat_eq,
}
use never_been_found.Addr.{v4}
use never_been_found.Identity.{NodeIdentity, kem_encap}
use never_been_found.Descriptor.{Descriptor}
use never_been_found.Cell.{Cell}
use never_been_found.Sphinx.{
  terminal_id, relay, process_header, BuiltHeader, frame, wrap, traffic, infos, secrets,
  draw_scalars, encap_all, build_header,
}
use never_been_found.Sphinx.Walk.{header_size, Walk, at_hop}
use never_been_found.Sphinx.Build.{Route, done, via, build_header-Walk}
use never_been_found.Node.{Node, send, peer_key, push, new_cid}
use never_been_found.Relay.{relay_cell, handle, count_relayed}
use never_been_found.Relay.Trip.{Station, round_trip}
use never_been_found.Engine.{lookup_route, spawned, create_cell, created_cell, handle_cell}
use never_been_found.Control.{handle_created}
use never_been_found.Builder.Starts.{created_out_of_time}
use never_been_found.Engine.Hops.{hop_entry}
use never_been_found.Engine.Answers.{answers_lost}
use never_been_found.Fragment.{fragment}
use never_been_found.Engine.Opening.{Joiner, cells_to, handle_all, open_route}
use never_been_found.Engine.Joining.{Ready, ready_end, ready_hop, Opened, circuit_opens}
use never_been_found.Builder.{
  CircuitHandle, Started, resolve, depart, create_sends, start, await_created, settle, ask_echo,
  destroy_cell,
}
use never_been_found.Builder.Echoes.{woken_by, built_circuit_echoes}
use never_been_found.Examples.Toy.{suite, asym}
use never_been_found.Examples.Headers.{tag, key_pair, desc, desc-Owns, head_of}
use never_been_found.Examples.Circuits.{host, msg, blank_desc}
use never_been_found.Examples.Building.{nobody, joiner, sends_it}

abbrev second : Descriptor
second = record desc {
  node_id = replicate 20 8;
  kem_pk = 8 ∷ [];
  cell_addr = record { ip = v4 (127 ∷ 0 ∷ 0 ∷ 1 ∷ []); port = 7003 };
}

abbrev pub pair : List Descriptor
pair = desc ∷ second ∷ []

abbrev pub built_pair : BuiltHeader
built_pair =
    let cts = (4 ∷ replicate 1087 0) ∷ (5 ∷ replicate 1087 0) ∷ [] in
    let ss = secrets suite asym pair 1 (2 ∷ 3 ∷ []) in
    let keys = traffic suite tag ss ((11 ∷ []) ∷ (13 ∷ []) ∷ []) in
    record {
      header =
          frame 2 tag ((2 ∷ replicate 31 0) ∷ (3 ∷ replicate 31 0) ∷ [])
            (wrap suite tag (infos pair cts) ss);
      tag = tag;
      fwd_keys = map (λ k. k.0) keys;
      bwd_keys = map (λ k. k.1) keys;
      first_addr = desc.cell_addr;
    }

-- The origin knows both descriptors.
abbrev pub knowing_both : Node
knowing_both = record (spawned (replicate 20 9) blank_desc) {
  dht_cache = (desc.node_id, desc) ∷ (second.node_id, second) ∷ [];
}

abbrev pub begun_pair : Started
begun_pair = record { cid = 1; built = built_pair }

abbrev pub route_pair : List Bytes
route_pair = desc.node_id ∷ second.node_id ∷ []

pub pair_found : (resolve nobody route_pair knowing_both).0 ≡ ok pair
unfolding resolve lookup_route lookup spawned bytes_eq replicate
pair_found = refl

pub pair_runs : ((start nobody suite asym route_pair knowing_both 1).0).0 ≡ ok begun_pair
unfolding start resolve depart lookup_route lookup new_cid spawned build_header draw_scalars
    encap_all kem_encap secrets wrap traffic bytes_eq replicate
pair_runs = refl

pub pair-Route : Route asym (key_pair 7 ∷ key_pair 8 ∷ []) pair
unfolding terminal_id replicate
pair-Route = via desc-Owns (
    via
      (record {
        same_point = refl;
        is_v4 = record {
          id_20 = length-replicate {A = ℕ} 20 8;
          link_32 = length-replicate {A = ℕ} 32 7;
          port_u16 = omega arith;
          octets = 127 ∷ 0 ∷ 0 ∷ 1 ∷ [];
          ip_v4 = refl;
          octets_4 = refl;
        };
        unmarked = λ e. absurd (let h = ap head_of e in omega (arith, h));
        seed = 8;
        secret_key = refl;
        public_key = refl;
      })
      done)

abbrev pub joiner_8 : Joiner asym
joiner_8 = record {
  addr = second.cell_addr;
  identity = key_pair 8;
  node = spawned second.node_id second;
}

pub pair-Ready : Ready asym 1 (host 1) (joiner ∷ joiner_8 ∷ []) (key_pair 7 ∷ key_pair 8 ∷ []) pair
unfolding spawned lookup
pair-Ready =
    ready_hop
      (record {
        ends = record { own_addr = refl; no_buffer = refl };
        same_id = refl;
        no_waiter = refl;
        apart = λ e. let p = ap (λ ad. ad.port) e in omega (arith, p);
      })
      (ready_end (record { own_addr = refl; no_buffer = refl }))

pair-Walk :
    Walk suite asym tag
      (key_pair 7 ∷ key_pair 8 ∷ [])
      pair
      built_pair.header
      built_pair.fwd_keys
      built_pair.bwd_keys
unfolding build_header draw_scalars encap_all kem_encap secrets wrap traffic
pair-Walk =
    build_header-Walk suite asym (key_pair 7 ∷ key_pair 8 ∷ []) desc (second ∷ []) tag 2 built_pair
      pair-Route (length-replicate {A = ℕ} 16 1) refl

first_hop :
    {i : NodeIdentity asym} {is : List (NodeIdentity asym)} {d nd : Descriptor}
    {ds : List Descriptor} {header : Bytes} {fwd bwd : List Bytes}
    → Walk suite asym tag (i ∷ is) (d ∷ nd ∷ ds) header fwd bwd
    → (length header ≡ header_size (length (d ∷ nd ∷ ds)))
      × (f : Bytes) × (b : Bytes) × (out : Bytes) × (process_header suite asym i header
          ≡ ok (relay tag f b nd.node_id nd.cell_addr out))
first_hop (at_hop next size opens w) = (size, _, _, next, opens)

abbrev hop :
    (length built_pair.header ≡ header_size 2)
    × (f : Bytes) × (b : Bytes) × (out : Bytes) × (process_header suite asym
          (key_pair 7)
          built_pair.header
        ≡ ok (relay tag f b second.node_id second.cell_addr out))
hop = first_hop pair-Walk

joiner_idle :
    (lookup 5 (joiner.node).create_frags ≡ none)
    × ((joiner.node).next_cid ≡ 1)
    × (lookup (joiner.node).next_cid (joiner.node).pending ≡ none)
    × (lookup (joiner.node).next_cid (joiner.node).circuits ≡ none)
unfolding spawned lookup
joiner_idle = (refl, refl, refl, refl)

answers_lost_example :
    let n = joiner.node in
    let to = second.cell_addr in
    let r =
      handle_all nobody suite asym
        (key_pair 7)
        (host 1)
        (map (create_cell 5) (fragment built_pair.header))
        n in
    (lookup 5 (r.0).circuits ≡ some (hop_entry tag hop.1 hop.2 (host 1) 5 to n.next_cid))
    × ((key : Bytes) × (r.1
          ≡ peer_key to key ∷ map (λ part. send to (create_cell n.next_cid part)) (fragment hop.3)))
    × (handle_cell nobody suite asym (key_pair 7) to (created_cell n.next_cid) r.0 ≡ (r.0, []))
    × (handle_cell nobody suite asym (key_pair 7) to (relay_cell n.next_cid msg) r.0 ≡ (r.0, []))
    × ((handle_cell nobody suite asym (key_pair 7) to (destroy_cell n.next_cid) r.0).1 ≡ [])
answers_lost_example =
    answers_lost nobody suite asym (key_pair 7) (host 1) second.cell_addr 5 built_pair.header tag
      hop.1 hop.2 second.node_id hop.3 msg joiner.node (omega (arith, hop.0)) joiner_idle.0 hop.4
      (λ e. absurd (omega (arith, joiner_idle.1))) joiner_idle.2 joiner_idle.3

circuit_opens_example :
    Opened nobody suite asym tag 1 64
      (host 1)
      (joiner ∷ joiner_8 ∷ [])
      desc.cell_addr
      built_pair.header
      built_pair.fwd_keys
      built_pair.bwd_keys
circuit_opens_example =
    circuit_opens nobody suite asym tag 1 64 (omega arith) (omega arith) pair-Ready pair-Walk

pub both-seq : knowing_both.seq_origin ≡ 64
unfolding spawned
both-seq = refl

built_circuit_echoes_example :
    let r = start nobody suite asym route_pair knowing_both 1 in
    let to = desc.cell_addr in
    let n' = woken_by nobody suite asym to 5 begun_pair r.1 in
    (ss : List Station) × (h : CircuitHandle) × (cell : Cell) × (back : Cell) × (open_route nobody
        suite asym
        (joiner ∷ joiner_8 ∷ [])
        to
        (host 1)
        (cells_to to (r.0).1)
      ≡ some (ss, created_cell 1 ∷ []))
    × (n'.0 ≡ ok h)
    × ((ask_echo suite sends_it h 6 msg n'.1).2 ≡ send to cell ∷ [])
    × (round_trip suite ss to (host 1) cell ≡ some back)
    × (let asked = (ask_echo suite sends_it h 6 msg n'.1).1 in
        handle suite asked to back ≡ (count_relayed asked, push 6 msg ∷ []))
built_circuit_echoes_example =
    built_circuit_echoes nobody suite asym sends_it (host 1) route_pair knowing_both 1 begun_pair
      (key_pair 7 ∷ key_pair 8 ∷ []) pair (joiner ∷ joiner_8 ∷ []) 5 6 msg pair_runs pair_found
      (length-replicate {A = ℕ} 16 1) pair-Route pair-Ready (omega (arith, both-seq))
      (omega (arith, both-seq)) (omega arith)

both-empty :
    (lookup knowing_both.next_cid knowing_both.pending ≡ none)
    × (lookup knowing_both.next_cid knowing_both.circuits ≡ none)
unfolding spawned lookup
both-empty = (refl, refl)

created_out_of_time_example :
    let r = start nobody suite asym route_pair knowing_both 1 in
    let early = handle_created (host 2) (created_cell 1) r.1 in
    let waiting = await_created 1 5 early.0 in
    let late = (settle false begun_pair waiting).1 in
    ((descs : List Descriptor) × ((r.0).1 ≡ create_sends 1 descs built_pair))
    × (early ≡ (r.1, []))
    × (lookup 1 waiting.pending ≡ some 5)
    × (lookup 1 late.circuits ≡ none)
    × (handle_created (host 2) (created_cell 1) late ≡ (late, []))
created_out_of_time_example =
    created_out_of_time nobody suite asym (host 2) route_pair knowing_both 1 begun_pair 5 pair_runs
      both-empty.0 both-empty.1
