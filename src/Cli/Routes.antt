-- ===== src/Cli/Routes.antt =====
-- The route that `send_once` chooses (crates/nbf-cli/src/demo.rs) out of the peers of a node
-- (crates/nbf-net/src/node.rs, `route_peers`).
use never_been_found.Prelude.{
  suc, ◌≤◌, ◌<◌, ◌≡◌, ◌≢◌, refl, sym, ◌⊎◌, inl, inr, Bool-cases, Option-cases, some, List, [], ◌∷◌,
  ◌++◌, length, length-append, All, NoRepeat, ap, subst, ◌∙◌, insert, lookup-insert, Bytes,
  bytes_eq, bytes_eq_inst, Result, ok, err, ltb, ltb→lt, ltb→le, arith, Map, lookup,
}
use never_been_found.Descriptor.{Descriptor}
use never_been_found.Rpc.{Contact}
use never_been_found.Kademlia.Table.{IsTable, Distinct}
use never_been_found.Node.{Node}
use never_been_found.Engine.{Finder, peers_of, route_peers, lookup_route}
use never_been_found.Builder.{resolve}
use never_been_found.Cli.{CliError, too_few, Gen, pool_of, choose_route}
use never_been_found.Cli.Draws.{
  drawn, draw_hops-Drawn, ids_of, pool_of-All, pool_of-other, pool_of-NoRepeat, NoRepeat-last,
}

-- The descriptor of the id is stored.
abbrev pub IsStored : Map Bytes Descriptor → Bytes → Type 0
IsStored m id = (d : Descriptor) × (lookup id m ≡ some d)

module _ (m : Map Bytes Descriptor) where
  peers_of-All :
      (P : Bytes → Type 0) (ks : List Contact)
      → All (λ k. P k.node_id) ks
      → All P (ids_of (peers_of m ks))
  unfolding peers_of
  peers_of-All P [] h = tt
  peers_of-All P (k ∷ ks) (h, hs) = elim (Option-cases (lookup k.node_id m)) [
    | inl e ↦ rw (e, peers_of) (peers_of-All P ks hs)
    | inr (d, e) ↦ rw (e, peers_of) (h, peers_of-All P ks hs)
  ]

  peers_of-IsStored : (ks : List Contact) → All (IsStored m) (ids_of (peers_of m ks))
  unfolding peers_of
  peers_of-IsStored [] = tt
  peers_of-IsStored (k ∷ ks) = elim (Option-cases (lookup k.node_id m)) [
    | inl e ↦ rw (e, peers_of) (peers_of-IsStored ks)
    | inr (d, e) ↦ rw (e, peers_of) ((d, e), peers_of-IsStored ks)
  ]

  peers_of-NoRepeat : (ks : List Contact) → Distinct ks → NoRepeat (ids_of (peers_of m ks))
  unfolding peers_of
  peers_of-NoRepeat [] d = tt
  peers_of-NoRepeat (k ∷ ks) (o, d) = elim (Option-cases (lookup k.node_id m)) [
    | inl e ↦ rw (e, peers_of) (peers_of-NoRepeat ks d)
    | inr (x, e) ↦
        rw (e, peers_of) (peers_of-All (λ y. k.node_id ≢ y) ks (flip ks o), peers_of-NoRepeat ks d)
  ]
    where
      flip :
          (xs : List Contact)
          → All (λ y. y.node_id ≢ k.node_id) xs
          → All (λ y. k.node_id ≢ y.node_id) xs
      flip [] h = tt
      flip (x ∷ xs) h = ((λ e. h.0 (sym e)), flip xs h.1)

-- The choice of a route to a target, for a node: too few others, or three stored others and the
-- target.
pub data RouteChoice (n : Node) (target : Bytes) (r : Result CliError (List Bytes)) : Type 0 where
  declined :
      length (pool_of target (route_peers n)) < 3
      → r ≡ err (too_few (length (pool_of target (route_peers n))))
      → RouteChoice n target r
  chosen :
      (hops : List Bytes)
      → 3 ≤ length (pool_of target (route_peers n))
      → r ≡ ok (hops ++ (target ∷ []))
      → length hops ≡ 3
      → All (IsStored (n.dht).stored) hops
      → NoRepeat (hops ++ (target ∷ []))
      → RouteChoice n target r

-- For a node whose routing table is in order, the choice of a route never panics. With fewer than
-- three stored peers besides the target it is an error that gives their number. Otherwise the route
-- has three hops and then the target: no node of it comes twice, and the descriptor of each hop is
-- stored, whatever the random generator draws.
pub choose_route-RouteChoice :
    (g : Gen) (s : g.State) (target : Bytes) (n : Node)
    → IsTable n.dht
    → RouteChoice n target (choose_route g target (route_peers n) s)
unfolding choose_route route_peers
choose_route-RouteChoice g s target n v =
    let ps = route_peers n in
    let pool = pool_of target ps in
    elim (Bool-cases (ltb (length pool) 3)) [
      | inl few ↦ rw few (declined (ltb→lt _ _ few) refl)
      | inr more ↦ elim (draw_hops-Drawn g 3 pool s (ltb→le _ _ more)) [
        | drawn hops s' e size all distinct ↦
            rw (more, e, choose_route)
              (chosen hops (ltb→le _ _ more) refl size
                (all (IsStored (n.dht).stored) (
                  pool_of-All (IsStored (n.dht).stored) target ps
                    (peers_of-IsStored (n.dht).stored (n.dht).rt)))
                (NoRepeat-last target hops
                  (distinct (
                    pool_of-NoRepeat target ps
                      (peers_of-NoRepeat (n.dht).stored (n.dht).rt v.distinct)))
                  (all (λ x. x ≢ target) (pool_of-other target ps))))
      ]
    ]

-- A node has the descriptor of the id at hand.
abbrev pub Knows : Node → Bytes → Type 0
Knows n id = ((d : Descriptor) × (lookup id n.dht_cache ≡ some d)) ⊎ IsStored (n.dht).stored id

module _ (f : Finder) where
  -- What it has at hand is found without a search, and stays at hand with all else.
  lookup_route_known :
      (id : Bytes) (n : Node)
      → Knows n id
      → ((d : Descriptor) × ((lookup_route f id n).0 ≡ ok d))
        × ((lookup_route f id n).1.dht ≡ n.dht)
        × ((j : Bytes) → Knows n j → Knows (lookup_route f id n).1 j)
  unfolding lookup_route
  lookup_route_known id n known = elim (Option-cases (lookup id n.dht_cache)) [
    | inr (d, e) ↦ rw (e, lookup_route) ((d, refl), refl, (λ j k. k))
    | inl e ↦ elim (Option-cases (lookup id (n.dht).stored)) [
      | inr (d, e') ↦ rw (e, e', lookup_route) ((d, refl), refl, (λ j k. after j d k))
      | inl e' ↦ elim known [ inl (d, h) ↦ cc | inr (d, h) ↦ cc ]
    ]
  ]
    where
      after :
          (j : Bytes) (d : Descriptor)
          → Knows n j
          → Knows (record n { dht_cache = insert id d n.dht_cache }) j
      after j d (inr s) = inr s
      after j d (inl (x, h)) = elim (Bool-cases (bytes_eq id j)) [
        | inl same ↦ inl (d, lookup-insert id j d n.dht_cache ∙ rw same)
        | inr other ↦ inl (x, lookup-insert id j d n.dht_cache ∙ rw other h)
      ]

  resolve_known :
      (route : List Bytes) (n : Node)
      → All (Knows n) route
      → (ds : List Descriptor) × ((resolve f route n).0 ≡ ok ds)
        × (length ds ≡ length route)
        × ((resolve f route n).1.dht ≡ n.dht)
  unfolding resolve
  resolve_known [] n h = ([], refl, refl, refl)
  resolve_known (id ∷ ids) n (h, hs) =
      let ((d, e), same, kept) = lookup_route_known id n h in
      let n' = (lookup_route f id n).1 in
      let (ds, e', size, same') = resolve_known ids n' (keep n' kept ids hs) in
      rw (e, e', resolve) (d ∷ ds, refl, ap suc size, same' ∙ same)
    where
      keep :
          (n' : Node)
          → ((j : Bytes) → Knows n j → Knows n' j)
          → (xs : List Bytes) → All (Knows n) xs
          → All (Knows n') xs
      keep n' kept [] k = tt
      keep n' kept (x ∷ xs) k = (kept x k.0, keep n' kept xs k.1)

  -- For a node whose routing table is in order and that has the descriptor of the target at hand:
  -- `build_circuit` finds the descriptors of all four nodes of a route that is chosen for the
  -- target, and asks nobody for them.
  pub chosen_route_found :
      (g : Gen) (s : g.State) (target : Bytes) (n : Node) (route : List Bytes)
      → IsTable n.dht
      → Knows n target
      → choose_route g target (route_peers n) s ≡ ok route
      → (ds : List Descriptor) × ((resolve f route n).0 ≡ ok ds)
        × (length ds ≡ 4)
        × ((resolve f route n).1.dht ≡ n.dht)
  chosen_route_found g s target n route v known e = elim (choose_route-RouteChoice g s target n v) [
    | declined few e' ↦ absurd (cc)
    | chosen hops many e' size stored distinct ↦
        let same : route ≡ hops ++ (target ∷ []) = one_ok _ route _ e e' in
        let (ds, found, size', table) =
          resolve_known route n (subst (All (Knows n)) (sym same) (all_known hops stored)) in
        (
          ds,
          found,
          size' ∙ ap length same ∙ omega (arith, size, length-append hops (target ∷ [])),
          table,
        )
  ]
    where
      one_ok : (r : Result CliError (List Bytes)) (x y : List Bytes) → r ≡ ok x → r ≡ ok y → x ≡ y
      one_ok r x y p q = cc

      all_known :
          (xs : List Bytes) → All (IsStored (n.dht).stored) xs → All (Knows n) (xs ++ (target ∷ []))
      all_known [] k = (known, tt)
      all_known (x ∷ xs) k = (inr k.0, all_known xs k.1)
