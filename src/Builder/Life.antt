-- ===== src/Builder/Life.antt =====
-- The life of a node, one step after the other in any order (crates/nbf-net/src/node.rs and
-- builder.rs).
use never_been_found.Prelude.{
  replicate, none, some, ℕ, ◌≡◌, refl, ◌∙◌, ◌||◌, ◌==◌, inl, inr, Bool, true, false, Bool-cases,
  Option, Option-cases, List, [], ◌∷◌, length, Bytes, Result-cases, ltb, lookup, nat_eq,
}
use never_been_found.Errors.{NetError}
use never_been_found.Suite.{Suite}
use never_been_found.Asym.{Asym}
use never_been_found.Addr.{SocketAddr}
use never_been_found.Identity.{NodeIdentity}
use never_been_found.Descriptor.{Descriptor}
use never_been_found.Cell.{Cell, RCmd, echo, msg_max}
use never_been_found.Kademlia.{Kademlia}
use never_been_found.Sphinx.{build_header, max_hops}
use never_been_found.Node.{
  new_cid, Node, CircuitEntry, origin, relay, terminal, set_stream, register_stream,
  register_stream_put, register_stream_missing,
}
use never_been_found.Relay.Replays.{own_cid}
use never_been_found.Engine.{Finder, lookup_route, spawned, handle_cell}
use never_been_found.Engine.Filed.{
  IsSound, insert-IsFiled, remove-IsFiled, spawned-IsFiled, lookup_route-IsSound,
  handle_cell-IsSound,
}
use never_been_found.Builder.{
  CircuitHandle, Started, resolve, depart, start, await_created, settle, origin_entry, origin_next,
  send_on, ask_echo, send_message, close,
}
use never_been_found.Cover.{count_sent, cover_turn, cover_turn-keeps}
use never_been_found.Builder.Sends.{send_on_open, send_on_closed, close_open, close_closed}

own_cid-set_stream :
    (stream tx : ℕ) (e : CircuitEntry) → own_cid (set_stream stream tx e) ≡ own_cid e
own_cid-set_stream stream tx (origin f b t n s) = refl
own_cid-set_stream stream tx (relay t f b p n l) = refl
own_cid-set_stream stream tx (terminal t f b p l) = refl

module _ (f : Finder) (c : Suite) (a : Asym) (identity : NodeIdentity a)
    (snd : SocketAddr → Cell → Option NetError) where
  -- What a node that started as `first` can become: a cell of anyone is handled, an operation of
  -- the origin runs up to its wait or on from it, cover traffic goes out, or the DHT's task gives
  -- the table another value that is as good for the search.
  pub data Reaches (first : Node) : Node → Type 0 where
    begins : Reaches first first
    on_cell :
        {n : Node} (from : SocketAddr) (cell : Cell)
        → Reaches first n
        → Reaches first (handle_cell f c a identity from cell n).0
    on_dht :
        {n : Node} (t : Kademlia)
        → (f.IsGood n.dht → f.IsGood t)
        → Reaches first n
        → Reaches first (record n { dht = t })
    on_start :
        {n : Node} (route : List Bytes) (rng : a.Rng)
        → Reaches first n
        → Reaches first (start f c a route n rng).1
    on_await : {n : Node} (cid tx : ℕ) → Reaches first n → Reaches first (await_created cid tx n)
    on_settle :
        {n : Node} (woken : Bool) (s : Started)
        → Reaches first n
        → Reaches first (settle woken s n).1
    on_echo :
        {n : Node} (h : CircuitHandle) (tx : ℕ) (msg : Bytes)
        → Reaches first n
        → Reaches first (ask_echo c snd h tx msg n).1
    on_message :
        {n : Node} (h : CircuitHandle) (msg : Bytes) (stream : ℕ)
        → Reaches first n
        → Reaches first (send_message c snd h msg stream n).1
    on_cover : {n : Node} (i : ℕ) → Reaches first n → Reaches first (cover_turn c snd i n).0
    on_close : {n : Node} (h : CircuitHandle) → Reaches first n → Reaches first (close h n).0

  resolve-IsSound : (route : List Bytes) (n : Node) → IsSound f n → IsSound f (resolve f route n).1
  unfolding resolve
  resolve-IsSound [] n v = v
  resolve-IsSound (id ∷ ids) n v =
      let first = lookup_route-IsSound f id n v in
      let later = resolve-IsSound ids (lookup_route f id n).1 first in
      elim (Result-cases (lookup_route f id n).0) [
        | inr (e, h) ↦ rw (h, resolve) first
        | inl (d, h) ↦ elim (Result-cases (resolve f ids (lookup_route f id n).1).0) [
          | inr (e, h') ↦ rw (h, h', resolve) later
          | inl (ds, h') ↦ rw (h, h', resolve) later
        ]
      ]

  register-IsSound :
      (cid stream tx : ℕ) (n : Node) → IsSound f n → IsSound f (register_stream cid stream tx n)
  register-IsSound cid stream tx n (v, g) = elim (Option-cases (lookup cid n.circuits)) [
    | inl e ↦ rw (register_stream_missing cid stream tx n e) (v, g)
    | inr (x, e) ↦ rw (register_stream_put cid stream tx n x e) (
      insert-IsFiled cid (set_stream stream tx x) n.circuits
          (own_cid-set_stream stream tx x ∙ v cid x e) v,
      g,
    )
  ]

  send_on-IsSound :
      (h : CircuitHandle) (stream : ℕ) (r : RCmd) (msg : Bytes) (n : Node)
      → IsSound f n
      → IsSound f (send_on c snd h stream r msg n).1
  send_on-IsSound h stream r msg n v = elim (Option-cases (origin_next (lookup h.cid n.circuits))) [
    | inl e ↦ rw (send_on_closed c snd h stream r msg n e) v
    | inr (next, e) ↦ rw (send_on_open c snd h stream r msg n next e) v
  ]

  echo-IsSound :
      (h : CircuitHandle) (tx : ℕ) (msg : Bytes) (n : Node)
      → IsSound f n
      → IsSound f (ask_echo c snd h tx msg n).1
  unfolding ask_echo
  echo-IsSound h tx msg n v = elim (Bool-cases (ltb msg_max (length msg))) [
    | inl long ↦ rw long v
    | inr short ↦ rw short (send_on-IsSound h 1 echo msg _ (register-IsSound h.cid 1 tx n v))
  ]

  message-IsSound :
      (h : CircuitHandle) (msg : Bytes) (stream : ℕ) (n : Node)
      → IsSound f n
      → IsSound f (send_message c snd h msg stream n).1
  unfolding send_message
  message-IsSound h msg stream n v = elim (Bool-cases (ltb msg_max (length msg))) [
    | inl long ↦ rw long v
    | inr short ↦ rw short (send_on-IsSound h stream _ msg n v)
  ]

  close-IsSound : (h : CircuitHandle) (n : Node) → IsSound f n → IsSound f (close h n).0
  close-IsSound h n (v, g) = elim (Option-cases (origin_next (lookup h.cid n.circuits))) [
    | inl e ↦ rw (close_closed c snd h n e) (v, g)
    | inr (next, e) ↦ rw (close_open c snd h n next e) (remove-IsFiled h.cid n.circuits v, g)
  ]

  settle-IsSound :
      (woken : Bool) (s : Started) (n : Node) → IsSound f n → IsSound f (settle woken s n).1
  unfolding settle
  settle-IsSound true s n (v, g) = (insert-IsFiled s.cid (origin_entry s) n.circuits refl v, g)
  settle-IsSound false s n v = v

  depart-IsSound :
      (ds : List Descriptor) (n : Node) (rng : a.Rng)
      → IsSound f n
      → IsSound f (depart f c a ds n rng).1
  unfolding depart new_cid
  depart-IsSound ds n rng v =
      elim (Result-cases (build_header c a ds (a.fill_bytes 16 rng).0 (a.fill_bytes 16 rng).1).0) [
        | inr (e, h) ↦ rw (h, depart) v
        | inl (built, h) ↦ rw (h, depart) v
      ]

  start-IsSound :
      (route : List Bytes) (n : Node) (rng : a.Rng)
      → IsSound f n
      → IsSound f (start f c a route n rng).1
  unfolding start
  start-IsSound route n rng v =
      elim (Bool-cases ((length route == 0) || ltb max_hops (length route))) [
        | inl bad ↦ rw bad v
        | inr good ↦ elim (Result-cases (resolve f route n).0) [
          | inr (e, h) ↦ rw (good, h, start) (resolve-IsSound route n v)
          | inl (ds, h) ↦ rw (good, h, start) (depart-IsSound ds _ rng (resolve-IsSound route n v))
        ]
      ]

  counted-IsSound : (e : Option NetError) (n : Node) → IsSound f n → IsSound f (count_sent e n)
  counted-IsSound none n v = v
  counted-IsSound (some e) n v = v

  cover-IsSound : (i : ℕ) (n : Node) → IsSound f n → IsSound f (cover_turn c snd i n).0
  cover-IsSound i n v =
      cover_turn-keeps c snd (IsSound f) i n (λ e. counted-IsSound e n v)
        (λ m h w. message-IsSound h (replicate 64 0) 0 m w) v

  -- A node that has been spawned stays sound, in whatever order cells of anyone come, its own
  -- operations run and its cover traffic goes out: every circuit stands under the id of the link
  -- that its cells come in by, and the routing table is good for the search, if it was so for the
  -- node's own descriptor alone and the table's own task keeps it so.
  pub reached-IsSound :
      (id : Bytes) (own_desc : Descriptor) {n : Node}
      → f.IsGood (spawned id own_desc).dht
      → Reaches (spawned id own_desc) n
      → IsSound f n
  reached-IsSound id own_desc g begins = (spawned-IsFiled id own_desc, g)
  reached-IsSound id own_desc g (on_cell from cell r) =
      handle_cell-IsSound f c a identity from cell _ (reached-IsSound id own_desc g r)
  reached-IsSound id own_desc g (on_dht t keeps r) =
      let (v, good) = reached-IsSound id own_desc g r in (v, keeps good)
  reached-IsSound id own_desc g (on_start route rng r) =
      start-IsSound route _ rng (reached-IsSound id own_desc g r)
  reached-IsSound id own_desc g (on_await cid tx r) = reached-IsSound id own_desc g r
  reached-IsSound id own_desc g (on_settle woken s r) =
      settle-IsSound woken s _ (reached-IsSound id own_desc g r)
  reached-IsSound id own_desc g (on_echo h tx msg r) =
      echo-IsSound h tx msg _ (reached-IsSound id own_desc g r)
  reached-IsSound id own_desc g (on_message h msg stream r) =
      message-IsSound h msg stream _ (reached-IsSound id own_desc g r)
  reached-IsSound id own_desc g (on_cover i r) = cover-IsSound i _ (reached-IsSound id own_desc g r)
  reached-IsSound id own_desc g (on_close h r) = close-IsSound h _ (reached-IsSound id own_desc g r)
