-- ===== src/Cli/Draws.antt =====
-- Drawing hops out of a pool of ids (crates/nbf-cli/src/demo.rs, `send_once`).
use never_been_found.Prelude.{
  ℕ, zero, suc, ◌≤◌, ◌<◌, ◌≡◌, ◌≢◌, refl, sym, inl, inr, Bool-cases, Option, some, List, [], ◌∷◌,
  ◌++◌, map, length, All, NoRepeat, Bytes, bytes_eq, bytes_eq_iff, bytes_eq_inst, arith,
}
use never_been_found.Addr.{SocketAddr}
use never_been_found.Cli.{Gen, pool_of, remove_at, draw_hops}

-- What taking one of a list comes to: it was there, and the others are left.
data Taken (xs : List Bytes) (r : Option (Bytes × List Bytes)) : Type 1 where
  taken :
      (y : Bytes) (rest : List Bytes)
      → r ≡ some (y, rest)
      → length xs ≡ suc (length rest)
      → ((P : Bytes → Type 0) → All P xs → P y × All P rest)
      → (NoRepeat xs → NoRepeat (y ∷ rest))
      → Taken xs r

remove_at-Taken : (i : ℕ) (xs : List Bytes) → i < length xs → Taken xs (remove_at i xs)
unfolding remove_at
remove_at-Taken i [] h = absurd (omega arith)
remove_at-Taken zero (x ∷ xs) h = taken x xs refl refl (λ P p. p) (λ d. d)
remove_at-Taken (suc i) (x ∷ xs) h = elim (remove_at-Taken i xs (omega arith)) [
  | taken y rest e size all distinct ↦
      rw (e, remove_at)
        (taken y (x ∷ rest) refl (omega arith) (λ P p. let q = all P p.1 in (q.0, (p.0, q.1)))
          (λ d.
            let q = all (λ z. x ≢ z) d.0 in
            let later = distinct d.1 in (((λ same. q.0 (sym same)), later.0), (q.1, later.1))))
]

-- What a number of draws come to.
pub data Drawn {S : Type 0} (k : ℕ) (pool : List Bytes) (r : Option (List Bytes × S)) : Type 1 where
  drawn :
      (hops : List Bytes) (s : S)
      → r ≡ some (hops, s)
      → length hops ≡ k
      → ((P : Bytes → Type 0) → All P pool → All P hops)
      → (NoRepeat pool → NoRepeat hops)
      → Drawn k pool r

pub draw_hops-Drawn :
    (g : Gen) (k : ℕ) (pool : List Bytes) (s : g.State)
    → k ≤ length pool
    → Drawn k pool (draw_hops g k pool s)
unfolding draw_hops
draw_hops-Drawn g zero pool s h = drawn [] s refl refl (λ P p. tt) (λ d. tt)
draw_hops-Drawn g (suc k) pool s h =
    let r = g.gen_range (length pool) s in
    elim (remove_at-Taken r.0 pool (g.gen_range_lt (length pool) s (omega arith))) [
      | taken y rest e size all distinct ↦ elim (draw_hops-Drawn g k rest r.1 (omega arith)) [
        | drawn hops s' e' size' all' distinct' ↦
            rw (e, e', draw_hops)
              (drawn (y ∷ hops) s' refl (omega arith) (λ P p. let q = all P p in (q.0, all' P q.1))
                (λ d. let q = distinct d in (all' (λ z. y ≢ z) q.0, distinct' q.1)))
      ]
    ]

abbrev pub ids_of : List (Bytes × SocketAddr × Bytes) → List Bytes
ids_of = map (λ p. p.0)

module _ (P : Bytes → Type 0) (target : Bytes) where
  pub pool_of-All :
      (ps : List (Bytes × SocketAddr × Bytes)) → All P (ids_of ps) → All P (pool_of target ps)
  unfolding pool_of
  pool_of-All [] p = tt
  pool_of-All (p ∷ ps) (h, hs) = elim (Bool-cases (bytes_eq p.0 target)) [
    | inl same ↦ rw same (pool_of-All ps hs)
    | inr other ↦ rw other (h, pool_of-All ps hs)
  ]

pub pool_of-other :
    (target : Bytes) (ps : List (Bytes × SocketAddr × Bytes))
    → All (λ x. x ≢ target) (pool_of target ps)
unfolding pool_of
pool_of-other target [] = tt
pool_of-other target (p ∷ ps) = elim (Bool-cases (bytes_eq p.0 target)) [
  | inl same ↦ rw same (pool_of-other target ps)
  | inr other ↦ rw other ((λ e. cc ((bytes_eq_iff p.0 target).1 e)), pool_of-other target ps)
]

pub pool_of-NoRepeat :
    (target : Bytes) (ps : List (Bytes × SocketAddr × Bytes))
    → NoRepeat (ids_of ps)
    → NoRepeat (pool_of target ps)
unfolding pool_of
pool_of-NoRepeat target [] d = tt
pool_of-NoRepeat target (p ∷ ps) (o, d) = elim (Bool-cases (bytes_eq p.0 target)) [
  | inl same ↦ rw same (pool_of-NoRepeat target ps d)
  | inr other ↦ rw other (pool_of-All (λ y. p.0 ≢ y) target ps o, pool_of-NoRepeat target ps d)
]

pub NoRepeat-last :
    (target : Bytes) (xs : List Bytes)
    → NoRepeat xs
    → All (λ x. x ≢ target) xs
    → NoRepeat (xs ++ (target ∷ []))
NoRepeat-last target [] d o = (tt, tt)
NoRepeat-last target (x ∷ xs) d o = (add xs d.0, NoRepeat-last target xs d.1 o.1)
  where
    add : (ys : List Bytes) → All (λ y. x ≢ y) ys → All (λ y. x ≢ y) (ys ++ (target ∷ []))
    add [] a = (o.0, tt)
    add (y ∷ ys) a = (a.0, add ys a.1)
