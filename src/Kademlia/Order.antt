-- ===== src/Kademlia/Order.antt =====
-- The contacts that are left out are no nearer (crates/nbf-dht/src/kademlia.rs, `closest` and
-- `try_merge`).
use never_been_found.Prelude.{
  ℕ, zero, suc, ◌≡◌, refl, subst, ◌⊎◌, inl, inr, true, Bool-cases, List, [], ◌∷◌, ◌++◌, length,
  take, min, All, Bytes, bytes_eq, arith,
}
use never_been_found.Rpc.{Contact}
use never_been_found.Kademlia.{
  Kademlia, table_max, dist, vec_leb, insert_near, sort_near, closest, has_id, merge_all, try_merge,
}
use never_been_found.Kademlia.Contacts.{closest-All}
use never_been_found.Kademlia.Table.{IsTable, Distinct, Nearest, sort_near-Nearest, closest-Nearest}

vec_leb_trans :
    (xs ys zs : Bytes) → vec_leb xs ys ≡ true → vec_leb ys zs ≡ true → vec_leb xs zs ≡ true
unfolding vec_leb
vec_leb_trans [] ys zs e f = refl
vec_leb_trans (x ∷ xs) [] zs e f = cc
vec_leb_trans (x ∷ xs) (y ∷ ys) [] e f = cc
vec_leb_trans (x ∷ xs) (y ∷ ys) (z ∷ zs) e f = ground (arith, vec_leb_trans xs ys zs)

-- As near as the other, at least.
abbrev pub NoFarther : Bytes → Contact → Contact → Type 0
NoFarther key x c = vec_leb (dist x.node_id key) (dist c.node_id key) ≡ true

abbrev pub In : Contact → List Contact → Type 0
In c [] = ⊥
In c (x ∷ xs) = (x ≡ c) ⊎ In c xs

In-insert_near :
    (key : Bytes) (c x : Contact) (xs : List Contact)
    → (x ≡ c) ⊎ In c xs
    → In c (insert_near key x xs)
unfolding insert_near
In-insert_near key c x [] i = i
In-insert_near key c x (y ∷ ys) i =
    elim (Bool-cases (vec_leb (dist x.node_id key) (dist y.node_id key))) [
      | inl e ↦ rw e i
      | inr e ↦ rw e (elim i [
        | inl here ↦ inr (In-insert_near key c x ys (inl here))
        | inr (inl front) ↦ inl front
        | inr (inr later) ↦ inr (In-insert_near key c x ys (inr later))
      ])
    ]

In-sort_near : (key : Bytes) (c : Contact) (xs : List Contact) → In c xs → In c (sort_near key xs)
unfolding sort_near
In-sort_near key c [] i = absurd i
In-sort_near key c (x ∷ xs) (inl here) = In-insert_near key c x (sort_near key xs) (inl here)
In-sort_near key c (x ∷ xs) (inr later) =
    In-insert_near key c x (sort_near key xs) (inr (In-sort_near key c xs later))

-- The first of a list in order is no farther than any other.
first_NoFarther :
    (key : Bytes) (x c : Contact) (xs : List Contact)
    → Nearest key (x ∷ xs)
    → In c xs
    → NoFarther key x c
first_NoFarther key x c [] near i = absurd i
first_NoFarther key x c (y ∷ ys) (xy, ys_near) (inl here) = subst (NoFarther key x) here xy
first_NoFarther key x c (y ∷ ys) (xy, ys_near) (inr later) =
    vec_leb_trans (dist x.node_id key) (dist y.node_id key) (dist c.node_id key) xy
      (first_NoFarther key y c ys ys_near later)

take_best :
    (key : Bytes) (c : Contact) (n : ℕ) (xs : List Contact)
    → Nearest key xs
    → In c xs
    → In c (take n xs) ⊎ All (λ x. NoFarther key x c) (take n xs)
unfolding take
take_best key c zero xs near i = inr tt
take_best key c (suc n) [] near i = absurd i
take_best key c (suc n) (x ∷ xs) near (inl here) = inl (inl here)
take_best key c (suc n) (x ∷ xs) near (inr later) = elim (take_best key c n xs near.1 later) [
  | inl kept ↦ inl (inr kept)
  | inr best ↦ inr (first_NoFarther key x c xs near later, best)
]

All-In-cons :
    (y : Contact) (rt xs : List Contact) → All (λ x. In x rt) xs → All (λ x. In x (y ∷ rt)) xs
All-In-cons y rt [] h = tt
All-In-cons y rt (x ∷ xs) (i, h) = (inr i, All-In-cons y rt xs h)

All-In : (xs : List Contact) → All (λ x. In x xs) xs
All-In [] = tt
All-In (x ∷ xs) = (inl refl, All-In-cons x xs xs (All-In xs))

-- For every key and a table in order, `closest` returns `k` contacts, or as many as the table has
-- where those are fewer: all of them contacts of the table, no two of one id, nearest first, and each
-- at least as near as any contact of the table that is left out.
pub closest_best :
    (key : Bytes) (k : ℕ) (t : Kademlia)
    → IsTable t
    → (length (closest key k t) ≡ min k (length t.rt))
      × Distinct (closest key k t)
      × Nearest key (closest key k t)
      × All (λ x. In x t.rt) (closest key k t)
      × ((c : Contact)
          → In c t.rt
          → In c (closest key k t) ⊎ All (λ x. NoFarther key x c) (closest key k t))
unfolding closest
closest_best key k t v =
    let (size, distinct, near) = closest-Nearest key k t v in
    (
      size,
      distinct,
      near,
      closest-All (λ x. In x t.rt) key k t (All-In t.rt),
      λ c i.
          take_best key c k (sort_near key t.rt) (sort_near-Nearest key t.rt)
            (In-sort_near key c t.rt i),
    )

In-snoc : (c x : Contact) (xs : List Contact) → In c xs → In c (xs ++ (x ∷ []))
In-snoc c x [] i = absurd i
In-snoc c x (y ∷ ys) (inl here) = inl here
In-snoc c x (y ∷ ys) (inr later) = inr (In-snoc c x ys later)

In-merge_all :
    (id : Bytes) (c : Contact) (rt cs : List Contact) → In c rt → In c (merge_all id rt cs)
unfolding merge_all
In-merge_all id c rt [] i = i
In-merge_all id c rt (x ∷ xs) i = elim (Bool-cases (bytes_eq x.node_id id)) [
  | inl own ↦ rw own (In-merge_all id c rt xs i)
  | inr other ↦ elim (Bool-cases (has_id x.node_id rt)) [
    | inl known ↦ rw (other, known) (In-merge_all id c rt xs i)
    | inr fresh ↦ rw (other, fresh) (In-merge_all id c (rt ++ (x ∷ [])) xs (In-snoc c x rt i))
  ]
]

-- Whatever contacts are merged in, a contact of the table stays in it, or all that the table now
-- has are at least as near to its own id: contacts far away never push a near one out.
pub try_merge_best :
    (cs : List Contact) (t : Kademlia) (c : Contact)
    → In c t.rt
    → In c (try_merge cs t).rt ⊎ All (λ x. NoFarther t.id x c) (try_merge cs t).rt
unfolding try_merge
try_merge_best cs t c i =
    let all = merge_all t.id t.rt cs in
    take_best t.id c table_max (sort_near t.id all) (sort_near-Nearest t.id all)
      (In-sort_near t.id c all (In-merge_all t.id c t.rt cs i))
