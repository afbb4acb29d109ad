-- ===== src/Kademlia/Table.antt =====
-- The routing table after a merge (crates/nbf-dht/src/kademlia.rs, `try_merge` and `closest`).
use never_been_found.Prelude.{
  ℕ, zero, suc, ◌≤◌, ◌≡◌, ◌≢◌, refl, sym, ap, ◌∙◌, ◌⊎◌, inl, inr, true, false, Bool-cases, List, [],
  ◌∷◌, ◌++◌, length, length-take, All, take, min, Bytes, bytes_eq, bytes_eq_iff, arith,
}
use never_been_found.Rpc.{Contact}
use never_been_found.Kademlia.{
  Kademlia, table_max, dist, vec_leb, insert_near, sort_near, closest, has_id, merge_all, try_merge,
}

vec_leb_total : (xs ys : Bytes) → (vec_leb xs ys ≡ true) ⊎ (vec_leb ys xs ≡ true)
unfolding vec_leb
vec_leb_total [] ys = inl refl
vec_leb_total (x ∷ xs) [] = inr refl
vec_leb_total (x ∷ xs) (y ∷ ys) = ground (arith, vec_leb_total xs ys)

other_way : (xs ys : Bytes) → vec_leb xs ys ≡ false → vec_leb ys xs ≡ true
other_way xs ys e = elim (vec_leb_total xs ys) [ inl h ↦ cc | inr h ↦ h ]

abbrev Other : Bytes → Contact → Type 0
Other id x = x.node_id ≢ id

-- No two contacts of one id.
abbrev pub Distinct : List Contact → Type 0
Distinct [] = Unit {0}
Distinct (x ∷ xs) = All (Other x.node_id) xs × Distinct xs

abbrev Above : Bytes → Bytes → List Contact → Type 0
Above key d [] = Unit {0}
Above key d (x ∷ xs) = vec_leb d (dist x.node_id key) ≡ true

-- Nearest first.
abbrev pub Nearest : Bytes → List Contact → Type 0
Nearest key [] = Unit {0}
Nearest key (x ∷ xs) = Above key (dist x.node_id key) xs × Nearest key xs

pub All-insert_near :
    (P : Contact → Type 0) (key : Bytes) (c : Contact) (xs : List Contact)
    → P c
    → All P xs
    → All P (insert_near key c xs)
unfolding insert_near
All-insert_near P key c [] p ps = (p, tt)
All-insert_near P key c (x ∷ xs) p (px, ps) =
    let later = All-insert_near P key c xs p ps in
    elim (Bool-cases (vec_leb (dist c.node_id key) (dist x.node_id key))) [
      | inl e ↦ rw e (p, (px, ps))
      | inr e ↦ rw e (px, later)
    ]

pub All-sort_near :
    (P : Contact → Type 0) (key : Bytes) (xs : List Contact) → All P xs → All P (sort_near key xs)
unfolding sort_near
All-sort_near P key [] ps = tt
All-sort_near P key (x ∷ xs) (p, ps) =
    All-insert_near P key x (sort_near key xs) p (All-sort_near P key xs ps)

insert_near-Distinct :
    (key : Bytes) (c : Contact) (xs : List Contact)
    → All (Other c.node_id) xs
    → Distinct xs
    → Distinct (insert_near key c xs)
unfolding insert_near
insert_near-Distinct key c [] o h = (tt, tt)
insert_near-Distinct key c (x ∷ xs) (ox, o) (hx, h) =
    let later = insert_near-Distinct key c xs o h in
    elim (Bool-cases (vec_leb (dist c.node_id key) (dist x.node_id key))) [
      | inl e ↦ rw e ((ox, o), (hx, h))
      | inr e ↦ rw e (All-insert_near (Other x.node_id) key c xs (λ same. ox (sym same)) hx, later)
    ]

sort_near-Distinct : (key : Bytes) (xs : List Contact) → Distinct xs → Distinct (sort_near key xs)
unfolding sort_near
sort_near-Distinct key [] h = tt
sort_near-Distinct key (x ∷ xs) (hx, h) =
    insert_near-Distinct key x (sort_near key xs) (All-sort_near (Other x.node_id) key xs hx)
      (sort_near-Distinct key xs h)

Above-insert_near :
    (key d : Bytes) (c : Contact) (xs : List Contact)
    → vec_leb d (dist c.node_id key) ≡ true
    → Above key d xs
    → Above key d (insert_near key c xs)
unfolding insert_near
Above-insert_near key d c [] hc h = hc
Above-insert_near key d c (x ∷ xs) hc h =
    elim (Bool-cases (vec_leb (dist c.node_id key) (dist x.node_id key))) [
      | inl e ↦ rw e hc
      | inr e ↦ rw e h
    ]

insert_near-Nearest :
    (key : Bytes) (c : Contact) (xs : List Contact)
    → Nearest key xs
    → Nearest key (insert_near key c xs)
unfolding insert_near
insert_near-Nearest key c [] h = (tt, tt)
insert_near-Nearest key c (x ∷ xs) (hx, h) =
    let later = insert_near-Nearest key c xs h in
    let swapped = other_way (dist c.node_id key) (dist x.node_id key) in
    elim (Bool-cases (vec_leb (dist c.node_id key) (dist x.node_id key))) [
      | inl e ↦ rw e (e, (hx, h))
      | inr e ↦ rw e (Above-insert_near key (dist x.node_id key) c xs (swapped e) hx, later)
    ]

pub sort_near-Nearest : (key : Bytes) (xs : List Contact) → Nearest key (sort_near key xs)
unfolding sort_near
sort_near-Nearest key [] = tt
sort_near-Nearest key (x ∷ xs) =
    insert_near-Nearest key x (sort_near key xs) (sort_near-Nearest key xs)

pub All-take : (P : Contact → Type 0) (n : ℕ) (xs : List Contact) → All P xs → All P (take n xs)
unfolding take
All-take P zero xs h = tt
All-take P (suc n) [] h = tt
All-take P (suc n) (x ∷ xs) (p, h) = (p, All-take P n xs h)

take-Distinct : (n : ℕ) (xs : List Contact) → Distinct xs → Distinct (take n xs)
unfolding take
take-Distinct zero xs h = tt
take-Distinct (suc n) [] h = tt
take-Distinct (suc n) (x ∷ xs) (o, h) = (All-take (Other x.node_id) n xs o, take-Distinct n xs h)

Above-take : (key d : Bytes) (n : ℕ) (xs : List Contact) → Above key d xs → Above key d (take n xs)
unfolding take
Above-take key d zero xs h = tt
Above-take key d (suc n) [] h = tt
Above-take key d (suc n) (x ∷ xs) h = h

take-Nearest : (key : Bytes) (n : ℕ) (xs : List Contact) → Nearest key xs → Nearest key (take n xs)
unfolding take
take-Nearest key zero xs h = tt
take-Nearest key (suc n) [] h = tt
take-Nearest key (suc n) (x ∷ xs) (o, h) =
    (Above-take key (dist x.node_id key) n xs o, take-Nearest key n xs h)

has_id-false : (id : Bytes) (xs : List Contact) → has_id id xs ≡ false → All (Other id) xs
unfolding has_id
has_id-false id [] e = tt
has_id-false id (x ∷ xs) e =
    let not_here : x.node_id ≢ id = ground (arith, bytes_eq_iff x.node_id id) in
    (not_here, has_id-false id xs (ground arith))

snoc-Distinct :
    (c : Contact) (xs : List Contact)
    → All (Other c.node_id) xs
    → Distinct xs
    → Distinct (xs ++ (c ∷ []))
snoc-Distinct c [] o h = (tt, tt)
snoc-Distinct c (x ∷ xs) (ox, o) (hx, h) =
    (snoc-All (Other x.node_id) xs hx (λ same. ox (sym same)), snoc-Distinct c xs o h)
  where
    snoc-All : (P : Contact → Type 0) (ys : List Contact) → All P ys → P c → All P (ys ++ (c ∷ []))
    snoc-All P [] hs p = (p, tt)
    snoc-All P (y ∷ ys) (q, hs) p = (q, snoc-All P ys hs p)

merge_all-Distinct :
    (id : Bytes) (rt cs : List Contact) → Distinct rt → Distinct (merge_all id rt cs)
unfolding merge_all
merge_all-Distinct id rt [] h = h
merge_all-Distinct id rt (c ∷ cs) h = elim (Bool-cases (bytes_eq c.node_id id)) [
  | inl own ↦ rw own (merge_all-Distinct id rt cs h)
  | inr other ↦ elim (Bool-cases (has_id c.node_id rt)) [
    | inl known ↦ rw (other, known) (merge_all-Distinct id rt cs h)
    | inr fresh ↦
        rw (other, fresh)
          (merge_all-Distinct id (rt ++ (c ∷ [])) cs
            (snoc-Distinct c rt (has_id-false c.node_id rt fresh) h))
  ]
]

-- At most 64 contacts, no two of one id, nearest to the own id first.
pub record IsTable (t : Kademlia) : Type 0 where
  pub size : length t.rt ≤ table_max
  pub distinct : Distinct t.rt
  pub nearest : Nearest t.id t.rt

-- Whatever contacts are merged into a table in order, it has at most 64 contacts, no two of one
-- id, and they stand nearest to its own id first.
pub try_merge-IsTable : (cs : List Contact) (t : Kademlia) → IsTable t → IsTable (try_merge cs t)
unfolding try_merge
try_merge-IsTable cs t v =
    let all = merge_all t.id t.rt cs in
    record {
      size = omega (arith, length-take table_max (sort_near t.id all));
      distinct =
          take-Distinct table_max _
            (sort_near-Distinct t.id all (merge_all-Distinct t.id t.rt cs v.distinct));
      nearest = take-Nearest t.id table_max _ (sort_near-Nearest t.id all);
    }

length-insert_near :
    (key : Bytes) (c : Contact) (xs : List Contact)
    → length (insert_near key c xs) ≡ suc (length xs)
unfolding insert_near
length-insert_near key c [] = refl
length-insert_near key c (x ∷ xs) =
    let later = length-insert_near key c xs in
    elim (Bool-cases (vec_leb (dist c.node_id key) (dist x.node_id key))) [
      | inl e ↦ rw e refl
      | inr e ↦ rw e (ap suc later)
    ]

length-sort_near : (key : Bytes) (xs : List Contact) → length (sort_near key xs) ≡ length xs
unfolding sort_near
length-sort_near key [] = refl
length-sort_near key (x ∷ xs) =
    length-insert_near key x (sort_near key xs) ∙ ap suc (length-sort_near key xs)

-- For every key, `k` contacts of a table in order are returned, or as many as the table has where
-- those are fewer: no two of one id, and the nearest to the key first.
pub closest-Nearest :
    (key : Bytes) (k : ℕ) (t : Kademlia)
    → IsTable t
    → (length (closest key k t) ≡ min k (length t.rt))
      × Distinct (closest key k t)
      × Nearest key (closest key k t)
unfolding closest
closest-Nearest key k t v = (
  omega (arith, length-take k (sort_near key t.rt), length-sort_near key t.rt),
  take-Distinct k _ (sort_near-Distinct key t.rt v.distinct),
  take-Nearest key k _ (sort_near-Nearest key t.rt),
)
