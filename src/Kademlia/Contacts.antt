-- ===== src/Kademlia/Contacts.antt =====
-- What a merge and a choice keep of all contacts (crates/nbf-dht/src/kademlia.rs, `try_merge` and
-- `closest`).
use never_been_found.Prelude.{
  ℕ, ◌≤◌, inl, inr, Bool-cases, List, [], ◌∷◌, ◌++◌, length, length-take, All, Bytes, bytes_eq,
  arith,
}
use never_been_found.Rpc.{Contact}
use never_been_found.Kademlia.{
  Kademlia, table_max, sort_near, closest, merge_all, has_id, try_merge,
}
use never_been_found.Kademlia.Table.{All-sort_near, All-take}

merge_all-All :
    (P : Contact → Type 0) (id : Bytes) (rt cs : List Contact)
    → All P rt
    → All P cs
    → All P (merge_all id rt cs)
unfolding merge_all
merge_all-All P id rt [] h hs = h
merge_all-All P id rt (c ∷ cs) h (hc, hs) = elim (Bool-cases (bytes_eq c.node_id id)) [
  | inl own ↦ rw own (merge_all-All P id rt cs h hs)
  | inr other ↦ elim (Bool-cases (has_id c.node_id rt)) [
    | inl known ↦ rw (other, known) (merge_all-All P id rt cs h hs)
    | inr fresh ↦
        rw (other, fresh) (merge_all-All P id (rt ++ (c ∷ [])) cs (All-snoc P c rt h hc) hs)
  ]
]
  where
    All-snoc :
        (Q : Contact → Type 0) (x : Contact) (ys : List Contact)
        → All Q ys
        → Q x
        → All Q (ys ++ (x ∷ []))
    All-snoc Q x [] hy q = (q, tt)
    All-snoc Q x (y ∷ ys) (qy, hy) q = (qy, All-snoc Q x ys hy q)

-- What holds of the contacts of a table and of those merged into it holds of the table after.
pub try_merge-All :
    (P : Contact → Type 0) (cs : List Contact) (t : Kademlia)
    → All P t.rt
    → All P cs
    → All P (try_merge cs t).rt
unfolding try_merge
try_merge-All P cs t h hs =
    All-take P table_max _ (All-sort_near P t.id _ (merge_all-All P t.id t.rt cs h hs))

pub closest-All :
    (P : Contact → Type 0) (key : Bytes) (k : ℕ) (t : Kademlia)
    → All P t.rt
    → All P (closest key k t)
unfolding closest
closest-All P key k t h = All-take P k _ (All-sort_near P key t.rt h)

pub length-closest : (key : Bytes) (k : ℕ) (t : Kademlia) → length (closest key k t) ≤ k
unfolding closest
length-closest key k t = omega (arith, length-take k (sort_near key t.rt))
