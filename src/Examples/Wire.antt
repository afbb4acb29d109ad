-- ===== src/Examples/Wire.antt =====
-- Cells, fragments, replay numbers and onions at concrete inputs.
use never_been_found.Prelude.{
  ℕ, zero, suc, sym, eq_or_ne, length-replicate, slice, drop, from_le, ◌+◌, ◌<◌, ◌≤◌, ◌≡◌, refl,
  inl, inr, some, [], ◌∷◌, map, length, take, replicate, All, Bytes, IsByte, ok, arith, lookup,
  nat_eq,
}
use never_been_found.Cell.{Cell, create, encode, decode, cmd_try_from}
use never_been_found.Cell.RoundTrip.{IsCell, decode-encode}
use never_been_found.Cell.Sound.{decode_sound}
use never_been_found.Fragment.{frag_count, frag_at, deliver}
use never_been_found.Fragment.Delivery.{Occurs, Completes, deliver-fragment}
use never_been_found.Fragment.Pieces.{Fits}
use never_been_found.Replay.{accepted}
use never_been_found.Onion.{seal_onion, open_onion}
use never_been_found.Onion.Layers.{open_onion-seal_onion}
use never_been_found.Replay.{new, records, accepted-records}
use never_been_found.Examples.Toy.{suite}

abbrev small : Cell
small = record { cid = 7; cmd = create; flags = 0; payload = 1 ∷ 2 ∷ 3 ∷ [] }

small-IsCell : IsCell small
small-IsCell = record { cid_u32 = omega arith; flags_u8 = omega arith; fits = omega arith }

decode-encode_example :
    (w : Bytes) × (encode small ≡ some w) × (length w ≡ 1280) × (decode w ≡ ok small)
decode-encode_example = decode-encode small small-IsCell

abbrev blank : Cell
blank = record { cid = 0; cmd = create; flags = 0; payload = [] }

abbrev datagram : Bytes
datagram = 0 ∷ 0 ∷ 0 ∷ 0 ∷ 1 ∷ 0 ∷ 0 ∷ 0 ∷ replicate 1272 9

All-replicate : (n b : ℕ) → IsByte b → All IsByte (replicate n b)
unfolding replicate
All-replicate zero b h = tt
All-replicate (suc n) b h = (h, All-replicate n b h)

datagram_bytes : All IsByte datagram
datagram_bytes = ground (arith, All-replicate 1272 9 (omega arith))

datagram_decodes : decode datagram ≡ ok blank
unfolding decode cmd_try_from slice from_le drop take replicate
datagram_decodes = refl

decode_sound_example :
    IsCell blank
    × (length datagram ≡ 1280)
    × (w : Bytes) × (encode blank ≡ some w)
    × (take (8 + length blank.payload) w ≡ take (8 + length blank.payload) datagram)
decode_sound_example = decode_sound datagram blank datagram_bytes datagram_decodes

abbrev tag_0 : Bytes
tag_0 = replicate 16 1

open_onion-seal_onion_example :
    open_onion suite (4 ∷ []) tag_0 1 (seal_onion suite ((4 ∷ []) ∷ (5 ∷ []) ∷ []) tag_0 1 (9 ∷ []))
    ≡ ok (seal_onion suite ((5 ∷ []) ∷ []) tag_0 1 (9 ∷ []))
open_onion-seal_onion_example =
    open_onion-seal_onion suite (4 ∷ []) ((5 ∷ []) ∷ []) tag_0 1 (9 ∷ [])

-- A payload of two fragments.
abbrev long : Bytes
long = replicate 1300 5

count_long : frag_count long ≡ 2
unfolding frag_count
count_long = rw (length-replicate {A = ℕ} 1300 5)

long-Fits : Fits long
long-Fits = omega (arith, length-replicate {A = ℕ} 1300 5)

All-below : All (λ i. i < frag_count long) (1 ∷ 1 ∷ 0 ∷ 1 ∷ [])
All-below = (
  omega (arith, count_long),
  (omega (arith, count_long), (omega (arith, count_long), (omega (arith, count_long), tt))),
)

all_there : (i : ℕ) → i < frag_count long → Occurs i (1 ∷ 1 ∷ 0 ∷ 1 ∷ [])
all_there i h = elim (eq_or_ne i 1) [
  | inl e ↦ inl (sym e)
  | inr ne ↦ inr (inr (inl (omega (arith, count_long))))
]

deliver-fragment_example :
    (v : Completes long 7 (1 ∷ 1 ∷ 0 ∷ 1 ∷ []) []) × (frag_count long ≤ length v.before + 1)
    × All (λ out. out ≡ long) (deliver 7 (map (frag_at long) (1 ∷ 1 ∷ 0 ∷ 1 ∷ [])) []).0
unfolding lookup
deliver-fragment_example =
    deliver-fragment long 7 (1 ∷ 1 ∷ 0 ∷ 1 ∷ []) [] long-Fits All-below all_there refl

accepted-records_example : accepted new (3 ∷ 1 ∷ 5 ∷ []) ≡ records [] (3 ∷ 1 ∷ 5 ∷ [])
accepted-records_example =
    accepted-records (3 ∷ 1 ∷ 5 ∷ []) (omega arith, (omega arith, (omega arith, tt)))
