-- ===== src/Fragment.antt =====
-- Fragmentation of long CREATE payloads (crates/nbf-net/src/cell.rs, `fragment`, `FragBuf` and
-- `reassemble`), and the part of `handle_create` in crates/nbf-net/src/node.rs that gathers the
-- fragments of a circuit. The map of buffers is an association list.
pub mod Slots
pub mod Pieces
pub mod Steps
pub mod Delivery
pub mod Ordered
use never_been_found.Prelude.{
  ℕ, zero, suc, ◌+◌, ◌-◌, ◌*◌, ◌/◌, ◌%◌, ◌^◌, min, max, Bool, true, false, Option, none, some, List,
  [], ◌∷◌, ◌++◌, map, length, get_elem?, set, slice, replicate, Bytes, to_le, ok, err, ltb, ◌==◌,
  if◌then◌else◌, Map, lookup, insert, remove, nat_eq,
}
use never_been_found.Cell.{cell_data, parse_frag}

abbrev pub chunk_size : ℕ
chunk_size = cell_data - 4

-- `payload.len().div_ceil(chunk).max(1) as u16`
unfoldable pub frag_count : Bytes → ℕ
frag_count payload = max ((length payload + (chunk_size - 1)) / chunk_size) 1 % 2 ^ 16

-- `&payload[a..b]` with `a = i * chunk` and `b = ((i + 1) * chunk).min(len)`
pub frag_piece : Bytes → ℕ → Bytes
frag_piece payload i =
    let a = i * chunk_size in
    let b = min ((i + 1) * chunk_size) (length payload) in slice a (b - a) payload

pub frag_at : Bytes → ℕ → Bytes
frag_at payload i = to_le 2 (frag_count payload) ++ (to_le 2 i ++ frag_piece payload i)

-- `(k..k + n)`
unfoldable pub range_from : ℕ → ℕ → List ℕ
range_from k zero = []
range_from k (suc n) = k ∷ range_from (suc k) n

pub fragment : Bytes → List Bytes
fragment payload = map (frag_at payload) (range_from 0 (frag_count payload))

pub record FragBuf : Type 0 where
  pub total : ℕ
  pub got : List (Option Bytes)
  pub count : ℕ

abbrev pub fresh : ℕ → FragBuf
fresh total = record { total = total; got = replicate total none; count = 0 }

-- `map.entry(cid).or_insert_with(..)`
pub entry_for : ℕ → ℕ → Map ℕ FragBuf → FragBuf
entry_for cid total m = elim (lookup cid m) [ none ↦ fresh total | some fb ↦ fb ]

-- A fragment with another total starts the buffer anew.
pub fit_total : ℕ → FragBuf → FragBuf
fit_total total fb = if fb.total == total then fb else fresh total

-- `i < fb.got.len() && fb.got[i].is_none()`
abbrev pub is_free : Option (Option Bytes) → Bool
is_free (some none) = true
is_free (some (some c)) = false
is_free none = false

pub place : ℕ → Bytes → FragBuf → FragBuf
place i chunk fb =
    if is_free (get_elem? fb.got i)
    then record fb { got = set fb.got i (some chunk); count = fb.count + 1 }
    else fb

-- The loop over `drain(..)`, with the early return of `slot?`.
pub gather : List (Option Bytes) → Option Bytes
gather [] = some []
gather (none ∷ slots) = none
gather (some c ∷ slots) = elim (gather slots) [ none ↦ none | some out ↦ some (c ++ out) ]

-- On an early return the buffer stays in the map, drained.
pub finish : ℕ → FragBuf → Map ℕ FragBuf → Option Bytes × Map ℕ FragBuf
finish cid fb m =
    if fb.count == fb.total
    then elim (gather fb.got) [
      | none ↦ (none, insert cid (record fb { got = [] }) m)
      | some out ↦ (some out, remove cid m)
    ]
    else (none, insert cid fb m)

pub reassemble : ℕ → ℕ → ℕ → Bytes → Map ℕ FragBuf → Option Bytes × Map ℕ FragBuf
unfolding finish
reassemble cid idx total chunk m =
    finish cid (place idx chunk (fit_total total (entry_for cid total m))) m

-- The head of `handle_create`: a CREATE payload goes into the buffer of its circuit.
pub collect : ℕ → Bytes → Map ℕ FragBuf → Option Bytes × Map ℕ FragBuf
collect cid payload m = elim (parse_frag payload) [
  | err e ↦ (none, m)
  | ok (total, idx, chunk) ↦ reassemble cid idx total chunk m
]

-- What comes out of a head, if anything, and what comes out later.
abbrev pub put_out : Option Bytes → List Bytes → List Bytes
put_out none later = later
put_out (some out) later = out ∷ later

-- CREATE payloads of one circuit that arrive one after the other: all messages that come out, and
-- the buffers that are left.
pub deliver : ℕ → List Bytes → Map ℕ FragBuf → List Bytes × Map ℕ FragBuf
deliver cid [] m = ([], m)
deliver cid (payload ∷ rest) m =
    let r = collect cid payload m in
    let later = deliver cid rest r.1 in (put_out r.0 later.0, later.1)
