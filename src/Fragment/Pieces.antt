-- ===== src/Fragment/Pieces.antt =====
-- The pieces of a payload, in order, are the payload.
use never_been_found.Prelude.{
  take, length-take, List, ◌∷◌, map, All, chunk_at, chunks_from, chunks_from-drop, ℕ, zero, suc,
  ◌*◌, ◌^◌, ◌≤◌, ◌<◌, ◌≡◌, refl, ap, ◌∙◌, [], ◌++◌, length, drop, slice, Bytes, to_le, arith,
  from_le-to_le, length-to_le, slice-here, slice-skip, drop-append, drop_zero, ok, length-append,
  le→ltb,
}
use never_been_found.Cell.{cell_data, parse_frag}
use never_been_found.Fragment.{frag_count, frag_piece, frag_at, fragment, range_from, chunk_size}

-- What fragmentation can carry: at most 65535 fragments.
abbrev pub Fits : Bytes → Type 0
Fits payload = length payload ≤ 65535 * chunk_size

-- The pieces `k`, …, `k + m - 1`, one after the other.
unfoldable pub pieces : Bytes → ℕ → ℕ → Bytes
pieces p k zero = []
pieces p k (suc m) = frag_piece p k ++ pieces p (suc k) m

pieces-chunks_from : (p : Bytes) (k m : ℕ) → pieces p k m ≡ chunks_from chunk_size p k m
unfolding pieces chunks_from frag_piece
pieces-chunks_from p k zero = refl
pieces-chunks_from p k (suc m) =
    ap (◌++◌ (chunk_at chunk_size p k)) (pieces-chunks_from p (suc k) m)

pub count_bounds :
    (p : Bytes)
    → Fits p
    → (1 ≤ frag_count p) × (frag_count p < 2 ^ 16) × (length p ≤ frag_count p * chunk_size)
unfolding frag_count
count_bounds p h = (omega arith, omega arith, omega arith)

pub pieces_all : (p : Bytes) → Fits p → pieces p 0 (frag_count p) ≡ p
pieces_all p h =
    pieces-chunks_from p 0 (frag_count p)
    ∙ chunks_from-drop chunk_size p 0 (frag_count p) (omega (arith, (count_bounds p h).2))
    ∙ drop_zero p

-- A fragment is parsed into what it was made of.
pub parse_frag-frag_at :
    (p : Bytes) (i : ℕ)
    → Fits p
    → i < frag_count p
    → parse_frag (frag_at p i) ≡ ok (frag_count p, i, frag_piece p i)
unfolding frag_at parse_frag
parse_frag-frag_at p i h hi = rw (
  le→ltb _ _ long,
  fst,
  snd,
  body,
  from_le-to_le 2 (frag_count p) (omega (arith, count_bounds p h)),
  from_le-to_le 2 i (omega (arith, count_bounds p h)),
)
  where
    n : ℕ
    n = frag_count p

    c : Bytes
    c = frag_piece p i

    long : 4 ≤ length (to_le 2 n ++ (to_le 2 i ++ c))
    long = omega (
      arith,
      length-append (to_le 2 n) (to_le 2 i ++ c),
      length-append (to_le 2 i) c,
      length-to_le 2 n,
      length-to_le 2 i,
    )

    fst : slice 0 2 (to_le 2 n ++ (to_le 2 i ++ c)) ≡ to_le 2 n
    fst = slice-here 2 (to_le 2 n) _ (length-to_le 2 n)

    snd : slice 2 2 (to_le 2 n ++ (to_le 2 i ++ c)) ≡ to_le 2 i
    snd =
        slice-skip 2 2 2 (to_le 2 n) _ (length-to_le 2 n) (omega arith)
        ∙ slice-here 2 (to_le 2 i) c (length-to_le 2 i)

    body : drop 4 (to_le 2 n ++ (to_le 2 i ++ c)) ≡ c
    body =
        drop-append 4 2 (to_le 2 n) _ (length-to_le 2 n) (omega arith)
        ∙ drop-append 2 2 (to_le 2 i) c (length-to_le 2 i) (omega arith)
        ∙ drop_zero c

-- Whatever is cut, each fragment is the payload of a cell.
pub fragment_short : (p : Bytes) → All (λ part. length part ≤ cell_data) (fragment p)
unfolding fragment frag_at frag_piece slice
fragment_short p = each (range_from 0 (frag_count p))
  where
    short :
        (i k : ℕ) (ys : Bytes)
        → k ≤ chunk_size
        → length (to_le 2 (frag_count p) ++ (to_le 2 i ++ take k ys)) ≤ cell_data
    short i k ys h = omega (
      arith,
      length-append (to_le 2 (frag_count p)) (to_le 2 i ++ take k ys),
      length-append (to_le 2 i) (take k ys),
      length-to_le 2 (frag_count p),
      length-to_le 2 i,
      length-take k ys,
    )

    each : (is : List ℕ) → All (λ part. length part ≤ cell_data) (map (frag_at p) is)
    each [] = tt
    each (i ∷ is) = (short i _ (drop (i * chunk_size) p) (omega arith), each is)
