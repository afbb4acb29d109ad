-- ===== src/Cell/Sound.antt =====
-- What an accepted datagram says (crates/nbf-net/src/cell.rs, `decode`).
use never_been_found.Prelude.{
  ℕ, suc, ◌+◌, ◌-◌, ◌≤◌, ◌≡◌, refl, sym, ap, ◌∙◌, some, [], ◌∷◌, ◌++◌, length, take, slice,
  replicate, Bytes, IsByte, All, length-take, to_le, from_le, to_le-from_le, from_le_bound, ok,
  arith, take-append, subst,
}
use never_been_found.Cell.{Cell, Cmd, cmd_code, cmd_try_from, cell_data, encode, decode}
use never_been_found.Cell.RoundTrip.{IsCell, layout, wire, encode-wire}

cmd_code-try_from : (v : ℕ) (c : Cmd) → cmd_try_from v ≡ ok c → cmd_code c ≡ v
unfolding cmd_try_from
cmd_code-try_from v c h = ground arith

-- The first eight bytes of a datagram by name.
record Front (b : Bytes) : Type 0 where
  b0 : ℕ
  b1 : ℕ
  b2 : ℕ
  b3 : ℕ
  b4 : ℕ
  b5 : ℕ
  b6 : ℕ
  b7 : ℕ
  rest : Bytes
  is : b ≡ b0 ∷ b1 ∷ b2 ∷ b3 ∷ b4 ∷ b5 ∷ b6 ∷ b7 ∷ rest

front : (b : Bytes) → 8 ≤ length b → Front b
front (b0 ∷ b1 ∷ b2 ∷ b3 ∷ b4 ∷ b5 ∷ b6 ∷ b7 ∷ rest) h = record {
  b0 = b0;
  b1 = b1;
  b2 = b2;
  b3 = b3;
  b4 = b4;
  b5 = b5;
  b6 = b6;
  b7 = b7;
  rest = rest;
  is = refl;
}
front [] h = absurd (omega arith)
front (a ∷ []) h = absurd (omega arith)
front (a ∷ b ∷ []) h = absurd (omega arith)
front (a ∷ b ∷ c ∷ []) h = absurd (omega arith)
front (a ∷ b ∷ c ∷ d ∷ []) h = absurd (omega arith)
front (a ∷ b ∷ c ∷ d ∷ e ∷ []) h = absurd (omega arith)
front (a ∷ b ∷ c ∷ d ∷ e ∷ f ∷ []) h = absurd (omega arith)
front (a ∷ b ∷ c ∷ d ∷ e ∷ f ∷ g ∷ []) h = absurd (omega arith)

decode_parts :
    (b0 b1 b2 b3 b4 b5 b6 b7 : ℕ) (rest : Bytes) (c : Cell)
    → decode (b0 ∷ b1 ∷ b2 ∷ b3 ∷ b4 ∷ b5 ∷ b6 ∷ b7 ∷ rest) ≡ ok c
    → (length rest ≡ 1272)
      × (from_le (b6 ∷ b7 ∷ []) ≤ 1272)
      × (c.cid ≡ from_le (b0 ∷ b1 ∷ b2 ∷ b3 ∷ []))
      × (cmd_code c.cmd ≡ b4)
      × (c.flags ≡ b5)
      × (c.payload ≡ take (from_le (b6 ∷ b7 ∷ [])) rest)
unfolding decode slice
decode_parts b0 b1 b2 b3 b4 b5 b6 b7 rest c h = ground (arith, cmd_code-try_from b4 c.cmd)

take_eight :
    (b0 b1 b2 b3 b4 b5 b6 b7 n : ℕ) (rest : Bytes)
    → take (8 + n) (b0 ∷ b1 ∷ b2 ∷ b3 ∷ b4 ∷ b5 ∷ b6 ∷ b7 ∷ rest)
      ≡ b0 ∷ b1 ∷ b2 ∷ b3 ∷ b4 ∷ b5 ∷ b6 ∷ b7 ∷ take n rest
take_eight b0 b1 b2 b3 b4 b5 b6 b7 n rest =
    let e : 8 + n ≡ suc (suc (suc (suc (suc (suc (suc (suc n))))))) = omega arith in
    rw e (unfold take in refl)

wire_front :
    (b0 b1 b2 b3 b4 b5 b6 b7 : ℕ) (c : Cell) (n : ℕ)
    → All IsByte (b0 ∷ b1 ∷ b2 ∷ b3 ∷ [])
    → All IsByte (b6 ∷ b7 ∷ [])
    → length c.payload ≡ n
    → n ≡ from_le (b6 ∷ b7 ∷ [])
    → c.cid ≡ from_le (b0 ∷ b1 ∷ b2 ∷ b3 ∷ [])
    → cmd_code c.cmd ≡ b4
    → c.flags ≡ b5
    → take (8 + n) (wire c) ≡ b0 ∷ b1 ∷ b2 ∷ b3 ∷ b4 ∷ b5 ∷ b6 ∷ b7 ∷ c.payload
wire_front b0 b1 b2 b3 b4 b5 b6 b7 c n h4 h2 hn en ec ek ef =
    rw (hn, ec, ek, ef, to_le-from_le (b0 ∷ b1 ∷ b2 ∷ b3 ∷ []) h4)
      (subst
        (λ l.
          take (8 + n)
            (layout (b0 ∷ b1 ∷ b2 ∷ b3 ∷ []) b4 b5 l c.payload (replicate (cell_data - n) 0))
          ≡ b0 ∷ b1 ∷ b2 ∷ b3 ∷ b4 ∷ b5 ∷ b6 ∷ b7 ∷ c.payload)
        (sym (ap (to_le 2) en ∙ to_le-from_le (b6 ∷ b7 ∷ []) h2))
        (take_eight b0 b1 b2 b3 b4 b5 b6 b7 n (c.payload ++ replicate (cell_data - n) 0)
          ∙ ap (λ t. b0 ∷ b1 ∷ b2 ∷ b3 ∷ b4 ∷ b5 ∷ b6 ∷ b7 ∷ t) (take-append n c.payload _ hn)))

abbrev Sound : Bytes → Cell → Type 0
Sound b c =
    IsCell c
    × (length b ≡ 1280)
    × (take (8 + length c.payload) (wire c) ≡ take (8 + length c.payload) b)

Sound-front :
    (b0 b1 b2 b3 b4 b5 b6 b7 : ℕ) (rest : Bytes) (c : Cell)
    → All IsByte (b0 ∷ b1 ∷ b2 ∷ b3 ∷ b4 ∷ b5 ∷ b6 ∷ b7 ∷ rest)
    → decode (b0 ∷ b1 ∷ b2 ∷ b3 ∷ b4 ∷ b5 ∷ b6 ∷ b7 ∷ rest) ≡ ok c
    → Sound (b0 ∷ b1 ∷ b2 ∷ b3 ∷ b4 ∷ b5 ∷ b6 ∷ b7 ∷ rest) c
Sound-front b0 b1 b2 b3 b4 b5 b6 b7 rest c hb h = (
  record {
    cid_u32 = omega (arith, parts.2, from_le_bound (b0 ∷ b1 ∷ b2 ∷ b3 ∷ []) four);
    flags_u8 = omega (arith, parts.4, hb);
    fits = omega (arith, len, parts.1);
  },
  omega (arith, parts.0),
  wire_front b0 b1 b2 b3 b4 b5 b6 b7 c _ four two refl len parts.2 parts.3 parts.4
      ∙ sym (
          take_eight b0 b1 b2 b3 b4 b5 b6 b7 (length c.payload) rest
          ∙ ap (λ t. b0 ∷ b1 ∷ b2 ∷ b3 ∷ b4 ∷ b5 ∷ b6 ∷ b7 ∷ t)
              (ap (λ m. take m rest) len ∙ sym parts.5)),
)
  where
    parts :
        (length rest ≡ 1272)
        × (from_le (b6 ∷ b7 ∷ []) ≤ 1272)
        × (c.cid ≡ from_le (b0 ∷ b1 ∷ b2 ∷ b3 ∷ []))
        × (cmd_code c.cmd ≡ b4)
        × (c.flags ≡ b5)
        × (c.payload ≡ take (from_le (b6 ∷ b7 ∷ [])) rest)
    parts = decode_parts b0 b1 b2 b3 b4 b5 b6 b7 rest c h

    four : All IsByte (b0 ∷ b1 ∷ b2 ∷ b3 ∷ [])
    four = omega (arith, hb)

    two : All IsByte (b6 ∷ b7 ∷ [])
    two = omega (arith, hb)

    len : length c.payload ≡ from_le (b6 ∷ b7 ∷ [])
    len =
        omega
          (arith, ap length parts.5, length-take (from_le (b6 ∷ b7 ∷ [])) rest, parts.0, parts.1)

decode-length : (b : Bytes) (c : Cell) → decode b ≡ ok c → length b ≡ 1280
unfolding decode
decode-length b c h = ground arith

decode-Sound : (b : Bytes) (c : Cell) → All IsByte b → decode b ≡ ok c → Sound b c
decode-Sound b c hb h =
    let f : Front b = front b (omega (arith, decode-length b c h)) in
    subst (λ d. All IsByte d → decode d ≡ ok c → Sound d c) (sym f.is)
      (Sound-front f.b0 f.b1 f.b2 f.b3 f.b4 f.b5 f.b6 f.b7 f.rest c) hb h

-- A datagram of bytes that `decode` accepts has 1280 bytes and gives a cell within the ranges of
-- its fields, and encoding that cell gives the datagram's bytes back up to the end of the payload.
pub decode_sound :
    (b : Bytes) (c : Cell)
    → All IsByte b
    → decode b ≡ ok c
    → IsCell c
      × (length b ≡ 1280)
      × (w : Bytes) × (encode c ≡ some w)
      × (take (8 + length c.payload) w ≡ take (8 + length c.payload) b)
decode_sound b c hb h =
    let s : Sound b c = decode-Sound b c hb h in (s.0, s.1, wire c, encode-wire c (s.0).fits, s.2)
