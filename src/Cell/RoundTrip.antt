-- ===== src/Cell/RoundTrip.antt =====
-- Cells written and read back (crates/nbf-net/src/cell.rs, `encode` and `decode`).
use never_been_found.Prelude.{
  ℕ, ◌+◌, ◌-◌, ◌≤◌, ◌<◌, ◌^◌, ◌≡◌, refl, ◌∙◌, some, [], ◌∷◌, ◌++◌, length, length-append,
  length-replicate, slice, slice-here, slice-skip, get_or, get_or-append, replicate, Bytes, to_le,
  from_le-to_le, length-to_le, ok, arith, le→leb,
}
use never_been_found.Cell.{
  Cell, Cmd, create, created, destroy, relay, padding, cmd_code, cmd_try_from, cell_data, encode,
  decode,
}

-- The values that the fields of the Rust type can hold.
pub record IsCell (c : Cell) : Type 0 where
  pub cid_u32 : c.cid < 2 ^ 32
  pub flags_u8 : c.flags < 256
  pub fits : length c.payload ≤ cell_data

pub cmd_try_from-code : (c : Cmd) → cmd_try_from (cmd_code c) ≡ ok c
unfolding cmd_try_from
cmd_try_from-code create = refl
cmd_try_from-code created = refl
cmd_try_from-code destroy = refl
cmd_try_from-code relay = refl
cmd_try_from-code padding = refl

-- The layout of a cell on the wire, and its fields by position.
abbrev pub layout : Bytes → ℕ → ℕ → Bytes → Bytes → Bytes → Bytes
layout a k f l p z = a ++ (k ∷ f ∷ (l ++ (p ++ z)))

module _ (a : Bytes) (k f : ℕ) (l p z : Bytes) (four : length a ≡ 4) (two : length l ≡ 2) where
  length-layout : length (layout a k f l p z) ≡ 8 + length p + length z
  length-layout = omega (
    arith,
    length-append a (k ∷ f ∷ (l ++ (p ++ z))),
    length-append l (p ++ z),
    length-append p z,
  )

  layout-cid : slice 0 4 (layout a k f l p z) ≡ a
  layout-cid = slice-here 4 a _ four

  layout-cmd : get_or (layout a k f l p z) 4 0 ≡ k
  layout-cmd = get_or-append a (k ∷ f ∷ (l ++ (p ++ z))) 4 4 0 four (omega arith)

  layout-flags : get_or (layout a k f l p z) 5 0 ≡ f
  layout-flags = get_or-append a (k ∷ f ∷ (l ++ (p ++ z))) 5 4 0 four (omega arith)

  layout-len : slice 6 2 (layout a k f l p z) ≡ l
  layout-len =
      slice-skip 6 2 4 a _ four (omega arith)
      ∙ slice-skip 2 2 2 (k ∷ f ∷ []) (l ++ (p ++ z)) refl (omega arith)
      ∙ slice-here 2 l (p ++ z) two

  layout-payload : slice 8 (length p) (layout a k f l p z) ≡ p
  layout-payload =
      slice-skip 8 (length p) 4 a _ four (omega arith)
      ∙ slice-skip 4 (length p) 2 (k ∷ f ∷ []) (l ++ (p ++ z)) refl (omega arith)
      ∙ slice-skip 2 (length p) 2 l (p ++ z) two (omega arith)
      ∙ slice-here (length p) p z refl

-- The bytes of a cell whose payload fits.
abbrev pub wire : Cell → Bytes
wire c =
    layout (to_le 4 c.cid) (cmd_code c.cmd) c.flags (to_le 2 (length c.payload)) c.payload
      (replicate (cell_data - length c.payload) 0)

pub encode-wire : (c : Cell) → length c.payload ≤ cell_data → encode c ≡ some (wire c)
unfolding encode
encode-wire c h = rw (le→leb _ _ h)

length-wire : (c : Cell) → length c.payload ≤ cell_data → length (wire c) ≡ 1280
length-wire c h =
    let pad = cell_data - length c.payload in
    let zero_byte : ℕ = 0 in
    omega (
      arith,
      length-layout (to_le 4 c.cid) (cmd_code c.cmd) c.flags (to_le 2 (length c.payload)) c.payload
          (replicate pad 0) (length-to_le 4 c.cid) (length-to_le 2 (length c.payload)),
      length-replicate pad zero_byte,
    )

decode-wire : (c : Cell) → IsCell c → decode (wire c) ≡ ok c
unfolding decode
decode-wire c v =
    rw (length-wire c v.fits, layout-len a k f l p z four two, from_le-to_le 2 _ short)
      (rw (
        le→leb _ _ v.fits,
        layout-cid a k f l p z four two,
        layout-cmd a k f l p z four two,
        layout-flags a k f l p z four two,
        layout-payload a k f l p z four two,
        cmd_try_from-code c.cmd,
        from_le-to_le 4 c.cid v.cid_u32,
      ))
  where
    a : Bytes
    a = to_le 4 c.cid

    k : ℕ
    k = cmd_code c.cmd

    f : ℕ
    f = c.flags

    l : Bytes
    l = to_le 2 (length c.payload)

    p : Bytes
    p = c.payload

    z : Bytes
    z = replicate (cell_data - length c.payload) 0

    four : length a ≡ 4
    four = length-to_le 4 c.cid

    two : length l ≡ 2
    two = length-to_le 2 (length c.payload)

    short : length c.payload < 256 ^ 2
    short = omega (arith, v.fits)

-- A cell whose fields hold values of their types and whose payload is at most 1272 bytes is encoded
-- in exactly 1280 bytes, and decoding those gives the cell back.
pub decode-encode :
    (c : Cell)
    → IsCell c
    → (w : Bytes) × (encode c ≡ some w) × (length w ≡ 1280) × (decode w ≡ ok c)
decode-encode c v = (wire c, encode-wire c v.fits, length-wire c v.fits, decode-wire c v)
