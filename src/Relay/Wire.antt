-- ===== src/Relay/Wire.antt =====
-- The header of a RELAY payload (crates/nbf-net/src/relay.rs).
use never_been_found.Prelude.{
  ℕ, ◌+◌, ◌≤◌, ◌<◌, ◌^◌, ◌≡◌, refl, ◌∙◌, some, [], ◌∷◌, ◌++◌, length, length-append, get_or,
  get_or-append, drop, drop-append, drop_zero, slice, slice-here, slice-skip, Bytes, to_le,
  from_le-to_le, length-to_le, ok, le→ltb, arith,
}
use never_been_found.Cell.{RCmd, echo, send_data, drop_cover, rcmd_code, rcmd_try_from}
use never_been_found.Relay.{Header, relay_payload, parse_relay}

pub rcmd_try_from-code : (r : RCmd) → rcmd_try_from (rcmd_code r) ≡ ok r
unfolding rcmd_try_from
rcmd_try_from-code echo = refl
rcmd_try_from-code send_data = refl
rcmd_try_from-code drop_cover = refl

-- The header adds 7 bytes.
pub length-relay_payload :
    (seq r stream : ℕ) (onion : Bytes)
    → length (relay_payload seq r stream onion) ≡ 7 + length onion
unfolding relay_payload
length-relay_payload seq r stream onion = omega (
  arith,
  length-append (to_le 4 seq) (r ∷ (to_le 2 stream ++ onion)),
  length-append (to_le 2 stream) onion,
  length-to_le 4 seq,
  length-to_le 2 stream,
)

abbrev pub header : ℕ → RCmd → ℕ → Bytes → Header
header seq r stream onion = record {
  seq = seq;
  rcmd_u8 = rcmd_code r;
  rcmd = r;
  stream = stream;
  onion = onion;
}

-- A header that is written within the ranges of its fields is read back.
pub parse_relay-payload :
    (seq : ℕ) (r : RCmd) (stream : ℕ) (onion : Bytes)
    → seq < 2 ^ 32
    → stream < 2 ^ 16
    → parse_relay (relay_payload seq (rcmd_code r) stream onion) ≡ some (header seq r stream onion)
unfolding parse_relay relay_payload to_le
parse_relay-payload seq r stream onion hs ht = rw (
  le→ltb _ _ long,
  code,
  rcmd_try_from-code r,
  seq_at,
  stream_at,
  onion_at,
  from_le-to_le 4 seq hs,
  from_le-to_le 2 stream ht,
)
  where
    k : ℕ
    k = rcmd_code r

    tail : Bytes
    tail = to_le 2 stream ++ onion

    p : Bytes
    p = to_le 4 seq ++ (k ∷ tail)

    long : 7 ≤ length p
    long = unfold relay_payload in omega (arith, length-relay_payload seq k stream onion)

    code : get_or p 4 0 ≡ k
    code = get_or-append (to_le 4 seq) (k ∷ tail) 4 4 0 (length-to_le 4 seq) (omega arith)

    seq_at : slice 0 4 p ≡ to_le 4 seq
    seq_at = slice-here 4 (to_le 4 seq) _ (length-to_le 4 seq)

    stream_at : slice 5 2 p ≡ to_le 2 stream
    stream_at =
        slice-skip 5 2 4 (to_le 4 seq) _ (length-to_le 4 seq) (omega arith)
        ∙ slice-skip 1 2 1 (k ∷ []) tail refl (omega arith)
        ∙ slice-here 2 (to_le 2 stream) onion (length-to_le 2 stream)

    onion_at : drop 7 p ≡ onion
    onion_at =
        drop-append 7 4 (to_le 4 seq) _ (length-to_le 4 seq) (omega arith)
        ∙ drop-append 3 1 (k ∷ []) tail refl (omega arith)
        ∙ drop-append 2 2 (to_le 2 stream) onion (length-to_le 2 stream) (omega arith)
        ∙ drop_zero onion
