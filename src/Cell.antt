-- ===== src/Cell.antt =====
-- crates/nbf-net/src/cell.rs, the cell and its commands: 1280 bytes on the wire, an 8-byte header
-- and a zero-padded payload. A panic of `encode` is `none`.
pub mod RoundTrip
pub mod Sound
use never_been_found.Prelude.{
  ℕ, ◌+◌, ◌-◌, ◌≤◌, ◌<◌, ◌^◌, ◌≡◌, Bool, Option, none, some, List, [], ◌∷◌, ◌++◌, length, get_or,
  drop, slice, replicate, Bytes, to_le, from_le, Result, ok, err, ◌>>=◌, ◌>>◌, guard, leb, ltb,
  ◌==◌, if◌then◌else◌,
}
use never_been_found.Errors.{NetError, bad_cmd, too_short}

abbrev pub cell_size : ℕ
cell_size = 1280

abbrev pub cell_hdr : ℕ
cell_hdr = 8

abbrev pub cell_data : ℕ
cell_data = cell_size - cell_hdr

abbrev pub msg_max : ℕ
msg_max = 1024

pub data Cmd : Type 0 where
  create created destroy relay padding : Cmd

-- `cmd as u8`
abbrev pub cmd_code : Cmd → ℕ
cmd_code create = 1
cmd_code created = 2
cmd_code destroy = 3
cmd_code relay = 4
cmd_code padding = 5

unfoldable pub cmd_try_from : ℕ → Result NetError Cmd
cmd_try_from v =
    if v == 1
    then ok create
    else if v == 2
    then ok created
    else if v == 3
    then ok destroy
    else if v == 4
    then ok relay
    else if v == 5
    then ok padding
    else err (bad_cmd v)

pub data RCmd : Type 0 where
  echo send_data drop_cover : RCmd

abbrev pub rcmd_code : RCmd → ℕ
rcmd_code echo = 1
rcmd_code send_data = 2
rcmd_code drop_cover = 3

unfoldable pub rcmd_try_from : ℕ → Result NetError RCmd
rcmd_try_from v =
    if v == 1
    then ok echo
    else if v == 2
    then ok send_data
    else if v == 3
    then ok drop_cover
    else err (bad_cmd v)

pub record Cell : Type 0 where
  pub cid : ℕ
  pub cmd : Cmd
  pub flags : ℕ
  pub payload : Bytes

-- The buffer of zeros with the fields copied in; `none` is the failed assertion.
unfoldable pub encode : Cell → Option Bytes
encode c =
    if leb (length c.payload) cell_data
    then some (
        to_le 4 c.cid
        ++ (cmd_code c.cmd
            ∷ c.flags
            ∷ (to_le 2 (length c.payload)
                ++ (c.payload ++ replicate (cell_data - length c.payload) 0))))
    else none

unfoldable pub decode : Bytes → Result NetError Cell
decode buf = do
  guard (length buf == cell_size) (NetError.bad_length (length buf))
  let len = from_le (slice 6 2 buf)
  guard (leb len cell_data) too_short
  cmd ← cmd_try_from (get_or buf 4 0)
  ok (record {
    cid = from_le (slice 0 4 buf);
    cmd = cmd;
    flags = get_or buf 5 0;
    payload = slice 8 len buf;
  })

-- [total u16][idx u16][chunk]
unfoldable pub parse_frag : Bytes → Result NetError (ℕ × ℕ × Bytes)
parse_frag payload =
    if ltb (length payload) 4
    then err too_short
    else ok (from_le (slice 0 2 payload), from_le (slice 2 2 payload), drop 4 payload)
