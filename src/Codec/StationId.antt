-- ===== src/Codec/StationId.antt =====
-- core/codec/stationid.c: a callsign with its SSID, as text and as six wire bytes. A `char` array is
-- the text up to its NUL; a parse either gives a station or an error, and after an error the
-- source's output is the zero station, which nothing may use.
pub mod Lists
pub mod Wire
pub mod Ssid
pub mod Named
use ardopb.Base.{ℕ, zero, suc, ◌+◌, ◌-◌, ◌*◌, ◌≤◌, Bool, true, false, not, ◌&&◌, ◌||◌}
use ardopb.Base.{Option, none, some, List, [], ◌∷◌, ◌++◌, ltb, leb, ◌==◌, if◌then◌else◌}
use ardopb.Base.{length, take, drop, get_or, replicate, decimal, overwrite, bytes_eq, map}
use ardopb.Codec.Packed6
use ardopb.Codec.Packed6.{Packed6}

abbrev pub callsign_min : ℕ
callsign_min = 2

abbrev pub callsign_max : ℕ
callsign_max = 7

abbrev pub call_size : ℕ
call_size = 8

abbrev pub ssid_size : ℕ
ssid_size = 3

abbrev pub buf_size : ℕ
buf_size = 11

pub data StationIdErr : Type 0 where
  too_long callsign_chars callsign_short callsign_long ssid_invalid : StationIdErr

pub record StationId : Type 0 where
  pub call : List ℕ
  pub ssid : List ℕ
  pub str : List ℕ
  pub wire : Packed6

pub data Parsed : Type 0 where
  ok : StationId → Parsed
  err : StationIdErr → Parsed

-- The zero station of `ardop_stationid_init`.
unfoldable pub init : StationId
init = record { call = []; ssid = b'0' ∷ []; str = []; wire = replicate 6 0 }

unfoldable pub contains : ℕ → List ℕ → Bool
contains c [] = false
contains c (x ∷ xs) = (x == c) || contains c xs

-- `none` for a valid callsign.
unfoldable pub validate_callsign : List ℕ → Option StationIdErr
validate_callsign call =
    if ltb (length call) callsign_min
    then some callsign_short
    else if ltb callsign_max (length call)
    then some callsign_long
    else if contains b' ' call
    then some callsign_chars
    else none

unfoldable pub is_space : ℕ → Bool
is_space c = (c == b' ') || (leb 9 c && leb c 13)

-- The value of a base 36 digit.
digit36 : ℕ → Option ℕ
digit36 c =
    if leb b'0' c && leb c b'9'
    then some (c - b'0')
    else if leb b'A' c && leb c b'Z'
    then some (c - b'A' + 10)
    else if leb b'a' c && leb c b'z'
    then some (c - b'a' + 10)
    else none

-- The digits from the front: whether there was one, the value, and the rest.
digits36 : Bool → ℕ → List ℕ → Bool × ℕ × List ℕ
digits36 seen value [] = (seen, value, [])
digits36 seen value (c ∷ cs) = elim (digit36 c) [
  | none ↦ (seen, value, c ∷ cs)
  | some d ↦ digits36 true (value * 36 + d) cs
]

skip_space : List ℕ → List ℕ
skip_space [] = []
skip_space (c ∷ cs) = let rest = skip_space cs in if is_space c then rest else c ∷ cs

-- An optional sign: whether it is a minus, and the rest.
sign : List ℕ → Bool × List ℕ
sign [] = (false, [])
sign (c ∷ cs) = if c == b'-' then (true, cs) else if c == b'+' then (false, cs) else (false, c ∷ cs)

-- `strtol(ssid, &end, 36)`, for the two characters that an SSID holds: `none` where nothing is
-- converted or the text goes on behind the number, else the sign and the magnitude.
pub strtol36 : List ℕ → Option (Bool × ℕ)
unfolding digits36 digit36 skip_space is_space sign
strtol36 ssid =
    let (minus, unsigned) = sign (skip_space ssid) in
    let (seen, value, end) = digits36 false 0 unsigned in
    if seen && (length end == 0) then some (minus, value) else none

-- The one-byte code of an SSID, 0 for one that has none.
unfoldable pub ssid_pack : List ℕ → ℕ
unfolding strtol36
ssid_pack ssid = elim (strtol36 ssid) [
  | none ↦ 0
  | some (minus, value) ↦
      if minus && not (value == 0)
      then 0
      else if leb value 9
      then b'0' + value
      else if leb value 35
      then b'A' + (value - 10)
      else if leb value 41
      then b':' + (value - 36)
      else 0
]

-- `none` for a code that stands for no SSID.
unfoldable pub ssid_unpack : ℕ → Option (List ℕ)
ssid_unpack ssid_byte =
    if leb b'0' ssid_byte && leb ssid_byte b'?'
    then some (take (ssid_size - 1) (decimal (ssid_byte - b'0')))
    else if leb b'A' ssid_byte && leb ssid_byte b'Z'
    then some (ssid_byte ∷ [])
    else none

-- The loop of `parse_str`: the characters copied to the callsign and to the SSID so far. `none` is
-- the error of a field that is full.
parse_loop : Bool → List ℕ → List ℕ → List ℕ → Option (List ℕ × List ℕ)
parse_loop copying_callsign call ssid [] = some (call, ssid)
parse_loop copying_callsign call ssid (c ∷ cs) =
    let switch = parse_loop false call ssid cs in
    let to_call = parse_loop true (call ++ (c ∷ [])) ssid cs in
    let to_ssid = parse_loop false call (ssid ++ (c ∷ [])) cs in
    if c == 0
    then some (call, ssid)
    else if (c == b'-') && copying_callsign
    then switch
    else if copying_callsign
    then (if ltb (length call + 1) call_size then to_call else none)
    else if ltb (length ssid + 1) ssid_size
    then to_ssid
    else none

-- The callsign and SSID fields of "CALL-SSID"; an SSID that is not written stays "0".
unfoldable pub parse_str : List ℕ → Option (List ℕ × List ℕ)
unfolding parse_loop init overwrite
parse_str id_str = elim (parse_loop true [] [] id_str) [
  | none ↦ none
  | some (call, ssid) ↦ some (call, overwrite ssid init.ssid)
]

-- "%-7.7s": at most seven characters, padded to seven.
unfoldable pub pad_callsign : List ℕ → List ℕ
pad_callsign call = take callsign_max call ++ replicate (callsign_max - length call) b' '

-- The wire bytes of the text fields, or the error.
unfoldable pub compress : List ℕ → List ℕ → (StationIdErr → Parsed) → (Packed6 → Parsed) → Parsed
compress call ssid fail go = elim (validate_callsign call) [
  | some e ↦ fail e
  | none ↦
      let ssid_byte = ssid_pack ssid in
      let (packs, wire) = Packed6.from_str_slice (pad_callsign call ++ (ssid_byte ∷ [])) 8 in
      if ssid_byte == 0 then fail ssid_invalid else if packs then go wire else fail callsign_chars
]

unfoldable pub until_nul : List ℕ → List ℕ
until_nul [] = []
until_nul (c ∷ cs) = let rest = c ∷ until_nul cs in if c == 0 then [] else rest

-- The text fields of wire bytes; a space ends the callsign.
unfoldable pub uncompress : Packed6 → Parsed
uncompress wire =
    let work = map (λ c. if c == b' ' then 0 else c) (Packed6.to_fixed_str wire) in
    let call = take (call_size - 1) (until_nul work) in
    elim (validate_callsign call) [
      | some e ↦ err e
      | none ↦ elim (ssid_unpack (get_or work callsign_max 0)) [
        | none ↦ err ssid_invalid
        | some ssid ↦ ok (record {
          call = call;
          ssid = ssid;
          str =
              take (buf_size - 1)
                (if bytes_eq ssid (b'0' ∷ []) then call else call ++ (b'-' ∷ ssid));
          wire = wire;
        })
      ]
    ]

-- The slice holds the `len` characters; a NUL in it ends the text.
unfoldable pub from_str_slice : List ℕ → Parsed
from_str_slice str = elim (parse_str str) [
  | none ↦ err too_long
  | some (call, ssid) ↦ compress call ssid err uncompress
]

unfoldable pub from_bytes : List ℕ → Parsed
from_bytes bytes = uncompress (take 6 bytes)

unfoldable pub any_nonzero : List ℕ → Bool
any_nonzero [] = false
any_nonzero (b ∷ bs) = not (b == 0) || any_nonzero bs

-- Whether the wire representation is not zero.
unfoldable pub stationid_ok : StationId → Bool
stationid_ok station = any_nonzero station.wire

-- The bytes copied to the destination, `none` for a station that is not valid.
unfoldable pub to_buffer : StationId → Option (List ℕ)
to_buffer station = if stationid_ok station then some station.wire else none

unfoldable pub stationid_eq : StationId → StationId → Bool
stationid_eq a b = bytes_eq a.wire b.wire
