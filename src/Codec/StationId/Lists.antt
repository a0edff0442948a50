-- ===== src/Codec/StationId/Lists.antt =====
-- core/codec/stationid.c: lists of station ids as text, and the error strings.
use ardopb.Base.{
  ℕ, Bool, true, false, ◌&&◌, ◌||◌, Option, none, some, List, [], ◌∷◌, ◌++◌, length, ltb, ◌==◌,
  if◌then◌else◌, text,
}
use ardopb.Codec.StationId.{
  StationIdErr, too_long, callsign_chars, callsign_short, callsign_long, ssid_invalid, StationId,
  ok, err, is_space, from_str_slice, stationid_ok,
}

unfoldable pub strerror : StationIdErr → List ℕ
strerror too_long = text "maximum length exceeded or unsupported format"
strerror callsign_chars = text "callsign uses unsupported characters"
strerror callsign_short = text "callsign too short"
strerror callsign_long = text "callsign too long"
strerror ssid_invalid = text "SSID unsupported or too long"

unfoldable pub as_bytes : StationId → Option (List ℕ)
as_bytes station = if stationid_ok station then some station.wire else none

-- The stations of a list, or an error with the number of stations before it.
pub data Listed : Type 0 where
  listed : List StationId → Listed
  failed : StationIdErr → ℕ → Listed

-- What separates stations, but for the NUL.
unfoldable pub is_delimiter : ℕ → Bool
is_delimiter c = (c == b',') || is_space c

-- `found` stations were read, and `word` is the start of another, empty where `r_start` is NULL.
unfoldable pub array_loop : ℕ → List StationId → List ℕ → List ℕ → Listed
array_loop capacity found word [] =
    if ltb (length found) capacity && ltb 0 (length word)
    then elim (from_str_slice word) [
      | ok station ↦ listed (found ++ (station ∷ []))
      | err e ↦ failed e (length found)
    ]
    else listed found
array_loop capacity found word (c ∷ cs) =
    let started = array_loop capacity found (word ++ (c ∷ [])) cs in
    let skipped = array_loop capacity found [] cs in
    let ended : Listed = elim (from_str_slice word) [
      | ok station ↦ array_loop capacity (found ++ (station ∷ [])) [] cs
      | err e ↦ failed e (length found)
    ] in
    if ltb (length found) capacity
    then (if is_delimiter c then (if length word == 0 then skipped else ended) else started)
    else listed found

unfoldable pub from_str_to_array : List ℕ → ℕ → Listed
from_str_to_array str capacity = array_loop capacity [] [] str

-- The text so far is `pos` characters long, of which the destination holds what fits.
unfoldable pub print_loop : ℕ → List ℕ → Bool → List StationId → List ℕ → Option (List ℕ)
print_loop size delim first [] written = if ltb (length written) size then some written else none
print_loop size delim first (s ∷ rest) written =
    let piece : List ℕ = if first then s.str else delim ++ s.str in
    let more = print_loop size delim false rest (written ++ piece) in
    if ltb (length written) size then (if length piece == 0 then none else more) else none

-- The text, or `none` for the result false.
unfoldable pub array_to_str :
    List StationId → ℕ → List ℕ → Option (List ℕ) → Option (List ℕ) → Option (List ℕ)
array_to_str stations size delim header separator =
    let head : List ℕ = elim header [ none ↦ [] | some h ↦ h ] in
    let gap : List ℕ = elim separator [ none ↦ [] | some s ↦ s ] in
    print_loop size delim true stations (head ++ (if ltb 0 (length stations) then gap else []))
