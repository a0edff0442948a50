-- ===== src/Codec/StationId/Named.antt =====
-- core/codec/stationid.c: a station that was parsed has the callsign and the SSID of its text.
use ardopb.Base.{ℕ, List, [], ◌∷◌, ◌++◌, map, ◌==◌, if◌then◌else◌}
use ardopb.Codec.Packed6
use ardopb.Codec.StationId
use ardopb.Codec.StationId.{StationId, StationIdErr, Parsed, callsign_max}

-- The characters of a callsign on the way through the wire.
blank : ℕ → ℕ
blank c = if c == b' ' then 0 else c

abbrev work_of : List ℕ → List ℕ
work_of str = map blank (map Packed6.fold_case str)

module _ (call ssid : List ℕ) where
  abbrev sent : List ℕ
  sent = StationId.pad_callsign call ++ StationId.ssid_pack ssid ∷ []
