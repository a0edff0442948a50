-- ===== src/Codec/StationId/Wire.antt =====
-- The wire form of a station identifies it: what is decoded from it is what was encoded.
use ardopb.Base.{
  take, Bool-cases, Option-cases, ◌++◌, inl, inr, false, ℕ, ◌≡◌, refl, arith, some, List, [], ◌∷◌,
}
use ardopb.Codec.Packed6
use ardopb.Codec.StationId
use ardopb.Codec.StationId.{StationId, StationIdErr, Parsed, ok, err}

-- A station that `uncompress` accepts carries the wire bytes that it was given.
pub uncompress-wire :
    (wire : List ℕ) {s : StationId} → StationId.uncompress wire ≡ ok s → s.wire ≡ wire
unfolding StationId.uncompress
uncompress-wire wire h = ground arith

-- Six zero bytes are eight spaces: too short a callsign.
uncompress-zero :
    StationId.uncompress (0 ∷ 0 ∷ 0 ∷ 0 ∷ 0 ∷ 0 ∷ []) ≡ err StationIdErr.callsign_short
unfolding StationId.uncompress StationId.validate_callsign StationId.until_nul Packed6.to_fixed_str
    Packed6.decompress_three_to_four Packed6.unpack_loop
uncompress-zero = refl

any_nonzero-none :
    (a b c d e f : ℕ)
    → StationId.any_nonzero (a ∷ b ∷ c ∷ d ∷ e ∷ f ∷ []) ≡ false
    → (a ≡ 0) × (b ≡ 0) × (c ≡ 0) × (d ≡ 0) × (e ≡ 0) × (f ≡ 0)
unfolding StationId.any_nonzero
any_nonzero-none a b c d e f h = ground arith

not_uncompress-zero :
    (a b c d e f : ℕ) {s : StationId}
    → StationId.any_nonzero (a ∷ b ∷ c ∷ d ∷ e ∷ f ∷ []) ≡ false
    → StationId.uncompress (a ∷ b ∷ c ∷ d ∷ e ∷ f ∷ []) ≡ ok s
    → ⊥
not_uncompress-zero a b c d e f z h =
    let (za, zb, zc, zd, ze, zf) = any_nonzero-none a b c d e f z in
    cc (uncompress-zero, rw (za, zb, zc, zd, ze, zf) at h)

-- A station decoded from six wire bytes is valid to send, and is sent as those very bytes.
pub to_buffer-from_bytes :
    (a b c d e f : ℕ) {s : StationId}
    → let wire = a ∷ b ∷ c ∷ d ∷ e ∷ f ∷ [] in
      StationId.from_bytes wire ≡ ok s → StationId.to_buffer s ≡ some wire
unfolding StationId.from_bytes StationId.to_buffer StationId.stationid_ok
to_buffer-from_bytes a b c d e f {s} h =
    let same = uncompress-wire (a ∷ b ∷ c ∷ d ∷ e ∷ f ∷ []) h in
    elim (Bool-cases (StationId.any_nonzero (a ∷ b ∷ c ∷ d ∷ e ∷ f ∷ []))) [
      | inl yes' ↦ rw (same, yes')
      | inr no' ↦ absurd (not_uncompress-zero a b c d e f no' h)
    ]

take-packed :
    (str : List ℕ) (len : ℕ)
    → take 6 (Packed6.from_str_slice str len).1 ≡ (Packed6.from_str_slice str len).1
unfolding Packed6.from_str_slice Packed6.compress_four_to_three
take-packed str len = refl

pub compress-wire :
    (call ssid : List ℕ) {s : StationId}
    → StationId.compress call ssid err StationId.uncompress ≡ ok s
    → StationId.from_bytes s.wire ≡ ok s
unfolding StationId.compress StationId.from_bytes
compress-wire call ssid {s} h = ground (
  arith,
  take-packed (StationId.pad_callsign call ++ (StationId.ssid_pack ssid ∷ [])) 8,
  uncompress-wire
      (Packed6.from_str_slice (StationId.pad_callsign call ++ (StationId.ssid_pack ssid ∷ [])) 8).1
      {s = s},
)

-- What a receiver decodes from the wire bytes of a parsed station is that same station.
pub from_bytes_parsed :
    (str : List ℕ) {s : StationId}
    → StationId.from_str_slice str ≡ ok s
    → StationId.from_bytes s.wire ≡ ok s
unfolding StationId.from_str_slice
from_bytes_parsed str {s} h = elim (Option-cases (StationId.parse_str str)) [
  | inl e ↦ absurd (cc (rw (e, StationId.from_str_slice) at h))
  | inr (p, e) ↦ compress-wire p.0 p.1 (rw (e, StationId.from_str_slice) at h)
]
