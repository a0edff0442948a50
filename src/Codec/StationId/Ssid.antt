-- ===== src/Codec/StationId/Ssid.antt =====
-- core/codec/stationid.c: the SSID of a code has the value that the code stands for.
use ardopb.Base.{
  ℕ, ◌+◌, ◌-◌, ◌≤◌, ◌<◌, ◌≡◌, ◌≢◌, refl, arith, Bool, true, false, not, ◌&&◌, Option, none, some,
  List, ◌==◌, leb, if◌then◌else◌, decimal, every_below, every_below_at, Option-cases, inl, inr,
}
use ardopb.Codec.StationId
use ardopb.Codec.StationId.{StationId, StationIdErr, Parsed, ok, err, callsign_max}

-- The one-byte code of a value.
pub value_code : ℕ → ℕ
value_code v = if leb v 9 then b'0' + v else if leb v 35 then b'A' + (v - 10) else b':' + (v - 36)

has_value : ℕ → Option (Bool × ℕ) → Bool
has_value v none = false
has_value v (some (minus, w)) = not minus && (w == v)

-- The SSID of a code has the value that the code stands for.
value_comes_back : ℕ → Bool
value_comes_back v = elim (StationId.ssid_unpack (value_code v)) [
  | none ↦ false
  | some ssid ↦ has_value v (StationId.strtol36 ssid)
]

all_values : every_below 42 value_comes_back ≡ true
unfolding every_below value_comes_back value_code has_value StationId.ssid_unpack decimal
    StationId.strtol36
all_values = refl

has_value-same : (v : ℕ) (o : Option (Bool × ℕ)) → has_value v o ≡ true → o ≡ some (false, v)
unfolding has_value
has_value-same v none h = absurd (cc h)
has_value-same v (some (true, w)) h = absurd (cc h)
has_value-same v (some (false, w)) h = let same : w ≡ v = ground (arith, h) in rw same refl

pub strtol36-ssid_unpack :
    (v : ℕ) (ssid : List ℕ)
    → v < 42
    → StationId.ssid_unpack (value_code v) ≡ some ssid
    → StationId.strtol36 ssid ≡ some (false, v)
unfolding value_comes_back
strtol36-ssid_unpack v ssid small h =
    let back : value_comes_back v ≡ true = every_below_at 42 value_comes_back v all_values small in
    has_value-same v (StationId.strtol36 ssid) (ground (arith, h, back))

-- An SSID that has a code is a number.
pub ssid_pack-value :
    (ssid : List ℕ)
    → StationId.ssid_pack ssid ≢ 0
    → (minus : Bool) × (v : ℕ) × (StationId.strtol36 ssid ≡ some (minus, v))
      × (v < 42)
      × (StationId.ssid_pack ssid ≡ value_code v)
unfolding StationId.ssid_pack value_code
ssid_pack-value ssid h = elim (Option-cases (StationId.strtol36 ssid)) [
  | inl e ↦ absurd (h (rw (StationId.ssid_pack, e) refl))
  | inr ((minus, v), e) ↦ (minus, v, e, ground (arith, e, h), ground (arith, e, h))
]

-- A code of an SSID is a printable character.
pub ssid_pack-range :
    (ssid : List ℕ)
    → StationId.ssid_pack ssid ≢ 0
    → (48 ≤ StationId.ssid_pack ssid) × (StationId.ssid_pack ssid ≤ 90)
unfolding StationId.ssid_pack
ssid_pack-range ssid h = ground (arith, h)
