-- ===== src/Codec/Locator/Wire.antt =====
-- The wire form of a grid square identifies it.
use ardopb.Base.{ℕ, ◌≡◌, refl, arith, true, Bool-cases, inl, inr, List}
use ardopb.Base.{take, if◌then◌else◌, bytes_eq}
use ardopb.Codec.Locator
use ardopb.Codec.Locator.{Locator, Parsed, ok, err}
use ardopb.Codec.Packed6

-- A grid square that `uncompress` finds carries the wire bytes that it was given.
uncompress-wire :
    (wire : List ℕ) {l : Locator}
    → Locator.uncompress wire ≡ ok l
    → Locator.is_populated l ≡ true
    → l.wire ≡ wire
unfolding Locator.uncompress Locator.is_populated Locator.init
uncompress-wire wire h p = ground arith

take-packed :
    (str : List ℕ) (len : ℕ)
    → take 6 (Packed6.from_str_slice str len).1 ≡ (Packed6.from_str_slice str len).1
unfolding Packed6.from_str_slice Packed6.compress_four_to_three
take-packed str len = refl

-- What is parsed and not empty was found by `uncompress` in packed bytes.
parsed-uncompress :
    (str : List ℕ) {l : Locator}
    → Locator.from_str_slice str ≡ ok l
    → Locator.is_populated l ≡ true
    → Locator.uncompress (Packed6.from_str_slice (Locator.until_nul str) 8).1 ≡ ok l
unfolding Locator.from_str_slice Locator.is_populated Locator.init
parsed-uncompress str h p = ground arith

-- The legacy bytes for an unset grid square are read as an empty one.
nogs-uncompress : Locator.uncompress (take 6 Locator.locator_nogs) ≡ ok Locator.init
unfolding Locator.uncompress bytes_eq
nogs-uncompress = refl

own_wire :
    (wire : List ℕ) {l : Locator}
    → take 6 wire ≡ wire
    → Locator.uncompress wire ≡ ok l
    → l.wire ≡ wire
    → Locator.uncompress (take 6 l.wire) ≡ ok l
own_wire wire t h e = cc

-- What a receiver decodes from the wire bytes sent for a parsed grid square is that grid square, and an
-- empty one for one that is empty.
pub from_bytes-as_bytes :
    (str : List ℕ) {l : Locator}
    → Locator.from_str_slice str ≡ ok l
    → Locator.from_bytes (Locator.as_bytes l)
      ≡ ok (if Locator.is_populated l then l else Locator.init)
unfolding Locator.as_bytes Locator.from_bytes
from_bytes-as_bytes str {l} h = elim (Bool-cases (Locator.is_populated l)) [
  | inl p ↦
      let found = parsed-uncompress str h p in
      rw (p, Locator.as_bytes)
        (own_wire _ (take-packed (Locator.until_nul str) 8) found (uncompress-wire _ found p))
  | inr p ↦ rw (p, Locator.as_bytes) nogs-uncompress
]
