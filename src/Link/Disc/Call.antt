-- ===== src/Link/Disc/Call.antt =====
-- A connect request reaches its target with the two stations that it names.
use ardopb.Base.{
  ℕ, zero, suc, ap, ◌≡◌, refl, arith, true, false, some, List, [], ◌∷◌, ◌++◌, length, take, drop,
}
use ardopb.Base.{bytes_eq, Option-cases, inl, inr, ltb, length-append}
use ardopb.Codec.Packed6
use ardopb.Codec.StationId
use ardopb.Codec.StationId.{StationId, Parsed, ok, err}
use ardopb.Codec.StationId.Wire.{uncompress-wire, from_bytes_parsed}
use ardopb.Link.Disc.{two_stations}
use ardopb.Link.Session.{call_to_me, session_id}

bytes_eq_refl : (xs : List ℕ) → bytes_eq xs xs ≡ true
unfolding bytes_eq
bytes_eq_refl [] = refl
bytes_eq_refl (x ∷ xs) = ground (arith, bytes_eq_refl xs)

take_head : (n : ℕ) (xs ys : List ℕ) → length xs ≡ n → take n (xs ++ ys) ≡ xs
take_head zero [] ys h = refl
take_head zero (x ∷ xs) ys h = absurd (omega arith)
take_head (suc n) [] ys h = absurd (omega arith)
take_head (suc n) (x ∷ xs) ys h = ap (λ (zs : List ℕ). x ∷ zs) (take_head n xs ys (omega arith))

drop_head : (n : ℕ) (xs ys : List ℕ) → length xs ≡ n → drop n (xs ++ ys) ≡ ys
drop_head zero [] ys h = refl
drop_head zero (x ∷ xs) ys h = absurd (omega arith)
drop_head (suc n) [] ys h = absurd (omega arith)
drop_head (suc n) (x ∷ xs) ys h = drop_head n xs ys (omega arith)

take_all : (n : ℕ) (xs : List ℕ) → length xs ≡ n → take n xs ≡ xs
take_all zero [] h = refl
take_all zero (x ∷ xs) h = absurd (omega arith)
take_all (suc n) [] h = absurd (omega arith)
take_all (suc n) (x ∷ xs) h = ap (λ (zs : List ℕ). x ∷ zs) (take_all n xs (omega arith))

-- A decoded station with six wire bytes is decoded from the bytes before any others too.
from_bytes_head :
    (s : StationId) (ys : List ℕ)
    → length s.wire ≡ 6
    → StationId.from_bytes s.wire ≡ ok s
    → StationId.from_bytes (s.wire ++ ys) ≡ ok s
unfolding StationId.from_bytes
from_bytes_head s ys n h = cc (take_head 6 s.wire ys n, take_all 6 s.wire n)

-- Packed text has six bytes.
length-packed : (str : List ℕ) (len : ℕ) → length (Packed6.from_str_slice str len).1 ≡ 6
unfolding Packed6.from_str_slice Packed6.compress_four_to_three
length-packed str len = refl

length-compress :
    (call ssid : List ℕ) {s : StationId}
    → StationId.compress call ssid err StationId.uncompress ≡ ok s
    → length s.wire ≡ 6
unfolding StationId.compress
length-compress call ssid {s} h = ground (
  arith,
  length-packed (StationId.pad_callsign call ++ (StationId.ssid_pack ssid ∷ [])) 8,
  uncompress-wire
      (Packed6.from_str_slice (StationId.pad_callsign call ++ (StationId.ssid_pack ssid ∷ [])) 8).1
      {s = s},
)

length-wire :
    (str : List ℕ) {s : StationId} → StationId.from_str_slice str ≡ ok s → length s.wire ≡ 6
unfolding StationId.from_str_slice
length-wire str {s} h = elim (Option-cases (StationId.parse_str str)) [
  | inl e ↦ absurd (cc (rw (e, StationId.from_str_slice) at h))
  | inr (p, e) ↦ length-compress p.0 p.1 (rw (e, StationId.from_str_slice) at h)
]

-- A payload of the wire bytes of two stations with parsed names is read as those two stations, and
-- the one that is called finds itself called, in a session whose id is that of the two canonical
-- names, whatever other calls it answers to.
pub call_to_me-two_stations :
    (my_text target_text : List ℕ) (auxcalls : List StationId) {caller target : StationId}
    → StationId.from_str_slice my_text ≡ ok caller
    → StationId.from_str_slice target_text ≡ ok target
    → (two_stations (caller.wire ++ target.wire) ≡ some (caller, target))
      × (call_to_me caller target target auxcalls ≡ some (session_id caller.str target.str))
unfolding two_stations call_to_me StationId.stationid_eq
call_to_me-two_stations my_text target_text auxcalls {caller} {target} h k =
    let n = length-wire my_text h in
    let m = length-wire target_text k in
    let a = from_bytes_head caller target.wire n (from_bytes_parsed my_text h) in
    let b = from_bytes_parsed target_text k in
    let long : ltb (length (caller.wire ++ target.wire)) 12 ≡ false =
      ground (arith, length-append {0} caller.wire target.wire) in
    (
      rw (long, a, drop_head 6 caller.wire target.wire n, b, two_stations) refl,
      rw (bytes_eq_refl target.wire) refl,
    )
