-- ===== src/Asp/Varint.antt =====
-- app/asp_wire.c: numbers in groups of seven bits, the low one first.
pub mod RoundTrip
use native.Mathlib.Numerals.{towards_suc}
use native.Mathlib.Nat.{mul-le-mul_right}
use mathlib.Core.Option
use ardopb.Base.{
  ℕ, zero, suc, ◌+◌, ◌-◌, ◌*◌, ◌/◌, ◌%◌, ◌^◌, ◌≤◌, ◌<◌, ◌≡◌, refl, ap, sym, ◌∙◌, arith, bit_and,
  bit_or, u8, ltb, ◌==◌, Bool, true, false, Option, none, some, List, [], ◌∷◌, ◌++◌, length,
  if◌then◌else◌, every_below, every_below_at, Bool-cases, inl, inr, ◌⊎◌, Option-cases,
}
use ardopb.Base.Bits.{bit_and_mask}
use ardopb.Base.Words.{or_above}

abbrev pub varint_max : ℕ
varint_max = 4

-- The low seven bits, and whether a further byte follows.
unfoldable pub group : ℕ → ℕ
group v = let byte = u8 (bit_and v 127) in if v / 2 ^ 7 == 0 then byte else bit_or byte 128

-- The loop, with the rounds and the room that are left.
unfoldable pub put_loop : ℕ → ℕ → ℕ → Option (List ℕ)
put_loop zero room v = none
put_loop (suc rounds) room v =
    let rest = put_loop rounds (room - 1) (v / 2 ^ 7) in
    if room == 0
    then none
    else if v / 2 ^ 7 == 0
    then some (group v ∷ [])
    else Option.map (λ bytes. group v ∷ bytes) rest

-- The bytes written where there is room for `cap` of them, `none` for the result 0.
unfoldable pub varint_put : ℕ → ℕ → Option (List ℕ)
varint_put cap v = put_loop varint_max cap v

unfoldable pub get_loop : ℕ → ℕ → ℕ → List ℕ → Option (ℕ × ℕ)
get_loop zero i acc buf = none
get_loop (suc rounds) i acc [] = none
get_loop (suc rounds) i acc (b ∷ buf) =
    let acc' = bit_or acc (bit_and b 127 * 2 ^ (7 * i) % 2 ^ 32) in
    let rest = get_loop rounds (suc i) acc' buf in
    if bit_and b 128 == 0 then some (acc', suc i) else rest

-- The number and how many bytes it takes.
unfoldable pub varint_get : List ℕ → Option (ℕ × ℕ)
varint_get buf = get_loop varint_max 0 0 buf
