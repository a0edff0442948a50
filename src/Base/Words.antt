-- ===== src/Base/Words.antt =====
-- Words as bytes, the low byte first.
use ardopb.Base.{
  ℕ, get_or, ◌++◌, length, ◌+◌, ◌*◌, ◌/◌, ◌%◌, ◌^◌, ◌<◌, ◌≡◌, arith, bit_and, bit_or, List, [], ◌∷◌,
  u8, refl, ◌∙◌,
}
use ardopb.Base.Bits.{bit_or_fields, bit_and_mask, bit_or_comm}

-- `put_u16` and `put_u32` append the bytes of a word. `get_u16` and `get_u32` read one from the first
-- bytes of a list that has as many.
unfoldable pub put_u16 : ℕ → List ℕ
put_u16 v = u8 (bit_and v 255) ∷ u8 (v / 2 ^ 8) ∷ []

unfoldable pub put_u32 : ℕ → List ℕ
put_u32 v =
    u8 (bit_and v 255)
    ∷ u8 (bit_and (v / 2 ^ 8) 255)
    ∷ u8 (bit_and (v / 2 ^ 16) 255)
    ∷ u8 (bit_and (v / 2 ^ 24) 255)
    ∷ []

word16 : ℕ → ℕ → ℕ
word16 b0 b1 = bit_or b0 (b1 * 2 ^ 8)

word32 : ℕ → ℕ → ℕ → ℕ → ℕ
word32 b0 b1 b2 b3 = bit_or (bit_or (bit_or b0 (b1 * 2 ^ 8)) (b2 * 2 ^ 16)) (b3 * 2 ^ 24)

unfoldable pub get_u16 : List ℕ → ℕ
unfolding word16
get_u16 p = word16 (get_or p 0 0) (get_or p 1 0)

unfoldable pub get_u32 : List ℕ → ℕ
unfolding word32
get_u32 p = word32 (get_or p 0 0) (get_or p 1 0) (get_or p 2 0) (get_or p 3 0)

low_byte : (v : ℕ) → u8 (bit_and v 255) ≡ v % 2 ^ 8
low_byte v = omega (arith, bit_and_mask 8 v)

pub or_above : (k r q : ℕ) → r < 2 ^ k → bit_or r (q * 2 ^ k) ≡ q * 2 ^ k + r
or_above k r q h = bit_or_comm r (q * 2 ^ k) ∙ bit_or_fields k q r h

word16_sum : (b0 b1 : ℕ) → b0 < 2 ^ 8 → word16 b0 b1 ≡ b1 * 2 ^ 8 + b0
unfolding word16
word16_sum b0 b1 h = or_above 8 b0 b1 h

word32_sum :
    (b0 b1 b2 b3 : ℕ)
    → b0 < 2 ^ 8
    → b1 < 2 ^ 8
    → b2 < 2 ^ 8
    → word32 b0 b1 b2 b3 ≡ b3 * 2 ^ 24 + (b2 * 2 ^ 16 + (b1 * 2 ^ 8 + b0))
unfolding word32
word32_sum b0 b1 b2 b3 h k m =
    rw (or_above 8 b0 b1 h) rw (or_above 16 (b1 * 2 ^ 8 + b0) b2 (omega arith))
      (or_above 24 (b2 * 2 ^ 16 + (b1 * 2 ^ 8 + b0)) b3 (omega arith))

pub get_u16-put_u16 : (v : ℕ) (rest : List ℕ) → v < 2 ^ 16 → get_u16 (put_u16 v ++ rest) ≡ v
unfolding get_u16 put_u16
get_u16-put_u16 v rest h =
    word16_sum (u8 (bit_and v 255)) (u8 (v / 2 ^ 8)) (omega arith) ∙ omega (arith, low_byte v)

pub get_u32-put_u32 : (v : ℕ) (rest : List ℕ) → v < 2 ^ 32 → get_u32 (put_u32 v ++ rest) ≡ v
unfolding get_u32 put_u32
get_u32-put_u32 v rest h =
    word32_sum (u8 (bit_and v 255)) (u8 (bit_and (v / 2 ^ 8) 255)) (u8 (bit_and (v / 2 ^ 16) 255))
      (u8 (bit_and (v / 2 ^ 24) 255)) (omega arith) (omega arith) (omega arith)
    ∙ omega (arith, low_byte v, low_byte (v / 2 ^ 8), low_byte (v / 2 ^ 16), low_byte (v / 2 ^ 24))

pub length-put_u16 : (v : ℕ) → length (put_u16 v) ≡ 2
unfolding put_u16
length-put_u16 v = refl

pub length-put_u32 : (v : ℕ) → length (put_u32 v) ≡ 4
unfolding put_u32
length-put_u32 v = refl
