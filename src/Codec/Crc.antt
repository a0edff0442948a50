-- ===== src/Codec/Crc.antt =====
-- core/codec/crc.c.
pub mod Types
use ardopb.Base.{ℕ, zero, suc, ◌+◌, ◌*◌, ◌/◌, ◌%◌, ◌^◌, bit_and, bit_xor, Bool, true, ◌&&◌}
use ardopb.Base.{List, [], ◌∷◌, ◌==◌, if◌then◌else◌, u8, u16, get_or}

-- One round of the inner loop: shift `in_bit` into the register, and divide if a one falls out.
-- `top` is the value of the register's most significant bit.
shift_in : ℕ → ℕ → ℕ → ℕ → ℕ
shift_in top poly reg in_bit =
    let shifted = (reg * 2 + in_bit) % (top * 2) in
    if bit_and reg top == 0 then shifted else bit_xor shifted poly

-- The eight rounds over one byte, most significant bit first, with `bits` rounds left.
shift_byte : ℕ → ℕ → ℕ → ℕ → ℕ → ℕ
shift_byte top poly zero byte reg = reg
shift_byte top poly (suc bit) byte reg =
    shift_byte top poly bit byte (shift_in top poly reg (byte / 2 ^ bit % 2))

-- The outer loop.
pub crc_loop : ℕ → ℕ → List ℕ → ℕ → ℕ
crc_loop top poly [] reg = reg
crc_loop top poly (byte ∷ data') reg = crc_loop top poly data' (shift_byte top poly 8 byte reg)

unfoldable pub crc16 : List ℕ → ℕ
unfolding crc_loop shift_byte shift_in
crc16 bytes = crc_loop 0x8000 0x8810 bytes 0xFFFF

unfoldable pub crc8 : List ℕ → ℕ
unfolding crc_loop shift_byte shift_in
crc8 bytes = crc_loop 0x80 0xC6 bytes 0xFF

-- The two trailer bytes; the frame type is mixed into the second.
unfoldable pub crc16_trailer : List ℕ → ℕ → List ℕ
crc16_trailer bytes frame_type =
    let crc = crc16 bytes in u8 (crc / 2 ^ 8) ∷ u8 (bit_xor (bit_and crc 0xFF) frame_type) ∷ []

unfoldable pub crc16_trailer_ok : List ℕ → ℕ → List ℕ → Bool
crc16_trailer_ok bytes frame_type trailer =
    let expected = crc16_trailer bytes frame_type in
    (get_or trailer 0 0 == get_or expected 0 0) && (get_or trailer 1 0 == get_or expected 1 0)
