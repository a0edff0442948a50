-- ===== src/Asp/Crc.antt =====
-- app/asp_wire.c: the CRC-32 of IEEE 802.3, by nibbles.
pub mod Pieces
use ardopb.Base.{ℕ, ◌-◌, ◌/◌, ◌^◌, bit_and, bit_xor, List, [], ◌∷◌, get_or}

unfoldable pub crc_nibble : List ℕ
crc_nibble =
    0x00000000 ∷ 0x1db71064 ∷ 0x3b6e20c8 ∷ 0x26d930ac ∷ 0x76dc4190 ∷ 0x6b6b51f4 ∷ 0x4db26158
    ∷ 0x5005713c ∷ 0xedb88320 ∷ 0xf00f9344 ∷ 0xd6d6a3e8 ∷ 0xcb61b38c ∷ 0x9b64c2b0 ∷ 0x86d3d2d4
    ∷ 0xa00ae278 ∷ 0xbdbdf21c ∷ []

-- `~crc` of a `uint32_t`.
abbrev pub not32 : ℕ → ℕ
not32 crc = 2 ^ 32 - 1 - crc

unfoldable pub crc_step : ℕ → ℕ
crc_step crc = bit_xor (crc / 2 ^ 4) (get_or crc_nibble (bit_and crc 15) 0)

unfoldable pub crc_loop : ℕ → List ℕ → ℕ
crc_loop crc [] = crc
crc_loop crc (p ∷ ps) = crc_loop (crc_step (crc_step (bit_xor crc p))) ps

unfoldable pub crc32 : ℕ → List ℕ → ℕ
crc32 crc bytes = not32 (crc_loop (not32 crc) bytes)
