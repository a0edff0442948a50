-- ===== src/Codec/Crc/Types.antt =====
-- The trailer of core/codec/crc.c tells the frame types apart.
use ardopb.Base.{ℕ, ◌<◌, ◌≡◌, arith, bit_and, bit_xor, List}
use ardopb.Base.{◌==◌, u8}
use ardopb.Base.Bits.{bit_and_mask, bit_xor_comm, bit_xor-cancel, bit_xor-lt}
use ardopb.Codec.Crc.{crc16, crc16_trailer, crc16_trailer_ok}

-- The mixing of the frame type is one to one.
mix_injective :
    (c t t' : ℕ)
    → t < 256
    → t' < 256
    → u8 (bit_xor (bit_and c 0xFF) t) ≡ u8 (bit_xor (bit_and c 0xFF) t')
    → t ≡ t'
mix_injective c t t' h h' e = cc (
  bit_xor-cancel t (bit_and c 0xFF),
  bit_xor-cancel t' (bit_and c 0xFF),
  bit_xor_comm t (bit_and c 0xFF),
  bit_xor_comm t' (bit_and c 0xFF),
  same,
)
  where
    low : bit_and c 0xFF < 256
    low = omega (arith, bit_and_mask 8 c)

    same : bit_xor (bit_and c 0xFF) t ≡ bit_xor (bit_and c 0xFF) t'
    same =
        omega
          (arith, bit_xor-lt 8 (bit_and c 0xFF) t low h, bit_xor-lt 8 (bit_and c 0xFF) t' low h')

-- A trailer made for one frame type is accepted for that type and for no other, over the same data.
pub crc16_trailer_ok-crc16_trailer :
    (bytes : List ℕ) (t t' : ℕ)
    → t < 256
    → t' < 256
    → crc16_trailer_ok bytes t (crc16_trailer bytes t') ≡ (t == t')
unfolding crc16_trailer_ok crc16_trailer
crc16_trailer_ok-crc16_trailer bytes t t' h h' =
    ground (arith, mix_injective (crc16 bytes) t t' h h')
