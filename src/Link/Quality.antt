-- ===== src/Link/Quality.antt =====
-- core/link/quality.c: the decode quality carried by ACK and NAK type bytes.
pub mod Report
use ardopb.Base.{ℕ, ◌+◌, ◌-◌, ◌*◌, ◌/◌, ◌%◌, ◌^◌, bit_and, ltb, leb, ◌==◌, if◌then◌else◌, u8}
use ardopb.Base.Int.{ℤ, pos, negsuc}

-- `(quality / 2) - 19`, or 0 where that is negative. C divides towards zero, so a negative quality
-- gives a negative difference.
unfoldable pub scale_quality : ℤ → ℕ
scale_quality (pos quality) = u8 (quality / 2 - 19)
scale_quality (negsuc quality) = 0

unfoldable pub clamp_100 : ℤ → ℤ
clamp_100 (pos quality) = if ltb 100 quality then pos 100 else pos quality
clamp_100 (negsuc quality) = negsuc quality

unfoldable pub quality_to_ack_type : ℤ → ℕ
unfolding scale_quality clamp_100
quality_to_ack_type quality = u8 (0xE0 + scale_quality (clamp_100 quality))

unfoldable pub quality_to_nak_type : ℤ → ℕ
unfolding scale_quality
quality_to_nak_type quality = scale_quality quality

unfoldable pub quality_from_type : ℕ → ℕ
quality_from_type frame_type = 38 + 2 * bit_and frame_type 0x1F

-- The average of the source is computed in `float`, where halves of numbers this small are exact,
-- and truncated after 0.5 is added: half the sum, rounded up. Neither number is ever negative.
unfoldable pub quality_avg : ℕ → ℕ → ℕ
quality_avg avg reported = if avg == 0 then reported else (avg + reported + 1) / 2
