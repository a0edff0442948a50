-- ===== src/Link/Quality/Report.antt =====
-- The quality that a station reports is the one that the other station reads.
use ardopb.Base.{ℕ, ◌+◌, ◌-◌, ◌*◌, ◌/◌, ◌%◌, ◌≤◌, ◌≡◌, ◌≢◌, arith, if◌then◌else◌, ltb}
use ardopb.Base.Bits.{bit_and_mask}
use ardopb.Base.Int.{ℤ, pos, negsuc, pos_part}
use ardopb.Link.Quality.{
  scale_quality, clamp_100, quality_to_ack_type, quality_to_nak_type, quality_from_type,
  quality_avg,
}

-- What the five bits keep of a quality: the even number below it, and nothing below 38 or above 100.
abbrev pub reported : ℤ → ℕ
reported quality =
    let q = pos_part quality in if ltb q 38 then 38 else if ltb 100 q then 100 else q / 2 * 2

-- An ACK of any quality is an ACK type byte, and tells its reader that quality, rounded down to an
-- even number and kept within 38 to 100.
pub quality_from_type-quality_to_ack_type :
    (quality : ℤ)
    → let t = quality_to_ack_type quality in
      (0xE0 ≤ t) × (t ≤ 0xFF) × (quality_from_type t ≡ reported quality)
unfolding quality_to_ack_type quality_from_type scale_quality clamp_100
quality_from_type-quality_to_ack_type (pos q) = ground (
  arith,
  bit_and_mask 5 ((0xE0 + (q / 2 - 19) % 256) % 256),
  bit_and_mask 5 ((0xE0 + (100 / 2 - 19) % 256) % 256),
)
quality_from_type-quality_to_ack_type (negsuc q) = ground (arith, bit_and_mask 5 0xE0)

-- A NAK of a quality up to 100 is a NAK type byte, and tells its reader that quality likewise.
pub quality_from_type-quality_to_nak_type :
    (quality : ℤ)
    → pos_part quality ≤ 100
    → let t = quality_to_nak_type quality in (t ≤ 0x1F) × (quality_from_type t ≡ reported quality)
unfolding quality_to_nak_type quality_from_type scale_quality
quality_from_type-quality_to_nak_type (pos q) h =
    ground (arith, bit_and_mask 5 ((q / 2 - 19) % 256))
quality_from_type-quality_to_nak_type (negsuc q) h = ground (arith, bit_and_mask 5 0)

-- A running average of numbers in a range stays in that range, and is not 0 after a report other
-- than 0.
pub quality_avg_bounds :
    (avg report lo hi : ℕ)
    → lo ≤ avg
    → lo ≤ report
    → avg ≤ hi
    → report ≤ hi
    → report ≢ 0
    → (lo ≤ quality_avg avg report) × (quality_avg avg report ≤ hi) × (quality_avg avg report ≢ 0)
unfolding quality_avg
quality_avg_bounds avg report lo hi h1 h2 h3 h4 n = ground arith
