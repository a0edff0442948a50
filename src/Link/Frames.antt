-- ===== src/Link/Frames.antt =====
-- core/link/frames.c: the control frame builders. Each returns the bytes that it writes.
pub mod Decode
use ardopb.Base.{ℕ, ◌+◌, ◌-◌, ◌*◌, ◌/◌, ◌%◌, ◌^◌, bit_and, bit_xor, List, [], ◌∷◌}
use ardopb.Base.{Bool, true, false, ltb, leb, ◌==◌, if◌then◌else◌, u8}
use ardopb.Base.Int.{ℤ, pos, negsuc, pos_part, neg_part, ltb_ℤ, ◌≤ℤ◌}

unfoldable pub encode_control : ℕ → ℕ → List ℕ
encode_control frame_type session_id = frame_type ∷ u8 (bit_xor frame_type session_id) ∷ []

-- The received leader in tens of milliseconds.
unfoldable pub leader_timing : ℤ → ℕ
leader_timing (pos rcvd_leader_ms) =
    let timing = rcvd_leader_ms / 10 in
    if ltb 2550 rcvd_leader_ms then 0 else if ltb 255 timing then 255 else timing
leader_timing (negsuc rcvd_leader_ms) = 0

unfoldable pub encode_conack_timing : ℕ → ℤ → ℕ → List ℕ
encode_conack_timing frame_type rcvd_leader_ms session_id =
    let timing = u8 (leader_timing rcvd_leader_ms) in
    frame_type ∷ u8 (bit_xor frame_type session_id) ∷ timing ∷ timing ∷ timing ∷ []

-- `((sn + 10) & 0x1F) << 3`, or 0xF8 from 21 dB on. The low bits of a negative number are those of
-- its two's complement; 32 divides the numbers that are added.
unfoldable pub sn_field : ℤ → ℕ
sn_field (pos sn) = if leb 21 sn then 0xF8 else bit_and (sn + 10) 0x1F * 2 ^ 3
sn_field (negsuc sn) = bit_and (10 + 31 - sn % 32) 0x1F * 2 ^ 3

-- `(quality - 30) / 10`, or 0 where that is negative.
unfoldable pub quality_steps : ℤ → ℕ
quality_steps (pos quality) = (quality - 30) / 10
quality_steps (negsuc quality) = 0

unfoldable pub encode_pingack : ℕ → ℤ → ℤ → List ℕ
encode_pingack frame_type sn quality =
    let info = u8 (sn_field sn + bit_and (quality_steps quality) 7) in
    frame_type ∷ u8 (bit_xor frame_type 0xFF) ∷ info ∷ info ∷ info ∷ []
