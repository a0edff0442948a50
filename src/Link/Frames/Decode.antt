-- ===== src/Link/Frames/Decode.antt =====
-- What a receiver reads from the control frames.
use ardopb.Base.{ℕ, ◌+◌, ◌-◌, ◌/◌, ◌%◌, ◌≤◌, ◌<◌, ◌≡◌, arith, bit_xor}
use ardopb.Base.{List, get_or, min}
use ardopb.Base.Bits.{bit_and_mask, bit_xor_comm, bit_xor-cancel, bit_xor-lt}
use ardopb.Base.Int.{ℤ, pos, negsuc, ◌≤ℤ◌}
use ardopb.Link.Frames.{
  encode_control, encode_conack_timing, encode_pingack, leader_timing, sn_field, quality_steps,
}

-- The session that a control frame was sent in: what is left of its second byte, the type removed.
abbrev pub session_of : List ℕ → ℕ
session_of frame = bit_xor (get_or frame 1 0) (get_or frame 0 0)

-- The type and the session id of a control frame are read back from its two bytes.
pub session_of-encode_control :
    (t s : ℕ)
    → t < 256
    → s < 256
    → (get_or (encode_control t s) 0 0 ≡ t) × (session_of (encode_control t s) ≡ s)
unfolding encode_control
session_of-encode_control t s h k =
    ground (arith, bit_xor-lt 8 t s h k, bit_xor_comm t s, bit_xor-cancel s t)

-- The S/N in decibels above -10, which five bits hold: 31 for all above 20 dB.
abbrev pub above_floor : ℤ → ℕ
above_floor (pos sn) = min (sn + 10) 31
above_floor (negsuc sn) = 9 - sn

-- A PingAck states, three times over, an S/N from -10 dB up to 20 dB exactly and all above as 21 dB, and
-- a quality up to 100 in steps of ten from 30 on.
pub encode_pingack_lem :
    (t q : ℕ) (sn : ℤ)
    → negsuc 9 ≤ℤ sn
    → q ≤ 100
    → let frame = encode_pingack t sn (pos q) in
      let info = get_or frame 2 0 in
      (info / 8 ≡ above_floor sn)
      × (info % 8 ≡ (q - 30) / 10)
      × (get_or frame 3 0 ≡ info)
      × (get_or frame 4 0 ≡ info)
unfolding encode_pingack sn_field quality_steps
encode_pingack_lem t q (pos sn) h k =
    ground (arith, bit_and_mask 5 (sn + 10), bit_and_mask 3 ((q - 30) / 10))
encode_pingack_lem t q (negsuc sn) h k =
    ground (arith, bit_and_mask 5 (10 + 31 - sn % 32), bit_and_mask 3 ((q - 30) / 10))

-- A ConAck states, three times over, a received leader of at most 2550 ms in tens of milliseconds, and 0
-- for a longer one.
encode_conack_timing_lem :
    (t leader s : ℕ)
    → let frame = encode_conack_timing t (pos leader) s in
      let timing = get_or frame 2 0 in
      (leader ≤ 2550 → timing ≡ leader / 10)
      × (2550 < leader → timing ≡ 0)
      × (get_or frame 3 0 ≡ timing)
      × (get_or frame 4 0 ≡ timing)
unfolding encode_conack_timing leader_timing
encode_conack_timing_lem t leader s = ground arith
