-- ===== src/Link/Send.antt =====
-- core/link/link.c: the sending station's queue, gear shift and next frame.
pub mod Rungs
use ardopb.Base.{ℕ, zero, suc, ◌+◌, ◌-◌, ◌*◌, bit_and, bit_xor, Bool, false, not}
use ardopb.Base.{◌&&◌, Option, none, some, List, ◌++◌, length, take, drop, set}
use ardopb.Base.{
  get_elem?, replicate, ltb, leb, ◌==◌, if◌then◌else◌, u8, u16, decimal, snprintf, text,
}
use ardopb.Base.Int.{ℤ, pos, negsuc}
use ardopb.Codec.DataFrame.{nothing, failed, frame, encode_data_frame}
use ardopb.Codec.Frame.{FrameSpec, spec_for, ft_idle}
use ardopb.Link.DataModes.{data_modes, shift_up_thresholds}
use ardopb.Link.State.{Link, Gear, iss, idle, tx_len}
use ardopb.Link.Turn.{
  Turn, ◌▷◌, change, fault, set_session, set_sender, set_gear, set_state, write_frame, send_built,
  send_control, tell_host, arm_repeat,
}

-- Whole-frame data capacity.
unfoldable pub capacity_of : Option FrameSpec → ℕ
capacity_of none = 0
capacity_of (some spec) = spec.carriers * spec.data_bytes_per_carrier

unfoldable pub frame_capacity : ℕ → ℕ
unfolding capacity_of
frame_capacity frame_type = capacity_of (spec_for frame_type)

-- `drop` stops at the end of the queue, as the clamped count does.
unfoldable pub tx_dequeue : ℕ → Link → Link
tx_dequeue count = set_sender λ s. record s { tx_data = drop count s.tx_data }

unfoldable pub notify_buffer : Turn → Turn
notify_buffer t = tell_host (snprintf 32 (text "BUFFER " ++ decimal (tx_len t.link))) t

-- `a[i]++` in an array of `uint16_t`.
unfoldable pub increment : List ℕ → ℕ → List ℕ
increment counts i = elim (get_elem? counts i) [
  | none ↦ counts
  | some n ↦ set counts i (u16 (n + 1))
]

-- The counts of the mode that was used.
unfoldable pub record_use : ℕ → Gear → Gear
record_use mode_ptr g =
    if not (g.ack_ctr == 0)
    then record g { mode_has_worked = increment g.mode_has_worked mode_ptr }
    else if not (g.nak_ctr == 0)
    then record g { mode_naks = increment g.mode_naks mode_ptr }
    else g

-- A shift clears the counters.
abbrev shifted : ℤ → Gear → Gear
shifted dir g = record g { shift_up_dn = dir; nak_ctr = 0; ack_ctr = 0 }

-- What the gear box reads from the tables at `mode_ptr`: how often the mode has worked, its
-- threshold and its type.
abbrev pub Reading : Type 0
Reading = ℕ × ℕ × ℕ

unfoldable pub readings : Link → Option Reading
readings l =
    let p = l.sender.mode_ptr in
    elim (get_elem? l.gear.mode_has_worked p) [
      | none ↦ none
      | some worked ↦ elim (get_elem? l.sender.thresholds p) [
        | none ↦ none
        | some threshold ↦ elim (get_elem? l.sender.modes p) [
          | none ↦ none
          | some mode ↦ some (worked, threshold, mode)
        ]
      ]
    ]

-- Whether the next mode was tried, never worked, and is not due for another try.
unfoldable pub retry_blocked : ℕ → Gear → Bool
retry_blocked mode_ptr g =
    elim (get_elem? g.mode_has_been_tried (mode_ptr + 1)) [
      | none ↦ false
      | some tried ↦ not (tried == 0)
    ]
    && elim (get_elem? g.mode_has_worked (mode_ptr + 1)) [
      | none ↦ false
      | some worked ↦ worked == 0
    ]
    && ltb g.ack_ctr 5

-- The decision to shift up, behind the tests of the quality and the ladder's end.
unfoldable pub shift_up : ℕ → Link → Link
shift_up mode l =
    let p = l.sender.mode_ptr in
    let stay = set_gear (λ g. record g { shift_up_dn = pos 0 }) l in
    if leb (tx_len l) (frame_capacity mode)
    then stay
    else if retry_blocked p l.gear
    then stay
    else l
      ▷ set_gear (λ g.
        shifted (pos 1) (record g { mode_has_been_tried = set g.mode_has_been_tried (p + 1) 1 }))
      ▷ set_session (λ s. record s { avg_quality = 0 })

-- `gearshift` behind its first reads: `down_naks` is fixed before the counts change.
unfoldable pub gearshift_at : Reading → Link → Link
gearshift_at (worked, threshold, mode) l =
    let p = l.sender.mode_ptr in
    let down_naks : ℕ = if worked == 0 then 1 else 2 in
    let m = set_gear (record_use p) l in
    if ltb 0 p && leb down_naks m.gear.nak_ctr
    then m ▷ set_gear (shifted (negsuc 0)) ▷ set_session (λ s. record s { avg_quality = 0 })
    else if ltb threshold m.session.avg_quality
        && ltb (p + 1) m.sender.modes_len
        && leb 2 m.gear.ack_ctr
    then shift_up mode m
    else m

-- The fault stands for a read outside the tables.
unfoldable pub gearshift : Turn → Turn
gearshift t = elim (readings t.link) [ none ↦ fault t | some r ↦ change (gearshift_at r) t ]

-- The mode pointer after a pending shift: `mode_ptr + shift_up_dn`, not below 0 and not above the
-- length.
unfoldable pub shifted_ptr : ℤ → ℕ → ℕ → ℕ
shifted_ptr (negsuc n) mode_ptr modes_len = if ltb 0 mode_ptr then mode_ptr - (n + 1) else mode_ptr
shifted_ptr (pos zero) mode_ptr modes_len = mode_ptr
shifted_ptr (pos (suc n)) mode_ptr modes_len =
    if ltb mode_ptr modes_len
    then (if ltb modes_len (mode_ptr + suc n) then modes_len else mode_ptr + suc n)
    else mode_ptr

unfoldable pub apply_shift : Link → Link
apply_shift l =
    l
    ▷ set_sender
        (λ s. record s { mode_ptr = shifted_ptr l.gear.shift_up_dn s.mode_ptr s.modes_len })
    ▷ set_gear (λ g. record g { shift_up_dn = pos 0 })

-- The type of the next data frame: the mode, or its partner where the mode has the parity of the
-- frame last acked.
unfoldable pub toggled_type : ℕ → ℕ → ℕ
toggled_type base last_data_acked =
    if bit_and base 1 == bit_and last_data_acked 1 then u8 (bit_xor base 1) else base

-- The encoded frame goes out and is armed to repeat.
unfoldable pub send_data_frame : ℕ → ℕ → ℕ → List ℕ → Turn → Turn
send_data_frame ft taken now bytes t =
    t
    ▷ change (write_frame bytes)
    ▷ change (set_sender λ s. record s { outstanding_len = taken })
    ▷ change (set_state iss)
    ▷ send_built ft (length bytes)
    ▷ change (arm_repeat ft (length bytes) now)

-- The data frame of type `ft` with the head of the queue. The faults are the NULL specification and
-- the NULL code.
unfoldable pub send_next_data : ℕ → ℕ → Turn → Turn
send_next_data ft now t = elim (spec_for ft) [
  | none ↦ fault t
  | some spec ↦ elim t.link.config.rs [
    | none ↦ fault t
    | some rs ↦
        let payload = take (spec.carriers * spec.data_bytes_per_carrier) t.link.sender.tx_data in
        elim (encode_data_frame rs ft t.link.session.session_id payload) [
          | nothing ↦ t
          | failed bytes ↦ change (write_frame bytes) t
          | frame bytes ↦ send_data_frame ft (length payload) now bytes t
        ]
  ]
]

unfoldable pub send_idle : ℕ → Turn → Turn
send_idle now t =
    t ▷ send_control ft_idle ▷ change (set_state idle) ▷ change (arm_repeat ft_idle 2 now)

unfoldable pub send_queued : ℕ → Turn → Turn
send_queued now t = elim (get_elem? t.link.sender.modes t.link.sender.mode_ptr) [
  | none ↦ fault t
  | some base ↦
      let ft = toggled_type base t.link.sender.last_data_acked in
      t ▷ change (set_sender λ s. record s { last_data_sent = ft }) ▷ send_next_data ft now
]

unfoldable pub iss_send_next : ℕ → Turn → Turn
iss_send_next now t =
    let u = change apply_shift t in
    if tx_len u.link == 0 then send_idle now u else send_queued now u

-- The ladder and the counters at the start of sending.
unfoldable pub iss_begin_sending : Link → Link
iss_begin_sending l =
    let c = l.config in
    let (modes, modes_len) =
      data_modes l.session.session_bw c.fsk_only c.tuning_range c.use_600_modes in
    l
    ▷ set_session (λ s. record s { avg_quality = 0 })
    ▷ set_sender (λ s. record s {
      last_data_acked = 1;
      modes = modes;
      modes_len = modes_len;
      thresholds = shift_up_thresholds l.session.session_bw c.tuning_range c.use_600_modes;
      mode_ptr = 0;
    })
    ▷ set_gear (λ g. record g {
      ack_ctr = 0;
      nak_ctr = 0;
      shift_up_dn = pos 0;
      mode_has_worked = replicate 16 0;
      mode_has_been_tried = replicate 16 0;
      mode_naks = replicate 16 0;
    })
