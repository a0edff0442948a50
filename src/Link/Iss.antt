-- ===== src/Link/Iss.antt =====
-- core/link/link.c: the receiver's events while this station is the sending one.
use ardopb.Base.{ℕ, ◌+◌, Bool, true, false, not, none, some, List, ◌++◌, ltb, leb, ◌==◌}
use ardopb.Base.{if◌then◌else◌, decimal, snprintf, text}
use ardopb.Base.Int.{ℤ, pos, negsuc}
use ardopb.Codec.Frame.{data_ack_min, data_nak_max, ft_break}
use ardopb.Link.Quality.{quality_avg, quality_from_type, quality_to_ack_type}
use ardopb.Link.Send.{tx_dequeue, notify_buffer, gearshift, iss_send_next, iss_begin_sending}
use ardopb.Link.State.{Link, irs_from_iss, Event, tx_len}
use ardopb.Link.Turn.{
  Turn, ◌▷◌, change, set_session, set_sender, set_gear, set_timers, set_state, send_control,
  tell_host, arm_stall, arm_idle, is_decoded, connected_teardown,
}

-- The message at the end of the handshake.
abbrev pub connected_message : Link → List ℕ
connected_message l =
    snprintf 64
      (text "CONNECTED " ++ (l.session.remote.str ++ (text " " ++ decimal l.session.session_bw)))

unfoldable pub step_iss_conack_rx : Event → ℕ → Turn → Turn
step_iss_conack_rx ev now t =
    if not (is_decoded ev)
    then t
    else if leb data_ack_min ev.frame_type
    then t
      ▷ change (set_session λ s. record s { pending = false })
      ▷ change iss_begin_sending
      ▷ change (arm_stall now)
      ▷ change (arm_idle now)
      ▷ (λ u. tell_host (connected_message u.link) u)
      ▷ iss_send_next now
    else t

-- -1 for the type of the last data frame is `none`.
unfoldable pub iss_yield_on_break : Turn → Turn
iss_yield_on_break t =
    t
    ▷ change (set_sender λ s. record s { outstanding_len = 0 })
    ▷ change (set_session λ s. record s { last_data_to_host = none })
    ▷ change (set_timers λ r. record r { repeat_deadline = 0 })
    ▷ change (set_state irs_from_iss)
    ▷ send_control (quality_to_ack_type (pos 100))

-- The reported quality folded into the average.
abbrev fold_quality : ℕ → Link → Link
fold_quality frame_type =
    set_session
      λ s. record s { avg_quality = quality_avg s.avg_quality (quality_from_type frame_type) }

unfoldable pub on_data_ack : ℕ → ℕ → Turn → Turn
on_data_ack frame_type now t =
    t
    ▷ change (set_gear λ g. record g { ack_ctr = g.ack_ctr + 1 })
    ▷ change (set_sender λ s. record s { last_data_acked = s.last_data_sent })
    ▷ change (tx_dequeue t.link.sender.outstanding_len)
    ▷ change (set_sender λ s. record s { outstanding_len = 0 })
    ▷ change (arm_idle now)
    ▷ notify_buffer
    ▷ change (fold_quality frame_type)
    ▷ gearshift
    ▷ change (set_gear λ g. record g { nak_ctr = 0 })
    ▷ iss_send_next now

-- `shift_up_dn != 0`
unfoldable pub is_shift : ℤ → Bool
is_shift (pos n) = not (n == 0)
is_shift (negsuc n) = true

-- A NAK that shifted the gear is answered at once.
unfoldable pub resend_if_shifted : ℕ → Turn → Turn
resend_if_shifted now t =
    if is_shift t.link.gear.shift_up_dn
    then t ▷ change (set_gear λ g. record g { nak_ctr = 0 }) ▷ iss_send_next now
    else t

unfoldable pub on_data_nak : ℕ → ℕ → Turn → Turn
on_data_nak frame_type now t =
    t
    ▷ change (set_gear λ g. record g { nak_ctr = g.nak_ctr + 1 })
    ▷ change (fold_quality frame_type)
    ▷ gearshift
    ▷ resend_if_shifted now
    ▷ change (set_gear λ g. record g { ack_ctr = 0 })

unfoldable pub step_iss_data_rx : Event → ℕ → Turn → Turn
step_iss_data_rx ev now t = if not (is_decoded ev) then t else elim (connected_teardown ev now t) [
  | some done ↦ done
  | none ↦
      if ev.frame_type == ft_break
      then iss_yield_on_break t
      else if leb data_ack_min ev.frame_type
      then on_data_ack ev.frame_type now t
      else if leb ev.frame_type data_nak_max
      then on_data_nak ev.frame_type now t
      else t
]

unfoldable pub step_idle_rx : Event → ℕ → Turn → Turn
step_idle_rx ev now t = if not (is_decoded ev) then t else elim (connected_teardown ev now t) [
  | some done ↦ done
  | none ↦
      if ev.frame_type == ft_break
      then iss_yield_on_break t
      else if leb data_ack_min ev.frame_type
      then (if ltb 0 (tx_len t.link) then iss_send_next now t else t)
      else t
]
