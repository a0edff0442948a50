-- ===== src/Link/Irs.antt =====
-- core/link/link.c: the receiver's events while this station is the receiving one, and while it
-- waits to become the sending one.
pub mod Once
use ardopb.Base.{ℕ, Bool, true, false, not, ◌&&◌, ◌||◌, Option, none, some, List, length, take, ltb}
use ardopb.Base.{leb, ◌==◌, if◌then◌else◌, overwrite}
use ardopb.Codec.Frame.{data_ack_min, ft_break, ft_idle, is_data, is_con_ack}
use ardopb.Link.Iss.{connected_message}
use ardopb.Link.Quality.{quality_to_ack_type, quality_to_nak_type}
use ardopb.Link.Send.{iss_send_next, iss_begin_sending}
use ardopb.Link.State.{
  LinkState, irs_data, irs_from_iss, irs_to_iss, Event, frame_bad, deliver_data, max_payload,
  tx_len,
}
use ardopb.Link.Turn.{
  Turn, ◌▷◌, change, emit, set_session, set_timers, set_state, send_control, tell_host, arm_stall,
  arm_idle, arm_repeat, is_decoded, connected_teardown, conack_bandwidth,
}

unfoldable pub step_irs_conack_rx : Event → ℕ → Turn → Turn
step_irs_conack_rx ev now t =
    if not (is_decoded ev)
    then t
    else if is_con_ack ev.frame_type
    then t
      ▷ change (
          set_session
            λ s. record s { session_bw = conack_bandwidth ev.frame_type; pending = false })
      ▷ change (set_timers λ r. record r { pending_deadline = 0 })
      ▷ change (arm_stall now)
      ▷ change (arm_idle now)
      ▷ change (set_session λ s. record s { avg_quality = 0 })
      ▷ change (set_state irs_data)
      ▷ (λ u. tell_host (connected_message u.link) u)
      ▷ send_control (quality_to_ack_type ev.quality)
    else t

-- A payload past the size of `out_data` is cut.
unfoldable pub deliver : List ℕ → Turn → Turn
deliver bytes t =
    let kept = take max_payload bytes in
    t
    ▷ change (λ l. record l {
      scratch = record l.scratch { out_data = overwrite kept l.scratch.out_data };
    })
    ▷ emit (deliver_data (length kept))

unfoldable pub send_break : ℕ → Turn → Turn
send_break now t =
    t
    ▷ send_control ft_break
    ▷ change (set_state irs_to_iss)
    ▷ change (set_session λ s. record s { break_pending = false })
    ▷ change (set_timers λ r. record r { repeat_interval_ms = 2000 })
    ▷ change (arm_repeat ft_break 2 now)

-- Whether a type is the one kept in a field that may be -1.
abbrev pub is_type : ℕ → Option ℕ → Bool
is_type frame_type none = false
is_type frame_type (some kept) = frame_type == kept

abbrev is_irs_data : LinkState → Bool
is_irs_data s = elim s [ irs_data ↦ true | _ ↦ false ]

-- The first frame after a handover settles the station into receiving.
abbrev pub settle : LinkState → LinkState
settle s = elim s [ irs_from_iss ↦ irs_data | other ↦ other ]

abbrev settled : Turn → Turn
settled = change λ l. record l { state = settle l.state }

unfoldable pub on_idle : Event → ℕ → Turn → Turn
on_idle ev now t =
    if is_irs_data t.link.state
      && ltb 0 (tx_len t.link)
      && (t.link.session.break_pending || t.link.config.auto_break)
    then send_break now t
    else send_control (quality_to_ack_type ev.quality) t

-- A frame of the type last delivered is a retransmission.
unfoldable pub deliver_once : Event → Turn → Turn
deliver_once ev t =
    if is_type ev.frame_type t.link.session.last_data_to_host
    then t
    else t
      ▷ deliver ev.payload
      ▷ change (set_session λ s. record s { last_data_to_host = some ev.frame_type })

unfoldable pub accept_data : Event → Turn → Turn
accept_data ev t =
    t
    ▷ deliver_once ev
    ▷ settled
    ▷ send_control (quality_to_ack_type ev.quality)
    ▷ change (set_session λ s. record s { last_acked_type = some ev.frame_type })

unfoldable pub on_data : Event → ℕ → Turn → Turn
on_data ev now t =
    let u = change (arm_idle now) t in
    if is_irs_data u.link.state
      && u.link.session.break_pending
      && not (is_type ev.frame_type u.link.session.last_acked_type)
    then send_break now u
    else accept_data ev u

abbrev pub is_bad : Event → Bool
is_bad ev = elim ev.kind [ frame_bad ↦ true | _ ↦ false ]

unfoldable pub step_irs_data_rx : Event → ℕ → Turn → Turn
step_irs_data_rx ev now t = elim (connected_teardown ev now t) [
  | some done ↦ done
  | none ↦
      if is_decoded ev && (ev.frame_type == ft_idle)
      then on_idle ev now t
      else if is_decoded ev && is_data ev.frame_type
      then on_data ev now t
      else if is_bad ev && is_type ev.frame_type t.link.session.last_acked_type
      then send_control (quality_to_ack_type ev.quality) t
      else if is_bad ev && is_data ev.frame_type
      then t ▷ settled ▷ send_control (quality_to_nak_type ev.quality)
      else t
]

unfoldable pub step_irs_to_iss_rx : Event → ℕ → Turn → Turn
step_irs_to_iss_rx ev now t = elim (connected_teardown ev now t) [
  | some done ↦ done
  | none ↦
      if is_decoded ev && leb data_ack_min ev.frame_type
      then t
        ▷ change iss_begin_sending
        ▷ change (set_session λ s. record s { last_data_to_host = none })
        ▷ iss_send_next now
      else t
]
