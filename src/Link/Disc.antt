-- ===== src/Link/Disc.antt =====
-- core/link/link.c: the receiver's events while disconnected, and while a connect request of ours
-- is out.
pub mod Call
use ardopb.Base.{ℕ, ◌+◌, ◌*◌, true, false, not, ◌&&◌, ◌||◌, Option, none, some}
use ardopb.Base.{List, ◌++◌, length, drop, ltb, ◌==◌, if◌then◌else◌}
use ardopb.Base.{u64, snprintf, text}
use ardopb.Codec.Frame.{
  is_con_req, is_con_ack, ft_disc, ft_end, ft_ping, ft_ping_ack, ft_con_rej_bw, ft_con_rej_busy,
}
use ardopb.Codec.Packed6.{packed6_size}
use ardopb.Codec.StationId
use ardopb.Codec.StationId.{StationId, ok, err}
use ardopb.Link.Bandwidth.{negotiate_bandwidth}
use ardopb.Link.Frames.{encode_control, encode_conack_timing, encode_pingack}
use ardopb.Link.Session.{call_to_me, ping_to_me}
use ardopb.Link.State.{Link, irs_con_ack, iss_con_ack, Event, ms_to_samples, send_frame}
use ardopb.Link.Turn.{
  Turn, ◌▷◌, change, emit, set_session, set_timers, set_state, write_frame, send_built,
  set_timer_at, tell_host, arm_repeat, reset_to_disc, conack_bandwidth, is_decoded, hold_final_id,
  irs_pending_timeout_ms, conreq_repeat_ms,
}

-- The caller and the target of a payload of two station ids, `none` for a malformed one.
unfoldable pub two_stations : List ℕ → Option (StationId × StationId)
two_stations payload =
    if ltb (length payload) (2 * packed6_size) then none else elim (StationId.from_bytes payload) [
      | err e ↦ none
      | ok caller ↦ elim (StationId.from_bytes (drop packed6_size payload)) [
        | err e ↦ none
        | ok target ↦ some (caller, target)
      ]
    ]

-- `*session_hz = …`, where the negotiation writes it.
abbrev pub set_session_bw : Option ℕ → Link → Link
set_session_bw none l = l
set_session_bw (some hz) l = set_session (λ s. record s { session_bw = hz }) l

unfoldable pub reject_bandwidth : StationId → ℕ → Turn → Turn
reject_bandwidth caller reply_session t =
    t
    ▷ tell_host (snprintf 64 (text "REJECTEDBW " ++ caller.str))
    ▷ change (write_frame (encode_control ft_con_rej_bw reply_session))
    ▷ send_built ft_con_rej_bw 2

unfoldable pub accept_call : Event → ℕ → StationId → StationId → ℕ → ℕ → Turn → Turn
accept_call ev now caller target reply_session reply t =
    let deadline = u64 (now + ms_to_samples irs_pending_timeout_ms) in
    t
    ▷ tell_host (snprintf 64 (text "TARGET " ++ target.str))
    ▷ change (
        set_session λ s. record s {
          session_id = reply_session;
          pending = true;
          remote = caller;
          local = target;
          final_id_call = target;
          avg_quality = 0;
        })
    ▷ change (set_state irs_con_ack)
    ▷ change (set_timers λ r. record r { pending_deadline = deadline })
    ▷ change (write_frame (encode_conack_timing reply ev.leader_ms reply_session))
    ▷ (λ u. emit (send_frame reply 5 u.link.config.reply_leader_ms) u)
    ▷ set_timer_at deadline

-- The answer to a request that is for this station.
unfoldable pub answer_call : Event → ℕ → StationId → StationId → ℕ → Turn → Turn
answer_call ev now caller target reply_session t =
    let (reply, hz) = negotiate_bandwidth t.link.config.bw_setting ev.frame_type in
    let u = t ▷ change (set_session_bw hz) in
    if reply == ft_con_rej_bw
    then reject_bandwidth caller reply_session u
    else accept_call ev now caller target reply_session reply u

unfoldable pub step_disc_conreq : Event → ℕ → Turn → Turn
step_disc_conreq ev now t =
    if not t.link.config.listening then t else elim (two_stations ev.payload) [
      | none ↦ t
      | some (caller, target) ↦
          elim (call_to_me caller target t.link.config.mycall t.link.config.auxcalls) [
            | none ↦ tell_host (text "CANCELPENDING") t
            | some reply_session ↦ answer_call ev now caller target reply_session t
          ]
    ]

-- The ID under the ping's target, unless a closing ID is scheduled.
unfoldable pub id_after_ping : ℕ → StationId → Turn → Turn
id_after_ping now target t =
    if t.link.timers.final_id_deadline == 0
    then t ▷ change (set_session λ s. record s { final_id_call = target }) ▷ hold_final_id now
    else t

unfoldable pub answer_ping : Event → ℕ → StationId → Turn → Turn
answer_ping ev now target t =
    t
    ▷ change (write_frame (encode_pingack ft_ping_ack ev.sn ev.quality))
    ▷ send_built ft_ping_ack 5
    ▷ tell_host (text "PINGREPLY")
    ▷ id_after_ping now target

unfoldable pub step_disc_ping : Event → ℕ → Turn → Turn
step_disc_ping ev now t = elim (two_stations ev.payload) [
  | none ↦ t
  | some (caller, target) ↦
      let c = t.link.config in
      if c.listening && c.enable_ping_ack && ping_to_me caller target c.mycall c.auxcalls
      then answer_ping ev now target t
      else tell_host (text "CANCELPENDING") t
]

-- A DISC of a previous connection is answered under that connection's session id.
unfoldable pub answer_late_disc : ℕ → Turn → Turn
answer_late_disc now t =
    t
    ▷ change (write_frame (encode_control ft_end t.link.session.last_session_id))
    ▷ send_built ft_end 2
    ▷ hold_final_id now

unfoldable pub step_disc_rx : Event → ℕ → Turn → Turn
step_disc_rx ev now t =
    if not (is_decoded ev)
    then t
    else if ev.frame_type == ft_disc
    then answer_late_disc now t
    else if is_con_req ev.frame_type
    then step_disc_conreq ev now t
    else if ev.frame_type == ft_ping
    then step_disc_ping ev now t
    else t

-- The ConAck is answered with our own, and repeated until the other station sends a DataACK.
unfoldable pub confirm_conack : Event → ℕ → Turn → Turn
confirm_conack ev now t =
    let u =
      t
      ▷ change (
          set_session
            λ s. record s { session_bw = conack_bandwidth ev.frame_type; pending = false })
      ▷ change (set_state iss_con_ack)
      ▷ change (set_timers λ r. record r { repeat_interval_ms = conreq_repeat_ms })
      ▷ change
          (write_frame (encode_conack_timing ev.frame_type ev.leader_ms t.link.session.session_id))
      ▷ send_built ev.frame_type 5
      ▷ change (arm_repeat ev.frame_type 5 now) in
    set_timer_at u.link.timers.repeat_deadline u

abbrev rejection : ℕ → List ℕ
rejection t = if t == ft_con_rej_busy then text "REJECTEDBUSY" else text "REJECTEDBW"

unfoldable pub step_iss_conreq_rx : Event → ℕ → Turn → Turn
step_iss_conreq_rx ev now t =
    if not (is_decoded ev)
    then t
    else if is_con_ack ev.frame_type
    then confirm_conack ev now t
    else if (ev.frame_type == ft_con_rej_busy) || (ev.frame_type == ft_con_rej_bw)
    then t
      ▷ tell_host (snprintf 64 (rejection ev.frame_type ++ (text " " ++ t.link.session.remote.str)))
      ▷ change reset_to_disc
    else t
