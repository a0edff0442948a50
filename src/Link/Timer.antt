-- ===== src/Link/Timer.antt =====
-- core/link/link.c: the timer service. The branches are those of `step_timer`, in its order: the
-- first deadline that has passed is served, and no other.
use ardopb.Base.{ℕ, ◌+◌, Bool, not, ◌&&◌, ltb, leb, ◌==◌}
use ardopb.Base.{if◌then◌else◌, length, u64, text}
use ardopb.Codec.Frame.{ft_disc, ft_id}
use ardopb.Codec.StationId.{StationId}
use ardopb.Link.Host.{step_host_disconnect}
use ardopb.Link.State.{Link, Timers, ms_to_samples}
use ardopb.Link.Turn.{
  Turn, ◌▷◌, change, set_timers, send_built, tell_host, build_id_frame, reset_to_disc,
}

-- Whether a deadline is armed and has passed.
abbrev pub due : ℕ → ℕ → Bool
due deadline now = not (deadline == 0) && leb deadline now

-- A give-up that tells only the host; `clear` is the deadline that is reset first.
abbrev give_up : (Timers → Timers) → Turn → Turn
give_up clear t =
    t ▷ change (set_timers clear) ▷ tell_host (text "DISCONNECTED") ▷ change reset_to_disc

-- The callsign of the closing ID: the session's, if one was kept.
unfoldable pub closing_call : Link → StationId
closing_call l =
    if length l.session.final_id_call.str == 0 then l.config.mycall else l.session.final_id_call

unfoldable pub send_closing_id : Turn → Turn
send_closing_id t =
    let u = change (set_timers λ r. record r { final_id_deadline = 0 }) t in
    let (built, len) = build_id_frame (closing_call u.link) u.link in
    let v = change (λ l. built) u in if ltb 0 len then send_built ft_id len v else v

-- The outstanding frame once more.
unfoldable pub resend : ℕ → Turn → Turn
resend now t =
    t
    ▷ send_built t.link.timers.repeat_frame_type t.link.timers.repeat_frame_len
    ▷ change (
        set_timers
          λ r. record r { repeat_deadline = u64 (now + ms_to_samples r.repeat_interval_ms) })

-- A DISC of ours gets five tries.
unfoldable pub repeat_frame : ℕ → Turn → Turn
repeat_frame now t =
    let r = t.link.timers in
    let counted =
      change (set_timers λ r. record r { disc_repeat_count = r.disc_repeat_count + 1 }) t in
    if (r.repeat_frame_type == ft_disc) && ltb 0 r.disc_repeat_count
    then (if ltb 5 (r.disc_repeat_count + 1)
        then give_up (λ r. record r { disc_repeat_count = 0 }) counted
        else resend now counted)
    else resend now t

unfoldable pub step_timer : ℕ → Turn → Turn
step_timer now t =
    let r = t.link.timers in
    if due r.pending_deadline now
    then give_up (λ r. record r { pending_deadline = 0 }) t
    else if due r.stall_deadline now
    then give_up (λ r. record r { stall_deadline = 0 }) t
    else if due r.idle_deadline now
    then step_host_disconnect now (change (set_timers λ r. record r { idle_deadline = 0 }) t)
    else if due r.final_id_deadline now
    then send_closing_id t
    else if due r.repeat_deadline now
    then repeat_frame now t
    else t
