-- ===== src/Link/Step.antt =====
-- core/link/link.c: `ardop_link_step`, the dispatch of one input.
use ardopb.Base.{ℕ, ◌+◌, Bool, true, false, not, ◌&&◌, List, reverse, ◌==◌, if◌then◌else◌, u64}
use ardopb.Link.Disc.{step_disc_rx, step_iss_conreq_rx}
use ardopb.Link.Fec.{step_fec_rx, step_rxo_rx, step_fec_tx_done}
use ardopb.Link.Host.{step_host, is_disc}
use ardopb.Link.Irs.{step_irs_conack_rx, step_irs_data_rx, step_irs_to_iss_rx}
use ardopb.Link.Iss.{step_iss_conack_rx, step_iss_data_rx, step_idle_rx}
use ardopb.Link.State.{
  Link, LinkState, disc, iss_con_req, iss_con_ack, iss, irs_con_ack, irs_data, idle, irs_to_iss,
  irs_from_iss, fec_send, Mode, arq, fec, rxo, Event, Input, timer, rx, host, tx_done, Action,
  ms_to_samples,
}
use ardopb.Link.Timer.{step_timer}
use ardopb.Link.Turn.{
  Turn, begin, ◌▷◌, change, set_timers, set_timer_at, emit_all, arm_stall, is_decoded,
}

-- The switch over the states.
unfoldable pub dispatch_rx : LinkState → Event → ℕ → Turn → Turn
dispatch_rx disc ev now t = step_disc_rx ev now t
dispatch_rx iss_con_req ev now t = step_iss_conreq_rx ev now t
dispatch_rx irs_con_ack ev now t = step_irs_conack_rx ev now t
dispatch_rx irs_data ev now t = step_irs_data_rx ev now t
dispatch_rx iss_con_ack ev now t = step_iss_conack_rx ev now t
dispatch_rx iss ev now t = step_iss_data_rx ev now t
dispatch_rx idle ev now t = step_idle_rx ev now t
dispatch_rx irs_to_iss ev now t = step_irs_to_iss_rx ev now t
dispatch_rx irs_from_iss ev now t = step_irs_data_rx ev now t
dispatch_rx fec_send ev now t = t

abbrev is_arq : Mode → Bool
is_arq m = elim m [ arq ↦ true | _ ↦ false ]

abbrev pub is_fec_send : LinkState → Bool
is_fec_send s = elim s [ fec_send ↦ true | _ ↦ false ]

-- A decoded frame that is heard while connected pushes the silence deadline out.
unfoldable pub hear : Event → ℕ → Turn → Turn
hear ev now t =
    if is_arq t.link.mode && not (is_disc t.link.state) && is_decoded ev
    then change (arm_stall now) t
    else t

-- The mode comes before the state.
unfoldable pub dispatch_mode : Mode → Event → ℕ → Turn → Turn
dispatch_mode rxo ev now t = step_rxo_rx ev t
dispatch_mode fec ev now t =
    if is_fec_send t.link.state then dispatch_rx t.link.state ev now t else step_fec_rx ev t
dispatch_mode arq ev now t = dispatch_rx t.link.state ev now t

unfoldable pub step_rx : Event → ℕ → Turn → Turn
step_rx ev now t = dispatch_mode t.link.mode ev now (hear ev now t)

-- The repeat window starts when the transmission has ended.
unfoldable pub rearm_repeat : ℕ → Turn → Turn
rearm_repeat now t =
    let r = t.link.timers in
    let deadline = u64 (now + ms_to_samples r.repeat_interval_ms) in
    if r.repeat_deadline == 0
    then t
    else t
      ▷ change (set_timers λ r. record r { repeat_deadline = deadline })
      ▷ set_timer_at deadline

unfoldable pub step_tx_done : ℕ → Turn → Turn
step_tx_done now t = if is_fec_send t.link.state then step_fec_tx_done t else rearm_repeat now t

-- The handlers on a turn that has begun.
unfoldable pub step_turn : Input → ℕ → Turn → Turn
step_turn (rx ev) now t = step_rx ev now t
step_turn (host cmd) now t = step_host cmd now t
step_turn timer now t = step_timer now t
step_turn tx_done now t = step_tx_done now t

-- One input: the turn with all that it emits.
abbrev pub run_step : Link → Input → ℕ → Turn
run_step l input now = step_turn input now (begin l)

-- The link and the actions that the caller's array of `max_actions` holds afterwards.
unfoldable pub link_step : Link → Input → ℕ → ℕ → Link × List Action
link_step l input now max_actions =
    let t = run_step l input now in (t.link, emit_all max_actions (reverse t.actions))
