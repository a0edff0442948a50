-- ===== src/Link/Flow/Step.antt =====
-- Each handler, and so each step, moves along the diagram.
use ardopb.Base.{ℕ, true, ◌≡◌, refl, arith}
use ardopb.Link.Disc.{
  step_disc_rx, answer_late_disc, step_disc_conreq, answer_call, accept_call, reject_bandwidth,
  step_disc_ping, answer_ping, id_after_ping, step_iss_conreq_rx, confirm_conack,
}
use ardopb.Codec.StationId.{StationId}
use ardopb.Link.Fec.{step_fec_tx_done, step_fec_rx, step_rxo_rx}
use ardopb.Link.Flow.{◌⟶◌, can_move, move}
use ardopb.Link.Flow.Connected.{
  state_of, state-arm_idle, state-iss_send_next, state-on_data_ack, state-on_data_nak,
  state-fec_send_next, state-step_fec_rx, state-step_rxo_rx,
}
use ardopb.Link.Host.{
  dispatch_host, step_host_connect, start_session, step_host_send_data, enqueue,
  step_host_disconnect, step_host_abort, step_host_break, step_host_set_mode, step_host_id,
  step_host_fec_send,
}
use ardopb.Link.Irs.{
  step_irs_conack_rx, step_irs_data_rx, on_idle, on_data, send_break, accept_data, deliver_once,
  deliver, step_irs_to_iss_rx,
}
use ardopb.Link.Iss.{step_iss_conack_rx, step_iss_data_rx, step_idle_rx, iss_yield_on_break}
use ardopb.Link.Send.{notify_buffer, iss_begin_sending}
use ardopb.Link.State.{
  Link, LinkState, disc, iss_con_req, iss_con_ack, iss, irs_con_ack, irs_data, idle, irs_to_iss,
  irs_from_iss, fec_send, Mode, arq, fec, rxo, Event, Input, timer, rx, host, tx_done, HostCmd,
  CmdKind, connect, disconnect, abort, send_data, set_mode, fec_send_cmd, send_id, break_cmd,
}
use ardopb.Link.Step.{
  dispatch_rx, dispatch_mode, hear, step_rx, rearm_repeat, step_tx_done, step_turn, run_step,
}
use ardopb.Link.Timer.{step_timer, send_closing_id, repeat_frame, resend}
use ardopb.Link.Turn.{
  Turn, begin, tell_host, send_control, set_timer_at, connected_teardown, send_end_and_disconnect,
  reset_to_disc, build_id_frame, arm_repeat, arm_stall, arm_idle,
}

-- The end of a handler stands on an edge from the state it began in.
abbrev Moves : Turn → Turn → Type 0
Moves t u = can_move (state_of t) (state_of u) ≡ true

module _ (ev : Event) (now : ℕ) (t : Turn) where
  state-disc_ping : state_of (step_disc_ping ev now t) ≡ state_of t
  unfolding step_disc_ping answer_ping id_after_ping tell_host set_timer_at
  state-disc_ping = ground arith

  move-disc : state_of t ≡ disc → Moves t (step_disc_rx ev now t)
  unfolding step_disc_rx answer_late_disc step_disc_conreq answer_call accept_call reject_bandwidth
      tell_host set_timer_at
  move-disc h = ground (arith, state-disc_ping)

  move-iss_con_req : state_of t ≡ iss_con_req → Moves t (step_iss_conreq_rx ev now t)
  unfolding step_iss_conreq_rx confirm_conack tell_host set_timer_at arm_repeat reset_to_disc
  move-iss_con_req h = ground arith

  move-irs_con_ack : state_of t ≡ irs_con_ack → Moves t (step_irs_conack_rx ev now t)
  unfolding step_irs_conack_rx tell_host send_control
  move-irs_con_ack h = ground arith

  move-iss_con_ack : state_of t ≡ iss_con_ack → Moves t (step_iss_conack_rx ev now t)
  unfolding step_iss_conack_rx tell_host iss_begin_sending arm_stall
  move-iss_con_ack h = grind (arith, state-iss_send_next, state-arm_idle)

  move-iss : state_of t ≡ iss → Moves t (step_iss_data_rx ev now t)
  unfolding step_iss_data_rx connected_teardown send_end_and_disconnect iss_yield_on_break tell_host
      send_control set_timer_at reset_to_disc
  move-iss h = grind (arith, state-on_data_ack, state-on_data_nak)

  move-idle : state_of t ≡ idle → Moves t (step_idle_rx ev now t)
  unfolding step_idle_rx connected_teardown send_end_and_disconnect iss_yield_on_break tell_host
      send_control set_timer_at reset_to_disc
  move-idle h = grind (arith, state-iss_send_next)

  move-irs_to_iss : state_of t ≡ irs_to_iss → Moves t (step_irs_to_iss_rx ev now t)
  unfolding step_irs_to_iss_rx connected_teardown send_end_and_disconnect tell_host send_control
      set_timer_at reset_to_disc iss_begin_sending
  move-irs_to_iss h = grind (arith, state-iss_send_next)

module _ (ev : Event) (now : ℕ) (t : Turn) where
  state-on_data :
      (state_of t ≡ irs_data → can_move irs_data (state_of (on_data ev now t)) ≡ true)
      × (state_of t ≡ irs_from_iss → can_move irs_from_iss (state_of (on_data ev now t)) ≡ true)
  unfolding on_data send_break accept_data deliver_once deliver send_control arm_repeat
  state-on_data = (
    λ h. ground (arith, state-arm_idle now t.link),
    λ h. ground (arith, state-arm_idle now t.link),
  )

  move-irs_data : state_of t ≡ irs_data → Moves t (step_irs_data_rx ev now t)
  unfolding step_irs_data_rx connected_teardown send_end_and_disconnect on_idle send_break tell_host
      send_control set_timer_at reset_to_disc arm_repeat
  move-irs_data h = ground (arith, state-on_data.0 h)

  move-irs_from_iss : state_of t ≡ irs_from_iss → Moves t (step_irs_data_rx ev now t)
  unfolding step_irs_data_rx connected_teardown send_end_and_disconnect on_idle send_break tell_host
      send_control set_timer_at reset_to_disc arm_repeat
  move-irs_from_iss h = ground (arith, state-on_data.1 h)

module _ (ev : Event) (now : ℕ) (t : Turn) where
  move-dispatch : (s : LinkState) → state_of t ≡ s → Moves t (dispatch_rx s ev now t)
  unfolding dispatch_rx
  move-dispatch disc h = move-disc ev now t h
  move-dispatch iss_con_req h = move-iss_con_req ev now t h
  move-dispatch iss_con_ack h = move-iss_con_ack ev now t h
  move-dispatch iss h = move-iss ev now t h
  move-dispatch irs_con_ack h = move-irs_con_ack ev now t h
  move-dispatch irs_data h = move-irs_data ev now t h
  move-dispatch idle h = move-idle ev now t h
  move-dispatch irs_to_iss h = move-irs_to_iss ev now t h
  move-dispatch irs_from_iss h = move-irs_from_iss ev now t h
  move-dispatch fec_send h = ground arith

can_move_refl : (s : LinkState) → can_move s s ≡ true
can_move_refl disc = refl
can_move_refl s = refl

can_move-disc : (s : LinkState) → can_move s disc ≡ true
can_move-disc s = refl

module _ (now : ℕ) (t : Turn) where
  -- A handler that keeps the state or drops the link.
  kept : (u : Turn) → state_of u ≡ state_of t → Moves t u
  kept u e = rw e (can_move_refl (state_of t))

  move-mode : (m : Mode) (ev : Event) → Moves t (dispatch_mode m ev now t)
  unfolding dispatch_mode
  move-mode arq ev = move-dispatch ev now t (state_of t) refl
  move-mode fec ev = ground (
    arith,
    move-dispatch ev now t (state_of t) refl,
    kept (step_fec_rx ev t) (state-step_fec_rx t ev),
  )
  move-mode rxo ev = kept (step_rxo_rx ev t) (state-step_rxo_rx t ev)

  state-hear : (ev : Event) → state_of (hear ev now t) ≡ state_of t
  unfolding hear arm_stall
  state-hear ev = ground arith

  move-tx_done : Moves t (step_tx_done now t)
  unfolding step_tx_done step_fec_tx_done rearm_repeat set_timer_at
  move-tx_done = ground (arith, state-fec_send_next t, can_move_refl (state_of t))

  state-build_id_frame : (call : StationId) (l : Link) → (build_id_frame call l).0.state ≡ l.state
  unfolding build_id_frame
  state-build_id_frame call l = ground arith

  state-host_disconnect : state_of (step_host_disconnect now t) ≡ state_of t
  unfolding step_host_disconnect tell_host send_control arm_repeat
  state-host_disconnect = ground arith

  move-connect : (cmd : HostCmd) → Moves t (step_host_connect cmd now t)
  unfolding step_host_connect start_session set_timer_at arm_repeat
  move-connect cmd = ground (arith, can_move_refl (state_of t))

  state-send_data : (cmd : HostCmd) → state_of (step_host_send_data cmd now t) ≡ state_of t
  unfolding step_host_send_data enqueue notify_buffer tell_host arm_idle
  state-send_data cmd = ground arith

  state-host_id : state_of (step_host_id t) ≡ state_of t
  unfolding step_host_id build_id_frame
  state-host_id = ground arith

module _ (t : Turn) where
  move-fec_send : (cmd : HostCmd) → Moves t (step_host_fec_send cmd t)
  unfolding step_host_fec_send
  move-fec_send cmd = grind (arith, can_move_refl, state-fec_send_next)

module _ (now : ℕ) (t : Turn) where
  move-host : (kind : CmdKind) (cmd : HostCmd) → Moves t (dispatch_host kind cmd now t)
  unfolding dispatch_host step_host_abort step_host_break step_host_set_mode tell_host reset_to_disc
  move-host connect cmd = move-connect now t cmd
  move-host disconnect cmd = kept now t (step_host_disconnect now t) (state-host_disconnect now t)
  move-host abort cmd = refl
  move-host send_data cmd = kept now t (step_host_send_data cmd now t) (state-send_data now t cmd)
  move-host set_mode cmd = ground (arith, can_move_refl (state_of t))
  move-host fec_send_cmd cmd = move-fec_send t cmd
  move-host send_id cmd = kept now t (step_host_id t) (state-host_id now t)
  move-host break_cmd cmd = ground (arith, can_move_refl (state_of t))

module _ (now : ℕ) (t : Turn) where
  move-timer : Moves t (step_timer now t)
  unfolding step_timer send_closing_id repeat_frame resend build_id_frame tell_host reset_to_disc
  move-timer = grind (arith, can_move_refl, state-host_disconnect)

  move-turn : (input : Input) → Moves t (step_turn input now t)
  unfolding step_turn step_rx
  move-turn (rx ev) =
      ground (arith, state-hear now t ev, move-mode now (hear ev now t) t.link.mode ev)
  move-turn (host cmd) = move-host now t cmd.kind cmd
  move-turn timer = move-timer
  move-turn tx_done = move-tx_done now t

-- Whatever the state and the input, a step stays in its state or follows an edge of the diagram.
pub run_step-moves :
    (l : Link) (input : Input) (now : ℕ) → l.state ⟶ (run_step l input now).link.state
run_step-moves l input now = move l.state _ (move-turn now (begin l) input)
