-- ===== src/Link/Actions/Host.antt =====
-- The actions of the host's commands and of the timer service.
use ardopb.Base.{ℕ, arith}
use ardopb.Link.Actions.{Adds}
use ardopb.Link.Actions.Connected.{fec_send_next-Adds}
use ardopb.Link.Host.{
  start_session, step_host_connect, enqueue, step_host_send_data, step_host_disconnect,
  step_host_abort, step_host_break, step_host_fec_send, step_host_id, step_host_set_mode,
  dispatch_host,
}
use ardopb.Link.Send.{notify_buffer}
use ardopb.Link.State.{HostCmd, CmdKind, connect, disconnect, send_data, fec_send_cmd, send_id}
use ardopb.Link.Timer.{send_closing_id, resend, repeat_frame, step_timer}
use ardopb.Link.Turn.{Turn, tell_host, set_timer_at, send_control}

module _ (now : ℕ) (t : Turn) where
  step_host_disconnect-Adds : Adds 1 0 1 0 t (step_host_disconnect now t)
  unfolding step_host_disconnect tell_host send_control
  step_host_disconnect-Adds = ground arith

  repeat_frame-Adds : Adds 1 0 1 0 t (repeat_frame now t)
  unfolding repeat_frame resend tell_host
  repeat_frame-Adds = ground arith

  send_closing_id-Adds : Adds 1 0 0 0 t (send_closing_id t)
  unfolding send_closing_id
  send_closing_id-Adds = ground arith

module _ (now : ℕ) (t : Turn) where
  pub step_timer-Adds : Adds 1 0 1 0 t (step_timer now t)
  unfolding step_timer tell_host
  step_timer-Adds =
      grind (arith, step_host_disconnect-Adds, repeat_frame-Adds, send_closing_id-Adds)

  step_host_connect-Adds : (cmd : HostCmd) → Adds 1 1 0 0 t (step_host_connect cmd now t)
  unfolding step_host_connect start_session set_timer_at
  step_host_connect-Adds cmd = ground arith

  step_host_send_data-Adds : (cmd : HostCmd) → Adds 0 0 1 0 t (step_host_send_data cmd now t)
  unfolding step_host_send_data enqueue notify_buffer tell_host
  step_host_send_data-Adds cmd = ground arith

  step_host_fec_send-Adds : (cmd : HostCmd) → Adds 1 0 1 0 t (step_host_fec_send cmd t)
  unfolding step_host_fec_send
  step_host_fec_send-Adds cmd = grind (arith, fec_send_next-Adds)

  step_host_id-Adds : Adds 1 0 0 0 t (step_host_id t)
  unfolding step_host_id
  step_host_id-Adds = ground arith

  pub dispatch_host-Adds :
      (kind : CmdKind) (cmd : HostCmd) → Adds 1 1 1 0 t (dispatch_host kind cmd now t)
  unfolding dispatch_host step_host_abort step_host_break step_host_set_mode tell_host
  dispatch_host-Adds connect cmd = ground (arith, step_host_connect-Adds cmd)
  dispatch_host-Adds disconnect cmd = ground (arith, step_host_disconnect-Adds now t)
  dispatch_host-Adds send_data cmd = ground (arith, step_host_send_data-Adds cmd)
  dispatch_host-Adds fec_send_cmd cmd = ground (arith, step_host_fec_send-Adds cmd)
  dispatch_host-Adds send_id cmd = ground (arith, step_host_id-Adds)
  dispatch_host-Adds kind cmd = ground arith
