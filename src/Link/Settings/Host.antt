-- ===== src/Link/Settings/Host.antt =====
-- The handlers of core/link/link.c and what the host has set, as in Link.Actions.Host.
use ardopb.Base.{ℕ, ◌≡◌, refl, arith, Bool, true, false, if◌then◌else◌}
use ardopb.Link.Settings.{KeepsConfig, keeps}
use ardopb.Link.Settings.Connected.{fec_send_next-KeepsConfig}
use ardopb.Link.Host.{
  start_session, step_host_connect, enqueue, step_host_send_data, step_host_disconnect,
  step_host_abort, step_host_break, step_host_fec_send, step_host_id, step_host_set_mode,
  dispatch_host, fec_type,
}
use ardopb.Link.Send.{notify_buffer}
use ardopb.Link.State.{
  HostCmd, CmdKind, connect, disconnect, abort, send_data, set_mode, fec_send_cmd, send_id,
  break_cmd, fec, fec_send,
}
use ardopb.Link.Timer.{send_closing_id, resend, repeat_frame, step_timer}
use ardopb.Link.Turn.{Turn, tell_host, set_timer_at, send_control}

abbrev pub is_fec_send_cmd : CmdKind → Bool
is_fec_send_cmd kind = elim kind [ fec_send_cmd ↦ true | _ ↦ false ]

module _ (now : ℕ) (t : Turn) where
  step_host_disconnect-KeepsConfig : KeepsConfig t (step_host_disconnect now t)
  unfolding step_host_disconnect tell_host send_control
  step_host_disconnect-KeepsConfig = grind keeps

  repeat_frame-KeepsConfig : KeepsConfig t (repeat_frame now t)
  unfolding repeat_frame resend tell_host
  repeat_frame-KeepsConfig = grind keeps

  send_closing_id-KeepsConfig : KeepsConfig t (send_closing_id t)
  unfolding send_closing_id
  send_closing_id-KeepsConfig = grind keeps

module _ (now : ℕ) (t : Turn) where
  pub step_timer-KeepsConfig : KeepsConfig t (step_timer now t)
  unfolding step_timer tell_host
  step_timer-KeepsConfig = grind (
    keeps, step_host_disconnect-KeepsConfig, repeat_frame-KeepsConfig, send_closing_id-KeepsConfig,
  )

  step_host_connect-KeepsConfig : (cmd : HostCmd) → KeepsConfig t (step_host_connect cmd now t)
  unfolding step_host_connect start_session set_timer_at
  step_host_connect-KeepsConfig cmd = grind keeps

  step_host_send_data-KeepsConfig : (cmd : HostCmd) → KeepsConfig t (step_host_send_data cmd now t)
  unfolding step_host_send_data enqueue notify_buffer tell_host
  step_host_send_data-KeepsConfig cmd = grind keeps

  pub step_host_fec_send-config :
      (cmd : HostCmd)
      → (step_host_fec_send cmd t).link.config
        ≡ record t.link.config { fec_frame_type = fec_type cmd.arg t.link.config.fec_frame_type }
  unfolding step_host_fec_send
  step_host_fec_send-config cmd =
      let l = t.link in
      let c = record l.config { fec_frame_type = fec_type cmd.arg l.config.fec_frame_type } in
      let started = record t {
        link = record l {
          config = c;
          mode = fec;
          state = fec_send;
          session = record l.session { session_id = 0 };
        };
      } in
      ground (arith, fec_send_next-KeepsConfig started)

  step_host_id-KeepsConfig : KeepsConfig t (step_host_id t)
  unfolding step_host_id
  step_host_id-KeepsConfig = grind keeps

  -- Any command but FECSEND.
  dispatch_host-KeepsConfig :
      (kind : CmdKind) (cmd : HostCmd)
      → is_fec_send_cmd kind ≡ false
      → KeepsConfig t (dispatch_host kind cmd now t)
  unfolding dispatch_host step_host_abort step_host_break step_host_set_mode tell_host
  dispatch_host-KeepsConfig connect cmd k = grind (keeps, step_host_connect-KeepsConfig cmd)
  dispatch_host-KeepsConfig disconnect cmd k = grind (keeps, step_host_disconnect-KeepsConfig now t)
  dispatch_host-KeepsConfig send_data cmd k = grind (keeps, step_host_send_data-KeepsConfig cmd)
  dispatch_host-KeepsConfig fec_send_cmd cmd k = absurd (cc k)
  dispatch_host-KeepsConfig send_id cmd k = grind (keeps, step_host_id-KeepsConfig)
  dispatch_host-KeepsConfig kind cmd k = grind keeps

  pub dispatch_host-config :
      (kind : CmdKind) (cmd : HostCmd)
      → (dispatch_host kind cmd now t).link.config ≡ (
          if is_fec_send_cmd kind
          then record t.link.config {
            fec_frame_type = fec_type cmd.arg t.link.config.fec_frame_type;
          }
          else t.link.config)
  dispatch_host-config fec_send_cmd cmd = unfold dispatch_host in step_host_fec_send-config cmd
  dispatch_host-config connect cmd = (dispatch_host-KeepsConfig connect cmd refl).kept_config
  dispatch_host-config disconnect cmd = (dispatch_host-KeepsConfig disconnect cmd refl).kept_config
  dispatch_host-config abort cmd = (dispatch_host-KeepsConfig abort cmd refl).kept_config
  dispatch_host-config send_data cmd = (dispatch_host-KeepsConfig send_data cmd refl).kept_config
  dispatch_host-config set_mode cmd = (dispatch_host-KeepsConfig set_mode cmd refl).kept_config
  dispatch_host-config send_id cmd = (dispatch_host-KeepsConfig send_id cmd refl).kept_config
  dispatch_host-config break_cmd cmd = (dispatch_host-KeepsConfig break_cmd cmd refl).kept_config
