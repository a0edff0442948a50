-- ===== src/Link/Settings/Connected.antt =====
-- The handlers of core/link/link.c and what the host has set, as in Link.Actions.Connected.
use ardopb.Base.{ℕ}
use ardopb.Link.Settings.{KeepsConfig, keeps, send_end_and_disconnect-KeepsConfig}
use ardopb.Link.Fec.{
  send_fec_frame, broadcast, fec_send_next, step_fec_tx_done, deliver_fec, step_fec_rx, step_rxo_rx,
}
use ardopb.Link.Irs.{
  step_irs_conack_rx, deliver, send_break, on_idle, deliver_once, accept_data, on_data,
  step_irs_data_rx, step_irs_to_iss_rx,
}
use ardopb.Link.Iss.{
  step_iss_conack_rx, iss_yield_on_break, on_data_ack, resend_if_shifted, on_data_nak,
  step_iss_data_rx, step_idle_rx,
}
use ardopb.Link.Send.{
  notify_buffer, gearshift, send_data_frame, send_next_data, send_idle, send_queued, iss_send_next,
}
use ardopb.Link.State.{Event}
use ardopb.Link.Turn.{Turn, tell_host, send_control, connected_teardown}

module _ (now : ℕ) (t : Turn) where
  gearshift-KeepsConfig : KeepsConfig t (gearshift t)
  unfolding gearshift
  gearshift-KeepsConfig = grind keeps

  send_next_data-KeepsConfig : (ft : ℕ) → KeepsConfig t (send_next_data ft now t)
  unfolding send_next_data send_data_frame
  send_next_data-KeepsConfig ft = grind keeps

module _ (now : ℕ) (t : Turn) where
  send_queued-KeepsConfig : KeepsConfig t (send_queued now t)
  unfolding send_queued
  send_queued-KeepsConfig = grind (keeps, send_next_data-KeepsConfig)

module _ (now : ℕ) (t : Turn) where
  iss_send_next-KeepsConfig : KeepsConfig t (iss_send_next now t)
  unfolding iss_send_next send_idle send_control
  iss_send_next-KeepsConfig = grind (keeps, send_queued-KeepsConfig)

module _ (now : ℕ) (t : Turn) where
  resend_if_shifted-KeepsConfig : KeepsConfig t (resend_if_shifted now t)
  unfolding resend_if_shifted
  resend_if_shifted-KeepsConfig = grind (keeps, iss_send_next-KeepsConfig)

module _ (ev : Event) (now : ℕ) (t : Turn) where
  pub step_iss_conack_rx-KeepsConfig : KeepsConfig t (step_iss_conack_rx ev now t)
  unfolding step_iss_conack_rx tell_host
  step_iss_conack_rx-KeepsConfig = grind (keeps, iss_send_next-KeepsConfig)

  on_data_ack-KeepsConfig : (ft : ℕ) → KeepsConfig t (on_data_ack ft now t)
  unfolding on_data_ack notify_buffer tell_host
  on_data_ack-KeepsConfig ft = grind (keeps, iss_send_next-KeepsConfig, gearshift-KeepsConfig)

  on_data_nak-KeepsConfig : (ft : ℕ) → KeepsConfig t (on_data_nak ft now t)
  unfolding on_data_nak
  on_data_nak-KeepsConfig ft = grind (keeps, resend_if_shifted-KeepsConfig, gearshift-KeepsConfig)

  pub step_iss_data_rx-KeepsConfig : KeepsConfig t (step_iss_data_rx ev now t)
  unfolding step_iss_data_rx connected_teardown tell_host iss_yield_on_break send_control
  step_iss_data_rx-KeepsConfig =
      grind (
        keeps, send_end_and_disconnect-KeepsConfig, on_data_ack-KeepsConfig,
        on_data_nak-KeepsConfig,
      )

  pub step_idle_rx-KeepsConfig : KeepsConfig t (step_idle_rx ev now t)
  unfolding step_idle_rx connected_teardown tell_host iss_yield_on_break send_control
  step_idle_rx-KeepsConfig =
      grind (keeps, send_end_and_disconnect-KeepsConfig, iss_send_next-KeepsConfig)

  pub step_irs_conack_rx-KeepsConfig : KeepsConfig t (step_irs_conack_rx ev now t)
  unfolding step_irs_conack_rx tell_host send_control
  step_irs_conack_rx-KeepsConfig = grind keeps

  on_data-KeepsConfig : KeepsConfig t (on_data ev now t)
  unfolding on_data send_break accept_data deliver_once deliver send_control
  on_data-KeepsConfig = grind keeps

  pub step_irs_data_rx-KeepsConfig : KeepsConfig t (step_irs_data_rx ev now t)
  unfolding step_irs_data_rx connected_teardown tell_host on_idle send_break send_control
  step_irs_data_rx-KeepsConfig =
      grind (keeps, send_end_and_disconnect-KeepsConfig, on_data-KeepsConfig)

  pub step_irs_to_iss_rx-KeepsConfig : KeepsConfig t (step_irs_to_iss_rx ev now t)
  unfolding step_irs_to_iss_rx connected_teardown tell_host
  step_irs_to_iss_rx-KeepsConfig =
      grind (keeps, send_end_and_disconnect-KeepsConfig, iss_send_next-KeepsConfig)

module _ (t : Turn) where
  pub fec_send_next-KeepsConfig : KeepsConfig t (fec_send_next t)
  unfolding fec_send_next broadcast send_fec_frame notify_buffer tell_host
  fec_send_next-KeepsConfig = grind keeps

module _ (t : Turn) where
  pub step_fec_tx_done-KeepsConfig : KeepsConfig t (step_fec_tx_done t)
  unfolding step_fec_tx_done
  step_fec_tx_done-KeepsConfig = grind (keeps, fec_send_next-KeepsConfig t)

  pub step_fec_rx-KeepsConfig : (ev : Event) → KeepsConfig t (step_fec_rx ev t)
  unfolding step_fec_rx deliver_fec deliver
  step_fec_rx-KeepsConfig ev = grind keeps

  pub step_rxo_rx-KeepsConfig : (ev : Event) → KeepsConfig t (step_rxo_rx ev t)
  unfolding step_rxo_rx tell_host deliver
  step_rxo_rx-KeepsConfig ev = grind keeps
