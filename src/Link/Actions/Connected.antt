-- ===== src/Link/Actions/Connected.antt =====
-- The actions of the handlers of a connected station, and of the FEC and monitor receivers.
use ardopb.Base.{ℕ, arith}
use ardopb.Link.Actions.{Adds, send_end_and_disconnect-Adds}
use ardopb.Link.Fec.{
  send_fec_frame, broadcast, fec_send_next, step_fec_tx_done, deliver_fec, step_fec_rx, step_rxo_rx,
}
use ardopb.Link.Irs.{
  step_irs_conack_rx, deliver, send_break, on_idle, deliver_once, accept_data, on_data,
  step_irs_data_rx, step_irs_to_iss_rx,
}
use ardopb.Link.Iss.{
  step_iss_conack_rx, iss_yield_on_break, on_data_ack, resend_if_shifted, on_data_nak,
  step_iss_data_rx, step_idle_rx,
}
use ardopb.Link.Send.{
  notify_buffer, gearshift, send_data_frame, send_next_data, send_idle, send_queued, iss_send_next,
}
use ardopb.Link.State.{Event}
use ardopb.Link.Turn.{Turn, tell_host, send_control, connected_teardown}

module _ (now : ℕ) (t : Turn) where
  gearshift-Adds : Adds 0 0 0 0 t (gearshift t)
  unfolding gearshift
  gearshift-Adds = ground arith

  send_next_data-Adds : (ft : ℕ) → Adds 1 0 0 0 t (send_next_data ft now t)
  unfolding send_next_data send_data_frame
  send_next_data-Adds ft = ground arith

module _ (now : ℕ) (t : Turn) where
  send_queued-Adds : Adds 1 0 0 0 t (send_queued now t)
  unfolding send_queued
  send_queued-Adds = grind (arith, send_next_data-Adds)

module _ (now : ℕ) (t : Turn) where
  iss_send_next-Adds : Adds 1 0 0 0 t (iss_send_next now t)
  unfolding iss_send_next send_idle send_control
  iss_send_next-Adds = grind (arith, send_queued-Adds)

module _ (now : ℕ) (t : Turn) where
  resend_if_shifted-Adds : Adds 1 0 0 0 t (resend_if_shifted now t)
  unfolding resend_if_shifted
  resend_if_shifted-Adds = grind (arith, iss_send_next-Adds)

module _ (ev : Event) (now : ℕ) (t : Turn) where
  pub step_iss_conack_rx-Adds : Adds 1 0 1 0 t (step_iss_conack_rx ev now t)
  unfolding step_iss_conack_rx tell_host
  step_iss_conack_rx-Adds = grind (arith, iss_send_next-Adds)

  on_data_ack-Adds : (ft : ℕ) → Adds 1 0 1 0 t (on_data_ack ft now t)
  unfolding on_data_ack notify_buffer tell_host
  on_data_ack-Adds ft = grind (arith, iss_send_next-Adds, gearshift-Adds)

  on_data_nak-Adds : (ft : ℕ) → Adds 1 0 0 0 t (on_data_nak ft now t)
  unfolding on_data_nak
  on_data_nak-Adds ft = grind (arith, resend_if_shifted-Adds, gearshift-Adds)

  pub step_iss_data_rx-Adds : Adds 1 1 1 0 t (step_iss_data_rx ev now t)
  unfolding step_iss_data_rx connected_teardown tell_host iss_yield_on_break send_control
  step_iss_data_rx-Adds =
      grind (arith, send_end_and_disconnect-Adds, on_data_ack-Adds, on_data_nak-Adds)

  pub step_idle_rx-Adds : Adds 1 1 1 0 t (step_idle_rx ev now t)
  unfolding step_idle_rx connected_teardown tell_host iss_yield_on_break send_control
  step_idle_rx-Adds = grind (arith, send_end_and_disconnect-Adds, iss_send_next-Adds)

  pub step_irs_conack_rx-Adds : Adds 1 0 1 0 t (step_irs_conack_rx ev now t)
  unfolding step_irs_conack_rx tell_host send_control
  step_irs_conack_rx-Adds = ground arith

  on_data-Adds : Adds 1 0 0 1 t (on_data ev now t)
  unfolding on_data send_break accept_data deliver_once deliver send_control
  on_data-Adds = ground arith

  pub step_irs_data_rx-Adds : Adds 1 1 1 1 t (step_irs_data_rx ev now t)
  unfolding step_irs_data_rx connected_teardown tell_host on_idle send_break send_control
  step_irs_data_rx-Adds = grind (arith, send_end_and_disconnect-Adds, on_data-Adds)

  pub step_irs_to_iss_rx-Adds : Adds 1 1 1 0 t (step_irs_to_iss_rx ev now t)
  unfolding step_irs_to_iss_rx connected_teardown tell_host
  step_irs_to_iss_rx-Adds = grind (arith, send_end_and_disconnect-Adds, iss_send_next-Adds)

module _ (t : Turn) where
  pub fec_send_next-Adds : Adds 1 0 1 0 t (fec_send_next t)
  unfolding fec_send_next broadcast send_fec_frame notify_buffer tell_host
  fec_send_next-Adds = ground arith

module _ (t : Turn) where
  pub step_fec_tx_done-Adds : Adds 1 0 1 0 t (step_fec_tx_done t)
  unfolding step_fec_tx_done
  step_fec_tx_done-Adds = ground (arith, fec_send_next-Adds t)

  pub step_fec_rx-Adds : (ev : Event) → Adds 0 0 0 1 t (step_fec_rx ev t)
  unfolding step_fec_rx deliver_fec deliver
  step_fec_rx-Adds ev = ground arith

  pub step_rxo_rx-Adds : (ev : Event) → Adds 0 0 1 1 t (step_rxo_rx ev t)
  unfolding step_rxo_rx tell_host deliver
  step_rxo_rx-Adds ev = ground arith
