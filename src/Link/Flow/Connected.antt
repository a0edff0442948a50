-- ===== src/Link/Flow/Connected.antt =====
-- The state after the handlers that send data.
use ardopb.Base.{ℕ, ◌≡◌, ◌⊎◌, arith}
use ardopb.Link.Fec.{
  send_fec_frame, broadcast, fec_send_next, deliver_fec, step_fec_rx, step_rxo_rx,
}
use ardopb.Link.Iss.{on_data_ack, on_data_nak, resend_if_shifted}
use ardopb.Link.Irs.{deliver}
use ardopb.Link.Send.{
  notify_buffer, tx_dequeue, gearshift, gearshift_at, shift_up, send_data_frame, send_next_data,
  send_idle, send_queued, iss_send_next, apply_shift,
}
use ardopb.Link.State.{Link, LinkState, iss, idle, disc, Event}
use ardopb.Link.Turn.{Turn, tell_host, send_control, arm_idle, arm_repeat, reset_to_disc}

abbrev pub state_of : Turn → LinkState
state_of t = t.link.state

pub state-arm_idle : (now : ℕ) (l : Link) → (arm_idle now l).state ≡ l.state
unfolding arm_idle
state-arm_idle now l = ground arith

module _ (t : Turn) where
  state-gearshift : state_of (gearshift t) ≡ state_of t
  unfolding gearshift gearshift_at shift_up
  state-gearshift = ground arith

module _ (now : ℕ) (t : Turn) where
  state-send_next_data :
      (ft : ℕ)
      → (state_of (send_next_data ft now t) ≡ state_of t)
        ⊎ (state_of (send_next_data ft now t) ≡ iss)
  unfolding send_next_data send_data_frame arm_repeat
  state-send_next_data ft = ground arith

module _ (now : ℕ) (t : Turn) where
  -- A frame is sent as the sending or the idling station, or the state stays.
  pub state-iss_send_next :
      (state_of (iss_send_next now t) ≡ state_of t)
      ⊎ ((state_of (iss_send_next now t) ≡ iss) ⊎ (state_of (iss_send_next now t) ≡ idle))
  unfolding iss_send_next send_idle send_queued send_control arm_repeat apply_shift
  state-iss_send_next = grind (arith, state-send_next_data)

module _ (now : ℕ) (t : Turn) where
  state-resend_if_shifted :
      (state_of (resend_if_shifted now t) ≡ state_of t)
      ⊎ ((state_of (resend_if_shifted now t) ≡ iss) ⊎ (state_of (resend_if_shifted now t) ≡ idle))
  unfolding resend_if_shifted
  state-resend_if_shifted = grind (arith, state-iss_send_next)

module _ (now : ℕ) (t : Turn) where
  pub state-on_data_ack :
      (ft : ℕ)
      → (state_of (on_data_ack ft now t) ≡ state_of t)
        ⊎ ((state_of (on_data_ack ft now t) ≡ iss) ⊎ (state_of (on_data_ack ft now t) ≡ idle))
  unfolding on_data_ack notify_buffer tell_host tx_dequeue
  state-on_data_ack ft = grind (arith, state-iss_send_next, state-gearshift, state-arm_idle)

  pub state-on_data_nak :
      (ft : ℕ)
      → (state_of (on_data_nak ft now t) ≡ state_of t)
        ⊎ ((state_of (on_data_nak ft now t) ≡ iss) ⊎ (state_of (on_data_nak ft now t) ≡ idle))
  unfolding on_data_nak
  state-on_data_nak ft = grind (arith, state-resend_if_shifted, state-gearshift)

module _ (t : Turn) where
  -- A broadcast goes on or ends.
  pub state-fec_send_next :
      (state_of (fec_send_next t) ≡ state_of t) ⊎ (state_of (fec_send_next t) ≡ disc)
  unfolding fec_send_next broadcast send_fec_frame notify_buffer tell_host tx_dequeue reset_to_disc
  state-fec_send_next = ground arith

  pub state-step_fec_rx : (ev : Event) → state_of (step_fec_rx ev t) ≡ state_of t
  unfolding step_fec_rx deliver_fec deliver
  state-step_fec_rx ev = ground arith

  pub state-step_rxo_rx : (ev : Event) → state_of (step_rxo_rx ev t) ≡ state_of t
  unfolding step_rxo_rx deliver tell_host
  state-step_rxo_rx ev = ground arith
