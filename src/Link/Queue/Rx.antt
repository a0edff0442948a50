-- ===== src/Link/Queue/Rx.antt =====
-- What a received frame does to the queue, handler by handler.
use ardopb.Base.{ℕ, ◌≡◌, ◌⊎◌, ◌≤◌, inl, inr, true, refl, arith, drop}
use ardopb.Codec.Frame.{data_ack_min}
use ardopb.Link.Disc.{
  step_disc_rx, answer_late_disc, step_disc_conreq, answer_call, accept_call, reject_bandwidth,
  step_disc_ping, answer_ping, id_after_ping, step_iss_conreq_rx, confirm_conack,
}
use ardopb.Link.Irs.{
  step_irs_conack_rx, step_irs_data_rx, on_idle, on_data, send_break, accept_data, deliver_once,
  deliver, step_irs_to_iss_rx,
}
use ardopb.Link.Iss.{step_iss_conack_rx, step_iss_data_rx, step_idle_rx, iss_yield_on_break}
use ardopb.Link.Queue.{
  Queued, kept, acked, queue_of, queue-arm_idle, queue-iss_send_next, queue-on_data_ack,
  queue-on_data_nak, queue-step_fec_rx, queue-step_rxo_rx,
}
use ardopb.Link.Send.{iss_begin_sending}
use ardopb.Link.State.{
  Link, LinkState, disc, iss_con_req, iss_con_ack, iss, irs_con_ack, irs_data, idle, irs_to_iss,
  irs_from_iss, fec_send, Mode, arq, fec, rxo, Event, rx,
}
use ardopb.Link.Step.{dispatch_rx, dispatch_mode, hear, step_rx, step_turn, run_step}
use ardopb.Link.Turn.{
  Turn, begin, tell_host, send_control, set_timer_at, connected_teardown, send_end_and_disconnect,
  reset_to_disc, arm_repeat, arm_stall, is_decoded,
}

module _ (ev : Event) (now : ℕ) (t : Turn) where
  queue-disc_ping : queue_of (step_disc_ping ev now t) ≡ queue_of t
  unfolding step_disc_ping answer_ping id_after_ping tell_host set_timer_at
  queue-disc_ping = ground arith

  queue-disc : queue_of (step_disc_rx ev now t) ≡ queue_of t
  unfolding step_disc_rx answer_late_disc step_disc_conreq answer_call accept_call reject_bandwidth
      tell_host set_timer_at
  queue-disc = ground (arith, queue-disc_ping)

  queue-iss_con_req : queue_of (step_iss_conreq_rx ev now t) ≡ queue_of t
  unfolding step_iss_conreq_rx confirm_conack tell_host set_timer_at arm_repeat reset_to_disc
  queue-iss_con_req = ground arith

  queue-irs_con_ack : queue_of (step_irs_conack_rx ev now t) ≡ queue_of t
  unfolding step_irs_conack_rx tell_host send_control arm_stall
  queue-irs_con_ack = grind (arith, queue-arm_idle)

  queue-iss_con_ack : queue_of (step_iss_conack_rx ev now t) ≡ queue_of t
  unfolding step_iss_conack_rx tell_host iss_begin_sending arm_stall
  queue-iss_con_ack = grind (arith, queue-iss_send_next, queue-arm_idle)

  queue-idle : queue_of (step_idle_rx ev now t) ≡ queue_of t
  unfolding step_idle_rx connected_teardown send_end_and_disconnect iss_yield_on_break tell_host
      send_control set_timer_at reset_to_disc
  queue-idle = grind (arith, queue-iss_send_next)

  queue-irs_to_iss : queue_of (step_irs_to_iss_rx ev now t) ≡ queue_of t
  unfolding step_irs_to_iss_rx connected_teardown send_end_and_disconnect tell_host send_control
      set_timer_at reset_to_disc iss_begin_sending
  queue-irs_to_iss = grind (arith, queue-iss_send_next)

  queue-on_data : queue_of (on_data ev now t) ≡ queue_of t
  unfolding on_data send_break accept_data deliver_once deliver send_control arm_repeat
  queue-on_data = ground (arith, queue-arm_idle now t.link)

  queue-irs_data : queue_of (step_irs_data_rx ev now t) ≡ queue_of t
  unfolding step_irs_data_rx connected_teardown send_end_and_disconnect on_idle send_break tell_host
      send_control set_timer_at reset_to_disc arm_repeat
  queue-irs_data = ground (arith, queue-on_data)

module _ (ev : Event) (now : ℕ) (t : Turn) where
  -- The sending station's queue loses bytes to an ACK only.
  queue-iss :
      (queue_of (step_iss_data_rx ev now t) ≡ queue_of t)
      ⊎ ((is_decoded ev ≡ true)
          × (data_ack_min ≤ ev.frame_type)
          × (queue_of (step_iss_data_rx ev now t)
              ≡ drop t.link.sender.outstanding_len (queue_of t)))
  unfolding step_iss_data_rx connected_teardown send_end_and_disconnect iss_yield_on_break tell_host
      send_control set_timer_at reset_to_disc
  queue-iss = grind (arith, queue-on_data_ack, queue-on_data_nak)

-- What a received frame does to the queue.
abbrev Heard : Event → Turn → Turn → Type 0
Heard ev t u =
    (queue_of u ≡ queue_of t)
    ⊎ ((t.link.state ≡ iss)
        × (is_decoded ev ≡ true)
        × (data_ack_min ≤ ev.frame_type)
        × (queue_of u ≡ drop t.link.sender.outstanding_len (queue_of t)))

module _ (ev : Event) (now : ℕ) (t : Turn) where
  queue-dispatch_rx : (s : LinkState) → t.link.state ≡ s → Heard ev t (dispatch_rx s ev now t)
  unfolding dispatch_rx
  queue-dispatch_rx disc h = inl (queue-disc ev now t)
  queue-dispatch_rx iss_con_req h = inl (queue-iss_con_req ev now t)
  queue-dispatch_rx iss_con_ack h = inl (queue-iss_con_ack ev now t)
  queue-dispatch_rx iss h = elim (queue-iss ev now t) [
    | inl e ↦ inl e
    | inr (d, a, e) ↦ inr (h, d, a, e)
  ]
  queue-dispatch_rx irs_con_ack h = inl (queue-irs_con_ack ev now t)
  queue-dispatch_rx irs_data h = inl (queue-irs_data ev now t)
  queue-dispatch_rx idle h = inl (queue-idle ev now t)
  queue-dispatch_rx irs_to_iss h = inl (queue-irs_to_iss ev now t)
  queue-dispatch_rx irs_from_iss h = inl (queue-irs_data ev now t)
  queue-dispatch_rx fec_send h = inl refl

  queue-dispatch_mode : (m : Mode) → Heard ev t (dispatch_mode m ev now t)
  unfolding dispatch_mode
  queue-dispatch_mode arq = queue-dispatch_rx t.link.state refl
  queue-dispatch_mode fec =
      ground (arith, queue-dispatch_rx t.link.state refl, queue-step_fec_rx t ev)
  queue-dispatch_mode rxo = inl (queue-step_rxo_rx t ev)

module _ (ev : Event) (now : ℕ) (l : Link) where
  pub queue-rx : Queued l (run_step l (rx ev) now) (rx ev)
  unfolding step_turn step_rx hear arm_stall
  queue-rx = elim (queue-dispatch_mode ev now (hear ev now (begin l)) l.mode) [
    | inl e ↦ kept (ground (arith, e))
    | inr (s, d, a, e) ↦ acked (ground (arith, s)) d a (ground (arith, e))
  ]
