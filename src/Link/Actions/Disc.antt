-- ===== src/Link/Actions/Disc.antt =====
-- The actions of the handlers of a station that is not connected.
use ardopb.Base.{ℕ, arith}
use ardopb.Codec.StationId.{StationId}
use ardopb.Link.Actions.{Adds}
use ardopb.Link.Disc.{
  reject_bandwidth, accept_call, answer_call, step_disc_conreq, id_after_ping, answer_ping,
  step_disc_ping, answer_late_disc, step_disc_rx, confirm_conack, step_iss_conreq_rx,
}
use ardopb.Link.State.{Event}
use ardopb.Link.Turn.{Turn, tell_host, set_timer_at}

module _ (ev : Event) (now : ℕ) (t : Turn) where
  answer_call-Adds :
      (caller target : StationId) (reply_session : ℕ)
      → Adds 1 1 1 0 t (answer_call ev now caller target reply_session t)
  unfolding answer_call reject_bandwidth accept_call tell_host set_timer_at
  answer_call-Adds caller target reply_session = ground arith

  step_disc_conreq-Adds : Adds 1 1 1 0 t (step_disc_conreq ev now t)
  unfolding step_disc_conreq tell_host
  step_disc_conreq-Adds = grind (arith, answer_call-Adds)

  answer_ping-Adds : (target : StationId) → Adds 1 1 1 0 t (answer_ping ev now target t)
  unfolding answer_ping id_after_ping tell_host set_timer_at
  answer_ping-Adds target = ground arith

  step_disc_ping-Adds : Adds 1 1 1 0 t (step_disc_ping ev now t)
  unfolding step_disc_ping tell_host
  step_disc_ping-Adds = grind (arith, answer_ping-Adds)

  pub step_disc_rx-Adds : Adds 1 1 1 0 t (step_disc_rx ev now t)
  unfolding step_disc_rx answer_late_disc set_timer_at
  step_disc_rx-Adds = ground (arith, step_disc_conreq-Adds, step_disc_ping-Adds)

  pub step_iss_conreq_rx-Adds : Adds 1 1 1 0 t (step_iss_conreq_rx ev now t)
  unfolding step_iss_conreq_rx confirm_conack tell_host set_timer_at
  step_iss_conreq_rx-Adds = ground arith
