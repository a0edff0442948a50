-- ===== src/Link/Settings/Disc.antt =====
-- The handlers of core/link/link.c and what the host has set, as in Link.Actions.Disc.
use ardopb.Base.{ℕ}
use ardopb.Codec.StationId.{StationId}
use ardopb.Link.Settings.{KeepsConfig, keeps}
use ardopb.Link.Disc.{
  reject_bandwidth, accept_call, answer_call, step_disc_conreq, id_after_ping, answer_ping,
  step_disc_ping, answer_late_disc, step_disc_rx, confirm_conack, step_iss_conreq_rx,
}
use ardopb.Link.State.{Event}
use ardopb.Link.Turn.{Turn, tell_host, set_timer_at}

module _ (ev : Event) (now : ℕ) (t : Turn) where
  answer_call-KeepsConfig :
      (caller target : StationId) (reply_session : ℕ)
      → KeepsConfig t (answer_call ev now caller target reply_session t)
  unfolding answer_call reject_bandwidth accept_call tell_host set_timer_at
  answer_call-KeepsConfig caller target reply_session = grind keeps

  step_disc_conreq-KeepsConfig : KeepsConfig t (step_disc_conreq ev now t)
  unfolding step_disc_conreq tell_host
  step_disc_conreq-KeepsConfig = grind (keeps, answer_call-KeepsConfig)

  answer_ping-KeepsConfig : (target : StationId) → KeepsConfig t (answer_ping ev now target t)
  unfolding answer_ping id_after_ping tell_host set_timer_at
  answer_ping-KeepsConfig target = grind keeps

  step_disc_ping-KeepsConfig : KeepsConfig t (step_disc_ping ev now t)
  unfolding step_disc_ping tell_host
  step_disc_ping-KeepsConfig = grind (keeps, answer_ping-KeepsConfig)

  pub step_disc_rx-KeepsConfig : KeepsConfig t (step_disc_rx ev now t)
  unfolding step_disc_rx answer_late_disc set_timer_at
  step_disc_rx-KeepsConfig = grind (keeps, step_disc_conreq-KeepsConfig, step_disc_ping-KeepsConfig)

  pub step_iss_conreq_rx-KeepsConfig : KeepsConfig t (step_iss_conreq_rx ev now t)
  unfolding step_iss_conreq_rx confirm_conack tell_host set_timer_at
  step_iss_conreq_rx-KeepsConfig = grind keeps
