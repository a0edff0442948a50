-- ===== src/Shell/Runtime/Current.antt =====
-- The calls of the main loop, and what the observers were last told of the link.
use ardopb.Base.{
  ℕ, zero, suc, ◌-◌, ◌/◌, ◌%◌, ◌^◌, refl, arith, Bool, true, false, List, [], ◌∷◌, ◌++◌, length,
  take, drop,
}
use ardopb.Base.Int.{i16, negsuc}
use ardopb.Link.State.{
  HostCmd, EventKind, leader_detected, frame_decoded, frame_bad, Event, timer, rx, host, tx_done,
}
use ardopb.Shell.Runtime.{
  Modem, Runtime, mod_pull, emit, emit_frame_record, capture_frame, busy_window, max_events,
}
use ardopb.Shell.Runtime.Calls.{
  observe, set_now, note_busy, analyze_window, busy_loop, feed_busy, busy_bandwidth, step_rx,
  report_frame, report_bad, hear_as, hear_all, runtime_rx, runtime_timer, runtime_host, end_tx,
  unkey, pull_tx,
}
use ardopb.Shell.Runtime.Reports.{
  Told, IsCurrent, emit-Told, SameReport-Told, emit_frame_record-SameReport,
  capture_frame-SameReport, step_and_perform-IsCurrent,
}
use ardopb.Shell.Sinks.{leader, busy, ptt, rx_frame, rx_frame_bad, dir_rx, dir_rx_failed}

module _ {W : Type 0} where
  pub observe-Told : (id : ℕ) (r : Runtime W) → Told r → Told (observe id r)
  unfolding observe
  observe-Told id r k = ground arith

  note_busy-Told : (now_busy : Bool) (r : Runtime W) → Told r → Told (note_busy now_busy r)
  unfolding note_busy
  note_busy-Told now_busy r k = ground (
    arith,
    emit-Told (busy true) (record r { busy_state = true }) (λ log ids. (refl, refl, refl, refl)),
    emit-Told (busy false) (record r { busy_state = false }) (λ log ids. (refl, refl, refl, refl)),
  )

  report_frame-Told : (ev : Event) (r : Runtime W) → Told r → Told (report_frame ev r)
  unfolding report_frame
  report_frame-Told ev r k =
      let latched = record r { last_quality = i16 ev.quality } in
      let a = emit (rx_frame ev.frame_type ev.quality r.last_sn) latched in
      let b = emit_frame_record ev.frame_type dir_rx (i16 ev.quality) r.last_sn a in
      SameReport-Told b (capture_frame ev.frame_type 0 (i16 ev.quality) r.last_sn ev.payload b)
        (capture_frame-SameReport ev.frame_type 0 (i16 ev.quality) r.last_sn ev.payload b)
        (SameReport-Told a b
          (emit_frame_record-SameReport ev.frame_type dir_rx (i16 ev.quality) r.last_sn a)
          (emit-Told (rx_frame ev.frame_type ev.quality r.last_sn) latched
            (λ log ids. (refl, refl, refl, refl)) k))

  report_bad-Told : (ev : Event) (r : Runtime W) → Told r → Told (report_bad ev r)
  unfolding report_bad
  report_bad-Told ev r k =
      let a = emit (rx_frame_bad ev.frame_type) r in
      let b = emit_frame_record ev.frame_type dir_rx_failed (negsuc 0) r.last_sn a in
      SameReport-Told b (capture_frame ev.frame_type 2 (negsuc 0) r.last_sn [] b)
        (capture_frame-SameReport ev.frame_type 2 (negsuc 0) r.last_sn [] b)
        (SameReport-Told a b
          (emit_frame_record-SameReport ev.frame_type dir_rx_failed (negsuc 0) r.last_sn a)
          (emit-Told (rx_frame_bad ev.frame_type) r (λ log ids. (refl, refl, refl, refl)) k))

  unkey-Told : (r : Runtime W) → Told r → Told (unkey r)
  unfolding unkey
  unkey-Told r k =
      emit-Told (ptt false) (record r { ptt_keyed = false }) (λ log ids. (refl, refl, refl, refl)) k

module _ {W : Type 0} (modem : Modem W) where
  busy_loop-Told :
      (rounds : ℕ) (samples : List ℕ) (now : ℕ) (r : Runtime W)
      → Told r
      → Told (busy_loop modem rounds samples now r)
  unfolding busy_loop analyze_window
  busy_loop-Told zero samples now r k = k
  busy_loop-Told (suc rounds) [] now r k = k
  busy_loop-Told (suc rounds) (s ∷ ss) now r k =
      let room = busy_window - length r.busy_accum in
      let filled = record r { busy_accum = r.busy_accum ++ take room (s ∷ ss) } in
      let hz = busy_bandwidth r.link.config.bw_setting in
      let verdict = modem.analyze r.radio filled.busy_accum hz r.busy_det (now / 12 % 2 ^ 32) in
      let emptied = record filled { radio = verdict.0; busy_accum = [] } in
      ground (
        arith,
        busy_loop-Told rounds (drop room (s ∷ ss)) now (note_busy verdict.1 emptied)
            (note_busy-Told verdict.1 emptied k),
      )

  feed_busy-Told :
      (samples : List ℕ) (now : ℕ) (r : Runtime W) → Told r → Told (feed_busy modem samples now r)
  unfolding feed_busy
  feed_busy-Told samples now r k = ground (arith, busy_loop-Told (length samples) samples now r)

  hear_as-Told :
      (kind : EventKind) (offset : ℕ) (ev : Event) (now : ℕ) (r : Runtime W)
      → Told r
      → Told (hear_as modem kind offset ev now r)
  unfolding hear_as step_rx
  hear_as-Told leader_detected offset ev now r k =
      emit-Told (leader offset ev.sn) (record r { last_sn = i16 ev.sn })
        (λ log ids. (refl, refl, refl, refl)) k
  hear_as-Told frame_decoded offset ev now r k =
      (step_and_perform-IsCurrent modem (rx ev) now (report_frame ev r)
        (report_frame-Told ev r k)).0
  hear_as-Told frame_bad offset ev now r k =
      (step_and_perform-IsCurrent modem (rx ev) now (report_bad ev r) (report_bad-Told ev r k)).0

  hear_all-Told :
      (events : List (ℕ × Event)) (now : ℕ) (r : Runtime W)
      → Told r
      → Told (hear_all modem events now r)
  unfolding hear_all
  hear_all-Told [] now r k = k
  hear_all-Told ((offset, ev) ∷ events) now r k =
      hear_all-Told events now (hear_as modem ev.kind offset ev now r)
        (hear_as-Told ev.kind offset ev now r k)

  pub runtime_rx-Told :
      (samples : List ℕ) (now : ℕ) (r : Runtime W) → Told r → Told (runtime_rx modem samples now r)
  unfolding runtime_rx
  runtime_rx-Told samples now r k =
      let fed = feed_busy modem samples now (set_now now r) in
      let heard = modem.push fed.radio samples now max_events in
      hear_all-Told heard.1 now (record fed { radio = heard.0 })
        (feed_busy-Told samples now (set_now now r) k)

  pub runtime_timer-IsCurrent :
      (now : ℕ) (r : Runtime W) → Told r → IsCurrent (runtime_timer modem now r)
  unfolding runtime_timer
  runtime_timer-IsCurrent now r k = step_and_perform-IsCurrent modem timer now (set_now now r) k

  pub runtime_host-IsCurrent :
      (cmd : HostCmd) (now : ℕ) (r : Runtime W) → Told r → IsCurrent (runtime_host modem cmd now r)
  unfolding runtime_host
  runtime_host-IsCurrent cmd now r k =
      step_and_perform-IsCurrent modem (host cmd) now (set_now now r) k

  end_tx-Told : (r : Runtime W) → Told r → Told (end_tx modem r)
  unfolding end_tx
  end_tx-Told r k =
      (step_and_perform-IsCurrent modem tx_done r.now (record r { tx_active = false }) k).0

  pub pull_tx-Told : (calls max : ℕ) (r : Runtime W) → Told r → Told (pull_tx modem calls max r).0
  unfolding pull_tx
  pull_tx-Told zero max r k = k
  pull_tx-Told (suc calls) max r k =
      let pulled = mod_pull max r.mod_state in
      let drained = record r { mod_state = pulled.0 } in
      let ended = end_tx modem drained in
      let e = end_tx-Told drained k in
      ground (arith, e, pull_tx-Told calls max ended e, unkey-Told ended e)
