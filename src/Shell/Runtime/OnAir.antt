-- ===== src/Shell/Runtime/OnAir.antt =====
-- The calls of the main loop keep the key in order, and hand samples out only while it is down.
use ardopb.Base.{
  ℕ, zero, suc, ◌/◌, ◌%◌, ◌^◌, ◌-◌, ◌≡◌, ◌≢◌, refl, arith, Bool, true, false, List, [], ◌∷◌, ◌++◌,
  length, take, drop,
}
use ardopb.Base.Int.{i16, negsuc}
use ardopb.Link.State.{
  HostCmd, EventKind, leader_detected, frame_decoded, frame_bad, Event, timer, rx, host, tx_done,
}
use ardopb.Shell.Runtime.{
  Modem, Runtime, mod_pull, emit, telemetry_status, capture_observation, emit_frame_record,
  capture_frame, busy_window, max_events,
}
use ardopb.Shell.Runtime.Calls.{
  observe, set_now, note_busy, analyze_window, busy_loop, feed_busy, busy_bandwidth, step_rx,
  report_frame, report_bad, hear_as, hear_all, runtime_rx, runtime_timer, runtime_host, end_tx,
  unkey, pull_tx,
}
use ardopb.Shell.Runtime.Keying.{
  Keying, emit-Keying, SameKey-Keying, emit_frame_record-SameKey, capture_frame-SameKey,
  step_and_perform-Keying,
}
use ardopb.Shell.Sinks.{leader, busy, rx_frame, rx_frame_bad, dir_rx, dir_rx_failed}

module _ {W : Type 0} {down : Bool} where
  pub observe-Keying : (id : ℕ) (r : Runtime W) → Keying down r → Keying down (observe id r)
  unfolding observe
  observe-Keying id r k = ground arith

  note_busy-Keying :
      (now_busy : Bool) (r : Runtime W) → Keying down r → Keying down (note_busy now_busy r)
  unfolding note_busy
  note_busy-Keying now_busy r k = ground (
    arith,
    emit-Keying {down = down} (busy true) (record r { busy_state = true }) (λ b. (refl, tt)),
    emit-Keying {down = down} (busy false) (record r { busy_state = false }) (λ b. (refl, tt)),
  )

  report_frame-Keying :
      (ev : Event) (r : Runtime W) → Keying down r → Keying down (report_frame ev r)
  unfolding report_frame
  report_frame-Keying ev r k =
      let latched = record r { last_quality = i16 ev.quality } in
      let a = emit (rx_frame ev.frame_type ev.quality r.last_sn) latched in
      let b = emit_frame_record ev.frame_type dir_rx (i16 ev.quality) r.last_sn a in
      SameKey-Keying b (capture_frame ev.frame_type 0 (i16 ev.quality) r.last_sn ev.payload b)
        (capture_frame-SameKey ev.frame_type 0 (i16 ev.quality) r.last_sn ev.payload b)
        (SameKey-Keying a b
          (emit_frame_record-SameKey ev.frame_type dir_rx (i16 ev.quality) r.last_sn a)
          (emit-Keying (rx_frame ev.frame_type ev.quality r.last_sn) latched (λ b. (refl, tt))
            (record { alternates = k.alternates; told = k.told; keyed = k.keyed; held = k.held })))

  report_bad-Keying : (ev : Event) (r : Runtime W) → Keying down r → Keying down (report_bad ev r)
  unfolding report_bad
  report_bad-Keying ev r k =
      let a = emit (rx_frame_bad ev.frame_type) r in
      let b = emit_frame_record ev.frame_type dir_rx_failed (negsuc 0) r.last_sn a in
      SameKey-Keying b (capture_frame ev.frame_type 2 (negsuc 0) r.last_sn [] b)
        (capture_frame-SameKey ev.frame_type 2 (negsuc 0) r.last_sn [] b)
        (SameKey-Keying a b
          (emit_frame_record-SameKey ev.frame_type dir_rx_failed (negsuc 0) r.last_sn a)
          (emit-Keying (rx_frame_bad ev.frame_type) r (λ b. (refl, tt)) k))

module _ {W : Type 0} {down : Bool} (modem : Modem W) where
  analyze_window-Keying :
      (now : ℕ) (r : Runtime W) → Keying down r → Keying down (analyze_window modem now r)
  unfolding analyze_window
  analyze_window-Keying now r k =
      let hz = busy_bandwidth r.link.config.bw_setting in
      let verdict = modem.analyze r.radio r.busy_accum hz r.busy_det (now / 12 % 2 ^ 32) in
      note_busy-Keying verdict.1 (record r { radio = verdict.0; busy_accum = [] })
        (record { alternates = k.alternates; told = k.told; keyed = k.keyed; held = k.held })

  busy_loop-Keying :
      (rounds : ℕ) (samples : List ℕ) (now : ℕ) (r : Runtime W)
      → Keying down r
      → Keying down (busy_loop modem rounds samples now r)
  unfolding busy_loop
  busy_loop-Keying zero samples now r k = k
  busy_loop-Keying (suc rounds) [] now r k = k
  busy_loop-Keying (suc rounds) (s ∷ ss) now r k =
      let room = busy_window - length r.busy_accum in
      let filled = record r { busy_accum = r.busy_accum ++ take room (s ∷ ss) } in
      ground (
        arith,
        busy_loop-Keying rounds (drop room (s ∷ ss)) now (analyze_window modem now filled) (
            analyze_window-Keying now filled (record {
              alternates = k.alternates;
              told = k.told;
              keyed = k.keyed;
              held = k.held;
            })),
      )

  feed_busy-Keying :
      (samples : List ℕ) (now : ℕ) (r : Runtime W)
      → Keying down r
      → Keying down (feed_busy modem samples now r)
  unfolding feed_busy
  feed_busy-Keying samples now r k = ground (arith, busy_loop-Keying (length samples) samples now r)

  hear_as-Keying :
      (kind : EventKind) (offset : ℕ) (ev : Event) (now : ℕ) (r : Runtime W)
      → Keying down r
      → Keying down (hear_as modem kind offset ev now r)
  unfolding hear_as step_rx
  hear_as-Keying leader_detected offset ev now r k =
      emit-Keying (leader offset ev.sn) (record r { last_sn = i16 ev.sn }) (λ b. (refl, tt))
        (record { alternates = k.alternates; told = k.told; keyed = k.keyed; held = k.held })
  hear_as-Keying frame_decoded offset ev now r k =
      step_and_perform-Keying modem (rx ev) now (report_frame ev r) (report_frame-Keying ev r k)
  hear_as-Keying frame_bad offset ev now r k =
      step_and_perform-Keying modem (rx ev) now (report_bad ev r) (report_bad-Keying ev r k)

  hear_all-Keying :
      (events : List (ℕ × Event)) (now : ℕ) (r : Runtime W)
      → Keying down r
      → Keying down (hear_all modem events now r)
  unfolding hear_all
  hear_all-Keying [] now r k = k
  hear_all-Keying ((offset, ev) ∷ events) now r k =
      hear_all-Keying events now (hear_as modem ev.kind offset ev now r)
        (hear_as-Keying ev.kind offset ev now r k)

  pub runtime_rx-Keying :
      (samples : List ℕ) (now : ℕ) (r : Runtime W)
      → Keying down r
      → Keying down (runtime_rx modem samples now r)
  unfolding runtime_rx
  runtime_rx-Keying samples now r k =
      let fed = feed_busy modem samples now (set_now now r) in
      let heard = modem.push fed.radio samples now max_events in
      let f =
        feed_busy-Keying samples now (set_now now r)
          (record { alternates = k.alternates; told = k.told; keyed = k.keyed; held = k.held }) in
      hear_all-Keying heard.1 now (record fed { radio = heard.0 })
        (record { alternates = f.alternates; told = f.told; keyed = f.keyed; held = f.held })

  pub runtime_timer-Keying :
      (now : ℕ) (r : Runtime W) → Keying down r → Keying down (runtime_timer modem now r)
  unfolding runtime_timer
  runtime_timer-Keying now r k =
      step_and_perform-Keying modem timer now (set_now now r)
        (record { alternates = k.alternates; told = k.told; keyed = k.keyed; held = k.held })

  pub runtime_host-Keying :
      (cmd : HostCmd) (now : ℕ) (r : Runtime W)
      → Keying down r
      → Keying down (runtime_host modem cmd now r)
  unfolding runtime_host
  runtime_host-Keying cmd now r k =
      step_and_perform-Keying modem (host cmd) now (set_now now r)
        (record { alternates = k.alternates; told = k.told; keyed = k.keyed; held = k.held })

module _ {W : Type 0} where
  unkey-Keying : (r : Runtime W) → Keying true r → r.tx_active ≡ false → Keying false (unkey r)
  unfolding unkey emit telemetry_status capture_observation
  unkey-Keying r k a = ground arith

module _ {W : Type 0} (modem : Modem W) where
  end_tx-Keying :
      (r : Runtime W) → Keying false r → r.tx_active ≡ true → Keying true (end_tx modem r)
  unfolding end_tx
  end_tx-Keying r k a =
      let idle_now = record r { tx_active = false } in
      step_and_perform-Keying modem tx_done r.now idle_now (ground arith)

  Keying-weaken : (r : Runtime W) → Keying true r → Keying false r
  Keying-weaken r k = ground arith

  -- Samples come out while the key is down.
  pub pull_tx-Keying :
      (calls max : ℕ) (r : Runtime W)
      → Keying false r
      → let pulled = pull_tx modem calls max r in
        Keying false pulled.0 × (pulled.1 ≢ [] → pulled.0.ptt_keyed ≡ true)
  unfolding pull_tx
  pull_tx-Keying zero max r k = (k, λ h. absurd (h refl))
  pull_tx-Keying (suc calls) max r k =
      let pulled = mod_pull max r.mod_state in
      let drained = record r { mod_state = pulled.0 } in
      let ended = end_tx modem drained in
      let kd : Keying false drained = record {
        alternates = k.alternates;
        told = k.told;
        keyed = k.keyed;
        held = k.held;
      } in
      ground (
        arith,
        end_tx-Keying drained kd,
        Keying-weaken ended,
        pull_tx-Keying calls max ended,
        unkey-Keying ended,
      )
