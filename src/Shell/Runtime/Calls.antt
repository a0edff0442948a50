-- ===== src/Shell/Runtime/Calls.antt =====
-- shell/runtime.c: what the main loop calls.
use ardopb.Base.{
  ℕ, zero, suc, ◌-◌, ◌/◌, ◌%◌, ◌^◌, Bool, true, false, Option, none, some, List, [], ◌∷◌, ◌++◌,
  length, take, drop, ltb, ◌==◌, if◌then◌else◌,
}
use ardopb.Base.Int.{pos, negsuc, i16}
use ardopb.Codec.Rs
use ardopb.Link.Bandwidth.{
  ArqBandwidth, forced_200, forced_500, forced_1000, forced_2000, max_200, max_500, max_1000,
  max_2000, undefined,
}
use ardopb.Link.State
use ardopb.Link.State.{
  disc, HostCmd, EventKind, leader_detected, frame_decoded, frame_bad, Event, Input, timer, rx,
  host, tx_done, tx_len,
}
use ardopb.Shell.Runtime.{
  Modem, Runtime, mod_init, mod_pull, state_eq, emit, capture_frame, emit_frame_record,
  step_and_perform, max_events, max_observers, busy_window, tx_queue_size,
}
use ardopb.Shell.Sinks.{leader, busy, ptt, rx_frame, rx_frame_bad, dir_rx, dir_rx_failed}

-- The width that the low two bits of the setting select.
unfoldable pub busy_bandwidth : ArqBandwidth → ℕ
busy_bandwidth forced_200 = 200
busy_bandwidth forced_500 = 500
busy_bandwidth forced_1000 = 1000
busy_bandwidth forced_2000 = 2000
busy_bandwidth max_200 = 200
busy_bandwidth max_500 = 500
busy_bandwidth max_1000 = 1000
busy_bandwidth max_2000 = 2000
busy_bandwidth undefined = 200

module _ {W : Type 0} where
  unfoldable pub observe : ℕ → Runtime W → Runtime W
  observe observer r =
      if ltb (length r.observers) max_observers
      then record r { observers = r.observers ++ (observer ∷ []) }
      else r

  unfoldable pub set_telemetry : Bool → Runtime W → Runtime W
  set_telemetry on r = record r { telemetry_on = on }

  unfoldable pub set_capture : Bool → Runtime W → Runtime W
  set_capture on r = record r { capture_on = on }

  -- `none` for the result false.
  unfoldable pub init : List ℕ → W → Option (Runtime W)
  init rslens radio = elim (Rs.init rslens) [
    | none ↦ none
    | some rs ↦
        let l = State.init in
        let config = record l.config { rs = some rs; tx_attached = true; tx_cap = tx_queue_size } in
        some (record {
          radio = radio;
          link = record l { config = config };
          mod_state = mod_init;
          tx_active = false;
          ptt_keyed = false;
          now = 0;
          busy_accum = [];
          busy_det = 5;
          busy_state = false;
          want_cwid = false;
          cwid_onoff = false;
          observers = [];
          last_state = l.state;
          last_mode = l.mode;
          last_bw = l.session.session_bw;
          last_buffer = tx_len l;
          telemetry_on = false;
          last_sn = pos 0;
          last_quality = pos 0;
          capture_on = false;
          log = [];
        })
  ]

  abbrev pub set_now : ℕ → Runtime W → Runtime W
  set_now now r = record r { now = now }

  unfoldable pub note_busy : Bool → Runtime W → Runtime W
  note_busy now_busy r =
      if now_busy
      then (if r.busy_state then r else emit (busy true) (record r { busy_state = true }))
      else (if r.busy_state then emit (busy false) (record r { busy_state = false }) else r)

  unfoldable pub report_frame : Event → Runtime W → Runtime W
  report_frame ev r =
      let latched = record r { last_quality = i16 ev.quality } in
      let told = emit (rx_frame ev.frame_type ev.quality r.last_sn) latched in
      let measured_rx = emit_frame_record ev.frame_type dir_rx (i16 ev.quality) r.last_sn told in
      capture_frame ev.frame_type 0 (i16 ev.quality) r.last_sn ev.payload measured_rx

  unfoldable pub report_bad : Event → Runtime W → Runtime W
  report_bad ev r =
      let told = emit (rx_frame_bad ev.frame_type) r in
      let measured_rx = emit_frame_record ev.frame_type dir_rx_failed (negsuc 0) r.last_sn told in
      capture_frame ev.frame_type 2 (negsuc 0) r.last_sn [] measured_rx

  unfoldable pub unkey : Runtime W → Runtime W
  unkey r = emit (ptt false) (record r { ptt_keyed = false })

module _ {W : Type 0} (modem : Modem W) where
  -- A window that is full is analysed.
  unfoldable pub analyze_window : ℕ → Runtime W → Runtime W
  analyze_window now_samples r =
      let hz = busy_bandwidth r.link.config.bw_setting in
      let verdict = modem.analyze r.radio r.busy_accum hz r.busy_det (now_samples / 12 % 2 ^ 32) in
      note_busy verdict.1 (record r { radio = verdict.0; busy_accum = [] })

  -- A round takes a sample at least, so the bound of the rounds is the number of samples.
  unfoldable pub busy_loop : ℕ → List ℕ → ℕ → Runtime W → Runtime W
  busy_loop zero samples now_samples r = r
  busy_loop (suc rounds) [] now_samples r = r
  busy_loop (suc rounds) (s ∷ ss) now_samples r =
      let room = busy_window - length r.busy_accum in
      let filled = record r { busy_accum = r.busy_accum ++ take room (s ∷ ss) } in
      let rest =
        busy_loop rounds (drop room (s ∷ ss)) now_samples (analyze_window now_samples filled) in
      if ltb (length filled.busy_accum) busy_window then filled else rest

  unfoldable pub feed_busy : List ℕ → ℕ → Runtime W → Runtime W
  feed_busy samples now_samples r =
      if state_eq r.link.state disc then busy_loop (length samples) samples now_samples r else r

  unfoldable pub step_rx : Event → ℕ → Runtime W → Runtime W
  step_rx ev now_samples r = step_and_perform modem (rx ev) now_samples r

  unfoldable pub hear_as : EventKind → ℕ → Event → ℕ → Runtime W → Runtime W
  hear_as leader_detected offset ev now_samples r =
      emit (leader offset ev.sn) (record r { last_sn = i16 ev.sn })
  hear_as frame_decoded offset ev now_samples r = step_rx ev now_samples (report_frame ev r)
  hear_as frame_bad offset ev now_samples r = step_rx ev now_samples (report_bad ev r)

  unfoldable pub hear_all : List (ℕ × Event) → ℕ → Runtime W → Runtime W
  hear_all [] now_samples r = r
  hear_all ((offset, ev) ∷ events) now_samples r =
      hear_all events now_samples (hear_as ev.kind offset ev now_samples r)

  unfoldable pub runtime_rx : List ℕ → ℕ → Runtime W → Runtime W
  runtime_rx samples now_samples r =
      let fed = feed_busy samples now_samples (set_now now_samples r) in
      let heard = modem.push fed.radio samples now_samples max_events in
      hear_all heard.1 now_samples (record fed { radio = heard.0 })

  unfoldable pub runtime_timer : ℕ → Runtime W → Runtime W
  runtime_timer now_samples r = step_and_perform modem timer now_samples (set_now now_samples r)

  unfoldable pub runtime_host : HostCmd → ℕ → Runtime W → Runtime W
  runtime_host cmd now_samples r =
      step_and_perform modem (host cmd) now_samples (set_now now_samples r)

  unfoldable pub end_tx : Runtime W → Runtime W
  end_tx r = step_and_perform modem tx_done r.now (record r { tx_active = false })

  -- With a bound of the calls of itself, each for a frame that had no sample left.
  unfoldable pub pull_tx : ℕ → ℕ → Runtime W → Runtime W × List ℕ
  pull_tx zero max r = (r, [])
  pull_tx (suc calls) max r =
      let pulled = mod_pull max r.mod_state in
      let drained = record r { mod_state = pulled.0 } in
      let ended = end_tx drained in
      let again = pull_tx calls max ended in
      if r.tx_active
      then (if length pulled.1 == 0
          then (if ended.tx_active then again else (unkey ended, []))
          else (drained, pulled.1))
      else (r, [])
