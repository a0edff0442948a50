-- ===== src/Shell/Runtime.antt =====
-- shell/runtime.c: the link between its modem and its sinks. `log` holds what was handed to the sinks, the
-- latest first. The receiver and the busy detector are one state `W` behind `Modem`.
pub mod Calls
pub mod Keying
pub mod OnAir
pub mod Reports
pub mod Current
use ardopb.Base.{
  ℕ, zero, suc, ◌+◌, ◌-◌, ◌*◌, ◌/◌, ◌%◌, ◌^◌, min, Bool, true, false, not, ◌&&◌, ◌||◌, Option, none,
  some, List, [], ◌∷◌, ◌++◌, length, take, drop, ltb, ◌==◌, if◌then◌else◌, text,
}
use ardopb.Base.Int.{ℤ, pos, negsuc}
use ardopb.Capture.Entries.{frame_entry}
use ardopb.Codec.Frame.{spec_for}
use ardopb.Codec.Rs
use ardopb.Link.Bandwidth.{
  ArqBandwidth, forced_200, forced_500, forced_1000, forced_2000, max_200, max_500, max_1000,
  max_2000, undefined,
}
use ardopb.Link.State
use ardopb.Link.State.{
  Link, LinkState, disc, Mode, arq, fec, rxo, HostCmd, EventKind, leader_detected, frame_decoded,
  frame_bad, Event, Input, timer, rx, host, tx_done, Action, send_frame, set_timer, notify_host,
  deliver_data, tx_len,
}
use ardopb.Link.Step.{link_step}
use ardopb.Shell.Sinks.{
  Obs, leader, state, mode, bandwidth, ptt, busy, rx_frame, rx_frame_bad, tx_frame, buffer,
  host_msg, rx_data, Direction, dir_tx, dir_rx, dir_rx_failed, Telemetry, status, frame_seen, Out,
  observed, measured, captured, word_of, entry_of, state_code,
}

abbrev pub max_actions : ℕ
max_actions = 8

abbrev pub max_events : ℕ
max_events = 8

abbrev pub max_observers : ℕ
max_observers = 4

abbrev pub busy_window : ℕ
busy_window = 1024

abbrev pub tx_queue_size : ℕ
tx_queue_size = 16384

-- The signal processing: `modulate` lays a frame of a type with its leader down as samples and says whether
-- that succeeded, `push` hears samples at a time and says what it heard, each with its tuning offset, and
-- `analyze` says of a window of samples whether the channel is busy.
pub record Modem (W : Type 0) : Type 0 where
  pub modulate : (frame_type : ℕ) → List ℕ → (leader_ms : ℕ) → List ℕ × Bool
  pub push : W → List ℕ → (now max : ℕ) → W × List (ℕ × Event)
  pub analyze : W → List ℕ → (hz : ℕ) → (sensitivity : ℕ) → (now_ms : ℕ) → W × Bool

-- `ardop_mod`: the frame being drained.
pub record Mod : Type 0 where
  pub frame : List ℕ
  pub frame_pos : ℕ

unfoldable pub mod_init : Mod
mod_init = record { frame = []; frame_pos = 0 }

unfoldable pub mod_begin : {W : Type 0} → Modem W → ℕ → List ℕ → ℕ → Mod → Mod × Bool
mod_begin modem frame_type encoded leader_ms m =
    let laid = modem.modulate frame_type encoded leader_ms in
    elim (spec_for frame_type) [
      | none ↦ (m, false)
      | some spec ↦
          if ltb (length encoded) 2
          then (m, false)
          else (record { frame = laid.0; frame_pos = 0 }, laid.1)
    ]

unfoldable pub mod_pull : ℕ → Mod → Mod × List ℕ
mod_pull max m =
    let left = drop m.frame_pos m.frame in
    let n = min (length left) max in (record m { frame_pos = m.frame_pos + n }, take n left)

-- `ardop_runtime`, without what only the displays read.
pub record Runtime (W : Type 0) : Type 0 where
  pub radio : W
  pub link : Link
  pub mod_state : Mod
  pub tx_active : Bool
  pub ptt_keyed : Bool
  pub now : ℕ
  pub busy_accum : List ℕ
  pub busy_det : ℕ
  pub busy_state : Bool
  pub want_cwid : Bool
  pub cwid_onoff : Bool
  pub observers : List ℕ
  pub last_state : LinkState
  pub last_mode : Mode
  pub last_bw : ℕ
  pub last_buffer : ℕ
  pub telemetry_on : Bool
  pub last_sn : ℤ
  pub last_quality : ℤ
  pub capture_on : Bool
  pub log : List Out

abbrev pub state_eq : LinkState → LinkState → Bool
state_eq a b = state_code a == state_code b

unfoldable pub mode_code : Mode → ℕ
mode_code arq = 0
mode_code fec = 1
mode_code rxo = 2

abbrev pub is_fec : Mode → Bool
is_fec m = elim m [ fec ↦ true | _ ↦ false ]

-- The characters of a buffer before its NUL.
unfoldable pub c_text : List ℕ → List ℕ
c_text [] = []
c_text (c ∷ cs) = if c == 0 then [] else c ∷ c_text cs

module _ {W : Type 0} where
  abbrev pub hand : Out → Runtime W → Runtime W
  hand o r = record r { log = o ∷ r.log }

  unfoldable pub telemetry_status : Runtime W → Runtime W
  telemetry_status r =
      let l = r.link in
      let now =
        status l.state l.mode r.busy_state r.ptt_keyed r.last_sn r.last_quality l.session.session_bw
          (tx_len l % 2 ^ 32) in
      if r.telemetry_on then hand (measured now) r else r

  unfoldable pub capture_observation : Obs → Runtime W → Runtime W
  capture_observation o r = elim (entry_of o) [
    | none ↦ r
    | some entry ↦ if r.capture_on then hand (captured entry) r else r
  ]

  unfoldable pub emit : Obs → Runtime W → Runtime W
  emit o r = capture_observation o (telemetry_status (hand (observed r.observers o) r))

  unfoldable pub capture_frame : ℕ → ℕ → ℤ → ℤ → List ℕ → Runtime W → Runtime W
  capture_frame frame_type kind quality sn payload r =
      let entry =
        frame_entry kind frame_type (word_of quality) (word_of sn)
          (r.link.session.session_bw % 2 ^ 16) (take 0xFFFF payload) in
      if r.capture_on then hand (captured entry) r else r

  unfoldable pub emit_frame_record : ℕ → Direction → ℤ → ℤ → Runtime W → Runtime W
  emit_frame_record frame_type dir quality sn r =
      if r.telemetry_on then hand (measured (frame_seen r.now frame_type dir quality sn)) r else r

  -- The four comparisons of `emit_state_diffs`.
  unfoldable pub diff_state : Runtime W → Runtime W
  diff_state r =
      let l = r.link in
      if state_eq l.state r.last_state
      then r
      else emit (state l.state l.session.remote.str) (record r { last_state = l.state })

  unfoldable pub diff_mode : Runtime W → Runtime W
  diff_mode r =
      if mode_code r.link.mode == mode_code r.last_mode
      then r
      else emit (mode r.link.mode) (record r { last_mode = r.link.mode })

  unfoldable pub diff_bw : Runtime W → Runtime W
  diff_bw r =
      let hz = r.link.session.session_bw in
      if hz == r.last_bw then r else emit (bandwidth hz) (record r { last_bw = hz })

  unfoldable pub diff_buffer : Runtime W → Runtime W
  diff_buffer r =
      let n = tx_len r.link in
      if n == r.last_buffer then r else emit (buffer n) (record r { last_buffer = n })

  unfoldable pub emit_state_diffs : Runtime W → Runtime W
  emit_state_diffs r = diff_buffer (diff_bw (diff_mode (diff_state r)))

  unfoldable pub key_up : Runtime W → Runtime W
  key_up r = if r.ptt_keyed then r else emit (ptt true) (record r { ptt_keyed = true })

  -- A transmission that has begun.
  unfoldable pub announce_tx : ℕ → List ℕ → Runtime W → Runtime W
  announce_tx frame_type encoded r =
      let active = record r { tx_active = true } in
      let told = emit (tx_frame frame_type) active in
      let measured_tx = emit_frame_record frame_type dir_tx (negsuc 0) (negsuc 0) told in
      key_up (capture_frame frame_type 1 (negsuc 0) (negsuc 0) encoded measured_tx)

  unfoldable pub start_tx : Modem W → ℕ → List ℕ → ℕ → Runtime W → Runtime W
  start_tx modem frame_type encoded leader_ms r =
      let begun = mod_begin modem frame_type encoded leader_ms mod_init in
      let ready = record r { mod_state = begun.0 } in
      if begun.1 then announce_tx frame_type encoded ready else ready

  unfoldable pub perform : Modem W → Action → Runtime W → Runtime W
  perform modem (send_frame frame_type len leader_ms) r =
      start_tx modem frame_type (take len r.link.scratch.out_frame) leader_ms r
  perform modem (notify_host len) r = emit (host_msg (c_text r.link.scratch.out_host)) r
  perform modem (deliver_data len) r =
      let tag = if is_fec r.link.mode then text "FEC" else text "ARQ" in
      emit (rx_data tag (take len r.link.scratch.out_data)) r
  perform modem (set_timer deadline) r = r

  unfoldable pub perform_all : Modem W → List Action → Runtime W → Runtime W
  perform_all modem [] r = r
  perform_all modem (a ∷ actions) r = perform_all modem actions (perform modem a r)

  unfoldable pub step_and_perform : Modem W → Input → ℕ → Runtime W → Runtime W
  step_and_perform modem input now r =
      let stepped = link_step r.link input now max_actions in
      emit_state_diffs (perform_all modem stepped.1 (record r { link = stepped.0 }))
