-- ===== src/Shell/Runtime/Reports.antt =====
-- What the observers were last told of the link, and what it is.
use ardopb.Base.{if◌then◌else◌, ap, ℕ, ◌≡◌, refl, arith, true, List, [], ◌∷◌, take, text}
use ardopb.Base.Int.{ℤ, negsuc}
use ardopb.Link.State.{
  LinkState, disc, Mode, arq, Input, Action, send_frame, set_timer, notify_host, deliver_data,
  tx_len,
}
use ardopb.Link.Step.{link_step}
use ardopb.Shell.Runtime.{
  Modem, Runtime, max_actions, state_eq, mode_code, emit, telemetry_status, capture_observation,
  capture_frame, emit_frame_record, diff_state, diff_mode, diff_bw, diff_buffer, emit_state_diffs,
  key_up, announce_tx, start_tx, perform, perform_all, step_and_perform, mod_begin, mod_init,
  c_text, is_fec,
}
use ardopb.Shell.Sinks.{
  Obs, state, mode, bandwidth, ptt, tx_frame, buffer, host_msg, rx_data, Direction, dir_tx, Out,
  observed, measured, captured, state_code,
}

-- What a freshly initialised link is, when nothing was told.
abbrev pub state_told : List Out → LinkState
state_told [] = disc
state_told (observed ids o ∷ log) = elim o [ state s remote ↦ s | _ ↦ state_told log ]
state_told (measured t ∷ log) = state_told log
state_told (captured e ∷ log) = state_told log

abbrev pub mode_told : List Out → Mode
mode_told [] = arq
mode_told (observed ids o ∷ log) = elim o [ mode m ↦ m | _ ↦ mode_told log ]
mode_told (measured t ∷ log) = mode_told log
mode_told (captured e ∷ log) = mode_told log

abbrev pub bandwidth_told : List Out → ℕ
bandwidth_told [] = 0
bandwidth_told (observed ids o ∷ log) = elim o [ bandwidth hz ↦ hz | _ ↦ bandwidth_told log ]
bandwidth_told (measured t ∷ log) = bandwidth_told log
bandwidth_told (captured e ∷ log) = bandwidth_told log

abbrev pub buffer_told : List Out → ℕ
buffer_told [] = 0
buffer_told (observed ids o ∷ log) = elim o [ buffer n ↦ n | _ ↦ buffer_told log ]
buffer_told (measured t ∷ log) = buffer_told log
buffer_told (captured e ∷ log) = buffer_told log

abbrev pub Knows : List Out → LinkState → Mode → ℕ → ℕ → Type 0
Knows log s m hz n =
    (state_told log ≡ s) × (mode_told log ≡ m) × (bandwidth_told log ≡ hz) × (buffer_told log ≡ n)

-- An observation of none of the four.
abbrev pub IsOther : Obs → Type 0
IsOther o =
    (log : List Out) (ids : List ℕ)
    → Knows (observed ids o ∷ log) (state_told log) (mode_told log) (bandwidth_told log)
        (buffer_told log)

state_code_inj : (a b : LinkState) → state_eq a b ≡ true → a ≡ b
unfolding state_code
state_code_inj a b h = ground arith

mode_code_inj : (a b : Mode) → mode_code a ≡ mode_code b → a ≡ b
unfolding mode_code
mode_code_inj a b h = ground arith

module _ {W : Type 0} where
  -- The last values are those that were told.
  abbrev pub Told : Runtime W → Type 0
  Told r = Knows r.log r.last_state r.last_mode r.last_bw r.last_buffer

  -- What was told is what the link is.
  abbrev pub IsCurrent : Runtime W → Type 0
  IsCurrent r =
      Told r
      × (r.last_state ≡ r.link.state)
      × (r.last_mode ≡ r.link.mode)
      × (r.last_bw ≡ r.link.session.session_bw)
      × (r.last_buffer ≡ tx_len r.link)

  pub record SameReport (r t : Runtime W) : Type 0 where
    pub same_state_told : state_told t.log ≡ state_told r.log
    pub same_mode_told : mode_told t.log ≡ mode_told r.log
    pub same_bandwidth_told : bandwidth_told t.log ≡ bandwidth_told r.log
    pub same_buffer_told : buffer_told t.log ≡ buffer_told r.log
    pub same_state : t.last_state ≡ r.last_state
    pub same_mode : t.last_mode ≡ r.last_mode
    pub same_bw : t.last_bw ≡ r.last_bw
    pub same_buffer : t.last_buffer ≡ r.last_buffer
    pub same_link : t.link ≡ r.link

  pub emit-SameReport : (o : Obs) (r : Runtime W) → IsOther o → SameReport r (emit o r)
  unfolding emit telemetry_status capture_observation
  emit-SameReport o r h = ground (arith, h r.log r.observers)

  pub SameReport-Told : (r t : Runtime W) → SameReport r t → Told r → Told t
  SameReport-Told r t s k = ground arith

  pub SameReport-IsCurrent : (r t : Runtime W) → SameReport r t → IsCurrent r → IsCurrent t
  SameReport-IsCurrent r t s k = ground (arith, ap tx_len s.same_link)

  pub emit_frame_record-SameReport :
      (ft : ℕ) (dir : Direction) (q sn : ℤ) (r : Runtime W)
      → SameReport r (emit_frame_record ft dir q sn r)
  unfolding emit_frame_record
  emit_frame_record-SameReport ft dir q sn r = ground arith

  pub capture_frame-SameReport :
      (ft kind : ℕ) (q sn : ℤ) (payload : List ℕ) (r : Runtime W)
      → SameReport r (capture_frame ft kind q sn payload r)
  unfolding capture_frame
  capture_frame-SameReport ft kind q sn payload r = ground arith

  pub emit-Told : (o : Obs) (r : Runtime W) → IsOther o → Told r → Told (emit o r)
  emit-Told o r h k = SameReport-Told r (emit o r) (emit-SameReport o r h) k

  key_up-Told : (r : Runtime W) → Told r → Told (key_up r)
  unfolding key_up
  key_up-Told r k = ground (
    arith,
    emit-Told (ptt true) (record r { ptt_keyed = true }) (λ log ids. (refl, refl, refl, refl)),
  )

  announce_tx-Told :
      (ft : ℕ) (encoded : List ℕ) (r : Runtime W) → Told r → Told (announce_tx ft encoded r)
  unfolding announce_tx
  announce_tx-Told ft encoded r k =
      let active = record r { tx_active = true } in
      let a = emit (tx_frame ft) active in
      let b = emit_frame_record ft dir_tx (negsuc 0) (negsuc 0) a in
      let c = capture_frame ft 1 (negsuc 0) (negsuc 0) encoded b in
      key_up-Told c (
        SameReport-Told b c (capture_frame-SameReport ft 1 (negsuc 0) (negsuc 0) encoded b) (
          SameReport-Told a b (emit_frame_record-SameReport ft dir_tx (negsuc 0) (negsuc 0) a)
            (emit-Told (tx_frame ft) active (λ log ids. (refl, refl, refl, refl)) k)))

  start_tx-Told :
      (modem : Modem W) (ft : ℕ) (encoded : List ℕ) (leader_ms : ℕ) (r : Runtime W)
      → Told r
      → Told (start_tx modem ft encoded leader_ms r)
  unfolding start_tx
  start_tx-Told modem ft encoded leader_ms r k =
      let begun = mod_begin modem ft encoded leader_ms mod_init in
      ground (arith, announce_tx-Told ft encoded (record r { mod_state = begun.0 }))

  perform-Told : (modem : Modem W) (a : Action) (r : Runtime W) → Told r → Told (perform modem a r)
  unfolding perform
  perform-Told modem (send_frame ft len leader_ms) r k =
      start_tx-Told modem ft (take len r.link.scratch.out_frame) leader_ms r k
  perform-Told modem (notify_host len) r k =
      emit-Told (host_msg (c_text r.link.scratch.out_host)) r (λ log ids. (refl, refl, refl, refl))
        k
  perform-Told modem (deliver_data len) r k =
      let tag = if is_fec r.link.mode then text "FEC" else text "ARQ" in
      emit-Told (rx_data tag (take len r.link.scratch.out_data)) r
        (λ log ids. (refl, refl, refl, refl)) k
  perform-Told modem (set_timer deadline) r k = k

  perform_all-Told :
      (modem : Modem W) (actions : List Action) (r : Runtime W)
      → Told r
      → Told (perform_all modem actions r)
  unfolding perform_all
  perform_all-Told modem [] r k = k
  perform_all-Told modem (a ∷ actions) r k =
      perform_all-Told modem actions (perform modem a r) (perform-Told modem a r k)

  -- A comparison that is made tells the change, and leaves the others to come.
  diff_state-Told :
      (r : Runtime W)
      → Told r
      → let t = diff_state r in Told t × (t.last_state ≡ r.link.state) × (t.link ≡ r.link)
  unfolding diff_state emit telemetry_status capture_observation
  diff_state-Told r k = ground (arith, state_code_inj r.link.state r.last_state)

  diff_mode-Told :
      (r : Runtime W)
      → Told r
      → let t = diff_mode r in
        Told t × (t.last_mode ≡ r.link.mode) × (t.last_state ≡ r.last_state) × (t.link ≡ r.link)
  unfolding diff_mode emit telemetry_status capture_observation
  diff_mode-Told r k = ground (arith, mode_code_inj r.link.mode r.last_mode)

  diff_bw-Told :
      (r : Runtime W)
      → Told r
      → let t = diff_bw r in
        Told t
        × (t.last_bw ≡ r.link.session.session_bw)
        × (t.last_mode ≡ r.last_mode)
        × (t.last_state ≡ r.last_state)
        × (t.link ≡ r.link)
  unfolding diff_bw emit telemetry_status capture_observation
  diff_bw-Told r k = ground arith

  diff_buffer-Told :
      (r : Runtime W)
      → Told r
      → let t = diff_buffer r in
        Told t
        × (t.last_buffer ≡ tx_len r.link)
        × (t.last_bw ≡ r.last_bw)
        × (t.last_mode ≡ r.last_mode)
        × (t.last_state ≡ r.last_state)
        × (t.link ≡ r.link)
  unfolding diff_buffer emit telemetry_status capture_observation
  diff_buffer-Told r k = ground arith

  emit_state_diffs-IsCurrent : (r : Runtime W) → Told r → IsCurrent (emit_state_diffs r)
  unfolding emit_state_diffs
  emit_state_diffs-IsCurrent r k =
      let a = diff_state r in
      let b = diff_mode a in
      let c = diff_bw b in
      let ka = diff_state-Told r k in
      let kb = diff_mode-Told a ka.0 in
      let kc = diff_bw-Told b kb.0 in
      let kd = diff_buffer-Told c kc.0 in ground (arith, ka, kb, kc, kd)

  pub step_and_perform-IsCurrent :
      (modem : Modem W) (input : Input) (now : ℕ) (r : Runtime W)
      → Told r
      → IsCurrent (step_and_perform modem input now r)
  unfolding step_and_perform
  step_and_perform-IsCurrent modem input now r k =
      let stepped = link_step r.link input now max_actions in
      let stepping = record r { link = stepped.0 } in
      emit_state_diffs-IsCurrent (perform_all modem stepped.1 stepping)
        (perform_all-Told modem stepped.1 stepping k)
