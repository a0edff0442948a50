-- ===== src/Shell/Runtime/Keying.antt =====
-- The transmitter's key, as the observers hear of it.
use ardopb.Base.{
  ℕ, ◌≡◌, refl, arith, Bool, true, false, not, List, [], ◌∷◌, if◌then◌else◌, take, text,
}
use ardopb.Base.Int.{ℤ, negsuc}
use ardopb.Link.State.{Input, Action, send_frame, set_timer, notify_host, deliver_data, tx_len}
use ardopb.Link.Step.{link_step}
use ardopb.Shell.Runtime.{
  Modem, Runtime, max_actions, emit, telemetry_status, capture_observation, capture_frame,
  emit_frame_record, diff_state, diff_mode, diff_bw, diff_buffer, emit_state_diffs, key_up,
  announce_tx, start_tx, perform, perform_all, step_and_perform, mod_begin, mod_init, c_text,
  is_fec,
}
use ardopb.Shell.Sinks.{
  Obs, leader, state, mode, bandwidth, ptt, busy, rx_frame, rx_frame_bad, tx_frame, buffer,
  host_msg, rx_data, Direction, dir_tx, Out, observed, measured, captured,
}

-- What an observation says of the key, after what was said before.
abbrev pub heard_key : Obs → Bool → Bool
heard_key o before = elim o [ ptt key ↦ key | _ ↦ before ]

-- The key as it was last told, the first telling being the latest.
abbrev pub key_told : List Out → Bool
key_told [] = false
key_told (observed ids o ∷ log) = heard_key o (key_told log)
key_told (measured t ∷ log) = key_told log
key_told (captured e ∷ log) = key_told log

-- Each telling of the key is a change.
abbrev pub ChangesKey : Obs → Bool → Type 0
ChangesKey (ptt key) before = key ≡ not before
ChangesKey (leader offset sn) before = Unit
ChangesKey (state s remote) before = Unit
ChangesKey (mode m) before = Unit
ChangesKey (bandwidth hz) before = Unit
ChangesKey (busy now) before = Unit
ChangesKey (rx_frame ft q sn) before = Unit
ChangesKey (rx_frame_bad ft) before = Unit
ChangesKey (tx_frame ft) before = Unit
ChangesKey (buffer n) before = Unit
ChangesKey (host_msg line) before = Unit
ChangesKey (rx_data tag bytes) before = Unit

abbrev pub Alternates : List Out → Type 0
Alternates [] = Unit
Alternates (observed ids o ∷ log) = ChangesKey o (key_told log) × Alternates log
Alternates (measured t ∷ log) = Alternates log
Alternates (captured e ∷ log) = Alternates log

-- An observation of anything but the key.
abbrev pub IsQuiet : Obs → Type 0
IsQuiet o = (b : Bool) → (heard_key o b ≡ b) × ChangesKey o b

module _ {W : Type 0} where
  -- Between two calls of the runtime; where `down` holds the key is down.
  pub record Keying (down : Bool) (r : Runtime W) : Type 0 where
    pub alternates : Alternates r.log
    pub told : key_told r.log ≡ r.ptt_keyed
    pub keyed : r.tx_active ≡ true → r.ptt_keyed ≡ true
    pub held : down ≡ true → r.ptt_keyed ≡ true

  -- A runtime that has told what another has, of the key.
  pub record SameKey (r t : Runtime W) : Type 0 where
    pub same_alternates : Alternates r.log → Alternates t.log
    pub same_told : key_told t.log ≡ key_told r.log
    pub same_keyed : t.ptt_keyed ≡ r.ptt_keyed
    pub same_active : t.tx_active ≡ r.tx_active

  pub emit-SameKey : (o : Obs) (r : Runtime W) → IsQuiet o → SameKey r (emit o r)
  unfolding emit telemetry_status capture_observation
  emit-SameKey o r q = record {
    same_alternates = ground (arith, q (key_told r.log));
    same_told = ground (arith, q (key_told r.log));
    same_keyed = ground arith;
    same_active = ground arith;
  }

  pub emit_frame_record-SameKey :
      (ft : ℕ) (dir : Direction) (q sn : ℤ) (r : Runtime W)
      → SameKey r (emit_frame_record ft dir q sn r)
  unfolding emit_frame_record
  emit_frame_record-SameKey ft dir q sn r = ground arith

  pub capture_frame-SameKey :
      (ft kind : ℕ) (q sn : ℤ) (payload : List ℕ) (r : Runtime W)
      → SameKey r (capture_frame ft kind q sn payload r)
  unfolding capture_frame
  capture_frame-SameKey ft kind q sn payload r = ground arith

  SameKey-trans : (r t u : Runtime W) → SameKey r t → SameKey t u → SameKey r u
  SameKey-trans r t u a b = record {
    same_alternates = λ h. b.same_alternates (a.same_alternates h);
    same_told = ground arith;
    same_keyed = ground arith;
    same_active = ground arith;
  }

  -- The key as told and as it is, whatever is active.
  pub record Told (down : Bool) (r : Runtime W) : Type 0 where
    pub told_alternates : Alternates r.log
    pub told_key : key_told r.log ≡ r.ptt_keyed
    pub told_held : down ≡ true → r.ptt_keyed ≡ true

module _ {W : Type 0} {down : Bool} where
  pub SameKey-Keying : (r t : Runtime W) → SameKey r t → Keying down r → Keying down t
  SameKey-Keying r t s k = record {
    alternates = s.same_alternates k.alternates;
    told = ground arith;
    keyed = ground arith;
    held = ground arith;
  }

  pub emit-Keying : (o : Obs) (r : Runtime W) → IsQuiet o → Keying down r → Keying down (emit o r)
  emit-Keying o r q k = SameKey-Keying r (emit o r) (emit-SameKey o r q) k

  diff_state-Keying : (r : Runtime W) → Keying down r → Keying down (diff_state r)
  unfolding diff_state
  diff_state-Keying r k = ground (
    arith,
    emit-Keying (state r.link.state r.link.session.remote.str)
        (record r { last_state = r.link.state }) (λ b. (refl, tt)),
  )

  diff_mode-Keying : (r : Runtime W) → Keying down r → Keying down (diff_mode r)
  unfolding diff_mode
  diff_mode-Keying r k = ground (
    arith,
    emit-Keying (mode r.link.mode) (record r { last_mode = r.link.mode }) (λ b. (refl, tt)),
  )

  diff_bw-Keying : (r : Runtime W) → Keying down r → Keying down (diff_bw r)
  unfolding diff_bw
  diff_bw-Keying r k =
      let hz = r.link.session.session_bw in
      ground (arith, emit-Keying (bandwidth hz) (record r { last_bw = hz }) (λ b. (refl, tt)))

  diff_buffer-Keying : (r : Runtime W) → Keying down r → Keying down (diff_buffer r)
  unfolding diff_buffer
  diff_buffer-Keying r k =
      let n = tx_len r.link in
      ground (arith, emit-Keying (buffer n) (record r { last_buffer = n }) (λ b. (refl, tt)))

  emit_state_diffs-Keying : (r : Runtime W) → Keying down r → Keying down (emit_state_diffs r)
  unfolding emit_state_diffs
  emit_state_diffs-Keying r k =
      let a = diff_state r in
      let b = diff_mode a in
      let c = diff_bw b in
      diff_buffer-Keying c (diff_bw-Keying b (diff_mode-Keying a (diff_state-Keying r k)))

  key_up-Keying : (r : Runtime W) → Told down r → Keying down (key_up r)
  unfolding key_up emit telemetry_status capture_observation
  key_up-Keying r k = ground arith

  SameKey-Told : (r t : Runtime W) → SameKey r t → Told down r → Told down t
  SameKey-Told r t s k = record {
    told_alternates = s.same_alternates k.told_alternates;
    told_key = ground arith;
    told_held = ground arith;
  }

  announce_tx-Keying :
      (ft : ℕ) (encoded : List ℕ) (r : Runtime W)
      → Told down r
      → Keying down (announce_tx ft encoded r)
  unfolding announce_tx
  announce_tx-Keying ft encoded r k =
      let active = record r { tx_active = true } in
      let a = emit (tx_frame ft) active in
      let b = emit_frame_record ft dir_tx (negsuc 0) (negsuc 0) a in
      let c = capture_frame ft 1 (negsuc 0) (negsuc 0) encoded b in
      key_up-Keying c (
        SameKey-Told b c (capture_frame-SameKey ft 1 (negsuc 0) (negsuc 0) encoded b) (
          SameKey-Told a b (emit_frame_record-SameKey ft dir_tx (negsuc 0) (negsuc 0) a) (
            SameKey-Told active a (emit-SameKey (tx_frame ft) active (λ b. (refl, tt))) (record {
              told_alternates = k.told_alternates;
              told_key = k.told_key;
              told_held = k.told_held;
            }))))

  start_tx-Keying :
      (modem : Modem W) (ft : ℕ) (encoded : List ℕ) (leader_ms : ℕ) (r : Runtime W)
      → Keying down r
      → Keying down (start_tx modem ft encoded leader_ms r)
  unfolding start_tx
  start_tx-Keying modem ft encoded leader_ms r k =
      let begun = mod_begin modem ft encoded leader_ms mod_init in
      let ready = record r { mod_state = begun.0 } in
      ground (
        arith,
        announce_tx-Keying ft encoded ready
            (record { told_alternates = k.alternates; told_key = k.told; told_held = k.held }),
      )

  perform-Keying :
      (modem : Modem W) (a : Action) (r : Runtime W)
      → Keying down r
      → Keying down (perform modem a r)
  unfolding perform
  perform-Keying modem (send_frame ft len leader_ms) r k =
      start_tx-Keying modem ft (take len r.link.scratch.out_frame) leader_ms r k
  perform-Keying modem (notify_host len) r k =
      emit-Keying (host_msg (c_text r.link.scratch.out_host)) r (λ b. (refl, tt)) k
  perform-Keying modem (deliver_data len) r k =
      let tag = if is_fec r.link.mode then text "FEC" else text "ARQ" in
      emit-Keying (rx_data tag (take len r.link.scratch.out_data)) r (λ b. (refl, tt)) k
  perform-Keying modem (set_timer deadline) r k = k

  perform_all-Keying :
      (modem : Modem W) (actions : List Action) (r : Runtime W)
      → Keying down r
      → Keying down (perform_all modem actions r)
  unfolding perform_all
  perform_all-Keying modem [] r k = k
  perform_all-Keying modem (a ∷ actions) r k =
      perform_all-Keying modem actions (perform modem a r) (perform-Keying modem a r k)

  pub step_and_perform-Keying :
      (modem : Modem W) (input : Input) (now : ℕ) (r : Runtime W)
      → Keying down r
      → Keying down (step_and_perform modem input now r)
  unfolding step_and_perform
  step_and_perform-Keying modem input now r k =
      let stepped = link_step r.link input now max_actions in
      let stepping = record r { link = stepped.0 } in
      emit_state_diffs-Keying (perform_all modem stepped.1 stepping) (
        perform_all-Keying modem stepped.1 stepping
          (record { alternates = k.alternates; told = k.told; keyed = k.keyed; held = k.held }))
