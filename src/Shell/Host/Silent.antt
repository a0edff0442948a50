-- ===== src/Shell/Host/Silent.antt =====
-- The commands that the link does not hear of, and what the sinks were told.
use ardopb.Codec.StationId
use ardopb.Link.Bandwidth.{undefined}
use ardopb.Shell.Host.{cut_at_space, mode_for_name, split_line}
use ardopb.Base.{ℕ, ◌≡◌, arith, text, snprintf, Bool, Option, none, some, List}
use ardopb.Base.Int.{pos}
use ardopb.Link.State.{Config, Mode, CmdKind, HostCmd}
use ardopb.Shell.Host.Actions.{
  Keyword, abort, arqcall, disconnect, break_link, send_id, fec_send_cmd, my_call, grid_square,
  my_aux, arq_bw, protocol_mode, fec_mode, fec_repeats, data_to_send, purge_buffer, listen,
  auto_break, fsk_only, use_600_modes, enable_ping_ack, query_state, version, rdy, initialize,
  busy_det, arq_timeout, idle_timeout, cw_id, inject, arq_call, disconnect_link, identify, fec_send,
  protocolmode, call_parsed, set_mode_to, dispatch_found, dispatch, answer, find_keyword, keywords,
  host_command,
}
use ardopb.Shell.Host.Commands.{
  max_line, purge, plain, mycall, gridsquare, myaux, arqbw, fecmode, fecrepeats, datatosend, flag,
  busydet, arqtimeout, idletimeout, cwid, state_query,
}
use ardopb.Shell.Runtime.{Modem, Runtime, mode_code}

module _ {W : Type 0} where
  pub record Silent (r t : Runtime W) : Type 0 where
    pub same_log : t.log ≡ r.log
    pub same_key : t.ptt_keyed ≡ r.ptt_keyed
    pub same_tx : t.tx_active ≡ r.tx_active
    pub same_state : t.last_state ≡ r.last_state
    pub same_mode : t.last_mode ≡ r.last_mode
    pub same_bw : t.last_bw ≡ r.last_bw
    pub same_buffer : t.last_buffer ≡ r.last_buffer

  module _ (p : Option (List ℕ)) (r : Runtime W) where
    mycall-Silent : Silent r (mycall p r).0
    unfolding mycall
    mycall-Silent = ground arith

    gridsquare-Silent : Silent r (gridsquare p r).0
    unfolding gridsquare
    gridsquare-Silent = ground arith

    myaux-Silent : Silent r (myaux p r).0
    unfolding myaux
    myaux-Silent = ground arith

    arqbw-Silent : Silent r (arqbw p r).0
    unfolding arqbw
    arqbw-Silent = ground arith

    fecmode-Silent : Silent r (fecmode p r).0
    unfolding fecmode
    fecmode-Silent = ground arith

    fecrepeats-Silent : Silent r (fecrepeats p r).0
    unfolding fecrepeats
    fecrepeats-Silent = ground arith

    datatosend-Silent : (kw : List ℕ) → Silent r (datatosend kw p r).0
    unfolding datatosend
    datatosend-Silent kw = ground arith

    flag-Silent :
        (kw : List ℕ) (get : Config → Bool) (put : Bool → Config → Config)
        → Silent r (flag kw get put p r).0
    unfolding flag
    flag-Silent kw get put = ground arith

    busydet-Silent : Silent r (busydet p r).0
    unfolding busydet
    busydet-Silent = ground arith

    arqtimeout-Silent : Silent r (arqtimeout p r).0
    unfolding arqtimeout
    arqtimeout-Silent = ground arith

    idletimeout-Silent : Silent r (idletimeout p r).0
    unfolding idletimeout
    idletimeout-Silent = ground arith

    cwid-Silent : Silent r (cwid p r).0
    unfolding cwid
    cwid-Silent = ground arith

    state_query-Silent : Silent r (state_query p r).0
    unfolding state_query
    state_query-Silent = ground arith

-- What holds of a runtime, through commands of the link and through what none of the sinks hears of.
module _ {W : Type 0} (modem : Modem W) (P : Runtime W → Type 0)
    (injects : (cmd : HostCmd) (now : ℕ) (r : Runtime W) → P r → P (inject modem cmd now r))
    (stays : (r t : Runtime W) → Silent r t → P r → P t) where
  call_parsed-keeps :
      (orig target : List ℕ) (parsed : StationId.Parsed) (now : ℕ) (r : Runtime W)
      → P r
      → P (call_parsed modem orig target parsed now r).0
  unfolding call_parsed
  call_parsed-keeps orig target (StationId.err e) now r h = h
  call_parsed-keeps orig target (StationId.ok id) now r h =
      let call =
        injects (record (plain CmdKind.connect) { target = id; bandwidth = undefined }) now r h in
      ground (arith, call)

  arq_call-keeps :
      (orig : List ℕ) (p : Option (List ℕ)) (now : ℕ) (r : Runtime W)
      → P r
      → P (arq_call modem orig p now r).0
  unfolding arq_call
  arq_call-keeps orig none now r h = h
  arq_call-keeps orig (some p) now r h =
      let target = (cut_at_space p).0 in
      call_parsed-keeps orig target (StationId.from_str_slice target) now r h

  disconnect_link-keeps : (now : ℕ) (r : Runtime W) → P r → P (disconnect_link modem now r).0
  unfolding disconnect_link
  disconnect_link-keeps now r h = ground (arith, injects (plain CmdKind.disconnect) now r h)

  identify-keeps : (now : ℕ) (r : Runtime W) → P r → P (identify modem now r).0
  unfolding identify
  identify-keeps now r h = ground (arith, injects (plain CmdKind.send_id) now r h)

  fec_send-keeps :
      (p : Option (List ℕ)) (now : ℕ) (r : Runtime W) → P r → P (fec_send modem p now r).0
  unfolding fec_send
  fec_send-keeps none now r h = h
  fec_send-keeps (some p) now r h =
      let ft = r.link.config.fec_frame_type in
      ground (arith, injects (record (plain CmdKind.fec_send_cmd) { arg = pos ft }) now r h)

  set_mode_to-keeps :
      (p : List ℕ) (m : Option Mode) (now : ℕ) (r : Runtime W)
      → P r
      → P (set_mode_to modem p m now r).0
  unfolding set_mode_to
  set_mode_to-keeps p none now r h = h
  set_mode_to-keeps p (some m) now r h =
      injects (record (plain CmdKind.set_mode) { arg = pos (mode_code m) }) now r h

  protocolmode-keeps :
      (p : Option (List ℕ)) (now : ℕ) (r : Runtime W) → P r → P (protocolmode modem p now r).0
  unfolding protocolmode
  protocolmode-keeps none now r h = h
  protocolmode-keeps (some p) now r h = set_mode_to-keeps p (mode_for_name p) now r h

  dispatch-keeps :
      (id orig : List ℕ) (k : Keyword) (kw : List ℕ) (p : Option (List ℕ)) (now : ℕ) (r : Runtime W)
      → P r
      → P (dispatch modem id orig k kw p now r).0
  unfolding dispatch
  dispatch-keeps id orig abort kw p now r h = injects (plain CmdKind.abort) now r h
  dispatch-keeps id orig arqcall kw p now r h = arq_call-keeps orig p now r h
  dispatch-keeps id orig disconnect kw p now r h = disconnect_link-keeps now r h
  dispatch-keeps id orig break_link kw p now r h = injects (plain CmdKind.break_cmd) now r h
  dispatch-keeps id orig send_id kw p now r h = identify-keeps now r h
  dispatch-keeps id orig fec_send_cmd kw p now r h = fec_send-keeps p now r h
  dispatch-keeps id orig my_call kw p now r h = stays r (mycall p r).0 (mycall-Silent p r) h
  dispatch-keeps id orig grid_square kw p now r h =
      stays r (gridsquare p r).0 (gridsquare-Silent p r) h
  dispatch-keeps id orig my_aux kw p now r h = stays r (myaux p r).0 (myaux-Silent p r) h
  dispatch-keeps id orig arq_bw kw p now r h = stays r (arqbw p r).0 (arqbw-Silent p r) h
  dispatch-keeps id orig protocol_mode kw p now r h = protocolmode-keeps p now r h
  dispatch-keeps id orig fec_mode kw p now r h = stays r (fecmode p r).0 (fecmode-Silent p r) h
  dispatch-keeps id orig fec_repeats kw p now r h =
      stays r (fecrepeats p r).0 (fecrepeats-Silent p r) h
  dispatch-keeps id orig data_to_send kw p now r h =
      stays r (datatosend kw p r).0 (datatosend-Silent p r kw) h
  dispatch-keeps id orig purge_buffer kw p now r h = stays r (purge r) (ground arith) h
  dispatch-keeps id orig listen kw p now r h =
      stays r (flag (text "LISTEN") (λ c. c.listening) (λ b c. record c { listening = b }) p r).0
        (flag-Silent p r (text "LISTEN") (λ c. c.listening) (λ b c. record c { listening = b })) h
  dispatch-keeps id orig auto_break kw p now r h =
      stays r
        (flag (text "AUTOBREAK") (λ c. c.auto_break) (λ b c. record c { auto_break = b }) p r).0
        (flag-Silent p r (text "AUTOBREAK") (λ c. c.auto_break)
          (λ b c. record c { auto_break = b }))
        h
  dispatch-keeps id orig fsk_only kw p now r h =
      stays r (flag (text "FSKONLY") (λ c. c.fsk_only) (λ b c. record c { fsk_only = b }) p r).0
        (flag-Silent p r (text "FSKONLY") (λ c. c.fsk_only) (λ b c. record c { fsk_only = b })) h
  dispatch-keeps id orig use_600_modes kw p now r h =
      stays r
        (flag (text "USE600MODES") (λ c. c.use_600_modes) (λ b c. record c { use_600_modes = b }) p
          r).0
        (flag-Silent p r (text "USE600MODES") (λ c. c.use_600_modes)
          (λ b c. record c { use_600_modes = b }))
        h
  dispatch-keeps id orig enable_ping_ack kw p now r h =
      stays r
        (flag (text "ENABLEPINGACK") (λ c. c.enable_ping_ack)
          (λ b c. record c { enable_ping_ack = b }) p r).0
        (flag-Silent p r (text "ENABLEPINGACK") (λ c. c.enable_ping_ack)
          (λ b c. record c { enable_ping_ack = b }))
        h
  dispatch-keeps id orig query_state kw p now r h =
      stays r (state_query p r).0 (state_query-Silent p r) h
  dispatch-keeps id orig version kw p now r h = h
  dispatch-keeps id orig rdy kw p now r h = h
  dispatch-keeps id orig initialize kw p now r h = h
  dispatch-keeps id orig busy_det kw p now r h = stays r (busydet p r).0 (busydet-Silent p r) h
  dispatch-keeps id orig arq_timeout kw p now r h =
      stays r (arqtimeout p r).0 (arqtimeout-Silent p r) h
  dispatch-keeps id orig idle_timeout kw p now r h =
      stays r (idletimeout p r).0 (idletimeout-Silent p r) h
  dispatch-keeps id orig cw_id kw p now r h = stays r (cwid p r).0 (cwid-Silent p r) h

  dispatch_found-keeps :
      (id orig : List ℕ) (k : Option Keyword) (kw : List ℕ) (p : Option (List ℕ)) (now : ℕ)
      (r : Runtime W)
      → P r
      → P (dispatch_found modem id orig k kw p now r).0
  unfolding dispatch_found
  dispatch_found-keeps id orig none kw p now r h = h
  dispatch_found-keeps id orig (some k) kw p now r h = dispatch-keeps id orig k kw p now r h

  pub host_command-keeps :
      (id line : List ℕ) (now cap : ℕ) (r : Runtime W)
      → P r
      → P (host_command modem id line now cap r).0
  unfolding host_command answer
  host_command-keeps id line now cap r h =
      let orig = snprintf max_line line in
      let words = split_line orig in
      ground (
        arith,
        dispatch_found-keeps id orig (find_keyword words.0 keywords) words.0 words.1 now r h,
      )
