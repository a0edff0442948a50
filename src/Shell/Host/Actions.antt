-- ===== src/Shell/Host/Actions.antt =====
-- shell/host.c: the commands that go to the link, and the dispatch of a line.
use ardopb.Base.{
  ℕ, not, ◌||◌, Option, none, some, List, [], ◌∷◌, ◌++◌, length, ◌==◌, if◌then◌else◌, text,
  bytes_eq, snprintf,
}
use ardopb.Base.Int.{pos}
use ardopb.Codec.Frame.{is_data}
use ardopb.Codec.StationId
use ardopb.Codec.StationId.{StationId}
use ardopb.Codec.StationId.Lists
use ardopb.Link.Bandwidth.{undefined}
use ardopb.Link.State.{disc, Mode, arq, CmdKind, HostCmd, tx_len}
use ardopb.Shell.Host.{mode_name, mode_for_name, state_name, is_connected, split_line, cut_at_space}
use ardopb.Shell.Host.Commands.{
  max_line, plain, no_call, syntax, purge, has_no_call, mycall, gridsquare, myaux, arqbw, fecmode,
  fecrepeats, datatosend, flag, busydet, arqtimeout, idletimeout, cwid, state_query,
}
use ardopb.Shell.Runtime.{Modem, Runtime, mode_code, state_eq}
use ardopb.Shell.Runtime.Calls.{runtime_host}

-- What `strcmp` compares the first word with; DD is ABORT and BUFFER is DATATOSEND under another name.
pub data Keyword : Type 0 where
  abort arqcall disconnect break_link send_id fec_send_cmd : Keyword
  my_call grid_square my_aux arq_bw protocol_mode fec_mode fec_repeats data_to_send purge_buffer :
      Keyword
  listen auto_break fsk_only use_600_modes enable_ping_ack : Keyword
  query_state version rdy initialize busy_det arq_timeout idle_timeout cw_id : Keyword

unfoldable pub keywords : List (List ℕ × Keyword)
keywords =
    (text "ABORT", abort)
    ∷ (text "DD", abort)
    ∷ (text "ARQCALL", arqcall)
    ∷ (text "DISCONNECT", disconnect)
    ∷ (text "BREAK", break_link)
    ∷ (text "SENDID", send_id)
    ∷ (text "FECSEND", fec_send_cmd)
    ∷ (text "MYCALL", my_call)
    ∷ (text "GRIDSQUARE", grid_square)
    ∷ (text "MYAUX", my_aux)
    ∷ (text "ARQBW", arq_bw)
    ∷ (text "PROTOCOLMODE", protocol_mode)
    ∷ (text "FECMODE", fec_mode)
    ∷ (text "FECREPEATS", fec_repeats)
    ∷ (text "DATATOSEND", data_to_send)
    ∷ (text "BUFFER", data_to_send)
    ∷ (text "PURGEBUFFER", purge_buffer)
    ∷ (text "LISTEN", listen)
    ∷ (text "AUTOBREAK", auto_break)
    ∷ (text "FSKONLY", fsk_only)
    ∷ (text "USE600MODES", use_600_modes)
    ∷ (text "ENABLEPINGACK", enable_ping_ack)
    ∷ (text "STATE", query_state)
    ∷ (text "VERSION", version)
    ∷ (text "RDY", rdy)
    ∷ (text "INITIALIZE", initialize)
    ∷ (text "BUSYDET", busy_det)
    ∷ (text "ARQTIMEOUT", arq_timeout)
    ∷ (text "IDLETIMEOUT", idle_timeout)
    ∷ (text "CWID", cw_id)
    ∷ []

-- The first entry with the word.
unfoldable pub find_keyword : List ℕ → List (List ℕ × Keyword) → Option Keyword
find_keyword word [] = none
find_keyword word ((name, k) ∷ rest) =
    let later = find_keyword word rest in if bytes_eq word name then some k else later

-- `ardop_build_id` of the text that the build fills in.
unfoldable pub build_id : List ℕ → List ℕ
build_id id = if length id == 0 then text "unknown" else id

module _ {W : Type 0} (modem : Modem W) where
  unfoldable pub inject : HostCmd → ℕ → Runtime W → Runtime W
  inject cmd now r = runtime_host modem cmd now r

  -- A call to what the target was parsed as.
  unfoldable pub call_parsed :
      List ℕ → List ℕ → StationId.Parsed → ℕ → Runtime W → Runtime W × List ℕ
  call_parsed orig target (StationId.err e) now r =
      (r, syntax (text "ARQCALL") (target ++ (text ": " ++ Lists.strerror e)))
  call_parsed orig target (StationId.ok id) now r =
      if has_no_call r
      then (r, no_call)
      else if mode_code r.link.mode == mode_code arq
      then (
        inject (record (plain CmdKind.connect) { target = id; bandwidth = undefined }) now r,
        orig,
      )
      else (r, text "FAULT Not from mode " ++ mode_name r.link.mode)

  -- `orig` is the line as it came, which is echoed.
  unfoldable pub arq_call : List ℕ → Option (List ℕ) → ℕ → Runtime W → Runtime W × List ℕ
  arq_call orig none now r = (r, text "FAULT Syntax Err: ARQCALL: expected \"TARGET NATTEMPTS\"")
  arq_call orig (some p) now r =
      let target = (cut_at_space p).0 in
      call_parsed orig target (StationId.from_str_slice target) now r

  unfoldable pub disconnect_link : ℕ → Runtime W → Runtime W × List ℕ
  disconnect_link now r =
      if is_connected r.link.state
      then (inject (plain CmdKind.disconnect) now r, text "DISCONNECT NOW TRUE")
      else (r, text "DISCONNECT IGNORED")

  unfoldable pub identify : ℕ → Runtime W → Runtime W × List ℕ
  identify now r =
      if has_no_call r
      then (r, no_call)
      else if state_eq r.link.state disc
      then (inject (plain CmdKind.send_id) now r, text "SENDID")
      else (r, text "FAULT Not from State " ++ state_name r.link.state)

  unfoldable pub fec_send : Option (List ℕ) → ℕ → Runtime W → Runtime W × List ℕ
  fec_send none now r = (r, text "FAULT Syntax Err: FECSEND")
  fec_send (some p) now r =
      let ft = r.link.config.fec_frame_type in
      if not (bytes_eq p (text "TRUE"))
      then (r, text "FECSEND now FALSE")
      else if has_no_call r
      then (r, no_call)
      else if (tx_len r.link == 0) || not (is_data ft)
      then (r, text "FAULT StartFEC failed for FECSEND TRUE.")
      else (
        inject (record (plain CmdKind.fec_send_cmd) { arg = pos ft }) now r,
        text "FECSEND now TRUE",
      )

  unfoldable pub set_mode_to : List ℕ → Option Mode → ℕ → Runtime W → Runtime W × List ℕ
  set_mode_to p none now r = (r, syntax (text "PROTOCOLMODE") p)
  set_mode_to p (some m) now r = (
    inject (record (plain CmdKind.set_mode) { arg = pos (mode_code m) }) now r,
    text "PROTOCOLMODE now " ++ p,
  )

  unfoldable pub protocolmode : Option (List ℕ) → ℕ → Runtime W → Runtime W × List ℕ
  protocolmode none now r = (r, text "PROTOCOLMODE " ++ mode_name r.link.mode)
  protocolmode (some p) now r = set_mode_to p (mode_for_name p) now r

  -- A line whose keyword `kw` was found, with its parameters. `id` is the text that the build fills in.
  unfoldable pub dispatch :
      List ℕ → List ℕ → Keyword → List ℕ → Option (List ℕ) → ℕ → Runtime W → Runtime W × List ℕ
  dispatch id orig abort kw params now r = (inject (plain CmdKind.abort) now r, text "ABORT")
  dispatch id orig arqcall kw params now r = arq_call orig params now r
  dispatch id orig disconnect kw params now r = disconnect_link now r
  dispatch id orig break_link kw params now r = (inject (plain CmdKind.break_cmd) now r, [])
  dispatch id orig send_id kw params now r = identify now r
  dispatch id orig fec_send_cmd kw params now r = fec_send params now r
  dispatch id orig my_call kw params now r = mycall params r
  dispatch id orig grid_square kw params now r = gridsquare params r
  dispatch id orig my_aux kw params now r = myaux params r
  dispatch id orig arq_bw kw params now r = arqbw params r
  dispatch id orig protocol_mode kw params now r = protocolmode params now r
  dispatch id orig fec_mode kw params now r = fecmode params r
  dispatch id orig fec_repeats kw params now r = fecrepeats params r
  dispatch id orig data_to_send kw params now r = datatosend kw params r
  dispatch id orig purge_buffer kw params now r = (purge r, text "PURGEBUFFER")
  dispatch id orig listen kw params now r =
      flag (text "LISTEN") (λ c. c.listening) (λ b c. record c { listening = b }) params r
  dispatch id orig auto_break kw params now r =
      flag (text "AUTOBREAK") (λ c. c.auto_break) (λ b c. record c { auto_break = b }) params r
  dispatch id orig fsk_only kw params now r =
      flag (text "FSKONLY") (λ c. c.fsk_only) (λ b c. record c { fsk_only = b }) params r
  dispatch id orig use_600_modes kw params now r =
      flag (text "USE600MODES") (λ c. c.use_600_modes) (λ b c. record c { use_600_modes = b })
        params r
  dispatch id orig enable_ping_ack kw params now r =
      flag (text "ENABLEPINGACK") (λ c. c.enable_ping_ack) (λ b c. record c { enable_ping_ack = b })
        params r
  dispatch id orig query_state kw params now r = state_query params r
  dispatch id orig version kw params now r = (r, text "VERSION ardopb_" ++ build_id id)
  dispatch id orig rdy kw params now r = (r, [])
  dispatch id orig initialize kw params now r = (r, text "INITIALIZE")
  dispatch id orig busy_det kw params now r = busydet params r
  dispatch id orig arq_timeout kw params now r = arqtimeout params r
  dispatch id orig idle_timeout kw params now r = idletimeout params r
  dispatch id orig cw_id kw params now r = cwid params r

  unfoldable pub dispatch_found :
      List ℕ
      → List ℕ
      → Option Keyword
      → List ℕ
      → Option (List ℕ)
      → ℕ
      → Runtime W
      → Runtime W × List ℕ
  dispatch_found id orig none kw params now r =
      (r, text "FAULT CMD " ++ (kw ++ text " not recoginized"))
  dispatch_found id orig (some k) kw params now r = dispatch id orig k kw params now r

  -- The whole reply, before it is cut to the buffer.
  unfoldable pub answer : List ℕ → List ℕ → ℕ → Runtime W → Runtime W × List ℕ
  answer id line now r =
      let orig = snprintf max_line line in
      let words = split_line orig in
      dispatch_found id orig (find_keyword words.0 keywords) words.0 words.1 now r

  -- Without room for a reply nothing is done.
  unfoldable pub host_command : List ℕ → List ℕ → ℕ → ℕ → Runtime W → Runtime W × List ℕ
  host_command id line now cap r =
      let done = answer id line now r in if cap == 0 then (r, []) else (done.0, snprintf cap done.1)
