-- ===== src/Shell/Host/Commands.antt =====
-- shell/host.c: `ardop_host_command`, a function for each command. A command returns the runtime and its reply.
use ardopb.Base.{
  ℕ, Bool, true, false, ◌||◌, Option, none, some, List, [], ◌∷◌, ◌++◌, length, ltb, ◌==◌,
  if◌then◌else◌, text, decimal, bytes_eq,
}
use ardopb.Base.Int.{ℤ, pos, negsuc, ltb_ℤ}
use ardopb.Codec.Frame.{data_frame_name, data_frame_type_for_name}
use ardopb.Codec.Locator
use ardopb.Codec.Locator.{Locator}
use ardopb.Codec.StationId
use ardopb.Codec.StationId.{StationId}
use ardopb.Codec.StationId.Lists
use ardopb.Codec.StationId.Lists.{listed, failed}
use ardopb.Link.Bandwidth.{forced_200}
use ardopb.Link.State.{Config, CmdKind, HostCmd, zero_station, tx_len}
use ardopb.Shell.Host.{
  bandwidth_name, bandwidth_for_name, state_name, whole_number, atoi, print_int,
}
use ardopb.Shell.Runtime.{Runtime}

abbrev pub max_line : ℕ
max_line = 3000

abbrev pub max_aux : ℕ
max_aux = 10

-- A command without arguments of its own.
abbrev pub plain : CmdKind → HostCmd
plain kind = record {
  kind = kind;
  target = zero_station;
  bandwidth = forced_200;
  payload = none;
  arg = pos 0;
}

abbrev pub no_call : List ℕ
no_call = text "FAULT MYCALL not set"

abbrev pub show_bool : Bool → List ℕ
show_bool b = if b then text "TRUE" else text "FALSE"

-- The text between the stations of a list, before its first one too.
unfoldable pub call_list : Bool → List StationId → List ℕ
call_list first [] = []
call_list first (s ∷ rest) = (if first then b' ' else b',') ∷ (s.str ++ call_list false rest)

abbrev pub show_cwid : {W : Type 0} → Runtime W → List ℕ
show_cwid r =
    if r.want_cwid then (if r.cwid_onoff then text "ONOFF" else text "TRUE") else text "FALSE"

-- "FAULT Syntax Err: " and more.
abbrev pub syntax : List ℕ → List ℕ → List ℕ
syntax kw params = text "FAULT Syntax Err: " ++ (kw ++ (text " " ++ params))

-- A command for a flag: its new value, none to leave it, and the reply.
unfoldable pub do_bool : List ℕ → Option (List ℕ) → Bool → Option Bool × List ℕ
do_bool kw none value = (none, kw ++ (text " " ++ show_bool value))
do_bool kw (some p) value =
    if bytes_eq p (text "TRUE")
    then (some true, kw ++ text " now TRUE")
    else if bytes_eq p (text "FALSE")
    then (some false, kw ++ text " now FALSE")
    else (none, syntax kw p)

-- A whole number in a range: its new value, none to leave it, and the reply.
unfoldable pub do_range : List ℕ → ℕ → ℕ → Option (List ℕ) → ℤ → Option ℕ × List ℕ
do_range kw lo hi none value = (none, kw ++ (text " " ++ print_int value))
do_range kw lo hi (some p) value = elim (whole_number p) [
  | some (pos v) ↦
      if ltb v lo || ltb hi v
      then (none, syntax kw p)
      else (some v, kw ++ (text " now " ++ decimal v))
  | some (negsuc v) ↦ (none, syntax kw p)
  | none ↦ (none, syntax kw p)
]

module _ {W : Type 0} where
  abbrev pub set_config : (Config → Config) → Runtime W → Runtime W
  set_config f r = record r { link = record r.link { config = f r.link.config } }

  -- `tx_len = 0`, which empties the queue.
  abbrev pub purge : Runtime W → Runtime W
  purge r = record r { link = record r.link { sender = record r.link.sender { tx_data = [] } } }

  abbrev pub has_no_call : Runtime W → Bool
  has_no_call r = length r.link.config.mycall.str == 0

  unfoldable pub mycall : Option (List ℕ) → Runtime W → Runtime W × List ℕ
  mycall none r = (r, text "MYCALL " ++ r.link.config.mycall.str)
  mycall (some p) r = elim (StationId.from_str_slice p) [
    | StationId.err e ↦ (r, syntax (text "MYCALL") (p ++ (text ": " ++ Lists.strerror e)))
    | StationId.ok id ↦ (set_config (λ c. record c { mycall = id }) r, text "MYCALL now " ++ id.str)
  ]

  unfoldable pub gridsquare : Option (List ℕ) → Runtime W → Runtime W × List ℕ
  gridsquare none r = (r, text "GRIDSQUARE " ++ r.link.config.grid.grid)
  gridsquare (some p) r = elim (Locator.from_str_slice p) [
    | Locator.err e ↦ (r, syntax (text "GRIDSQUARE") (p ++ (text ": " ++ Locator.strerror e)))
    | Locator.ok loc ↦
        (set_config (λ c. record c { grid = loc }) r, text "GRIDSQUARE now " ++ loc.grid)
  ]

  -- A list with an error in it leaves no auxiliary call behind.
  unfoldable pub myaux : Option (List ℕ) → Runtime W → Runtime W × List ℕ
  myaux none r = (r, text "MYAUX" ++ call_list true r.link.config.auxcalls)
  myaux (some p) r = elim (Lists.from_str_to_array p max_aux) [
    | failed e count ↦ (
      set_config (λ c. record c { auxcalls = [] }) r,
      text "FAULT Syntax Err: at callsign " ++ (decimal count ++ (text ": " ++ Lists.strerror e)),
    )
    | listed calls ↦ (
      set_config (λ c. record c { auxcalls = calls }) r,
      text "MYAUX now" ++ call_list true calls,
    )
  ]

  unfoldable pub arqbw : Option (List ℕ) → Runtime W → Runtime W × List ℕ
  arqbw none r = (r, text "ARQBW " ++ bandwidth_name r.link.config.bw_setting)
  arqbw (some p) r = elim (bandwidth_for_name p) [
    | none ↦ (r, syntax (text "ARQBW") p)
    | some bw ↦
        (set_config (λ c. record c { bw_setting = bw }) r, text "ARQBW now " ++ bandwidth_name bw)
  ]

  unfoldable pub fecmode : Option (List ℕ) → Runtime W → Runtime W × List ℕ
  fecmode none r = elim (data_frame_name r.link.config.fec_frame_type 32) [
    | none ↦ (r, text "FECMODE UNKNOWN")
    | some name ↦ (r, text "FECMODE " ++ name)
  ]
  fecmode (some p) r = elim (data_frame_type_for_name p) [
    | none ↦ (r, syntax (text "FECMODE") p)
    | some ft ↦ (set_config (λ c. record c { fec_frame_type = ft }) r, text "FECMODE now " ++ p)
  ]

  unfoldable pub fecrepeats : Option (List ℕ) → Runtime W → Runtime W × List ℕ
  fecrepeats none r = (r, text "FECREPEATS " ++ print_int r.link.config.fec_repeats)
  fecrepeats (some p) r =
      let v = atoi p in
      if ltb_ℤ v (pos 0) || ltb_ℤ (pos 5) v
      then (r, syntax (text "FECREPEATS") p)
      else (set_config (λ c. record c { fec_repeats = v }) r, text "FECREPEATS now " ++ print_int v)

  -- DATATOSEND and BUFFER.
  unfoldable pub datatosend : List ℕ → Option (List ℕ) → Runtime W → Runtime W × List ℕ
  datatosend kw none r = (r, kw ++ (text " " ++ decimal (tx_len r.link)))
  datatosend kw (some p) r =
      let v = atoi p in
      if ltb_ℤ v (pos 0) || ltb_ℤ (pos 0) v
      then (r, syntax kw p)
      else (purge r, kw ++ text " now 0")

  unfoldable pub flag :
      List ℕ
      → (Config → Bool)
      → (Bool → Config → Config)
      → Option (List ℕ)
      → Runtime W
      → Runtime W × List ℕ
  flag kw get put params r =
      let done = do_bool kw params (get r.link.config) in
      elim done.0 [ none ↦ (r, done.1) | some b ↦ (set_config (put b) r, done.1) ]

  unfoldable pub busydet : Option (List ℕ) → Runtime W → Runtime W × List ℕ
  busydet params r =
      let done = do_range (text "BUSYDET") 0 10 params (pos r.busy_det) in
      elim done.0 [ none ↦ (r, done.1) | some v ↦ (record r { busy_det = v }, done.1) ]

  unfoldable pub arqtimeout : Option (List ℕ) → Runtime W → Runtime W × List ℕ
  arqtimeout params r =
      let done = do_range (text "ARQTIMEOUT") 30 240 params r.link.config.arq_timeout in
      elim done.0 [
        | none ↦ (r, done.1)
        | some v ↦ (set_config (λ c. record c { arq_timeout = pos v }) r, done.1)
      ]

  unfoldable pub idletimeout : Option (List ℕ) → Runtime W → Runtime W × List ℕ
  idletimeout params r =
      let done = do_range (text "IDLETIMEOUT") 0 600 params r.link.config.idle_timeout in
      elim done.0 [
        | none ↦ (r, done.1)
        | some v ↦ (set_config (λ c. record c { idle_timeout = pos v }) r, done.1)
      ]

  unfoldable pub cwid : Option (List ℕ) → Runtime W → Runtime W × List ℕ
  cwid none r = (r, text "CWID " ++ show_cwid r)
  cwid (some p) r =
      if bytes_eq p (text "TRUE")
      then (record r { want_cwid = true; cwid_onoff = false }, text "CWID now TRUE")
      else if bytes_eq p (text "FALSE")
      then (record r { want_cwid = false }, text "CWID now FALSE")
      else if bytes_eq p (text "ONOFF")
      then (record r { want_cwid = true; cwid_onoff = true }, text "CWID now ONOFF")
      else (r, syntax (text "CWID") p)

  unfoldable pub state_query : Option (List ℕ) → Runtime W → Runtime W × List ℕ
  state_query none r = (r, text "STATE " ++ state_name r.link.state)
  state_query (some p) r = (r, syntax (text "STATE") p)
