-- ===== src/Shell/Tests.antt =====
-- The runtime and the host's commands at concrete values.
use ardopb.Base.{
  ℕ, ◌≡◌, ◌⊎◌, ◌||◌, not, ◌==◌, Option, none, if◌then◌else◌, length, ◌++◌, refl, arith, true, false,
  some, List, [], ◌∷◌, text, snprintf, bytes_eq,
}
use ardopb.Base.Int.{pos}
use ardopb.Codec.Rs
use ardopb.Codec.StationId.{is_space}
use ardopb.Codec.Rs.{Rs}
use ardopb.Link.State
use ardopb.Link.State.{tx_len}
use ardopb.Shell.Calls.{
  Call, hears, serviced, asked, drained, observed_by, apply_all, runtime-Keying, runtime-IsCurrent,
}
use ardopb.Shell.Host.Actions.{
  host_command, find_keyword, keywords, answer, dispatch, dispatch_found,
}
use ardopb.Shell.Host.DataFrames.{data_frame, data_parse, data_parse-data_frame}
use ardopb.Shell.Host.Replies.{is_fault}
use ardopb.Shell.Host.Faults.{host_command-fault}
use ardopb.Shell.Host.Commands.{
  max_line, set_config, arqtimeout, do_range, flag, do_bool, datatosend,
}
use ardopb.Shell.Host.{
  split_line, atoi, whole_number, cut_at_space, skip_spaces, to_upper, strtol, digits, signed,
  skip_white, is_digit, negated, clamp_long, int_of_long,
}
use ardopb.Shell.Settings
use ardopb.Shell.Settings.{
  get, get_num, keys, unset, trim, trim_left, trim_right, keep, set_value, find_key, replace_value,
}
use ardopb.Shell.Settings.File.{
  Disk, load, load_loop, load_line, load_body, load_cut, load_setting, strchr, fgets, save,
}
use ardopb.Shell.Settings.Lookup.{get-set_value}
use ardopb.Shell.Settings.Survives.{load-save}
use ardopb.Shell.Runtime.{Modem, Runtime, mod_init, tx_queue_size}
use ardopb.Shell.Runtime.Calls.{init, pull_tx, runtime_timer}
use ardopb.Shell.Runtime.Keying.{Alternates, key_told}
use ardopb.Shell.Runtime.Reports.{IsCurrent}

-- A modem whose frames are three samples, which hears nothing.
abbrev deaf : Modem (Unit {0})
deaf = record {
  modulate = λ ft bytes leader_ms. (1 ∷ 2 ∷ 3 ∷ [], true);
  push = λ w samples now max. (w, []);
  analyze = λ w window hz sensitivity now_ms. (w, false);
}

abbrev no_code : Rs
no_code = record { alpha_to = Rs.alpha_table; index_of = Rs.index_table; gg = [] }

abbrev station : Runtime (Unit {0})
station = record {
  radio = tt;
  link = record State.init {
    config = record State.init.config {
      rs = some no_code;
      tx_attached = true;
      tx_cap = tx_queue_size;
    };
  };
  mod_state = mod_init;
  tx_active = false;
  ptt_keyed = false;
  now = 0;
  busy_accum = [];
  busy_det = 5;
  busy_state = false;
  want_cwid = false;
  cwid_onoff = false;
  observers = [];
  last_state = State.disc;
  last_mode = State.arq;
  last_bw = 0;
  last_buffer = 0;
  telemetry_on = false;
  last_sn = pos 0;
  last_quality = pos 0;
  capture_on = false;
  log = [];
}

init_run : init [] tt ≡ some station
unfolding init Rs.init State.init Rs.lengths_fit
init_run = refl

abbrev events : List Call
events =
    observed_by 7
    ∷ asked (text "mycall n0call-5") 10 300
    ∷ asked (text "SENDID") 20 300
    ∷ drained 4 2
    ∷ hears (5 ∷ 6 ∷ []) 30
    ∷ drained 4 512
    ∷ serviced 40
    ∷ []

runtime-Keying_example :
    Alternates (apply_all deaf (text "b1") events station).log
    × (key_told (apply_all deaf (text "b1") events station).log
        ≡ (apply_all deaf (text "b1") events station).ptt_keyed)
    × ((not (apply_all deaf (text "b1") events station).tx_active
          || (apply_all deaf (text "b1") events station).ptt_keyed)
        ≡ true)
    × ((length (pull_tx deaf 4 512 (apply_all deaf (text "b1") events station)).1 == 0
          || (pull_tx deaf 4 512 (apply_all deaf (text "b1") events station)).0.ptt_keyed)
        ≡ true)
runtime-Keying_example = runtime-Keying deaf (text "b1") [] tt station events 4 512 init_run

runtime-IsCurrent_example :
    IsCurrent (runtime_timer deaf 50 (apply_all deaf (text "b1") events station))
runtime-IsCurrent_example = runtime-IsCurrent deaf (text "b1") [] tt station events 50 init_run

arqtimeout_run :
    (host_command deaf [] (text "ARQTIMEOUT 500") 0 300 station).1
    ≡ text "FAULT Syntax Err: ARQTIMEOUT 500"
unfolding text host_command snprintf answer dispatch_found find_keyword keywords bytes_eq split_line
    cut_at_space skip_spaces to_upper dispatch arqtimeout do_range whole_number strtol digits signed
    skip_white is_space is_digit negated clamp_long
arqtimeout_run = refl

listen_run : (host_command deaf [] (text "listen  true") 0 300 station).1 ≡ text "LISTEN now TRUE"
unfolding text host_command snprintf answer dispatch_found find_keyword keywords bytes_eq split_line
    cut_at_space skip_spaces to_upper dispatch flag do_bool
listen_run = refl

host_command-fault_example :
    ((host_command deaf [] (text "ARQTIMEOUT 500") 0 300 station).0 ≡ station)
    ⊎ ((split_line (snprintf max_line (text "ARQTIMEOUT 500"))).0 ≡ text "MYAUX")
      × ((host_command deaf [] (text "ARQTIMEOUT 500") 0 300 station).0
          ≡ set_config (λ c. record c { auxcalls = [] }) station)
unfolding is_fault text host_command snprintf answer dispatch_found find_keyword keywords bytes_eq
    split_line cut_at_space skip_spaces to_upper dispatch arqtimeout do_range whole_number strtol
    digits signed skip_white is_space is_digit negated clamp_long
host_command-fault_example = host_command-fault deaf [] (text "ARQTIMEOUT 500") 0 300 station refl

data_parse-data_frame_example :
    (frame : List ℕ) × (data_frame 100 (text "ARQ") (1 ∷ 2 ∷ []) ≡ some frame)
    × (data_parse (frame ++ (9 ∷ [])) ≡ some (text "ARQ" ++ (1 ∷ 2 ∷ []), length frame))
unfolding text
data_parse-data_frame_example =
    data_parse-data_frame 100 (text "ARQ") (1 ∷ 2 ∷ []) (9 ∷ []) refl (omega arith) (omega arith)

-- A parameter that is no number counts as 0, and the queue is emptied.
datatosend_run :
    (host_command deaf [] (text "BUFFER MANY") 0 300 (record station {
      link = record station.link { sender = record station.link.sender { tx_data = 1 ∷ 2 ∷ [] } };
    })).1
    ≡ text "BUFFER now 0"
unfolding text host_command snprintf answer dispatch_found find_keyword keywords bytes_eq split_line
    cut_at_space skip_spaces to_upper dispatch datatosend atoi int_of_long strtol digits signed
    skip_white is_space is_digit negated clamp_long
datatosend_run = refl

-- A settings file with a comment, a line that is no setting and a key that is set twice.
abbrev edited : Option (List ℕ)
edited = some (text "# mine\n call = N0CALL \nnonsense\nlink.bw=500\r\ncall=K1ABC")

abbrev good_disk : Disk
good_disk = record { opens = true; writes = 3; closes = true; replaces = true }

edited_items : load edited ≡ record {
  item =
      record { key = text "call"; value = text "K1ABC" }
      ∷ record { key = text "link.bw"; value = text "500" }
      ∷ [];
  skipped = 1;
  truncated = false;
}
unfolding load load_loop load_line load_body load_cut load_setting strchr fgets trim trim_left
    trim_right keep Settings.is_space set_value find_key replace_value snprintf text bytes_eq
edited_items = refl

load-save_example :
    ((save good_disk (text "station.conf") (load edited) edited).1 ≡ true)
    × (load (save good_disk (text "station.conf") (load edited) edited).0
        ≡ record (load edited) { skipped = 0 })
unfolding text
load-save_example =
    load-save edited good_disk (text "station.conf") (rw edited_items refl) (omega arith) refl
      (rw edited_items (omega arith)) refl refl

-- The value that the call had is replaced, and that of the bandwidth stays.
get-set_value_example :
    get (set_value (text "call") (text "W1AW") (load edited)).0 (text "link.bw") none ≡ (
      if bytes_eq (text "call") (text "link.bw")
      then some (text "W1AW")
      else get (load edited) (text "link.bw") none)
unfolding set_value text find_key bytes_eq
get-set_value_example =
    get-set_value (load edited) (text "call") (text "W1AW") (text "link.bw") none
      (rw edited_items refl)

edited_num : get_num (load edited) (text "link.bw") (pos 0) ≡ pos 500
unfolding get_num get find_key whole_number strtol digits signed skip_white is_digit negated
    clamp_long is_space text bytes_eq
edited_num = rw edited_items refl

edited_without : keys (unset (text "call") (load edited)).0.item ≡ text "link.bw" ∷ []
unfolding unset find_key text bytes_eq
edited_without = rw edited_items refl
