-- ===== src/Link/State.antt =====
-- core/link/link.h: the state, the inputs and the actions of the link. `ardop_link` is one flat
-- struct; its sections are records of their own here, under the same field names. What the source
-- marks by -1 or NULL is an option.
use ardopb.Base.{ℕ, ◌*◌, Bool, true, false, Option, none, List, []}
use ardopb.Base.{length, replicate, u64}
use ardopb.Base.Int.{ℤ, pos}
use ardopb.Codec.Rs.{Rs}
use ardopb.Codec.StationId.{StationId}
use ardopb.Codec.Locator
use ardopb.Codec.Locator.{Locator}
use ardopb.Link.Bandwidth.{ArqBandwidth, forced_200}

-- ARDOP_MS_TO_SAMPLES
unfoldable pub ms_to_samples : ℕ → ℕ
ms_to_samples ms = u64 (ms * 12)

abbrev pub out_frame_max : ℕ
out_frame_max = 2048

abbrev pub max_payload : ℕ
max_payload = 1024

pub data LinkState : Type 0 where
  disc iss_con_req iss_con_ack iss irs_con_ack irs_data idle irs_to_iss irs_from_iss : LinkState
  fec_send : LinkState

pub data Mode : Type 0 where
  arq fec rxo : Mode

pub data CmdKind : Type 0 where
  connect disconnect abort send_data set_mode fec_send_cmd send_id break_cmd : CmdKind

-- `data` is none for a NULL pointer, and else holds the `data_len` bytes.
pub record HostCmd : Type 0 where
  pub kind : CmdKind
  pub target : StationId
  pub bandwidth : ArqBandwidth
  pub payload : Option (List ℕ)
  pub arg : ℤ

pub data EventKind : Type 0 where
  leader_detected frame_decoded frame_bad : EventKind

-- A receiver event, without the tuning offset, which the link does not read. `payload` holds the
-- `data_len` bytes of `data`.
pub record Event : Type 0 where
  pub kind : EventKind
  pub frame_type : ℕ
  pub sn : ℤ
  pub quality : ℤ
  pub leader_ms : ℤ
  pub payload : List ℕ

pub data Input : Type 0 where
  timer : Input
  rx : Event → Input
  host : HostCmd → Input
  tx_done : Input

-- An action names the bytes that it points at by their length: `send_frame` those of `out_frame`,
-- `notify_host` those of `out_host` and `deliver_data` those of `out_data`.
pub data Action : Type 0 where
  send_frame : (frame_type data_len leader_ms : ℕ) → Action
  set_timer : (deadline : ℕ) → Action
  notify_host : (data_len : ℕ) → Action
  deliver_data : (data_len : ℕ) → Action

pub record Config : Type 0 where
  pub mycall : StationId
  pub auxcalls : List StationId
  pub grid : Locator
  pub rs : Option Rs
  pub tx_attached : Bool
  pub tx_cap : ℕ
  pub bw_setting : ArqBandwidth
  pub leader_ms : ℕ
  pub reply_leader_ms : ℕ
  pub listening : Bool
  pub enable_ping_ack : Bool
  pub fsk_only : Bool
  pub use_600_modes : Bool
  pub tuning_range : ℤ
  pub auto_break : Bool
  pub arq_timeout : ℤ
  pub idle_timeout : ℤ
  pub fec_frame_type : ℕ
  pub fec_repeats : ℤ

pub record Session : Type 0 where
  pub session_id : ℕ
  pub last_session_id : ℕ
  pub session_bw : ℕ
  pub pending : Bool
  pub remote : StationId
  pub local : StationId
  pub final_id_call : StationId
  pub avg_quality : ℕ
  pub last_data_to_host : Option ℕ
  pub last_acked_type : Option ℕ
  pub break_pending : Bool

-- `tx_data` holds the `tx_len` queued bytes of the caller's buffer, whose capacity is `tx_cap`;
-- `modes` is the array that the source points at, and `modes_len` the length that it uses.
pub record Sender : Type 0 where
  pub tx_data : List ℕ
  pub modes : List ℕ
  pub thresholds : List ℕ
  pub modes_len : ℕ
  pub mode_ptr : ℕ
  pub last_data_sent : ℕ
  pub last_data_acked : ℕ
  pub outstanding_len : ℕ
  pub fec_reps_sent : ℕ
  pub last_fec_crc : ℕ
  pub fec_have_last : Bool

pub record Gear : Type 0 where
  pub ack_ctr : ℕ
  pub nak_ctr : ℕ
  pub shift_up_dn : ℤ
  pub mode_has_worked : List ℕ
  pub mode_has_been_tried : List ℕ
  pub mode_naks : List ℕ

pub record Timers : Type 0 where
  pub final_id_deadline : ℕ
  pub pending_deadline : ℕ
  pub stall_deadline : ℕ
  pub idle_deadline : ℕ
  pub repeat_deadline : ℕ
  pub repeat_interval_ms : ℕ
  pub repeat_frame_type : ℕ
  pub repeat_frame_len : ℕ
  pub disc_repeat_count : ℕ

pub record Scratch : Type 0 where
  pub out_frame : List ℕ
  pub out_data : List ℕ
  pub out_host : List ℕ

pub record Link : Type 0 where
  pub config : Config
  pub mode : Mode
  pub state : LinkState
  pub session : Session
  pub sender : Sender
  pub gear : Gear
  pub timers : Timers
  pub scratch : Scratch

abbrev pub tx_len : Link → ℕ
tx_len l = length l.sender.tx_data

-- A zeroed `ardop_stationid`.
unfoldable pub zero_station : StationId
zero_station = record { call = []; ssid = []; str = []; wire = replicate 6 0 }

-- `ardop_link_init`: all zero but for the defaults.
unfoldable pub init : Link
init = record {
  config = record {
    mycall = zero_station;
    auxcalls = [];
    grid = Locator.init;
    rs = none;
    tx_attached = false;
    tx_cap = 0;
    bw_setting = forced_200;
    leader_ms = 240;
    reply_leader_ms = 240;
    listening = false;
    enable_ping_ack = false;
    fsk_only = false;
    use_600_modes = false;
    tuning_range = pos 100;
    auto_break = true;
    arq_timeout = pos 120;
    idle_timeout = pos 90;
    fec_frame_type = 0x40;
    fec_repeats = pos 0;
  };
  mode = arq;
  state = disc;
  session = record {
    session_id = 0;
    last_session_id = 0;
    session_bw = 0;
    pending = false;
    remote = zero_station;
    local = zero_station;
    final_id_call = zero_station;
    avg_quality = 0;
    last_data_to_host = none;
    last_acked_type = none;
    break_pending = false;
  };
  sender = record {
    tx_data = [];
    modes = [];
    thresholds = [];
    modes_len = 0;
    mode_ptr = 0;
    last_data_sent = 0;
    last_data_acked = 0;
    outstanding_len = 0;
    fec_reps_sent = 0;
    last_fec_crc = 0;
    fec_have_last = false;
  };
  gear = record {
    ack_ctr = 0;
    nak_ctr = 0;
    shift_up_dn = pos 0;
    mode_has_worked = replicate 16 0;
    mode_has_been_tried = replicate 16 0;
    mode_naks = replicate 16 0;
  };
  timers = record {
    final_id_deadline = 0;
    pending_deadline = 0;
    stall_deadline = 0;
    idle_deadline = 0;
    repeat_deadline = 0;
    repeat_interval_ms = 0;
    repeat_frame_type = 0;
    repeat_frame_len = 0;
    disc_repeat_count = 0;
  };
  scratch = record {
    out_frame = replicate out_frame_max 0;
    out_data = replicate max_payload 0;
    out_host = [];
  };
}
