-- ===== src/Shell/Sinks.antt =====
-- shell/runtime.h: the observations, and what the runtime hands to its sinks. A tuning offset is the 32 bits of a
-- `float`.
use ardopb.Base.{ℕ, ◌-◌, ◌%◌, ◌^◌, Bool, Option, none, some, List, u16}
use ardopb.Base.Int.{ℤ, pos, negsuc}
use ardopb.Capture.Entries.{
  Entry, leader_entry, state_entry, ptt_entry, bandwidth_entry, busy_entry, rx_data_entry,
  host_msg_entry,
}
use ardopb.Link.State.{
  LinkState, disc, iss_con_req, iss_con_ack, iss, irs_con_ack, irs_data, idle, irs_to_iss,
  irs_from_iss, fec_send, Mode,
}

pub data Obs : Type 0 where
  leader : (offset : ℕ) (sn : ℤ) → Obs
  state : LinkState → (remote : List ℕ) → Obs
  mode : Mode → Obs
  bandwidth : ℕ → Obs
  ptt : Bool → Obs
  busy : Bool → Obs
  rx_frame : (frame_type : ℕ) (quality sn : ℤ) → Obs
  rx_frame_bad : (frame_type : ℕ) → Obs
  tx_frame : (frame_type : ℕ) → Obs
  buffer : ℕ → Obs
  host_msg : List ℕ → Obs
  rx_data : (tag bytes : List ℕ) → Obs

pub data Direction : Type 0 where
  dir_tx dir_rx dir_rx_failed : Direction

-- The records of telemetry that need no signal processing.
pub data Telemetry : Type 0 where
  status :
      LinkState → Mode → (busy ptt : Bool) (sn quality : ℤ) (bandwidth buffer_len : ℕ) → Telemetry
  frame_seen : (at frame_type : ℕ) → Direction → (quality sn : ℤ) → Telemetry

-- One call of a sink: the observers in their order, the telemetry sink, or a record captured.
pub data Out : Type 0 where
  observed : List ℕ → Obs → Out
  measured : Telemetry → Out
  captured : Entry → Out

-- `(int16_t)` of an `int`, and the bits of the result.
unfoldable pub word_of : ℤ → ℕ
word_of (pos n) = u16 n
word_of (negsuc n) = 2 ^ 16 - 1 - n % 2 ^ 16

-- The value of an enumerator.
unfoldable pub state_code : LinkState → ℕ
state_code disc = 0
state_code iss_con_req = 1
state_code iss_con_ack = 2
state_code iss = 3
state_code irs_con_ack = 4
state_code irs_data = 5
state_code idle = 6
state_code irs_to_iss = 7
state_code irs_from_iss = 8
state_code fec_send = 9

-- What of an observation is captured.
unfoldable pub entry_of : Obs → Option Entry
entry_of (leader offset sn) = some (leader_entry offset (word_of sn))
entry_of (state s remote) = some (state_entry (state_code s) (some remote))
entry_of (ptt key) = some (ptt_entry key)
entry_of (bandwidth hz) = some (bandwidth_entry (u16 hz))
entry_of (busy now) = some (busy_entry now)
entry_of (rx_data tag bytes) = some (rx_data_entry (some tag) bytes)
entry_of (host_msg line) = some (host_msg_entry (some line))
entry_of (mode m) = none
entry_of (rx_frame ft quality sn) = none
entry_of (rx_frame_bad ft) = none
entry_of (tx_frame ft) = none
entry_of (buffer n) = none
