-- ===== src/Capture/Entries.antt =====
-- shell/capture.c: whatever is recorded, by its kind, and the record that shows it.
use ardopb.Base.{ℕ, ◌-◌, ◌^◌, ◌<◌, Bool, Option, List, length}
use ardopb.Capture.{
  CaptureRecord, blank, clamp8, kind_leader, kind_state, kind_ptt, kind_bandwidth, kind_busy,
  kind_rx_data, kind_host_msg, text_of, encode_frame, encode_leader, encode_state, encode_ptt,
  encode_busy, encode_bandwidth, encode_rx_data, encode_host_msg,
}
use ardopb.Capture.Fields.{kept, kept8}

-- What may be recorded, each kind with its values.
pub data Entry : Type 0 where
  frame_entry : ℕ → ℕ → ℕ → ℕ → ℕ → List ℕ → Entry
  leader_entry : ℕ → ℕ → Entry
  state_entry : ℕ → Option (List ℕ) → Entry
  ptt_entry : Bool → Entry
  bandwidth_entry : ℕ → Entry
  busy_entry : Bool → Entry
  rx_data_entry : Option (List ℕ) → List ℕ → Entry
  host_msg_entry : Option (List ℕ) → Entry

unfoldable pub encode_entry : ℕ → Entry → Option (List ℕ)
encode_entry cap (frame_entry kind ft q sn bw payload) = encode_frame cap kind ft q sn bw payload
encode_entry cap (leader_entry o sn) = encode_leader cap o sn
encode_entry cap (state_entry s remote) = encode_state cap s remote
encode_entry cap (ptt_entry on) = encode_ptt cap on
encode_entry cap (bandwidth_entry b) = encode_bandwidth cap b
encode_entry cap (busy_entry on) = encode_busy cap on
encode_entry cap (rx_data_entry tag bytes) = encode_rx_data cap tag bytes
encode_entry cap (host_msg_entry msg) = encode_host_msg cap msg

-- The values of an entry are in the range of their C types.
unfoldable pub InRange : Entry → Type 0
InRange (frame_entry kind ft q sn bw payload) =
    (kind < 3) × (q < 2 ^ 16) × (sn < 2 ^ 16) × (bw < 2 ^ 16)
InRange (leader_entry o sn) = (o < 2 ^ 32) × (sn < 2 ^ 16)
InRange (state_entry s remote) = Unit
InRange (ptt_entry on) = Unit
InRange (bandwidth_entry b) = b < 2 ^ 16
InRange (busy_entry on) = Unit
InRange (rx_data_entry tag bytes) = Unit
InRange (host_msg_entry msg) = Unit

-- The record that shows an entry written into `cap` bytes.
unfoldable pub shown : ℕ → Entry → CaptureRecord
shown cap (frame_entry kind ft q sn bw bytes) = record (blank kind) {
  frame_type = ft;
  quality = q;
  sn = sn;
  bandwidth_hz = bw;
  payload = kept (cap - 12) bytes;
}
shown cap (leader_entry o n) = record (blank kind_leader) { offset_hz = o; sn = n }
shown cap (state_entry s name) = record (blank kind_state) {
  link_state = s;
  remote = kept8 (cap - 5) (text_of name);
}
shown cap (ptt_entry on) = record (blank kind_ptt) { flag = on }
shown cap (bandwidth_entry b) = record (blank kind_bandwidth) { bandwidth_hz = b }
shown cap (busy_entry on) = record (blank kind_busy) { flag = on }
shown cap (rx_data_entry name bytes) = record (blank kind_rx_data) {
  tag = kept8 (cap - 6) (text_of name);
  payload = kept (cap - 6 - clamp8 (length (text_of name)) (cap - 6)) bytes;
}
shown cap (host_msg_entry msg) = record (blank kind_host_msg) {
  text = kept (cap - 5) (text_of msg);
}
