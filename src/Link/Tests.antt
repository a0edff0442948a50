-- ===== src/Link/Tests.antt =====
-- Runs of the link, and its theorems at concrete inputs.
use ardopb.Base.{zero, suc, ◌+◌, ◌*◌, ℕ, ◌%◌, ◌≤◌, ◌<◌, ◌≡◌, refl, arith, true, false, some}
use ardopb.Base.{List, text, length, [], ◌∷◌, bytes_eq, decimal, reverse, ◌++◌, get_or, replicate}
use ardopb.Base.Int.{pos}
use ardopb.Codec.Frame.{is_data, spec_for}
use ardopb.Codec.Packed6
use ardopb.Codec.StationId
use ardopb.Codec.StationId.{StationId, ok, err}
use ardopb.Link.Actions.{sends, wakeups, messages, deliveries}
use ardopb.Link.Actions.Step.{run_step-once, link_step_complete}
use ardopb.Link.Bandwidth.{max_500, undefined, negotiate_bandwidth}
use ardopb.Link.Bandwidth.Agreement.{requested, ruling, negotiate_bandwidth-ruling}
use ardopb.Link.DataModes.{data_modes, shift_up_thresholds}
use ardopb.Link.DataModes.Ladder.{data_modes-rung}
use ardopb.Link.Disc.{two_stations}
use ardopb.Link.Disc.Call.{call_to_me-two_stations}
use ardopb.Link.Session.{call_to_me, session_id}
use ardopb.Link.Flow.{◌⟶◌}
use ardopb.Link.Flow.Step.{run_step-moves}
use ardopb.Link.Quality.{quality_to_ack_type, quality_from_type}
use ardopb.Link.Quality.Report.{reported, quality_from_type-quality_to_ack_type}
use ardopb.Link.Closing.{Unanswered, quiet, repeats, disconnect_ends}
use ardopb.Link.Host.{dispatch_host, step_host_disconnect}
use ardopb.Link.Irs.Once.{run_step_twice}
use ardopb.Link.Queue.{Queued}
use ardopb.Link.Queue.Step.{run_step-Queued}
use ardopb.Link.Send.{
  frame_capacity, apply_shift, gearshift, shifted_ptr, gearshift_at, readings, record_use,
  increment, shift_up, retry_blocked,
}
use ardopb.Link.Send.Rungs.{apply_shift-gearshift}
use ardopb.Link.State.{
  irs_data, disc, timer, ms_to_samples, host, HostCmd, CmdKind, send_data, disconnect, Link, init,
  zero_station, Event, frame_decoded, Input, rx,
}
use ardopb.Link.Step.{run_step, link_step, step_turn}
use ardopb.Link.Timer.{step_timer, repeat_frame, resend}
use ardopb.Link.Turn.{begin, tell_host, send_control, arm_repeat}

station : List ℕ → StationId
station name = elim (StationId.from_str_slice name) [ ok s ↦ s | err e ↦ zero_station ]

abbrev alice : StationId
unfolding station
alice = station (text "N0CALL")

abbrev bob : StationId
unfolding station
bob = station (text "K1ABC-7")

-- Bob's station, listening with at most 500 Hz.
abbrev bob_link : Link
bob_link = record init {
  config = record init.config { mycall = bob; listening = true; bw_setting = max_500 };
}

event : ℕ → List ℕ → Event
event frame_type payload = record {
  kind = frame_decoded;
  frame_type = frame_type;
  sn = pos 0;
  quality = pos 80;
  leader_ms = pos 240;
  payload = payload;
}

abbrev command : CmdKind → HostCmd
command kind = record {
  kind = kind;
  target = alice;
  bandwidth = undefined;
  payload = some (text "hello");
  arg = pos 0;
}

-- Alice asks for 2000 Hz.
abbrev request : Input
request = rx (event 0x34 (alice.wire ++ bob.wire))

run_step-moves_example : bob_link.state ⟶ (run_step bob_link request 1000).link.state
run_step-moves_example = run_step-moves bob_link request 1000

run_step-once_example :
    let actions = (run_step bob_link request 1000).actions in
    (sends actions ≤ 1) × (wakeups actions ≤ 1) × (messages actions ≤ 1) × (deliveries actions ≤ 1)
run_step-once_example = run_step-once bob_link request 1000

link_step_complete_example :
    link_step bob_link request 1000 8
    ≡ ((run_step bob_link request 1000).link, reverse (run_step bob_link request 1000).actions)
link_step_complete_example = link_step_complete bob_link request 1000 8 (omega arith)

negotiate_bandwidth-ruling_example :
    negotiate_bandwidth max_500 0x34 ≡ ruling max_500 (requested 0x34)
negotiate_bandwidth-ruling_example = negotiate_bandwidth-ruling max_500 0x34 refl

data_modes-rung_example :
    let modes = (data_modes 500 false (pos 100) false).0 in
    (3 < length modes)
    × (3 < length (shift_up_thresholds 500 (pos 100) false))
    × (3 < 16)
    × (is_data (get_or modes 3 0) ≡ true)
    × (get_or modes 3 0 % 2 ≡ 0)
unfolding data_modes
data_modes-rung_example = data_modes-rung 500 3 false (pos 100) false (omega arith)

quality_from_type-quality_to_ack_type_example :
    let t = quality_to_ack_type (pos 71) in
    (0xE0 ≤ t) × (t ≤ 0xFF) × (quality_from_type t ≡ reported (pos 71))
quality_from_type-quality_to_ack_type_example = quality_from_type-quality_to_ack_type (pos 71)

-- Bob as the receiving station of a session, and a data frame.
abbrev receiver : Link
receiver = record bob_link { state = irs_data }

abbrev data_event : Event
data_event = event 0x40 (text "hello")

run_step-Queued_example :
    Queued bob_link (run_step bob_link (host (command send_data)) 1000) (host (command send_data))
run_step-Queued_example = run_step-Queued bob_link (host (command send_data)) 1000

run_step_twice_example :
    let first = run_step receiver (rx data_event) 1000 in
    let second = run_step first.link (rx data_event) 90000 in
    (sends first.actions ≡ 1) × (sends second.actions ≡ 1) × (deliveries second.actions ≡ 0)
unfolding is_data init event
run_step_twice_example =
    run_step_twice receiver data_event data_event 1000 90000 refl refl refl refl refl refl refl

-- The disconnecting link after `n` repeats, two seconds apart.
closing_link : ℕ → Link
closing_link zero = (run_step receiver (host (command disconnect)) 1000).link
closing_link (suc n) = (run_step (closing_link n) timer (25000 + n * 24000)).link

five_repeats : Unanswered (closing_link 0) 5 (closing_link 5)
unfolding closing_link init step_turn dispatch_host step_host_disconnect tell_host send_control
    arm_repeat step_timer repeat_frame resend ms_to_samples
five_repeats =
    repeats 25000 refl
      (repeats 49000 refl (repeats 73000 refl (repeats 97000 refl (repeats 121000 refl quiet))))

disconnect_ends_example : (closing_link 5).state ≡ disc
unfolding closing_link init
disconnect_ends_example =
    disconnect_ends receiver (closing_link 5) (command disconnect) 1000 refl (λ e. cc e) (λ e. cc e)
      five_repeats

-- Alice and Bob, their fields written out.
abbrev alice_fields : StationId
alice_fields = record {
  call = text "N0CALL";
  ssid = text "0";
  str = text "N0CALL";
  wire = 0xb9 ∷ 0x08 ∷ 0xe1 ∷ 0xb2 ∷ 0xc0 ∷ 0x10 ∷ [];
}

abbrev bob_fields : StationId
bob_fields = record {
  call = text "K1ABC";
  ssid = text "7";
  str = text "K1ABC-7";
  wire = 0xad ∷ 0x18 ∷ 0x62 ∷ 0x8c ∷ 0x00 ∷ 0x17 ∷ [];
}

call_to_me-two_stations_example :
    (two_stations (alice_fields.wire ++ bob_fields.wire) ≡ some (alice_fields, bob_fields))
    × (call_to_me alice_fields bob_fields bob_fields []
        ≡ some (session_id alice_fields.str bob_fields.str))
unfolding StationId.uncompress StationId.validate_callsign StationId.until_nul StationId.contains
    StationId.ssid_unpack Packed6.to_fixed_str Packed6.decompress_three_to_four Packed6.unpack_loop
    text bytes_eq decimal StationId.from_str_slice StationId.parse_str StationId.compress
    StationId.ssid_pack StationId.pad_callsign Packed6.from_str_slice Packed6.compress_four_to_three
    Packed6.pack_loop Packed6.work_field Packed6.char_code Packed6.fold_case Packed6.in_alphabet
call_to_me-two_stations_example =
    call_to_me-two_stations (text "N0CALL") (text "k1abc-7") [] {caller = alice_fields}
      {target = bob_fields} refl refl

-- A link on the second of five rungs, that has got three ACKs of good quality and has more to send.
abbrev on_rung : Link
on_rung = record init {
  sender = record init.sender {
    tx_data = replicate 200 0;
    modes = 0x48 ∷ 0x42 ∷ 0x40 ∷ 0x44 ∷ 0x46 ∷ [];
    thresholds = 60 ∷ 60 ∷ 60 ∷ 60 ∷ 60 ∷ [];
    modes_len = 5;
    mode_ptr = 1;
  };
  gear = record init.gear { ack_ctr = 3 };
  session = record init.session { avg_quality = 80 };
}

-- It goes up to the third.
on_rung_up : (apply_shift (gearshift (begin on_rung)).link).sender.mode_ptr ≡ 2
unfolding apply_shift shifted_ptr gearshift gearshift_at readings record_use increment shift_up
    retry_blocked init frame_capacity spec_for
on_rung_up = refl

apply_shift-gearshift_example :
    let l = apply_shift (gearshift (begin on_rung)).link in
    (l.sender.mode_ptr < 5)
    × (l.sender.mode_ptr ≤ 1 + 1)
    × (1 ≤ l.sender.mode_ptr + 1)
    × (l.gear.shift_up_dn ≡ pos 0)
unfolding init
apply_shift-gearshift_example = apply_shift-gearshift (begin on_rung) (omega arith) refl
