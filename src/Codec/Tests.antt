-- ===== src/Codec/Tests.antt =====
-- Runs of the codec, and its theorems at concrete inputs.
use ardopb.Base.{ℕ, ◌-◌, ◌%◌, ◌^◌, ◌≤◌, ◌≡◌, refl, arith, bit_xor, true, not}
use ardopb.Base.{none, some, List, [], ◌∷◌, length, text, ◌==◌, bytes_eq, decimal}
use ardopb.Codec.Crc.{crc16_trailer, crc16_trailer_ok}
use ardopb.Codec.Crc.Types.{crc16_trailer_ok-crc16_trailer}
use ardopb.Codec.DataFrame.{
  Encoded, nothing, failed, frame, encode_data_frame, encode_blocks, block_body, layout,
}
use ardopb.Codec.DataFrame.Size.{frame_size, length-encode_data_frame, encode_data_frame-frame}
use ardopb.Codec.Frame.{
  FrameSpec, psk4, spec_for, is_data, is_odd, payload_bytes, rs_bytes, data_frame_name,
  data_frame_type_for_name,
}
use ardopb.Codec.Frame.Pairs.{is_data-pair, data_frame_type_for_name-data_frame_name}
use ardopb.Codec.Locator
use ardopb.Codec.Locator.{Locator}
use ardopb.Codec.Locator.Wire.{from_bytes-as_bytes}
use ardopb.Codec.Packed6
use ardopb.Codec.Packed6.RoundTrip.{from_str_slice-to_fixed_str}
use ardopb.Codec.Rs
use ardopb.Codec.Rs.{Rs}
use ardopb.Codec.StationId
use ardopb.Codec.StationId.{StationId, Parsed, ok, err}
use ardopb.Codec.StationId.Wire.{to_buffer-from_bytes}

-- The code for eight parity bytes.
abbrev code : Rs
unfolding Rs.init
code = elim (Rs.init (8 ∷ [])) [
  | none ↦ record { alpha_to = []; index_of = []; gg = [] }
  | some rs ↦ rs
]

-- The frame "4PSK.200.100S.E" and its partner.
abbrev short_even : FrameSpec
short_even = record {
  name = text "4PSK.200.100S.E";
  modulation = psk4;
  baud = 100;
  carriers = 1;
  data_bytes_per_carrier = 16;
  rs_bytes_per_carrier = 8;
  quality_threshold = 30;
}

abbrev short_odd : FrameSpec
short_odd = record short_even { name = text "4PSK.200.100S.O" }

bytes_of : Encoded → List ℕ
bytes_of nothing = []
bytes_of (failed bytes) = []
bytes_of (frame bytes) = bytes

abbrev hello : List ℕ
unfolding bytes_of encode_data_frame
hello = bytes_of (encode_data_frame code 0x42 97 (text "hello"))

length-encode_data_frame_example : (length hello ≡ frame_size short_even) × (length hello ≤ 2048)
unfolding encode_data_frame spec_for encode_blocks layout Rs.append Rs.rs_gg code Rs.lengths_fit
    block_body crc16_trailer hello
length-encode_data_frame_example =
    length-encode_data_frame code 0x42 97 (text "hello") {spec = short_even} {bytes = hello}
      (omega arith) refl refl

encode_data_frame-frame_example :
    (blocks : List ℕ) × (encode_data_frame code 0x42 97 (text "hello")
      ≡ frame (0x42 ∷ bit_xor 0x42 97 % 2 ^ 8 ∷ blocks))
unfolding spec_for layout Rs.rs_gg code Rs.lengths_fit
encode_data_frame-frame_example =
    encode_data_frame-frame code 0x42 97 (text "hello") {spec = short_even} (omega arith) refl
      (omega arith) (_, refl) (omega arith)

abbrev bob : StationId
bob = record {
  call = text "K1ABC";
  ssid = text "7";
  str = text "K1ABC-7";
  wire = 0xad ∷ 0x18 ∷ 0x62 ∷ 0x8c ∷ 0x00 ∷ 0x17 ∷ [];
}

to_buffer-from_bytes_example : StationId.to_buffer bob ≡ some bob.wire
unfolding StationId.from_bytes StationId.uncompress StationId.validate_callsign StationId.until_nul
    StationId.contains StationId.ssid_unpack Packed6.to_fixed_str Packed6.decompress_three_to_four
    Packed6.unpack_loop text bytes_eq decimal
to_buffer-from_bytes_example = to_buffer-from_bytes 0xad 0x18 0x62 0x8c 0x00 0x17 {s = bob} refl

from_str_slice-to_fixed_str_example :
    Packed6.from_str_slice (Packed6.to_fixed_str (0xba ∷ 0xf0 ∷ 0x27 ∷ 0xcc ∷ 0 ∷ 255 ∷ [])) 8
    ≡ (true, 0xba ∷ 0xf0 ∷ 0x27 ∷ 0xcc ∷ 0 ∷ 255 ∷ [])
from_str_slice-to_fixed_str_example =
    from_str_slice-to_fixed_str 0xba 0xf0 0x27 0xcc 0 255 (omega arith) (omega arith) (omega arith)
      (omega arith) (omega arith) (omega arith)

crc16_trailer_ok-crc16_trailer_example :
    crc16_trailer_ok (text "hello") 0x42 (crc16_trailer (text "hello") 0x43) ≡ (0x42 == 0x43)
crc16_trailer_ok-crc16_trailer_example =
    crc16_trailer_ok-crc16_trailer (text "hello") 0x42 0x43 (omega arith) (omega arith)

is_data-pair_example :
    (is_data (bit_xor 0x42 1) ≡ true)
    × (is_odd (bit_xor 0x42 1) ≡ not (is_odd 0x42))
    × (payload_bytes short_odd ≡ payload_bytes short_even)
    × (rs_bytes short_odd ≡ rs_bytes short_even)
    × (short_odd.carriers ≡ short_even.carriers)
    × (short_odd.quality_threshold ≡ short_even.quality_threshold)
unfolding spec_for is_data
is_data-pair_example = is_data-pair 0x42 short_even short_odd (omega arith) refl refl refl

data_frame_type_for_name-data_frame_name_example :
    (name : List ℕ) × (data_frame_name 0x43 32 ≡ some name)
    × (data_frame_type_for_name name ≡ some (0x43 - 0x43 % 2))
unfolding is_data
data_frame_type_for_name-data_frame_name_example =
    data_frame_type_for_name-data_frame_name 0x43 (omega arith) refl

abbrev square : Locator
square = record { grid = text "EM89kv"; wire = 0x96 ∷ 0xd6 ∷ 0x19 ∷ 0xaf ∷ 0x60 ∷ 0x00 ∷ [] }

from_bytes-as_bytes_example :
    Locator.from_bytes (Locator.as_bytes square) ≡ Locator.Parsed.ok square
unfolding Locator.from_str_slice Locator.uncompress Locator.validate_grid Locator.check_loop
    Locator.check_char Locator.lower_subsquare Locator.to_ascii_lowercase Locator.is_ascii_digit
    Locator.is_ascii_alpha_range StationId.until_nul Packed6.to_fixed_str
    Packed6.decompress_three_to_four Packed6.unpack_loop text bytes_eq Packed6.from_str_slice
    Packed6.compress_four_to_three Packed6.pack_loop Packed6.work_field Packed6.char_code
    Packed6.fold_case Packed6.in_alphabet Locator.is_populated
from_bytes-as_bytes_example = from_bytes-as_bytes (text "em89kv") {l = square} refl
