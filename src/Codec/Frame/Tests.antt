-- ===== src/Codec/Frame/Tests.antt =====
-- Runs of the frame table.
use ardopb.Base.{true, false, some, ◌≡◌, refl, text}
use ardopb.Codec.Frame.{is_data, data_frame_type_for_name, data_frame_name, frame_type_parity}

tests : (is_data 0x50 ≡ true) × (is_data 0x30 ≡ false)
unfolding is_data
tests = (refl, refl)

name_tests :
    (data_frame_type_for_name (text "4PSK.200.100") ≡ some 0x40)
    × (data_frame_name 0x7B 20 ≡ some (text "4FSK.2000.600"))
unfolding data_frame_type_for_name data_frame_name text
name_tests = (refl, refl)

parity_test : (frame_type_parity 0x1B ≡ 1)
unfolding frame_type_parity
parity_test = refl
