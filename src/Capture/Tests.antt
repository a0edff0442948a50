-- ===== src/Capture/Tests.antt =====
-- Records of shell/capture.c at concrete values, and one with too long a payload read back.
use ardopb.Base.{◌≡◌, refl, true, none, some, [], ◌∷◌}
use ardopb.Capture.{encode_ptt, encode_flag}
use ardopb.Capture.Parsing.{parse_record}
use ardopb.Capture.Entries.{Entry, frame_entry}

encode_ptt_run : encode_ptt 300 true ≡ some (0x41 ∷ 1 ∷ 5 ∷ 1 ∷ [])
unfolding encode_ptt encode_flag
encode_ptt_run = refl

parse_record-version : parse_record (0x41 ∷ 2 ∷ 5 ∷ 1 ∷ []) ≡ none
unfolding parse_record
parse_record-version = refl

abbrev heard : Entry
heard = frame_entry 0 0x40 80 0xFFFF 500 (7 ∷ 8 ∷ 9 ∷ [])
