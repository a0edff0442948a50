-- ===== src/Link/DataModes.antt =====
-- core/link/datamodes.c: the gear-shift ladders. The pointer and the length of a ladder are kept
-- apart, as in the source: with no modes the length is 0 and the pointer still points at a table.
pub mod Ladder
use ardopb.Base.{ℕ, Bool, true, false, not, ◌&&◌, List, [], ◌∷◌, ◌==◌, if◌then◌else◌, length}
use ardopb.Base.Int.{ℤ, pos, ltb_ℤ}

abbrev modes_200 : List ℕ
modes_200 = 0x48 ∷ 0x42 ∷ 0x40 ∷ 0x44 ∷ 0x46 ∷ []

abbrev modes_200_fsk : List ℕ
modes_200_fsk = 0x48 ∷ []

abbrev modes_500 : List ℕ
modes_500 = 0x48 ∷ 0x42 ∷ 0x40 ∷ 0x50 ∷ 0x52 ∷ 0x54 ∷ []

abbrev modes_500_fsk : List ℕ
modes_500_fsk = 0x48 ∷ []

abbrev modes_1000 : List ℕ
modes_1000 = 0x4C ∷ 0x4A ∷ 0x50 ∷ 0x60 ∷ 0x62 ∷ 0x64 ∷ []

abbrev modes_1000_fsk : List ℕ
modes_1000_fsk = 0x4C ∷ 0x4A ∷ []

abbrev modes_2000 : List ℕ
modes_2000 = 0x4C ∷ 0x4A ∷ 0x50 ∷ 0x60 ∷ 0x70 ∷ 0x72 ∷ 0x74 ∷ []

abbrev modes_2000_fsk : List ℕ
modes_2000_fsk = 0x4C ∷ 0x4A ∷ []

abbrev modes_2000_fm : List ℕ
modes_2000_fm = 0x4C ∷ 0x4A ∷ 0x7C ∷ 0x7A ∷ []

abbrev modes_2000_fmfsk : List ℕ
modes_2000_fmfsk = 0x4C ∷ 0x4A ∷ 0x7C ∷ 0x7A ∷ []

abbrev thr_200 : List ℕ
thr_200 = 82 ∷ 84 ∷ 84 ∷ 85 ∷ 0 ∷ []

abbrev thr_500 : List ℕ
thr_500 = 80 ∷ 84 ∷ 84 ∷ 75 ∷ 79 ∷ 0 ∷ []

abbrev thr_1000 : List ℕ
thr_1000 = 80 ∷ 80 ∷ 80 ∷ 80 ∷ 75 ∷ 0 ∷ []

abbrev thr_2000 : List ℕ
thr_2000 = 80 ∷ 80 ∷ 80 ∷ 76 ∷ 85 ∷ 75 ∷ 0 ∷ []

abbrev thr_2000_fm : List ℕ
thr_2000_fm = 60 ∷ 85 ∷ 85 ∷ 0 ∷ []

-- The table and the length written through `len`.
abbrev pub Ladder : Type 0
Ladder = List ℕ × ℕ

abbrev counted : List ℕ → Ladder
counted modes = (modes, length modes)

-- Whether the SSB tables serve for 2000 Hz.
abbrev ssb_2000 : ℤ → Bool → Bool
ssb_2000 tuning_range use_600_modes = ltb_ℤ (pos 0) tuning_range && not use_600_modes

unfoldable pub data_modes : ℕ → Bool → ℤ → Bool → Ladder
data_modes bw_hz fsk_only tuning_range use_600_modes =
    if bw_hz == 200
    then (if fsk_only then counted modes_200_fsk else counted modes_200)
    else if bw_hz == 500
    then (if fsk_only then counted modes_500_fsk else counted modes_500)
    else if bw_hz == 1000
    then (if fsk_only then counted modes_1000_fsk else counted modes_1000)
    else if bw_hz == 2000
    then (if ssb_2000 tuning_range use_600_modes
        then (if fsk_only then counted modes_2000_fsk else counted modes_2000)
        else if fsk_only
        then counted modes_2000_fmfsk
        else counted modes_2000_fm)
    else (modes_200, 0)

unfoldable pub shift_up_thresholds : ℕ → ℤ → Bool → List ℕ
shift_up_thresholds bw_hz tuning_range use_600_modes =
    if bw_hz == 200
    then thr_200
    else if bw_hz == 500
    then thr_500
    else if bw_hz == 1000
    then thr_1000
    else if ssb_2000 tuning_range use_600_modes
    then thr_2000
    else thr_2000_fm
