-- ===== src/Link/DataModes/Ladder.antt =====
-- What the gear shift relies on in the ladders.
use ardopb.Base.{ℕ, ◌%◌, ◌<◌, ◌≡◌, refl, arith, Bool, true, false, ◌&&◌, ◌==◌, leb, ltb}
use ardopb.Base.{List, length, get_or, if◌then◌else◌, every_below, every_below_at}
use ardopb.Base.Int.{ℤ}
use ardopb.Codec.Frame.{is_data}
use ardopb.Link.DataModes.{
  Ladder, counted, data_modes, shift_up_thresholds, ssb_2000, modes_200, modes_200_fsk, modes_500,
  modes_500_fsk, modes_1000, modes_1000_fsk, modes_2000, modes_2000_fsk, modes_2000_fm,
  modes_2000_fmfsk, thr_200, thr_500, thr_1000, thr_2000, thr_2000_fm,
}

good_rung : Ladder → ℕ → Bool
good_rung ladder p =
    let mode = get_or ladder.0 p 0 in is_data mode && (mode % 2 == 0) && ltb mode 0x80

good : Ladder → List ℕ → Bool
good ladder thresholds =
    leb ladder.1 (length ladder.0)
    && leb ladder.1 (length thresholds)
    && leb ladder.1 16
    && every_below ladder.1 (good_rung ladder)

-- The tables that the tests of the two functions choose between.
chosen-good :
    (w200 w500 w1000 w2000 ssb fsk : Bool)
    → good
        (if w200
          then (if fsk then counted modes_200_fsk else counted modes_200)
          else if w500
          then (if fsk then counted modes_500_fsk else counted modes_500)
          else if w1000
          then (if fsk then counted modes_1000_fsk else counted modes_1000)
          else if w2000
          then (if ssb
              then (if fsk then counted modes_2000_fsk else counted modes_2000)
              else if fsk
              then counted modes_2000_fmfsk
              else counted modes_2000_fm)
          else (modes_200, 0))
        (if w200
          then thr_200
          else if w500
          then thr_500
          else if w1000
          then thr_1000
          else if ssb
          then thr_2000
          else thr_2000_fm)
      ≡ true
unfolding good good_rung is_data every_below
chosen-good true w500 w1000 w2000 ssb true = refl
chosen-good true w500 w1000 w2000 ssb false = refl
chosen-good false true w1000 w2000 ssb true = refl
chosen-good false true w1000 w2000 ssb false = refl
chosen-good false false true w2000 ssb true = refl
chosen-good false false true w2000 ssb false = refl
chosen-good false false false true true true = refl
chosen-good false false false true true false = refl
chosen-good false false false true false true = refl
chosen-good false false false true false false = refl
chosen-good false false false false true fsk = refl
chosen-good false false false false false fsk = refl

good-rung :
    (modes : List ℕ) (len p : ℕ) (thresholds : List ℕ)
    → good (modes, len) thresholds ≡ true
    → p < len
    → (p < length modes)
      × (p < length thresholds)
      × (p < 16)
      × (is_data (get_or modes p 0) ≡ true)
      × (get_or modes p 0 % 2 ≡ 0)
unfolding good good_rung
good-rung modes len p thresholds g h = ground (arith, every_below_at len (good_rung (modes, len)) p)

-- Whatever the width and the settings, each rung of the ladder that is chosen is an even data type, with a
-- threshold of its own and a place in the sixteen counters of the gear shift.
pub data_modes-rung :
    (bw_hz p : ℕ) (fsk_only : Bool) (tuning_range : ℤ) (use_600_modes : Bool)
    → p < (data_modes bw_hz fsk_only tuning_range use_600_modes).1
    → let modes = (data_modes bw_hz fsk_only tuning_range use_600_modes).0 in
      (p < length modes)
      × (p < length (shift_up_thresholds bw_hz tuning_range use_600_modes))
      × (p < 16)
      × (is_data (get_or modes p 0) ≡ true)
      × (get_or modes p 0 % 2 ≡ 0)
unfolding data_modes shift_up_thresholds
data_modes-rung bw_hz p fsk_only tuning_range use_600_modes h =
    let ladder = data_modes bw_hz fsk_only tuning_range use_600_modes in
    good-rung ladder.0 ladder.1 p (shift_up_thresholds bw_hz tuning_range use_600_modes)
      (chosen-good (bw_hz == 200) (bw_hz == 500) (bw_hz == 1000) (bw_hz == 2000)
        (ssb_2000 tuning_range use_600_modes) fsk_only)
      h
