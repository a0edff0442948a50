-- ===== src/Shell/Settings/Survives.antt =====
-- shell/settings.c: what was loaded survives being saved and loaded again.
use ardopb.Base.{
  ℕ, zero, suc, ◌+◌, ◌≤◌, ◌<◌, ◌≡◌, refl, ◌∙◌, arith, true, false, Option, some, List, [], ◌∷◌,
  ◌++◌, length, length-append, text,
}
use ardopb.Shell.Settings.{Settings, no_settings, is_space, trim, trim_left, trim_right, keep}
use ardopb.Shell.Settings.File.{
  strchr, line_room, load_body, load_line, load_loop, load, banner, print_lines, print_items,
  printed, Disk, save,
}
use ardopb.Shell.Settings.Store.{IsStore}
use ardopb.Shell.Settings.Loaded.{load-IsStore}
use ardopb.Shell.Settings.Trim.{Lacks, absent-Lacks}
use ardopb.Shell.Settings.Items.{load_loop-line, load_loop-items}

-- A comment changes nothing.
load_loop-comment :
    (rounds : ℕ) (line rest : List ℕ) (s : Settings)
    → Lacks b'\n' line
    → length line < line_room
    → load_line (line ++ b'\n' ∷ []) s ≡ s
    → load_loop (suc rounds) (line ++ b'\n' ∷ rest) s ≡ load_loop rounds rest s
load_loop-comment rounds line rest s h k e = load_loop-line rounds line rest s h k ∙ rw e refl

abbrev first_comment : List ℕ
first_comment = text "# ardop station settings. Written by the application;"

abbrev second_comment : List ℕ
second_comment = text "# safe to edit by hand. Unrecognised keys are preserved."

load_loop-banner :
    (rounds : ℕ) (rest : List ℕ) (s : Settings)
    → load_loop (suc (suc rounds)) (print_lines banner rest) s ≡ load_loop rounds rest s
unfolding print_lines banner load_line load_body trim trim_left trim_right keep is_space strchr text
load_loop-banner rounds rest s =
    load_loop-comment (suc rounds) first_comment (second_comment ++ b'\n' ∷ rest) s
      (absent-Lacks b'\n' first_comment refl) (omega arith) refl
    ∙ load_loop-comment rounds second_comment rest s (absent-Lacks b'\n' second_comment refl)
        (omega arith) refl

length-printed : (s : Settings) → length (print_items s.item) + 2 ≤ length (printed s)
unfolding printed print_lines banner text
length-printed s = omega (
  arith,
  length-append first_comment (b'\n' ∷ (second_comment ++ b'\n' ∷ print_items s.item)),
  length-append second_comment (b'\n' ∷ print_items s.item),
)

load_loop-printed :
    (rounds : ℕ) (s : Settings)
    → IsStore s.item
    → length (printed s) ≤ rounds
    → load_loop rounds (printed s) no_settings ≡ record s { skipped = 0; truncated = false }
unfolding printed
load_loop-printed zero s h r = absurd (omega (arith, length-printed s))
load_loop-printed (suc zero) s h r = absurd (omega (arith, length-printed s))
load_loop-printed (suc (suc rounds)) s h r =
    load_loop-banner rounds (print_items s.item) no_settings
    ∙ load_loop-items rounds s.item no_settings h.entries h.distinct (omega (arith, h.fits))
        (omega (arith, r, length-printed s))

save-succeeds :
    (disk : Disk) (path : List ℕ) (s : Settings) (old : Option (List ℕ))
    → s.truncated ≡ false
    → length path + 4 < 512
    → disk.opens ≡ true
    → length s.item < disk.writes
    → disk.closes ≡ true
    → disk.replaces ≡ true
    → save disk path s old ≡ (some (printed s), true)
unfolding save
save-succeeds disk path s old whole fits opens writes closes replaces =
    ground (arith, whole, fits, opens, writes, closes, replaces)

load-printed :
    (s : Settings)
    → IsStore s.item
    → load (some (printed s)) ≡ record s { skipped = 0; truncated = false }
unfolding load
load-printed s h = load_loop-printed (length (printed s)) s h (omega arith)

-- A store that was loaded from any file whatever, and that holds all of its keys, is saved where the calls of the
-- save succeed and the path fits its buffer, and what is loaded then is the same store, key for key and in order,
-- with nothing skipped.
pub load-save :
    (file : Option (List ℕ)) (disk : Disk) (path : List ℕ)
    → (load file).truncated ≡ false
    → length path + 4 < 512
    → disk.opens ≡ true
    → length (load file).item < disk.writes
    → disk.closes ≡ true
    → disk.replaces ≡ true
    → ((save disk path (load file) file).1 ≡ true)
      × (load (save disk path (load file) file).0 ≡ record (load file) { skipped = 0 })
load-save file disk path whole fits opens writes closes replaces =
    let saved = save-succeeds disk path (load file) file whole fits opens writes closes replaces in
    rw saved (refl, load-printed (load file) (load-IsStore file) ∙ rw whole refl)
