-- ===== src/Shell/Settings/File.antt =====
-- shell/settings.c: loading and saving. A file is the list of its bytes.
use ardopb.Base.{
  ℕ, zero, suc, ◌+◌, ◌-◌, Bool, true, false, not, ◌&&◌, ◌||◌, Option, none, some, List, [], ◌∷◌,
  ◌++◌, length, leb, ◌==◌, if◌then◌else◌, text,
}
use ardopb.Shell.Settings.{Setting, Settings, no_settings, key_max, value_max, trim, set_value}

-- `strchr`: the characters before the first one sought, and those behind it, if it is there.
unfoldable pub strchr : ℕ → List ℕ → List ℕ × Option (List ℕ)
strchr sought [] = ([], none)
strchr sought (c ∷ cs) =
    let rest = strchr sought cs in if c == sought then ([], some cs) else (c ∷ rest.0, rest.1)

-- `fgets` with room for this many characters: the line, its end included, and the rest of the file.
unfoldable pub fgets : ℕ → List ℕ → List ℕ × List ℕ
fgets zero file = ([], file)
fgets (suc room) [] = ([], [])
fgets (suc room) (c ∷ cs) =
    let rest = fgets room cs in if c == b'\n' then (c ∷ [], cs) else (c ∷ rest.0, rest.1)

abbrev pub line_room : ℕ
line_room = key_max + value_max + 8 - 1

abbrev pub skip : Settings → Settings
skip s = record s { skipped = s.skipped + 1 }

unfoldable pub load_setting : List ℕ → List ℕ → Settings → Settings
load_setting key value s =
    let done = set_value key value s in
    if (length key == 0) || leb key_max (length key) || leb value_max (length value)
    then skip s
    else if done.1
    then done.0
    else record done.0 { truncated = true }

unfoldable pub load_cut : List ℕ × Option (List ℕ) → Settings → Settings
load_cut (key, none) s = skip s
load_cut (key, some value) s = load_setting (trim key) (trim value) s

unfoldable pub load_body : List ℕ → Settings → Settings
load_body body s = if length body == 0 then s else load_cut (strchr b'=' body) s

-- The string in the buffer ends at the first NUL.
unfoldable pub load_line : List ℕ → Settings → Settings
load_line line = load_body (trim (strchr b'#' (strchr 0 line).0).0)

-- Every round takes at least one character, so that as many rounds as the file is long are enough.
unfoldable pub load_loop : ℕ → List ℕ → Settings → Settings
load_loop zero file s = s
load_loop (suc rounds) [] s = s
load_loop (suc rounds) (c ∷ cs) s =
    let line = fgets line_room (c ∷ cs) in load_loop rounds line.1 (load_line line.0 s)

-- `none` is a file that cannot be opened.
unfoldable pub load : Option (List ℕ) → Settings
load none = no_settings
load (some file) = load_loop (length file) file no_settings

unfoldable pub banner : List (List ℕ)
banner =
    text "# ardop station settings. Written by the application;"
    ∷ text "# safe to edit by hand. Unrecognised keys are preserved."
    ∷ []

unfoldable pub print_lines : List (List ℕ) → List ℕ → List ℕ
print_lines [] rest = rest
print_lines (line ∷ lines) rest = line ++ b'\n' ∷ print_lines lines rest

unfoldable pub print_items : List Setting → List ℕ
print_items [] = []
print_items (e ∷ es) = e.key ++ b'=' ∷ (e.value ++ b'\n' ∷ print_items es)

unfoldable pub printed : Settings → List ℕ
printed s = print_lines banner (print_items s.item)

-- How the calls of one save end: whether the new file opens, how many of the writes succeed before one fails, whether
-- it closes, and whether it takes the place of the old one.
pub record Disk : Type 0 where
  pub opens : Bool
  pub writes : ℕ
  pub closes : Bool
  pub replaces : Bool

-- The file at the path afterwards, and whether it was saved. One write prints the comment and each item takes one.
unfoldable pub save : Disk → List ℕ → Settings → Option (List ℕ) → Option (List ℕ) × Bool
save disk path s old =
    if s.truncated || leb 512 (length path + 4)
    then (old, false)
    else if not disk.opens
    then (old, false)
    else if leb (length s.item + 1) disk.writes && disk.closes && disk.replaces
    then (some (printed s), true)
    else (old, false)
