-- ===== src/Shell/Settings.antt =====
-- shell/settings.c: the settings of a station, keys with values, and the file that keeps them. A C string is its
-- characters before the NUL. The items in use are a list, so that its length is the field n.
pub mod File
pub mod Trim
pub mod Line
pub mod Store
pub mod Items
pub mod Loaded
pub mod Survives
pub mod Lookup
use ardopb.Base.{
  ℕ, zero, suc, ◌+◌, ◌-◌, Bool, true, false, ◌&&◌, ◌||◌, Option, none, some, List, [], ◌∷◌, ◌++◌,
  map, length, take, set, get_elem?, leb, ◌==◌, if◌then◌else◌, text, snprintf, bytes_eq,
}
use ardopb.Base.Int.{ℤ}
use ardopb.Shell.Host.{whole_number, print_int}

abbrev pub key_max : ℕ
key_max = 64

abbrev pub value_max : ℕ
value_max = 512

abbrev pub settings_max : ℕ
settings_max = 128

pub record Setting : Type 0 where
  pub key : List ℕ
  pub value : List ℕ

pub record Settings : Type 0 where
  pub item : List Setting
  pub skipped : ℕ
  pub truncated : Bool

abbrev pub no_settings : Settings
no_settings = record { item = []; skipped = 0; truncated = false }

unfoldable pub is_space : ℕ → Bool
is_space c = (c == b' ') || (c == b'\t') || (c == b'\r') || (c == b'\n')

unfoldable pub trim_left : List ℕ → List ℕ
trim_left [] = []
trim_left (c ∷ cs) = let rest = trim_left cs in if is_space c then rest else c ∷ cs

-- A character in front of what is left of those behind it.
unfoldable pub keep : ℕ → List ℕ → List ℕ
keep c [] = if is_space c then [] else c ∷ []
keep c (d ∷ ds) = c ∷ d ∷ ds

unfoldable pub trim_right : List ℕ → List ℕ
trim_right [] = []
trim_right (c ∷ cs) = keep c (trim_right cs)

unfoldable pub trim : List ℕ → List ℕ
trim s = trim_right (trim_left s)

abbrev to_lower : ℕ → ℕ
to_lower c = if leb b'A' c && leb c b'Z' then c + 32 else c

unfoldable pub eq_nocase : List ℕ → List ℕ → Bool
eq_nocase [] [] = true
eq_nocase [] (y ∷ ys) = false
eq_nocase (x ∷ xs) [] = false
eq_nocase (x ∷ xs) (y ∷ ys) = (to_lower x == to_lower y) && eq_nocase xs ys

-- The index of the first key that is the one sought, the number of keys when there is none.
unfoldable pub find_key : List (List ℕ) → List ℕ → ℕ
find_key [] key = 0
find_key (k ∷ ks) key = let later = find_key ks key in if bytes_eq k key then 0 else suc later

abbrev pub keys : List Setting → List (List ℕ)
keys = map Setting.key

abbrev pub find : Settings → List ℕ → ℕ
find s key = find_key (keys s.item) key

-- The fallback is `none` where the source passes NULL.
unfoldable pub get : Settings → List ℕ → Option (List ℕ) → Option (List ℕ)
get s key fallback = elim (get_elem? s.item (find s key)) [
  | none ↦ fallback
  | some e ↦ some e.value
]

unfoldable pub get_num : Settings → List ℕ → ℤ → ℤ
get_num s key fb = elim (get s key none) [
  | none ↦ fb
  | some v ↦ elim (whole_number v) [ none ↦ fb | some out ↦ out ]
]

unfoldable pub get_bool : Settings → List ℕ → Bool → Bool
get_bool s key fb = elim (get s key none) [
  | none ↦ fb
  | some v ↦
      if eq_nocase v (text "true")
        || eq_nocase v (text "yes")
        || eq_nocase v (text "on")
        || bytes_eq v (text "1")
      then true
      else if eq_nocase v (text "false")
          || eq_nocase v (text "no")
          || eq_nocase v (text "off")
          || bytes_eq v (text "0")
      then false
      else fb
]

abbrev entry : List ℕ → List ℕ → Setting
entry key value = record { key = snprintf key_max key; value = snprintf value_max value }

-- A key that is there already, at the index `i`, gets the value.
unfoldable pub replace_value : ℕ → List ℕ → List Setting → List Setting
replace_value i value [] = []
replace_value zero value (e ∷ es) = record e { value = snprintf value_max value } ∷ es
replace_value (suc i) value (e ∷ es) = e ∷ replace_value i value es

unfoldable pub set_value : List ℕ → List ℕ → Settings → Settings × Bool
set_value key value s =
    let i = find s key in
    if (length key == 0) || leb key_max (length key) || leb value_max (length value)
    then (s, false)
    else if i == length s.item
    then (if leb settings_max (length s.item)
        then (s, false)
        else (record s { item = s.item ++ entry key value ∷ [] }, true))
    else (record s { item = replace_value i value s.item }, true)

unfoldable pub set_num : List ℕ → ℤ → Settings → Settings × Bool
set_num key value = set_value key (snprintf 32 (print_int value))

unfoldable pub set_bool : List ℕ → Bool → Settings → Settings × Bool
set_bool key value = set_value key (if value then text "true" else text "false")

-- The last item takes the place of the one removed.
unfoldable pub unset : List ℕ → Settings → Settings × Bool
unset key s =
    let i = find s key in
    let last = length s.item - 1 in
    elim (get_elem? s.item last) [
      | none ↦ (s, false)
      | some e ↦
          if i == length s.item
          then (s, false)
          else (record s { item = take last (set s.item i e) }, true)
    ]
