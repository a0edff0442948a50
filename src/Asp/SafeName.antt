-- ===== src/Asp/SafeName.antt =====
-- app/asp_wire.c: what is left of a file name that a peer sent.
pub mod Safe
use ardopb.Base.{
  ℕ, ◌+◌, ◌-◌, ltb, leb, ◌==◌, Bool, true, false, ◌||◌, ◌&&◌, Option, none, some, List, [], ◌∷◌,
  ◌++◌, map, length, take, text, bytes_eq, if◌then◌else◌,
}

abbrev pub is_separator : ℕ → Bool
is_separator c = (c == b'/') || (c == b'\\') || (c == b':')

-- What follows the last separator: `base` is where the scan has found it to begin.
unfoldable pub after_last : List ℕ → List ℕ → List ℕ
after_last base [] = base
after_last base (c ∷ p) = after_last (if is_separator c then p else base) p

abbrev pub is_unsafe : ℕ → Bool
is_unsafe c =
    ltb c 0x20
    || (c == 0x7f)
    || (c == b'<')
    || (c == b'>')
    || (c == b'"')
    || (c == b'|')
    || (c == b'?')
    || (c == b'*')

abbrev pub scrub : ℕ → ℕ
scrub c = if is_unsafe c then b'_' else c

abbrev pub is_edge : ℕ → Bool
is_edge c = (c == b'.') || (c == b' ')

unfoldable pub trim_start : List ℕ → List ℕ
trim_start [] = []
trim_start (c ∷ p) = let rest = trim_start p in if is_edge c then rest else c ∷ p

-- A character in front of what is left of those behind it.
abbrev pub keep : ℕ → List ℕ → List ℕ
keep c [] = if is_edge c then [] else c ∷ []
keep c (d ∷ rest) = c ∷ d ∷ rest

-- Without the dots and spaces at the end.
unfoldable pub trim_end : List ℕ → List ℕ
trim_end [] = []
trim_end (c ∷ p) = keep c (trim_end p)

unfoldable pub stem : List ℕ → List ℕ
stem [] = []
stem (c ∷ p) = let rest = c ∷ stem p in if c == b'.' then [] else rest

unfoldable pub upper : ℕ → ℕ
upper c = if leb b'a' c && leb c b'z' then c - b'a' + b'A' else c

unfoldable pub reserved_names : List (List ℕ)
reserved_names =
    text "CON"
    ∷ text "PRN"
    ∷ text "AUX"
    ∷ text "NUL"
    ∷ text "COM1"
    ∷ text "COM2"
    ∷ text "COM3"
    ∷ text "COM4"
    ∷ text "COM5"
    ∷ text "COM6"
    ∷ text "COM7"
    ∷ text "COM8"
    ∷ text "COM9"
    ∷ text "LPT1"
    ∷ text "LPT2"
    ∷ text "LPT3"
    ∷ text "LPT4"
    ∷ text "LPT5"
    ∷ text "LPT6"
    ∷ text "LPT7"
    ∷ text "LPT8"
    ∷ text "LPT9"
    ∷ []

unfoldable pub is_one_of : List ℕ → List (List ℕ) → Bool
is_one_of name [] = false
is_one_of name (r ∷ rs) = let rest = is_one_of name rs in if bytes_eq r name then true else rest

unfoldable pub reserved_device : List ℕ → Bool
reserved_device name = is_one_of (map upper (stem name)) reserved_names

-- The name in a buffer of `cap` characters with its NUL, `none` where nothing usable is left.
unfoldable pub safe_name : List ℕ → ℕ → Option (List ℕ)
safe_name name cap =
    let cleaned = map scrub (take (cap - 1) (after_last name name)) in
    let out = trim_end (trim_start cleaned) in
    if ltb cap 2
    then none
    else if length out == 0
    then none
    else if reserved_device out
    then (if ltb cap (length out + 2) then none else some (out ++ (b'_' ∷ [])))
    else some out
