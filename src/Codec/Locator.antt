-- ===== src/Codec/Locator.antt =====
-- core/codec/locator.c: a Maidenhead grid square, as text and as six wire bytes.
pub mod Wire
use ardopb.Base.{ℕ, ◌+◌, ◌-◌, ◌/◌, ◌%◌, Bool, not, ◌&&◌, ◌||◌}
use ardopb.Base.{Option, none, some, List, [], ◌∷◌, leb, ◌==◌, if◌then◌else◌}
use ardopb.Base.{length, take, replicate, bytes_eq, map, text}
use ardopb.Codec.Packed6
use ardopb.Codec.Packed6.{Packed6}
use ardopb.Codec.StationId.{until_nul}

abbrev pub locator_size : ℕ
locator_size = 9

pub data LocatorErr : Type 0 where
  too_long fmt_length fmt_charset fmt_field fmt_square fmt_subsquare fmt_extsquare : LocatorErr

pub record Locator : Type 0 where
  pub grid : List ℕ
  pub wire : Packed6

pub data Parsed : Type 0 where
  ok : Locator → Parsed
  err : LocatorErr → Parsed

-- The legacy "unset" byte sequences.
abbrev locator_nogs_upper : Packed6
locator_nogs_upper = 0xbc ∷ 0xf0 ∷ 0x27 ∷ 0xcc ∷ 0x00 ∷ 0x00 ∷ []

abbrev pub locator_nogs : Packed6
locator_nogs = 0xba ∷ 0xf0 ∷ 0x27 ∷ 0xcc ∷ 0x00 ∷ 0x00 ∷ []

unfoldable pub init : Locator
init = record { grid = []; wire = replicate 6 0 }

unfoldable pub is_ascii_alpha_range : ℕ → ℕ → Bool
is_ascii_alpha_range s end = (leb b'A' s && leb s end) || (leb (b'A' + 32) s && leb s (end + 32))

unfoldable pub to_ascii_lowercase : ℕ → ℕ
to_ascii_lowercase s = if leb b'A' s && leb s b'Z' then s + 32 else s

unfoldable pub is_ascii_digit : ℕ → Bool
is_ascii_digit s = leb b'0' s && leb s b'9'

-- The error of the character at index `i`, if it has one.
unfoldable pub check_char : ℕ → ℕ → Option LocatorErr
check_char i c =
    if i / 2 == 0
    then (if is_ascii_alpha_range c b'R' then none else some fmt_field)
    else if i / 2 == 1
    then (if is_ascii_digit c then none else some fmt_square)
    else if i / 2 == 2
    then (if is_ascii_alpha_range c b'X' then none else some fmt_subsquare)
    else if is_ascii_digit c
    then none
    else some fmt_extsquare

-- The loop: the last failing character decides.
unfoldable pub check_loop : ℕ → List ℕ → Option LocatorErr → Option LocatorErr
check_loop i [] found = found
check_loop i (c ∷ cs) found =
    check_loop (i + 1) cs (elim (check_char i c) [ none ↦ found | some e ↦ some e ])

-- `none` for a valid grid square.
unfoldable pub validate_grid : List ℕ → Option LocatorErr
validate_grid grid = if length grid % 2 == 0 then check_loop 0 grid none else some fmt_length

-- The subsquare pair, characters 4 and 5, in lower case.
unfoldable pub lower_subsquare : List ℕ → List ℕ
lower_subsquare (a ∷ b ∷ c ∷ d ∷ e ∷ f ∷ rest) =
    a ∷ b ∷ c ∷ d ∷ to_ascii_lowercase e ∷ to_ascii_lowercase f ∷ rest
lower_subsquare grid = grid

unfoldable pub uncompress : Packed6 → Parsed
uncompress wire =
    if bytes_eq wire locator_nogs_upper || bytes_eq wire locator_nogs
    then ok init
    else let spaced = lower_subsquare (Packed6.to_fixed_str wire) in
      let grid = until_nul (map (λ c. if c == b' ' then 0 else c) spaced) in
      elim (validate_grid grid) [ some e ↦ err e | none ↦ ok (record { grid = grid; wire = wire }) ]

-- The grid square of a slice of `len` characters.
unfoldable pub from_str_slice : List ℕ → Parsed
from_str_slice str =
    let grid = until_nul str in
    let (packs, wire) = Packed6.from_str_slice grid (locator_size - 1) in
    if length str == 0
    then ok init
    else if (length grid == 0) || leb locator_size (length grid)
    then err too_long
    else elim (validate_grid grid) [
      | some e ↦ err e
      | none ↦ if packs then uncompress wire else err fmt_charset
    ]

unfoldable pub is_populated : Locator → Bool
is_populated locator = not (length locator.grid == 0)

-- The wire bytes to send: the legacy "unset" ones for an empty locator.
unfoldable pub as_bytes : Locator → Packed6
as_bytes locator = if is_populated locator then locator.wire else locator_nogs

unfoldable pub from_bytes : List ℕ → Parsed
from_bytes bytes = uncompress (take 6 bytes)

unfoldable pub strerror : LocatorErr → List ℕ
strerror too_long = text "length exceeded"
strerror fmt_length = text "locator must be 2, 4, 6, or 8 characters"
strerror fmt_charset = text "locator uses invalid characters"
strerror fmt_field = text "locator has invalid field (first pair)"
strerror fmt_square = text "locator has invalid square (second pair)"
strerror fmt_subsquare = text "locator has invalid subsquare (third pair)"
strerror fmt_extsquare = text "locator has invalid extended square (fourth pair)"
