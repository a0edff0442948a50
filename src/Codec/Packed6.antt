-- ===== src/Codec/Packed6.antt =====
-- core/codec/packed6.c: eight characters of a 64-symbol alphabet in six bytes. A `char` array is
-- the list of its characters as unsigned bytes; the struct is the list of its six bytes.
pub mod RoundTrip
pub mod Unpacking
use ardopb.Base.{ℕ, zero, suc, ◌+◌, ◌-◌, ◌*◌, ◌/◌, ◌%◌, ◌^◌, bit_and, bit_or, Bool, true, false}
use ardopb.Base.{◌&&◌, Option, none, some, List, [], ◌∷◌, ◌++◌, ltb, leb, ◌==◌, if◌then◌else◌}
use ardopb.Base.{u8, take, drop, replicate, length}

abbrev pub packed6_size : ℕ
packed6_size = 6

abbrev pub packed6_max : ℕ
packed6_max = 8

abbrev pub Packed6 : Type 0
Packed6 = List ℕ

abbrev alphabet_low : ℕ
alphabet_low = b' '

abbrev alphabet_high : ℕ
alphabet_high = b'_'

abbrev six_bits : ℕ
six_bits = 0x3F

-- Lowercase letters fold to uppercase.
unfoldable pub fold_case : ℕ → ℕ
fold_case c = if leb b'a' c && leb c b'z' then u8 (c - (b'a' - b'A')) else c

-- Whether a character has a code.
unfoldable pub in_alphabet : ℕ → Bool
in_alphabet c = leb alphabet_low c && leb c alphabet_high

-- The code of a character; a space where it has none.
unfoldable pub char_code : ℕ → ℕ
char_code c = if in_alphabet c then u8 (c - alphabet_low) else 0

-- The loop over the characters: whether all were in the alphabet, and the codes so far.
unfoldable pub pack_loop : List ℕ → Bool → ℕ → Bool × ℕ
pack_loop [] ok pack = (ok, pack)
pack_loop (c ∷ cs) ok pack =
    pack_loop cs (in_alphabet (fold_case c) && ok)
      (bit_or (pack * 2 ^ 6 % 2 ^ 32) (bit_and (char_code (fold_case c)) six_bits))

unfoldable pub compress_four_to_three : List ℕ → Bool × List ℕ
compress_four_to_three chars =
    let (ok, pack) = pack_loop chars true 0 in
    (ok, bit_and (pack / 2 ^ 16) 0xFF ∷ bit_and (pack / 2 ^ 8) 0xFF ∷ bit_and pack 0xFF ∷ [])

-- The loop over the four codes, with `left` to go.
unfoldable pub unpack_loop : ℕ → ℕ → List ℕ
unpack_loop zero word = []
unpack_loop (suc left) word =
    (u8 (bit_and (word / 2 ^ (6 * left)) six_bits) + alphabet_low) ∷ unpack_loop left word

unfoldable pub decompress_three_to_four : ℕ → ℕ → ℕ → List ℕ
decompress_three_to_four a b c = unpack_loop 4 (bit_or (bit_or (a * 2 ^ 16) (b * 2 ^ 8)) c)

-- The eight characters of the work field: the slice up to its end or a NUL, then spaces.
unfoldable pub work_field : ℕ → ℕ → List ℕ → List ℕ
work_field zero len str = []
work_field (suc room) zero str = b' ' ∷ work_field room zero str
work_field (suc room) (suc len) [] = b' ' ∷ work_field room zero []
work_field (suc room) (suc len) (c ∷ str) =
    let stop = b' ' ∷ work_field room zero str in
    let more = c ∷ work_field room len str in if c == 0 then stop else more

-- Whether every character was representable and the slice fit, and the bytes.
unfoldable pub from_str_slice : List ℕ → ℕ → Bool × Packed6
from_str_slice str len =
    let fits = leb len packed6_max in
    let work = work_field packed6_max (if fits then len else packed6_max) str in
    let (ok_low, low) = compress_four_to_three (take 4 work) in
    let (ok_high, high) = compress_four_to_three (drop 4 work) in
    (fits && ok_low && ok_high, low ++ high)

-- The length scan of `from_str`: up to a NUL, the end of the text, or `packed6_max + 1`.
unfoldable pub bounded_length : ℕ → List ℕ → ℕ
bounded_length zero str = 0
bounded_length (suc room) [] = 0
bounded_length (suc room) (c ∷ str) =
    let rest = suc (bounded_length room str) in if c == 0 then 0 else rest

unfoldable pub from_str : List ℕ → Bool × Packed6
from_str str = from_str_slice str (bounded_length (packed6_max + 1) str)

-- The eight characters; the source adds a NUL.
unfoldable pub to_fixed_str : Packed6 → List ℕ
to_fixed_str (a ∷ b ∷ c ∷ d ∷ e ∷ f ∷ []) =
    decompress_three_to_four a b c ++ decompress_three_to_four d e f
to_fixed_str other = []

-- `none` is the result false; the buffer needs room for the NUL.
unfoldable pub to_str : Packed6 → ℕ → Option (List ℕ)
to_str packed outsize = if ltb outsize (packed6_max + 1) then none else some (to_fixed_str packed)
