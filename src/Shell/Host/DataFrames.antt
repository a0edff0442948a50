-- ===== src/Shell/Host/DataFrames.antt =====
-- shell/host.c: the framing of the data channel. The model's `tag` is the three characters that are copied.
use ardopb.Base.{
  ℕ, ◌+◌, ◌*◌, ◌/◌, ◌^◌, ◌≤◌, ◌<◌, ◌≡◌, arith, bit_or, bit_and, u8, Option, none, some, List, [],
  ◌∷◌, ◌++◌, length, take, drop, ltb, if◌then◌else◌, length-append, take-append_first, get_or, ap,
  ◌∙◌, take_all, sym,
}
use ardopb.Base.Bits.{bit_or_comm}
use ardopb.Base.Words.{get_u16, put_u16, get_u16-put_u16}

abbrev pub tag_len : ℕ
tag_len = 3

-- The bytes written, `none` where they do not fit.
unfoldable pub data_frame : ℕ → List ℕ → List ℕ → Option (List ℕ)
data_frame cap tag bytes =
    let tagged = tag_len + length bytes in
    if ltb cap (2 + tag_len + length bytes)
    then none
    else some (u8 (tagged / 2 ^ 8) ∷ u8 (bit_and tagged 255) ∷ (take tag_len tag ++ bytes))

-- The payload with its tag, and how many bytes it took; `none` until all of it is there.
unfoldable pub data_parse : List ℕ → Option (List ℕ × ℕ)
data_parse buf =
    let len = bit_or (get_or buf 0 0 * 2 ^ 8) (get_or buf 1 0) in
    if ltb (length buf) 2
    then none
    else if ltb (length buf) (2 + len)
    then none
    else some (take len (drop 2 buf), 2 + len)

-- The two bytes of a length that fits them.
length_field : (n : ℕ) → n < 2 ^ 16 → bit_or (u8 (n / 2 ^ 8) * 2 ^ 8) (u8 (bit_and n 255)) ≡ n
unfolding get_u16 put_u16
length_field n h =
    bit_or_comm (u8 (n / 2 ^ 8) * 2 ^ 8) (u8 (bit_and n 255)) ∙ get_u16-put_u16 n [] h

take-exactly : (n : ℕ) (xs ys : List ℕ) → length xs ≡ n → take n (xs ++ ys) ≡ xs
take-exactly n xs ys h = rw (sym h) (take-append_first xs ys)

-- A body that is as long as the length says.
parse_body :
    (n hi lo : ℕ) (body rest : List ℕ)
    → length body ≡ n
    → bit_or (hi * 2 ^ 8) lo ≡ n
    → data_parse (hi ∷ lo ∷ (body ++ rest)) ≡ some (body, 2 + n)
unfolding data_parse
parse_body n hi lo body rest l e =
    rw e rw (take-exactly n body rest l) (ground (arith, length-append body rest))

-- A payload whose length fits its field, with a tag of three characters and room for both, is framed, and the
-- reader takes that frame off the front of whatever follows.
pub data_parse-data_frame :
    (cap : ℕ) (tag bytes rest : List ℕ)
    → length tag ≡ 3
    → 5 + length bytes ≤ cap
    → 3 + length bytes < 2 ^ 16
    → (frame : List ℕ) × (data_frame cap tag bytes ≡ some frame)
      × (data_parse (frame ++ rest) ≡ some (tag ++ bytes, length frame))
unfolding data_frame
data_parse-data_frame cap tag bytes rest t fits short =
    let n = 3 + length bytes in
    let hi = u8 (n / 2 ^ 8) in
    let lo = u8 (bit_and n 255) in
    let whole = length-append tag bytes in
    let size : length (tag ++ bytes) ≡ n = omega (arith, whole) in
    let parsed = parse_body n hi lo (tag ++ bytes) rest size (length_field n short) in
    (
      hi ∷ lo ∷ (tag ++ bytes),
      rw (take_all 3 tag (omega arith)) (ground arith),
      parsed ∙ ap (λ (k : ℕ). some (tag ++ bytes, k)) (omega (arith, size)),
    )
