-- ===== src/Codec/Rs.antt =====
-- core/codec/rs.c: the encoding half of the Reed-Solomon code over GF(2^8). The struct's arrays are
-- lists; the index -1 of zero in `index_of` is `none`.
use ardopb.Base.{ℕ, zero, suc, ◌+◌, ◌-◌, ◌*◌, ◌%◌, ◌^◌, bit_xor, Bool, true, ◌&&◌}
use ardopb.Base.{Option, none, some, List, [], ◌∷◌, ◌++◌, ltb, leb, ◌==◌, if◌then◌else◌}
use ardopb.Base.{length, get_or, set, replicate, u8, map, ◌≡◌, refl, ap, ◌∙◌}
use mathlib.Core.List.{reverse}

-- The codeword length, the largest parity length and the most parity lengths.
abbrev pub nn : ℕ
nn = 255

abbrev pub max_rslen : ℕ
max_rslen = 64

abbrev pub max_count : ℕ
max_count = 10

abbrev mm : ℕ
mm = 8

-- `gg` holds, beside each parity length of `rslen_set`, its generator polynomial in index form.
pub record Rs : Type 0 where
  pub alpha_to : List ℕ
  pub index_of : List (Option ℕ)
  pub gg : List (ℕ × List (Option ℕ))

-- The generator polynomial of a parity length.
unfoldable pub rs_gg : List (ℕ × List (Option ℕ)) → ℕ → Option (List (Option ℕ))
rs_gg [] rslen = none
rs_gg ((len, g) ∷ rest) rslen = if len == rslen then some g else rs_gg rest rslen

-- The coefficients of the primitive polynomial, 1 + x^2 + x^3 + x^4 + x^8, below x^8.
abbrev pp : List ℕ
pp = 1 ∷ 0 ∷ 1 ∷ 1 ∷ 1 ∷ 0 ∷ 0 ∷ 0 ∷ []

-- alpha^8: the sum of the powers of two that `pp` selects.
alpha_mm : List ℕ → ℕ → ℕ → ℕ
alpha_mm [] mask acc = acc
alpha_mm (p ∷ ps) mask acc = alpha_mm ps (mask * 2) (if p == 0 then acc else bit_xor acc mask)

-- The next power of alpha.
next_alpha : ℕ → ℕ
unfolding alpha_mm
next_alpha a =
    if leb (2 ^ (mm - 1)) a then bit_xor (alpha_mm pp 1 0) (bit_xor a (2 ^ (mm - 1)) * 2) else a * 2

-- The first `n` powers from `a` on. Below alpha^8 these are the powers of two.
powers : ℕ → ℕ → List ℕ
powers zero a = []
powers (suc n) a = a ∷ powers n (next_alpha a)

-- `index_of[alpha_to[i]] = i`, for `i` from the given one on.
index_loop : ℕ → List ℕ → List (Option ℕ) → List (Option ℕ)
index_loop i [] index_of = index_of
index_loop i (a ∷ as') index_of = index_loop (i + 1) as' (set index_of a (some i))

unfoldable pub alpha_table : List ℕ
unfolding powers next_alpha
alpha_table = powers nn 1

unfoldable pub index_table : List (Option ℕ)
unfolding index_loop alpha_table
index_table = index_loop 0 alpha_table (replicate (nn + 1) none)

-- `alpha_to[(k + i) % NN]` where the index `k` is there, and zero for the index -1.
unfoldable pub antilog : List ℕ → Option ℕ → ℕ → ℕ
antilog alpha_to none i = 0
antilog alpha_to (some k) i = get_or alpha_to ((k + i) % nn) 0

unfoldable pub log : List (Option ℕ) → ℕ → Option ℕ
log index_of x = get_or index_of x none

-- The product of a polynomial, lowest coefficient first, and (X + alpha^i). `prev` is the old
-- coefficient below; the source's loop goes down, so that it too reads the old ones.
unfoldable pub times_root : List ℕ → List (Option ℕ) → ℕ → ℕ → List ℕ → List ℕ
times_root alpha_to index_of i prev [] = prev ∷ []
times_root alpha_to index_of i prev (g ∷ gs) =
    bit_xor prev (antilog alpha_to (log index_of g) i) ∷ times_root alpha_to index_of i g gs

-- The rounds of the product, with `left` to go, from the factor of alpha^i on.
unfoldable pub poly_loop : List ℕ → List (Option ℕ) → ℕ → ℕ → List ℕ → List ℕ
poly_loop alpha_to index_of zero i g = g
poly_loop alpha_to index_of (suc left) i g =
    poly_loop alpha_to index_of left (i + 1) (times_root alpha_to index_of i 0 g)

-- The generator polynomial for a parity length, from X + alpha on, in index form.
unfoldable pub generator : List ℕ → List (Option ℕ) → ℕ → List (Option ℕ)
generator alpha_to index_of rslen =
    map (log index_of) (poly_loop alpha_to index_of (rslen - 1) 2 (2 ∷ 1 ∷ []))

unfoldable pub lengths_fit : List ℕ → Bool
lengths_fit [] = true
lengths_fit (len ∷ rest) = leb len max_rslen && lengths_fit rest

-- `none` for the result false.
unfoldable pub init : List ℕ → Option Rs
init rslens =
    let alpha_to = alpha_table in
    let index_of = index_table in
    if leb (length rslens) max_count && lengths_fit rslens
    then some (record {
      alpha_to = alpha_to;
      index_of = index_of;
      gg = map (λ len. (len, generator alpha_to index_of len)) rslens;
    })
    else none

-- One round of the shift register: each cell takes the one below and its tap of the feedback.
unfoldable pub shift_register : List ℕ → Option ℕ → ℕ → List ℕ → List (Option ℕ) → List ℕ
shift_register alpha_to none prev [] gs = []
shift_register alpha_to none prev (b ∷ bs) gs = prev ∷ shift_register alpha_to none b bs gs
shift_register alpha_to (some feedback) prev [] gs = []
shift_register alpha_to (some feedback) prev (b ∷ bs) [] =
    prev ∷ shift_register alpha_to (some feedback) b bs []
shift_register alpha_to (some feedback) prev (b ∷ bs) (g ∷ gs) =
    bit_xor prev (antilog alpha_to g feedback) ∷ shift_register alpha_to (some feedback) b bs gs

-- The loop over the message symbols, the last one first.
unfoldable pub encode_loop : Rs → List (Option ℕ) → ℕ → List ℕ → List ℕ → List ℕ
encode_loop rs g rslen [] bb = bb
encode_loop rs g rslen (d ∷ ds) bb =
    let feedback = log rs.index_of (bit_xor d (get_or bb (rslen - 1) 0)) in
    encode_loop rs g rslen ds (shift_register rs.alpha_to feedback 0 bb g)

-- The parity symbols of the message symbols.
unfoldable pub encode_rs : Rs → List (Option ℕ) → List ℕ → ℕ → List ℕ
encode_rs rs g message rslen = encode_loop rs g rslen (reverse message) (replicate rslen 0)

-- The buffer of `datalen + rslen` bytes after the call, `none` for the result -1.
unfoldable pub append : Rs → List ℕ → ℕ → Option (List ℕ)
append rs bytes rslen = elim (rs_gg rs.gg rslen) [
  | none ↦ none
  | some g ↦
      let padded = replicate (nn - rslen - length bytes) 0 ++ bytes in
      if ltb nn (length bytes + rslen)
      then none
      else some (bytes ++ map u8 (encode_rs rs g padded rslen))
]

pub length-shift_register :
    (alpha_to : List ℕ) (feedback : Option ℕ) (prev : ℕ) (bb : List ℕ) (gs : List (Option ℕ))
    → length (shift_register alpha_to feedback prev bb gs) ≡ length bb
unfolding shift_register
length-shift_register alpha_to none prev [] gs = refl
length-shift_register alpha_to none prev (b ∷ bs) gs =
    ap suc (length-shift_register alpha_to none b bs gs)
length-shift_register alpha_to (some feedback) prev [] gs = refl
length-shift_register alpha_to (some feedback) prev (b ∷ bs) [] =
    ap suc (length-shift_register alpha_to (some feedback) b bs [])
length-shift_register alpha_to (some feedback) prev (b ∷ bs) (g ∷ gs) =
    ap suc (length-shift_register alpha_to (some feedback) b bs gs)

pub length-encode_loop :
    (rs : Rs) (g : List (Option ℕ)) (rslen : ℕ) (ds bb : List ℕ)
    → length (encode_loop rs g rslen ds bb) ≡ length bb
unfolding encode_loop
length-encode_loop rs g rslen [] bb = refl
length-encode_loop rs g rslen (d ∷ ds) bb =
    length-encode_loop rs g rslen ds (shift_register rs.alpha_to _ 0 bb g)
    ∙ length-shift_register rs.alpha_to (log rs.index_of (bit_xor d (get_or bb (rslen - 1) 0))) 0 bb
        g
