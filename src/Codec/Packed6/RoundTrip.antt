-- ===== src/Codec/Packed6/RoundTrip.antt =====
-- Packing and unpacking undo one another.
use ardopb.Base.{ℕ, suc, ◌+◌, ◌*◌, ◌/◌, ◌%◌, ◌^◌, ◌<◌, bit_and, bit_or, Bool, true}
use ardopb.Base.{◌≢◌, ◌≡◌, refl, ap, arith, List, [], ◌∷◌}
use ardopb.Base.Bits.{bit_or_fields, bit_and_mask}
use ardopb.Codec.Packed6

-- Six bytes.
abbrev pub IsPacked : List ℕ → Type 0
IsPacked (a ∷ b ∷ c ∷ d ∷ e ∷ f ∷ []) =
    (a < 256) × (b < 256) × (c < 256) × (d < 256) × (e < 256) × (f < 256)
IsPacked other = ⊥

module _ (c : ℕ) (small : c < 64) where
  fold_case-alphabet : Packed6.fold_case (c + 32) ≡ c + 32
  unfolding Packed6.fold_case
  fold_case-alphabet = ground arith

  in_alphabet-alphabet : Packed6.in_alphabet (c + 32) ≡ true
  unfolding Packed6.in_alphabet
  in_alphabet-alphabet = ground arith

  char_code-alphabet : bit_and (Packed6.char_code (c + 32)) 0x3F ≡ c
  unfolding Packed6.char_code Packed6.in_alphabet
  char_code-alphabet = ground (arith, bit_and_mask 6 c)

  -- One round of the packing loop at a character of the alphabet.
  pack_loop-cons :
      (cs : List ℕ) (ok : Bool) (pack : ℕ)
      → pack < 2 ^ 26
      → Packed6.pack_loop ((c + 32) ∷ cs) ok pack ≡ Packed6.pack_loop cs ok (pack * 64 + c)
  unfolding Packed6.pack_loop
  pack_loop-cons cs ok pack h =
      rw (fold_case-alphabet, in_alphabet-alphabet, char_code-alphabet)
        (ap (λ n. Packed6.pack_loop cs ok n) (ground (arith, bit_or_fields 6 pack c small)))

word_of_bytes :
    (a b c : ℕ)
    → a < 256
    → b < 256
    → c < 256
    → bit_or (bit_or (a * 2 ^ 16) (b * 2 ^ 8)) c ≡ a * 65536 + b * 256 + c
word_of_bytes a b c ha hb hc = ground (
  arith,
  bit_or_fields 16 a (b * 256) (omega arith),
  bit_or_fields 8 (a * 256 + b) c (omega arith),
)

unpack_nil : (word : ℕ) → Packed6.unpack_loop 0 word ≡ []
unfolding Packed6.unpack_loop
unpack_nil word = refl

unpack_round :
    (left word : ℕ)
    → Packed6.unpack_loop (suc left) word
      ≡ (word / 2 ^ (6 * left) % 64 + 32) ∷ Packed6.unpack_loop left word
unfolding Packed6.unpack_loop
unpack_round left word = ground (arith, bit_and_mask 6 (word / 2 ^ (6 * left)))

module _ (c d e f : ℕ) (hc : c < 64) (hd : d < 64) (he : e < 64) (hf : f < 64) where
  pack_loop-codes :
      Packed6.pack_loop ((c + 32) ∷ (d + 32) ∷ (e + 32) ∷ (f + 32) ∷ []) true 0
      ≡ (true, ((c * 64 + d) * 64 + e) * 64 + f)
  pack_loop-codes =
      rw
        (
          pack_loop-cons c hc _ true 0 (omega arith),
          pack_loop-cons d hd _ true (0 * 64 + c) (omega arith),
          pack_loop-cons e he _ true ((0 * 64 + c) * 64 + d) (omega arith),
          pack_loop-cons f hf _ true (((0 * 64 + c) * 64 + d) * 64 + e) (omega arith),
        )
        (unfold Packed6.pack_loop in ground arith)

  -- Four codes packed into three bytes.
  pub compress_codes :
      Packed6.compress_four_to_three ((c + 32) ∷ (d + 32) ∷ (e + 32) ∷ (f + 32) ∷ [])
      ≡ (true, (c * 4 + d / 16) ∷ (d % 16 * 16 + e / 4) ∷ (e % 4 * 64 + f) ∷ [])
  unfolding Packed6.compress_four_to_three
  compress_codes = ground (
    arith,
    pack_loop-codes,
    bit_and_mask 8 ((((c * 64 + d) * 64 + e) * 64 + f) / 65536),
    bit_and_mask 8 ((((c * 64 + d) * 64 + e) * 64 + f) / 256),
    bit_and_mask 8 (((c * 64 + d) * 64 + e) * 64 + f),
  )

module _ (a b c : ℕ) (ha : a < 256) (hb : b < 256) (hc : c < 256) where
  pub unpack_word :
      Packed6.decompress_three_to_four a b c
      ≡ (a / 4 + 32) ∷ (a % 4 * 16 + b / 16 + 32) ∷ (b % 16 * 4 + c / 64 + 32) ∷ (c % 64 + 32) ∷ []
  unfolding Packed6.decompress_three_to_four
  unpack_word = ground (
    arith,
    word_of_bytes a b c ha hb hc,
    unpack_round 3 (a * 65536 + b * 256 + c),
    unpack_round 2 (a * 65536 + b * 256 + c),
    unpack_round 1 (a * 65536 + b * 256 + c),
    unpack_round 0 (a * 65536 + b * 256 + c),
    unpack_nil (a * 65536 + b * 256 + c),
  )

  -- Three bytes come back from their four characters.
  repack :
      Packed6.compress_four_to_three (
        (a / 4 + 32) ∷ (a % 4 * 16 + b / 16 + 32) ∷ (b % 16 * 4 + c / 64 + 32) ∷ (c % 64 + 32) ∷ [])
      ≡ (true, a ∷ b ∷ c ∷ [])
  repack = ground (
    arith,
    compress_codes (a / 4) (a % 4 * 16 + b / 16) (b % 16 * 4 + c / 64) (c % 64) (omega arith)
        (omega arith) (omega arith) (omega arith),
  )

pub work_field-cons :
    (room len c : ℕ) (str : List ℕ)
    → c ≢ 0
    → Packed6.work_field (suc room) (suc len) (c ∷ str) ≡ c ∷ Packed6.work_field room len str
unfolding Packed6.work_field
work_field-cons room len c str h = ground arith

-- The eight characters of two groups of four fill the work field.
work_field-full :
    (x y z w x' y' z' w' : ℕ)
    → Packed6.work_field 8 8 (
        (x + 32)
        ∷ (y + 32)
        ∷ (z + 32)
        ∷ (w + 32)
        ∷ (x' + 32)
        ∷ (y' + 32)
        ∷ (z' + 32)
        ∷ (w' + 32)
        ∷ [])
      ≡ (x + 32)
        ∷ (y + 32)
        ∷ (z + 32)
        ∷ (w + 32)
        ∷ (x' + 32)
        ∷ (y' + 32)
        ∷ (z' + 32)
        ∷ (w' + 32)
        ∷ []
work_field-full x y z w x' y' z' w' =
    rw
      (
        work_field-cons 7 7 (x + 32) _ (omega arith),
        work_field-cons 6 6 (y + 32) _ (omega arith),
        work_field-cons 5 5 (z + 32) _ (omega arith),
        work_field-cons 4 4 (w + 32) _ (omega arith),
        work_field-cons 3 3 (x' + 32) _ (omega arith),
        work_field-cons 2 2 (y' + 32) _ (omega arith),
        work_field-cons 1 1 (z' + 32) _ (omega arith),
        work_field-cons 0 0 (w' + 32) _ (omega arith),
      )
      (unfold Packed6.work_field in refl)

-- Any six bytes, unpacked to text and packed again, come back, and packing reports success.
pub from_str_slice-to_fixed_str :
    (a b c d e f : ℕ)
    → a < 256
    → b < 256
    → c < 256
    → d < 256
    → e < 256
    → f < 256
    → let p = a ∷ b ∷ c ∷ d ∷ e ∷ f ∷ [] in
      Packed6.from_str_slice (Packed6.to_fixed_str p) 8 ≡ (true, p)
unfolding Packed6.from_str_slice Packed6.to_fixed_str
from_str_slice-to_fixed_str a b c d e f ha hb hc hd he hf =
    rw (unpack_word a b c ha hb hc, unpack_word d e f hd he hf, work_field-full)
      (rw (repack a b c ha hb hc, repack d e f hd he hf))
