-- ===== src/Codec/Packed6/Unpacking.antt =====
-- core/codec/packed6.c: what was packed from eight characters is unpacked as these, in upper case.
use ardopb.Base.{
  ℕ, ◌+◌, ◌-◌, ◌*◌, ◌/◌, ◌%◌, ◌<◌, ◌≡◌, ◌≢◌, refl, sym, ◌∙◌, arith, length, Bool, true, ◌&&◌, List,
  [], ◌∷◌, map,
}
use ardopb.Codec.Packed6
use ardopb.Codec.Packed6.RoundTrip.{compress_codes, unpack_word, work_field-cons}

fold_case-twice : (c : ℕ) → Packed6.fold_case (Packed6.fold_case c) ≡ Packed6.fold_case c
unfolding Packed6.fold_case
fold_case-twice c = ground arith

-- Only the folded characters matter to the loop.
pack_loop-fold_case :
    (cs : List ℕ) (ok : Bool) (pack : ℕ)
    → Packed6.pack_loop (map Packed6.fold_case cs) ok pack ≡ Packed6.pack_loop cs ok pack
unfolding Packed6.pack_loop
pack_loop-fold_case [] ok pack = refl
pack_loop-fold_case (c ∷ cs) ok pack =
    rw (Packed6.pack_loop, fold_case-twice c) (pack_loop-fold_case cs _ _)

abbrev pub IsWritable : ℕ → Type 0
IsWritable c = Packed6.in_alphabet (Packed6.fold_case c) ≡ true

abbrev pub AllWritable : List ℕ → Type 0
AllWritable [] = Unit
AllWritable (c ∷ cs) = IsWritable c × AllWritable cs

-- The loop reports success when every character has a code.
pack_loop-AllWritable :
    (cs : List ℕ) (ok : Bool) (pack : ℕ)
    → (Packed6.pack_loop cs ok pack).0 ≡ true
    → (ok ≡ true) × AllWritable cs
unfolding Packed6.pack_loop
pack_loop-AllWritable [] ok pack h = (h, tt)
pack_loop-AllWritable (c ∷ cs) ok pack h =
    let rest = pack_loop-AllWritable cs _ _ h in
    (ground (arith, rest.0), (ground (arith, rest.0), rest.1))

code_of : (c : ℕ) → IsWritable c → (y : ℕ) × (y < 64) × (Packed6.fold_case c ≡ y + 32)
unfolding Packed6.in_alphabet
code_of c h = (Packed6.fold_case c - 32, ground (arith, h), ground (arith, h))

compress-fold_case :
    (cs : List ℕ)
    → Packed6.compress_four_to_three cs ≡ Packed6.compress_four_to_three (map Packed6.fold_case cs)
unfolding Packed6.compress_four_to_three
compress-fold_case cs = rw (pack_loop-fold_case cs true 0) refl

-- Four codes, packed and unpacked.
unpacked_codes :
    (c d e f : ℕ)
    → c < 64
    → d < 64
    → e < 64
    → f < 64
    → Packed6.decompress_three_to_four (c * 4 + d / 16) (d % 16 * 16 + e / 4) (e % 4 * 64 + f)
      ≡ (c + 32) ∷ (d + 32) ∷ (e + 32) ∷ (f + 32) ∷ []
unpacked_codes c d e f hc hd he hf =
    rw
      (unpack_word (c * 4 + d / 16) (d % 16 * 16 + e / 4) (e % 4 * 64 + f) (omega arith)
        (omega arith) (omega arith))
      (ground arith)

-- Four characters, packed into three bytes, and what these are unpacked as.
four_back :
    (a b c d : ℕ)
    → IsWritable a
    → IsWritable b
    → IsWritable c
    → IsWritable d
    → (x : ℕ) × (y : ℕ) × (z : ℕ) × (Packed6.compress_four_to_three (a ∷ b ∷ c ∷ d ∷ [])
        ≡ (true, x ∷ y ∷ z ∷ []))
      × (Packed6.decompress_three_to_four x y z ≡ map Packed6.fold_case (a ∷ b ∷ c ∷ d ∷ []))
four_back a b c d ha hb hc hd =
    let (u, lu, eu) = code_of a ha in
    let (v, lv, ev) = code_of b hb in
    let (w, lw, ew) = code_of c hc in
    let (t, lt, et) = code_of d hd in
    let folded : map Packed6.fold_case (a ∷ b ∷ c ∷ d ∷ [])
        ≡ (u + 32) ∷ (v + 32) ∷ (w + 32) ∷ (t + 32) ∷ [] =
      rw (eu, ev, ew, et) refl in
    let packed = compress_codes u v w t lu lv lw lt in
    (
      u * 4 + v / 16,
      v % 16 * 16 + w / 4,
      w % 4 * 64 + t,
      compress-fold_case (a ∷ b ∷ c ∷ d ∷ []) ∙ rw folded packed,
      unpacked_codes u v w t lu lv lw lt ∙ sym folded,
    )

-- The characters are not NUL.
abbrev pub NoNul : List ℕ → Type 0
NoNul [] = Unit
NoNul (c ∷ cs) = (c ≢ 0) × NoNul cs

compress-AllWritable : (cs : List ℕ) → (Packed6.compress_four_to_three cs).0 ≡ true → AllWritable cs
unfolding Packed6.compress_four_to_three
compress-AllWritable cs h = (pack_loop-AllWritable cs true 0 h).1

module _ (a b c d e f g h : ℕ) where
  abbrev eight : List ℕ
  eight = a ∷ b ∷ c ∷ d ∷ e ∷ f ∷ g ∷ h ∷ []

  work_field-eight : NoNul eight → Packed6.work_field 8 8 eight ≡ eight
  work_field-eight n =
      rw
        (
          work_field-cons 7 7 a _ n.0,
          work_field-cons 6 6 b _ (n.1).0,
          work_field-cons 5 5 c _ ((n.1).1).0,
          work_field-cons 4 4 d _ (((n.1).1).1).0,
          work_field-cons 3 3 e _ ((((n.1).1).1).1).0,
          work_field-cons 2 2 f _ (((((n.1).1).1).1).1).0,
          work_field-cons 1 1 g _ ((((((n.1).1).1).1).1).1).0,
          work_field-cons 0 0 h _ (((((((n.1).1).1).1).1).1).1).0,
        )
        (unfold Packed6.work_field in refl)

  eight_back :
      NoNul eight
      → (Packed6.from_str_slice eight 8).0 ≡ true
      → Packed6.to_fixed_str (Packed6.from_str_slice eight 8).1 ≡ map Packed6.fold_case eight
  unfolding Packed6.from_str_slice Packed6.to_fixed_str
  eight_back n ok =
      let full = work_field-eight n in
      let both : (Packed6.compress_four_to_three (a ∷ b ∷ c ∷ d ∷ [])).0
            && (Packed6.compress_four_to_three (e ∷ f ∷ g ∷ h ∷ [])).0
          ≡ true =
        rw full at ok in
      let low : AllWritable (a ∷ b ∷ c ∷ d ∷ []) =
        compress-AllWritable (a ∷ b ∷ c ∷ d ∷ []) (ground (arith, both)) in
      let high : AllWritable (e ∷ f ∷ g ∷ h ∷ []) =
        compress-AllWritable (e ∷ f ∷ g ∷ h ∷ []) (ground (arith, both)) in
      let (x, y, z, packed, back) =
        four_back a b c d low.0 (low.1).0 ((low.1).1).0 (((low.1).1).1).0 in
      let (x', y', z', packed', back') =
        four_back e f g h high.0 (high.1).0 ((high.1).1).0 (((high.1).1).1).0 in
      rw (full, packed, packed') (rw (back, back') refl)

-- Eight characters that were packed with success come back, in upper case.
pub to_fixed_str-from_str_slice :
    (str : List ℕ)
    → length str ≡ 8
    → NoNul str
    → (Packed6.from_str_slice str 8).0 ≡ true
    → Packed6.to_fixed_str (Packed6.from_str_slice str 8).1 ≡ map Packed6.fold_case str
to_fixed_str-from_str_slice (a ∷ b ∷ c ∷ d ∷ e ∷ f ∷ g ∷ h ∷ []) len n ok =
    eight_back a b c d e f g h n ok
to_fixed_str-from_str_slice other len n ok = absurd (omega (arith, len))
