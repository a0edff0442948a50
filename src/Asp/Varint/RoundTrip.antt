-- ===== src/Asp/Varint/RoundTrip.antt =====
-- What is written is read back, whatever follows, and no part of it is taken for a number.
use native.Mathlib.Numerals.{towards_suc}
use native.Mathlib.Nat.{mul-le-mul_right}
use ardopb.Base.{
  ◌≢◌, le_or_lt, ℕ, zero, suc, ◌+◌, ◌-◌, ◌*◌, ◌/◌, ◌%◌, ◌^◌, ◌≤◌, ◌<◌, ◌≡◌, refl, ap, ◌∙◌, arith,
  bit_and, bit_or, ◌==◌, Bool, ◌&&◌, true, none, some, List, [], ◌∷◌, ◌++◌, length, take,
  if◌then◌else◌, every_below, every_below_at, inl, inr,
}
use ardopb.Base.Bits.{bit_and_mask}
use ardopb.Base.Words.{or_above}
use ardopb.Asp.Varint.{varint_max, group, put_loop, varint_put, get_loop, varint_get}

-- The bytes of a number.
unfoldable pub groups : ℕ → ℕ → List ℕ
groups zero v = []
groups (suc rounds) v =
    let rest = group v ∷ groups rounds (v / 2 ^ 7) in if v / 2 ^ 7 == 0 then group v ∷ [] else rest

next_shift : (i : ℕ) → 2 ^ (7 * suc i) ≡ 128 * 2 ^ (7 * i)
next_shift i = ap (λ (n : ℕ). 2 ^ n) (omega arith) ∙ shifted (7 * i)
  where
    shifted : (n : ℕ) → 2 ^ (n + 7) ≡ 128 * 2 ^ n
    shifted n = simp towards_suc (omega arith)

pub put_loop-groups :
    (rounds room v : ℕ)
    → v < 2 ^ (7 * rounds)
    → 0 < rounds
    → rounds ≤ room
    → put_loop rounds room v ≡ some (groups rounds v)
unfolding put_loop groups
put_loop-groups zero room v h p k = absurd (omega arith)
put_loop-groups (suc zero) room v h p k = ground (arith, h)
put_loop-groups (suc (suc rounds)) room v h p k =
    let rest =
      put_loop-groups (suc rounds) (room - 1) (v / 2 ^ 7) (omega (arith, next_shift (suc rounds)))
        (omega arith) (omega arith) in
    rw rest (ground arith)

group_last : (v : ℕ) → v < 2 ^ 7 → group v ≡ v
unfolding group
group_last v h = ground (arith, bit_and_mask 7 v)

group_more : (v : ℕ) → 2 ^ 7 ≤ v → group v ≡ v % 2 ^ 7 + 128
unfolding group
group_more v h = ground (arith, bit_and_mask 7 v, or_above 7 (v % 2 ^ 7) 1)

high_test : ℕ → Bool
high_test b = (bit_and b 128 == 0) && (bit_and (b + 128) 128 == 128)

high_bit : (b : ℕ) → b < 128 → high_test b ≡ true
unfolding high_test every_below
high_bit b h = every_below_at 128 high_test b refl h

small_shift : (i : ℕ) → i ≤ 3 → 2 ^ (7 * i) ≤ 2 ^ 21
small_shift zero h = omega arith
small_shift (suc zero) h = omega arith
small_shift (suc (suc zero)) h = omega arith
small_shift (suc (suc (suc zero))) h = omega arith
small_shift (suc (suc (suc (suc i)))) h = absurd (omega arith)

-- One round of the reader: the group `g` is added above what is there.
module _ (i acc g : ℕ) (h : i ≤ 3) (a : acc < 2 ^ (7 * i)) (k : g < 128) where
  group_fits : g * 2 ^ (7 * i) ≤ 127 * 2 ^ (7 * i)
  group_fits = mul-le-mul_right (2 ^ (7 * i)) (omega arith)

  taken_in : bit_or acc (g * 2 ^ (7 * i) % 2 ^ 32) ≡ acc + g * 2 ^ (7 * i)
  taken_in =
      ap (λ (t : ℕ). bit_or acc t) (omega (arith, group_fits, small_shift i h))
      ∙ or_above (7 * i) acc g a
      ∙ omega arith

  still_below : acc + g * 2 ^ (7 * i) < 2 ^ (7 * suc i)
  still_below = omega (arith, group_fits, next_shift i)

  read_last :
      (rounds : ℕ) (rest : List ℕ)
      → get_loop (suc rounds) i acc (g ∷ rest) ≡ some (acc + g * 2 ^ (7 * i), suc i)
  unfolding get_loop high_test
  read_last rounds rest = rw low rw taken_in (ground (arith, high_bit g k))
    where
      low : bit_and g 127 ≡ g
      low = omega (arith, bit_and_mask 7 g)

  read_more :
      (rounds : ℕ) (buf : List ℕ)
      → get_loop (suc rounds) i acc ((g + 128) ∷ buf)
        ≡ get_loop rounds (suc i) (acc + g * 2 ^ (7 * i)) buf
  unfolding get_loop high_test
  read_more rounds buf = rw low rw taken_in (ground (arith, high_bit g k))
    where
      low : bit_and (g + 128) 127 ≡ g
      low = omega (arith, bit_and_mask 7 (g + 128))

groups_last : (rounds v : ℕ) → v < 2 ^ 7 → groups (suc rounds) v ≡ v ∷ []
unfolding groups
groups_last rounds v h = ground (arith, group_last v h)

groups_more :
    (rounds v : ℕ)
    → 2 ^ 7 ≤ v
    → groups (suc rounds) v ≡ (v % 2 ^ 7 + 128) ∷ groups rounds (v / 2 ^ 7)
unfolding groups
groups_more rounds v h = ground (arith, group_more v h)

split_group : (v : ℕ) → v ≡ 128 * (v / 2 ^ 7) + v % 2 ^ 7
split_group v = omega arith

-- The number that the first bytes and those to come amount to.
pub get_loop-groups :
    (rounds i acc v : ℕ) (rest : List ℕ)
    → i + rounds ≤ 4
    → 0 < rounds
    → acc < 2 ^ (7 * i)
    → v < 2 ^ (7 * rounds)
    → get_loop rounds i acc (groups rounds v ++ rest)
      ≡ some (acc + v * 2 ^ (7 * i), i + length (groups rounds v))
get_loop-groups zero i acc v rest h p a b = absurd (omega arith)
get_loop-groups (suc zero) i acc v rest h p a b =
    rw (groups_last 0 v b, read_last i acc v (omega arith) a b 0 rest) (ground arith)
get_loop-groups (suc (suc rounds)) i acc v rest h p a b = elim (le_or_lt (2 ^ 7) v) [
  | inr small ↦
      rw
        (
          groups_last (suc rounds) v small,
          read_last i acc v (omega arith) a small (suc rounds) rest,
        )
        (ground arith)
  | inl big ↦
      rw
        (
          groups_more (suc rounds) v big,
          read_more i acc (v % 2 ^ 7) (omega arith) a (omega arith) (suc rounds)
              (groups (suc rounds) (v / 2 ^ 7) ++ rest),
        )
        (get_loop-groups (suc rounds) (suc i) (acc + v % 2 ^ 7 * 2 ^ (7 * i)) (v / 2 ^ 7) rest
            (omega arith) (omega arith)
            (still_below i acc (v % 2 ^ 7) (omega arith) a (omega arith))
            (omega (arith, next_shift (suc rounds)))
          ∙ cc (sum, count))
]
  where
    sum : acc + v % 2 ^ 7 * 2 ^ (7 * i) + v / 2 ^ 7 * 2 ^ (7 * suc i) ≡ acc + v * 2 ^ (7 * i)
    sum = omega (
      arith,
      ap (λ (t : ℕ). v / 2 ^ 7 * t) (next_shift i),
      ap (λ (t : ℕ). t * 2 ^ (7 * i)) (split_group v),
    )

    count :
        suc i + length (groups (suc rounds) (v / 2 ^ 7))
        ≡ i + suc (length (groups (suc rounds) (v / 2 ^ 7)))
    count = omega arith

skip_high :
    (rounds i acc g : ℕ) (buf : List ℕ)
    → g < 128
    → get_loop (suc rounds) i acc ((g + 128) ∷ buf)
      ≡ get_loop rounds (suc i) (bit_or acc (bit_and (g + 128) 127 * 2 ^ (7 * i) % 2 ^ 32)) buf
unfolding get_loop high_test
skip_high rounds i acc g buf k = ground (arith, high_bit g k)

-- A part of the bytes of a number is not taken for one.
pub get_loop-take :
    (rounds i acc v n : ℕ)
    → n < length (groups rounds v)
    → get_loop rounds i acc (take n (groups rounds v)) ≡ none
get_loop-take zero i acc v n h = unfold get_loop in refl
get_loop-take (suc rounds) i acc v zero h = unfold get_loop in refl
get_loop-take (suc rounds) i acc v (suc n) h = elim (le_or_lt (2 ^ 7) v) [
  | inr small ↦ absurd (omega (arith, ap (λ (xs : List ℕ). length xs) (groups_last rounds v small)))
  | inl big ↦ rw (groups_more rounds v big) (
      skip_high rounds i acc (v % 2 ^ 7) (take n (groups rounds (v / 2 ^ 7))) (omega arith)
      ∙ get_loop-take rounds (suc i) _ (v / 2 ^ 7) n
          (omega (arith, ap (λ (xs : List ℕ). length xs) (groups_more rounds v big))))
]

pub groups_bounds :
    (rounds v : ℕ) → (length (groups rounds v) ≤ rounds) × (length (groups (suc rounds) v) ≢ 0)
unfolding groups
groups_bounds zero v = ground arith
groups_bounds (suc rounds) v = ground (arith, groups_bounds rounds (v / 2 ^ 7))

module _ (v : ℕ) (h : v < 2 ^ 28) where
  -- A number of at most 28 bits is written in at most four bytes.
  pub varint_put_lem : (cap : ℕ) → 4 ≤ cap → varint_put cap v ≡ some (groups 4 v)
  unfolding varint_put
  varint_put_lem cap k = put_loop-groups 4 cap v h (omega arith) k

  pub varint_get-groups :
      (rest : List ℕ) → varint_get (groups 4 v ++ rest) ≡ some (v, length (groups 4 v))
  unfolding varint_get
  varint_get-groups rest =
      get_loop-groups 4 0 0 v rest (omega arith) (omega arith) (omega arith) h ∙ ground arith

pub varint_get-take : (v n : ℕ) → n < length (groups 4 v) → varint_get (take n (groups 4 v)) ≡ none
unfolding varint_get
varint_get-take v n h = get_loop-take 4 0 0 v n h

-- Bytes that follow change no verdict but that there are too few.
get_loop-append :
    (rounds i acc : ℕ) (buf rest : List ℕ) (r : ℕ × ℕ)
    → get_loop rounds i acc buf ≡ some r
    → get_loop rounds i acc (buf ++ rest) ≡ some r
unfolding get_loop
get_loop-append zero i acc buf rest r h = h
get_loop-append (suc rounds) i acc [] rest r h = absurd (cc h)
get_loop-append (suc rounds) i acc (b ∷ buf) rest r h = ground (
  arith,
  h,
  get_loop-append rounds (suc i) (bit_or acc (bit_and b 127 * 2 ^ (7 * i) % 2 ^ 32)) buf rest r,
)

get_loop-append_long :
    (rounds i acc : ℕ) (buf rest : List ℕ)
    → rounds ≤ length buf
    → get_loop rounds i acc (buf ++ rest) ≡ get_loop rounds i acc buf
unfolding get_loop
get_loop-append_long zero i acc buf rest h = refl
get_loop-append_long (suc rounds) i acc [] rest h = absurd (omega arith)
get_loop-append_long (suc rounds) i acc (b ∷ buf) rest h =
    rw (get_loop-append_long rounds (suc i) _ buf rest (omega arith)) refl

pub varint_get-append :
    (buf rest : List ℕ) (r : ℕ × ℕ) → varint_get buf ≡ some r → varint_get (buf ++ rest) ≡ some r
unfolding varint_get
varint_get-append buf rest r h = get_loop-append 4 0 0 buf rest r h

pub varint_get-append_long :
    (buf rest : List ℕ) → varint_max ≤ length buf → varint_get (buf ++ rest) ≡ varint_get buf
unfolding varint_get
varint_get-append_long buf rest h = get_loop-append_long 4 0 0 buf rest h
