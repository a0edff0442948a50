-- ===== src/Asp/Payloads/Texts.antt =====
-- The parts of a payload: texts behind their length, and words.
use mathlib.Core.List.{append-nil}
use ardopb.Base.{
  ℕ, ◌+◌, ◌≤◌, ◌<◌, ◌≡◌, ◌≢◌, refl, ap, sym, ◌∙◌, arith, min, some, List, [], ◌∷◌, ◌++◌, length,
  drop, length-append, take_all, take-append_first, drop-append_first,
}
use ardopb.Base.Words.{put_u16, put_u32}
use ardopb.Codec.StationId.{until_nul}
use ardopb.Asp.Payloads.{put_str, get_str}

-- A text of at most so many characters.
abbrev pub NoNul : List ℕ → Type 0
NoNul [] = Unit {0}
NoNul (c ∷ cs) = (c ≢ 0) × NoNul cs

abbrev pub IsText : ℕ → List ℕ → Type 0
IsText max s = (length s ≤ max) × NoNul s

until_nul_text : (s : List ℕ) → NoNul s → until_nul s ≡ s
unfolding until_nul
until_nul_text [] h = refl
until_nul_text (c ∷ cs) h = ground (arith, h, until_nul_text cs h.1)

pub put_str_text :
    (room max : ℕ) (s : List ℕ)
    → IsText max s
    → max < 256
    → 1 + length s ≤ room
    → put_str room s max ≡ some (length s ∷ s)
unfolding put_str
put_str_text room max s h k m = rw e rw (take_all (length s) s (omega arith)) (ground (arith, h.0))
  where
    e : min (length s) max ≡ length s
    e = omega (arith, h.0)

pub get_str_text :
    (cap max : ℕ) (s rest : List ℕ)
    → IsText max s
    → max < cap
    → get_str ((length s ∷ s) ++ rest) cap ≡ some (s, rest)
unfolding get_str
get_str_text cap max s rest h k =
    rw (take-append_first s rest, drop-append_first s rest, until_nul_text s h.1)
      (ground (arith, h.0, length-append s rest))

pub get_str_end :
    (cap max : ℕ) (s : List ℕ)
    → IsText max s
    → max < cap
    → get_str (length s ∷ s) cap ≡ some (s, [])
get_str_end cap max s h k =
    ap (λ (p : List ℕ). get_str (length s ∷ p) cap) (sym (append-nil s))
    ∙ get_str_text cap max s [] h k

-- The fields behind the id of a payload.
pub drop_u16 : (v : ℕ) (rest : List ℕ) → drop 2 (put_u16 v ++ rest) ≡ rest
unfolding put_u16
drop_u16 v rest = refl

pub drop_u32 : (v w : ℕ) (rest : List ℕ) → drop 6 (put_u16 v ++ (put_u32 w ++ rest)) ≡ rest
unfolding put_u16 put_u32
drop_u32 v w rest = refl

pub drop_u64 :
    (v w x : ℕ) (rest : List ℕ) → drop 10 (put_u16 v ++ (put_u32 w ++ (put_u32 x ++ rest))) ≡ rest
unfolding put_u16 put_u32
drop_u64 v w x rest = refl

pub length_u64 :
    (v w x : ℕ) (rest : List ℕ)
    → length (put_u16 v ++ (put_u32 w ++ (put_u32 x ++ rest))) ≡ 10 + length rest
unfolding put_u16 put_u32
length_u64 v w x rest = omega arith

pub drop_version : (b v : ℕ) (rest : List ℕ) → drop 5 (b ∷ (put_u32 v ++ rest)) ≡ rest
unfolding put_u32
drop_version b v rest = refl

pub length_version : (b v : ℕ) (rest : List ℕ) → length (b ∷ (put_u32 v ++ rest)) ≡ 5 + length rest
unfolding put_u32
length_version b v rest = omega arith
