-- ===== src/Base/Bytes.antt =====
-- Bytes, words and text: the C casts, ASCII text as a list of character codes, `snprintf` and the
-- decimal conversions, and checks of all values below a bound by evaluation.
use Prim.Native.Nat.{ℕ, zero, suc, ◌+◌, ◌-◌, ◌/◌, ◌%◌, ◌^◌, ◌<◌}
use Prim.Native.Char.{code}
use Prim.Native.String.{String}
use mathlib.Core.Path.{◌≡◌, refl}
use mathlib.Core.Bool.{Bool, true, false, ◌&&◌}
use mathlib.Core.List.{List, [], ◌∷◌, ◌++◌}
use native.Mathlib.Omega.{arith}
use ardopb.Base.Tests.{◌==◌, if◌then◌else◌}
use ardopb.Base.Lists.{take, drop, length}

-- `(uint8_t)n`, `(uint16_t)n`, `(uint64_t)n` of a value that is not negative.
abbrev pub u8 : ℕ → ℕ
u8 n = n % 2 ^ 8

abbrev pub u16 : ℕ → ℕ
u16 n = n % 2 ^ 16

abbrev pub u64 : ℕ → ℕ
u64 n = n % 2 ^ 64

codes : String → List ℕ
codes String.[] = []
codes (String.◌∷◌ c s) = code c ∷ codes s

-- The characters of a C string literal, without the terminating NUL.
unfoldable pub text : String → List ℕ
unfolding codes
text s = codes s

-- What `snprintf(buf, size, …)` leaves in `buf` up to the NUL: at most `size - 1` characters.
unfoldable pub snprintf : ℕ → List ℕ → List ℕ
snprintf size s = take (size - 1) s

decimal_digits : ℕ → ℕ → List ℕ → List ℕ
decimal_digits zero n acc = acc
decimal_digits (suc fuel) n acc =
    let acc' : List ℕ = (b'0' + n % 10) ∷ acc in
    let rest = decimal_digits fuel (n / 10) acc' in if n / 10 == 0 then acc' else rest

-- `%d` and `%zu` of a value that is not negative. A number has at most as many digits as its
-- value plus one, so the fuel never runs out.
unfoldable pub decimal : ℕ → List ℕ
unfolding decimal_digits
decimal n = decimal_digits (n + 1) n []

-- `memcpy(buf, bytes, n)`: the first bytes of the buffer change, the rest stays.
unfoldable pub overwrite {ℓ} : {A : Type ℓ} → List A → List A → List A
overwrite bytes buf = bytes ++ drop (length bytes) buf

-- Whether a test holds of every number below a bound.
unfoldable pub every_below : ℕ → (ℕ → Bool) → Bool
every_below zero test = true
every_below (suc last) test = every_below last test && test last

-- A table check by computation, used at a number that is not known.
pub every_below_at :
    (bound : ℕ) (test : ℕ → Bool) (n : ℕ)
    → every_below bound test ≡ true
    → n < bound
    → test n ≡ true
unfolding every_below
every_below_at zero test n all h = absurd (omega arith)
every_below_at (suc last) test n all h = ground (arith, every_below_at last test n)

-- `memcmp(a, b, n) == 0` and `strcmp(a, b) == 0`.
unfoldable pub bytes_eq : List ℕ → List ℕ → Bool
bytes_eq [] [] = true
bytes_eq [] (y ∷ ys) = false
bytes_eq (x ∷ xs) [] = false
bytes_eq (x ∷ xs) (y ∷ ys) = (x == y) && bytes_eq xs ys

pub bytes_eq_sound : (xs ys : List ℕ) → bytes_eq xs ys ≡ true → xs ≡ ys
unfolding bytes_eq
bytes_eq_sound [] [] h = refl
bytes_eq_sound [] (y ∷ ys) h = cc
bytes_eq_sound (x ∷ xs) [] h = cc
bytes_eq_sound (x ∷ xs) (y ∷ ys) h = ground (arith, bytes_eq_sound xs ys)
