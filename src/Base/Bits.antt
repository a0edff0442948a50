-- ===== src/Base/Bits.antt =====
-- Laws of the native bit operations at variables: the digit recursion that they stand for, with its
-- fuel dropped, and what follows for masks, disjoint fields and cancelling.
use Prim.Native.Nat.{ℕ, zero, suc, ◌+◌, ◌-◌, ◌*◌, ◌/◌, ◌%◌, ◌^◌, ◌≤◌, ◌<◌, min, max}
use Prim.Native.Nat.{bit_and, bit_or, bit_xor, digits, bitwise, differ}
use Prim.Native.Nat.{bit_and-bitwise, bit_or-bitwise, bit_xor-bitwise}
use mathlib.Core.Path.{◌≡◌, refl, ap}
use native.Mathlib.Nat.{pow-suc, one-le-pow}
use native.Mathlib.Omega.{arith}

-- More fuel than the number is worth changes nothing.
digits_enough :
    (z : ℕ → ℕ) (f : ℕ → ℕ → ℕ) (m n a b : ℕ) → a ≤ m → a ≤ n → digits z f m a b ≡ digits z f n a b
digits_enough z f zero zero a b p q = refl
digits_enough z f zero (suc n) zero b p q = refl
digits_enough z f zero (suc n) (suc a) b p q = absurd (omega arith)
digits_enough z f (suc m) zero zero b p q = refl
digits_enough z f (suc m) zero (suc a) b p q = absurd (omega arith)
digits_enough z f (suc m) (suc n) zero b p q = refl
digits_enough z f (suc m) (suc n) (suc a) b p q =
    rw (digits_enough z f m n (suc a / 2) (b / 2) (omega arith) (omega arith))

-- One digit of the operation, at a first argument that is not zero.
bitwise_digit :
    (z : ℕ → ℕ) (f : ℕ → ℕ → ℕ) (a b : ℕ)
    → bitwise z f (suc a) b ≡ bitwise z f (suc a / 2) (b / 2) * 2 + f (suc a % 2) (b % 2)
bitwise_digit z f a b =
    omega (arith, digits_enough z f a (suc a / 2) (suc a / 2) (b / 2) (omega arith) (omega arith))

or_digit : (a b : ℕ) → bit_or a b ≡ bit_or (a / 2) (b / 2) * 2 + max (a % 2) (b % 2)
or_digit zero b = simp bit_or-bitwise (omega arith)
or_digit (suc a) b = simp bit_or-bitwise (bitwise_digit (λ y. y) max a b)

and_digit : (a b : ℕ) → bit_and a b ≡ bit_and (a / 2) (b / 2) * 2 + min (a % 2) (b % 2)
and_digit zero b = simp bit_and-bitwise (omega arith)
and_digit (suc a) b = simp bit_and-bitwise (bitwise_digit (λ y. 0) min a b)

differ-eq-mod : (x y : ℕ) → x < 2 → y < 2 → differ x y ≡ (x + y) % 2
differ-eq-mod zero y h k = omega arith
differ-eq-mod (suc zero) zero h k = refl
differ-eq-mod (suc zero) (suc zero) h k = refl
differ-eq-mod (suc zero) (suc (suc y)) h k = absurd (omega arith)
differ-eq-mod (suc (suc x)) y h k = absurd (omega arith)

xor_digit : (a b : ℕ) → bit_xor a b ≡ bit_xor (a / 2) (b / 2) * 2 + (a % 2 + b % 2) % 2
xor_digit zero b = simp bit_xor-bitwise (omega arith)
xor_digit (suc a) b = simp bit_xor-bitwise (
    omega (
      arith,
      bitwise_digit (λ y. y) differ a b,
      differ-eq-mod (suc a % 2) (b % 2) (omega arith) (omega arith),
    ))

-- The laws go by recursion on a bound of the first number.
or_zero_below : (n a : ℕ) → a ≤ n → bit_or a 0 ≡ a
or_zero_below n zero h = refl
or_zero_below zero (suc a) h = absurd (omega arith)
or_zero_below (suc n) (suc a) h =
    omega (arith, or_digit (suc a) 0, or_zero_below n (suc a / 2) (omega arith))

and_zero_below : (n a : ℕ) → a ≤ n → bit_and a 0 ≡ 0
and_zero_below n zero h = refl
and_zero_below zero (suc a) h = absurd (omega arith)
and_zero_below (suc n) (suc a) h =
    omega (arith, and_digit (suc a) 0, and_zero_below n (suc a / 2) (omega arith))

double-shift : (q k : ℕ) → q * 2 ^ suc k ≡ 2 * (q * 2 ^ k)
double-shift q k = omega (arith, ap (λ (t : ℕ). q * t) (pow-suc 2 k))

-- `(q << k) | r` is a sum where `r` fits the `k` bits that the shift left free.
pub bit_or_fields : (k q r : ℕ) → r < 2 ^ k → bit_or (q * 2 ^ k) r ≡ q * 2 ^ k + r
bit_or_fields zero q r h = ground (arith, or_zero_below q q)
bit_or_fields (suc k) q r h =
    ground
      (arith, or_digit (q * 2 ^ suc k) r, double-shift q k, bit_or_fields k q (r / 2) (omega arith))

and_fields : (k q r : ℕ) → r < 2 ^ k → bit_and (q * 2 ^ k + r) (2 ^ k - 1) ≡ r
and_fields zero q r h = ground (arith, and_zero_below (q * 1 + r) (q * 1 + r))
and_fields (suc k) q r h = ground (
  arith,
  and_digit (q * 2 ^ suc k + r) (2 ^ suc k - 1),
  double-shift q k,
  pow-suc 2 k,
  and_fields k q (r / 2) (omega arith),
)

-- `a & (2^k - 1)` is the remainder by `2 ^ k`.
pub bit_and_mask : (k a : ℕ) → bit_and a (2 ^ k - 1) ≡ a % 2 ^ k
bit_and_mask k a = ground (arith, one-le-pow k 2, and_fields k (a / 2 ^ k) (a % 2 ^ k))

xor_cancel_below : (n a b : ℕ) → a ≤ n → b ≤ n → bit_xor (bit_xor a b) b ≡ a
xor_cancel_below zero zero zero h k = refl
xor_cancel_below zero zero (suc b) h k = absurd (omega arith)
xor_cancel_below zero (suc a) b h k = absurd (omega arith)
xor_cancel_below (suc n) a b h k = omega (
  arith,
  xor_digit (bit_xor a b) b,
  xor_digit a b,
  ap (λ (t : ℕ). bit_xor t (b / 2)) (half a b),
  xor_cancel_below n (a / 2) (b / 2) (omega arith) (omega arith),
)
  where
    half : (a b : ℕ) → bit_xor a b / 2 ≡ bit_xor (a / 2) (b / 2)
    half a b = omega (arith, xor_digit a b)

-- Exclusive or with the same number twice gives the first back.
pub bit_xor-cancel : (a b : ℕ) → bit_xor (bit_xor a b) b ≡ a
bit_xor-cancel a b = xor_cancel_below (a + b) a b (omega arith) (omega arith)

xor_comm_below : (n a b : ℕ) → a ≤ n → b ≤ n → bit_xor a b ≡ bit_xor b a
xor_comm_below zero zero zero h k = refl
xor_comm_below zero zero (suc b) h k = absurd (omega arith)
xor_comm_below zero (suc a) b h k = absurd (omega arith)
xor_comm_below (suc n) a b h k = omega (
  arith,
  xor_digit a b,
  xor_digit b a,
  xor_comm_below n (a / 2) (b / 2) (omega arith) (omega arith),
)

pub bit_xor_comm : (a b : ℕ) → bit_xor a b ≡ bit_xor b a
bit_xor_comm a b = xor_comm_below (a + b) a b (omega arith) (omega arith)

pub bit_xor-lt : (k a b : ℕ) → a < 2 ^ k → b < 2 ^ k → bit_xor a b < 2 ^ k
bit_xor-lt zero zero zero h g = omega arith
bit_xor-lt zero zero (suc b) h g = absurd (omega arith)
bit_xor-lt zero (suc a) b h g = absurd (omega arith)
bit_xor-lt (suc k) a b h g = omega (
  arith,
  xor_digit a b,
  pow-suc 2 k,
  bit_xor-lt k (a / 2) (b / 2) (omega (arith, pow-suc 2 k)) (omega (arith, pow-suc 2 k)),
)

or_comm_below : (n a b : ℕ) → a ≤ n → b ≤ n → bit_or a b ≡ bit_or b a
or_comm_below zero zero zero h k = refl
or_comm_below zero zero (suc b) h k = absurd (omega arith)
or_comm_below zero (suc a) b h k = absurd (omega arith)
or_comm_below (suc n) a b h k =
    omega (
      arith,
      or_digit a b,
      or_digit b a,
      or_comm_below n (a / 2) (b / 2) (omega arith) (omega arith),
    )

pub bit_or_comm : (a b : ℕ) → bit_or a b ≡ bit_or b a
bit_or_comm a b = or_comm_below (a + b) a b (omega arith) (omega arith)
