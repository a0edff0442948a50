-- ===== src/Asp/Crc/Pieces.antt =====
-- A checksum may be taken over the parts of a file, one behind the other.
use ardopb.Base.{
  ℕ, ◌/◌, ◌^◌, ◌<◌, ◌≡◌, refl, ap, ◌∙◌, arith, bit_and, bit_xor, Bool, List, [], ◌∷◌, ◌++◌, get_or,
  ltb, every_below, every_below_at, ltb→lt,
}
use ardopb.Base.Bits.{bit_and_mask, bit_xor-lt}
use ardopb.Asp.Crc.{crc_nibble, not32, crc_step, crc_loop, crc32}

abbrev pub Bytes : List ℕ → Type 0
Bytes [] = Unit {0}
Bytes (b ∷ bs) = (b < 2 ^ 8) × Bytes bs

entry_fits : ℕ → Bool
entry_fits i = ltb (get_or crc_nibble i 0) (2 ^ 32)

nibble_bound : (i : ℕ) → i < 16 → get_or crc_nibble i 0 < 2 ^ 32
unfolding crc_nibble entry_fits every_below
nibble_bound i h = ltb→lt (get_or crc_nibble i 0) (2 ^ 32) (every_below_at 16 entry_fits i refl h)

crc_step-lt : (crc : ℕ) → crc < 2 ^ 32 → crc_step crc < 2 ^ 32
unfolding crc_step
crc_step-lt crc h =
    bit_xor-lt 32 (crc / 2 ^ 4) _ (omega arith)
      (nibble_bound (bit_and crc 15) (omega (arith, bit_and_mask 4 crc)))

crc_loop-lt : (crc : ℕ) (bytes : List ℕ) → Bytes bytes → crc < 2 ^ 32 → crc_loop crc bytes < 2 ^ 32
unfolding crc_loop
crc_loop-lt crc [] b h = h
crc_loop-lt crc (p ∷ ps) b h =
    crc_loop-lt (crc_step (crc_step (bit_xor crc p))) ps b.1
      (crc_step-lt _ (crc_step-lt _ (bit_xor-lt 32 crc p h (omega (arith, b.0)))))

crc_loop-append :
    (crc : ℕ) (first second : List ℕ)
    → crc_loop crc (first ++ second) ≡ crc_loop (crc_loop crc first) second
unfolding crc_loop
crc_loop-append crc [] second = refl
crc_loop-append crc (p ∷ ps) second =
    crc_loop-append (crc_step (crc_step (bit_xor crc p))) ps second

-- The checksum of two parts of a file, carried on from the first to the second, is that of the whole.
pub crc32-append :
    (crc : ℕ) (first second : List ℕ)
    → crc < 2 ^ 32
    → Bytes first
    → crc32 crc (first ++ second) ≡ crc32 (crc32 crc first) second
unfolding crc32
crc32-append crc first second h b =
    ap not32 (crc_loop-append (not32 crc) first second)
    ∙ ap (λ (c : ℕ). not32 (crc_loop c second)) back
  where
    back : crc_loop (not32 crc) first ≡ not32 (not32 (crc_loop (not32 crc) first))
    back = omega (arith, crc_loop-lt (not32 crc) first b (omega arith))
