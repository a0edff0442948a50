-- ===== src/Ring/Samples.antt =====
-- shell/ring.c: the single-producer, single-consumer ring between the audio callback and the modem
-- thread, its operations as one thread runs them. `size_t` has 64 bits.
pub mod Laws
pub mod Threads
use ardopb.Base.{
  ℕ, ◌+◌, ◌-◌, u64, ◌==◌, min, Bool, true, false, Option, none, some, List, length, take,
  if◌then◌else◌,
}
use ardopb.Ring.{RingBuffer, put, get, sub_size}

-- The storage is the caller's array, `none` for a null pointer.
unfoldable pub init {ℓ} : {A : Type ℓ} → Option (List A) → ℕ → Option (RingBuffer A)
init none cap = none
init (some storage) cap =
    if cap == 0 then none else some record { buf = storage; cap = cap; w = 0; r = 0 }

module _ {ℓ} {A : Type ℓ} where
  unfoldable pub avail : RingBuffer A → ℕ
  avail rg = sub_size rg.w rg.r

  unfoldable pub space : RingBuffer A → ℕ
  unfolding avail
  space rg = sub_size rg.cap (avail rg)

  -- How much of a request can be met.
  unfoldable pub write_count : RingBuffer A → ℕ → ℕ
  write_count rg n = min n (sub_size rg.cap (sub_size rg.w rg.r))

  unfoldable pub read_count : RingBuffer A → ℕ → ℕ
  read_count rg n = min n (sub_size rg.w rg.r)

  -- The ring afterwards, and the samples written of the `n` that `src` has.
  unfoldable pub write : RingBuffer A → List A → RingBuffer A × ℕ
  write rg src =
      let n = write_count rg (length src) in
      if n == 0
      then (rg, 0)
      else (record rg { buf = put rg.cap rg.w (take n src) rg.buf; w = u64 (rg.w + n) }, n)

  -- The ring afterwards, and the samples read.
  unfoldable pub read : RingBuffer A → ℕ → RingBuffer A × List A
  read rg want =
      let n = read_count rg want in
      if n == 0 then (rg, List.[]) else (record rg { r = u64 (rg.r + n) }, get rg.cap rg.r n rg.buf)

  unfoldable pub reset : RingBuffer A → RingBuffer A
  reset rg = record rg { w = 0; r = 0 }
