-- ===== src/Ring.antt =====
-- The copies in and out of a circular buffer that shell/ring.c (in `ardop_ring_write` and
-- `ardop_ring_read`) and app/ring.c (`put` and `get`) share. A cell is named by an absolute
-- counter, whose remainder by the capacity is its index.
pub mod Copy
pub mod Contents
pub mod Publish
pub mod Records
mod Tests
pub mod Samples
use ardopb.Base.{
  ℕ, ◌+◌, ◌-◌, ◌%◌, ◌^◌, ◌≤◌, ◌<◌, ◌≡◌, List, ◌++◌, length, take, drop, ltb, ◌==◌, min,
  if◌then◌else◌,
}

-- `memcpy(buf + off, bytes, n)` for a range inside the buffer.
unfoldable pub store {ℓ} : {A : Type ℓ} → ℕ → List A → List A → List A
store off xs buf = take off buf ++ (xs ++ drop (off + length xs) buf)

-- A difference of two `size_t` counters.
abbrev pub sub_size : ℕ → ℕ → ℕ
sub_size a b = (a + 2 ^ 64 - b) % 2 ^ 64

-- Up to two runs: to the end of the buffer, then from the start.
unfoldable pub put {ℓ} : {A : Type ℓ} → ℕ → ℕ → List A → List A → List A
put cap at src buf =
    let off = at % cap in
    let first = min (cap - off) (length src) in
    let head = store off (take first src) buf in
    if length src == 0
    then buf
    else if ltb first (length src)
    then store 0 (drop first src) head
    else head

unfoldable pub get {ℓ} : {A : Type ℓ} → ℕ → ℕ → ℕ → List A → List A
get cap at n buf =
    let off = at % cap in
    let first = min (cap - off) n in
    let head = take first (drop off buf) in
    if ltb first n then head ++ take (n - first) buf else head

-- `ardop_ring` and `app_ring`: the storage and the two counters.
pub record RingBuffer {ℓ} (A : Type ℓ) : Type ℓ where
  pub buf : List A
  pub cap : ℕ
  pub w : ℕ
  pub r : ℕ

-- A ring in service. The counters have not yet been counted round.
pub record IsValid {ℓ} {A : Type ℓ} (rg : RingBuffer A) : Type ℓ where
  pub storage : length rg.buf ≡ rg.cap
  pub some_room : 0 < rg.cap
  pub cap_fits : rg.cap < 2 ^ 64
  pub in_order : rg.r ≤ rg.w
  pub bounded : rg.w ≤ rg.r + rg.cap
  pub w_fits : rg.w < 2 ^ 64

-- What is between the two counters, the oldest first.
unfoldable pub contents {ℓ} : {A : Type ℓ} → RingBuffer A → List A
contents rg = get rg.cap rg.r (rg.w - rg.r) rg.buf
