-- ===== src/Ring/Records.antt =====
-- app/ring.c: the single-producer, single-consumer ring of records between the application's
-- threads, its operations as one thread runs them. A record is its length in four bytes and its
-- body. `size_t` has 64 bits.
pub mod Laws
pub mod Reads
use ardopb.Base.{
  ℕ, ◌+◌, ◌-◌, ◌%◌, ◌^◌, u64, ltb, ◌==◌, Bool, true, false, ◌||◌, Option, none, some, List, [],
  length, if◌then◌else◌,
}
use ardopb.Base.Words.{put_u32, get_u32}
use ardopb.Ring.{RingBuffer, put, get, sub_size}

abbrev pub overhead : ℕ
overhead = 4

abbrev pub max_record : ℕ
max_record = 0x00FFFFFF

unfoldable pub init : Option (List ℕ) → ℕ → Option (RingBuffer ℕ)
init none cap = none
init (some storage) cap =
    if cap == 0 then none else some record { buf = storage; cap = cap; w = 0; r = 0 }

-- The copies of a record's header and of its two parts, published at once.
unfoldable pub put_record : RingBuffer ℕ → List ℕ → List ℕ → RingBuffer ℕ
put_record rg a b =
    let body = u64 (length a + length b) in
    let hdr = put_u32 (body % 2 ^ 32) in
    let at_a = u64 (rg.w + overhead) in
    let at_b = u64 (at_a + length a) in
    record rg {
      buf = put rg.cap at_b b (put rg.cap at_a a (put rg.cap rg.w hdr rg.buf));
      w = u64 (rg.w + u64 (body + overhead));
    }

-- Whether a record of two parts is written, with some room left over.
unfoldable pub has_room : RingBuffer ℕ → ℕ → ℕ → ℕ → Bool
has_room rg na nb reserve =
    let body = u64 (na + nb) in
    let need = u64 (body + overhead) in
    let space = sub_size rg.cap (sub_size rg.w rg.r) in
    if ltb body na || ltb max_record body
    then false
    else if ltb need body
    then false
    else if ltb space reserve || ltb (space - reserve) need
    then false
    else true

unfoldable pub write : RingBuffer ℕ → List ℕ → List ℕ → ℕ → RingBuffer ℕ × Bool
write rg a b reserve =
    if has_room rg (length a) (length b) reserve then (put_record rg a b, true) else (rg, false)

-- The body length of the oldest record, where the ring holds all of it.
unfoldable pub peek_len : RingBuffer ℕ → ℕ → ℕ → Option ℕ
peek_len rg r avail =
    let len = get_u32 (get rg.cap r overhead rg.buf) in
    if ltb avail overhead then none else if ltb (avail - overhead) len then none else some len

unfoldable pub peek : RingBuffer ℕ → ℕ
peek rg = elim (peek_len rg rg.r (sub_size rg.w rg.r)) [ none ↦ 0 | some body ↦ body ]

-- The ring afterwards, and the bytes copied out. A record longer than the destination is dropped.
read_record : RingBuffer ℕ → ℕ → Option ℕ → RingBuffer ℕ × List ℕ
read_record rg cap none = (rg, [])
read_record rg cap (some body) = (
  record rg { r = u64 (u64 (rg.r + overhead) + body) },
  if ltb cap body then [] else get rg.cap (u64 (rg.r + overhead)) body rg.buf,
)

unfoldable pub read : RingBuffer ℕ → ℕ → RingBuffer ℕ × List ℕ
unfolding read_record
read rg cap = read_record rg cap (peek_len rg rg.r (sub_size rg.w rg.r))

unfoldable pub used : RingBuffer ℕ → ℕ
used rg = sub_size rg.w rg.r

unfoldable pub space : RingBuffer ℕ → ℕ
unfolding used
space rg = sub_size rg.cap (used rg)

unfoldable pub reset : RingBuffer ℕ → RingBuffer ℕ
reset rg = record rg { w = 0; r = 0 }
