-- ===== src/Ring/Records/Reads.antt =====
-- What is read from a ring that holds records.
use ardopb.Base.{
  ℕ, ◌+◌, ◌-◌, ◌≤◌, ◌≡◌, refl, ap, sym, ◌∙◌, arith, List, [], ◌∷◌, ◌++◌, length, u64, length-append,
  append_parts, none, some, leb, if◌then◌else◌,
}
use ardopb.Base.Words.{put_u32, get_u32, length-put_u32, get_u32-put_u32}
use ardopb.Ring.{RingBuffer, IsValid, contents, get, sub_size}
use ardopb.Ring.Copy.{length-get, in_round}
use ardopb.Ring.Publish.{used, length-contents, released, released-IsValid, contents-released}
use ardopb.Ring.Records.{overhead, peek_len, peek, read}
use ardopb.Ring.Records.Laws.{wire, Holds}

-- The first bytes of a ring are copied out, and the rest stays.
module _ (rg : RingBuffer ℕ) (v : IsValid rg) (xs ys : List ℕ) (e : contents rg ≡ xs ++ ys) where
  first_used : length xs ≤ rg.w - rg.r
  first_used =
      omega (arith, length-contents rg v, length-append xs ys, ap (λ (zs : List ℕ). length zs) e)

  first_parts :
      (get rg.cap rg.r (length xs) rg.buf ≡ xs) × (contents (released rg (length xs)) ≡ ys)
  first_parts =
      append_parts _ _ _ _
        (length-get rg.cap rg.r (length xs) rg.buf v.storage (omega (arith, first_used, v.bounded))
          (in_round rg.cap rg.r v.some_room))
        (sym (contents-released rg (length xs) v first_used) ∙ e)

-- The oldest record: its header, its body and what is behind it.
module _ (rg : RingBuffer ℕ) (x : List ℕ) (rest : List (List ℕ)) (s : Holds rg (x ∷ rest)) where
  header : List ℕ
  header = put_u32 (length x)

  opened : contents rg ≡ header ++ (x ++ wire rest)
  unfolding header wire
  opened = s.layout

  behind : RingBuffer ℕ
  behind = released rg (length header)

  behind-IsValid : IsValid behind
  unfolding behind
  behind-IsValid =
      released-IsValid rg (length header) s.valid (first_used rg s.valid header _ opened)

  behind-contents : contents behind ≡ x ++ wire rest
  unfolding behind
  behind-contents = (first_parts rg s.valid header _ opened).1

  size : get_u32 (get rg.cap rg.r overhead rg.buf) ≡ length x
  unfolding header put_u32
  size =
      ap get_u32 (first_parts rg s.valid header _ opened).0
      ∙ get_u32-put_u32 (length x) [] (omega (arith, s.sizes.0))

  whole : overhead + length x ≤ rg.w - rg.r
  unfolding header
  whole = omega (
    arith,
    length-put_u32 (length x),
    length-contents rg s.valid,
    ap (λ (zs : List ℕ). length zs) opened,
    length-append header (x ++ wire rest),
    length-append x (wire rest),
  )

  peek_len_lem : peek_len rg rg.r (sub_size rg.w rg.r) ≡ some (length x)
  unfolding peek_len
  peek_len_lem = rw (used rg s.valid, size) (ground (arith, whole))

  -- After the record is consumed the ring holds those behind it.
  consumed : Holds (released behind (length x)) rest
  consumed = record {
    valid =
        released-IsValid behind (length x) behind-IsValid
          (first_used behind behind-IsValid x _ behind-contents);
    layout = (first_parts behind behind-IsValid x _ behind-contents).1;
    sizes = s.sizes.1;
  }

  body : get rg.cap (u64 (rg.r + overhead)) (length x) rg.buf ≡ x
  unfolding behind header put_u32 released
  body = (first_parts behind behind-IsValid x _ behind-contents).0

  read_first :
      (cap : ℕ)
      → ((read rg cap).1 ≡ (if leb (length x) cap then x else [])) × Holds (read rg cap).0 rest
  unfolding read behind header put_u32 released
  read_first cap = rw peek_len_lem (rw body (ground arith), consumed)

-- A ring that holds no record has no header to read.
module _ (rg : RingBuffer ℕ) (s : Holds rg []) where
  peek_len-none : peek_len rg rg.r (sub_size rg.w rg.r) ≡ none
  unfolding peek_len wire
  peek_len-none =
      rw (used rg s.valid)
        (ground (arith, length-contents rg s.valid, ap (λ (zs : List ℕ). length zs) s.layout))

-- What a read of at most `cap` bytes hands over, and the ring that is left.
abbrev pub IsRead : RingBuffer ℕ → List (List ℕ) → ℕ → RingBuffer ℕ × List ℕ → Type 0
IsRead rg [] cap out = out ≡ (rg, [])
IsRead rg (x ∷ rest) cap out = (out.1 ≡ (if leb (length x) cap then x else [])) × Holds out.0 rest

-- A read from a ring that holds some records takes the oldest one away, and hands over its body, or
-- nothing where it is longer than the destination. A ring that holds none is left as it was.
pub read-IsRead :
    (rg : RingBuffer ℕ) (records : List (List ℕ)) (cap : ℕ)
    → Holds rg records
    → IsRead rg records cap (read rg cap)
unfolding read
read-IsRead rg [] cap s = rw (peek_len-none rg s) refl
read-IsRead rg (x ∷ rest) cap s = read_first rg x rest s cap

pub first_length : List (List ℕ) → ℕ
first_length [] = 0
first_length (x ∷ rest) = length x

pub peek_lem :
    (rg : RingBuffer ℕ) (records : List (List ℕ))
    → Holds rg records
    → peek rg ≡ first_length records
unfolding peek first_length
peek_lem rg [] s = rw (peek_len-none rg s, peek) refl
peek_lem rg (x ∷ rest) s = rw (peek_len_lem rg x rest s, peek) refl
