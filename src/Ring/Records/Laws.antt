-- ===== src/Ring/Records/Laws.antt =====
-- The record ring as a queue of records.
use mathlib.Core.List.{append_assoc, append-nil}
use ardopb.Base.{
  ℕ, ◌+◌, ◌-◌, ◌≤◌, ◌<◌, ◌^◌, ◌≡◌, ◌⊎◌, inl, inr, refl, ap, sym, ◌∙◌, arith, List, [], ◌∷◌, ◌++◌,
  length, Bool, true, false, length-append, Bool-cases,
}
use ardopb.Base.Words.{put_u32, length-put_u32}
use ardopb.Ring.{RingBuffer, IsValid, contents}
use ardopb.Ring.Publish.{length-contents, published, published-IsValid, contents-published}
use ardopb.Ring.Records.{overhead, max_record, put_record, has_room, write}

-- The bytes of records, the oldest first.
unfoldable pub wire : List (List ℕ) → List ℕ
wire [] = []
wire (x ∷ xs) = put_u32 (length x) ++ (x ++ wire xs)

abbrev pub Bounded : List (List ℕ) → Type 0
Bounded [] = Unit {0}
Bounded (x ∷ xs) = (length x ≤ max_record) × Bounded xs

-- A ring in service whose bytes are those of some records.
pub record Holds (rg : RingBuffer ℕ) (records : List (List ℕ)) : Type 0 where
  pub valid : IsValid rg
  pub layout : contents rg ≡ wire records
  pub sizes : Bounded records

wire-append : (xs ys : List (List ℕ)) → wire (xs ++ ys) ≡ wire xs ++ wire ys
unfolding wire
wire-append [] ys = refl
wire-append (x ∷ xs) ys =
    simp append_assoc (ap (λ (zs : List ℕ). put_u32 (length x) ++ (x ++ zs)) (wire-append xs ys))

wire_one : (a b : List ℕ) → wire ((a ++ b) ∷ []) ≡ put_u32 (length a + length b) ++ (a ++ b)
unfolding wire
wire_one a b = rw (length-append a b) (simp append-nil refl)

Bounded-append :
    (xs : List (List ℕ)) (y : List ℕ)
    → Bounded xs
    → length y ≤ max_record
    → Bounded (xs ++ (y ∷ []))
Bounded-append [] y p h = (h, tt)
Bounded-append (x ∷ xs) y p h = (p.0, Bounded-append xs y p.1 h)

module _ (rg : RingBuffer ℕ) (na nb reserve : ℕ) (v : IsValid rg) (h : na < 2 ^ 64)
    (k : nb < 2 ^ 64) where
  has_room-true :
      has_room rg na nb reserve ≡ true
      → (na + nb ≤ max_record) × (reserve + overhead + na + nb + (rg.w - rg.r) ≤ rg.cap)
  unfolding has_room
  has_room-true e = ground (arith, e)

  has_room-false :
      has_room rg na nb reserve ≡ false
      → (max_record < na + nb) ⊎ (rg.cap < reserve + overhead + na + nb + (rg.w - rg.r))
  unfolding has_room
  has_room-false e = ground (arith, e)

-- The three copies of a record are as many publications, one behind the other.
module _ (rg : RingBuffer ℕ) (a b : List ℕ) (h : length a + length b ≤ max_record) where
  header : List ℕ
  header = put_u32 (length a + length b)

  put_record-published : put_record rg a b ≡ published (published (published rg header) a) b
  unfolding put_record published header
  put_record-published = ground (arith, length-put_u32 (length a + length b))

  put_record-Holds :
      (records : List (List ℕ))
      → Holds rg records
      → rg.w - rg.r + (overhead + length a + length b) ≤ rg.cap
      → rg.w + overhead + length a + length b < 2 ^ 64
      → Holds (put_record rg a b) (records ++ ((a ++ b) ∷ []))
  unfolding published header
  put_record-Holds records s fits k = rw put_record-published record {
    valid = published-IsValid two b v2 fits2 room2;
    layout =
        contents-published two b v2 fits2 room2
        ∙ ap (λ (ys : List ℕ). ys ++ b) (contents-published one a v1 fits1 room1)
        ∙ ap (λ (ys : List ℕ). (ys ++ a) ++ b) (contents-published rg header s.valid fits0 room0)
        ∙ rw (s.layout, wire-append records ((a ++ b) ∷ []), wire_one a b) (simp append_assoc refl);
    sizes = Bounded-append records (a ++ b) s.sizes (omega (arith, length-append a b));
  }
    where
      one : RingBuffer ℕ
      one = published rg header

      two : RingBuffer ℕ
      two = published one a

      four : length header ≡ 4
      four = length-put_u32 (length a + length b)

      fits0 : rg.w - rg.r + length header ≤ rg.cap
      fits0 = omega (arith, four)

      room0 : rg.w + length header < 2 ^ 64
      room0 = omega (arith, four)

      v1 : IsValid one
      v1 = published-IsValid rg header s.valid fits0 room0

      fits1 : one.w - one.r + length a ≤ one.cap
      fits1 = omega (arith, four, s.valid.in_order)

      room1 : one.w + length a < 2 ^ 64
      room1 = omega (arith, four)

      v2 : IsValid two
      v2 = published-IsValid one a v1 fits1 room1

      fits2 : two.w - two.r + length b ≤ two.cap
      fits2 = omega (arith, four, s.valid.in_order)

      room2 : two.w + length b < 2 ^ 64
      room2 = omega (arith, four)

-- The outcomes of a write.
pub data Written (rg : RingBuffer ℕ) (records : List (List ℕ)) (a b : List ℕ) (reserve : ℕ)
    : RingBuffer ℕ × Bool → Type 0 where
  added :
      {out : RingBuffer ℕ × Bool}
      → length a + length b ≤ max_record
      → length (wire records) + reserve + overhead + length a + length b ≤ rg.cap
      → out.1 ≡ true
      → Holds out.0 (records ++ ((a ++ b) ∷ []))
      → Written rg records a b reserve out
  refused :
      {out : RingBuffer ℕ × Bool}
      → (max_record < length a + length b)
        ⊎ (rg.cap < length (wire records) + reserve + overhead + length a + length b)
      → out ≡ (rg, false)
      → Written rg records a b reserve out

-- A write to a ring that holds some records appends one record made of both parts, where it is no
-- longer than a record may be and fits with the reserve left over, and else leaves the ring as it was
-- and says so. The writer's counter has room for it.
pub write-Written :
    (rg : RingBuffer ℕ) (records : List (List ℕ)) (a b : List ℕ) (reserve : ℕ)
    → Holds rg records
    → rg.w + overhead + length a + length b < 2 ^ 64
    → Written rg records a b reserve (write rg a b reserve)
unfolding write
write-Written rg records a b reserve s k =
    elim (Bool-cases (has_room rg (length a) (length b) reserve)) [
      | inl yes_room ↦ rw yes_room (
          let fits =
            has_room-true rg (length a) (length b) reserve s.valid (omega arith) (omega arith)
              yes_room in
          added fits.0 (omega (arith, fits, held)) refl
            (put_record-Holds rg a b fits.0 records s (omega (arith, fits)) k))
      | inr no_room ↦ rw no_room (
          refused
            (omega (
              arith,
              held,
              has_room-false rg (length a) (length b) reserve s.valid (omega arith) (omega arith)
                  no_room,
            ))
            refl)
    ]
  where
    held : length (wire records) ≡ rg.w - rg.r
    held = ap (λ (ys : List ℕ). length ys) (sym s.layout) ∙ length-contents rg s.valid
