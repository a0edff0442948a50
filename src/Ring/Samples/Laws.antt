-- ===== src/Ring/Samples/Laws.antt =====
-- The sample ring as a bounded queue.
use native.Mathlib.Nat.{eq-zero-or-pos}
use mathlib.Core.List.{append-nil}
use ardopb.Base.{
  ℕ, ◌+◌, ◌-◌, ◌≤◌, ◌<◌, ◌^◌, ◌≡◌, ◌≢◌, refl, sym, arith, some, List, [], ◌++◌, length, take, min,
  length-take, inl, inr,
}
use ardopb.Ring.{RingBuffer, IsValid, contents, get}
use ardopb.Ring.Copy.{length-get, in_round}
use ardopb.Ring.Publish.{
  used, room, length-contents, published, published-IsValid, contents-published, released,
  released-IsValid, contents-released,
}
use ardopb.Ring.Samples.{init, write, read, reset, write_count, read_count}

module _ {ℓ} {A : Type ℓ} (rg : RingBuffer A) (v : IsValid rg) where
  pub write_count_room : (n : ℕ) → write_count rg n ≡ min n (rg.cap - (rg.w - rg.r))
  unfolding write_count
  write_count_room n = rw (used, room) refl

  pub read_count_used : (n : ℕ) → read_count rg n ≡ min n (rg.w - rg.r)
  unfolding read_count
  read_count_used n = rw used refl

module _ {ℓ} {A : Type ℓ} (rg : RingBuffer A) (src : List A) where
  write_none : write_count rg (length src) ≡ 0 → write rg src ≡ (rg, 0)
  unfolding write
  write_none e = rw e refl

  write_some :
      write_count rg (length src) ≢ 0
      → write_count rg (length src) ≤ length src
      → write rg src
        ≡ (published rg (take (write_count rg (length src)) src), write_count rg (length src))
  unfolding write published
  write_some e h = rw taken (ground arith)
    where
      taken : length (take (write_count rg (length src)) src) ≡ write_count rg (length src)
      taken = omega (arith, length-take (write_count rg (length src)) src)

module _ {ℓ} {A : Type ℓ} (rg : RingBuffer A) (n : ℕ) where
  read_none : read_count rg n ≡ 0 → read rg n ≡ (rg, [])
  unfolding read
  read_none e = rw e refl

module _ {ℓ} {A : Type ℓ} (rg : RingBuffer A) (n : ℕ) where
  read_some :
      read_count rg n ≢ 0
      → read rg n ≡ (released rg (read_count rg n), get rg.cap rg.r (read_count rg n) rg.buf)
  unfolding read released
  read_some e = ground arith

-- What an operation leaves of a bounded queue.
pub record Appends {ℓ} {A : Type ℓ} (rg : RingBuffer A) (src : List A) (out : RingBuffer A × ℕ)
    : Type ℓ where
  pub still_valid : IsValid out.0
  pub count : out.1 ≡ min (length src) (rg.cap - length (contents rg))
  pub appended : contents out.0 ≡ contents rg ++ take out.1 src

pub record Removes {ℓ} {A : Type ℓ} (rg : RingBuffer A) (n : ℕ) (out : RingBuffer A × List A)
    : Type ℓ where
  pub still_valid : IsValid out.0
  pub count : length out.1 ≡ min n (length (contents rg))
  pub removed : contents rg ≡ out.1 ++ contents out.0

-- A write to a ring in service, whose counter has room for it, appends as many of the samples as there
-- is room for, the first ones, and says how many.
pub write-Appends {ℓ} :
    {A : Type ℓ} (rg : RingBuffer A) (src : List A)
    → IsValid rg
    → rg.w + length src < 2 ^ 64
    → Appends rg src (write rg src)
write-Appends {A = A} rg src v k = elim (eq-zero-or-pos (write_count rg (length src))) [
  | inl z ↦ rw (write_none rg src z) record {
    still_valid = v;
    count = omega (arith, z, write_count_room rg v (length src), length-contents rg v);
    appended = sym (append-nil _);
  }
  | inr p ↦ rw (write_some rg src (omega arith) (omega (arith, facts))) record {
    still_valid = published-IsValid rg taken v fits (omega (arith, facts));
    count = omega (arith, write_count_room rg v (length src), length-contents rg v);
    appended = contents-published rg taken v fits (omega (arith, facts));
  }
]
  where
    n : ℕ
    n = write_count rg (length src)

    taken : List A
    taken = take n src

    facts : (n ≡ min (length src) (rg.cap - (rg.w - rg.r))) × (length taken ≡ min n (length src))
    facts = (write_count_room rg v (length src), length-take n src)

    fits : rg.w - rg.r + length taken ≤ rg.cap
    fits = omega (arith, facts, v.bounded)

-- A read from a ring in service removes as many samples as are asked for and there, the oldest
-- first, and hands them over in order.
pub read-Removes {ℓ} :
    {A : Type ℓ} (rg : RingBuffer A) (n : ℕ) → IsValid rg → Removes rg n (read rg n)
read-Removes {A = A} rg n v = elim (eq-zero-or-pos k) [
  | inl z ↦ rw (read_none rg n z) record {
    still_valid = v;
    count = omega (arith, z, facts, length-contents rg v);
    removed = refl;
  }
  | inr p ↦ rw (read_some rg n (omega arith)) record {
    still_valid = released-IsValid rg k v (omega (arith, facts));
    count = omega (
      arith,
      length-get rg.cap rg.r k rg.buf v.storage (omega (arith, facts, v.bounded))
          (in_round rg.cap rg.r v.some_room),
      facts,
      length-contents rg v,
    );
    removed = contents-released rg k v (omega (arith, facts));
  }
]
  where
    k : ℕ
    k = read_count rg n

    facts : k ≡ min n (rg.w - rg.r)
    facts = read_count_used rg v n

-- A ring that is initialised on storage of its size is in service and holds nothing.
pub init-IsValid {ℓ} :
    {A : Type ℓ} (storage : List A) (cap : ℕ)
    → length storage ≡ cap
    → 0 < cap
    → cap < 2 ^ 64
    → (rg : RingBuffer A) × (init (some storage) cap ≡ some rg)
      × IsValid rg
      × (length (contents rg) ≡ 0)
unfolding init
init-IsValid {A = A} storage cap l p h =
    (fresh, ground arith, fresh-IsValid, length-contents fresh fresh-IsValid)
  where
    fresh : RingBuffer A
    fresh = record { buf = storage; cap = cap; w = 0; r = 0 }

    fresh-IsValid : IsValid fresh
    fresh-IsValid = record {
      storage = l;
      some_room = p;
      cap_fits = h;
      in_order = omega arith;
      bounded = omega arith;
      w_fits = omega arith;
    }

-- A reset empties a ring in service.
pub reset-IsValid {ℓ} :
    {A : Type ℓ} (rg : RingBuffer A)
    → IsValid rg
    → IsValid (reset rg) × (length (contents (reset rg)) ≡ 0)
unfolding reset
reset-IsValid rg v = (fresh, length-contents (reset rg) fresh)
  where
    fresh : IsValid (reset rg)
    fresh = record {
      storage = v.storage;
      some_room = v.some_room;
      cap_fits = v.cap_fits;
      in_order = omega arith;
      bounded = omega arith;
      w_fits = omega arith;
    }
