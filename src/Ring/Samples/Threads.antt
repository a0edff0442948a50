-- ===== src/Ring/Samples/Threads.antt =====
-- The two threads of the sample ring, step by step: each loads the other's counter, copies, and
-- publishes its own. A copy is one step, since no cell is written by one side that the other reads.
pub mod Invariant
use ardopb.Base.{
  ℕ, ◌+◌, ◌-◌, ◌≤◌, ◌<◌, ◌^◌, ◌≡◌, ◌≢◌, refl, ap, sym, ◌∙◌, arith, List, [], ◌++◌, length, take,
  min, u64, length-take,
}
use ardopb.Ring.{RingBuffer, IsValid, contents, put, get, sub_size}
use ardopb.Ring.Copy.{length-put, length-get, in_round}
use ardopb.Ring.Contents.{get-put, get-put_before, get_split}
use ardopb.Ring.Publish.{released, released-IsValid, contents-released, length-contents}

pub data Writer {ℓ} (A : Type ℓ) : Type ℓ where
  writer_idle : Writer A
  loaded_r : ℕ → List A → Writer A
  copied : List A → Writer A

pub data Reader {ℓ} (A : Type ℓ) : Type ℓ where
  reader_idle : Reader A
  loaded_w : ℕ → ℕ → Reader A
  fetched : List A → Reader A

-- The ring, the two threads, and what has been sent and delivered so far.
pub record Threads {ℓ} (A : Type ℓ) : Type ℓ where
  pub ring : RingBuffer A
  pub writer : Writer A
  pub reader : Reader A
  pub sent : List A
  pub delivered : List A

module _ {ℓ} {A : Type ℓ} where
  -- The copies, with the counter that was loaded.
  unfoldable pub copy_in : RingBuffer A → ℕ → List A → RingBuffer A × List A
  copy_in rg seen src =
      let xs = take (min (length src) (sub_size rg.cap (sub_size rg.w seen))) src in
      (record rg { buf = put rg.cap rg.w xs rg.buf }, xs)

  unfoldable pub copy_out : RingBuffer A → ℕ → ℕ → List A
  copy_out rg seen want = get rg.cap rg.r (min want (sub_size seen rg.r)) rg.buf

-- The counter of the samples written is not counted round.
pub data Step {ℓ} {A : Type ℓ} (t : Threads A) : Threads A → Type ℓ where
  load_r :
      (src : List A) → t.writer ≡ writer_idle → Step t (record t { writer = loaded_r t.ring.r src })
  copy_in_step :
      (seen : ℕ) (src : List A)
      → t.writer ≡ loaded_r seen src
      → Step t (record t {
        ring = (copy_in t.ring seen src).0;
        writer = copied (copy_in t.ring seen src).1;
      })
  publish_w :
      (xs : List A)
      → t.writer ≡ copied xs
      → t.ring.w + length xs < 2 ^ 64
      → Step t (record t {
        ring = record (t.ring) { w = u64 (t.ring.w + length xs) };
        writer = writer_idle;
        sent = t.sent ++ xs;
      })
  load_w :
      (want : ℕ) → t.reader ≡ reader_idle → Step t (record t { reader = loaded_w t.ring.w want })
  copy_out_step :
      (seen want : ℕ)
      → t.reader ≡ loaded_w seen want
      → Step t (record t { reader = fetched (copy_out t.ring seen want) })
  publish_r :
      (xs : List A)
      → t.reader ≡ fetched xs
      → Step t (record t {
        ring = record (t.ring) { r = u64 (t.ring.r + length xs) };
        reader = reader_idle;
        delivered = t.delivered ++ xs;
      })

pub data Reach {ℓ} {A : Type ℓ} (s : Threads A) : Threads A → Type ℓ where
  here : Reach s s
  next : {t u : Threads A} → Reach s t → Step t u → Reach s u

-- What each thread relies on while it is between two steps.
abbrev Writing {ℓ} : {A : Type ℓ} → RingBuffer A → Writer A → Type ℓ
Writing rg writer_idle = Unit
Writing rg (loaded_r seen src) = Unit × (seen ≤ rg.r) × (rg.w ≤ seen + rg.cap) × (seen ≤ rg.w)
Writing rg (copied xs) =
    (get rg.cap rg.w (length xs) rg.buf ≡ xs) × (rg.w - rg.r + length xs ≤ rg.cap)

abbrev Reading {ℓ} : {A : Type ℓ} → RingBuffer A → Reader A → Type ℓ
Reading rg reader_idle = Unit
Reading rg (loaded_w seen want) = Unit × (rg.r ≤ seen) × (seen ≤ rg.w)
Reading rg (fetched xs) = (get rg.cap rg.r (length xs) rg.buf ≡ xs) × (rg.r + length xs ≤ rg.w)

pub record Consistent {ℓ} {A : Type ℓ} (t : Threads A) : Type ℓ where
  pub valid : IsValid t.ring
  pub history : t.delivered ++ contents t.ring ≡ t.sent
  pub writing : Writing t.ring t.writer
  pub reading : Reading t.ring t.reader
