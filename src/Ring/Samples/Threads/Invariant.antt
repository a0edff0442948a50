-- ===== src/Ring/Samples/Threads/Invariant.antt =====
-- What the two threads keep in every order of their steps.
use ardopb.Base.{
  ℕ, ◌+◌, ◌-◌, ◌≤◌, ◌<◌, ◌^◌, ◌≡◌, ap, sym, ◌∙◌, arith, List, ◌++◌, length, min, u64, length-take,
}
use mathlib.Core.List.{append_assoc}
use ardopb.Ring.{RingBuffer, IsValid, contents, put, get, sub_size}
use ardopb.Ring.Copy.{length-put, length-get, in_round}
use ardopb.Ring.Contents.{get-put_self, get-put_before, get_split}
use ardopb.Ring.Publish.{released, released-IsValid, contents-released}
use ardopb.Ring.Samples.Threads.{
  Writer, writer_idle, loaded_r, copied, Reader, reader_idle, loaded_w, fetched, Threads, copy_in,
  copy_out, Step, load_r, copy_in_step, publish_w, load_w, copy_out_step, publish_r, Reach, here,
  next, Writing, Reading, Consistent,
}

-- The writer's copy.
stored {ℓ} : {A : Type ℓ} → RingBuffer A → List A → RingBuffer A
stored rg xs = record rg { buf = put rg.cap rg.w xs rg.buf }

module _ {ℓ} {A : Type ℓ} (rg : RingBuffer A) (v : IsValid rg) (xs : List A) where
  module _ (h : rg.w - rg.r + length xs ≤ rg.cap) where
    stored-IsValid : IsValid (stored rg xs)
    unfolding stored
    stored-IsValid = record {
      storage =
          length-put rg.cap rg.w xs rg.buf v.storage (omega arith)
            (in_round rg.cap rg.w v.some_room);
      some_room = v.some_room;
      cap_fits = v.cap_fits;
      in_order = v.in_order;
      bounded = v.bounded;
      w_fits = v.w_fits;
    }

    -- It leaves what the reader may read.
    get-stored :
        (n : ℕ) → rg.r + n ≤ rg.w → get rg.cap rg.r n (stored rg xs).buf ≡ get rg.cap rg.r n rg.buf
    unfolding stored
    get-stored n k =
        ap (λ (at : ℕ). get rg.cap rg.r n (put rg.cap at xs rg.buf)) (omega (arith, v.in_order))
        ∙ get-put_before rg.cap rg.r (rg.w - rg.r) xs rg.buf n v.storage v.some_room h (omega arith)

    stored_back : get rg.cap rg.w (length xs) (stored rg xs).buf ≡ xs
    unfolding stored
    stored_back = get-put_self rg.cap rg.w xs rg.buf v.storage v.some_room (omega arith)

  -- A publication appends what was copied in.
  contents-publish :
      get rg.cap rg.w (length xs) rg.buf ≡ xs
      → rg.w - rg.r + length xs ≤ rg.cap
      → rg.w + length xs < 2 ^ 64
      → contents (record rg { w = u64 (rg.w + length xs) }) ≡ contents rg ++ xs
  unfolding contents
  contents-publish e h k =
      ap (λ (m : ℕ). get rg.cap rg.r m rg.buf) (omega (arith, v.in_order))
      ∙ get_split rg.cap rg.r (rg.w - rg.r) (length xs) rg.buf v.storage v.some_room h
      ∙ ap (λ (at : ℕ). get rg.cap rg.r (rg.w - rg.r) rg.buf ++ get rg.cap at (length xs) rg.buf)
          (omega (arith, v.in_order))
      ∙ ap (λ (ys : List A). get rg.cap rg.r (rg.w - rg.r) rg.buf ++ ys) e

  publish-IsValid :
      rg.w - rg.r + length xs ≤ rg.cap
      → rg.w + length xs < 2 ^ 64
      → IsValid (record rg { w = u64 (rg.w + length xs) })
  publish-IsValid h k = record {
    storage = v.storage;
    some_room = v.some_room;
    cap_fits = v.cap_fits;
    in_order = omega (arith, v.in_order);
    bounded = omega (arith, v.in_order, v.bounded);
    w_fits = omega arith;
  }

-- What a thread relies on is not disturbed by the other.
module _ {ℓ} {A : Type ℓ} (rg : RingBuffer A) (v : IsValid rg) where
  Reading-stored :
      (xs : List A) (st : Reader A)
      → rg.w - rg.r + length xs ≤ rg.cap
      → Reading rg st
      → Reading (stored rg xs) st
  unfolding stored
  Reading-stored xs reader_idle h p = tt
  Reading-stored xs (loaded_w seen want) h p = p
  Reading-stored xs (fetched ys) h p = (get-stored rg v xs h (length ys) p.1 ∙ p.0, p.1)

  Reading-published :
      (n : ℕ) (st : Reader A)
      → rg.w + n < 2 ^ 64
      → Reading rg st
      → Reading (record rg { w = u64 (rg.w + n) }) st
  Reading-published n reader_idle k p = tt
  Reading-published n (loaded_w seen want) k p = (tt, p.1, omega (arith, p.2))
  Reading-published n (fetched ys) k p = (p.0, omega (arith, p.1))

  Writing-released :
      (n : ℕ) (st : Writer A) → rg.r + n ≤ rg.w → Writing rg st → Writing (released rg n) st
  unfolding released
  Writing-released n writer_idle k p = tt
  Writing-released n (loaded_r seen src) k p = (tt, omega (arith, p.1, v.w_fits), p.2, p.3)
  Writing-released n (copied xs) k p = (p.0, omega (arith, p.1, v.w_fits))

module _ {ℓ} {A : Type ℓ} (t : Threads A) (c : Consistent t) where
  copied_in :
      (seen : ℕ) (src : List A)
      → t.writer ≡ loaded_r seen src
      → Consistent (record t {
        ring = (copy_in t.ring seen src).0;
        writer = copied (copy_in t.ring seen src).1;
      })
  unfolding copy_in stored
  copied_in seen src e = record {
    valid = stored-IsValid t.ring c.valid xs fits;
    history = ap (λ (ys : List A). t.delivered ++ ys) same ∙ c.history;
    writing = (stored_back t.ring c.valid xs fits, fits);
    reading = Reading-stored t.ring c.valid xs t.reader fits c.reading;
  }
    where
      xs : List A
      xs = (copy_in t.ring seen src).1

      loaded : Writing t.ring (loaded_r seen src)
      loaded = rw e at c.writing

      fits : t.ring.w - t.ring.r + length xs ≤ t.ring.cap
      fits = omega (
        arith,
        loaded.1,
        loaded.2,
        loaded.3,
        c.valid.w_fits,
        c.valid.cap_fits,
        length-take (min (length src) (sub_size t.ring.cap (sub_size t.ring.w seen))) src,
      )

      same : contents (stored t.ring xs) ≡ contents t.ring
      same =
          unfold contents in
          get-stored t.ring c.valid xs fits (t.ring.w - t.ring.r) (omega (arith, c.valid.in_order))

  published_w :
      (xs : List A)
      → t.writer ≡ copied xs
      → t.ring.w + length xs < 2 ^ 64
      → Consistent (record t {
        ring = record (t.ring) { w = u64 (t.ring.w + length xs) };
        writer = writer_idle;
        sent = t.sent ++ xs;
      })
  published_w xs e k = record {
    valid = publish-IsValid t.ring c.valid xs ready.1 k;
    history =
        ap (λ (ys : List A). t.delivered ++ ys)
          (contents-publish t.ring c.valid xs ready.0 ready.1 k)
        ∙ sym (append_assoc t.delivered (contents t.ring) xs)
        ∙ ap (λ (ys : List A). ys ++ xs) c.history;
    writing = tt;
    reading = Reading-published t.ring c.valid (length xs) t.reader k c.reading;
  }
    where
      ready : Writing t.ring (copied xs)
      ready = rw e at c.writing

  fetched_out :
      (seen want : ℕ)
      → t.reader ≡ loaded_w seen want
      → Consistent (record t { reader = fetched (copy_out t.ring seen want) })
  unfolding copy_out
  fetched_out seen want e = record {
    valid = c.valid;
    history = c.history;
    writing = c.writing;
    reading = (
      ap (λ (m : ℕ). get t.ring.cap t.ring.r m t.ring.buf) size,
      omega (arith, size, loaded.1, loaded.2, c.valid.w_fits),
    );
  }
    where
      loaded : Reading t.ring (loaded_w seen want)
      loaded = rw e at c.reading

      size : length (copy_out t.ring seen want) ≡ min want (sub_size seen t.ring.r)
      size =
          length-get t.ring.cap t.ring.r _ t.ring.buf c.valid.storage
            (omega (arith, loaded.1, loaded.2, c.valid.w_fits, c.valid.bounded))
            (in_round t.ring.cap t.ring.r c.valid.some_room)

  published_r :
      (xs : List A)
      → t.reader ≡ fetched xs
      → Consistent (record t {
        ring = record (t.ring) { r = u64 (t.ring.r + length xs) };
        reader = reader_idle;
        delivered = t.delivered ++ xs;
      })
  unfolding released
  published_r xs e = record {
    valid = released-IsValid t.ring (length xs) c.valid (omega (arith, ready.1));
    history =
        append_assoc t.delivered xs (contents (released t.ring (length xs)))
        ∙ ap (λ (ys : List A). t.delivered ++ ys) (sym taken)
        ∙ c.history;
    writing = Writing-released t.ring c.valid (length xs) t.writer ready.1 c.writing;
    reading = tt;
  }
    where
      ready : Reading t.ring (fetched xs)
      ready = rw e at c.reading

      taken : contents t.ring ≡ xs ++ contents (released t.ring (length xs))
      taken =
          contents-released t.ring (length xs) c.valid (omega (arith, ready.1))
          ∙ ap (λ (ys : List A). ys ++ contents (released t.ring (length xs))) ready.0

-- Every step keeps the history and what the threads rely on.
Step-Consistent {ℓ} : {A : Type ℓ} {t u : Threads A} → Step t u → Consistent t → Consistent u
Step-Consistent {t = t} (load_r src e) c = record {
  valid = c.valid;
  history = c.history;
  writing = (tt, omega arith, c.valid.bounded, c.valid.in_order);
  reading = c.reading;
}
Step-Consistent {t = t} (copy_in_step seen src e) c = copied_in t c seen src e
Step-Consistent {t = t} (publish_w xs e k) c = published_w t c xs e k
Step-Consistent {t = t} (load_w want e) c = record {
  valid = c.valid;
  history = c.history;
  writing = c.writing;
  reading = (tt, c.valid.in_order, omega arith);
}
Step-Consistent {t = t} (copy_out_step seen want e) c = fetched_out t c seen want e
Step-Consistent {t = t} (publish_r xs e) c = published_r t c xs e

-- In every order of the steps of the two threads, each of which loads the other's counter, copies
-- and publishes its own, the samples delivered followed by those in the ring are those sent, and
-- the ring stays valid, as long as the counters are not counted round.
pub Reach-Consistent {ℓ} : {A : Type ℓ} {s t : Threads A} → Consistent s → Reach s t → Consistent t
Reach-Consistent c here = c
Reach-Consistent c (next r st) = Step-Consistent st (Reach-Consistent c r)
