-- ===== src/Ring/Publish.antt =====
-- A ring before and after one side publishes its counter.
use ardopb.Base.{ℕ, ◌+◌, ◌-◌, ◌≤◌, ◌<◌, ◌^◌, ◌≡◌, ap, ◌∙◌, arith, List, ◌++◌, length, u64}
use ardopb.Ring.{RingBuffer, IsValid, contents, put, get, sub_size}
use ardopb.Ring.Copy.{length-put, length-get, in_round}
use ardopb.Ring.Contents.{get-put, get_split}

module _ {ℓ} {A : Type ℓ} (rg : RingBuffer A) (v : IsValid rg) where
  pub used : sub_size rg.w rg.r ≡ rg.w - rg.r
  used = omega (arith, v.in_order, v.w_fits)

  pub room : sub_size rg.cap (rg.w - rg.r) ≡ rg.cap - (rg.w - rg.r)
  room = omega (arith, v.cap_fits, v.bounded)

  pub length-contents : length (contents rg) ≡ rg.w - rg.r
  unfolding contents
  length-contents =
      length-get rg.cap rg.r (rg.w - rg.r) rg.buf v.storage (omega (arith, v.bounded))
        (in_round rg.cap rg.r v.some_room)

-- A ring after some samples are copied in and published.
module _ {ℓ} {A : Type ℓ} (rg : RingBuffer A) (src : List A) where
  unfoldable pub published : RingBuffer A
  published = record rg { buf = put rg.cap rg.w src rg.buf; w = u64 (rg.w + length src) }

  module _ (v : IsValid rg) (h : rg.w - rg.r + length src ≤ rg.cap)
      (k : rg.w + length src < 2 ^ 64) where
    pub published-IsValid : IsValid published
    unfolding published
    published-IsValid = record {
      storage =
          length-put rg.cap rg.w src rg.buf v.storage (omega arith)
            (in_round rg.cap rg.w v.some_room);
      some_room = v.some_room;
      cap_fits = v.cap_fits;
      in_order = omega (arith, v.in_order);
      bounded = omega (arith, v.bounded, v.in_order);
      w_fits = omega arith;
    }

    pub contents-published : contents published ≡ contents rg ++ src
    unfolding published contents
    contents-published =
        ap (λ (m : ℕ). get rg.cap rg.r m (put rg.cap rg.w src rg.buf)) (omega (arith, v.in_order))
        ∙ ap (λ (at : ℕ). get rg.cap rg.r (rg.w - rg.r + length src) (put rg.cap at src rg.buf))
            (omega (arith, v.in_order))
        ∙ get-put rg.cap rg.r (rg.w - rg.r) src rg.buf v.storage v.some_room h

-- A ring after some samples are copied out and given up.
module _ {ℓ} {A : Type ℓ} (rg : RingBuffer A) (n : ℕ) where
  unfoldable pub released : RingBuffer A
  released = record rg { r = u64 (rg.r + n) }

  module _ (v : IsValid rg) (h : n ≤ rg.w - rg.r) where
    pub released-IsValid : IsValid released
    unfolding released
    released-IsValid = record {
      storage = v.storage;
      some_room = v.some_room;
      cap_fits = v.cap_fits;
      in_order = omega (arith, v.in_order, v.w_fits);
      bounded = omega (arith, v.bounded, v.in_order, v.w_fits);
      w_fits = v.w_fits;
    }

    pub contents-released : contents rg ≡ get rg.cap rg.r n rg.buf ++ contents released
    unfolding released contents
    contents-released =
        ap (λ (m : ℕ). get rg.cap rg.r m rg.buf) (omega arith)
        ∙ get_split rg.cap rg.r n (rg.w - rg.r - n) rg.buf v.storage v.some_room
            (omega (arith, v.bounded))
        ∙ ap (λ (m : ℕ). get rg.cap rg.r n rg.buf ++ get rg.cap (rg.r + n) m rg.buf)
            (omega (arith, v.w_fits))
        ∙ ap (λ (at : ℕ). get rg.cap rg.r n rg.buf ++ get rg.cap at (rg.w - at) rg.buf)
            (omega (arith, v.w_fits))
