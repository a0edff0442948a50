-- ===== src/Asp/Session/Handled.antt =====
-- The inner loop of `asp_recv` handles every whole message, and one of its outer loop's rounds a piece of the bytes.
use ardopb.Base.{
  ℕ, zero, suc, ◌+◌, ◌-◌, ◌≤◌, ◌<◌, ◌≡◌, inl, inr, refl, arith, true, false, Bool-cases, List, ◌∷◌,
  length, take, drop, take-append-drop, length-drop, length-take,
}
use ardopb.Asp.Frame.{max_message, frame_get, frame_short}
use ardopb.Asp.Frame.Verdicts.{FrameStatus-cases, frame_get_inside}
use ardopb.Asp.Session.{Io, Session, fail, is_idle, is_raw}
use ardopb.Asp.Session.Receiving.{dispatch, consume, frames_loop, decide_raw, append_in}
use ardopb.Asp.Session.Bounded.{Within, Fits, SendIsBounded}
use ardopb.Asp.Session.Bounded.Receiving.{dispatch-Fits, consume-Fits}
use ardopb.Asp.Session.Reads.{Handles, waits, breaks, ends, message, Receives, piece, stops}

module _ {W : Type 0} (io : Io W) (sends : SendIsBounded io) where
  consume_shorter :
      (type : ℕ) (p : List ℕ) (consumed : ℕ) (s : Session W)
      → length s.outbox ≤ max_message
      → s.out_sent ≤ length s.outbox
      → length (consume io type p consumed s).inbox ≤ length s.inbox - consumed
  unfolding consume
  consume_shorter type p consumed s o k =
      let d : Within (length s.inbox) (dispatch io type p s) =
        dispatch-Fits io sends type p s
          (record { in_fits = omega arith; out_fits = o; sent_fits = k }) in
      omega (arith, d.in_fits, length-drop consumed (dispatch io type p s).inbox)

  consume_next :
      (type : ℕ) (p : List ℕ) (consumed rounds : ℕ) (s : Session W)
      → Fits s
      → length s.inbox < suc rounds
      → 0 < consumed
      → consumed ≤ length s.inbox
      → length (consume io type p consumed s).inbox < rounds
  consume_next type p consumed rounds s h k z l =
      omega (arith, consume_shorter type p consumed s h.out_fits h.sent_fits)

module _ {W : Type 0} (io : Io W) (sends : SendIsBounded io) where
  pub frames_loop-Handles :
      (rounds : ℕ) (s : Session W)
      → Fits s
      → length s.inbox < rounds
      → Handles io s (frames_loop io rounds s).0 (frames_loop io rounds s).1
  unfolding frames_loop
  frames_loop-Handles zero s h k = absurd (omega arith)
  frames_loop-Handles (suc rounds) s h k = elim (FrameStatus-cases (frame_get s.inbox)) [
    | inl e ↦ rw (e, frames_loop) (waits e)
    | inr (inl e) ↦ rw (e, frames_loop) (breaks e)
    | inr (inr (type, p, n, e)) ↦
        (let got = frame_get_inside s.inbox type n p e in
          elim (Bool-cases (is_idle (consume io type p n s).state)) [
            | inl ended ↦ rw (e, frames_loop, ended) (ends type p n e ended)
            | inr goes_on ↦
                rw (e, frames_loop, goes_on)
                  (message type p n e goes_on (
                    frames_loop-Handles rounds (consume io type p n s)
                      (consume-Fits io sends type p n s h)
                      (consume_next io sends type p n rounds s h k got.2 got.0)))
          ])
  ]

module _ {W : Type 0} (io : Io W) where
  pub Handles-short : {s u : Session W} → Handles io s u true → frame_get u.inbox ≡ frame_short
  Handles-short (waits e) = e
  Handles-short (message type p n e g h) = Handles-short h

  pub Handles-idle : {s u : Session W} → Handles io s u false → is_idle u.state ≡ true
  unfolding fail
  Handles-idle (breaks e) = refl
  Handles-idle (ends type p n e i) = i
  Handles-idle (message type p n e g h) = Handles-idle h

  -- A piece as the outer loop takes it.
  pub takes_piece :
      (n b : ℕ) (bs : List ℕ) {s u v : Session W}
      → is_raw (decide_raw io b s).state ≡ false
      → 0 < n
      → n ≤ length (b ∷ bs)
      → length (decide_raw io b s).inbox + n ≤ max_message
      → Handles io (append_in io (take n (b ∷ bs)) (decide_raw io b s)) u true
      → Receives io (drop n (b ∷ bs)) u v
      → Receives io (b ∷ bs) s v
  takes_piece zero b bs r z l k h rest = absurd (omega arith)
  takes_piece (suc m) b bs r z l k h rest =
      rw (take-append-drop m bs) at
        (piece b (take m bs) (drop m bs) r (omega (arith, length-take m bs)) h rest)

  pub takes_last :
      (n b : ℕ) (bs : List ℕ) {s u : Session W}
      → is_raw (decide_raw io b s).state ≡ false
      → 0 < n
      → n ≤ length (b ∷ bs)
      → length (decide_raw io b s).inbox + n ≤ max_message
      → Handles io (append_in io (take n (b ∷ bs)) (decide_raw io b s)) u false
      → Receives io (b ∷ bs) s u
  takes_last zero b bs r z l k h = absurd (omega arith)
  takes_last (suc m) b bs r z l k h =
      rw (take-append-drop m bs) at
        (stops b (take m bs) (drop m bs) r (omega (arith, length-take m bs)) h)
