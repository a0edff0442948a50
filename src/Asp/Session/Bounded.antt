-- ===== src/Asp/Session/Bounded.antt =====
-- What a session sends stays within its buffer.
pub mod Sending
pub mod Receiving
use ardopb.Base.{
  ℕ, zero, suc, ◌+◌, ◌-◌, ◌%◌, ◌^◌, ◌≤◌, ◌≡◌, refl, arith, min, Bool, true, false, not, Option,
  none, some, List, [], ◌∷◌, ◌++◌, length, take, drop, ltb, ◌==◌, if◌then◌else◌, length-append,
  length-take, length-drop, Option-cases, inl, inr, Bool-cases,
}
use ardopb.Asp.Varint.{varint_put}
use ardopb.Asp.Frame.{frame_put, max_message, max_payload}
use ardopb.Asp.Session.{Io, Session, queue_bytes, queue_msg, flush_loop, flush, fail}

-- The bytes in use lie within the buffers, and those sent among those to send. The bound of the bytes
-- received is left open.
pub record Within {W : Type 0} (room : ℕ) (s : Session W) : Type 0 where
  pub in_fits : length s.inbox ≤ room
  pub out_fits : length s.outbox ≤ max_message
  pub sent_fits : s.out_sent ≤ length s.outbox

abbrev pub Fits : {W : Type 0} → Session W → Type 0
Fits s = Within max_message s

-- `send` takes no more bytes than it is given.
abbrev pub SendIsBounded : {W : Type 0} → Io W → Type 0
SendIsBounded {W} io = (w : W) (bytes : List ℕ) → (io.send w bytes).1 ≤ length bytes

pub frame_put_fits :
    (cap type : ℕ) (payload bytes : List ℕ)
    → frame_put cap type payload ≡ some bytes
    → length bytes ≤ cap
unfolding frame_put
frame_put_fits cap type payload bytes e =
    elim (Option-cases (varint_put (cap - 1) (length payload % 2 ^ 32))) [
      | inl x ↦ ground (arith, e, x)
      | inr (v, x) ↦ ground (arith, e, x, length-append v payload)
    ]

module _ {W : Type 0} (io : Io W) (sends : SendIsBounded io) where
  -- One round of the loop.
  advanced : Session W → Session W
  advanced s =
      let sent = io.send s.world (drop s.out_sent s.outbox) in
      record s { world = sent.0; out_sent = s.out_sent + sent.1 }

module _ {W : Type 0} {room : ℕ} (io : Io W) (sends : SendIsBounded io) where
  advanced-Fits : (s : Session W) → Within room s → Within room (advanced io sends s)
  unfolding advanced
  advanced-Fits s h = record {
    in_fits = h.in_fits;
    out_fits = h.out_fits;
    sent_fits = omega (
      arith,
      sends s.world (drop s.out_sent s.outbox),
      length-drop s.out_sent s.outbox,
      h.sent_fits,
    );
  }

  pub flush_loop-Fits :
      (rounds : ℕ) (s : Session W) → Within room s → Within room (flush_loop io rounds s)
  unfolding flush_loop advanced
  flush_loop-Fits zero s h = h
  flush_loop-Fits (suc rounds) s h =
      ground (arith, h, flush_loop-Fits rounds (advanced io sends s) (advanced-Fits s h))

  pub flush-Fits : (s : Session W) → Within room s → Within room (flush io s)
  unfolding flush
  flush-Fits s h = flush_loop-Fits (suc (length s.outbox)) s h

  pub queue_bytes-Fits :
      (s : Session W) (bytes : Option (List ℕ))
      → Within room s
      → ((b : List ℕ) → bytes ≡ some b → length b ≤ max_message)
      → Within room ((queue_bytes io s bytes).0)
  unfolding queue_bytes
  queue_bytes-Fits s none h k = h
  queue_bytes-Fits s (some b) h k =
      flush-Fits _ record { in_fits = h.in_fits; out_fits = k b refl; sent_fits = omega arith }

  pub queue_msg-Fits :
      (type : ℕ) (payload : List ℕ) (s : Session W)
      → Within room s
      → Within room ((queue_msg io type payload s).0)
  unfolding queue_msg
  queue_msg-Fits type payload s h = ground (
    arith,
    h,
    queue_bytes-Fits s (frame_put max_message type payload) h
        (frame_put_fits max_message type payload),
  )
