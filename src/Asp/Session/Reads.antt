-- ===== src/Asp/Session/Reads.antt =====
-- How received bytes are to be handled, without a bound on any loop: one message after the other, until none is whole,
-- and one piece of the bytes after the other, until none is left.
use ardopb.Base.{ℕ, ◌+◌, ◌≤◌, ◌≡◌, Bool, true, false, List, [], ◌∷◌, ◌++◌, length, text}
use ardopb.Asp.Frame.{max_message, frame_get, frame_ok, frame_short, frame_error}
use ardopb.Asp.Session.{Io, Session, fail, tell, is_idle, is_raw}
use ardopb.Asp.Session.Receiving.{consume, decide_raw, append_in}

module _ {W : Type 0} (io : Io W) where
  -- The messages in the inbox are handled in their order; the flag says whether the session goes on.
  pub data Handles : Session W → Session W → Bool → Type 0 where
    waits : {s : Session W} → frame_get s.inbox ≡ frame_short → Handles s s true
    breaks :
        {s : Session W}
        → frame_get s.inbox ≡ frame_error
        → Handles s (fail io (text "malformed message") s) false
    ends :
        {s : Session W} (type : ℕ) (p : List ℕ) (n : ℕ)
        → frame_get s.inbox ≡ frame_ok type p n
        → is_idle (consume io type p n s).state ≡ true
        → Handles s (consume io type p n s) false
    message :
        {s u : Session W} {on : Bool} (type : ℕ) (p : List ℕ) (n : ℕ)
        → frame_get s.inbox ≡ frame_ok type p n
        → is_idle (consume io type p n s).state ≡ false
        → Handles (consume io type p n s) u on
        → Handles s u on

  -- All of the bytes are taken, in their order, unless the session ends or is raw.
  pub data Receives : List ℕ → Session W → Session W → Type 0 where
    all_taken : {s : Session W} → Receives [] s s
    hands_raw :
        {s : Session W} (b : ℕ) (bs : List ℕ)
        → is_raw (decide_raw io b s).state ≡ true
        → Receives (b ∷ bs) s (tell (λ w. io.text_arrived w (b ∷ bs) true) (decide_raw io b s))
    too_long :
        {s : Session W} (b : ℕ) (bs : List ℕ)
        → is_raw (decide_raw io b s).state ≡ false
        → length (decide_raw io b s).inbox ≡ max_message
        → Receives (b ∷ bs) s (fail io (text "message exceeds the maximum") (decide_raw io b s))
    stops :
        {s u : Session W} (b : ℕ) (part rest : List ℕ)
        → is_raw (decide_raw io b s).state ≡ false
        → length (decide_raw io b s).inbox + length (b ∷ part) ≤ max_message
        → Handles (append_in io (b ∷ part) (decide_raw io b s)) u false
        → Receives ((b ∷ part) ++ rest) s u
    piece :
        {s u v : Session W} (b : ℕ) (part rest : List ℕ)
        → is_raw (decide_raw io b s).state ≡ false
        → length (decide_raw io b s).inbox + length (b ∷ part) ≤ max_message
        → Handles (append_in io (b ∷ part) (decide_raw io b s)) u true
        → Receives rest u v
        → Receives ((b ∷ part) ++ rest) s v
