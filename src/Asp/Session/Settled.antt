-- ===== src/Asp/Session/Settled.antt =====
-- The loops of `asp_recv` go on until no whole message is left.
use ardopb.Base.{◌≡◌, ◌⊎◌, true}
use ardopb.Asp.Frame.{frame_get, frame_short}
use ardopb.Asp.Session.{Session, is_idle, is_raw}

-- The session has ended, is raw, or waits for the rest of a message.
abbrev pub Rests : {W : Type 0} → Session W → Type 0
Rests s = (is_idle s.state ≡ true) ⊎ (is_raw s.state ≡ true) ⊎ (frame_get s.inbox ≡ frame_short)
