-- ===== src/Asp/Session/Calls.antt =====
-- A session from its opening, under any calls of the application and any bytes from the peer.
use ardopb.Base.{ℕ, Bool, List, [], ◌∷◌, Option}
use ardopb.Asp.Session.{Io, Session}
use ardopb.Asp.Session.Sending.{
  open_session, close, send_text, offer_file, cancel, answer_offer, service,
}
use ardopb.Asp.Session.Receiving.{recv}
use ardopb.Asp.Session.Bounded.{Fits, SendIsBounded}
use ardopb.Asp.Session.Bounded.Sending.{
  open_session-Fits, close-Fits, send_text-Fits, offer_file-Fits, cancel-Fits, answer_offer-Fits,
  service-Fits,
}
use ardopb.Asp.Session.Bounded.Receiving.{recv-Fits}

pub data Call : Type 0 where
  receives : List ℕ → Call
  serviced : Call
  sends_text : List ℕ → Call
  offers_file : Option (List ℕ) → Option (List ℕ) → ℕ → ℕ → Call
  answers_offer : Bool → ℕ → ℕ → ℕ → Call
  cancels : Bool → ℕ → Call
  closes : Call

module _ {W : Type 0} (io : Io W) where
  unfoldable pub apply : Call → Session W → Session W
  apply (receives bytes) s = recv io bytes s
  apply serviced s = service io s
  apply (sends_text line) s = (send_text io line s).0
  apply (offers_file name kind size crc) s = (offer_file io name kind size crc s).0
  apply (answers_offer accept have prefix reason) s =
      (answer_offer io accept have prefix reason s).0
  apply (cancels inbound reason) s = (cancel io inbound reason s).0
  apply closes s = close io s

  unfoldable pub apply_all : List Call → Session W → Session W
  apply_all [] s = s
  apply_all (c ∷ cs) s = apply_all cs (apply c s)

module _ {W : Type 0} (io : Io W) (sends : SendIsBounded io) where
  apply-Fits : (c : Call) (s : Session W) → Fits s → Fits (apply io c s)
  unfolding apply
  apply-Fits (receives bytes) s h = recv-Fits io sends bytes s h
  apply-Fits serviced s h = service-Fits io sends s h
  apply-Fits (sends_text line) s h = send_text-Fits io sends line s h
  apply-Fits (offers_file name kind size crc) s h = offer_file-Fits io sends name kind size crc s h
  apply-Fits (answers_offer accept have prefix reason) s h =
      answer_offer-Fits io sends accept have prefix reason s h
  apply-Fits (cancels inbound reason) s h = cancel-Fits io sends inbound reason s h
  apply-Fits closes s h = close-Fits io sends s

  apply_all-Fits : (cs : List Call) (s : Session W) → Fits s → Fits (apply_all io cs s)
  unfolding apply_all
  apply_all-Fits [] s h = h
  apply_all-Fits (c ∷ cs) s h = apply_all-Fits cs (apply io c s) (apply-Fits c s h)

-- Whatever calls an application makes on a session after opening it, and whatever bytes come from the peer,
-- the bytes in use of both buffers stay within them, and no more are counted as sent than there
-- are to send, as long as `send` takes no more bytes than it is given.
pub session-Fits :
    {W : Type 0} (io : Io W) (world : W) (call : Option (List ℕ)) (calls : List Call)
    → SendIsBounded io
    → Fits (apply_all io calls (open_session io world call))
session-Fits io world call calls sends =
    apply_all-Fits io sends calls (open_session io world call)
      (open_session-Fits io sends world call)
