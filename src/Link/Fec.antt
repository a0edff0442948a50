-- ===== src/Link/Fec.antt =====
-- core/link/link.c: the FEC broadcast, the FEC receiver and the receive-only monitor.
use ardopb.Base.{ℕ, ◌+◌, Bool, true, not, ◌&&◌, ◌||◌, Option, none, some, List}
use ardopb.Base.{◌++◌, length, take, ltb, ◌==◌, if◌then◌else◌, snprintf, text}
use ardopb.Base.Int.{pos, ltb_ℤ}
use ardopb.Codec.Crc.{crc16}
use ardopb.Codec.DataFrame.{nothing, failed, frame, encode_data_frame}
use ardopb.Codec.Frame.{FrameSpec, spec_for, is_data}
use ardopb.Link.Irs.{deliver, is_type}
use ardopb.Link.Send.{frame_capacity, tx_dequeue, notify_buffer}
use ardopb.Link.State.{Link, Event, tx_len}
use ardopb.Link.Turn.{
  Turn, ◌▷◌, change, fault, set_session, set_sender, set_timers, write_frame, send_built, tell_host,
  reset_to_disc, is_decoded,
}

-- The broadcast ends with a status message.
abbrev end_broadcast : List ℕ → Turn → Turn
end_broadcast message t = t ▷ tell_host message ▷ change reset_to_disc

-- The encoded frame goes out, and its bytes leave the queue at once.
unfoldable pub send_fec_frame : ℕ → List ℕ → Turn → Turn
send_fec_frame taken bytes t =
    t
    ▷ change (write_frame bytes)
    ▷ change (tx_dequeue taken)
    ▷ notify_buffer
    ▷ change (set_sender λ s. record s { fec_reps_sent = 0 })
    ▷ change (
        set_timers λ r. record r {
          repeat_frame_type = t.link.config.fec_frame_type;
          repeat_frame_len = length bytes;
        })
    ▷ send_built t.link.config.fec_frame_type (length bytes)

-- The fault stands for the NULL code.
unfoldable pub broadcast : ℕ → Turn → Turn
broadcast cap t = elim t.link.config.rs [
  | none ↦ fault t
  | some rs ↦
      let payload = take cap t.link.sender.tx_data in
      elim (encode_data_frame rs t.link.config.fec_frame_type 0 payload) [
        | nothing ↦ end_broadcast (text "STATUS FEC send failed: encode error") t
        | failed bytes ↦
            end_broadcast (text "STATUS FEC send failed: encode error")
              (change (write_frame bytes) t)
        | frame bytes ↦ send_fec_frame (length payload) bytes t
      ]
]

unfoldable pub fec_send_next : Turn → Turn
fec_send_next t =
    let cap = frame_capacity t.link.config.fec_frame_type in
    if tx_len t.link == 0
    then end_broadcast (text "STATUS FEC send complete") t
    else if cap == 0
    then end_broadcast (text "STATUS FEC send failed: invalid FECMODE") t
    else broadcast cap t

unfoldable pub step_fec_tx_done : Turn → Turn
step_fec_tx_done t =
    let r = t.link.timers in
    if ltb_ℤ (pos t.link.sender.fec_reps_sent) t.link.config.fec_repeats
    then t
      ▷ change (set_sender λ s. record s { fec_reps_sent = s.fec_reps_sent + 1 })
      ▷ send_built r.repeat_frame_type r.repeat_frame_len
    else fec_send_next t

-- Whether an event repeats the last payload delivered.
unfoldable pub is_repeat : Event → Link → Bool
is_repeat ev l =
    l.sender.fec_have_last
    && is_type ev.frame_type l.session.last_data_to_host
    && (crc16 ev.payload == l.sender.last_fec_crc)

unfoldable pub deliver_fec : Event → Turn → Turn
deliver_fec ev t =
    t
    ▷ deliver ev.payload
    ▷ change (set_session λ s. record s { last_data_to_host = some ev.frame_type })
    ▷ change (set_sender λ s. record s { last_fec_crc = crc16 ev.payload; fec_have_last = true })

unfoldable pub step_fec_rx : Event → Turn → Turn
step_fec_rx ev t =
    if not (is_decoded ev) || not (is_data ev.frame_type) || (length ev.payload == 0)
    then t
    else if is_repeat ev t.link
    then t
    else deliver_fec ev t

abbrev spec_name : Option FrameSpec → List ℕ
spec_name none = text "?"
spec_name (some spec) = spec.name

unfoldable pub step_rxo_rx : Event → Turn → Turn
step_rxo_rx ev t =
    let u = if ltb 0 (length ev.payload) then deliver ev.payload t else t in
    if not (is_decoded ev)
    then t
    else tell_host
        (snprintf 64
          (text "STATUS [RXO] " ++ (spec_name (spec_for ev.frame_type) ++ text " received")))
        u
