-- ===== src/Asp/Session/Bounded/Sending.antt =====
-- The operations that the application calls stay within the buffers.
use ardopb.Base.{
  ℕ, ◌+◌, ◌-◌, min, u8, u16, if◌then◌else◌, ◌≤◌, arith, Bool, Option, none, some, List, length,
}
use ardopb.Asp.Frame.{
  max_message, max_payload, msg_text, msg_offer, msg_done, msg_cancel, msg_data, msg_accept,
  msg_reject,
}
use ardopb.Asp.Payloads.{Offer, offer_put, accept_put, id_code_put, id_put}
use ardopb.Asp.Session.{Io, Session, flush, end_rx}
use ardopb.Asp.Session.Sending.{
  chunk_size, reject_refused, written, open_session, close, send_text, offer_built, new_offer,
  offer_file, send_done, give_up_tx, send_chunk, pump_tx, cancel, answer_offer, service,
}
use ardopb.Asp.Session.Bounded.{Within, SendIsBounded, flush-Fits, queue_msg-Fits}

module _ {W : Type 0} (io : Io W) (sends : SendIsBounded io) where
  raw_line : Session W → List ℕ → Session W
  raw_line s line = record s { outbox = line; out_sent = 0 }

module _ {W : Type 0} {room : ℕ} (io : Io W) (sends : SendIsBounded io) where
  pub open_session-Fits :
      (world : W) (call : Option (List ℕ)) → Within room (open_session io world call)
  unfolding open_session
  open_session-Fits world call =
      queue_msg-Fits io sends _ _ _
        record { in_fits = omega arith; out_fits = omega arith; sent_fits = omega arith }

  pub close-Fits : (s : Session W) → Within room (close io s)
  unfolding close
  close-Fits s = record { in_fits = omega arith; out_fits = omega arith; sent_fits = omega arith }

  raw_line-Fits :
      (s : Session W) (line : List ℕ)
      → Within room s
      → length line ≤ max_message
      → Within room (flush io (raw_line io sends s line))
  unfolding raw_line
  raw_line-Fits s line h k =
      flush-Fits io sends _ record { in_fits = h.in_fits; out_fits = k; sent_fits = omega arith }

  pub send_text-Fits :
      (line : List ℕ) (s : Session W) → Within room s → Within room ((send_text io line s).0)
  unfolding send_text raw_line
  send_text-Fits line s h =
      ground (arith, h, raw_line-Fits s line h, queue_msg-Fits io sends msg_text line s h)

  offer_built-Fits :
      (o : Offer) (payload : Option (List ℕ)) (s : Session W)
      → Within room s
      → Within room ((offer_built io o payload s).0)
  unfolding offer_built
  offer_built-Fits o none s h = h
  offer_built-Fits o (some payload) s h =
      ground (arith, queue_msg-Fits io sends msg_offer payload s h)

  pub offer_file-Fits :
      (name kind : Option (List ℕ)) (size crc : ℕ) (s : Session W)
      → Within room s
      → Within room ((offer_file io name kind size crc s).0)
  unfolding offer_file
  offer_file-Fits name kind size crc s h =
      let o = new_offer io name kind size crc s in
      ground (
        arith,
        h,
        offer_built-Fits o (offer_put max_payload o) (record s { next_id = u16 (s.next_id + 1) })
            (record { in_fits = h.in_fits; out_fits = h.out_fits; sent_fits = h.sent_fits }),
      )

  pump_parts :
      (s : Session W)
      → Within room s
      → Within room (send_done io s)
        × Within room (give_up_tx io s)
        × ((got : List ℕ) → Within room (send_chunk io got s))
  unfolding send_done give_up_tx send_chunk
  pump_parts s h = (
    ground (arith, queue_msg-Fits io sends msg_done (written (id_put 8 s.tx.tx_id)) s h),
    ground (
      arith,
      queue_msg-Fits io sends msg_cancel (written (id_code_put 8 s.tx.tx_id reject_refused)) s h,
    ),
    λ got. ground (arith, queue_msg-Fits io sends msg_data got s h),
  )

  pub pump_tx-Fits : (s : Session W) → Within room s → Within room (pump_tx io s)
  unfolding pump_tx
  pump_tx-Fits s h =
      let parts = pump_parts s h in
      ground (
        arith,
        h,
        parts.0,
        parts.1,
        parts.2
            (io.read_file s.world s.tx.tx_offset (min (s.tx.tx_size - s.tx.tx_offset) chunk_size)),
      )

  pub service-Fits : (s : Session W) → Within room s → Within room (service io s)
  unfolding service
  service-Fits s h = pump_tx-Fits (flush io s) (flush-Fits io sends s h)

  pub cancel-Fits :
      (inbound : Bool) (reason : ℕ) (s : Session W)
      → Within room s
      → Within room ((cancel io inbound reason s).0)
  unfolding cancel
  cancel-Fits inbound reason s h = ground (
    arith,
    h,
    queue_msg-Fits io sends msg_cancel
        (written (id_code_put 8 (if inbound then s.rx.rx_id else s.tx.tx_id) (u8 reason))) s h,
  )

  pub answer_offer-Fits :
      (accept : Bool) (have prefix reason : ℕ) (s : Session W)
      → Within room s
      → Within room ((answer_offer io accept have prefix reason s).0)
  unfolding answer_offer
  answer_offer-Fits accept have prefix reason s h = ground (
    arith,
    h,
    queue_msg-Fits io sends msg_accept
        (written (accept_put 16 (record { id = s.rx.rx_id; have = have; prefix_crc = prefix }))) s
        h,
    queue_msg-Fits io sends msg_reject (written (id_code_put 8 s.rx.rx_id (u8 reason))) (end_rx s)
        (record { in_fits = h.in_fits; out_fits = h.out_fits; sent_fits = h.sent_fits }),
  )
