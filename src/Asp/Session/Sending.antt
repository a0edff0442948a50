-- ===== src/Asp/Session/Sending.antt =====
-- app/asp.c: opening and closing a session, chat lines, and the operations of both transfers.
use ardopb.Base.{
  ℕ, ◌+◌, ◌-◌, ◌%◌, ◌^◌, min, u8, u16, ltb, leb, ◌==◌, Bool, true, false, not, ◌&&◌, ◌||◌, Option,
  none, some, List, [], length, text, snprintf, bit_and, if◌then◌else◌,
}
use ardopb.Asp.Frame.{
  msg_hello, msg_text, msg_offer, msg_accept, msg_reject, msg_data, msg_done, msg_cancel,
  max_payload, max_message,
}
use ardopb.Asp.Payloads.{
  max_call, max_name, content_type_size, Hello, Accept, Offer, hello_put, offer_put, accept_put,
  id_code_put, id_put,
}
use ardopb.Asp.Session.{
  idle, hello_sent, xfer_none, offered, running, await_result, receiving, Io, Outbound, Inbound,
  Session, set_tx, set_rx, tell, end_tx, end_rx, can_queue, flush, queue_msg, is_hello_sent, is_asp,
  is_raw, is_xfer,
}

abbrev pub chunk_size : ℕ
chunk_size = 1024

abbrev pub version : ℕ
version = 1

abbrev pub cap_files : ℕ
cap_files = 1

abbrev pub cap_resume : ℕ
cap_resume = 2

-- `asp_reject_code` and `asp_result_code`, as far as they are used.
abbrev pub reject_refused : ℕ
reject_refused = 0

abbrev pub reject_bad_name : ℕ
reject_bad_name = 4

abbrev pub result_ok : ℕ
result_ok = 0

abbrev pub result_crc_mismatch : ℕ
result_crc_mismatch = 1

abbrev pub result_short : ℕ
result_short = 2

abbrev pub result_write_failed : ℕ
result_write_failed = 3

-- What a builder wrote, nothing for the result 0.
abbrev pub written : Option (List ℕ) → List ℕ
written none = []
written (some bytes) = bytes

no_tx : Outbound
no_tx = record { tx_state = xfer_none; tx_id = 0; tx_size = 0; tx_offset = 0; tx_crc = 0 }

no_rx : Inbound
no_rx = record {
  rx_state = xfer_none;
  rx_id = 0;
  rx_size = 0;
  rx_have = 0;
  rx_crc = 0;
  rx_running_crc = 0;
  rx_name = [];
}

text_or : Option (List ℕ) → List ℕ → List ℕ
text_or none d = d
text_or (some s) d = s

module _ {W : Type 0} (io : Io W) where
  unfoldable pub open_session : W → Option (List ℕ) → Session W
  unfolding no_tx no_rx text_or
  open_session world call =
      let my_call = snprintf max_call (text_or call []) in
      let fresh : Session W = record {
        world = world;
        state = hello_sent;
        my_call = my_call;
        peer_call = [];
        peer_caps = 0;
        inbox = [];
        outbox = [];
        out_sent = 0;
        tx = no_tx;
        rx = no_rx;
        next_id = 1;
      } in
      let hello : Hello = record {
        version = version;
        caps = cap_files + cap_resume;
        call = my_call;
      } in
      (queue_msg io msg_hello (written (hello_put max_payload hello)) fresh).0

  unfoldable pub close : Session W → Session W
  close s = end_rx (end_tx (record s { state = idle; inbox = []; outbox = []; out_sent = 0 }))

  unfoldable pub can_send_files : Session W → Bool
  can_send_files s =
      is_asp s.state
      && (not (bit_and s.peer_caps cap_files == 0) && is_xfer s.tx.tx_state xfer_none)

  unfoldable pub send_text : List ℕ → Session W → Session W × Bool
  send_text line s =
      if ltb max_payload (length line)
      then (s, false)
      else if is_raw s.state
      then (if not (can_queue s) || ltb max_message (length line)
          then (s, false)
          else (flush io (record s { outbox = line; out_sent = 0 }), true))
      else if not (is_asp s.state) && not (is_hello_sent s.state)
      then (s, false)
      else queue_msg io msg_text line s

  -- The offer that was built, where it was taken.
  unfoldable pub offer_built : Offer → Option (List ℕ) → Session W → Session W × Bool
  offer_built o none s = (s, false)
  offer_built o (some payload) s =
      let q = queue_msg io msg_offer payload s in
      if q.1
      then (
        record (q.0) {
          tx = record {
            tx_state = offered;
            tx_id = o.id;
            tx_size = o.size;
            tx_offset = 0;
            tx_crc = o.crc32;
          };
        },
        true,
      )
      else (q.0, false)

  unfoldable pub new_offer : Option (List ℕ) → Option (List ℕ) → ℕ → ℕ → Session W → Offer
  unfolding text_or
  new_offer name content_type size crc s = record {
    id = s.next_id;
    size = size;
    crc32 = crc;
    name = snprintf (max_name + 1) (text_or name (text "file"));
    content_type =
        snprintf content_type_size (text_or content_type (text "application/octet-stream"));
  }

  unfoldable pub offer_file :
      Option (List ℕ) → Option (List ℕ) → ℕ → ℕ → Session W → Session W × Bool
  offer_file name content_type size crc s =
      let o = new_offer name content_type size crc s in
      if can_send_files s
      then offer_built o (offer_put max_payload o) (record s { next_id = u16 (s.next_id + 1) })
      else (s, false)

  -- The end of the file is announced.
  unfoldable pub send_done : Session W → Session W
  send_done s =
      let q = queue_msg io msg_done (written (id_put 8 s.tx.tx_id)) s in
      if q.1 then set_tx (λ t. record t { tx_state = await_result }) q.0 else q.0

  -- The file could not be read.
  unfoldable pub give_up_tx : Session W → Session W
  give_up_tx s =
      let q = queue_msg io msg_cancel (written (id_code_put 8 s.tx.tx_id reject_refused)) s in
      tell (λ w. io.transfer_done w false s.tx.tx_id result_short) (end_tx q.0)

  unfoldable pub send_chunk : List ℕ → Session W → Session W
  send_chunk got s =
      let q = queue_msg io msg_data got s in
      let offset = (s.tx.tx_offset + length got) % 2 ^ 32 in
      if q.1
      then tell (λ w. io.progress w false offset s.tx.tx_size)
          (set_tx (λ t. record t { tx_offset = offset }) q.0)
      else q.0

  unfoldable pub pump_tx : Session W → Session W
  pump_tx s =
      let want = min (s.tx.tx_size - s.tx.tx_offset) chunk_size in
      let got = io.read_file s.world s.tx.tx_offset want in
      if not (is_xfer s.tx.tx_state running) || not (can_queue s)
      then s
      else if ltb (io.credit s.world) (chunk_size + 8)
      then s
      else if leb s.tx.tx_size s.tx.tx_offset
      then send_done s
      else if length got == 0
      then give_up_tx s
      else send_chunk got s

  unfoldable pub cancel : Bool → ℕ → Session W → Session W × Bool
  cancel inbound reason s =
      let id = if inbound then s.rx.rx_id else s.tx.tx_id in
      let q = queue_msg io msg_cancel (written (id_code_put 8 id (u8 reason))) s in
      if is_xfer (if inbound then s.rx.rx_state else s.tx.tx_state) xfer_none
      then (s, false)
      else if q.1
      then ((if inbound then end_rx q.0 else end_tx q.0), true)
      else (q.0, false)

  unfoldable pub answer_offer : Bool → ℕ → ℕ → ℕ → Session W → Session W × Bool
  answer_offer accept have prefix_crc reason s =
      let a : Accept = record { id = s.rx.rx_id; have = have; prefix_crc = prefix_crc } in
      let q = queue_msg io msg_accept (written (accept_put 16 a)) s in
      if not (is_xfer s.rx.rx_state receiving)
      then (s, false)
      else if not accept
      then queue_msg io msg_reject (written (id_code_put 8 s.rx.rx_id (u8 reason))) (end_rx s)
      else if q.1
      then (set_rx (λ r. record r { rx_have = have; rx_running_crc = prefix_crc }) q.0, true)
      else (q.0, false)

  unfoldable pub service : Session W → Session W
  service s = pump_tx (flush io s)
