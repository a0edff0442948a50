-- ===== src/Asp/Session/Receiving.antt =====
-- app/asp.c: the handlers of the messages, and how bytes become messages.
use ardopb.Base.{
  ℕ, zero, suc, ◌+◌, ◌-◌, ◌%◌, ◌^◌, min, ltb, leb, ◌==◌, Bool, true, false, not, ◌&&◌, ◌||◌, Option,
  none, some, List, [], ◌∷◌, ◌++◌, length, take, drop, text, snprintf, if◌then◌else◌,
}
use ardopb.Asp.Crc.{crc32}
use ardopb.Asp.Frame.{
  msg_hello, msg_bye, msg_text, msg_text_b, msg_offer, msg_accept, msg_reject, msg_start, msg_data,
  msg_done, msg_result, msg_cancel, max_message, frame_ok, frame_short, frame_error, frame_get,
}
use ardopb.Asp.Payloads.{
  max_call, max_name, Hello, Offer, Accept, TextB, hello_get, offer_get, accept_get, id_code_put,
  id_code_get, start_put, start_get, id_get, text_b_get,
}
use ardopb.Asp.SafeName.{safe_name}
use ardopb.Asp.Session.{
  idle, asp, raw, xfer_none, offered, running, receiving, Io, Session, set_state, set_tx, set_rx,
  tell, end_tx, end_rx, queue_msg, fail, is_idle, is_hello_sent, is_raw, is_xfer,
}
use ardopb.Asp.Session.Sending.{
  chunk_size, reject_refused, reject_bad_name, result_ok, result_crc_mismatch, result_short,
  result_write_failed, written, answer_offer,
}

module _ {W : Type 0} (io : Io W) where
  unfoldable pub refuse_offer : ℕ → ℕ → Session W → Session W
  refuse_offer id code s = (queue_msg io msg_reject (written (id_code_put 8 id code)) s).0

  -- The callback accepts an offer at once, or leaves it to the operator.
  unfoldable pub decide_offer : Option (ℕ × ℕ) → Session W → Session W
  decide_offer none s = s
  decide_offer (some (have, prefix)) s = (answer_offer io true have prefix reject_refused s).0

  unfoldable pub take_offer : Offer → List ℕ → Session W → Session W
  take_offer o name s =
      let called = io.offer_arrived s.world o in
      decide_offer called.1 (record s {
        world = called.0;
        rx = record {
          rx_state = receiving;
          rx_id = o.id;
          rx_size = o.size;
          rx_have = 0;
          rx_crc = o.crc32;
          rx_running_crc = 0;
          rx_name = name;
        };
      })

  -- A refused name leaves `rx_name` as it was; in the program it holds what was made of the name, which
  -- nothing reads.
  unfoldable pub name_offer : Offer → Option (List ℕ) → Session W → Session W
  name_offer o none s = refuse_offer o.id reject_bad_name s
  name_offer o (some name) s = take_offer o name s

  unfoldable pub on_offer : Option Offer → Session W → Session W
  on_offer none s = fail io (text "malformed OFFER") s
  on_offer (some o) s =
      if not (is_xfer s.rx.rx_state xfer_none)
      then refuse_offer o.id reject_refused s
      else name_offer o (safe_name o.name (max_name + 1)) s

  -- The checksum of the first bytes of the file, `none` where it cannot be read. Each round reads a byte
  -- at least.
  unfoldable pub prefix_loop : W → ℕ → ℕ → ℕ → ℕ → Option ℕ
  prefix_loop w zero have off crc = some crc
  prefix_loop w (suc rounds) have off crc =
      let got = io.read_file w off (min (have - off) chunk_size) in
      let rest = prefix_loop w rounds have ((off + length got) % 2 ^ 32) (crc32 crc got) in
      if leb have off then some crc else if length got == 0 then none else rest

  unfoldable pub prefix_matches : Option ℕ → ℕ → Bool
  prefix_matches none crc = false
  prefix_matches (some c) crc = c == crc

  unfoldable pub start_from : Session W → Accept → ℕ
  start_from s a =
      let crc = prefix_loop s.world (a.have + 1) a.have 0 0 in
      if not (a.have == 0) && leb a.have s.tx.tx_size
      then (if prefix_matches crc a.prefix_crc then a.have else 0)
      else 0

  unfoldable pub begin_tx : ℕ → Session W → Session W
  begin_tx from s =
      let q = queue_msg io msg_start (written (start_put 8 s.tx.tx_id from)) s in
      if q.1
      then tell (λ w. io.progress w false from s.tx.tx_size)
          (set_tx (λ t. record t { tx_offset = from; tx_state = running }) q.0)
      else q.0

  unfoldable pub on_accept : Option Accept → Session W → Session W
  on_accept none s = fail io (text "malformed ACCEPT") s
  on_accept (some a) s =
      if not (is_xfer s.tx.tx_state offered) || not (a.id == s.tx.tx_id)
      then s
      else begin_tx (start_from s a) s

  unfoldable pub on_start : Option (ℕ × ℕ) → Session W → Session W
  on_start none s = fail io (text "malformed START") s
  on_start (some (id, from)) s =
      let again =
        if (from == 0) && ltb 0 s.rx.rx_have
        then tell io.truncate_file (set_rx (λ r. record r { rx_running_crc = 0 }) s)
        else s in
      if not (is_xfer s.rx.rx_state receiving) || not (id == s.rx.rx_id)
      then s
      else set_rx (λ r. record r { rx_have = from }) again

  unfoldable pub write_failed : Session W → Session W
  write_failed s =
      end_rx (queue_msg io msg_result (written (id_code_put 8 s.rx.rx_id result_write_failed)) s).0

  unfoldable pub count_data : List ℕ → Session W → Session W
  count_data p s =
      let have = (s.rx.rx_have + length p) % 2 ^ 32 in
      tell (λ w. io.progress w true have s.rx.rx_size)
        (set_rx (λ r. record r { rx_running_crc = crc32 r.rx_running_crc p; rx_have = have }) s)

  unfoldable pub on_data : List ℕ → Session W → Session W
  on_data p s =
      let wrote = io.write_file s.world p in
      let told = record s { world = wrote.0 } in
      if not (is_xfer s.rx.rx_state receiving)
      then s
      else if not wrote.1
      then write_failed told
      else count_data p told

  unfoldable pub done_result : Session W → ℕ
  done_result s =
      if not (s.rx.rx_have == s.rx.rx_size)
      then result_short
      else if not (s.rx.rx_running_crc == s.rx.rx_crc)
      then result_crc_mismatch
      else result_ok

  unfoldable pub on_done : Option ℕ → Session W → Session W
  on_done none s = fail io (text "malformed DONE") s
  on_done (some id) s =
      let result = done_result s in
      let q = queue_msg io msg_result (written (id_code_put 8 id result)) s in
      if not (is_xfer s.rx.rx_state receiving) || not (id == s.rx.rx_id)
      then s
      else tell (λ w. io.transfer_done w true id result) (end_rx q.0)

  unfoldable pub on_result : Option (ℕ × ℕ) → Session W → Session W
  on_result none s = fail io (text "malformed RESULT") s
  on_result (some (id, code)) s =
      if is_xfer s.tx.tx_state xfer_none || not (id == s.tx.tx_id)
      then s
      else tell (λ w. io.transfer_done w false id code) (end_tx s)

  unfoldable pub on_hello : Option Hello → Session W → Session W
  on_hello none s = s
  on_hello (some h) s = record s {
    peer_caps = h.caps;
    peer_call = snprintf max_call h.call;
    state = asp;
  }

  unfoldable pub on_text_b : List ℕ → Option TextB → Session W → Session W
  on_text_b p none s = tell (λ w. io.text_arrived w p true) s
  on_text_b p (some t) s = tell (λ w. io.text_arrived w t.text false) s

  unfoldable pub on_cancel : Option (ℕ × ℕ) → Session W → Session W
  on_cancel none s = s
  on_cancel (some (id, code)) s =
      if not (is_xfer s.tx.tx_state xfer_none) && (id == s.tx.tx_id)
      then tell (λ w. io.transfer_done w false id result_short) (end_tx s)
      else if not (is_xfer s.rx.rx_state xfer_none) && (id == s.rx.rx_id)
      then tell (λ w. io.transfer_done w true id result_short) (end_rx s)
      else s

  unfoldable pub dispatch : ℕ → List ℕ → Session W → Session W
  dispatch type p s =
      if type == msg_hello
      then on_hello (hello_get p) s
      else if type == msg_bye
      then set_state idle s
      else if type == msg_text
      then tell (λ w. io.text_arrived w p false) s
      else if type == msg_text_b
      then on_text_b p (text_b_get p) s
      else if type == msg_offer
      then on_offer (offer_get p) s
      else if type == msg_accept
      then on_accept (accept_get p) s
      else if type == msg_start
      then on_start (start_get p) s
      else if type == msg_data
      then on_data p s
      else if type == msg_done
      then on_done (id_get p) s
      else if type == msg_result
      then on_result (id_code_get p) s
      else if (type == msg_reject) || (type == msg_cancel)
      then on_cancel (id_code_get p) s
      else s

  -- The message at the front of the inbox is handled and taken away.
  unfoldable pub consume : ℕ → List ℕ → ℕ → Session W → Session W
  consume type p consumed s =
      let handled = dispatch type p s in record handled { inbox = drop consumed handled.inbox }

  -- The inner loop of `asp_recv`, with a bound of its rounds, and whether the outer one goes on.
  unfoldable pub frames_loop : ℕ → Session W → Session W × Bool
  frames_loop zero s = (s, true)
  frames_loop (suc rounds) s = elim (frame_get s.inbox) [
    | frame_short ↦ (s, true)
    | frame_error ↦ (fail io (text "malformed message") s, false)
    | frame_ok type p consumed ↦
        (let handled = consume type p consumed s in
          let rest = frames_loop rounds handled in
          if is_idle handled.state then (handled, false) else rest)
  ]

  -- Whether the peer's first byte shows that it has no decoder.
  unfoldable pub decide_raw : ℕ → Session W → Session W
  decide_raw first s =
      if is_hello_sent s.state && ((length s.inbox == 0) && not (first == msg_hello))
      then set_state raw s
      else s

  unfoldable pub append_in : List ℕ → Session W → Session W
  append_in part s = record s { inbox = s.inbox ++ part }

  -- The outer loop, with a bound of its rounds: each takes a byte at least.
  unfoldable pub recv_loop : ℕ → List ℕ → Session W → Session W
  recv_loop zero received s = s
  recv_loop (suc rounds) [] s = s
  recv_loop (suc rounds) (b ∷ bs) s =
      let d = decide_raw b s in
      let n = min (length (b ∷ bs)) (max_message - length d.inbox) in
      let f = frames_loop (suc (length d.inbox + n)) (append_in (take n (b ∷ bs)) d) in
      let rest = recv_loop rounds (drop n (b ∷ bs)) f.0 in
      if is_raw d.state
      then tell (λ w. io.text_arrived w (b ∷ bs) true) d
      else if n == 0
      then fail io (text "message exceeds the maximum") d
      else if f.1
      then rest
      else f.0

  unfoldable pub recv : List ℕ → Session W → Session W
  recv received s = recv_loop (length received) received s
