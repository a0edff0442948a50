-- ===== src/Asp/Session/Bounded/Receiving.antt =====
-- What arrives is handled within the buffers.
use ardopb.Base.{
  ℕ, zero, suc, ◌+◌, ◌-◌, ◌≤◌, inl, inr, arith, min, true, Option, none, some, List, [], ◌∷◌,
  length, take, drop, length-append, length-take, length-drop, text,
}
use ardopb.Asp.Frame.{max_message, frame_get, msg_reject, msg_start, msg_result}
use ardopb.Asp.Frame.Verdicts.{FrameStatus-cases}
use ardopb.Asp.Payloads.{
  Offer, Accept, Hello, TextB, id_code_put, start_put, hello_get, offer_get, accept_get,
  id_code_get, start_get, id_get, text_b_get,
}
use ardopb.Asp.SafeName.{safe_name}
use ardopb.Asp.Session.{Io, Session, fail}
use ardopb.Asp.Session.Sending.{written, reject_refused, reject_bad_name, result_write_failed}
use ardopb.Asp.Session.Receiving.{
  refuse_offer, decide_offer, take_offer, name_offer, on_offer, start_from, begin_tx, on_accept,
  on_start, write_failed, count_data, on_data, done_result, on_done, on_result, on_hello, on_text_b,
  on_cancel, dispatch, consume, frames_loop, decide_raw, append_in, recv_loop, recv,
}
use ardopb.Asp.Session.Bounded.{Within, Fits, SendIsBounded, queue_msg-Fits}
use ardopb.Asp.Session.Bounded.Sending.{answer_offer-Fits}

module _ {W : Type 0} {room : ℕ} (io : Io W) (sends : SendIsBounded io) where
  fail-Fits : (why : List ℕ) (s : Session W) → Within room s → Within room (fail io why s)
  unfolding fail
  fail-Fits why s h = record { in_fits = h.in_fits; out_fits = h.out_fits; sent_fits = h.sent_fits }

  refuse_offer-Fits :
      (id code : ℕ) (s : Session W) → Within room s → Within room (refuse_offer io id code s)
  unfolding refuse_offer
  refuse_offer-Fits id code s h = queue_msg-Fits io sends msg_reject _ s h

  decide_offer-Fits :
      (answer : Option (ℕ × ℕ)) (s : Session W)
      → Within room s
      → Within room (decide_offer io answer s)
  unfolding decide_offer
  decide_offer-Fits none s h = h
  decide_offer-Fits (some (have, prefix)) s h =
      answer_offer-Fits io sends true have prefix reject_refused s h

  name_offer-Fits :
      (o : Offer) (name : Option (List ℕ)) (s : Session W)
      → Within room s
      → Within room (name_offer io o name s)
  unfolding name_offer take_offer
  name_offer-Fits o none s h = refuse_offer-Fits o.id reject_bad_name s h
  name_offer-Fits o (some name) s h =
      decide_offer-Fits _ _
        record { in_fits = h.in_fits; out_fits = h.out_fits; sent_fits = h.sent_fits }

  on_offer-Fits : (o : Option Offer) (s : Session W) → Within room s → Within room (on_offer io o s)
  unfolding on_offer
  on_offer-Fits none s h = fail-Fits _ s h
  on_offer-Fits (some o) s h = ground (
    arith,
    refuse_offer-Fits o.id reject_refused s h,
    name_offer-Fits o (safe_name o.name 256) s h,
  )

  begin_tx-Fits : (from : ℕ) (s : Session W) → Within room s → Within room (begin_tx io from s)
  unfolding begin_tx
  begin_tx-Fits from s h =
      ground (arith, queue_msg-Fits io sends msg_start (written (start_put 8 s.tx.tx_id from)) s h)

  on_accept-Fits :
      (a : Option Accept) (s : Session W) → Within room s → Within room (on_accept io a s)
  unfolding on_accept
  on_accept-Fits none s h = fail-Fits _ s h
  on_accept-Fits (some a) s h = ground (arith, h, begin_tx-Fits (start_from io s a) s h)

  on_start-Fits :
      (m : Option (ℕ × ℕ)) (s : Session W) → Within room s → Within room (on_start io m s)
  unfolding on_start
  on_start-Fits none s h = fail-Fits _ s h
  on_start-Fits (some (id, from)) s h = ground (arith, h)

  write_failed-Fits : (s : Session W) → Within room s → Within room (write_failed io s)
  unfolding write_failed
  write_failed-Fits s h = ground (
    arith,
    queue_msg-Fits io sends msg_result (written (id_code_put 8 s.rx.rx_id result_write_failed)) s h,
  )

  count_data-Fits : (p : List ℕ) (s : Session W) → Within room s → Within room (count_data io p s)
  unfolding count_data
  count_data-Fits p s h = record {
    in_fits = h.in_fits;
    out_fits = h.out_fits;
    sent_fits = h.sent_fits;
  }

  on_data-Fits : (p : List ℕ) (s : Session W) → Within room s → Within room (on_data io p s)
  unfolding on_data
  on_data-Fits p s h =
      let told : Session W = record s { world = (io.write_file s.world p).0 } in
      let kept : Within room told = record {
        in_fits = h.in_fits;
        out_fits = h.out_fits;
        sent_fits = h.sent_fits;
      } in
      ground (arith, h, write_failed-Fits told kept, count_data-Fits p told kept)

  on_done-Fits : (m : Option ℕ) (s : Session W) → Within room s → Within room (on_done io m s)
  unfolding on_done
  on_done-Fits none s h = fail-Fits _ s h
  on_done-Fits (some id) s h = ground (
    arith,
    h,
    queue_msg-Fits io sends msg_result (written (id_code_put 8 id (done_result io s))) s h,
  )

  on_result-Fits :
      (m : Option (ℕ × ℕ)) (s : Session W) → Within room s → Within room (on_result io m s)
  unfolding on_result
  on_result-Fits none s h = fail-Fits _ s h
  on_result-Fits (some (id, code)) s h = ground (arith, h)

  on_hello-Fits : (m : Option Hello) (s : Session W) → Within room s → Within room (on_hello io m s)
  unfolding on_hello
  on_hello-Fits none s h = h
  on_hello-Fits (some m) s h = record {
    in_fits = h.in_fits;
    out_fits = h.out_fits;
    sent_fits = h.sent_fits;
  }

  on_text_b-Fits :
      (p : List ℕ) (m : Option TextB) (s : Session W)
      → Within room s
      → Within room (on_text_b io p m s)
  unfolding on_text_b
  on_text_b-Fits p none s h = record {
    in_fits = h.in_fits;
    out_fits = h.out_fits;
    sent_fits = h.sent_fits;
  }
  on_text_b-Fits p (some m) s h = record {
    in_fits = h.in_fits;
    out_fits = h.out_fits;
    sent_fits = h.sent_fits;
  }

  on_cancel-Fits :
      (m : Option (ℕ × ℕ)) (s : Session W) → Within room s → Within room (on_cancel io m s)
  unfolding on_cancel
  on_cancel-Fits none s h = h
  on_cancel-Fits (some (id, code)) s h = ground (arith, h)

module _ {W : Type 0} {room : ℕ} (io : Io W) (sends : SendIsBounded io) where
  pub dispatch-Fits :
      (type : ℕ) (p : List ℕ) (s : Session W) → Within room s → Within room (dispatch io type p s)
  unfolding dispatch
  dispatch-Fits type p s h = ground (
    arith,
    h,
    on_hello-Fits io sends (hello_get p) s h,
    on_text_b-Fits io sends p (text_b_get p) s h,
    on_offer-Fits io sends (offer_get p) s h,
    on_accept-Fits io sends (accept_get p) s h,
    on_start-Fits io sends (start_get p) s h,
    on_data-Fits io sends p s h,
    on_done-Fits io sends (id_get p) s h,
    on_result-Fits io sends (id_code_get p) s h,
    on_cancel-Fits io sends (id_code_get p) s h,
  )

  pub consume-Fits :
      (type : ℕ) (p : List ℕ) (consumed : ℕ) (s : Session W)
      → Within room s
      → Within room (consume io type p consumed s)
  unfolding consume
  consume-Fits type p consumed s h =
      let d = dispatch-Fits type p s h in
      record {
        in_fits = omega (arith, d.in_fits, length-drop consumed (dispatch io type p s).inbox);
        out_fits = d.out_fits;
        sent_fits = d.sent_fits;
      }

  pub frames_loop-Fits :
      (rounds : ℕ) (s : Session W) → Within room s → Within room ((frames_loop io rounds s).0)
  unfolding frames_loop
  frames_loop-Fits zero s h = h
  frames_loop-Fits (suc rounds) s h = elim (FrameStatus-cases (frame_get s.inbox)) [
    | inl e ↦ rw (e, frames_loop) h
    | inr (inl e) ↦ rw (e, frames_loop) (fail-Fits io sends _ s h)
    | inr (inr (type, p, n, e)) ↦
        rw (e, frames_loop)
          (let c = consume-Fits type p n s h in
            ground (arith, c, frames_loop-Fits rounds (consume io type p n s) c))
  ]

  pub decide_raw-Fits :
      (first : ℕ) (s : Session W) → Within room s → Within room (decide_raw io first s)
  unfolding decide_raw
  decide_raw-Fits first s h = ground (arith, h)

module _ {W : Type 0} (io : Io W) (sends : SendIsBounded io) where
  pub append_in-Fits :
      (part : List ℕ) (s : Session W)
      → Fits s
      → length s.inbox + length part ≤ max_message
      → Fits (append_in io part s)
  unfolding append_in
  append_in-Fits part s h k = record {
    in_fits = omega (arith, k, length-append s.inbox part);
    out_fits = h.out_fits;
    sent_fits = h.sent_fits;
  }

  recv_loop-Fits :
      (rounds : ℕ) (received : List ℕ) (s : Session W)
      → Fits s
      → Fits (recv_loop io rounds received s)
  unfolding recv_loop
  recv_loop-Fits zero received s h = h
  recv_loop-Fits (suc rounds) [] s h = h
  recv_loop-Fits (suc rounds) (b ∷ bs) s h = ground (
    arith,
    d-Fits,
    fail-Fits io sends (text "message exceeds the maximum") d d-Fits,
    f-Fits,
    recv_loop-Fits rounds (drop n (b ∷ bs)) _ f-Fits,
  )
    where
      d : Session W
      d = decide_raw io b s

      d-Fits : Fits d
      d-Fits = decide_raw-Fits io sends b s h

      n : ℕ
      n = min (length (b ∷ bs)) (max_message - length d.inbox)

      f-Fits :
          Fits ((frames_loop io (suc (length d.inbox + n)) (append_in io (take n (b ∷ bs)) d)).0)
      f-Fits =
          frames_loop-Fits io sends _ _
            (append_in-Fits _ d d-Fits (omega (arith, d-Fits.in_fits, length-take n (b ∷ bs))))

  pub recv-Fits : (received : List ℕ) (s : Session W) → Fits s → Fits (recv io received s)
  unfolding recv
  recv-Fits received s h = recv_loop-Fits (length received) received s h
