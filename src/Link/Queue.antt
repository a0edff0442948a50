-- ===== src/Link/Queue.antt =====
-- What may happen to the bytes that wait in the caller's transmit buffer, and the handlers that send
-- from it.
pub mod Rx
pub mod Step
use ardopb.Base.{ℕ, suc, ◌-◌, ◌≤◌, ◌≡◌, ◌⊎◌, arith, true, List, [], ◌++◌, length, take, drop, some}
use ardopb.Codec.Frame.{data_ack_min}
use ardopb.Link.Actions.{sends}
use ardopb.Link.Fec.{
  send_fec_frame, broadcast, fec_send_next, deliver_fec, step_fec_rx, step_rxo_rx,
}
use ardopb.Link.Host.{fec_type}
use ardopb.Link.Iss.{on_data_ack, on_data_nak, resend_if_shifted}
use ardopb.Link.Irs.{deliver}
use ardopb.Link.Send.{
  frame_capacity, notify_buffer, tx_dequeue, gearshift, gearshift_at, shift_up, send_data_frame,
  send_next_data, send_idle, send_queued, iss_send_next, iss_begin_sending, apply_shift,
}
use ardopb.Link.State.{
  Link, disc, iss, fec_send, Event, Input, rx, host, tx_done, HostCmd, send_data, abort,
  fec_send_cmd, tx_len,
}
use ardopb.Link.Turn.{
  Turn, tell_host, send_control, arm_idle, arm_repeat, reset_to_disc, is_decoded,
}

abbrev pub queue_of : Turn → List ℕ
queue_of t = t.link.sender.tx_data

-- The first bytes of a queue that one frame of a type carries, by their number.
abbrev pub frame_share : ℕ → List ℕ → ℕ
frame_share ft queue = length (take (frame_capacity ft) queue)

-- The moves of the queue between a link and the turn after an input. A received ACK takes the bytes of
-- the outstanding frame, a host command appends as many bytes as there is room for, an abort drops all,
-- and a broadcast takes the bytes of one frame, which is sent in that step.
pub data Queued (l : Link) (u : Turn) : Input → Type 0 where
  kept : {input : Input} → queue_of u ≡ l.sender.tx_data → Queued l u input
  acked :
      {ev : Event}
      → l.state ≡ iss
      → is_decoded ev ≡ true
      → data_ack_min ≤ ev.frame_type
      → queue_of u ≡ drop l.sender.outstanding_len l.sender.tx_data
      → Queued l u (rx ev)
  appended :
      {cmd : HostCmd} {bytes : List ℕ}
      → cmd.kind ≡ send_data
      → cmd.payload ≡ some bytes
      → queue_of u ≡ l.sender.tx_data ++ take (l.config.tx_cap - tx_len l) bytes
      → Queued l u (host cmd)
  dropped : {cmd : HostCmd} → cmd.kind ≡ abort → queue_of u ≡ [] → Queued l u (host cmd)
  broadcast_begun :
      {cmd : HostCmd}
      → cmd.kind ≡ fec_send_cmd
      → l.state ≡ disc
      → queue_of u
        ≡ drop
            (frame_share (fec_type cmd.arg l.config.fec_frame_type) l.sender.tx_data)
            l.sender.tx_data
      → sends u.actions ≡ 1
      → Queued l u (host cmd)
  broadcast_goes_on :
      l.state ≡ fec_send
      → queue_of u ≡ drop (frame_share l.config.fec_frame_type l.sender.tx_data) l.sender.tx_data
      → sends u.actions ≡ 1
      → Queued l u tx_done

pub queue-arm_idle : (now : ℕ) (l : Link) → (arm_idle now l).sender ≡ l.sender
unfolding arm_idle
queue-arm_idle now l = ground arith

module _ (t : Turn) where
  queue-gearshift : queue_of (gearshift t) ≡ queue_of t
  unfolding gearshift gearshift_at shift_up
  queue-gearshift = ground arith

module _ (now : ℕ) (t : Turn) where
  queue-send_next_data : (ft : ℕ) → queue_of (send_next_data ft now t) ≡ queue_of t
  unfolding send_next_data send_data_frame arm_repeat
  queue-send_next_data ft = ground arith

module _ (now : ℕ) (t : Turn) where
  -- A frame that is sent stays in the queue until it is acked.
  pub queue-iss_send_next : queue_of (iss_send_next now t) ≡ queue_of t
  unfolding iss_send_next send_idle send_queued send_control arm_repeat apply_shift
  queue-iss_send_next = grind (arith, queue-send_next_data)

module _ (now : ℕ) (t : Turn) where
  queue-resend_if_shifted : queue_of (resend_if_shifted now t) ≡ queue_of t
  unfolding resend_if_shifted
  queue-resend_if_shifted = grind (arith, queue-iss_send_next)

module _ (now : ℕ) (t : Turn) where
  pub queue-on_data_ack :
      (ft : ℕ) → queue_of (on_data_ack ft now t) ≡ drop t.link.sender.outstanding_len (queue_of t)
  unfolding on_data_ack notify_buffer tell_host tx_dequeue
  queue-on_data_ack ft = grind (arith, queue-iss_send_next, queue-gearshift, queue-arm_idle)

  pub queue-on_data_nak : (ft : ℕ) → queue_of (on_data_nak ft now t) ≡ queue_of t
  unfolding on_data_nak
  queue-on_data_nak ft = grind (arith, queue-resend_if_shifted, queue-gearshift)

module _ (t : Turn) where
  -- Bytes leave for a broadcast only with a frame that is sent.
  pub queue-fec_send_next :
      (queue_of (fec_send_next t) ≡ queue_of t)
      ⊎ ((queue_of (fec_send_next t)
            ≡ drop (frame_share t.link.config.fec_frame_type (queue_of t)) (queue_of t))
          × (sends (fec_send_next t).actions ≡ suc (sends t.actions)))
  unfolding fec_send_next broadcast send_fec_frame notify_buffer tell_host tx_dequeue reset_to_disc
  queue-fec_send_next = ground arith

  pub queue-step_fec_rx : (ev : Event) → queue_of (step_fec_rx ev t) ≡ queue_of t
  unfolding step_fec_rx deliver_fec deliver
  queue-step_fec_rx ev = ground arith

  pub queue-step_rxo_rx : (ev : Event) → queue_of (step_rxo_rx ev t) ≡ queue_of t
  unfolding step_rxo_rx deliver tell_host
  queue-step_rxo_rx ev = ground arith
