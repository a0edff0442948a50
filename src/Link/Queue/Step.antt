-- ===== src/Link/Queue/Step.antt =====
-- Each step moves the queue as the relation says.
use ardopb.Base.{
  ℕ, suc, Option-cases, ◌≡◌, ◌⊎◌, ◌-◌, ◌++◌, take, inl, inr, refl, arith, drop, List, some,
}
use ardopb.Codec.StationId.{StationId}
use ardopb.Link.Actions.{sends}
use ardopb.Link.Fec.{step_fec_tx_done}
use ardopb.Link.Host.{
  dispatch_host, step_host_connect, start_session, step_host_send_data, enqueue,
  step_host_disconnect, step_host_abort, step_host_break, step_host_set_mode, step_host_id,
  step_host_fec_send, fec_type,
}
use ardopb.Link.Queue.{
  Queued, kept, appended, dropped, broadcast_begun, broadcast_goes_on, queue_of, frame_share,
  queue-arm_idle, queue-fec_send_next,
}
use ardopb.Link.Queue.Rx.{queue-rx}
use ardopb.Link.Send.{notify_buffer}
use ardopb.Link.State.{
  Link, disc, fec_send, Input, timer, rx, host, tx_done, HostCmd, CmdKind, connect, disconnect,
  abort, send_data, set_mode, fec_send_cmd, send_id, break_cmd, tx_len,
}
use ardopb.Link.Step.{rearm_repeat, step_tx_done, step_turn, run_step}
use ardopb.Link.Timer.{step_timer, send_closing_id, repeat_frame, resend}
use ardopb.Link.Turn.{
  Turn, begin, tell_host, send_control, set_timer_at, reset_to_disc, build_id_frame, arm_repeat,
}

module _ (now : ℕ) (t : Turn) where
  queue-build_id_frame : (call : StationId) (l : Link) → (build_id_frame call l).0.sender ≡ l.sender
  unfolding build_id_frame
  queue-build_id_frame call l = ground arith

  queue-host_disconnect : queue_of (step_host_disconnect now t) ≡ queue_of t
  unfolding step_host_disconnect tell_host send_control arm_repeat
  queue-host_disconnect = ground arith

  queue-connect : (cmd : HostCmd) → queue_of (step_host_connect cmd now t) ≡ queue_of t
  unfolding step_host_connect start_session set_timer_at arm_repeat
  queue-connect cmd = ground arith

  queue-host_id : queue_of (step_host_id t) ≡ queue_of t
  unfolding step_host_id build_id_frame
  queue-host_id = ground arith

  queue-host_break : queue_of (step_host_break t) ≡ queue_of t
  unfolding step_host_break
  queue-host_break = ground arith

  queue-host_set_mode : (cmd : HostCmd) → queue_of (step_host_set_mode cmd t) ≡ queue_of t
  unfolding step_host_set_mode
  queue-host_set_mode cmd = ground arith

  queue-enqueue :
      (bytes : List ℕ)
      → (queue_of (enqueue bytes now t) ≡ queue_of t)
        ⊎ (queue_of (enqueue bytes now t)
            ≡ queue_of t ++ take (t.link.config.tx_cap - tx_len t.link) bytes)
  unfolding enqueue
  queue-enqueue bytes = grind (arith, queue-arm_idle)

  queue-closing_id : queue_of (send_closing_id t) ≡ queue_of t
  unfolding send_closing_id
  queue-closing_id = grind (arith, queue-build_id_frame)

  queue-repeat_frame : queue_of (repeat_frame now t) ≡ queue_of t
  unfolding repeat_frame resend tell_host reset_to_disc
  queue-repeat_frame = ground arith

module _ (now : ℕ) (t : Turn) where
  queue-timer : queue_of (step_timer now t) ≡ queue_of t
  unfolding step_timer tell_host reset_to_disc
  queue-timer = grind (arith, queue-host_disconnect, queue-closing_id, queue-repeat_frame)

  queue-tx_done :
      (queue_of (step_tx_done now t) ≡ queue_of t)
      ⊎ ((t.link.state ≡ fec_send)
          × (queue_of (step_tx_done now t)
              ≡ drop (frame_share t.link.config.fec_frame_type (queue_of t)) (queue_of t))
          × (sends (step_tx_done now t).actions ≡ suc (sends t.actions)))
  unfolding step_tx_done step_fec_tx_done rearm_repeat set_timer_at
  queue-tx_done = grind (arith, queue-fec_send_next)

  queue-fec_send :
      (cmd : HostCmd)
      → (queue_of (step_host_fec_send cmd t) ≡ queue_of t)
        ⊎ ((t.link.state ≡ disc)
            × (queue_of (step_host_fec_send cmd t)
                ≡ drop
                    (frame_share (fec_type cmd.arg t.link.config.fec_frame_type) (queue_of t))
                    (queue_of t))
            × (sends (step_host_fec_send cmd t).actions ≡ suc (sends t.actions)))
  unfolding step_host_fec_send
  queue-fec_send cmd = grind (arith, queue-fec_send_next)

  queue-send_data :
      (cmd : HostCmd)
      → (queue_of (step_host_send_data cmd now t) ≡ queue_of t)
        ⊎ ((bytes : List ℕ) × (cmd.payload ≡ some bytes)
            × (queue_of (step_host_send_data cmd now t)
                ≡ queue_of t ++ take (t.link.config.tx_cap - tx_len t.link) bytes))
  unfolding step_host_send_data notify_buffer tell_host
  queue-send_data cmd = elim (Option-cases cmd.payload) [
    | inl e ↦ inl (rw (e, step_host_send_data) refl)
    | inr (bytes, e) ↦ elim (queue-enqueue now t bytes) [
      | inl q ↦ inl (rw (e, step_host_send_data) q)
      | inr q ↦ inr (bytes, e, rw (e, step_host_send_data) q)
    ]
  ]

module _ (now : ℕ) (l : Link) where
  queue-dispatch_host :
      (cmd : HostCmd) (kind : CmdKind)
      → cmd.kind ≡ kind
      → Queued l (dispatch_host kind cmd now (begin l)) (host cmd)
  unfolding dispatch_host
  queue-dispatch_host cmd connect h = kept (queue-connect now (begin l) cmd)
  queue-dispatch_host cmd send_data h = elim (queue-send_data now (begin l) cmd) [
    | inl e ↦ kept e
    | inr (bytes, p, e) ↦ appended h p e
  ]
  queue-dispatch_host cmd disconnect h = kept (queue-host_disconnect now (begin l))
  queue-dispatch_host cmd abort h =
      dropped h (unfold step_host_abort tell_host reset_to_disc in refl)
  queue-dispatch_host cmd break_cmd h = kept (queue-host_break now (begin l))
  queue-dispatch_host cmd set_mode h = kept (queue-host_set_mode now (begin l) cmd)
  queue-dispatch_host cmd send_id h = kept (queue-host_id now (begin l))
  queue-dispatch_host cmd fec_send_cmd h = elim (queue-fec_send now (begin l) cmd) [
    | inl e ↦ kept e
    | inr (d, e, n) ↦ broadcast_begun h d e n
  ]

-- In every step the transmit queue keeps its bytes, or loses those of the outstanding frame to an ACK that
-- the sending station receives, or gets as many bytes from the host as there is room for, or is
-- emptied by an abort, or loses the bytes of one broadcast frame that this step sends.
pub run_step-Queued : (l : Link) (input : Input) (now : ℕ) → Queued l (run_step l input now) input
unfolding step_turn
run_step-Queued l (rx ev) now = queue-rx ev now l
run_step-Queued l (host cmd) now = queue-dispatch_host now l cmd cmd.kind refl
run_step-Queued l timer now = kept (queue-timer now (begin l))
run_step-Queued l tx_done now = elim (queue-tx_done now (begin l)) [
  | inl e ↦ kept e
  | inr (s, e, n) ↦ broadcast_goes_on s e n
]
