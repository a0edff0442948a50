-- ===== src/Link/Actions/Step.antt =====
-- The actions of a step, and what the caller's array holds of them.
use ardopb.Base.{ℕ, ◌+◌, ◌≤◌, ◌≡◌, refl, sym, ap, ◌∙◌, arith, List, [], ◌∷◌}
use ardopb.Base.{◌++◌, length, reverse, length-append, foldl, lt→ltb}
use mathlib.Core.List.{append-nil, append_assoc, reverse-cons}
use ardopb.Link.Actions.{Adds, sends, wakeups, messages, deliveries}
use ardopb.Link.Actions.Connected.{
  step_iss_conack_rx-Adds, step_iss_data_rx-Adds, step_idle_rx-Adds, step_irs_conack_rx-Adds,
  step_irs_data_rx-Adds, step_irs_to_iss_rx-Adds, step_fec_tx_done-Adds, step_fec_rx-Adds,
  step_rxo_rx-Adds,
}
use ardopb.Link.Actions.Disc.{step_disc_rx-Adds, step_iss_conreq_rx-Adds}
use ardopb.Link.Actions.Host.{step_timer-Adds, dispatch_host-Adds}
use ardopb.Link.State.{
  Link, LinkState, disc, iss_con_req, iss_con_ack, iss, irs_con_ack, irs_data, idle, irs_to_iss,
  irs_from_iss, fec_send, Mode, arq, fec, rxo, Event, Input, timer, rx, host, tx_done, Action,
  send_frame, set_timer, notify_host, deliver_data,
}
use ardopb.Link.Step.{
  dispatch_rx, dispatch_mode, hear, step_rx, rearm_repeat, step_tx_done, step_turn, run_step,
  link_step,
}
use ardopb.Link.Turn.{Turn, begin, set_timer_at, emit_into, emit_all}

module _ (ev : Event) (now : ℕ) (t : Turn) where
  dispatch_rx-Adds : (s : LinkState) → Adds 1 1 1 1 t (dispatch_rx s ev now t)
  unfolding dispatch_rx
  dispatch_rx-Adds disc = ground (arith, step_disc_rx-Adds ev now t)
  dispatch_rx-Adds iss_con_req = ground (arith, step_iss_conreq_rx-Adds ev now t)
  dispatch_rx-Adds iss_con_ack = ground (arith, step_iss_conack_rx-Adds ev now t)
  dispatch_rx-Adds iss = ground (arith, step_iss_data_rx-Adds ev now t)
  dispatch_rx-Adds irs_con_ack = ground (arith, step_irs_conack_rx-Adds ev now t)
  dispatch_rx-Adds irs_data = step_irs_data_rx-Adds ev now t
  dispatch_rx-Adds idle = ground (arith, step_idle_rx-Adds ev now t)
  dispatch_rx-Adds irs_to_iss = ground (arith, step_irs_to_iss_rx-Adds ev now t)
  dispatch_rx-Adds irs_from_iss = step_irs_data_rx-Adds ev now t
  dispatch_rx-Adds fec_send = ground arith

  dispatch_mode-Adds : (m : Mode) → Adds 1 1 1 1 t (dispatch_mode m ev now t)
  unfolding dispatch_mode
  dispatch_mode-Adds arq = dispatch_rx-Adds t.link.state
  dispatch_mode-Adds fec = ground (arith, dispatch_rx-Adds t.link.state, step_fec_rx-Adds t ev)
  dispatch_mode-Adds rxo = ground (arith, step_rxo_rx-Adds t ev)

module _ (now : ℕ) (t : Turn) where
  step_turn-Adds : (input : Input) → Adds 1 1 1 1 t (step_turn input now t)
  unfolding step_turn step_rx hear step_tx_done rearm_repeat set_timer_at
  step_turn-Adds (rx ev) = grind (arith, dispatch_mode-Adds)
  step_turn-Adds (host cmd) = ground (arith, dispatch_host-Adds now t cmd.kind cmd)
  step_turn-Adds timer = ground (arith, step_timer-Adds now t)
  step_turn-Adds tx_done = ground (arith, step_fec_tx_done-Adds t)

-- A step asks for at most one frame, one wake-up, one message to the host and one delivery.
pub run_step-once :
    (l : Link) (input : Input) (now : ℕ)
    → let actions = (run_step l input now).actions in
      (sends actions ≤ 1)
      × (wakeups actions ≤ 1)
      × (messages actions ≤ 1)
      × (deliveries actions ≤ 1)
run_step-once l input now = ground (arith, step_turn-Adds now (begin l) input)

-- Every action is of one of the four kinds.
length-kinds : (xs : List Action) → length xs ≡ sends xs + wakeups xs + messages xs + deliveries xs
length-kinds [] = refl
length-kinds (send_frame ft len leader ∷ xs) = omega (arith, length-kinds xs)
length-kinds (set_timer d ∷ xs) = omega (arith, length-kinds xs)
length-kinds (notify_host len ∷ xs) = omega (arith, length-kinds xs)
length-kinds (deliver_data len ∷ xs) = omega (arith, length-kinds xs)

-- With room for all of them the emissions append the actions in their order.
emit_all-append :
    (max : ℕ) (acc xs : List Action)
    → length acc + length xs ≤ max
    → foldl (emit_into max) acc xs ≡ acc ++ xs
unfolding emit_into
emit_all-append max acc [] h = sym (append-nil acc)
emit_all-append max acc (x ∷ xs) h = rw (lt→ltb (length acc) max (omega arith)) (
    emit_all-append max (acc ++ (x ∷ [])) xs (omega (arith, length-append {0} acc (x ∷ [])))
    ∙ append_assoc acc (x ∷ []) xs)

length-reverse : (xs : List Action) → length (reverse xs) ≡ length xs
length-reverse [] = refl
length-reverse (x ∷ xs) =
    rw reverse-cons (omega (arith, length-append {0} (reverse xs) (x ∷ []), length-reverse xs))

-- A caller with room for four actions loses none: the array holds what the handlers emitted, in
-- order.
pub link_step_complete :
    (l : Link) (input : Input) (now max : ℕ)
    → 4 ≤ max
    → link_step l input now max
      ≡ ((run_step l input now).link, reverse (run_step l input now).actions)
unfolding link_step emit_all
link_step_complete l input now max h =
    let actions = (run_step l input now).actions in
    ap (λ (xs : List Action). ((run_step l input now).link, xs))
      (emit_all-append max [] (reverse actions)
        (omega (arith, length-reverse actions, length-kinds actions, run_step-once l input now)))
