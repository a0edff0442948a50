-- ===== src/Link/Closing.antt =====
-- A disconnect that the other station never answers comes to an end.
use ardopb.Base.{ℕ, zero, suc, ◌+◌, ◌<◌, ◌≤◌, ◌≡◌, ◌≢◌, refl, arith, Bool, true, false, not, ◌&&◌}
use ardopb.Codec.Frame.{ft_disc}
use ardopb.Link.Host.{dispatch_host, step_host_disconnect}
use ardopb.Link.State.{
  Link, LinkState, fec_send, disc, timer, tx_done, host, HostCmd, CmdKind, disconnect,
}
use ardopb.Link.Step.{is_fec_send, rearm_repeat, step_tx_done, step_turn, run_step}
use ardopb.Link.Timer.{due, resend, repeat_frame, step_timer}
use ardopb.Link.Turn.{Turn, begin, tell_host, send_control, set_timer_at, arm_repeat, reset_to_disc}

-- The repeat is due and no other deadline is.
abbrev pub only_repeat_due : Link → ℕ → Bool
only_repeat_due l now =
    let r = l.timers in
    not (due r.pending_deadline now)
    && not (due r.stall_deadline now)
    && not (due r.idle_deadline now)
    && not (due r.final_id_deadline now)
    && due r.repeat_deadline now

-- `n` repeats with nothing heard in between: timer services at which only the repeat is due, and the ends of
-- the transmissions.
pub data Unanswered : Link → ℕ → Link → Type 0 where
  quiet : {l : Link} → Unanswered l 0 l
  repeats :
      {l m : Link} {n : ℕ} (now : ℕ)
      → only_repeat_due l now ≡ true
      → Unanswered (run_step l timer now).link n m
      → Unanswered l (suc n) m
  sent :
      {l m : Link} {n : ℕ} (now : ℕ)
      → Unanswered (run_step l tx_done now).link n m
      → Unanswered l n m

-- A DISC was sent so many times and is the frame that repeats; there is no broadcast.
pub record Closing (l : Link) (count : ℕ) : Type 0 where
  pub no_broadcast : is_fec_send l.state ≡ false
  pub frame : l.timers.repeat_frame_type ≡ ft_disc
  pub tries : l.timers.disc_repeat_count ≡ count

module _ (l : Link) (now : ℕ) where
  repeat-Closing :
      (count : ℕ)
      → Closing l (suc count)
      → suc count < 5
      → only_repeat_due l now ≡ true
      → Closing (run_step l timer now).link (suc (suc count))
  unfolding step_turn step_timer repeat_frame resend
  repeat-Closing count c h d = ground arith

  last_repeat :
      Closing l 5 → only_repeat_due l now ≡ true → (run_step l timer now).link.state ≡ disc
  unfolding step_turn step_timer repeat_frame resend tell_host reset_to_disc
  last_repeat c d = ground arith

  sent-Closing : (count : ℕ) → Closing l count → Closing (run_step l tx_done now).link count
  unfolding step_turn step_tx_done rearm_repeat set_timer_at
  sent-Closing count c = ground arith

  sent_disc : l.state ≡ disc → (run_step l tx_done now).link.state ≡ disc
  unfolding step_turn step_tx_done rearm_repeat set_timer_at
  sent_disc h = ground (arith, h)

stays_down : (l m : Link) → Unanswered l 0 m → l.state ≡ disc → m.state ≡ disc
stays_down l m quiet e = e
stays_down l m (sent now u) e = stays_down (run_step l tx_done now).link m u (sent_disc l now e)

-- The repeats that are left.
closes :
    (l m : Link) (count n : ℕ)
    → Unanswered l n m
    → Closing l (suc count)
    → suc count + n ≡ 6
    → suc count ≤ 5
    → m.state ≡ disc
closes l m count zero quiet c e h = absurd (omega arith)
closes l m count n (sent now u) c e h =
    closes (run_step l tx_done now).link m count n u (sent-Closing l now (suc count) c) e h
closes l m count (suc zero) (repeats now d u) c e h =
    stays_down (run_step l timer now).link m u (last_repeat l now (ground (arith, c)) d)
closes l m count (suc (suc n)) (repeats now d u) c e h =
    closes (run_step l timer now).link m (suc count) (suc n) u
      (repeat-Closing l now count c (omega arith) d) (omega arith) (omega arith)

disconnect-Closing :
    (t : Turn) (kind : CmdKind) (cmd : HostCmd) (now : ℕ)
    → kind ≡ disconnect
    → t.link.state ≢ disc
    → is_fec_send t.link.state ≡ false
    → Closing (dispatch_host kind cmd now t).link 1
unfolding dispatch_host step_host_disconnect tell_host send_control arm_repeat
disconnect-Closing t disconnect cmd now e s f = ground arith
disconnect-Closing t other cmd now e s f = absurd (cc e)

not_sending : (s : LinkState) → s ≢ fec_send → is_fec_send s ≡ false
not_sending fec_send h = absurd (h refl)
not_sending other h = refl

-- After a host's DISCONNECT in any state but the disconnected one and that of a broadcast, five timer services at which
-- the repeat and no other deadline is due, with only ends of transmissions, as many as there may be, in between, leave
-- the link disconnected.
pub disconnect_ends :
    (l m : Link) (cmd : HostCmd) (now : ℕ)
    → cmd.kind ≡ disconnect
    → l.state ≢ disc
    → l.state ≢ fec_send
    → Unanswered (run_step l (host cmd) now).link 5 m
    → m.state ≡ disc
unfolding step_turn dispatch_host
disconnect_ends l m cmd now k s f u =
    closes (run_step l (host cmd) now).link m 0 5 u
      (disconnect-Closing (begin l) cmd.kind cmd now k s (not_sending l.state f)) refl (omega arith)
