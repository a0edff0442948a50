-- ===== src/Link/Actions.antt =====
-- How many actions of each kind a step asks for. The bytes of an action stand in one of three
-- buffers of the link, so a second action of the kind would overwrite those of the first.
pub mod Disc
pub mod Connected
pub mod Host
pub mod Step
use ardopb.Base.{
  ℕ, zero, suc, ◌+◌, ◌≤◌, ◌≡◌, refl, arith, Bool, true, false, List, [], ◌∷◌, Option, none, some,
}
use ardopb.Link.State.{Action, send_frame, set_timer, notify_host, deliver_data}
use ardopb.Link.Turn.{Turn, tell_host, send_control, set_timer_at, send_end_and_disconnect}

abbrev pub sends : List Action → ℕ
sends [] = 0
sends (send_frame ft len leader ∷ rest) = suc (sends rest)
sends (set_timer d ∷ rest) = sends rest
sends (notify_host len ∷ rest) = sends rest
sends (deliver_data len ∷ rest) = sends rest

abbrev pub wakeups : List Action → ℕ
wakeups [] = 0
wakeups (send_frame ft len leader ∷ rest) = wakeups rest
wakeups (set_timer d ∷ rest) = suc (wakeups rest)
wakeups (notify_host len ∷ rest) = wakeups rest
wakeups (deliver_data len ∷ rest) = wakeups rest

abbrev pub messages : List Action → ℕ
messages [] = 0
messages (send_frame ft len leader ∷ rest) = messages rest
messages (set_timer d ∷ rest) = messages rest
messages (notify_host len ∷ rest) = suc (messages rest)
messages (deliver_data len ∷ rest) = messages rest

abbrev pub deliveries : List Action → ℕ
deliveries [] = 0
deliveries (send_frame ft len leader ∷ rest) = deliveries rest
deliveries (set_timer d ∷ rest) = deliveries rest
deliveries (notify_host len ∷ rest) = deliveries rest
deliveries (deliver_data len ∷ rest) = suc (deliveries rest)

-- `u` has at most so many actions of each kind more than `t`.
pub record Adds (s w m d : ℕ) (t u : Turn) : Type 0 where
  pub frames : sends u.actions ≤ sends t.actions + s
  pub timers : wakeups u.actions ≤ wakeups t.actions + w
  pub notes : messages u.actions ≤ messages t.actions + m
  pub data_out : deliveries u.actions ≤ deliveries t.actions + d

module _ (now : ℕ) (t : Turn) where
  pub send_end_and_disconnect-Adds : Adds 1 1 1 0 t (send_end_and_disconnect now t)
  unfolding send_end_and_disconnect tell_host send_control set_timer_at
  send_end_and_disconnect-Adds = ground arith
