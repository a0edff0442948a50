-- ===== src/Link/Settings.antt =====
-- What the host has set in the link, its configuration, through the steps of core/link/link.c.
pub mod Disc
pub mod Connected
pub mod Host
pub mod Step
use ardopb.Base.{ℕ, ◌≡◌, refl, arith}
use ardopb.Codec.StationId.{StationId}
use ardopb.Link.Send.{Reading, tx_dequeue, shift_up, gearshift_at, apply_shift, iss_begin_sending}
use ardopb.Link.State.{Link}
use ardopb.Link.Turn.{
  Turn, tell_host, send_control, set_timer_at, build_id_frame, arm_repeat, reset_to_disc, arm_stall,
  arm_idle, send_end_and_disconnect,
}

pub record KeepsConfig (t u : Turn) : Type 0 where
  pub kept_config : u.link.config ≡ t.link.config

-- The helpers of the handlers.
pub tx_dequeue-config : (n : ℕ) (l : Link) → (tx_dequeue n l).config ≡ l.config
unfolding tx_dequeue
tx_dequeue-config n l = ground arith

shift_up-config : (n : ℕ) (l : Link) → (shift_up n l).config ≡ l.config
unfolding shift_up
shift_up-config n l = ground arith

pub gearshift_at-config : (g : Reading) (l : Link) → (gearshift_at g l).config ≡ l.config
unfolding gearshift_at
gearshift_at-config g l = grind (arith, shift_up-config)

pub apply_shift-config : (l : Link) → (apply_shift l).config ≡ l.config
unfolding apply_shift
apply_shift-config l = ground arith

pub build_id_frame-config : (s : StationId) (l : Link) → (build_id_frame s l).0.config ≡ l.config
unfolding build_id_frame
build_id_frame-config s l = ground arith

pub arm_repeat-config : (a b c : ℕ) (l : Link) → (arm_repeat a b c l).config ≡ l.config
unfolding arm_repeat
arm_repeat-config a b c l = ground arith

pub reset_to_disc-config : (l : Link) → (reset_to_disc l).config ≡ l.config
unfolding reset_to_disc
reset_to_disc-config l = ground arith

pub arm_stall-config : (now : ℕ) (l : Link) → (arm_stall now l).config ≡ l.config
unfolding arm_stall
arm_stall-config now l = ground arith

pub arm_idle-config : (now : ℕ) (l : Link) → (arm_idle now l).config ≡ l.config
unfolding arm_idle
arm_idle-config now l = ground arith

pub iss_begin_sending-config : (l : Link) → (iss_begin_sending l).config ≡ l.config
unfolding iss_begin_sending
iss_begin_sending-config l = ground arith

pub ruleset keeps = (
  arith, tx_dequeue-config, gearshift_at-config, apply_shift-config, build_id_frame-config,
  arm_repeat-config, reset_to_disc-config, arm_stall-config, arm_idle-config,
  iss_begin_sending-config,
)

module _ (now : ℕ) (t : Turn) where
  pub send_end_and_disconnect-KeepsConfig : KeepsConfig t (send_end_and_disconnect now t)
  unfolding send_end_and_disconnect tell_host send_control set_timer_at
  send_end_and_disconnect-KeepsConfig = grind keeps
