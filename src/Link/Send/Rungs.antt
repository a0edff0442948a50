-- ===== src/Link/Send/Rungs.antt =====
-- The gear shift never leaves its ladder.
use ardopb.Base.{ℕ, ◌+◌, ◌<◌, ◌≤◌, ◌≡◌, ◌⊎◌, inl, inr, refl, Option-cases, arith}
use ardopb.Base.Int.{ℤ, pos, negsuc}
use ardopb.Link.Send.{
  gearshift, gearshift_at, shift_up, apply_shift, shifted_ptr, record_use, readings,
}
use ardopb.Link.State.{Link, Gear}
use ardopb.Link.Turn.{Turn}

-- A decision is at most one step, and a step up has a rung to go to.
abbrev Decided : ℤ → ℕ → ℕ → Type 0
Decided dir p len = ((dir ≡ pos 1) × (p + 1 < len)) ⊎ (((dir ≡ negsuc 0) × (0 < p)) ⊎ (dir ≡ pos 0))

record_use_level : (p : ℕ) (g : Gear) → g.shift_up_dn ≡ pos 0 → (record_use p g).shift_up_dn ≡ pos 0
unfolding record_use
record_use_level p g h = ground arith

shift_up-Decided :
    (mode : ℕ) (l : Link)
    → l.sender.mode_ptr + 1 < l.sender.modes_len
    → Decided (shift_up mode l).gear.shift_up_dn l.sender.mode_ptr l.sender.modes_len
unfolding shift_up
shift_up-Decided mode l h = ground arith

gearshift_at-Decided :
    (worked threshold mode : ℕ) (l : Link)
    → l.gear.shift_up_dn ≡ pos 0
    → Decided
        (gearshift_at (worked, threshold, mode) l).gear.shift_up_dn
        l.sender.mode_ptr
        l.sender.modes_len
unfolding gearshift_at
gearshift_at-Decided worked threshold mode l h = ground (
  arith,
  record_use_level l.sender.mode_ptr l.gear h,
  shift_up-Decided mode (record l { gear = record_use l.sender.mode_ptr l.gear }),
)

module _ (t : Turn) where
  gearshift-sender : (gearshift t).link.sender ≡ t.link.sender
  unfolding gearshift gearshift_at shift_up
  gearshift-sender = ground arith

  gearshift-Decided :
      t.link.gear.shift_up_dn ≡ pos 0
      → Decided (gearshift t).link.gear.shift_up_dn t.link.sender.mode_ptr t.link.sender.modes_len
  unfolding gearshift
  gearshift-Decided h = elim (Option-cases (readings t.link)) [
    | inl e ↦ rw (e, gearshift) (inr (inr h))
    | inr ((worked, threshold, mode), e) ↦
        rw (e, gearshift) (gearshift_at-Decided worked threshold mode t.link h)
  ]

-- A pointer that moves by a decision stays on the ladder.
shifted_ptr-Decided :
    (dir : ℤ) (p len : ℕ)
    → p < len
    → Decided dir p len
    → (shifted_ptr dir p len < len)
      × (shifted_ptr dir p len ≤ p + 1)
      × (p ≤ shifted_ptr dir p len + 1)
unfolding shifted_ptr
shifted_ptr-Decided dir p len h d = ground arith

-- From a rung of the ladder with no shift pending, a decision and its application lead to a rung of
-- the ladder at most one away, with no shift pending.
pub apply_shift-gearshift :
    (t : Turn)
    → t.link.sender.mode_ptr < t.link.sender.modes_len
    → t.link.gear.shift_up_dn ≡ pos 0
    → let l = apply_shift (gearshift t).link in
      (l.sender.mode_ptr < t.link.sender.modes_len)
      × (l.sender.mode_ptr ≤ t.link.sender.mode_ptr + 1)
      × (t.link.sender.mode_ptr ≤ l.sender.mode_ptr + 1)
      × (l.gear.shift_up_dn ≡ pos 0)
unfolding apply_shift
apply_shift-gearshift t h s = rw (gearshift-sender t) (
    let (a, b, c) =
      shifted_ptr-Decided (gearshift t).link.gear.shift_up_dn t.link.sender.mode_ptr
        t.link.sender.modes_len h (gearshift-Decided t s) in
    (a, b, c, refl))
