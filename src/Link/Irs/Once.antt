-- ===== src/Link/Irs/Once.antt =====
-- The receiving station delivers a data frame once and answers every copy of it.
use ardopb.Base.{
  ℕ, ◌≡◌, ◌≢◌, ◌+◌, refl, arith, Bool, true, false, some, if◌then◌else◌, ◌∷◌, length, take,
  overwrite,
}
use ardopb.Codec.Frame.{is_data, ft_disc, ft_end, ft_idle}
use ardopb.Link.Actions.{sends, deliveries}
use ardopb.Link.Irs.{step_irs_data_rx, on_data, accept_data, deliver_once, deliver, settle, is_type}
use ardopb.Link.Frames.{encode_control}
use ardopb.Link.Quality.{quality_to_ack_type}
use ardopb.Link.State.{
  send_frame, deliver_data, max_payload, Link, LinkState, irs_data, irs_from_iss, arq, Event, rx,
  Mode, fec, rxo,
}
use ardopb.Link.Step.{dispatch_rx, dispatch_mode, hear, step_rx, step_turn, run_step}
use ardopb.Link.Turn.{
  Turn, begin, send_control, connected_teardown, arm_stall, arm_idle, is_decoded,
}

not_control : (t c : ℕ) → is_data c ≡ false → is_data t ≡ true → t ≢ c
not_control t c no' h e = cc

-- A data type is none of the types that the station handles before it looks for data.
data_type : (t : ℕ) → is_data t ≡ true → (t ≢ ft_disc) × (t ≢ ft_end) × (t ≢ ft_idle)
unfolding is_data
data_type t h =
    (not_control t ft_disc refl h, not_control t ft_end refl h, not_control t ft_idle refl h)

-- What a station does with a data frame that it takes.
pub record Taken (ev : Event) (t u : Turn) : Type 0 where
  pub answered : sends u.actions ≡ sends t.actions + 1
  pub delivered :
      deliveries u.actions
      ≡ deliveries t.actions
        + (if is_type ev.frame_type t.link.session.last_data_to_host then 0 else 1)
  pub in_order :
      u.actions
      ≡ send_frame (quality_to_ack_type ev.quality) 2 t.link.config.leader_ms
        ∷ (if is_type ev.frame_type t.link.session.last_data_to_host
            then t.actions
            else deliver_data (length (take max_payload ev.payload)) ∷ t.actions)
  pub handed_out : u.link.scratch.out_data ≡ (
      if is_type ev.frame_type t.link.session.last_data_to_host
      then t.link.scratch.out_data
      else overwrite (take max_payload ev.payload) t.link.scratch.out_data)
  pub reply :
      u.link.scratch.out_frame
      ≡ overwrite
          (encode_control (quality_to_ack_type ev.quality) t.link.session.session_id)
          t.link.scratch.out_frame
  pub remembered : u.link.session.last_data_to_host ≡ some ev.frame_type
  pub marked : u.link.session.last_acked_type ≡ some ev.frame_type
  pub no_break : u.link.session.break_pending ≡ t.link.session.break_pending
  pub settles : u.link.state ≡ settle t.link.state
  pub same_mode : u.link.mode ≡ t.link.mode

module _ (ev : Event) (now : ℕ) (t : Turn) where
  accept_data-Taken : Taken ev t (accept_data ev t)
  unfolding accept_data deliver_once deliver send_control
  accept_data-Taken = ground arith

module _ (ev : Event) (now : ℕ) (t : Turn) where
  on_data-Taken : t.link.session.break_pending ≡ false → Taken ev t (on_data ev now t)
  unfolding on_data arm_idle
  on_data-Taken b = ground (
    arith,
    accept_data-Taken ev now t,
    accept_data-Taken ev now (record t { link = arm_idle now t.link }),
  )

module _ (ev : Event) (now : ℕ) (t : Turn) where
  irs_data_rx-Taken :
      t.link.session.break_pending ≡ false
      → is_decoded ev ≡ true
      → is_data ev.frame_type ≡ true
      → Taken ev t (step_irs_data_rx ev now t)
  unfolding step_irs_data_rx connected_teardown
  irs_data_rx-Taken b d h = ground (arith, data_type ev.frame_type h, on_data-Taken ev now t b)

-- The states of a receiving station.
abbrev pub is_receiving : LinkState → Bool
is_receiving s = elim s [ irs_data ↦ true | irs_from_iss ↦ true | _ ↦ false ]

module _ (ev : Event) (now : ℕ) (t : Turn) where
  dispatch_rx-Taken :
      (s : LinkState)
      → is_receiving s ≡ true
      → t.link.session.break_pending ≡ false
      → is_decoded ev ≡ true
      → is_data ev.frame_type ≡ true
      → Taken ev t (dispatch_rx s ev now t)
  unfolding dispatch_rx
  dispatch_rx-Taken irs_data r b d h = irs_data_rx-Taken ev now t b d h
  dispatch_rx-Taken irs_from_iss r b d h = irs_data_rx-Taken ev now t b d h
  dispatch_rx-Taken other r b d h = absurd (cc r)

module _ (ev : Event) (now : ℕ) (t : Turn) where
  dispatch_mode-Taken :
      (m : Mode)
      → m ≡ arq
      → is_receiving t.link.state ≡ true
      → t.link.session.break_pending ≡ false
      → is_decoded ev ≡ true
      → is_data ev.frame_type ≡ true
      → Taken ev t (dispatch_mode m ev now t)
  unfolding dispatch_mode
  dispatch_mode-Taken arq e r b d h = dispatch_rx-Taken ev now t t.link.state r b d h
  dispatch_mode-Taken fec e r b d h = absurd (cc e)
  dispatch_mode-Taken rxo e r b d h = absurd (cc e)

  -- The new silence deadline changes nothing that the station decides by.
  heard_state : (hear ev now t).link.state ≡ t.link.state
  unfolding hear arm_stall
  heard_state = ground arith

  heard_mode : (hear ev now t).link.mode ≡ t.link.mode
  unfolding hear arm_stall
  heard_mode = ground arith

  heard_session : (hear ev now t).link.session ≡ t.link.session
  unfolding hear arm_stall
  heard_session = ground arith

  heard_config : (hear ev now t).link.config ≡ t.link.config
  unfolding hear arm_stall
  heard_config = ground arith

  heard_scratch : (hear ev now t).link.scratch ≡ t.link.scratch
  unfolding hear arm_stall
  heard_scratch = ground arith

  heard_actions : (hear ev now t).actions ≡ t.actions
  unfolding hear arm_stall
  heard_actions = ground arith

  Taken-hear : (u : Turn) → Taken ev (hear ev now t) u → Taken ev t u
  unfolding hear arm_stall
  Taken-hear u h = ground (arith, h)

pub run_step-Taken :
    (l : Link) (ev : Event) (now : ℕ)
    → l.mode ≡ arq
    → is_receiving l.state ≡ true
    → l.session.break_pending ≡ false
    → is_decoded ev ≡ true
    → is_data ev.frame_type ≡ true
    → Taken ev (begin l) (run_step l (rx ev) now)
unfolding step_turn step_rx
run_step-Taken l ev now m r b d h = Taken-hear ev now (begin l) _ (
    dispatch_mode-Taken ev now (hear ev now (begin l)) l.mode m
      (rw (heard_state ev now (begin l)) r) (rw (heard_session ev now (begin l)) b) d h)

-- Of two decoded data frames of one type in a row, each gets one answer from a receiving station
-- in ARQ mode that is not asked to break in, and the second is not delivered.
pub run_step_twice :
    (l : Link) (ev copy : Event) (now later : ℕ)
    → l.mode ≡ arq
    → is_receiving l.state ≡ true
    → l.session.break_pending ≡ false
    → is_decoded ev ≡ true
    → is_data ev.frame_type ≡ true
    → is_decoded copy ≡ true
    → copy.frame_type ≡ ev.frame_type
    → let first = run_step l (rx ev) now in
      let second = run_step first.link (rx copy) later in
      (sends first.actions ≡ 1) × (sends second.actions ≡ 1) × (deliveries second.actions ≡ 0)
run_step_twice l ev copy now later m r b d h d' e =
    let first = run_step-Taken l ev now m r b d h in
    let second = run_step-Taken (run_step l (rx ev) now).link copy later in
    ground (arith, first, second)
