-- ===== src/Link/Flow.antt =====
-- The state diagram of the link, and that no step leaves it.
pub mod Connected
pub mod Step
use ardopb.Base.{◌≡◌, refl, Bool, true, false, arith}
use ardopb.Link.State.{
  LinkState, disc, iss_con_req, iss_con_ack, iss, irs_con_ack, irs_data, idle, irs_to_iss,
  irs_from_iss, fec_send,
}

-- The moves of the protocol. Every state may stay as it is and may be dropped to `disc`.
infix 40 ◌⟶◌
pub data ◌⟶◌ : LinkState → LinkState → Type 0 where
  stay : {s : LinkState} → s ⟶ s
  hang_up : {s : LinkState} → s ⟶ disc
  call : disc ⟶ iss_con_req
  answer : disc ⟶ irs_con_ack
  broadcast : disc ⟶ fec_send
  confirm : iss_con_req ⟶ iss_con_ack
  start_sending : iss_con_ack ⟶ iss
  start_idling : iss_con_ack ⟶ idle
  drained : iss ⟶ idle
  resume : idle ⟶ iss
  iss_yields : iss ⟶ irs_from_iss
  idle_yields : idle ⟶ irs_from_iss
  start_receiving : irs_con_ack ⟶ irs_data
  settled : irs_from_iss ⟶ irs_data
  break_in : irs_data ⟶ irs_to_iss
  take_over : irs_to_iss ⟶ iss
  take_over_idle : irs_to_iss ⟶ idle

-- The diagram as a test.
abbrev pub can_move : LinkState → LinkState → Bool
can_move s disc = true
can_move disc iss_con_req = true
can_move disc irs_con_ack = true
can_move disc fec_send = true
can_move iss_con_req iss_con_req = true
can_move iss_con_req iss_con_ack = true
can_move iss_con_ack iss_con_ack = true
can_move iss_con_ack iss = true
can_move iss_con_ack idle = true
can_move iss iss = true
can_move iss idle = true
can_move iss irs_from_iss = true
can_move idle idle = true
can_move idle iss = true
can_move idle irs_from_iss = true
can_move irs_con_ack irs_con_ack = true
can_move irs_con_ack irs_data = true
can_move irs_from_iss irs_from_iss = true
can_move irs_from_iss irs_data = true
can_move irs_data irs_data = true
can_move irs_data irs_to_iss = true
can_move irs_to_iss irs_to_iss = true
can_move irs_to_iss iss = true
can_move irs_to_iss idle = true
can_move fec_send fec_send = true
can_move s u = false

pub move : (s u : LinkState) → can_move s u ≡ true → s ⟶ u
move s disc h = hang_up
move disc iss_con_req h = call
move disc irs_con_ack h = answer
move disc fec_send h = broadcast
move iss_con_req iss_con_req h = stay
move iss_con_req iss_con_ack h = confirm
move iss_con_ack iss_con_ack h = stay
move iss_con_ack iss h = start_sending
move iss_con_ack idle h = start_idling
move iss iss h = stay
move iss idle h = drained
move iss irs_from_iss h = iss_yields
move idle idle h = stay
move idle iss h = resume
move idle irs_from_iss h = idle_yields
move irs_con_ack irs_con_ack h = stay
move irs_con_ack irs_data h = start_receiving
move irs_from_iss irs_from_iss h = stay
move irs_from_iss irs_data h = settled
move irs_data irs_data h = stay
move irs_data irs_to_iss h = break_in
move irs_to_iss irs_to_iss h = stay
move irs_to_iss iss h = take_over
move irs_to_iss idle h = take_over_idle
move fec_send fec_send h = stay
move s u h = cc
