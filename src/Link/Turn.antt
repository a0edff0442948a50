-- ===== src/Link/Turn.antt =====
-- core/link/link.c: what the handlers share, from `emit` to `conack_bandwidth`. A handler takes a
-- turn, the link and the actions emitted so far, the latest first, to the turn after it. `faulted` says that the C
-- program has left its defined behaviour: a NULL specification or code, or a read outside a table.
use ardopb.Base.{
  ℕ, zero, suc, ◌+◌, ◌-◌, ◌*◌, ◌^◌, bit_xor, Bool, true, false, not, Option, none, some,
}
use ardopb.Base.{List, [], ◌∷◌, ◌++◌, foldl, length, ltb, ◌==◌, if◌then◌else◌}
use ardopb.Base.{u8, u64, overwrite, snprintf, text}
use ardopb.Base.Int.{ℤ, pos, negsuc}
use ardopb.Codec.Frame.{ft_id, ft_end, ft_disc}
use ardopb.Codec.Frame.{ft_con_ack_200, ft_con_ack_500, ft_con_ack_1000, ft_con_ack_2000}
use ardopb.Codec.Locator
use ardopb.Codec.Rs
use ardopb.Codec.StationId
use ardopb.Codec.StationId.{StationId}
use ardopb.Link.Frames.{encode_control}
use ardopb.Link.State.{
  Link, Session, Sender, Gear, Timers, LinkState, disc, Action, send_frame, set_timer, notify_host,
  Event, frame_decoded, ms_to_samples,
}

pub record Turn : Type 0 where
  pub link : Link
  pub actions : List Action
  pub faulted : Bool

-- A turn begins with no action.
abbrev pub begin : Link → Turn
begin l = record { link = l; actions = []; faulted = false }

-- Statements in their order: `t ▷ f ▷ g`.
infixl 6 ◌▷◌
abbrev pub ◌▷◌ {ℓ κ} : {A : Type ℓ} {B : Type κ} → A → (A → B) → B
x ▷ f = f x

abbrev pub change : (Link → Link) → Turn → Turn
change f t = record t { link = f t.link }

abbrev pub fault : Turn → Turn
fault t = record t { faulted = true }

-- `emit` into an array of `max` actions: past its capacity an action is dropped.
unfoldable pub emit_into : ℕ → List Action → Action → List Action
emit_into max actions a = if ltb (length actions) max then actions ++ (a ∷ []) else actions

-- The array after the emissions of a turn, in their order.
unfoldable pub emit_all : ℕ → List Action → List Action
unfolding emit_into
emit_all max requested = foldl (emit_into max) [] requested

-- The handlers record what they emit; `emit_all` applies the capacity.
abbrev pub emit : Action → Turn → Turn
emit a t = record t { actions = a ∷ t.actions }

-- The setters of the link's sections.
abbrev pub set_session : (Session → Session) → Link → Link
set_session f l = record l { session = f l.session }

abbrev pub set_sender : (Sender → Sender) → Link → Link
set_sender f l = record l { sender = f l.sender }

abbrev pub set_gear : (Gear → Gear) → Link → Link
set_gear f l = record l { gear = f l.gear }

abbrev pub set_timers : (Timers → Timers) → Link → Link
set_timers f l = record l { timers = f l.timers }

abbrev pub set_state : LinkState → Link → Link
set_state s l = record l { state = s }

abbrev pub set_frame_bytes : (List ℕ → List ℕ) → Link → Link
set_frame_bytes f l = record l { scratch = record l.scratch { out_frame = f l.scratch.out_frame } }

-- Bytes written to the front of `out_frame`.
abbrev pub write_frame : List ℕ → Link → Link
write_frame bytes = set_frame_bytes (overwrite bytes)

-- `send_frame` of the source, with the leader that a frame gets unless said otherwise.
abbrev pub send_built : ℕ → ℕ → Turn → Turn
send_built frame_type frame_len t = emit (send_frame frame_type frame_len t.link.config.leader_ms) t

unfoldable pub set_timer_at : ℕ → Turn → Turn
set_timer_at deadline t = emit (set_timer deadline) t

unfoldable pub tell_host : List ℕ → Turn → Turn
tell_host message t =
    let shown = snprintf 128 message in
    t
    ▷ change (λ l. record l { scratch = record l.scratch { out_host = shown } })
    ▷ emit (notify_host (length shown))

unfoldable pub send_control : ℕ → Turn → Turn
send_control frame_type t =
    t
    ▷ change (write_frame (encode_control frame_type t.link.session.session_id))
    ▷ send_built frame_type 2

-- The link with the ID frame, or what there is of it, in `out_frame`, and the length, 0 on failure.
unfoldable pub build_id_frame : StationId → Link → Link × ℕ
build_id_frame call l =
    let header : List ℕ = ft_id ∷ u8 (bit_xor ft_id 0xFF) ∷ [] in
    elim (StationId.to_buffer call) [
      | none ↦ (write_frame header l, 0)
      | some call_bytes ↦
          let ids = call_bytes ++ Locator.as_bytes l.config.grid in
          elim l.config.rs [
            | none ↦ (write_frame (header ++ ids) l, 0)
            | some rs ↦ elim (Rs.append rs ids 4) [
              | none ↦ (write_frame (header ++ ids) l, 0)
              | some coded ↦ (write_frame (header ++ coded) l, 18)
            ]
          ]
    ]

-- The first lines of `arm_repeat`: the default interval where there is none.
abbrev repeat_interval : ℕ → ℕ
repeat_interval ms = if ms == 0 then 2000 else ms

unfoldable pub arm_repeat : ℕ → ℕ → ℕ → Link → Link
arm_repeat frame_type len now = set_timers λ r. record r {
  repeat_interval_ms = repeat_interval r.repeat_interval_ms;
  repeat_frame_type = frame_type;
  repeat_frame_len = len;
  repeat_deadline = u64 (now + ms_to_samples (repeat_interval r.repeat_interval_ms));
}

unfoldable pub reset_to_disc : Link → Link
reset_to_disc l = record l {
  state = disc;
  session = record l.session { last_session_id = l.session.session_id; pending = false };
  timers = record l.timers {
    repeat_interval_ms = 0;
    repeat_deadline = 0;
    pending_deadline = 0;
    stall_deadline = 0;
    idle_deadline = 0;
  };
}

-- `(uint64_t)seconds` of an int.
abbrev u64_of_int : ℤ → ℕ
u64_of_int (pos n) = n
u64_of_int (negsuc n) = 2 ^ 64 - 1 - n

unfoldable pub arm_stall : ℕ → Link → Link
arm_stall now l =
    set_timers
      (λ r. record r {
        stall_deadline = u64 (now + ms_to_samples (u64 (u64_of_int l.config.arq_timeout * 1000)));
      })
      l

unfoldable pub idle_span : ℤ → Option ℕ
idle_span (pos zero) = none
idle_span (pos (suc n)) = some (ms_to_samples (u64 (suc n * 1000)))
idle_span (negsuc n) = none

-- With no idle timeout there is nothing to arm.
unfoldable pub arm_idle : ℕ → Link → Link
arm_idle now l = elim (idle_span l.config.idle_timeout) [
  | none ↦ l
  | some span ↦ set_timers (λ r. record r { idle_deadline = u64 (now + span) }) l
]

unfoldable pub conack_bandwidth : ℕ → ℕ
conack_bandwidth t =
    if t == ft_con_ack_200
    then 200
    else if t == ft_con_ack_500
    then 500
    else if t == ft_con_ack_1000
    then 1000
    else if t == ft_con_ack_2000
    then 2000
    else 0

abbrev pub final_id_hold_ms : ℕ
final_id_hold_ms = 3000

abbrev pub irs_pending_timeout_ms : ℕ
irs_pending_timeout_ms = 10000

abbrev pub conreq_repeat_ms : ℕ
conreq_repeat_ms = 2000

-- The closing ID is held until its deadline.
abbrev pub hold_final_id : ℕ → Turn → Turn
hold_final_id now t =
    let deadline = u64 (now + ms_to_samples final_id_hold_ms) in
    t ▷ change (set_timers λ r. record r { final_id_deadline = deadline }) ▷ set_timer_at deadline

unfoldable pub send_end_and_disconnect : ℕ → Turn → Turn
send_end_and_disconnect now t =
    t
    ▷ tell_host (text "DISCONNECTED")
    ▷ send_control ft_end
    ▷ hold_final_id now
    ▷ change reset_to_disc

abbrev pub is_decoded : Event → Bool
is_decoded ev = elim ev.kind [ frame_decoded ↦ true | _ ↦ false ]

-- The turn after a teardown frame, `none` for any other.
unfoldable pub connected_teardown : Event → ℕ → Turn → Option Turn
connected_teardown ev now t =
    if not (is_decoded ev)
    then none
    else if ev.frame_type == ft_disc
    then some (send_end_and_disconnect now t)
    else if ev.frame_type == ft_end
    then some (t ▷ tell_host (text "DISCONNECTED") ▷ change reset_to_disc)
    else none
