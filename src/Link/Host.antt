-- ===== src/Link/Host.antt =====
-- core/link/link.c: the host's commands.
use ardopb.Base.{ℕ, zero, suc, ◌-◌, ◌%◌, bit_xor, Bool, true, false, not, ◌&&◌}
use ardopb.Base.{Option, none, some, List, [], ◌∷◌, ◌++◌, take, ltb, ◌==◌}
use ardopb.Base.{if◌then◌else◌, u8, text}
use ardopb.Base.Int.{ℤ, pos, negsuc}
use ardopb.Codec.Frame.{ft_disc, ft_id}
use ardopb.Codec.Rs
use ardopb.Codec.StationId
use ardopb.Link.Bandwidth.{ArqBandwidth, undefined, bandwidth_conreq_type}
use ardopb.Link.Fec.{fec_send_next}
use ardopb.Link.Send.{notify_buffer}
use ardopb.Link.Session
use ardopb.Link.State.{
  Link, LinkState, disc, iss_con_req, irs_data, fec_send, Mode, arq, fec, rxo, HostCmd, CmdKind,
  connect, disconnect, abort, send_data, set_mode, fec_send_cmd, send_id, break_cmd, tx_len,
}
use ardopb.Link.Turn.{
  Turn, ◌▷◌, change, set_session, set_sender, set_timers, set_state, write_frame, send_built,
  set_timer_at, tell_host, send_control, build_id_frame, arm_repeat, reset_to_disc, arm_idle,
  conreq_repeat_ms,
}

abbrev pub is_disc : LinkState → Bool
is_disc s = elim s [ disc ↦ true | _ ↦ false ]

-- A bandwidth given with the call overrides the station's.
unfoldable pub call_bandwidth : ArqBandwidth → ArqBandwidth → ArqBandwidth
call_bandwidth undefined setting = setting
call_bandwidth given setting = given

abbrev conreq_len : ℕ
conreq_len = 18

abbrev conreq_rs_len : ℕ
conreq_rs_len = 4

-- The bytes of a ConReq that are written, and whether all of them are.
unfoldable pub build_conreq : ℕ → HostCmd → Link → Bool × List ℕ
build_conreq type cmd l =
    let header : List ℕ = type ∷ u8 (bit_xor type 0xFF) ∷ [] in
    elim (StationId.to_buffer l.config.mycall) [
      | none ↦ (false, header)
      | some my_bytes ↦ elim (StationId.to_buffer cmd.target) [
        | none ↦ (false, header ++ my_bytes)
        | some target_bytes ↦
            let ids = my_bytes ++ target_bytes in
            elim l.config.rs [
              | none ↦ (false, header ++ ids)
              | some rs ↦ elim (Rs.append rs ids conreq_rs_len) [
                | none ↦ (false, header ++ ids)
                | some coded ↦ (true, header ++ coded)
              ]
            ]
      ]
    ]

-- The request in `out_frame` goes out under a session id of the two calls.
unfoldable pub start_session : ℕ → HostCmd → ℕ → Turn → Turn
start_session type cmd now t =
    let mycall = t.link.config.mycall in
    let u =
      t
      ▷ change (
          set_session λ s. record s {
            remote = cmd.target;
            local = mycall;
            final_id_call = mycall;
            session_id = Session.session_id mycall.str cmd.target.str;
            pending = true;
          })
      ▷ change (set_state iss_con_req)
      ▷ change (set_timers λ r. record r { repeat_interval_ms = conreq_repeat_ms })
      ▷ send_built type conreq_len
      ▷ change (arm_repeat type conreq_len now) in
    set_timer_at u.link.timers.repeat_deadline u

unfoldable pub step_host_connect : HostCmd → ℕ → Turn → Turn
step_host_connect cmd now t =
    let type = bandwidth_conreq_type (call_bandwidth cmd.bandwidth t.link.config.bw_setting) in
    let (built, bytes) = build_conreq type cmd t.link in
    let u = change (write_frame bytes) t in
    if not (is_disc t.link.state)
    then t
    else if type == 0
    then t
    else if built
    then start_session type cmd now u
    else u

-- The bytes that fit the queue are appended.
unfoldable pub enqueue : List ℕ → ℕ → Turn → Turn
enqueue bytes now t =
    let room = t.link.config.tx_cap - tx_len t.link in
    if t.link.config.tx_attached && ltb (tx_len t.link) t.link.config.tx_cap
    then t
      ▷ change (set_sender λ s. record s { tx_data = s.tx_data ++ take room bytes })
      ▷ change (arm_idle now)
    else t

unfoldable pub step_host_send_data : HostCmd → ℕ → Turn → Turn
step_host_send_data cmd now t = elim cmd.payload [
  | none ↦ notify_buffer t
  | some bytes ↦ notify_buffer (enqueue bytes now t)
]

unfoldable pub step_host_disconnect : ℕ → Turn → Turn
step_host_disconnect now t =
    if is_disc t.link.state
    then tell_host (text "DISCONNECT IGNORED") t
    else t
      ▷ tell_host (text "STATUS INITIATING ARQ DISCONNECT")
      ▷ send_control ft_disc
      ▷ change (set_timers λ r. record r { disc_repeat_count = 1; repeat_interval_ms = 2000 })
      ▷ change (arm_repeat ft_disc 2 now)

unfoldable pub step_host_abort : Turn → Turn
step_host_abort t =
    t
    ▷ change (set_sender λ s. record s { tx_data = [] })
    ▷ change (set_timers λ r. record r { disc_repeat_count = 0 })
    ▷ change reset_to_disc
    ▷ tell_host (text "ABORT")

unfoldable pub step_host_break : Turn → Turn
step_host_break t = elim t.link.state [
  | irs_data ↦ change (set_session λ s. record s { break_pending = true }) t
  | _ ↦ t
]

-- `(uint8_t)arg`
abbrev u8_of_int : ℤ → ℕ
u8_of_int (pos n) = u8 n
u8_of_int (negsuc n) = 255 - n % 256

-- The frame type of a command that gives one.
unfoldable pub fec_type : ℤ → ℕ → ℕ
fec_type (pos zero) standing = standing
fec_type (pos (suc n)) standing = u8 (suc n)
fec_type (negsuc n) standing = u8_of_int (negsuc n)

unfoldable pub step_host_fec_send : HostCmd → Turn → Turn
step_host_fec_send cmd t =
    let u =
      change
        (λ l. record l {
          config = record l.config { fec_frame_type = fec_type cmd.arg l.config.fec_frame_type };
          mode = fec;
        })
        t in
    if is_disc t.link.state
    then u
      ▷ change (set_session λ s. record s { session_id = 0 })
      ▷ change (set_state fec_send)
      ▷ fec_send_next
    else u

unfoldable pub step_host_id : Turn → Turn
step_host_id t =
    let (built, len) = build_id_frame t.link.config.mycall t.link in
    let u = change (λ l. built) t in
    if not (is_disc t.link.state) then t else if ltb 0 len then send_built ft_id len u else u

-- The mode of an argument in range.
unfoldable pub mode_of : ℤ → Option Mode
mode_of (pos n) =
    if n == 0 then some arq else if n == 1 then some fec else if n == 2 then some rxo else none
mode_of (negsuc n) = none

unfoldable pub step_host_set_mode : HostCmd → Turn → Turn
step_host_set_mode cmd t = elim (mode_of cmd.arg) [
  | none ↦ t
  | some m ↦ if is_disc t.link.state then change (λ l. record l { mode = m }) t else t
]

-- `step_host`, by the kind of the command.
unfoldable pub dispatch_host : CmdKind → HostCmd → ℕ → Turn → Turn
dispatch_host connect cmd now t = step_host_connect cmd now t
dispatch_host send_data cmd now t = step_host_send_data cmd now t
dispatch_host disconnect cmd now t = step_host_disconnect now t
dispatch_host abort cmd now t = step_host_abort t
dispatch_host break_cmd cmd now t = step_host_break t
dispatch_host set_mode cmd now t = step_host_set_mode cmd t
dispatch_host send_id cmd now t = step_host_id t
dispatch_host fec_send_cmd cmd now t = step_host_fec_send cmd t

abbrev pub step_host : HostCmd → ℕ → Turn → Turn
step_host cmd = dispatch_host cmd.kind cmd
