-- ===== src/Asp/Session.antt =====
-- app/asp.c: one session of the application protocol, its state and what sends.
--
-- The callbacks of `asp_io` are functions of a world, which is all that they reach; they do not call the
-- session. One that is NULL is the function that changes nothing, takes every write and defers
-- every offer. The buffers `in` and `out` are lists of the bytes in use.
pub mod Sending
pub mod Receiving
pub mod Bounded
pub mod Calls
pub mod Reads
pub mod Handled
pub mod Settled
pub mod Rounds
use ardopb.Base.{
  ℕ, ◌+◌, ◌-◌, ◌%◌, ◌^◌, u8, ltb, leb, ◌==◌, Bool, true, false, not, ◌&&◌, Option, none, some, List,
  [], length, drop, zero, suc, if◌then◌else◌,
}
use ardopb.Asp.Frame.{frame_put, max_message}
use ardopb.Asp.Payloads.{Offer}

pub data LinkState : Type 0 where
  idle : LinkState
  hello_sent : LinkState
  asp : LinkState
  raw : LinkState

pub data XferState : Type 0 where
  xfer_none : XferState
  offered : XferState
  running : XferState
  await_result : XferState
  receiving : XferState

pub record Io (W : Type 0) : Type 0 where
  pub send : W → List ℕ → W × ℕ
  pub credit : W → ℕ
  pub read_file : W → ℕ → ℕ → List ℕ
  pub write_file : W → List ℕ → W × Bool
  pub offer_arrived : W → Offer → W × Option (ℕ × ℕ)
  pub truncate_file : W → W
  pub text_arrived : W → List ℕ → Bool → W
  pub transfer_done : W → Bool → ℕ → ℕ → W
  pub progress : W → Bool → ℕ → ℕ → W
  pub protocol_error : W → List ℕ → W

-- The one outbound and the one inbound transfer.
pub record Outbound : Type 0 where
  pub tx_state : XferState
  pub tx_id : ℕ
  pub tx_size : ℕ
  pub tx_offset : ℕ
  pub tx_crc : ℕ

pub record Inbound : Type 0 where
  pub rx_state : XferState
  pub rx_id : ℕ
  pub rx_size : ℕ
  pub rx_have : ℕ
  pub rx_crc : ℕ
  pub rx_running_crc : ℕ
  pub rx_name : List ℕ

-- `asp_session`, with the world of its callbacks.
pub record Session (W : Type 0) : Type 0 where
  pub world : W
  pub state : LinkState
  pub my_call : List ℕ
  pub peer_call : List ℕ
  pub peer_caps : ℕ
  pub inbox : List ℕ
  pub outbox : List ℕ
  pub out_sent : ℕ
  pub tx : Outbound
  pub rx : Inbound
  pub next_id : ℕ

module _ {W : Type 0} where
  abbrev pub set_state : LinkState → Session W → Session W
  set_state st s = record s { state = st }

  abbrev pub set_tx : (Outbound → Outbound) → Session W → Session W
  set_tx f s = record s { tx = f s.tx }

  abbrev pub set_rx : (Inbound → Inbound) → Session W → Session W
  set_rx f s = record s { rx = f s.rx }

  abbrev pub tell : (W → W) → Session W → Session W
  tell f s = record s { world = f s.world }

  abbrev pub end_tx : Session W → Session W
  end_tx s = set_tx (λ t. record t { tx_state = xfer_none }) s

  abbrev pub end_rx : Session W → Session W
  end_rx s = set_rx (λ r. record r { rx_state = xfer_none }) s

  unfoldable pub can_queue : Session W → Bool
  can_queue s = length s.outbox == s.out_sent

  -- The loop of `flush`, with a bound of its rounds: each sends a byte at least.
  unfoldable pub flush_loop : Io W → ℕ → Session W → Session W
  flush_loop io zero s = s
  flush_loop io (suc rounds) s =
      let sent = io.send s.world (drop s.out_sent s.outbox) in
      let told = record s { world = sent.0 } in
      let rest = flush_loop io rounds (record told { out_sent = s.out_sent + sent.1 }) in
      if ltb s.out_sent (length s.outbox)
      then (if sent.1 == 0 then told else rest)
      else record s { outbox = []; out_sent = 0 }

  unfoldable pub flush : Io W → Session W → Session W
  flush io s = flush_loop io (suc (length s.outbox)) s

  -- The session afterwards, and whether the message was taken.
  unfoldable pub queue_bytes : Io W → Session W → Option (List ℕ) → Session W × Bool
  queue_bytes io s none = (s, false)
  queue_bytes io s (some bytes) = (flush io (record s { outbox = bytes; out_sent = 0 }), true)

  unfoldable pub queue_msg : Io W → ℕ → List ℕ → Session W → Session W × Bool
  queue_msg io type payload s =
      if can_queue s then queue_bytes io s (frame_put max_message type payload) else (s, false)

  unfoldable pub fail : Io W → List ℕ → Session W → Session W
  fail io why s = tell (λ w. io.protocol_error w why) (set_state idle s)

abbrev pub is_idle : LinkState → Bool
is_idle idle = true
is_idle hello_sent = false
is_idle asp = false
is_idle raw = false

abbrev pub is_hello_sent : LinkState → Bool
is_hello_sent idle = false
is_hello_sent hello_sent = true
is_hello_sent asp = false
is_hello_sent raw = false

abbrev pub is_asp : LinkState → Bool
is_asp idle = false
is_asp hello_sent = false
is_asp asp = true
is_asp raw = false

abbrev pub is_raw : LinkState → Bool
is_raw idle = false
is_raw hello_sent = false
is_raw asp = false
is_raw raw = true

-- The enumerators of `asp_xfer_state`, for its comparisons.
abbrev pub xfer_code : XferState → ℕ
xfer_code xfer_none = 0
xfer_code offered = 1
xfer_code running = 2
xfer_code await_result = 3
xfer_code receiving = 4

abbrev pub is_xfer : XferState → XferState → Bool
is_xfer a b = xfer_code a == xfer_code b
