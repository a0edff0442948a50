-- ===== src/Asp/Frame.antt =====
-- app/asp_wire.c: a message is its type, the length of its payload and the payload.
pub mod RoundTrip
pub mod Verdicts
use ardopb.Base.{
  ℕ, ◌+◌, ◌-◌, ◌%◌, ◌^◌, u8, ltb, ◌==◌, Bool, true, false, ◌&&◌, Option, none, some, List, [], ◌∷◌,
  ◌++◌, length, take, drop, bytes_eq, leb, if◌then◌else◌,
}
use ardopb.Asp.Varint.{varint_max, varint_put, varint_get}

abbrev pub msg_hello : ℕ
msg_hello = 0x01

abbrev pub msg_bye : ℕ
msg_bye = 0x02

abbrev pub msg_text : ℕ
msg_text = 0x10

abbrev pub msg_text_b : ℕ
msg_text_b = 0x11

abbrev pub msg_offer : ℕ
msg_offer = 0x20

abbrev pub msg_accept : ℕ
msg_accept = 0x21

abbrev pub msg_reject : ℕ
msg_reject = 0x22

abbrev pub msg_start : ℕ
msg_start = 0x23

abbrev pub msg_data : ℕ
msg_data = 0x24

abbrev pub msg_done : ℕ
msg_done = 0x25

abbrev pub msg_result : ℕ
msg_result = 0x26

abbrev pub msg_cancel : ℕ
msg_cancel = 0x27

abbrev pub max_payload : ℕ
max_payload = 4096

abbrev pub max_message : ℕ
max_message = 1 + 4 + max_payload

abbrev pub magic : List ℕ
magic = b'A' ∷ b'S' ∷ b'P' ∷ b'/' ∷ b'1' ∷ []

-- The bytes of a message where `cap` of them have room, `none` for the result 0.
unfoldable pub frame_put : ℕ → ℕ → List ℕ → Option (List ℕ)
frame_put cap type payload =
    if ltb max_payload (length payload)
    then none
    else if ltb cap 1
    then none
    else elim (varint_put (cap - 1) (length payload % 2 ^ 32)) [
      | none ↦ none
      | some v ↦
          if ltb cap (1 + length v + length payload) then none else some (u8 type ∷ (v ++ payload))
    ]

-- A message with its type and payload and the number of its bytes, or why there is none.
pub data FrameStatus : Type 0 where
  frame_ok : ℕ → List ℕ → ℕ → FrameStatus
  frame_short : FrameStatus
  frame_error : FrameStatus

-- The payload, of which the length and where it starts are known.
unfoldable pub frame_body : ℕ → List ℕ → Option (ℕ × ℕ) → FrameStatus
frame_body type rest none = if ltb (length rest) varint_max then frame_short else frame_error
frame_body type rest (some (plen, vn)) =
    if ltb max_payload plen
    then frame_error
    else if ltb (1 + length rest) (1 + vn + plen)
    then frame_short
    else frame_ok type (take plen (drop vn rest)) (1 + vn + plen)

unfoldable pub frame_get : List ℕ → FrameStatus
frame_get [] = frame_short
frame_get (type ∷ rest) = if type == 0 then frame_error else frame_body type rest (varint_get rest)

-- Whether received bytes begin with a HELLO.
unfoldable pub looks_like_hello : List ℕ → Bool
looks_like_hello [] = false
looks_like_hello (type ∷ rest) =
    leb (2 + length magic) (1 + length rest)
    && ((type == msg_hello) && bytes_eq (take (length magic) (drop 1 rest)) magic)
