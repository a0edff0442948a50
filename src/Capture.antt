-- ===== src/Capture.antt =====
-- shell/capture.c: the records of a session capture as bytes. A `float` is its 32 bits and an `int16_t` its 16
-- bits, as both are written. A text is its characters before the NUL, `none` a null pointer. Its words are those of
-- Base.Words, which app/asp_wire.c declares alike.
pub mod Parsing
mod Fields
pub mod RoundTrip
pub mod Entries
mod Tests
use ardopb.Base.{
  ℕ, ◌+◌, ◌-◌, min, u8, ltb, Bool, false, Option, none, some, List, [], ◌∷◌, ◌++◌, length, take,
  if◌then◌else◌,
}
use ardopb.Base.Words.{put_u16, put_u32}

abbrev pub capture_magic : ℕ
capture_magic = 0x41

abbrev pub capture_version : ℕ
capture_version = 1

abbrev pub prefix_len : ℕ
prefix_len = 3

abbrev pub kind_leader : ℕ
kind_leader = 3

abbrev pub kind_state : ℕ
kind_state = 4

abbrev pub kind_ptt : ℕ
kind_ptt = 5

abbrev pub kind_bandwidth : ℕ
kind_bandwidth = 6

abbrev pub kind_busy : ℕ
kind_busy = 7

abbrev pub kind_rx_data : ℕ
kind_rx_data = 8

abbrev pub kind_host_msg : ℕ
kind_host_msg = 9

-- `ardop_capture_record`: each kind uses some of the fields.
pub record CaptureRecord : Type 0 where
  pub version : ℕ
  pub kind : ℕ
  pub frame_type : ℕ
  pub quality : ℕ
  pub sn : ℕ
  pub bandwidth_hz : ℕ
  pub payload : List ℕ
  pub offset_hz : ℕ
  pub link_state : ℕ
  pub remote : List ℕ
  pub flag : Bool
  pub tag : List ℕ
  pub text : List ℕ

-- The fields before a kind sets its own: -1 in `quality` and `sn`.
unfoldable pub blank : ℕ → CaptureRecord
blank kind = record {
  version = capture_version;
  kind = kind;
  frame_type = 0;
  quality = 0xFFFF;
  sn = 0xFFFF;
  bandwidth_hz = 0;
  payload = [];
  offset_hz = 0;
  link_state = 0;
  remote = [];
  flag = false;
  tag = [];
  text = [];
}

-- How many bytes of a text or a payload are kept.
unfoldable pub clamp16 : ℕ → ℕ → ℕ
clamp16 n cap = min (min n cap) 0xFFFF

unfoldable pub clamp8 : ℕ → ℕ → ℕ
clamp8 n cap = min (min n cap) 0xFF

abbrev pub prefix : ℕ → List ℕ → List ℕ
prefix kind fields = capture_magic ∷ capture_version ∷ u8 kind ∷ fields

unfoldable pub encode_frame : ℕ → ℕ → ℕ → ℕ → ℕ → ℕ → List ℕ → Option (List ℕ)
encode_frame cap kind frame_type quality sn bandwidth_hz payload =
    let n = clamp16 (length payload) (cap - 12) in
    let fields =
      put_u16 quality ++ (put_u16 sn ++ (put_u16 bandwidth_hz ++ (put_u16 n ++ take n payload))) in
    if ltb cap 12 then none else some (prefix kind (frame_type ∷ fields))

unfoldable pub encode_leader : ℕ → ℕ → ℕ → Option (List ℕ)
encode_leader cap offset_hz sn =
    if ltb cap 9 then none else some (prefix kind_leader (put_u32 offset_hz ++ put_u16 sn))

unfoldable pub text_of : Option (List ℕ) → List ℕ
text_of none = []
text_of (some s) = s

unfoldable pub encode_state : ℕ → ℕ → Option (List ℕ) → Option (List ℕ)
encode_state cap link_state remote =
    let n = clamp8 (length (text_of remote)) (cap - 5) in
    if ltb cap 5 then none else some (prefix kind_state (link_state ∷ n ∷ take n (text_of remote)))

unfoldable pub encode_flag : ℕ → ℕ → Bool → Option (List ℕ)
encode_flag cap kind on =
    if ltb cap 4 then none else some (prefix kind ((if on then 1 else 0) ∷ []))

unfoldable pub encode_ptt : ℕ → Bool → Option (List ℕ)
encode_ptt cap key = encode_flag cap kind_ptt key

unfoldable pub encode_busy : ℕ → Bool → Option (List ℕ)
encode_busy cap busy = encode_flag cap kind_busy busy

unfoldable pub encode_bandwidth : ℕ → ℕ → Option (List ℕ)
encode_bandwidth cap bandwidth_hz =
    if ltb cap 5 then none else some (prefix kind_bandwidth (put_u16 bandwidth_hz))

unfoldable pub encode_rx_data : ℕ → Option (List ℕ) → List ℕ → Option (List ℕ)
encode_rx_data cap tag bytes =
    let tag_len = clamp8 (length (text_of tag)) (cap - 6) in
    let n = clamp16 (length bytes) (cap - 6 - tag_len) in
    if ltb cap 6
    then none
    else some (
        prefix kind_rx_data (tag_len ∷ (take tag_len (text_of tag) ++ (put_u16 n ++ take n bytes))))

unfoldable pub encode_host_msg : ℕ → Option (List ℕ) → Option (List ℕ)
encode_host_msg cap text =
    let n = clamp16 (length (text_of text)) (cap - 5) in
    if ltb cap 5 then none else some (prefix kind_host_msg (put_u16 n ++ take n (text_of text)))
