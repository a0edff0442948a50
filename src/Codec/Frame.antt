-- ===== src/Codec/Frame.antt =====
-- core/codec/frame.h and frame.c: the frame type table and what is computed from it. The struct
-- pointers of the source are options here, `none` for NULL.
mod Table
mod Tests
pub mod Pairs
pub use Table.{Modulation, fsk4, psk4, psk8, qam16, FrameSpec}
unfoldable pub use Table.{frame_table, data_nak_spec, data_ack_spec}
use ardopb.Base.{ℕ, zero, suc, ◌+◌, ◌-◌, ◌*◌, ◌/◌, ◌%◌, ◌^◌, bit_and, bit_xor, Bool, true, false}
use ardopb.Base.{◌&&◌, ◌||◌, not, Option, none, some, List, [], ◌∷◌, ◌==◌, ltb, leb}
use ardopb.Base.{if◌then◌else◌, u8, u16, length, take, text}

abbrev pub data_nak_max : ℕ
data_nak_max = 0x1F

abbrev pub data_ack_min : ℕ
data_ack_min = 0xE0

abbrev pub ft_break : ℕ
ft_break = 0x23

abbrev pub ft_idle : ℕ
ft_idle = 0x24

abbrev pub ft_disc : ℕ
ft_disc = 0x29

abbrev pub ft_end : ℕ
ft_end = 0x2C

abbrev pub ft_con_rej_busy : ℕ
ft_con_rej_busy = 0x2D

abbrev pub ft_con_rej_bw : ℕ
ft_con_rej_bw = 0x2E

abbrev pub ft_id : ℕ
ft_id = 0x30

abbrev pub ft_con_req_200m : ℕ
ft_con_req_200m = 0x31

abbrev pub ft_con_req_500m : ℕ
ft_con_req_500m = 0x32

abbrev pub ft_con_req_1000m : ℕ
ft_con_req_1000m = 0x33

abbrev pub ft_con_req_2000m : ℕ
ft_con_req_2000m = 0x34

abbrev pub ft_con_req_200f : ℕ
ft_con_req_200f = 0x35

abbrev pub ft_con_req_500f : ℕ
ft_con_req_500f = 0x36

abbrev pub ft_con_req_1000f : ℕ
ft_con_req_1000f = 0x37

abbrev pub ft_con_req_2000f : ℕ
ft_con_req_2000f = 0x38

abbrev pub ft_con_ack_200 : ℕ
ft_con_ack_200 = 0x39

abbrev pub ft_con_ack_500 : ℕ
ft_con_ack_500 = 0x3A

abbrev pub ft_con_ack_1000 : ℕ
ft_con_ack_1000 = 0x3B

abbrev pub ft_con_ack_2000 : ℕ
ft_con_ack_2000 = 0x3C

abbrev pub ft_ping_ack : ℕ
ft_ping_ack = 0x3D

abbrev pub ft_ping : ℕ
ft_ping = 0x3E

-- Whether a type byte lies in the family of connect requests, or of connect acks.
abbrev pub is_con_req : ℕ → Bool
is_con_req t = leb ft_con_req_200m t && leb t ft_con_req_2000f

abbrev pub is_con_ack : ℕ → Bool
is_con_ack t = leb ft_con_ack_200 t && leb t ft_con_ack_2000

table_entry : ℕ → List (ℕ × FrameSpec) → Option FrameSpec
table_entry t [] = none
table_entry t ((key, spec) ∷ rest) = if key == t then some spec else table_entry t rest

unfoldable pub spec_for : ℕ → Option FrameSpec
unfolding table_entry frame_table data_nak_spec data_ack_spec
spec_for t =
    if leb t data_nak_max
    then some data_nak_spec
    else if leb data_ack_min t
    then some data_ack_spec
    else table_entry t frame_table

-- `strncmp(s, p, strlen(p)) == 0`
starts_with : List ℕ → List ℕ → Bool
starts_with s [] = true
starts_with [] (x ∷ p) = false
starts_with (c ∷ s) (x ∷ p) = (c == x) && starts_with s p

-- `strstr(s, p) != NULL`
strstr : List ℕ → List ℕ → Bool
unfolding starts_with
strstr [] p = starts_with [] p
strstr (c ∷ s) p = starts_with (c ∷ s) p || strstr s p

unfoldable pub is_data : ℕ → Bool
unfolding spec_for strstr text
is_data t = elim (spec_for t) [
  | none ↦ false
  | some spec ↦
      not (length spec.name == 0) && (strstr spec.name (text ".E") || strstr spec.name (text ".O"))
]

unfoldable pub is_odd : ℕ → Bool
is_odd t = not (bit_and t 1 == 0)

unfoldable pub payload_bytes : FrameSpec → ℕ
payload_bytes spec = u16 (spec.carriers * spec.data_bytes_per_carrier)

unfoldable pub rs_bytes : FrameSpec → ℕ
rs_bytes spec = u16 (spec.carriers * spec.rs_bytes_per_carrier)

abbrev frame_name_suffix_len : ℕ
frame_name_suffix_len = 2

-- Whether `t` is the even data type whose name is `name` and the suffix.
names_type : List ℕ → ℕ → Bool
unfolding is_odd is_data starts_with
names_type name t = not (is_odd t || not (is_data t)) && elim (spec_for t) [
  | none ↦ false
  | some spec ↦
      (length spec.name == length name + frame_name_suffix_len) && starts_with spec.name name
]

-- The search loop with `left` types to go, from `t` on.
search_name : ℕ → ℕ → List ℕ → Option ℕ
unfolding names_type
search_name zero t name = none
search_name (suc left) t name =
    let rest = search_name left (t + 1) name in if names_type name t then some t else rest

unfoldable pub data_frame_type_for_name : List ℕ → Option ℕ
unfolding search_name
data_frame_type_for_name name =
    if length name == 0
    then none
    else search_name (data_ack_min - (data_nak_max + 1)) (data_nak_max + 1) name

-- The text written into a buffer of `cap` characters, `none` for the result false.
unfoldable pub data_frame_name : ℕ → ℕ → Option (List ℕ)
unfolding is_data spec_for
data_frame_name t cap = if not (is_data t) then none else elim (spec_for t) [
  | none ↦ none
  | some spec ↦
      let len = length spec.name - frame_name_suffix_len in
      if leb cap len then none else some (take len spec.name)
]

-- The four rounds over the dibits, with `left` to go.
parity_loop : ℕ → ℕ → ℕ → ℕ → ℕ
parity_loop zero t mask parity_sum = parity_sum
parity_loop (suc left) t mask parity_sum =
    let sym = u8 (bit_and mask t / 2 ^ (2 * left)) in
    parity_loop left t (u8 (mask / 2 ^ 2)) (u8 (bit_xor parity_sum sym))

unfoldable pub frame_type_parity : ℕ → ℕ
unfolding parity_loop
frame_type_parity t = bit_and (parity_loop 4 t 0xC0 1) 0x3
