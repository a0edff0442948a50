-- ===== src/Codec/DataFrame.antt =====
-- core/codec/dataframe.c: the bytes of a data frame, [type][type ^ session] and the blocks
-- [length][data, zero padded][CRC][parity].
pub mod Size
use ardopb.Base.{ℕ, zero, suc, ◌+◌, ◌-◌, ◌*◌, ◌/◌, ◌%◌, bit_xor, Bool, true, false, ◌&&◌, ◌||◌}
use ardopb.Base.{Option, none, some, List, [], ◌∷◌, ◌++◌, ltb, leb, ◌==◌, if◌then◌else◌}
use ardopb.Base.{length, take, drop, replicate, u8, min}
use ardopb.Codec.Crc.{crc16_trailer}
use ardopb.Codec.Frame.{Modulation, fsk4, FrameSpec, spec_for}
use ardopb.Codec.Rs
use ardopb.Codec.Rs.{Rs}

-- The result 0 (nothing to encode), the result -1 with the bytes written before the code refused,
-- and the bytes of a frame.
pub data Encoded : Type 0 where
  nothing : Encoded
  failed frame : List ℕ → Encoded

-- The blocks of a frame and the data and parity bytes of each.
pub record Layout : Type 0 where
  pub n_blocks : ℕ
  pub block_data : ℕ
  pub block_rs : ℕ

is_fsk4 : Modulation → Bool
is_fsk4 fsk4 = true
is_fsk4 other = false

unfoldable pub layout : FrameSpec → Layout
unfolding is_fsk4
layout spec =
    if is_fsk4 spec.modulation && (spec.data_bytes_per_carrier == 600)
    then record { n_blocks = 3; block_data = 200; block_rs = 50 }
    else record {
      n_blocks = spec.carriers;
      block_data = spec.data_bytes_per_carrier;
      block_rs = spec.rs_bytes_per_carrier;
    }

-- The block that carries the `taken` bytes before its parity.
unfoldable pub block_body : ℕ → ℕ → List ℕ → List ℕ
block_body frame_type block_data taken =
    let body = u8 (length taken) ∷ (taken ++ replicate (block_data - length taken) 0) in
    body ++ crc16_trailer body frame_type

-- The loop over the blocks: whether all were coded, and the bytes written. `remaining` is the
-- payload that no block carries yet. A block that the code refuses has zeros for its parity.
unfoldable pub encode_blocks : Rs → ℕ → ℕ → ℕ → ℕ → List ℕ → Bool × List ℕ
encode_blocks rs frame_type block_data block_rs zero remaining = (true, [])
encode_blocks rs frame_type block_data block_rs (suc left) remaining =
    let body = block_body frame_type block_data (take block_data remaining) in
    let rest = encode_blocks rs frame_type block_data block_rs left (drop block_data remaining) in
    elim (Rs.append rs body block_rs) [
      | none ↦ (false, body ++ replicate block_rs 0)
      | some block ↦ (rest.0, block ++ rest.1)
    ]

-- `payload` holds the `length` bytes.
unfoldable pub encode_data_frame : Rs → ℕ → ℕ → List ℕ → Encoded
encode_data_frame rs frame_type session_id payload = elim (spec_for frame_type) [
  | none ↦ nothing
  | some spec ↦
      let shape = layout spec in
      let (coded, blocks) =
        encode_blocks rs frame_type shape.block_data shape.block_rs shape.n_blocks payload in
      let bytes : List ℕ = frame_type ∷ u8 (bit_xor frame_type session_id) ∷ blocks in
      if (spec.data_bytes_per_carrier == 0) || (length payload == 0)
      then nothing
      else if coded
      then frame bytes
      else failed bytes
]
