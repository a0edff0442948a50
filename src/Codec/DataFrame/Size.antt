-- ===== src/Codec/DataFrame/Size.antt =====
-- How long an encoded frame is.
use ardopb.Base.{
  ◌≢◌, ◌^◌, ℕ, zero, suc, ◌+◌, ◌-◌, ◌*◌, ◌≤◌, ◌<◌, ◌≡◌, refl, ◌∙◌, arith, Option, u8, Option-cases,
  inl, inr, none, some,
}
use ardopb.Base.{List, ◌∷◌, ◌++◌, length, take, drop, map, reverse, replicate}
use ardopb.Base.{Bool, true, ◌&&◌, leb, every_below, every_below_at, ◌%◌, bit_xor}
use ardopb.Base.{length-append, length-take, length-replicate, length-map}
use ardopb.Codec.Crc.{crc16_trailer}
use ardopb.Codec.Rs
use ardopb.Codec.Rs.{Rs}
use ardopb.Codec.Frame.{FrameSpec, spec_for}
use ardopb.Codec.DataFrame.{layout, block_body, encode_blocks, encode_data_frame, frame}

-- The parity symbols that the encoder appends are as many as were asked for.
length-encode_rs :
    (rs : Rs) (g : List (Option ℕ)) (message : List ℕ) (rslen : ℕ)
    → length (map u8 (Rs.encode_rs rs g message rslen)) ≡ rslen
unfolding Rs.encode_rs
length-encode_rs rs g message rslen =
    length-map (Rs.encode_loop rs g rslen (reverse message) (replicate rslen 0)) u8
    ∙ Rs.length-encode_loop rs g rslen (reverse message) (replicate rslen 0)
    ∙ length-replicate rslen 0

length-append_rs :
    (rs : Rs) (bytes : List ℕ) (rslen : ℕ) {out : List ℕ}
    → Rs.append rs bytes rslen ≡ some out
    → length out ≡ length bytes + rslen
unfolding Rs.append
length-append_rs rs bytes rslen h = elim (Option-cases (Rs.rs_gg rs.gg rslen)) [
  | inl e ↦ absurd (cc (rw (e, Rs.append) at h))
  | inr (g, e) ↦
      let padded = replicate (255 - rslen - length bytes) 0 ++ bytes in
      ground (
        arith,
        rw (e, Rs.append) at h,
        length-append {0} bytes (map u8 (Rs.encode_rs rs g padded rslen)),
        length-encode_rs rs g padded rslen,
      )
]

length-block_body :
    (frame_type block_data : ℕ) (taken : List ℕ)
    → length taken ≤ block_data
    → length (block_body frame_type block_data taken) ≡ block_data + 3
unfolding block_body crc16_trailer
length-block_body frame_type block_data taken h =
    let pad : List ℕ = replicate (block_data - length taken) 0 in
    omega (
      arith,
      length-append {0} (taken ++ pad)
          (crc16_trailer (u8 (length taken) ∷ (taken ++ pad)) frame_type),
      length-append {0} taken pad,
      length-replicate {A = ℕ} (block_data - length taken) 0,
    )

-- The blocks take the same room whether or not the code refuses one; it stops there.
length-encode_blocks :
    (rs : Rs) (frame_type block_data block_rs left : ℕ) (remaining : List ℕ)
    → (encode_blocks rs frame_type block_data block_rs left remaining).0 ≡ true
    → length (encode_blocks rs frame_type block_data block_rs left remaining).1
      ≡ left * (block_data + 3 + block_rs)
unfolding encode_blocks
length-encode_blocks rs ft bd br zero remaining h = ground arith
length-encode_blocks rs ft bd br (suc left) remaining h =
    let body = block_body ft bd (take bd remaining) in
    let rest = encode_blocks rs ft bd br left (drop bd remaining) in
    elim (Option-cases (Rs.append rs body br)) [
      | inl e ↦ absurd (cc (rw (e, encode_blocks) at h))
      | inr (block, e) ↦
          rw (e, encode_blocks)
            (grind (
              arith,
              rw (e, encode_blocks) at h,
              length-append {0} block rest.1,
              length-append_rs rs body br e,
              length-block_body ft bd (take bd remaining),
              length-take {0} bd remaining,
              length-encode_blocks rs ft bd br left (drop bd remaining),
            ))
    ]

-- The bytes of a frame with the given specification.
pub frame_size : FrameSpec → ℕ
frame_size spec =
    let shape = layout spec in 2 + shape.n_blocks * (shape.block_data + 3 + shape.block_rs)

-- Whether a type's frame fits the link's buffer of 2048 bytes and its blocks fit a codeword.
fits : ℕ → Bool
fits t = elim (spec_for t) [
  | none ↦ true
  | some spec ↦
      let shape = layout spec in
      leb (frame_size spec) 2048
      && leb (shape.block_data + 3 + shape.block_rs) 255
      && leb shape.block_data 255
]

fits_table : every_below 256 fits ≡ true
unfolding every_below fits frame_size spec_for layout
fits_table = refl

spec-fits :
    (t : ℕ) {spec : FrameSpec}
    → t < 256
    → spec_for t ≡ some spec
    → let shape = layout spec in
      (frame_size spec ≤ 2048)
      × (shape.block_data + 3 + shape.block_rs ≤ 255)
      × (shape.block_data ≤ 255)
unfolding fits
spec-fits t h e = ground (arith, every_below_at 256 fits t fits_table h)

-- A frame that is encoded, of any type that the table knows, has exactly the size of its blocks,
-- and fits the 2048-byte buffer that it is written to.
pub length-encode_data_frame :
    (rs : Rs) (t session_id : ℕ) (payload : List ℕ) {spec : FrameSpec} {bytes : List ℕ}
    → t < 256
    → spec_for t ≡ some spec
    → encode_data_frame rs t session_id payload ≡ frame bytes
    → (length bytes ≡ frame_size spec) × (length bytes ≤ 2048)
unfolding encode_data_frame frame_size
length-encode_data_frame rs t session_id payload {spec} h e k =
    let shape = layout spec in
    ground (
      arith,
      rw (e, encode_data_frame) at k,
      length-encode_blocks rs t shape.block_data shape.block_rs shape.n_blocks payload,
      spec-fits t h e,
    )

-- Whether the code was set up for a parity length.
abbrev pub HasParity : Rs → ℕ → Type 0
HasParity rs rslen = (g : List (Option ℕ)) × (Rs.rs_gg rs.gg rslen ≡ some g)

append-some :
    (rs : Rs) (bytes : List ℕ) (rslen : ℕ)
    → HasParity rs rslen
    → length bytes + rslen ≤ 255
    → (out : List ℕ) × (Rs.append rs bytes rslen ≡ some out)
unfolding Rs.append
append-some rs bytes rslen (g, e) h =
    let padded = replicate (255 - rslen - length bytes) 0 ++ bytes in
    (bytes ++ map u8 (Rs.encode_rs rs g padded rslen), rw (e, Rs.append) (ground arith))

encode_blocks-true :
    (rs : Rs) (ft bd br left : ℕ) (remaining : List ℕ)
    → HasParity rs br
    → bd + 3 + br ≤ 255
    → (encode_blocks rs ft bd br left remaining).0 ≡ true
unfolding encode_blocks
encode_blocks-true rs ft bd br zero remaining p h = refl
encode_blocks-true rs ft bd br (suc left) remaining p h =
    let body = block_body ft bd (take bd remaining) in
    let size : length body ≡ bd + 3 =
      length-block_body ft bd (take bd remaining) (omega (arith, length-take {0} bd remaining)) in
    let (block, e) = append-some rs body br p (omega (arith, size)) in
    rw (e, encode_blocks) (encode_blocks-true rs ft bd br left (drop bd remaining) p h)

-- With a code that was set up for the type's parity length, a payload that is not empty is always
-- encoded for a type that carries data, and the frame begins with the type and the type mixed with
-- the session id.
pub encode_data_frame-frame :
    (rs : Rs) (t session_id : ℕ) (payload : List ℕ) {spec : FrameSpec}
    → t < 256
    → spec_for t ≡ some spec
    → spec.data_bytes_per_carrier ≢ 0
    → HasParity rs (layout spec).block_rs
    → length payload ≢ 0
    → (blocks : List ℕ) × (encode_data_frame rs t session_id payload
        ≡ frame (t ∷ bit_xor t session_id % 2 ^ 8 ∷ blocks))
unfolding encode_data_frame
encode_data_frame-frame rs t session_id payload {spec} h e d p n =
    let shape = layout spec in
    let blocks = encode_blocks rs t shape.block_data shape.block_rs shape.n_blocks payload in
    let coded : blocks.0 ≡ true =
      encode_blocks-true rs t shape.block_data shape.block_rs shape.n_blocks payload p
        (omega (arith, spec-fits t h e)) in
    (blocks.1, rw (e, encode_data_frame) (ground (arith, coded)))
