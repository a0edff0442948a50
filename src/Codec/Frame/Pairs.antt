-- ===== src/Codec/Frame/Pairs.antt =====
-- The data types of core/codec/frame.c come in pairs, and have names that lead back to them.
use ardopb.Base.{ℕ, ◌-◌, ◌%◌, ◌<◌, ◌≡◌, refl, arith, bit_xor, Bool, true, false, not, ◌&&◌, ◌||◌}
use ardopb.Base.{
  List, Option-cases, inl, inr, Option, none, some, ◌==◌, every_below, every_below_at,
}
use ardopb.Codec.Frame.{
  FrameSpec, spec_for, is_data, is_odd, payload_bytes, rs_bytes, data_frame_name,
  data_frame_type_for_name,
}

same_layout : Option FrameSpec → Option FrameSpec → Bool
same_layout (some a) (some b) =
    (a.carriers == b.carriers)
    && (a.data_bytes_per_carrier == b.data_bytes_per_carrier)
    && (a.rs_bytes_per_carrier == b.rs_bytes_per_carrier)
    && (a.quality_threshold == b.quality_threshold)
same_layout a b = false

paired : ℕ → Bool
paired t =
    not (is_data t)
    || (is_data (bit_xor t 1)
        && not (is_odd t && is_odd (bit_xor t 1))
        && (is_odd t || is_odd (bit_xor t 1))
        && same_layout (spec_for t) (spec_for (bit_xor t 1)))

paired_table : every_below 256 paired ≡ true
unfolding paired every_below is_data spec_for is_odd same_layout
paired_table = refl

names_back : ℕ → Bool
names_back t = not (is_data t) || elim (data_frame_name t 32) [
  | none ↦ false
  | some name ↦ elim (data_frame_type_for_name name) [ none ↦ false | some u ↦ u == t - t % 2 ]
]

names_back_table : every_below 256 names_back ≡ true
unfolding names_back every_below is_data data_frame_name data_frame_type_for_name
names_back_table = refl

same_layout_fields :
    (a b : FrameSpec)
    → same_layout (some a) (some b) ≡ true
    → (b.carriers ≡ a.carriers)
      × (payload_bytes b ≡ payload_bytes a)
      × (rs_bytes b ≡ rs_bytes a)
      × (b.quality_threshold ≡ a.quality_threshold)
unfolding same_layout payload_bytes rs_bytes
same_layout_fields a b h = ground arith

paired_facts :
    (d e o p same : Bool)
    → d ≡ true
    → (not d || (e && not (o && p) && (o || p) && same)) ≡ true
    → (e ≡ true) × (p ≡ not o) × (same ≡ true)
paired_facts true true true true same k h = absurd (cc h)
paired_facts true true true false same k h = (refl, refl, h)
paired_facts true true false true same k h = (refl, refl, h)
paired_facts true true false false same k h = absurd (cc h)
paired_facts true false o p same k h = absurd (cc h)
paired_facts false e o p same k h = absurd (cc k)

-- The other type of a data type's pair is a data type of the other parity, with the same payload
-- and parity bytes, carriers and quality threshold.
pub is_data-pair :
    (t : ℕ) (a b : FrameSpec)
    → t < 256
    → is_data t ≡ true
    → spec_for t ≡ some a
    → spec_for (bit_xor t 1) ≡ some b
    → (is_data (bit_xor t 1) ≡ true)
      × (is_odd (bit_xor t 1) ≡ not (is_odd t))
      × (payload_bytes b ≡ payload_bytes a)
      × (rs_bytes b ≡ rs_bytes a)
      × (b.carriers ≡ a.carriers)
      × (b.quality_threshold ≡ a.quality_threshold)
unfolding paired
is_data-pair t a b lt d ea eb =
    let h = rw (ea, eb) at (every_below_at 256 paired t paired_table lt) in
    let (e, p, same) =
      paired_facts (is_data t) (is_data (bit_xor t 1)) (is_odd t) (is_odd (bit_xor t 1))
        (same_layout (some a) (some b)) d h in
    let (carriers, payload, rs, quality) = same_layout_fields a b same in
    (e, p, payload, rs, carriers, quality)

-- The name of a data type leads back to the even type of its pair.
pub data_frame_type_for_name-data_frame_name :
    (t : ℕ)
    → t < 256
    → is_data t ≡ true
    → (name : List ℕ) × (data_frame_name t 32 ≡ some name)
      × (data_frame_type_for_name name ≡ some (t - t % 2))
unfolding names_back
data_frame_type_for_name-data_frame_name t lt d =
    let h = every_below_at 256 names_back t names_back_table lt in
    elim (Option-cases (data_frame_name t 32)) [
      | inl e ↦ absurd (cc (d, rw (e, names_back) at h))
      | inr (name, e) ↦ elim (Option-cases (data_frame_type_for_name name)) [
        | inl e' ↦ absurd (cc (d, rw (e, e', names_back) at h))
        | inr (u, e') ↦ (name, e, ground (arith, e', rw (e, e', names_back) at h))
      ]
    ]
