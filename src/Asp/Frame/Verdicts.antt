-- ===== src/Asp/Frame/Verdicts.antt =====
-- What the reader makes of bytes that may be anything.
use ardopb.Base.{
  ◌⊎◌, refl, ℕ, ◌+◌, ◌≤◌, ◌<◌, ◌≡◌, ◌≢◌, refl, sym, ◌∙◌, arith, Option, none, some, List, [], ◌∷◌,
  ◌++◌, length, take, drop, length-append, length-take, length-drop, take-append_inside,
  drop-append_inside, le_or_lt, inl, inr, Option-cases,
}
use ardopb.Asp.Varint.{varint_get, varint_max}
use ardopb.Asp.Varint.RoundTrip.{varint_get-append, varint_get-append_long}
use ardopb.Asp.Frame.{
  max_payload, FrameStatus, frame_ok, frame_short, frame_error, frame_body, frame_get,
}

body_inside :
    (b type : ℕ) (buf : List ℕ) (got : Option (ℕ × ℕ)) (consumed : ℕ) (payload : List ℕ)
    → frame_body b buf got ≡ frame_ok type payload consumed
    → (consumed ≤ 1 + length buf) × (length payload ≤ max_payload) × (0 < consumed)
unfolding frame_body
body_inside b type buf none consumed payload e = ground (arith, e)
body_inside b type buf (some (plen, vn)) consumed payload e =
    ground (arith, e, length-take plen (drop vn buf))

module _ (type : ℕ) (buf rest : List ℕ) where
  waits : length buf < varint_max → frame_body type buf none ≡ frame_short
  unfolding frame_body
  waits h = ground arith

  too_long : (more : List ℕ) → varint_max ≤ length more → frame_body type more none ≡ frame_error
  unfolding frame_body
  too_long more h = ground arith

  slice-append :
      (vn plen : ℕ)
      → vn + plen ≤ length buf
      → take plen (drop vn (buf ++ rest)) ≡ take plen (drop vn buf)
  slice-append vn plen h =
      rw (drop-append_inside vn buf rest (omega arith))
        (take-append_inside plen (drop vn buf) rest (omega (arith, length-drop vn buf)))

  part_waits :
      (vn plen : ℕ)
      → plen ≤ max_payload
      → length buf < vn + plen
      → frame_body type buf (some (plen, vn)) ≡ frame_short
  unfolding frame_body
  part_waits vn plen p h = ground arith

  whole_stays :
      (vn plen : ℕ)
      → vn + plen ≤ length buf
      → frame_body type (buf ++ rest) (some (plen, vn)) ≡ frame_body type buf (some (plen, vn))
  unfolding frame_body
  whole_stays vn plen h = rw (slice-append vn plen h) (ground (arith, length-append buf rest))

  refusal_stays :
      (vn plen : ℕ)
      → max_payload < plen
      → frame_body type (buf ++ rest) (some (plen, vn)) ≡ frame_body type buf (some (plen, vn))
  unfolding frame_body
  refusal_stays vn plen h = ground arith

  body-append :
      frame_body type buf (varint_get buf) ≢ frame_short
      → frame_body type (buf ++ rest) (varint_get (buf ++ rest))
        ≡ frame_body type buf (varint_get buf)
  body-append h = elim (Option-cases (varint_get buf)) [
    | inl e ↦ elim (le_or_lt varint_max (length buf)) [
      | inl long ↦
          rw (varint_get-append_long buf rest long, e)
            (too_long (buf ++ rest) (omega (arith, length-append buf rest))
              ∙ sym (too_long buf long))
      | inr short ↦ absurd (h (rw e (waits short)))
    ]
    | inr ((plen, vn), e) ↦
        rw (e, varint_get-append buf rest (plen, vn) e)
          (elim (le_or_lt plen max_payload) [
            | inr big ↦ refusal_stays vn plen big
            | inl fits ↦ elim (le_or_lt (vn + plen) (length buf)) [
              | inl whole ↦ whole_stays vn plen whole
              | inr part ↦ absurd (h (rw e (part_waits vn plen fits part)))
            ]
          ])
  ]

-- What is read as a message lies within the bytes received, takes some of them, and no payload is
-- longer than allowed.
pub frame_get_inside :
    (buf : List ℕ) (type consumed : ℕ) (payload : List ℕ)
    → frame_get buf ≡ frame_ok type payload consumed
    → (consumed ≤ length buf) × (length payload ≤ max_payload) × (0 < consumed)
unfolding frame_get
frame_get_inside [] type consumed payload e = absurd (cc e)
frame_get_inside (b ∷ buf) type consumed payload e =
    ground (arith, e, body_inside b type buf (varint_get buf) consumed payload)

-- A verdict of the reader, a message or an error, stays the same when more bytes come in.
pub frame_get-append :
    (buf rest : List ℕ) → frame_get buf ≢ frame_short → frame_get (buf ++ rest) ≡ frame_get buf
unfolding frame_get
frame_get-append [] rest h = absurd (h refl)
frame_get-append (type ∷ buf) rest h = ground (arith, h, body-append type buf rest)

-- To split on a verdict and keep the equation.
pub FrameStatus-cases :
    (v : FrameStatus)
    → (v ≡ frame_short)
      ⊎ (v ≡ frame_error)
      ⊎ ((type : ℕ) × (payload : List ℕ) × (consumed : ℕ) × (v ≡ frame_ok type payload consumed))
FrameStatus-cases frame_short = inl refl
FrameStatus-cases frame_error = inr (inl refl)
FrameStatus-cases (frame_ok type payload consumed) = inr (inr (type, payload, consumed, refl))
