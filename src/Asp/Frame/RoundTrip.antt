-- ===== src/Asp/Frame/RoundTrip.antt =====
-- A message is read back whole, and is waited for while only a part of it is there.
use mathlib.Core.List.{append_assoc}
use mathlib.Core.Option.{some-injective}
use ardopb.Base.{
  zero, take-append_first, drop-append_first, take-append_inside, take-append_behind, ℕ, suc, ◌+◌,
  ◌-◌, ◌%◌, ◌^◌, ◌≤◌, ◌<◌, ◌≡◌, refl, sym, ◌∙◌, arith, some, List, ◌∷◌, ◌++◌, length, take,
  length-append, le_or_lt, inl, inr, length-take,
}
use ardopb.Asp.Varint.{varint_get}
use ardopb.Asp.Varint.RoundTrip.{
  groups, groups_bounds, varint_put_lem, varint_get-groups, varint_get-take,
}
use ardopb.Asp.Frame.{max_payload, frame_put, frame_ok, frame_short, frame_body, frame_get}

-- The bytes of a message.
unfoldable pub encoded : ℕ → List ℕ → List ℕ
encoded type payload = type ∷ (groups 4 (length payload) ++ payload)

module _ (type : ℕ) (payload : List ℕ) (t : type < 256) (p : length payload ≤ max_payload) where
  length-encoded :
      length (encoded type payload) ≡ 1 + length (groups 4 (length payload)) + length payload
  unfolding encoded
  length-encoded = omega (arith, length-append (groups 4 (length payload)) payload)

  put_encoded :
      (cap : ℕ)
      → 5 + length payload ≤ cap
      → frame_put cap type payload ≡ some (encoded type payload)
  unfolding frame_put encoded
  put_encoded cap k =
      rw e rw (varint_put_lem (length payload) (omega arith) (cap - 1) (omega arith))
        (ground (arith, groups_bounds 4 (length payload)))
    where
      e : length payload % 2 ^ 32 ≡ length payload
      e = omega arith

  get_encoded :
      (rest : List ℕ)
      → 0 < type
      → frame_get (encoded type payload ++ rest)
        ≡ frame_ok type payload (length (encoded type payload))
  unfolding frame_get frame_body encoded
  get_encoded rest z =
      rw (append_assoc (groups 4 (length payload)) payload rest) rw
        (varint_get-groups (length payload) (omega arith) (payload ++ rest)) rw
        (
          drop-append_first (groups 4 (length payload)) (payload ++ rest),
          take-append_first payload rest,
        )
        (ground (
          arith,
          length-append (groups 4 (length payload)) (payload ++ rest),
          length-append payload rest,
          length-append (groups 4 (length payload)) payload,
        ))

  take_body :
      (m : ℕ)
      → m < length (groups 4 (length payload)) + length payload
      → frame_body type
          (take m (groups 4 (length payload) ++ payload))
          (varint_get (take m (groups 4 (length payload) ++ payload)))
        ≡ frame_short
  unfolding frame_body
  take_body m h = elim (le_or_lt (length (groups 4 (length payload))) m) [
    | inl whole ↦
        rw (take-append_behind m (groups 4 (length payload)) payload whole) rw
          (varint_get-groups (length payload) (omega arith)
            (take (m - length (groups 4 (length payload))) payload))
          (ground (
            arith,
            length-append (groups 4 (length payload))
                (take (m - length (groups 4 (length payload))) payload),
            length-take (m - length (groups 4 (length payload))) payload,
          ))
    | inr part ↦
        rw (take-append_inside m (groups 4 (length payload)) payload (omega arith)) rw
          (varint_get-take (length payload) m part)
          (ground
            (arith, length-take m (groups 4 (length payload)), groups_bounds 4 (length payload)))
  ]

  take-encoded :
      (n : ℕ)
      → 0 < type
      → n < length (encoded type payload)
      → frame_get (take n (encoded type payload)) ≡ frame_short
  unfolding frame_get encoded
  take-encoded zero z h = refl
  take-encoded (suc n) z h =
      rw (take_body n (omega (arith, length-append (groups 4 (length payload)) payload)))
        (ground arith)

-- A message whose type is a byte other than 0, whose payload is no longer than allowed and for which there
-- is room is written, and read back with its type and payload whatever follows it.
pub frame_get-frame_put :
    (cap type : ℕ) (payload rest : List ℕ)
    → 0 < type
    → type < 256
    → length payload ≤ max_payload
    → 5 + length payload ≤ cap
    → (bytes : List ℕ) × (frame_put cap type payload ≡ some bytes)
      × (frame_get (bytes ++ rest) ≡ frame_ok type payload (length bytes))
frame_get-frame_put cap type payload rest z t p k =
    (encoded type payload, put_encoded type payload t p cap k, get_encoded type payload t p rest z)

-- As long as some of the bytes of a message are missing that frame_put wrote, with a type of one byte that is not 0 and
-- a payload within the limit and the room, the reader asks for more.
pub frame_get-take :
    (cap type n : ℕ) (payload bytes : List ℕ)
    → 0 < type
    → type < 256
    → length payload ≤ max_payload
    → 5 + length payload ≤ cap
    → frame_put cap type payload ≡ some bytes
    → n < length bytes
    → frame_get (take n bytes) ≡ frame_short
frame_get-take cap type n payload bytes z t p k e h =
    rw same (take-encoded type payload t p n z (rw same at h))
  where
    same : bytes ≡ encoded type payload
    same = some-injective _ _ (sym e ∙ put_encoded type payload t p cap k)
