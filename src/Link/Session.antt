-- ===== src/Link/Session.antt =====
-- core/link/session.c: the session id, and whether a call is to this station.
use ardopb.Base.{ℕ, ◌+◌, ◌*◌, Bool, true, false, Option, none, some, List, [], ◌∷◌, ◌++◌}
use ardopb.Base.{◌==◌, if◌then◌else◌, snprintf}
use ardopb.Codec.Crc.{crc8}
use ardopb.Codec.StationId.{StationId, buf_size, stationid_eq}

unfoldable pub session_id : List ℕ → List ℕ → ℕ
session_id calling target =
    let id = crc8 (snprintf (buf_size * 2 + 1) (calling ++ target)) in if id == 0xFF then 0 else id

-- The session id that is written through the pointer, `none` for the result false.
module _ (caller target : StationId) where
  unfoldable pub call_to_aux : List StationId → Option ℕ
  call_to_aux [] = none
  call_to_aux (aux ∷ auxcalls) =
      let rest = call_to_aux auxcalls in
      if stationid_eq target aux then some (session_id caller.str aux.str) else rest

  unfoldable pub call_to_me : StationId → List StationId → Option ℕ
  call_to_me mycall auxcalls =
      if stationid_eq target mycall
      then some (session_id caller.str mycall.str)
      else call_to_aux auxcalls

  unfoldable pub ping_to_me : StationId → List StationId → Bool
  ping_to_me mycall auxcalls = elim (call_to_me mycall auxcalls) [ none ↦ false | some id ↦ true ]
