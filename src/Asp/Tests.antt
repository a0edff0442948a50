-- ===== src/Asp/Tests.antt =====
-- The theorems at concrete messages.
use ardopb.Base.{
  min, none, ℕ, ◌≡◌, ◌≢◌, refl, arith, some, List, [], ◌∷◌, ◌++◌, length, text, bytes_eq, true,
}
use ardopb.Asp.Varint
use ardopb.Asp.Crc
use ardopb.Asp.Frame.{frame_put, frame_get, frame_ok, frame_short, frame_error, frame_body}
use ardopb.Asp.Frame.RoundTrip.{frame_get-frame_put}
use ardopb.Asp.Frame.Verdicts.{frame_get-append}
use ardopb.Asp.Payloads.{Offer, offer_put, offer_get}
use ardopb.Asp.Payloads.RoundTrip.{IsOffer, offer_get-offer_put}
use ardopb.Asp.Session.{Io, Session}
use ardopb.Asp.Session.Sending.{open_session}
use ardopb.Asp.Session.Bounded.{Fits, SendIsBounded}
use ardopb.Asp.Session.Calls.{Call, receives, sends_text, serviced, apply_all, session-Fits}
use ardopb.Asp.SafeName
use ardopb.Asp.SafeName.Safe.{IsSafe, safe_name-IsSafe}

-- The check value of the standard, at "123456789".
crc32_run : Crc.crc32 0 (49 ∷ 50 ∷ 51 ∷ 52 ∷ 53 ∷ 54 ∷ 55 ∷ 56 ∷ 57 ∷ []) ≡ 0xcbf43926
unfolding Crc.crc32 Crc.crc_loop Crc.crc_step Crc.crc_nibble
crc32_run = refl

abbrev long_text : List ℕ
long_text = 72 ∷ 105 ∷ 33 ∷ []

frame_get-frame_put_example :
    (bytes : List ℕ) × (frame_put 5000 16 long_text ≡ some bytes)
    × (frame_get (bytes ++ (1 ∷ [])) ≡ frame_ok 16 long_text (length bytes))
frame_get-frame_put_example =
    frame_get-frame_put 5000 16 long_text (1 ∷ []) (omega arith) (omega arith) (omega arith)
      (omega arith)

frame_put_run : frame_put 5000 16 long_text ≡ some (16 ∷ 3 ∷ 72 ∷ 105 ∷ 33 ∷ [])
unfolding frame_put Varint.varint_put Varint.put_loop Varint.group
frame_put_run = refl

overlong : frame_get (16 ∷ 128 ∷ 128 ∷ 128 ∷ 128 ∷ []) ≡ frame_error
unfolding frame_get frame_body Varint.varint_get Varint.get_loop
overlong = refl

overlong_fails : frame_get (16 ∷ 128 ∷ 128 ∷ 128 ∷ 128 ∷ []) ≢ frame_short
overlong_fails e = cc (e, overlong)

frame_get-append_example :
    frame_get ((16 ∷ 128 ∷ 128 ∷ 128 ∷ 128 ∷ []) ++ (1 ∷ 2 ∷ []))
    ≡ frame_get (16 ∷ 128 ∷ 128 ∷ 128 ∷ 128 ∷ [])
frame_get-append_example =
    frame_get-append (16 ∷ 128 ∷ 128 ∷ 128 ∷ 128 ∷ []) (1 ∷ 2 ∷ []) overlong_fails

abbrev some_offer : Offer
some_offer = record {
  id = 258;
  size = 70000;
  crc32 = 0xcbf43926;
  name = 97 ∷ 46 ∷ 116 ∷ [];
  content_type = 116 ∷ 47 ∷ 120 ∷ [];
}

some_offer-IsOffer : IsOffer some_offer
some_offer-IsOffer = record {
  id_fits = omega arith;
  size_fits = omega arith;
  crc_fits = omega arith;
  name_fits = omega arith;
  type_fits = omega arith;
}

offer_get-offer_put_example :
    (bytes : List ℕ) × (offer_put 4096 some_offer ≡ some bytes)
    × (offer_get bytes ≡ some some_offer)
offer_get-offer_put_example = offer_get-offer_put 4096 some_offer some_offer-IsOffer (omega arith)

-- "C:\nul" with a space behind it becomes "nul_".
safe_name_run :
    SafeName.safe_name (67 ∷ 58 ∷ 92 ∷ 110 ∷ 117 ∷ 108 ∷ 32 ∷ []) 256
    ≡ some (110 ∷ 117 ∷ 108 ∷ 95 ∷ [])
unfolding SafeName.safe_name SafeName.after_last SafeName.trim_start SafeName.trim_end
    SafeName.reserved_device SafeName.is_one_of SafeName.stem SafeName.upper SafeName.reserved_names
    text bytes_eq
safe_name_run = refl

-- A device's name with an extension stays one.
still_reserved : SafeName.reserved_device (110 ∷ 117 ∷ 108 ∷ 46 ∷ 116 ∷ 95 ∷ []) ≡ true
unfolding SafeName.reserved_device SafeName.is_one_of SafeName.stem SafeName.upper
    SafeName.reserved_names text bytes_eq
still_reserved = refl

safe_name-IsSafe_example : IsSafe 256 (110 ∷ 117 ∷ 108 ∷ 95 ∷ [])
safe_name-IsSafe_example =
    safe_name-IsSafe (67 ∷ 58 ∷ 92 ∷ 110 ∷ 117 ∷ 108 ∷ 32 ∷ []) 256 (110 ∷ 117 ∷ 108 ∷ 95 ∷ [])
      safe_name_run

-- Callbacks that take seven bytes at a time and hold no file; the world is the text shown so far.
abbrev slow_io : Io (List ℕ)
slow_io = record {
  send = λ w bytes. (w, min 7 (length bytes));
  credit = λ w. 9999;
  read_file = λ w off n. [];
  write_file = λ w bytes. (w, true);
  offer_arrived = λ w o. (w, none);
  truncate_file = λ w. w;
  text_arrived = λ w line is_raw. w ++ line;
  transfer_done = λ w inbound id result. w;
  progress = λ w inbound done total. w;
  protocol_error = λ w why. w;
}

slow_io-bounded : SendIsBounded slow_io
slow_io-bounded w bytes = omega arith

-- A hello and a line of text, cut in the middle of the second.
abbrev calls : List Call
calls =
    receives
      (1 ∷ 14 ∷ 65 ∷ 83 ∷ 80 ∷ 47 ∷ 49 ∷ 1 ∷ 3 ∷ 0 ∷ 0 ∷ 0 ∷ 3 ∷ 78 ∷ 48 ∷ 67 ∷ 16 ∷ 2 ∷ 72 ∷ [])
    ∷ receives (105 ∷ [])
    ∷ sends_text (72 ∷ 105 ∷ [])
    ∷ serviced
    ∷ []

session-Fits_example : Fits (apply_all slow_io calls (open_session slow_io [] none))
session-Fits_example = session-Fits slow_io [] none calls slow_io-bounded

abbrev opened : Session (List ℕ)
opened = open_session slow_io [] (some (78 ∷ 48 ∷ 67 ∷ []))
