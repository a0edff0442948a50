-- ===== src/Capture/Fields.antt =====
-- The fields of a record behind its prefix, for shell/capture.c: each parser reads what the encoder of its kind wrote.
use mathlib.Core.List.{append_assoc}
use ardopb.Base.{
  ℕ, ◌+◌, ◌-◌, ◌^◌, ◌≤◌, ◌<◌, ◌≡◌, refl, ap, sym, ◌∙◌, arith, min, Bool, true, false, Option, none,
  some, List, [], ◌∷◌, ◌++◌, length, u8, take, drop, length-append, length-take, take_all,
  take-append_first, drop-append_first, if◌then◌else◌,
}
use ardopb.Base.Words.{
  put_u16, put_u32, get_u16, get_u16-put_u16, get_u32-put_u32, length-put_u16, length-put_u32,
}
use ardopb.Capture.{
  CaptureRecord, blank, clamp16, clamp8, prefix, kind_leader, kind_state, kind_bandwidth,
  kind_rx_data, kind_host_msg, encode_frame,
}
use ardopb.Capture.Parsing.{
  parse_frame, parse_leader, parse_state, parse_flag, parse_bandwidth, parse_rx_data,
  parse_host_msg, parse_kind, parse_record,
}

skip_one : (a : ℕ) (r : List ℕ) → drop 2 (put_u16 a ++ r) ≡ r
unfolding put_u16
skip_one a r = refl

skip_two : (a b : ℕ) (r : List ℕ) → drop 4 (put_u16 a ++ (put_u16 b ++ r)) ≡ r
unfolding put_u16
skip_two a b r = refl

skip_three : (a b c : ℕ) (r : List ℕ) → drop 6 (put_u16 a ++ (put_u16 b ++ (put_u16 c ++ r))) ≡ r
unfolding put_u16
skip_three a b c r = refl

skip_four :
    (a b c d : ℕ) (r : List ℕ)
    → drop 8 (put_u16 a ++ (put_u16 b ++ (put_u16 c ++ (put_u16 d ++ r)))) ≡ r
unfolding put_u16
skip_four a b c d r = refl

length_four :
    (a b c d : ℕ) (r : List ℕ)
    → length (put_u16 a ++ (put_u16 b ++ (put_u16 c ++ (put_u16 d ++ r)))) ≡ 8 + length r
unfolding put_u16
length_four a b c d r = omega arith

pub length-clamp16 :
    (s : List ℕ) (room : ℕ) → length (take (clamp16 (length s) room) s) ≡ clamp16 (length s) room
unfolding clamp16
length-clamp16 s room = omega (arith, length-take (min (min (length s) room) 0xFFFF) s)

pub length-clamp8 :
    (s : List ℕ) (room : ℕ) → length (take (clamp8 (length s) room) s) ≡ clamp8 (length s) room
unfolding clamp8
length-clamp8 s room = omega (arith, length-take (min (min (length s) room) 0xFF) s)

-- A part that is as long as its length says is read whole.
take_part : (n : ℕ) (s : List ℕ) → length s ≡ n → take n s ≡ s
take_part n s h = take_all n s (omega arith)

module _ (kind ft q sn bw n : ℕ) (part : List ℕ) (l : length part ≡ n) (q' : q < 2 ^ 16)
    (s' : sn < 2 ^ 16) (b' : bw < 2 ^ 16) (n' : n < 2 ^ 16) where
  pub parse_frame_fields :
      parse_frame kind (ft ∷ (put_u16 q ++ (put_u16 sn ++ (put_u16 bw ++ (put_u16 n ++ part)))))
      ≡ some (record (blank kind) {
        frame_type = ft;
        quality = q;
        sn = sn;
        bandwidth_hz = bw;
        payload = part;
      })
  unfolding parse_frame
  parse_frame_fields =
      rw
        (
          skip_four q sn bw n part,
          skip_three q sn bw (put_u16 n ++ part),
          skip_two q sn (put_u16 bw ++ (put_u16 n ++ part)),
          skip_one q (put_u16 sn ++ (put_u16 bw ++ (put_u16 n ++ part))),
          get_u16-put_u16 q (put_u16 sn ++ (put_u16 bw ++ (put_u16 n ++ part))) q',
          get_u16-put_u16 sn (put_u16 bw ++ (put_u16 n ++ part)) s',
          get_u16-put_u16 bw (put_u16 n ++ part) b',
          get_u16-put_u16 n part n',
          take_part n part l,
        )
        (ground (arith, length_four q sn bw n part))

-- What a reader makes of a record that was or was not written.
unfoldable pub reread : Option (List ℕ) → Option CaptureRecord
reread none = none
reread (some bytes) = parse_record bytes

u8_small : (n : ℕ) → n < 256 → u8 n ≡ n
u8_small n h = omega arith

-- The prefix is recognised and the kind chooses the fields.
pub parse_record-prefix :
    (kind : ℕ) (fields : List ℕ)
    → kind < 256
    → parse_record (prefix kind fields) ≡ parse_kind kind fields
unfolding parse_record
parse_record-prefix kind fields k = rw (u8_small kind k) (ground arith)

pub clamp16_small : (n room : ℕ) → clamp16 n room < 2 ^ 16
unfolding clamp16
clamp16_small n room = omega arith

pub parse_kind-frame : (kind : ℕ) (p : List ℕ) → kind < 3 → parse_kind kind p ≡ parse_frame kind p
unfolding parse_kind
parse_kind-frame kind p k = ground arith

-- The bytes behind the prefix of a frame's record.
abbrev pub frame_fields : ℕ → ℕ → ℕ → ℕ → ℕ → List ℕ → List ℕ
frame_fields ft q sn bw n part =
    ft ∷ (put_u16 q ++ (put_u16 sn ++ (put_u16 bw ++ (put_u16 n ++ part))))

abbrev pub kept : ℕ → List ℕ → List ℕ
kept room s = take (clamp16 (length s) room) s

abbrev pub kept8 : ℕ → List ℕ → List ℕ
kept8 room s = take (clamp8 (length s) room) s

pub encode_frame_fields :
    (cap kind ft q sn bw : ℕ) (payload : List ℕ)
    → 12 ≤ cap
    → encode_frame cap kind ft q sn bw payload
      ≡ some (
          prefix kind (
            frame_fields ft q sn bw
              (clamp16 (length payload) (cap - 12))
              (kept (cap - 12) payload)))
unfolding encode_frame
encode_frame_fields cap kind ft q sn bw payload c = ground arith

drop_part : (n : ℕ) (s t : List ℕ) → length s ≡ n → drop n (s ++ t) ≡ t
drop_part n s t h = rw (sym h) (drop-append_first s t)

take_first : (n : ℕ) (s t : List ℕ) → length s ≡ n → take n (s ++ t) ≡ s
take_first n s t h = rw (sym h) (take-append_first s t)

pub parse_host_msg_fields :
    (n : ℕ) (part : List ℕ)
    → length part ≡ n
    → n < 2 ^ 16
    → parse_host_msg (put_u16 n ++ part) ≡ some (record (blank kind_host_msg) { text = part })
unfolding parse_host_msg
parse_host_msg_fields n part l n' =
    rw (skip_one n part, get_u16-put_u16 n part n', take_part n part l)
      (ground (arith, length-append (put_u16 n) part, length-put_u16 n))

pub parse_state_fields :
    (a n : ℕ) (part : List ℕ)
    → length part ≡ n
    → parse_state (a ∷ n ∷ part)
      ≡ some (record (blank kind_state) { link_state = a; remote = part })
unfolding parse_state
parse_state_fields a n part l = rw (take_part n part l) (ground arith)

drop_both :
    (t n : ℕ) (tag part : List ℕ)
    → length tag ≡ t
    → drop (1 + t + 2) (t ∷ (tag ++ (put_u16 n ++ part))) ≡ part
drop_both t n tag part h =
    ap (drop (1 + t + 2)) (sym (append_assoc (t ∷ tag) (put_u16 n) part))
    ∙ drop_part (1 + t + 2) ((t ∷ tag) ++ put_u16 n) part
        (omega (arith, h, length-append (t ∷ tag) (put_u16 n), length-put_u16 n))

pub parse_rx_data_fields :
    (t n : ℕ) (tag part : List ℕ)
    → length tag ≡ t
    → length part ≡ n
    → n < 2 ^ 16
    → parse_rx_data (t ∷ (tag ++ (put_u16 n ++ part)))
      ≡ some (record (blank kind_rx_data) { tag = tag; payload = part })
unfolding parse_rx_data
parse_rx_data_fields t n tag part lt ln n' =
    rw
      (
        drop_part (1 + t) (t ∷ tag) (put_u16 n ++ part) (omega (arith, lt)),
        drop_both t n tag part lt,
        get_u16-put_u16 n part n',
        take_first t tag (put_u16 n ++ part) lt,
        take_part n part ln,
      )
      (ground (
        arith,
        length-append tag (put_u16 n ++ part),
        length-append (put_u16 n) part,
        length-put_u16 n,
      ))

get_u16_alone : (v : ℕ) → v < 2 ^ 16 → get_u16 (put_u16 v) ≡ v
unfolding put_u16
get_u16_alone v h = get_u16-put_u16 v [] h

-- The three kinds of fixed length.
pub parse_leader_fields :
    (o sn : ℕ)
    → o < 2 ^ 32
    → sn < 2 ^ 16
    → parse_leader (put_u32 o ++ put_u16 sn)
      ≡ some (record (blank kind_leader) { offset_hz = o; sn = sn })
unfolding parse_leader
parse_leader_fields o sn o' s' =
    rw
      (
        get_u32-put_u32 o (put_u16 sn) o',
        drop_part 4 (put_u32 o) (put_u16 sn) (length-put_u32 o),
        get_u16_alone sn s',
      )
      (ground (arith, length-append (put_u32 o) (put_u16 sn), length-put_u16 sn, length-put_u32 o))

pub parse_bandwidth_fields :
    (b : ℕ)
    → b < 2 ^ 16
    → parse_bandwidth (put_u16 b) ≡ some (record (blank kind_bandwidth) { bandwidth_hz = b })
unfolding parse_bandwidth
parse_bandwidth_fields b b' = rw (get_u16_alone b b') (ground (arith, length-put_u16 b))

pub parse_flag_fields :
    (kind : ℕ) (on : Bool)
    → parse_flag kind ((if on then 1 else 0) ∷ []) ≡ some (record (blank kind) { flag = on })
unfolding parse_flag
parse_flag_fields kind true = refl
parse_flag_fields kind false = refl
