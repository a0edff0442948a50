-- ===== src/Asp/Payloads.antt =====
-- app/asp_wire.c: the payloads of the messages. A `char` array is the text before its NUL.
pub mod Texts
pub mod RoundTrip
use ardopb.Base.{
  ℕ, ◌+◌, ◌-◌, ◌%◌, ◌^◌, u8, ltb, leb, ◌==◌, min, Bool, ◌||◌, not, Option, none, some, List, [],
  ◌∷◌, ◌++◌, length, take, drop, get_or, bytes_eq, if◌then◌else◌,
}
use ardopb.Base.Words.{put_u16, put_u32, get_u16, get_u32}
use ardopb.Codec.StationId.{until_nul}
use ardopb.Asp.Frame.{magic, max_payload}

abbrev pub max_name : ℕ
max_name = 255

abbrev pub max_call : ℕ
max_call = 32

-- `sizeof o->content_type`.
abbrev pub content_type_size : ℕ
content_type_size = 64

pub record Hello : Type 0 where
  pub version : ℕ
  pub caps : ℕ
  pub call : List ℕ

pub record Offer : Type 0 where
  pub id : ℕ
  pub size : ℕ
  pub crc32 : ℕ
  pub name : List ℕ
  pub content_type : List ℕ

pub record Accept : Type 0 where
  pub id : ℕ
  pub have : ℕ
  pub prefix_crc : ℕ

pub record TextB : Type 0 where
  pub call : List ℕ
  pub msg_id : ℕ
  pub text : List ℕ

-- A text behind its length, where `room` bytes are left.
unfoldable pub put_str : ℕ → List ℕ → ℕ → Option (List ℕ)
put_str room s max =
    let n = min (length s) max in if ltb room (1 + n) then none else some (u8 n ∷ take n s)

-- A text that a buffer of `cap` bytes has room for, and what is behind it.
unfoldable pub get_str : List ℕ → ℕ → Option (List ℕ × List ℕ)
get_str [] cap = none
get_str (n ∷ p) cap =
    if ltb (length p) n || leb cap n then none else some (until_nul (take n p), drop n p)

unfoldable pub hello_put : ℕ → Hello → Option (List ℕ)
hello_put cap h =
    if ltb cap (length magic + 6) then none else elim (put_str (cap - 10) h.call (max_call - 1)) [
      | none ↦ none
      | some call ↦ some (magic ++ (h.version ∷ (put_u32 h.caps ++ call)))
    ]

unfoldable pub hello_get : List ℕ → Option Hello
hello_get p =
    let q = drop (length magic) p in
    if ltb (length p) (length magic + 6) || not (bytes_eq (take (length magic) p) magic)
    then none
    else elim (get_str (drop 5 q) max_call) [
      | none ↦ none
      | some (call, rest) ↦
          some record { version = get_or q 0 0; caps = get_u32 (drop 1 q); call = call }
    ]

unfoldable pub offer_put : ℕ → Offer → Option (List ℕ)
offer_put cap o = if ltb cap 10 then none else elim (put_str (cap - 10) o.name max_name) [
  | none ↦ none
  | some name ↦ elim (put_str (cap - 10 - length name) o.content_type (content_type_size - 1)) [
    | none ↦ none
    | some kind ↦ some (put_u16 o.id ++ (put_u32 o.size ++ (put_u32 o.crc32 ++ (name ++ kind))))
  ]
]

unfoldable pub offer_get : List ℕ → Option Offer
offer_get p = if ltb (length p) 10 then none else elim (get_str (drop 10 p) (max_name + 1)) [
  | none ↦ none
  | some (name, q) ↦ elim (get_str q content_type_size) [
    | none ↦ none
    | some (kind, rest) ↦ some record {
      id = get_u16 p;
      size = get_u32 (drop 2 p);
      crc32 = get_u32 (drop 6 p);
      name = name;
      content_type = kind;
    }
  ]
]

unfoldable pub accept_put : ℕ → Accept → Option (List ℕ)
accept_put cap a =
    if ltb cap 10 then none else some (put_u16 a.id ++ (put_u32 a.have ++ put_u32 a.prefix_crc))

unfoldable pub accept_get : List ℕ → Option Accept
accept_get p =
    if ltb (length p) 10
    then none
    else some record { id = get_u16 p; have = get_u32 (drop 2 p); prefix_crc = get_u32 (drop 6 p) }

-- REJECT, RESULT and CANCEL: an id and a code.
unfoldable pub id_code_put : ℕ → ℕ → ℕ → Option (List ℕ)
id_code_put cap id code = if ltb cap 3 then none else some (put_u16 id ++ (code ∷ []))

unfoldable pub id_code_get : List ℕ → Option (ℕ × ℕ)
id_code_get p = if ltb (length p) 3 then none else some (get_u16 p, get_or p 2 0)

-- START: an id and where the sender begins.
unfoldable pub start_put : ℕ → ℕ → ℕ → Option (List ℕ)
start_put cap id from = if ltb cap 6 then none else some (put_u16 id ++ put_u32 from)

unfoldable pub start_get : List ℕ → Option (ℕ × ℕ)
start_get p = if ltb (length p) 6 then none else some (get_u16 p, get_u32 (drop 2 p))

-- DONE: an id.
unfoldable pub id_put : ℕ → ℕ → Option (List ℕ)
id_put cap id = if ltb cap 2 then none else some (put_u16 id)

unfoldable pub id_get : List ℕ → Option ℕ
id_get p = if ltb (length p) 2 then none else some (get_u16 p)

unfoldable pub text_b_put : ℕ → TextB → Option (List ℕ)
text_b_put cap t = elim (put_str cap t.call (max_call - 1)) [
  | none ↦ none
  | some call ↦
      if ltb (cap - length call) (2 + length t.text)
      then none
      else some (call ++ (put_u16 t.msg_id ++ t.text))
]

unfoldable pub text_b_get : List ℕ → Option TextB
text_b_get p = elim (get_str p max_call) [
  | none ↦ none
  | some (call, q) ↦
      if ltb (length q) 2 || ltb max_payload (length q - 2)
      then none
      else some record { call = call; msg_id = get_u16 q; text = drop 2 q }
]
