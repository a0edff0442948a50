-- ===== src/Asp/Payloads/RoundTrip.antt =====
-- Every payload that is written is read back.
use mathlib.Core.List.{append-nil}
use ardopb.Base.{
  bytes_eq, ℕ, ◌+◌, ◌-◌, ◌^◌, ◌≤◌, ◌<◌, ◌≡◌, ap, sym, ◌∙◌, arith, some, List, [], ◌∷◌, ◌++◌, length,
  length-append,
}
use ardopb.Base.Words.{
  put_u16, put_u32, get_u32, get_u16-put_u16, get_u32-put_u32, length-put_u16, length-put_u32,
}
use ardopb.Asp.Frame.{magic, max_payload}
use ardopb.Asp.Payloads.Texts.{
  IsText, put_str_text, get_str_text, get_str_end, drop_u16, drop_u32, drop_u64, length_u64,
  drop_version, length_version,
}
use ardopb.Asp.Payloads.{
  max_name, max_call, content_type_size, Hello, Offer, Accept, TextB, get_str, hello_put, hello_get,
  offer_put, offer_get, accept_put, accept_get, start_put, start_get, text_b_put, text_b_get,
}

pub record IsHello (h : Hello) : Type 0 where
  pub caps_fit : h.caps < 2 ^ 32
  pub call_fits : IsText (max_call - 1) h.call

hello_bytes : Hello → List ℕ
hello_bytes h = magic ++ (h.version ∷ (put_u32 h.caps ++ (length h.call ∷ h.call)))

module _ (h : Hello) (v : IsHello h) where
  hello_put_bytes : (cap : ℕ) → 11 + length h.call ≤ cap → hello_put cap h ≡ some (hello_bytes h)
  unfolding hello_put hello_bytes
  hello_put_bytes cap k =
      rw (put_str_text (cap - 10) (max_call - 1) h.call v.call_fits (omega arith) (omega arith))
        (ground arith)

  hello_get_bytes : hello_get (hello_bytes h) ≡ some h
  unfolding hello_get hello_bytes bytes_eq
  hello_get_bytes =
      rw
        (
          drop_version h.version h.caps (length h.call ∷ h.call),
          get_str_end max_call (max_call - 1) h.call v.call_fits (omega arith),
          get_u32-put_u32 h.caps (length h.call ∷ h.call) v.caps_fit,
        )
        (ground (arith, length_version h.version h.caps (length h.call ∷ h.call)))

-- The payload of a hello, whose numbers fit their fields and whose callsign the receiver's buffer, is
-- written where there is room for it, and read back.
pub hello_get-hello_put :
    (cap : ℕ) (h : Hello)
    → IsHello h
    → 11 + length h.call ≤ cap
    → (bytes : List ℕ) × (hello_put cap h ≡ some bytes) × (hello_get bytes ≡ some h)
hello_get-hello_put cap h v k = (hello_bytes h, hello_put_bytes h v cap k, hello_get_bytes h v)

pub record IsOffer (o : Offer) : Type 0 where
  pub id_fits : o.id < 2 ^ 16
  pub size_fits : o.size < 2 ^ 32
  pub crc_fits : o.crc32 < 2 ^ 32
  pub name_fits : IsText max_name o.name
  pub type_fits : IsText (content_type_size - 1) o.content_type

offer_texts : Offer → List ℕ
offer_texts o = (length o.name ∷ o.name) ++ (length o.content_type ∷ o.content_type)

offer_bytes : Offer → List ℕ
offer_bytes o = put_u16 o.id ++ (put_u32 o.size ++ (put_u32 o.crc32 ++ offer_texts o))

module _ (o : Offer) (v : IsOffer o) where
  offer_put_bytes :
      (cap : ℕ)
      → 12 + length o.name + length o.content_type ≤ cap
      → offer_put cap o ≡ some (offer_bytes o)
  unfolding offer_put offer_bytes offer_texts
  offer_put_bytes cap k =
      rw (put_str_text (cap - 10) max_name o.name v.name_fits (omega arith) (omega arith)) rw
        (put_str_text (cap - 10 - length (length o.name ∷ o.name)) (content_type_size - 1)
          o.content_type v.type_fits (omega arith) (omega arith))
        (ground arith)

  offer_get_bytes : offer_get (offer_bytes o) ≡ some o
  unfolding offer_get offer_bytes
  offer_get_bytes =
      rw
        (
          drop_u64 o.id o.size o.crc32 (offer_texts o),
          texts,
          get_str_end content_type_size (content_type_size - 1) o.content_type v.type_fits
              (omega arith),
          drop_u32 o.id o.size (put_u32 o.crc32 ++ offer_texts o),
          drop_u16 o.id (put_u32 o.size ++ (put_u32 o.crc32 ++ offer_texts o)),
          get_u16-put_u16 o.id (put_u32 o.size ++ (put_u32 o.crc32 ++ offer_texts o)) v.id_fits,
          get_u32-put_u32 o.size (put_u32 o.crc32 ++ offer_texts o) v.size_fits,
          get_u32-put_u32 o.crc32 (offer_texts o) v.crc_fits,
        )
        (ground (arith, length_u64 o.id o.size o.crc32 (offer_texts o)))
    where
      texts :
          get_str (offer_texts o) (max_name + 1)
          ≡ some (o.name, length o.content_type ∷ o.content_type)
      texts =
          unfold offer_texts in
          get_str_text (max_name + 1) max_name o.name (length o.content_type ∷ o.content_type)
            v.name_fits (omega arith)

-- The payload of an offer, whose numbers fit their fields and whose texts the receiver's buffers, is
-- written where there is room for it, and read back.
pub offer_get-offer_put :
    (cap : ℕ) (o : Offer)
    → IsOffer o
    → 12 + length o.name + length o.content_type ≤ cap
    → (bytes : List ℕ) × (offer_put cap o ≡ some bytes) × (offer_get bytes ≡ some o)
offer_get-offer_put cap o v k = (offer_bytes o, offer_put_bytes o v cap k, offer_get_bytes o v)

u32_end : (v : ℕ) → v < 2 ^ 32 → get_u32 (put_u32 v) ≡ v
u32_end v h = ap get_u32 (sym (append-nil (put_u32 v))) ∙ get_u32-put_u32 v [] h

-- The payloads of numbers only: an acceptance, an id with a code, a start and an end.
pub accept_get-accept_put :
    (cap : ℕ) (a : Accept)
    → a.id < 2 ^ 16
    → a.have < 2 ^ 32
    → a.prefix_crc < 2 ^ 32
    → 10 ≤ cap
    → (bytes : List ℕ) × (accept_put cap a ≡ some bytes) × (accept_get bytes ≡ some a)
unfolding accept_put accept_get
accept_get-accept_put cap a i h p k = (
  put_u16 a.id ++ (put_u32 a.have ++ put_u32 a.prefix_crc),
  ground arith,
  ground (
    arith,
    length-append (put_u16 a.id) (put_u32 a.have ++ put_u32 a.prefix_crc),
    length-append (put_u32 a.have) (put_u32 a.prefix_crc),
    length-put_u16 a.id,
    length-put_u32 a.have,
    length-put_u32 a.prefix_crc,
    drop_u16 a.id (put_u32 a.have ++ put_u32 a.prefix_crc),
    drop_u32 a.id a.have (put_u32 a.prefix_crc),
    get_u16-put_u16 a.id (put_u32 a.have ++ put_u32 a.prefix_crc),
    get_u32-put_u32 a.have (put_u32 a.prefix_crc),
    u32_end a.prefix_crc,
  ),
)

pub start_get-start_put :
    (cap id from : ℕ)
    → id < 2 ^ 16
    → from < 2 ^ 32
    → 6 ≤ cap
    → (bytes : List ℕ) × (start_put cap id from ≡ some bytes) × (start_get bytes ≡ some (id, from))
unfolding start_put start_get
start_get-start_put cap id from i h k = (
  put_u16 id ++ put_u32 from,
  ground arith,
  ground (
    arith,
    length-append (put_u16 id) (put_u32 from),
    length-put_u16 id,
    length-put_u32 from,
    drop_u16 id (put_u32 from),
    get_u16-put_u16 id (put_u32 from),
    u32_end from,
  ),
)

-- A broadcast text with a message id and any bytes.
text_b_bytes : TextB → List ℕ
text_b_bytes t = (length t.call ∷ t.call) ++ (put_u16 t.msg_id ++ t.text)

pub text_b_get-text_b_put :
    (cap : ℕ) (t : TextB)
    → IsText (max_call - 1) t.call
    → t.msg_id < 2 ^ 16
    → length t.text ≤ max_payload
    → 3 + length t.call + length t.text ≤ cap
    → (bytes : List ℕ) × (text_b_put cap t ≡ some bytes) × (text_b_get bytes ≡ some t)
unfolding text_b_put text_b_get
text_b_get-text_b_put cap t c m l k = (
  text_b_bytes t,
  unfold text_b_bytes in
      (rw (put_str_text cap (max_call - 1) t.call c (omega arith) (omega arith), text_b_put)
        (ground arith)),
  rw (opened, text_b_get, drop_u16 t.msg_id t.text, get_u16-put_u16 t.msg_id t.text m)
      (ground (arith, length-append (put_u16 t.msg_id) t.text, length-put_u16 t.msg_id)),
)
  where
    opened : get_str (text_b_bytes t) max_call ≡ some (t.call, put_u16 t.msg_id ++ t.text)
    opened =
        unfold text_b_bytes in
        get_str_text max_call (max_call - 1) t.call (put_u16 t.msg_id ++ t.text) c (omega arith)
