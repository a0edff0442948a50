-- ===== src/Link/Bandwidth/Agreement.antt =====
-- Bandwidth negotiation against its rule: the narrower of the two widths, provided that a side
-- that forces its width gets it.
use ardopb.Base.{
  ℕ, ◌≤◌, ◌≡◌, ◌≢◌, ◌⊎◌, inl, inr, refl, arith, Bool, true, false, not, ◌&&◌, ◌||◌, none, some,
}
use ardopb.Base.{min, ◌==◌, if◌then◌else◌}
use ardopb.Codec.Frame.{is_con_req, ft_con_rej_bw}
use ardopb.Codec.Frame.{ft_con_ack_200, ft_con_ack_500, ft_con_ack_1000, ft_con_ack_2000}
use ardopb.Link.Bandwidth.{
  ArqBandwidth, forced_200, forced_500, forced_1000, forced_2000, max_200, max_500, max_1000,
  max_2000, undefined, Reply, negotiate_bandwidth, bandwidth_conreq_type,
}
use ardopb.Link.Turn.{conack_bandwidth}

-- The width of a setting in Hz; 0 for none.
abbrev pub width : ArqBandwidth → ℕ
width forced_200 = 200
width forced_500 = 500
width forced_1000 = 1000
width forced_2000 = 2000
width max_200 = 200
width max_500 = 500
width max_1000 = 1000
width max_2000 = 2000
width undefined = 0

abbrev pub is_forced : ArqBandwidth → Bool
is_forced forced_200 = true
is_forced forced_500 = true
is_forced forced_1000 = true
is_forced forced_2000 = true
is_forced other = false

-- The setting that a request states.
abbrev pub requested : ℕ → ArqBandwidth
requested t =
    if t == 0x31
    then max_200
    else if t == 0x32
    then max_500
    else if t == 0x33
    then max_1000
    else if t == 0x34
    then max_2000
    else if t == 0x35
    then forced_200
    else if t == 0x36
    then forced_500
    else if t == 0x37
    then forced_1000
    else if t == 0x38
    then forced_2000
    else undefined

-- Whether both sides can have the narrower of the two widths.
abbrev pub acceptable : ArqBandwidth → ArqBandwidth → Bool
acceptable local remote =
    let w = min (width local) (width remote) in
    not (w == 0)
    && (not (is_forced local) || (w == width local))
    && (not (is_forced remote) || (w == width remote))

-- The ConAck type of a width.
abbrev pub conack_type : ℕ → ℕ
conack_type w =
    if w == 200
    then ft_con_ack_200
    else if w == 500
    then ft_con_ack_500
    else if w == 1000
    then ft_con_ack_1000
    else ft_con_ack_2000

-- The rule: an ack of the narrower width where it suits both sides, and else a rejection.
abbrev pub ruling : ArqBandwidth → ArqBandwidth → Reply
ruling local remote =
    let w = min (width local) (width remote) in
    if acceptable local remote then (conack_type w, some w) else (ft_con_rej_bw, none)

-- A property of the eight requests holds of every type of their family.
ConReq-elim {ℓ} :
    (P : ℕ → Type ℓ)
    → P 0x31
    → P 0x32
    → P 0x33
    → P 0x34
    → P 0x35
    → P 0x36
    → P 0x37
    → P 0x38
    → (t : ℕ) → is_con_req t ≡ true
    → P t
ConReq-elim P a b c d e f g h t r = elim (ConReq-cases t r) [
  | inl p ↦ rw p a
  | inr (inl p) ↦ rw p b
  | inr (inr (inl p)) ↦ rw p c
  | inr (inr (inr (inl p))) ↦ rw p d
  | inr (inr (inr (inr (inl p)))) ↦ rw p e
  | inr (inr (inr (inr (inr (inl p))))) ↦ rw p f
  | inr (inr (inr (inr (inr (inr (inl p)))))) ↦ rw p g
  | inr (inr (inr (inr (inr (inr (inr p)))))) ↦ rw p h
]
  where
    ConReq-cases :
        (t : ℕ)
        → is_con_req t ≡ true
        → (t ≡ 0x31)
          ⊎ ((t ≡ 0x32)
              ⊎ ((t ≡ 0x33)
                  ⊎ ((t ≡ 0x34) ⊎ ((t ≡ 0x35) ⊎ ((t ≡ 0x36) ⊎ ((t ≡ 0x37) ⊎ (t ≡ 0x38)))))))
    ConReq-cases t h = ground arith

Agrees : ArqBandwidth → ℕ → Type 0
unfolding negotiate_bandwidth
Agrees local t = negotiate_bandwidth local t ≡ ruling local (requested t)

-- For every setting and every connect request, the reply is that of the rule: the narrower of the
-- two widths is acked if neither side is forced to another one, and else the request is rejected.
pub negotiate_bandwidth-ruling :
    (local : ArqBandwidth) (t : ℕ)
    → is_con_req t ≡ true
    → negotiate_bandwidth local t ≡ ruling local (requested t)
unfolding Agrees
negotiate_bandwidth-ruling forced_200 t h =
    ConReq-elim (Agrees forced_200) refl refl refl refl refl refl refl refl t h
negotiate_bandwidth-ruling forced_500 t h =
    ConReq-elim (Agrees forced_500) refl refl refl refl refl refl refl refl t h
negotiate_bandwidth-ruling forced_1000 t h =
    ConReq-elim (Agrees forced_1000) refl refl refl refl refl refl refl refl t h
negotiate_bandwidth-ruling forced_2000 t h =
    ConReq-elim (Agrees forced_2000) refl refl refl refl refl refl refl refl t h
negotiate_bandwidth-ruling max_200 t h =
    ConReq-elim (Agrees max_200) refl refl refl refl refl refl refl refl t h
negotiate_bandwidth-ruling max_500 t h =
    ConReq-elim (Agrees max_500) refl refl refl refl refl refl refl refl t h
negotiate_bandwidth-ruling max_1000 t h =
    ConReq-elim (Agrees max_1000) refl refl refl refl refl refl refl refl t h
negotiate_bandwidth-ruling max_2000 t h =
    ConReq-elim (Agrees max_2000) refl refl refl refl refl refl refl refl t h
negotiate_bandwidth-ruling undefined t h =
    ConReq-elim (Agrees undefined) refl refl refl refl refl refl refl refl t h

-- The widths that there are.
IsWidth : ℕ → Type 0
IsWidth w = (w ≡ 0) ⊎ ((w ≡ 200) ⊎ ((w ≡ 500) ⊎ ((w ≡ 1000) ⊎ (w ≡ 2000))))

width-IsWidth : (setting : ArqBandwidth) → IsWidth (width setting)
unfolding IsWidth
width-IsWidth forced_200 = ground arith
width-IsWidth forced_500 = ground arith
width-IsWidth forced_1000 = ground arith
width-IsWidth forced_2000 = ground arith
width-IsWidth max_200 = ground arith
width-IsWidth max_500 = ground arith
width-IsWidth max_1000 = ground arith
width-IsWidth max_2000 = ground arith
width-IsWidth undefined = ground arith

ruling-width :
    (local remote : ArqBandwidth) (w : ℕ)
    → (ruling local remote).1 ≡ some w
    → (conack_bandwidth (ruling local remote).0 ≡ w) × (w ≤ width local) × (w ≤ width remote)
unfolding conack_bandwidth IsWidth
ruling-width local remote w e = ground (arith, width-IsWidth local, width-IsWidth remote)

-- The width that the answer to a connect request sets is the one that the caller reads from the
-- ack's type, and is at most the width of either side.
pub conack_bandwidth-negotiate_bandwidth :
    (local : ArqBandwidth) (t w : ℕ)
    → is_con_req t ≡ true
    → (negotiate_bandwidth local t).1 ≡ some w
    → (conack_bandwidth (negotiate_bandwidth local t).0 ≡ w)
      × (w ≤ width local)
      × (w ≤ width (requested t))
conack_bandwidth-negotiate_bandwidth local t w h e =
    rw (negotiate_bandwidth-ruling local t h)
      (ruling-width local (requested t) w (rw (negotiate_bandwidth-ruling local t h) at e))

-- Two stations with one setting, other than the undefined one, agree on its width.
pub negotiate-conreq_type :
    (setting : ArqBandwidth)
    → setting ≢ undefined
    → negotiate_bandwidth setting (bandwidth_conreq_type setting)
      ≡ (conack_type (width setting), some (width setting))
unfolding negotiate_bandwidth bandwidth_conreq_type
negotiate-conreq_type forced_200 h = refl
negotiate-conreq_type forced_500 h = refl
negotiate-conreq_type forced_1000 h = refl
negotiate-conreq_type forced_2000 h = refl
negotiate-conreq_type max_200 h = refl
negotiate-conreq_type max_500 h = refl
negotiate-conreq_type max_1000 h = refl
negotiate-conreq_type max_2000 h = refl
negotiate-conreq_type undefined h = absurd (h refl)
