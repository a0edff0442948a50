-- ===== src/Link/Bandwidth.antt =====
-- core/link/bandwidth.c: what a connect request asks for and what it is answered with.
pub mod Agreement
use ardopb.Base.{ℕ, Bool, ◌&&◌, ◌||◌, Option, none, some, leb, ◌==◌, if◌then◌else◌}
use ardopb.Codec.Frame.{
  ft_con_req_200m, ft_con_req_500m, ft_con_req_1000m, ft_con_req_2000m, ft_con_req_200f,
  ft_con_req_500f, ft_con_req_1000f, ft_con_req_2000f, ft_con_ack_200, ft_con_ack_500,
  ft_con_ack_1000, ft_con_ack_2000, ft_con_rej_bw,
}

pub data ArqBandwidth : Type 0 where
  forced_200 forced_500 forced_1000 forced_2000 : ArqBandwidth
  max_200 max_500 max_1000 max_2000 : ArqBandwidth
  undefined : ArqBandwidth

-- The reply type and what is written through `session_hz`; `none` leaves it as it was.
abbrev pub Reply : Type 0
Reply = ℕ × Option ℕ

abbrev between : ℕ → ℕ → ℕ → Bool
between lo hi t = leb lo t && leb t hi

abbrev reject : Reply
reject = (ft_con_rej_bw, none)

abbrev ack : ℕ → ℕ → Reply
ack reply hz = (reply, some hz)

unfoldable pub negotiate_bandwidth : ArqBandwidth → ℕ → Reply
negotiate_bandwidth forced_200 t =
    if between ft_con_req_200m ft_con_req_2000m t || (t == ft_con_req_200f)
    then ack ft_con_ack_200 200
    else reject
negotiate_bandwidth forced_500 t =
    if between ft_con_req_500m ft_con_req_2000m t || (t == ft_con_req_500f)
    then ack ft_con_ack_500 500
    else reject
negotiate_bandwidth forced_1000 t =
    if between ft_con_req_1000m ft_con_req_2000m t || (t == ft_con_req_1000f)
    then ack ft_con_ack_1000 1000
    else reject
negotiate_bandwidth forced_2000 t =
    if (t == ft_con_req_2000m) || (t == ft_con_req_2000f) then ack ft_con_ack_2000 2000 else reject
negotiate_bandwidth max_200 t =
    if between ft_con_req_200m ft_con_req_200f t then ack ft_con_ack_200 200 else reject
negotiate_bandwidth max_500 t =
    if (t == ft_con_req_200m) || (t == ft_con_req_200f)
    then ack ft_con_ack_200 200
    else if between ft_con_req_500m ft_con_req_2000m t || (t == ft_con_req_500f)
    then ack ft_con_ack_500 500
    else reject
negotiate_bandwidth max_1000 t =
    if (t == ft_con_req_200m) || (t == ft_con_req_200f)
    then ack ft_con_ack_200 200
    else if (t == ft_con_req_500m) || (t == ft_con_req_500f)
    then ack ft_con_ack_500 500
    else if between ft_con_req_1000m ft_con_req_2000m t || (t == ft_con_req_1000f)
    then ack ft_con_ack_1000 1000
    else reject
negotiate_bandwidth max_2000 t =
    if (t == ft_con_req_200m) || (t == ft_con_req_200f)
    then ack ft_con_ack_200 200
    else if (t == ft_con_req_500m) || (t == ft_con_req_500f)
    then ack ft_con_ack_500 500
    else if (t == ft_con_req_1000m) || (t == ft_con_req_1000f)
    then ack ft_con_ack_1000 1000
    else if (t == ft_con_req_2000m) || (t == ft_con_req_2000f)
    then ack ft_con_ack_2000 2000
    else reject
negotiate_bandwidth undefined t = reject

unfoldable pub bandwidth_conreq_type : ArqBandwidth → ℕ
bandwidth_conreq_type max_200 = ft_con_req_200m
bandwidth_conreq_type max_500 = ft_con_req_500m
bandwidth_conreq_type max_1000 = ft_con_req_1000m
bandwidth_conreq_type max_2000 = ft_con_req_2000m
bandwidth_conreq_type forced_200 = ft_con_req_200f
bandwidth_conreq_type forced_500 = ft_con_req_500f
bandwidth_conreq_type forced_1000 = ft_con_req_1000f
bandwidth_conreq_type forced_2000 = ft_con_req_2000f
bandwidth_conreq_type undefined = 0
