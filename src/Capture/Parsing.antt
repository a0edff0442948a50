-- ===== src/Capture/Parsing.antt =====
-- shell/capture.c: ardop_capture_parse_record, one function for each kind.
use ardopb.Base.{
  ℕ, ◌+◌, ltb, ◌==◌, not, ◌||◌, Option, none, some, List, length, take, drop, get_or, if◌then◌else◌,
}
use ardopb.Base.Words.{get_u16, get_u32}
use ardopb.Capture.{
  CaptureRecord, blank, capture_magic, capture_version, prefix_len, kind_leader, kind_state,
  kind_ptt, kind_bandwidth, kind_busy, kind_rx_data, kind_host_msg,
}

-- The fields behind the prefix, for each kind.
unfoldable pub parse_frame : ℕ → List ℕ → Option CaptureRecord
parse_frame kind p =
    let n = get_u16 (drop 7 p) in
    if ltb (length p) 9
    then none
    else if ltb (length p) (9 + n)
    then none
    else some (record (blank kind) {
      frame_type = get_or p 0 0;
      quality = get_u16 (drop 1 p);
      sn = get_u16 (drop 3 p);
      bandwidth_hz = get_u16 (drop 5 p);
      payload = take n (drop 9 p);
    })

unfoldable pub parse_leader : List ℕ → Option CaptureRecord
parse_leader p =
    if ltb (length p) 6
    then none
    else some (record (blank kind_leader) { offset_hz = get_u32 p; sn = get_u16 (drop 4 p) })

unfoldable pub parse_state : List ℕ → Option CaptureRecord
parse_state p =
    let n = get_or p 1 0 in
    if ltb (length p) 2
    then none
    else if ltb (length p) (2 + n)
    then none
    else some (record (blank kind_state) { link_state = get_or p 0 0; remote = take n (drop 2 p) })

unfoldable pub parse_flag : ℕ → List ℕ → Option CaptureRecord
parse_flag kind p =
    if ltb (length p) 1 then none else some (record (blank kind) { flag = not (get_or p 0 0 == 0) })

unfoldable pub parse_bandwidth : List ℕ → Option CaptureRecord
parse_bandwidth p =
    if ltb (length p) 2
    then none
    else some (record (blank kind_bandwidth) { bandwidth_hz = get_u16 p })

unfoldable pub parse_rx_data : List ℕ → Option CaptureRecord
parse_rx_data p =
    let t = get_or p 0 0 in
    let n = get_u16 (drop (1 + t) p) in
    if ltb (length p) 1
    then none
    else if ltb (length p) (1 + t + 2)
    then none
    else if ltb (length p) (1 + t + 2 + n)
    then none
    else some (record (blank kind_rx_data) {
      tag = take t (drop 1 p);
      payload = take n (drop (1 + t + 2) p);
    })

unfoldable pub parse_host_msg : List ℕ → Option CaptureRecord
parse_host_msg p =
    let n = get_u16 p in
    if ltb (length p) 2
    then none
    else if ltb (length p) (2 + n)
    then none
    else some (record (blank kind_host_msg) { text = take n (drop 2 p) })

unfoldable pub parse_kind : ℕ → List ℕ → Option CaptureRecord
parse_kind kind p =
    if ltb kind kind_leader
    then parse_frame kind p
    else if kind == kind_leader
    then parse_leader p
    else if kind == kind_state
    then parse_state p
    else if (kind == kind_ptt) || (kind == kind_busy)
    then parse_flag kind p
    else if kind == kind_bandwidth
    then parse_bandwidth p
    else if kind == kind_rx_data
    then parse_rx_data p
    else if kind == kind_host_msg
    then parse_host_msg p
    else none

unfoldable pub parse_record : List ℕ → Option CaptureRecord
parse_record buf =
    if ltb (length buf) prefix_len
    then none
    else if not (get_or buf 0 0 == capture_magic)
    then none
    else if not (get_or buf 1 0 == capture_version)
    then none
    else parse_kind (get_or buf 2 0) (drop prefix_len buf)
