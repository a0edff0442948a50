-- ===== src/Capture/RoundTrip.antt =====
-- For each encoder of shell/capture.c, what ardop_capture_parse_record makes of its record.
use ardopb.Base.{
  ℕ, ◌-◌, ◌^◌, ◌≤◌, ◌<◌, ◌≡◌, ap, ◌∙◌, arith, Bool, Option, some, List, [], ◌∷◌, ◌++◌, length, take,
  if◌then◌else◌,
}
use ardopb.Base.Words.{put_u16, put_u32}
use ardopb.Capture.{
  blank, clamp16, clamp8, prefix, kind_leader, kind_state, kind_ptt, kind_bandwidth, kind_busy,
  kind_rx_data, kind_host_msg, encode_frame, encode_leader, text_of, encode_state, encode_flag,
  encode_ptt, encode_busy, encode_bandwidth, encode_rx_data, encode_host_msg,
}
use ardopb.Capture.Parsing.{parse_kind}
use ardopb.Capture.Fields.{
  reread, frame_fields, kept, kept8, encode_frame_fields, parse_frame_fields, parse_leader_fields,
  parse_bandwidth_fields, parse_flag_fields, parse_host_msg_fields, parse_state_fields,
  parse_rx_data_fields, parse_record-prefix, parse_kind-frame, length-clamp16, length-clamp8,
  clamp16_small,
}

module _ (cap kind ft q sn bw : ℕ) (payload : List ℕ) (c : 12 ≤ cap) (k : kind < 3)
    (q' : q < 2 ^ 16) (s' : sn < 2 ^ 16) (b' : bw < 2 ^ 16) where
  pub parse_record-encode_frame :
      reread (encode_frame cap kind ft q sn bw payload)
      ≡ some (record (blank kind) {
        frame_type = ft;
        quality = q;
        sn = sn;
        bandwidth_hz = bw;
        payload = take (clamp16 (length payload) (cap - 12)) payload;
      })
  unfolding reread
  parse_record-encode_frame =
      let n = clamp16 (length payload) (cap - 12) in
      let part = kept (cap - 12) payload in
      ap reread (encode_frame_fields cap kind ft q sn bw payload c)
      ∙ parse_record-prefix kind (frame_fields ft q sn bw n part) (omega (k, arith))
      ∙ parse_kind-frame kind (frame_fields ft q sn bw n part) k
      ∙ parse_frame_fields kind ft q sn bw n part (length-clamp16 payload (cap - 12)) q' s' b'
          (clamp16_small (length payload) (cap - 12))

module _ (cap : ℕ) (text : Option (List ℕ)) (c : 5 ≤ cap) where
  encode_host_msg_fields :
      encode_host_msg cap text
      ≡ some (
          prefix kind_host_msg
            (put_u16 (clamp16 (length (text_of text)) (cap - 5)) ++ kept (cap - 5) (text_of text)))
  unfolding encode_host_msg
  encode_host_msg_fields = ground arith

  pub parse_record-encode_host_msg :
      reread (encode_host_msg cap text)
      ≡ some (record (blank kind_host_msg) { text = kept (cap - 5) (text_of text) })
  unfolding reread parse_kind
  parse_record-encode_host_msg =
      let n = clamp16 (length (text_of text)) (cap - 5) in
      let part = kept (cap - 5) (text_of text) in
      ap reread encode_host_msg_fields
      ∙ parse_record-prefix kind_host_msg (put_u16 n ++ part) (omega arith)
      ∙ parse_host_msg_fields n part (length-clamp16 (text_of text) (cap - 5))
          (clamp16_small (length (text_of text)) (cap - 5))

module _ (cap link_state : ℕ) (remote : Option (List ℕ)) (c : 5 ≤ cap) where
  encode_state_fields :
      encode_state cap link_state remote
      ≡ some (
          prefix kind_state (
            link_state
            ∷ clamp8 (length (text_of remote)) (cap - 5)
            ∷ kept8 (cap - 5) (text_of remote)))
  unfolding encode_state
  encode_state_fields = ground arith

  pub parse_record-encode_state :
      reread (encode_state cap link_state remote)
      ≡ some (record (blank kind_state) {
        link_state = link_state;
        remote = kept8 (cap - 5) (text_of remote);
      })
  unfolding reread parse_kind
  parse_record-encode_state =
      let n = clamp8 (length (text_of remote)) (cap - 5) in
      let part = kept8 (cap - 5) (text_of remote) in
      ap reread encode_state_fields
      ∙ parse_record-prefix kind_state (link_state ∷ n ∷ part) (omega arith)
      ∙ parse_state_fields link_state n part (length-clamp8 (text_of remote) (cap - 5))

module _ (cap : ℕ) (tag : Option (List ℕ)) (bytes : List ℕ) (c : 6 ≤ cap) where
  abbrev tag_size : ℕ
  tag_size = clamp8 (length (text_of tag)) (cap - 6)

  encode_rx_data_fields :
      encode_rx_data cap tag bytes
      ≡ some (
          prefix kind_rx_data (
            tag_size
            ∷ (kept8 (cap - 6) (text_of tag)
                ++ (put_u16 (clamp16 (length bytes) (cap - 6 - tag_size))
                    ++ kept (cap - 6 - tag_size) bytes))))
  unfolding encode_rx_data
  encode_rx_data_fields = ground arith

  pub parse_record-encode_rx_data :
      reread (encode_rx_data cap tag bytes)
      ≡ some (record (blank kind_rx_data) {
        tag = kept8 (cap - 6) (text_of tag);
        payload = kept (cap - 6 - tag_size) bytes;
      })
  unfolding reread parse_kind
  parse_record-encode_rx_data =
      let name = kept8 (cap - 6) (text_of tag) in
      let n = clamp16 (length bytes) (cap - 6 - tag_size) in
      let part = kept (cap - 6 - tag_size) bytes in
      ap reread encode_rx_data_fields
      ∙ parse_record-prefix kind_rx_data (tag_size ∷ (name ++ (put_u16 n ++ part))) (omega arith)
      ∙ parse_rx_data_fields tag_size n name part (length-clamp8 (text_of tag) (cap - 6))
          (length-clamp16 bytes (cap - 6 - tag_size))
          (clamp16_small (length bytes) (cap - 6 - tag_size))

module _ (cap offset_hz sn : ℕ) (c : 9 ≤ cap) (o' : offset_hz < 2 ^ 32) (s' : sn < 2 ^ 16) where
  encode_leader_fields :
      encode_leader cap offset_hz sn ≡ some (prefix kind_leader (put_u32 offset_hz ++ put_u16 sn))
  unfolding encode_leader
  encode_leader_fields = ground arith

  pub parse_record-encode_leader :
      reread (encode_leader cap offset_hz sn)
      ≡ some (record (blank kind_leader) { offset_hz = offset_hz; sn = sn })
  unfolding reread parse_kind
  parse_record-encode_leader =
      ap reread encode_leader_fields
      ∙ parse_record-prefix kind_leader (put_u32 offset_hz ++ put_u16 sn) (omega arith)
      ∙ parse_leader_fields offset_hz sn o' s'

module _ (cap bandwidth_hz : ℕ) (c : 5 ≤ cap) (b' : bandwidth_hz < 2 ^ 16) where
  encode_bandwidth_fields :
      encode_bandwidth cap bandwidth_hz ≡ some (prefix kind_bandwidth (put_u16 bandwidth_hz))
  unfolding encode_bandwidth
  encode_bandwidth_fields = ground arith

  pub parse_record-encode_bandwidth :
      reread (encode_bandwidth cap bandwidth_hz)
      ≡ some (record (blank kind_bandwidth) { bandwidth_hz = bandwidth_hz })
  unfolding reread parse_kind
  parse_record-encode_bandwidth =
      ap reread encode_bandwidth_fields
      ∙ parse_record-prefix kind_bandwidth (put_u16 bandwidth_hz) (omega arith)
      ∙ parse_bandwidth_fields bandwidth_hz b'

module _ (cap : ℕ) (on : Bool) (c : 4 ≤ cap) where
  encode_flag_fields :
      (kind : ℕ) → encode_flag cap kind on ≡ some (prefix kind ((if on then 1 else 0) ∷ []))
  unfolding encode_flag
  encode_flag_fields kind = ground arith

  pub parse_record-encode_ptt :
      reread (encode_ptt cap on) ≡ some (record (blank kind_ptt) { flag = on })
  unfolding reread parse_kind encode_ptt
  parse_record-encode_ptt =
      ap reread (encode_flag_fields kind_ptt)
      ∙ parse_record-prefix kind_ptt ((if on then 1 else 0) ∷ []) (omega arith)
      ∙ parse_flag_fields kind_ptt on

  pub parse_record-encode_busy :
      reread (encode_busy cap on) ≡ some (record (blank kind_busy) { flag = on })
  unfolding reread parse_kind encode_busy
  parse_record-encode_busy =
      ap reread (encode_flag_fields kind_busy)
      ∙ parse_record-prefix kind_busy ((if on then 1 else 0) ∷ []) (omega arith)
      ∙ parse_flag_fields kind_busy on
