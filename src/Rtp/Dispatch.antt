-- ===== src/Rtp/Dispatch.antt =====
-- The packets of an access unit: src/rtsp/server/packetizer.rs, with `packetize_single` of src/rtsp/codec/h264.rs and
-- src/rtsp/codec/h265.rs, and the AAC payload of src/rtsp/codec/aac.rs.
use bairelay.Base.{
  ℕ, suc, ◌+◌, ◌-◌, ◌*◌, ◌/◌, ◌%◌, Bool, true, ◌&&◌, List, [], ◌∷◌, ◌++◌, length, leb, ◌==◌,
  if◌then◌else◌,
}
use bairelay.Rtp.{RtpPacket, RtpCounters, next_seq, packetize_fu_a, packetize_fu}

abbrev pub default_mtu : ℕ
default_mtu = 1400

pub data VideoCodec : Type 0 where
  h264 : VideoCodec
  h265 : VideoCodec

pub data AudioPayload : Type 0 where
  aac : (au_data : List ℕ) (sample_rate channels : ℕ) → AudioPayload
  g711_ulaw : List ℕ → AudioPayload

pub data Frame : Type 0 where
  video :
      (codec : VideoCodec) (nals : List (List ℕ)) (pts_90khz : ℕ) (keyframe access_unit_end : Bool)
      → Frame
  audio : (payload : AudioPayload) (pts : ℕ) → Frame

-- One packet with the next sequence number.
abbrev one_packet : ℕ → List ℕ → RtpCounters → ℕ → Bool → RtpCounters × RtpPacket
one_packet payload_type payload counters timestamp marker = (
  (next_seq counters).0,
  record {
    payload_type = payload_type;
    sequence_number = (next_seq counters).1;
    timestamp = timestamp;
    ssrc = counters.ssrc;
    marker = marker;
    payload = payload;
  },
)

-- The same for both codecs, whose payload type is 96.
unfoldable pub packetize_single : List ℕ → RtpCounters → ℕ → Bool → RtpCounters × RtpPacket
unfolding next_seq
packetize_single nal counters timestamp marker = one_packet 96 nal counters timestamp marker

unfoldable pub packetize_large :
    VideoCodec → List ℕ → RtpCounters → ℕ → Bool → RtpCounters × List RtpPacket
unfolding packetize_fu_a packetize_fu
packetize_large h264 nal counters timestamp marker =
    packetize_fu_a nal counters timestamp marker default_mtu
packetize_large h265 nal counters timestamp marker =
    packetize_fu nal counters timestamp marker default_mtu

unfoldable pub packetize_nal :
    VideoCodec → List ℕ → RtpCounters → ℕ → Bool → RtpCounters × List RtpPacket
unfolding packetize_single packetize_large
packetize_nal codec nal counters timestamp marker =
    if leb (length nal + 12) default_mtu
    then (
      (packetize_single nal counters timestamp marker).0,
      (packetize_single nal counters timestamp marker).1 ∷ [],
    )
    else packetize_large codec nal counters timestamp marker

-- `for (i, nal) in nals.iter().enumerate()`
unfoldable pub dispatch_nals :
    VideoCodec → ℕ → Bool → ℕ → ℕ → List (List ℕ) → RtpCounters → RtpCounters × List RtpPacket
unfolding packetize_nal
dispatch_nals codec pts access_unit_end last_index i [] counters = (counters, [])
dispatch_nals codec pts access_unit_end last_index i (nal ∷ nals) counters =
    let marker = access_unit_end && (i == last_index) in
    let first = packetize_nal codec nal counters pts marker in
    let rest = dispatch_nals codec pts access_unit_end last_index (suc i) nals first.0 in
    (rest.0, first.1 ++ rest.1)

-- `(au.len() as u16) << 3`, in big-endian order.
unfoldable pub build_au_hbr_payload : List ℕ → List ℕ
build_au_hbr_payload au =
    let au_header = length au % 65536 * 8 % 65536 in
    0x00 ∷ 0x10 ∷ au_header / 256 ∷ au_header % 256 ∷ au

unfoldable pub dispatch_audio : AudioPayload → ℕ → RtpCounters → RtpCounters × List RtpPacket
unfolding next_seq build_au_hbr_payload
dispatch_audio (aac au_data sample_rate channels) pts counters =
    let p = one_packet 97 (build_au_hbr_payload au_data) counters pts true in (p.0, p.1 ∷ [])
dispatch_audio (g711_ulaw samples) pts counters =
    let p = one_packet 0 samples counters pts true in (p.0, p.1 ∷ [])

unfoldable pub dispatch : Frame → RtpCounters → RtpCounters × List RtpPacket
unfolding dispatch_nals dispatch_audio
dispatch (video codec nals pts keyframe access_unit_end) counters =
    dispatch_nals codec pts access_unit_end (length nals - 1) 0 nals counters
dispatch (audio payload pts) counters = dispatch_audio payload pts counters
