-- ===== src/Rtp.antt =====
-- RTP packets and the fragmentation of large video units: src/rtsp/rtp.rs, src/rtsp/codec/h264.rs and
-- src/rtsp/codec/h265.rs. `build_packet` hands its arguments to the crate rtp-types, so a packet here is the record
-- of those arguments.
pub mod Reassembly
pub mod Receiver
pub mod Dispatch
pub mod AccessUnit
mod Examples
use Prim.Native.Nat.{bit_and, bit_or}
use bairelay.Base.{
  ℕ, zero, suc, ◌+◌, ◌-◌, ◌*◌, ◌/◌, ◌%◌, min, Bool, true, false, ◌&&◌, List, [], ◌∷◌, ◌++◌, length,
  take, drop, ltb, leb, ◌==◌, if◌then◌else◌,
}

pub record RtpPacket : Type 0 where
  pub payload_type : ℕ
  pub sequence_number : ℕ
  pub timestamp : ℕ
  pub ssrc : ℕ
  pub marker : Bool
  pub payload : List ℕ

pub record RtpCounters : Type 0 where
  pub ssrc : ℕ
  pub seq : ℕ

-- `next_seq`, with the counters after it.
unfoldable pub next_seq : RtpCounters → RtpCounters × ℕ
next_seq c = (record c { seq = (c.seq + 1) % 65536 }, c.seq)

-- What the loops of `packetize_fu_a` and `packetize_fu` take from outside: the bytes in front of the FU header,
-- the type of the unit, the room for data in a fragment, the timestamp and the marker.
pub record Fragmenter : Type 0 where
  pub payload_type : ℕ
  pub head : List ℕ
  pub nal_type : ℕ
  pub max_fragment_payload : ℕ
  pub timestamp_90khz : ℕ
  pub marker_on_last : Bool

unfoldable pub fu_header : ℕ → Bool → Bool → ℕ
fu_header nal_type is_first is_last =
    let h = if is_first then bit_or nal_type 0x80 else nal_type in
    if is_last then bit_or h 0x40 else h

-- The body of the loop: the fragment `body[offset..end]`.
unfoldable pub fragment : Fragmenter → List ℕ → ℕ → ℕ → ℕ → ℕ → RtpPacket
unfolding fu_header
fragment f body offset end seq ssrc =
    let is_first = offset == 0 in
    let is_last = end == length body in
    record {
      payload_type = f.payload_type;
      sequence_number = seq;
      timestamp = f.timestamp_90khz;
      ssrc = ssrc;
      marker = is_last && f.marker_on_last;
      payload =
          f.head
          ++ (fu_header f.nal_type is_first is_last ∷ take (end - offset) (drop offset body));
    }

-- `while offset < total`; the fuel is the body's length, since a fragment takes a byte at least.
unfoldable pub fragment_loop :
    ℕ → Fragmenter → List ℕ → ℕ → RtpCounters → RtpCounters × List RtpPacket
unfolding fragment next_seq
fragment_loop zero f body offset c = (c, [])
fragment_loop (suc fuel) f body offset c =
    let end = min (offset + f.max_fragment_payload) (length body) in
    let (c', seq) = next_seq c in
    let (c'', packets) = fragment_loop fuel f body end c' in
    if ltb offset (length body)
    then (c'', fragment f body offset end seq c.ssrc ∷ packets)
    else (c, [])

-- H.264: the fragmenter of a unit with this header.
unfoldable pub fu_a_fragmenter : ℕ → ℕ → Bool → ℕ → Fragmenter
fu_a_fragmenter nal_header timestamp marker_on_last mtu = record {
  payload_type = 96;
  head = bit_or (bit_and nal_header 0x60) 28 ∷ [];
  nal_type = bit_and nal_header 0x1f;
  max_fragment_payload = mtu - 12 - 2;
  timestamp_90khz = timestamp;
  marker_on_last = marker_on_last;
}

-- The source panics on a unit of fewer than two bytes; the model returns no packet there.
unfoldable pub packetize_fu_a : List ℕ → RtpCounters → ℕ → Bool → ℕ → RtpCounters × List RtpPacket
unfolding fragment_loop fu_a_fragmenter
packetize_fu_a [] c timestamp marker_on_last mtu = (c, [])
packetize_fu_a (nal_header ∷ body) c timestamp marker_on_last mtu =
    if leb mtu 14
    then (c, [])
    else fragment_loop (length body) (fu_a_fragmenter nal_header timestamp marker_on_last mtu) body
        0 c

-- H.265: the fragmenter of a unit with these two header bytes.
unfoldable pub fu_fragmenter : ℕ → ℕ → ℕ → Bool → ℕ → Fragmenter
fu_fragmenter b0 b1 timestamp marker_on_last mtu = record {
  payload_type = 96;
  head = bit_or (bit_and b0 0x81) 98 ∷ b1 ∷ [];
  nal_type = bit_and (b0 / 2) 0x3f;
  max_fragment_payload = mtu - 12 - 2 - 1;
  timestamp_90khz = timestamp;
  marker_on_last = marker_on_last;
}

-- The source panics on a unit of fewer than two bytes; the model returns no packet there.
unfoldable pub packetize_fu : List ℕ → RtpCounters → ℕ → Bool → ℕ → RtpCounters × List RtpPacket
unfolding fragment_loop fu_fragmenter
packetize_fu [] c timestamp marker_on_last mtu = (c, [])
packetize_fu (b0 ∷ []) c timestamp marker_on_last mtu = (c, [])
packetize_fu (b0 ∷ b1 ∷ body) c timestamp marker_on_last mtu =
    if leb mtu 15
    then (c, [])
    else fragment_loop (length body) (fu_fragmenter b0 b1 timestamp marker_on_last mtu) body 0 c
