-- ===== src/Translate/Model.antt =====
-- The state and the effects of src/stream_translate.rs, with the parameters that src/rtsp/sdp.rs renders. An instant
-- is a value of any type, a duration a number of microseconds, a text a list of bytes.
use bairelay.Base.{ℕ, Bool, false, List, Option, none}
use bairelay.Rtp.Dispatch.{VideoCodec, Frame}
use bairelay.FrameBuffer.{VideoBurst}

pub data AudioCodec : Type 0 where
  aac : AudioCodec
  g711_ulaw : AudioCodec

pub record VideoParams : Type 0 where
  pub codec : VideoCodec
  pub payload_type : ℕ
  pub sps : List ℕ
  pub pps : List ℕ
  pub vps : Option (List ℕ)
  pub profile_level_id : List ℕ

pub record AudioParams : Type 0 where
  pub codec : AudioCodec
  pub payload_type : ℕ
  pub sample_rate : ℕ
  pub channels : ℕ
  pub asc_hex : Option (List ℕ)

-- The fields of a burst that its buffer carries along.
pub record Capture (Instant : Type 0) : Type 0 where
  pub codec : VideoCodec
  pub captured_at : Instant
  pub captured_pts_90khz : ℕ

pub record StreamTranslatorState : Type 0 where
  pub detected_codec : Option VideoCodec
  pub aac_pts_next : ℕ
  pub g711_pts_next : ℕ
  pub aac_aot : Option ℕ
  pub last_video_pts_90khz : Option ℕ
  pub sdp_audio_emitted : Bool

-- `StreamTranslatorState::default()`
abbrev pub new_state : StreamTranslatorState
new_state = record {
  detected_codec = none;
  aac_pts_next = 0;
  g711_pts_next = 0;
  aac_aot = none;
  last_video_pts_90khz = none;
  sdp_audio_emitted = false;
}

pub data Emit (Instant : Type 0) : Type 0 where
  video : (frame : Frame) (pace : ℕ) → Emit Instant
  audio : (frame : Frame) (pace : ℕ) → Emit Instant
  sdp_video : VideoParams → Emit Instant
  sdp_audio : AudioParams → Emit Instant
  replace_video_burst : VideoBurst (Capture Instant) → Emit Instant
  append_pframe : List (List ℕ) → Emit Instant
  audio_seen : AudioCodec → Emit Instant

-- The effects of a packet, the timestamp of its video frame, and the state that it leaves.
pub record Translated (Instant : Type 0) : Type 0 where
  pub emits : List (Emit Instant)
  pub video_pts : Option ℕ
  pub state : StreamTranslatorState
