-- ===== src/Translate/Video.antt =====
-- Video packets: `translate_iframe` and `translate_pframe` of src/stream_translate.rs.
use bairelay.Base.{
  ℕ, ◌+◌, ◌-◌, ◌*◌, ◌/◌, ◌%◌, Bool, true, false, not, ◌||◌, List, [], ◌∷◌, ◌++◌, filter, Option,
  none, some, ltb, leb, ◌==◌, if◌then◌else◌,
}
use bairelay.Bcmedia.Model.{BcMediaIframe, BcMediaPframe}
use bairelay.Nal.{split_annex_b, h264_type, h265_type, within, is_decodable_nal, detect_codec}
use bairelay.Rtp.Dispatch
use bairelay.Rtp.Dispatch.{VideoCodec, h264, h265}
use bairelay.FrameBuffer.{VideoBurst}
use bairelay.Translate.Model.{
  Capture, StreamTranslatorState, Emit, video, sdp_video, replace_video_burst, append_pframe,
  Translated,
}

unfoldable pub micros_to_90khz : ℕ → ℕ
micros_to_90khz micros = micros * 9 / 100 % 4294967296

unfoldable pub is_parameter_set_nal : List ℕ → VideoCodec → Bool
is_parameter_set_nal [] codec = false
is_parameter_set_nal (b0 ∷ nal) h264 = within 7 8 (h264_type b0)
is_parameter_set_nal (b0 ∷ nal) h265 = within 32 34 (h265_type b0)

unfoldable pub is_slice_nal : List ℕ → VideoCodec → Bool
is_slice_nal [] codec = false
is_slice_nal (b0 ∷ nal) h264 = within 1 5 (h264_type b0)
is_slice_nal (b0 ∷ nal) h265 = leb (h265_type b0) 9 || within 16 21 (h265_type b0)

pub record IframeParts : Type 0 where
  pub parameter_sets : List (List ℕ)
  pub iframe_nals : List (List ℕ)
  pub sps : Option (List ℕ)
  pub pps : Option (List ℕ)
  pub vps : Option (List ℕ)

-- The body of the loop, for a unit of the given type.
unfoldable pub keep_h264 : ℕ → List ℕ → IframeParts → IframeParts
keep_h264 ty owned p =
    if ty == 7
    then record p { sps = some owned; parameter_sets = p.parameter_sets ++ (owned ∷ []) }
    else if ty == 8
    then record p { pps = some owned; parameter_sets = p.parameter_sets ++ (owned ∷ []) }
    else if ty == 5
    then record p { iframe_nals = p.iframe_nals ++ (owned ∷ []) }
    else p

unfoldable pub keep_h265 : ℕ → List ℕ → IframeParts → IframeParts
keep_h265 ty owned p =
    if ty == 32
    then record p { vps = some owned; parameter_sets = p.parameter_sets ++ (owned ∷ []) }
    else if ty == 33
    then record p { sps = some owned; parameter_sets = p.parameter_sets ++ (owned ∷ []) }
    else if ty == 34
    then record p { pps = some owned; parameter_sets = p.parameter_sets ++ (owned ∷ []) }
    else if ty == 19 || ty == 20 || ty == 21 || ty == 16
    then record p { iframe_nals = p.iframe_nals ++ (owned ∷ []) }
    else p

unfoldable pub extract_loop : VideoCodec → List (List ℕ) → IframeParts → IframeParts
unfolding keep_h264 keep_h265
extract_loop codec [] p = p
extract_loop codec ([] ∷ nals) p = extract_loop codec nals p
extract_loop h264 ((b0 ∷ nal) ∷ nals) p =
    extract_loop h264 nals (keep_h264 (h264_type b0) (b0 ∷ nal) p)
extract_loop h265 ((b0 ∷ nal) ∷ nals) p =
    extract_loop h265 nals (keep_h265 (h265_type b0) (b0 ∷ nal) p)

unfoldable pub extract_iframe_parts : VideoCodec → List (List ℕ) → IframeParts
unfolding extract_loop
extract_iframe_parts codec nals =
    extract_loop codec nals
      record { parameter_sets = []; iframe_nals = []; sps = none; pps = none; vps = none }

abbrev pub pacer_anomaly_cap_ticks : ℕ
pacer_anomaly_cap_ticks = 450000

unfoldable pub video_frame_duration : StreamTranslatorState → ℕ → ℕ
video_frame_duration state pts_90khz = elim state.last_video_pts_90khz [
  | none ↦ 0
  | some prev ↦
      let delta = (pts_90khz + 4294967296 - prev) % 4294967296 in
      (if ltb pacer_anomaly_cap_ticks delta then 0 else delta) * 1000000 / 90000
]

-- `for nal in &nals { if let Some(c) = detect_codec(nal) { …; break; } }`
unfoldable pub first_codec : List (List ℕ) → Option VideoCodec
unfolding detect_codec
first_codec [] = none
first_codec (nal ∷ nals) =
    let later = first_codec nals in elim (detect_codec nal) [ none ↦ later | some c ↦ some c ]

unfoldable pub detect : StreamTranslatorState → List (List ℕ) → Option VideoCodec
unfolding first_codec
detect state nals = elim state.detected_codec [ none ↦ first_codec nals | some c ↦ some c ]

-- The units that standard decoders take, the slices behind the others.
unfoldable pub reorder : VideoCodec → List (List ℕ) → List (List ℕ)
unfolding is_slice_nal is_decodable_nal
reorder codec nals =
    let kept = filter (λ n. is_decodable_nal n codec) nals in
    filter (λ n. not (is_slice_nal n codec)) kept ++ filter (λ n. is_slice_nal n codec) kept

-- `[sps[1], sps[2], sps[3]]`, or zeros where `sps` is shorter than 4.
unfoldable pub profile_level_id : List ℕ → List ℕ
profile_level_id (b0 ∷ b1 ∷ b2 ∷ b3 ∷ sps) = b1 ∷ b2 ∷ b3 ∷ []
profile_level_id short = 0 ∷ 0 ∷ 0 ∷ []

module _ {Instant : Type 0} where
  unfoldable pub video_sdp : VideoCodec → IframeParts → List (Emit Instant)
  unfolding profile_level_id
  video_sdp codec p = elim p.sps [
    | none ↦ []
    | some sps ↦ elim p.pps [
      | none ↦ []
      | some pps ↦
          sdp_video record {
            codec = codec;
            payload_type = 96;
            sps = sps;
            pps = pps;
            vps = p.vps;
            profile_level_id = profile_level_id sps;
          }
          ∷ []
    ]
  ]

  abbrev dropped : StreamTranslatorState → Translated Instant
  dropped state = record { emits = []; video_pts = none; state = state }

  -- From the test of the stripped units on, behind the effects before it.
  unfoldable pub send_video :
      VideoCodec
      → List (List ℕ)
      → ℕ
      → Bool
      → List (Emit Instant)
      → StreamTranslatorState
      → Translated Instant
  unfolding video_frame_duration
  send_video codec [] pts_90khz keyframe emits state = record {
    emits = emits;
    video_pts = none;
    state = state;
  }
  send_video codec (nal ∷ nals) pts_90khz keyframe emits state = record {
    emits =
        emits
        ++ (video (Dispatch.video codec (nal ∷ nals) pts_90khz keyframe true)
              (video_frame_duration state pts_90khz)
            ∷ []);
    video_pts = some pts_90khz;
    state = record state { last_video_pts_90khz = some pts_90khz };
  }

  unfoldable pub burst : VideoCodec → IframeParts → Instant → ℕ → VideoBurst (Capture Instant)
  burst codec p now pts_90khz = record {
    capture = record { codec = codec; captured_at = now; captured_pts_90khz = pts_90khz };
    parameter_sets = p.parameter_sets;
    iframe_nals = p.iframe_nals;
    pframe_nals = [];
  }

  -- The rest of `translate_iframe` once the codec is known, on the reordered units.
  unfoldable pub emit_iframe :
      VideoCodec → List (List ℕ) → ℕ → Instant → StreamTranslatorState → Translated Instant
  unfolding extract_iframe_parts video_sdp burst send_video is_parameter_set_nal
  emit_iframe codec [] pts_90khz now state = dropped state
  emit_iframe codec (nal ∷ nals) pts_90khz now state =
      let parts = extract_iframe_parts codec (nal ∷ nals) in
      send_video codec (filter (λ n. not (is_parameter_set_nal n codec)) (nal ∷ nals)) pts_90khz
        true (video_sdp codec parts ++ (replace_video_burst (burst codec parts now pts_90khz) ∷ []))
        state

  -- On the units of the payload, with the codec that is known or detected.
  unfoldable pub iframe_units :
      Option VideoCodec → List (List ℕ) → ℕ → Instant → StreamTranslatorState → Translated Instant
  unfolding reorder emit_iframe
  iframe_units codec [] pts_90khz now state = dropped state
  iframe_units none (nal ∷ nals) pts_90khz now state = dropped state
  iframe_units (some codec) (nal ∷ nals) pts_90khz now state =
      emit_iframe codec (reorder codec (nal ∷ nals)) pts_90khz now
        (record state { detected_codec = some codec })

  unfoldable pub translate_iframe :
      BcMediaIframe → StreamTranslatorState → Instant → Translated Instant
  unfolding split_annex_b detect micros_to_90khz iframe_units
  translate_iframe frame state now =
      let nals = split_annex_b frame.payload in
      iframe_units (detect state nals) nals (micros_to_90khz frame.microseconds) now state

  unfoldable pub emit_pframe :
      VideoCodec → List (List ℕ) → ℕ → StreamTranslatorState → Translated Instant
  unfolding send_video
  emit_pframe codec [] pts_90khz state = dropped state
  emit_pframe codec (nal ∷ nals) pts_90khz state =
      send_video codec (nal ∷ nals) pts_90khz false (append_pframe (nal ∷ nals) ∷ []) state

  -- With the codec that an I-frame has shown.
  unfoldable pub pframe_units :
      Option VideoCodec → List (List ℕ) → ℕ → StreamTranslatorState → Translated Instant
  unfolding reorder emit_pframe
  pframe_units none nals pts_90khz state = dropped state
  pframe_units (some codec) nals pts_90khz state =
      emit_pframe codec (reorder codec nals) pts_90khz state

  unfoldable pub translate_pframe : BcMediaPframe → StreamTranslatorState → Translated Instant
  unfolding split_annex_b micros_to_90khz pframe_units
  translate_pframe frame state =
      pframe_units state.detected_codec (split_annex_b frame.payload)
        (micros_to_90khz frame.microseconds) state
