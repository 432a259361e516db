-- ===== src/Source/Timed.antt =====
-- The timestamp that a translation returns is that of its video frame.
use bairelay.Base.{
  ℕ, ◌≡◌, refl, Bool, true, false, List, [], ◌∷◌, ◌++◌, All, filter, not, Option, none, some,
}
use bairelay.Bcmedia.Model.{BcMedia, info_v1, info_v2, iframe, pframe, aac, adpcm}
use bairelay.Audio.Aac.{parse_adts}
use bairelay.Audio.Adpcm.{decode_block}
use bairelay.Nal.{split_annex_b}
use bairelay.Rtp.Dispatch
use bairelay.Rtp.Dispatch.{VideoCodec}
use bairelay.Translate.Model.{
  StreamTranslatorState, Emit, video, audio, sdp_video, sdp_audio, replace_video_burst,
  append_pframe, audio_seen, Translated,
}
use bairelay.Translate.Video.{
  IframeParts, extract_iframe_parts, is_parameter_set_nal, detect, reorder, micros_to_90khz,
  video_sdp, burst, send_video, emit_iframe, iframe_units, translate_iframe, emit_pframe,
  pframe_units, translate_pframe,
}
use bairelay.Translate.Audio.{emit_aac, translate_aac, emit_adpcm, translate_adpcm}
use bairelay.Translate.{translate}
use bairelay.Translate.SameCodec.{OfCodec, emit_aac-AudioStep, emit_adpcm-AudioStep}
use bairelay.Source.{Sent, paced, broadcast, Pacer, no_pacer, queue}

-- The timestamps of the video frames.
abbrev pub video_times : List (Emit ℕ) → List ℕ
video_times [] = []
video_times (video (Dispatch.video codec nals pts keyframe end) pace ∷ emits) =
    pts ∷ video_times emits
video_times (video (Dispatch.audio payload pts) pace ∷ emits) = video_times emits
video_times (audio frame pace ∷ emits) = video_times emits
video_times (audio_seen codec ∷ emits) = video_times emits
video_times (sdp_audio p ∷ emits) = video_times emits
video_times (sdp_video p ∷ emits) = video_times emits
video_times (replace_video_burst b ∷ emits) = video_times emits
video_times (append_pframe nals ∷ emits) = video_times emits

abbrev pub time_of : Dispatch.Frame → List ℕ
time_of (Dispatch.video codec nals pts keyframe end) = pts ∷ []
time_of (Dispatch.audio payload pts) = []

abbrev pub sent_times : List Sent → List ℕ
sent_times [] = []
sent_times (paced frame duration ∷ sent) = time_of frame ++ sent_times sent
sent_times (broadcast frame ∷ sent) = time_of frame ++ sent_times sent

-- The pacer is not there, or takes the frame.
abbrev pub takes : Pacer → Bool
takes no_pacer = true
takes (queue b) = b

video_times-prefix :
    (emits more : List (Emit ℕ))
    → video_times emits ≡ []
    → video_times (emits ++ more) ≡ video_times more
video_times-prefix [] more h = refl
video_times-prefix (video (Dispatch.video c nals pts k end) pace ∷ emits) more h = absurd (cc)
video_times-prefix (video (Dispatch.audio payload pts) pace ∷ emits) more h =
    video_times-prefix emits more h
video_times-prefix (audio frame pace ∷ emits) more h = video_times-prefix emits more h
video_times-prefix (audio_seen codec ∷ emits) more h = video_times-prefix emits more h
video_times-prefix (sdp_audio p ∷ emits) more h = video_times-prefix emits more h
video_times-prefix (sdp_video p ∷ emits) more h = video_times-prefix emits more h
video_times-prefix (replace_video_burst b ∷ emits) more h = video_times-prefix emits more h
video_times-prefix (append_pframe nals ∷ emits) more h = video_times-prefix emits more h

-- What is of no codec has no video.
video_times-none : (emits : List (Emit ℕ)) → All (OfCodec none) emits → video_times emits ≡ []
video_times-none [] h = refl
video_times-none (video (Dispatch.video c nals pts k end) pace ∷ emits) (h, hs) = absurd (cc)
video_times-none (video (Dispatch.audio payload pts) pace ∷ emits) h = video_times-none emits h.1
video_times-none (audio frame pace ∷ emits) h = video_times-none emits h.1
video_times-none (audio_seen codec ∷ emits) h = video_times-none emits h.1
video_times-none (sdp_audio p ∷ emits) h = video_times-none emits h.1
video_times-none (sdp_video p ∷ emits) h = video_times-none emits h.1
video_times-none (replace_video_burst b ∷ emits) h = video_times-none emits h.1
video_times-none (append_pframe nals ∷ emits) h = video_times-none emits h.1

abbrev pub to_list : Option ℕ → List ℕ
to_list none = []
to_list (some n) = n ∷ []

-- The returned timestamp is that of the one video frame.
abbrev pub Timed : Translated ℕ → Type 0
Timed r = video_times r.emits ≡ to_list r.video_pts

send_video-Timed :
    (codec : VideoCodec) (nals : List (List ℕ)) (pts : ℕ) (keyframe : Bool) (emits : List (Emit ℕ))
    (state : StreamTranslatorState)
    → video_times emits ≡ []
    → Timed (send_video codec nals pts keyframe emits state)
unfolding send_video
send_video-Timed codec [] pts keyframe emits state h = h
send_video-Timed codec (nal ∷ nals) pts keyframe emits state h = video_times-prefix emits _ h

video_sdp-times : (codec : VideoCodec) (p : IframeParts) → video_times (video_sdp codec p) ≡ []
unfolding video_sdp
video_sdp-times codec p = parts p.sps p.pps
  where
    parts :
        (sps pps : Option (List ℕ))
        → video_times (video_sdp codec (record p { sps = sps; pps = pps })) ≡ []
    parts none pps = refl
    parts (some sps) none = refl
    parts (some sps) (some pps) = refl

emit_iframe-Timed :
    (codec : VideoCodec) (nals : List (List ℕ)) (pts now : ℕ) (state : StreamTranslatorState)
    → Timed (emit_iframe codec nals pts now state)
unfolding emit_iframe
emit_iframe-Timed codec [] pts now state = refl
emit_iframe-Timed codec (nal ∷ nals) pts now state =
    let parts = extract_iframe_parts codec (nal ∷ nals) in
    let shown = replace_video_burst (burst codec parts now pts) in
    send_video-Timed codec (filter (λ n. not (is_parameter_set_nal n codec)) (nal ∷ nals)) pts true
      (video_sdp codec parts ++ (shown ∷ [])) state
      (video_times-prefix (video_sdp codec parts) (shown ∷ []) (video_sdp-times codec parts))

iframe_units-Timed :
    (codec : Option VideoCodec) (nals : List (List ℕ)) (pts now : ℕ) (state : StreamTranslatorState)
    → Timed (iframe_units codec nals pts now state)
unfolding iframe_units
iframe_units-Timed none [] pts now state = refl
iframe_units-Timed (some codec) [] pts now state = refl
iframe_units-Timed none (nal ∷ nals) pts now state = refl
iframe_units-Timed (some codec) (nal ∷ nals) pts now state =
    emit_iframe-Timed codec (reorder codec (nal ∷ nals)) pts now
      (record state { detected_codec = some codec })

emit_pframe-Timed :
    (codec : VideoCodec) (nals : List (List ℕ)) (pts : ℕ) (state : StreamTranslatorState)
    → Timed (emit_pframe codec nals pts state)
unfolding emit_pframe
emit_pframe-Timed codec [] pts state = refl
emit_pframe-Timed codec (nal ∷ nals) pts state =
    send_video-Timed codec (nal ∷ nals) pts false (append_pframe (nal ∷ nals) ∷ []) state refl

pframe_units-Timed :
    (codec : Option VideoCodec) (nals : List (List ℕ)) (pts : ℕ) (state : StreamTranslatorState)
    → Timed (pframe_units codec nals pts state)
unfolding pframe_units
pframe_units-Timed none nals pts state = refl
pframe_units-Timed (some codec) nals pts state =
    emit_pframe-Timed codec (reorder codec nals) pts state

pub translate-Timed :
    (media : BcMedia) (state : StreamTranslatorState) (now : ℕ) (bridging : Bool)
    → Timed (translate media state now bridging)
unfolding translate translate_iframe translate_pframe translate_aac translate_adpcm
translate-Timed (iframe frame) state now bridging =
    let nals = split_annex_b frame.payload in
    iframe_units-Timed (detect state nals) nals (micros_to_90khz frame.microseconds) now state
translate-Timed (pframe frame) state now bridging =
    pframe_units-Timed state.detected_codec (split_annex_b frame.payload)
      (micros_to_90khz frame.microseconds) state
translate-Timed (aac p) state now bridging =
    video_times-none (emit_aac (parse_adts p.payload) p.payload state bridging).0
      ((emit_aac-AudioStep ℕ (parse_adts p.payload) p.payload state bridging).0 none)
translate-Timed (adpcm p) state now bridging =
    video_times-none (emit_adpcm (decode_block p.payload) state bridging).0
      ((emit_adpcm-AudioStep ℕ (decode_block p.payload) state bridging).0 none)
translate-Timed (info_v1 info) state now bridging = refl
translate-Timed (info_v2 info) state now bridging = refl
