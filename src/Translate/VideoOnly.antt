-- ===== src/Translate/VideoOnly.antt =====
-- Video packets have no effect on audio.
use bairelay.Base.{
  ℕ, ◌≡◌, ◌⊎◌, inl, inr, refl, sym, ◌∙◌, subst, Bool, true, false, not, List, [], ◌∷◌, ◌++◌, filter,
  All, All-append, Option, none, some,
}
use bairelay.Bcmedia.Model.{BcMediaIframe, BcMediaPframe}
use bairelay.Nal.{split_annex_b}
use bairelay.Rtp.Dispatch.{VideoCodec}
use bairelay.Rtp.Dispatch
use bairelay.Translate.Model.{
  Translated, StreamTranslatorState, Emit, video, audio, sdp_video, sdp_audio, replace_video_burst,
  append_pframe, audio_seen,
}
use bairelay.Translate.Video.{
  IframeParts, extract_iframe_parts, is_parameter_set_nal, detect, reorder, micros_to_90khz,
  video_frame_duration, video_sdp, burst, send_video, emit_iframe, translate_iframe, emit_pframe,
  translate_pframe, iframe_units, pframe_units,
}

-- A codec that was detected stays.
abbrev pub Latched : Option VideoCodec → Option VideoCodec → Type 0
Latched before after = (before ≡ none) ⊎ (before ≡ after)

pub Latched-trans : (a b c : Option VideoCodec) → Latched a b → Latched b c → Latched a c
Latched-trans a b c (inl e) k = inl e
Latched-trans a b c (inr e) (inl f) = inl (e ∙ f)
Latched-trans a b c (inr e) (inr f) = inr (e ∙ f)

module _ {Instant : Type 0} where
  -- An effect on video, of the codec that is detected then.
  abbrev pub IsVideo : Option VideoCodec → Emit Instant → Type 0
  IsVideo detected (video (Dispatch.video codec nals pts keyframe end) pace) = some codec ≡ detected
  IsVideo detected (video (Dispatch.audio payload pts) pace) = ⊥
  IsVideo detected (sdp_video p) = some p.codec ≡ detected
  IsVideo detected (replace_video_burst b) = some b.capture.codec ≡ detected
  IsVideo detected (append_pframe nals) = Unit {0}
  IsVideo detected (audio frame pace) = ⊥
  IsVideo detected (audio_seen codec) = ⊥
  IsVideo detected (sdp_audio p) = ⊥

  abbrev pub VideoOnly : Option VideoCodec → List (Emit Instant) → Type 0
  VideoOnly detected emits = All (IsVideo detected) emits

  -- What a video packet does in a state.
  abbrev pub VideoStep : StreamTranslatorState → Translated Instant → Type 0
  VideoStep state r =
      VideoOnly r.state.detected_codec r.emits
      × (r.state.sdp_audio_emitted ≡ state.sdp_audio_emitted)
      × Latched state.detected_codec r.state.detected_codec

module _ (Instant : Type 0) where
  dropped-VideoStep :
      (state : StreamTranslatorState)
      → VideoStep {Instant = Instant} state (record { emits = []; video_pts = none; state = state })
  dropped-VideoStep state = (tt, refl, inr refl)

  send_video-VideoStep :
      (codec : VideoCodec) (nals : List (List ℕ)) (pts : ℕ) (keyframe : Bool)
      (emits : List (Emit Instant)) (state : StreamTranslatorState)
      → state.detected_codec ≡ some codec
      → VideoOnly (some codec) emits
      → VideoStep state (send_video codec nals pts keyframe emits state)
  unfolding send_video
  send_video-VideoStep codec [] pts keyframe emits state c h =
      (subst (λ o. VideoOnly o emits) (sym c) h, refl, inr refl)
  send_video-VideoStep codec (nal ∷ nals) pts keyframe emits state c h =
      let frame : Emit Instant =
        video (Dispatch.video codec (nal ∷ nals) pts keyframe true)
          (video_frame_duration state pts) in
      (
        subst (λ o. VideoOnly o (emits ++ (frame ∷ []))) (sym c)
            (All-append _ emits (frame ∷ []) h (refl, tt)),
        refl,
        inr refl,
      )

  video_sdp-VideoOnly :
      (codec : VideoCodec) (p : IframeParts)
      → VideoOnly (some codec) (video_sdp {Instant = Instant} codec p)
  unfolding video_sdp
  video_sdp-VideoOnly codec p = parts p.sps p.pps
    where
      parts :
          (sps pps : Option (List ℕ))
          → VideoOnly
              (some codec)
              (video_sdp {Instant = Instant} codec (record p { sps = sps; pps = pps }))
      parts none pps = tt
      parts (some sps) none = tt
      parts (some sps) (some pps) = (refl, tt)

  emit_iframe-VideoStep :
      (codec : VideoCodec) (nals : List (List ℕ)) (pts : ℕ) (now : Instant)
      (state : StreamTranslatorState)
      → state.detected_codec ≡ some codec
      → VideoStep state (emit_iframe codec nals pts now state)
  unfolding emit_iframe burst
  emit_iframe-VideoStep codec [] pts now state c = dropped-VideoStep state
  emit_iframe-VideoStep codec (nal ∷ nals) pts now state c =
      let parts = extract_iframe_parts codec (nal ∷ nals) in
      let shown = replace_video_burst (burst codec parts now pts) in
      send_video-VideoStep codec (filter (λ n. not (is_parameter_set_nal n codec)) (nal ∷ nals)) pts
        true (video_sdp codec parts ++ (shown ∷ [])) state c
        (All-append _ (video_sdp codec parts) (shown ∷ []) (video_sdp-VideoOnly codec parts)
          (refl, tt))

  iframe_units-VideoStep :
      (codec : Option VideoCodec) (nals : List (List ℕ)) (pts : ℕ) (now : Instant)
      (state : StreamTranslatorState)
      → Latched state.detected_codec codec
      → VideoStep state (iframe_units codec nals pts now state)
  unfolding iframe_units
  iframe_units-VideoStep none [] pts now state l = dropped-VideoStep state
  iframe_units-VideoStep (some codec) [] pts now state l = dropped-VideoStep state
  iframe_units-VideoStep none (nal ∷ nals) pts now state l = dropped-VideoStep state
  iframe_units-VideoStep (some codec) (nal ∷ nals) pts now state l =
      let known = record state { detected_codec = some codec } in
      let (v, a, k) = emit_iframe-VideoStep codec (reorder codec (nal ∷ nals)) pts now known refl in
      let r = emit_iframe codec (reorder codec (nal ∷ nals)) pts now known in (v, a, latched k l)
    where
      latched :
          {s o : Option VideoCodec} {c : VideoCodec}
          → Latched (some c) s
          → Latched o (some c)
          → Latched o s
      latched (inl e) l = absurd (cc)
      latched (inr e) (inl n) = inl n
      latched (inr e) (inr f) = inr (f ∙ e)

  pub translate_iframe-VideoStep :
      (frame : BcMediaIframe) (state : StreamTranslatorState) (now : Instant)
      → VideoStep state (translate_iframe frame state now)
  unfolding translate_iframe detect
  translate_iframe-VideoStep frame state now =
      let nals = split_annex_b frame.payload in
      iframe_units-VideoStep (detect state nals) nals (micros_to_90khz frame.microseconds) now state
        (known state.detected_codec)
    where
      known :
          (o : Option VideoCodec)
          → Latched o (detect (record state { detected_codec = o }) (split_annex_b frame.payload))
      known none = inl refl
      known (some c) = inr refl

  emit_pframe-VideoStep :
      (codec : VideoCodec) (nals : List (List ℕ)) (pts : ℕ) (state : StreamTranslatorState)
      → state.detected_codec ≡ some codec
      → VideoStep state (emit_pframe {Instant = Instant} codec nals pts state)
  unfolding emit_pframe
  emit_pframe-VideoStep codec [] pts state c = dropped-VideoStep state
  emit_pframe-VideoStep codec (nal ∷ nals) pts state c =
      send_video-VideoStep codec (nal ∷ nals) pts false (append_pframe (nal ∷ nals) ∷ []) state c
        (tt, tt)

  pframe_units-VideoStep :
      (codec : Option VideoCodec) (nals : List (List ℕ)) (pts : ℕ) (state : StreamTranslatorState)
      → state.detected_codec ≡ codec
      → VideoStep state (pframe_units {Instant = Instant} codec nals pts state)
  unfolding pframe_units
  pframe_units-VideoStep none nals pts state c = dropped-VideoStep state
  pframe_units-VideoStep (some codec) nals pts state c =
      emit_pframe-VideoStep codec (reorder codec nals) pts state c

  pub translate_pframe-VideoStep :
      (frame : BcMediaPframe) (state : StreamTranslatorState)
      → VideoStep state (translate_pframe {Instant = Instant} frame state)
  unfolding translate_pframe
  translate_pframe-VideoStep frame state =
      pframe_units-VideoStep state.detected_codec (split_annex_b frame.payload)
        (micros_to_90khz frame.microseconds) state refl
