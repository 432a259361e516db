-- ===== src/Translate/SameCodec.antt =====
-- One codec for all video.
use bairelay.Base.{
  ℕ, ◌-◌, ◌%◌, take, ◌≡◌, refl, sym, ◌∙◌, subst, Bool, true, false, ◌||◌, List, [], ◌∷◌, ◌++◌, All,
  All-append, min, drop, length, Option, none, some, ltb, ◌==◌, Bool-cases, inl, inr,
}
use bairelay.Bcmedia.Model.{BcMedia, info_v1, info_v2, iframe, pframe, aac, adpcm}
use bairelay.Base.Int.{ℤ}
use bairelay.Audio.Aac.{AdtsHeader, adts_header_len, parse_adts}
use bairelay.Audio.Adpcm.{
  AdpcmResult, decoded, too_short, invalid_step_index, panicked, decode_block, decimate_16_to_8,
}
use bairelay.Rtp.Dispatch
use bairelay.Rtp.Dispatch.{VideoCodec}
use bairelay.Translate.Model
use bairelay.Translate.Model.{
  AudioCodec, AudioParams, StreamTranslatorState, Emit, video, audio, sdp_video, sdp_audio,
  replace_video_burst, append_pframe, audio_seen, Translated,
}
use bairelay.Audio.G711.{encode}
use bairelay.Translate.Video.{translate_iframe, translate_pframe}
use bairelay.Translate.Audio.{
  paced_audio_duration, saturating_mul, send_audio, aac_samples_per_au, g711_params, announce,
  aac_params, emit_au, emit_body, emit_aac, translate_aac, emit_pcm, emit_adpcm, translate_adpcm,
}
use bairelay.Translate.VideoOnly.{
  VideoOnly, Latched, Latched-trans, VideoStep, translate_iframe-VideoStep,
  translate_pframe-VideoStep,
}
use bairelay.Translate.{translate, translate_all, concat}

module _ {Instant : Type 0} where
  -- The video of an effect is of that codec, and its audio is audio.
  abbrev pub OfCodec : Option VideoCodec → Emit Instant → Type 0
  OfCodec detected (audio (Dispatch.audio payload pts) pace) = Unit {0}
  OfCodec detected (audio (Dispatch.video codec nals pts keyframe end) pace) = ⊥
  OfCodec detected (audio_seen codec) = Unit {0}
  OfCodec detected (sdp_audio p) = Unit {0}
  OfCodec detected (video (Dispatch.video codec nals pts keyframe end) pace) = some codec ≡ detected
  OfCodec detected (video (Dispatch.audio payload pts) pace) = ⊥
  OfCodec detected (sdp_video p) = some p.codec ≡ detected
  OfCodec detected (replace_video_burst b) = some b.capture.codec ≡ detected
  OfCodec detected (append_pframe nals) = Unit {0}

  OfCodec-VideoOnly :
      (o : Option VideoCodec) (emits : List (Emit Instant))
      → VideoOnly o emits
      → All (OfCodec o) emits
  OfCodec-VideoOnly o [] h = tt
  OfCodec-VideoOnly o (video (Dispatch.video c nals pts k end) pace ∷ emits) (h, hs) =
      (h, OfCodec-VideoOnly o emits hs)
  OfCodec-VideoOnly o (sdp_video p ∷ emits) (h, hs) = (h, OfCodec-VideoOnly o emits hs)
  OfCodec-VideoOnly o (replace_video_burst b ∷ emits) (h, hs) = (h, OfCodec-VideoOnly o emits hs)
  OfCodec-VideoOnly o (append_pframe nals ∷ emits) (h, hs) = (tt, OfCodec-VideoOnly o emits hs)
  OfCodec-VideoOnly o (video (Dispatch.audio payload pts) pace ∷ emits) h = absurd h.0
  OfCodec-VideoOnly o (audio frame pace ∷ emits) h = absurd h.0
  OfCodec-VideoOnly o (audio_seen codec ∷ emits) h = absurd h.0
  OfCodec-VideoOnly o (sdp_audio p ∷ emits) h = absurd h.0

  -- Nothing was sent before the codec was detected.
  OfCodec-none : (o : Option VideoCodec) (e : Emit Instant) → OfCodec none e → OfCodec o e
  OfCodec-none o (video (Dispatch.video c nals pts k end) pace) h = absurd (cc)
  OfCodec-none o (sdp_video p) h = absurd (cc)
  OfCodec-none o (replace_video_burst b) h = absurd (cc)
  OfCodec-none o (append_pframe nals) h = tt
  OfCodec-none o (video (Dispatch.audio payload pts) pace) h = absurd h
  OfCodec-none o (audio (Dispatch.audio payload pts) pace) h = tt
  OfCodec-none o (audio (Dispatch.video c nals pts k end) pace) h = absurd h
  OfCodec-none o (audio_seen codec) h = tt
  OfCodec-none o (sdp_audio p) h = tt

  OfCodec-Latched :
      (o o' : Option VideoCodec) (emits : List (Emit Instant))
      → Latched o o'
      → All (OfCodec o) emits
      → All (OfCodec o') emits
  OfCodec-Latched o o' emits (inr e) h = subst (λ c. All (OfCodec c) emits) e h
  OfCodec-Latched o o' [] (inl e) h = tt
  OfCodec-Latched o o' (x ∷ emits) (inl e) (h, hs) =
      (OfCodec-none o' x (subst (λ c. OfCodec c x) e h), OfCodec-Latched o o' emits (inl e) hs)

  -- Audio packets have effects on audio alone, and leave the detected codec as it is.
  abbrev pub AudioStep :
      StreamTranslatorState → List (Emit Instant) × StreamTranslatorState → Type 0
  AudioStep state r =
      ((o : Option VideoCodec) → All (OfCodec o) r.0) × (r.1.detected_codec ≡ state.detected_codec)

module _ (Instant : Type 0) where
  announce-AudioStep :
      (params : Option AudioParams) (state : StreamTranslatorState)
      → AudioStep state (announce {Instant = Instant} params state)
  unfolding announce
  announce-AudioStep none state = elim (Bool-cases state.sdp_audio_emitted) [
    | inl e ↦ simp (e) (λ o. tt, refl)
    | inr e ↦ simp (e) (λ o. tt, refl)
  ]
  announce-AudioStep (some p) state = elim (Bool-cases state.sdp_audio_emitted) [
    | inl e ↦ simp (e) (λ o. tt, refl)
    | inr e ↦ simp (e) (λ o. (tt, tt), refl)
  ]

  send_audio-OfCodec :
      (o : Option VideoCodec) (bridging : Bool) (emits : List (Emit Instant))
      (payload : Dispatch.AudioPayload) (pts pace : ℕ) (codec : AudioCodec)
      → All (OfCodec o) emits
      → All (OfCodec o) (emits ++ send_audio bridging (Dispatch.audio payload pts) pace codec)
  send_audio-OfCodec o true emits payload pts pace codec h = All-append (OfCodec o) emits [] h tt
  send_audio-OfCodec o false emits payload pts pace codec h =
      All-append (OfCodec o) emits (audio (Dispatch.audio payload pts) pace ∷ audio_seen codec ∷ [])
        h (tt, (tt, tt))

  emit_au-AudioStep :
      (samples : Option ℕ) (h : AdtsHeader) (au_data : List ℕ) (bridging : Bool)
      (emits : List (Emit Instant)) (state : StreamTranslatorState)
      → ((o : Option VideoCodec) → All (OfCodec o) emits)
      → AudioStep state (emit_au samples h au_data bridging emits state)
  unfolding emit_au
  emit_au-AudioStep none h au_data bridging emits state k = (k, refl)
  emit_au-AudioStep (some n) h au_data bridging emits state k = (
    λ o.
        send_audio-OfCodec o bridging emits (Dispatch.aac au_data h.sample_rate h.channels)
          state.aac_pts_next (paced_audio_duration (saturating_mul n h.aac_frames) h.sample_rate)
          Model.aac (k o),
    refl,
  )

  pub emit_aac-AudioStep :
      (header : Option AdtsHeader) (bytes : List ℕ) (state : StreamTranslatorState)
      (bridging : Bool)
      → AudioStep state (emit_aac {Instant = Instant} header bytes state bridging)
  unfolding emit_aac emit_body
  emit_aac-AudioStep none bytes state bridging = (λ o. tt, refl)
  emit_aac-AudioStep (some h) bytes state bridging =
      let (k, same) = announce-AudioStep (aac_params h) state in
      let announced = announce {Instant = Instant} (aac_params h) state in
      elim (Bool-cases (h.channels == 0)) [
        | inl e ↦ rw e (λ o. tt, refl)
        | inr e ↦
            rw e
              (elim (Bool-cases
                (ltb (length bytes) adts_header_len || ltb h.frame_length adts_header_len)) [
                  | inl f ↦ rw f (k, same)
                  | inr f ↦
                      rw f
                        (elim (Bool-cases (min (h.frame_length - 7) (length (drop 7 bytes)) == 0)) [
                          | inl g ↦ rw g (k, same)
                          | inr g ↦
                              let au_data =
                                take (min (h.frame_length - 7) (length (drop 7 bytes)))
                                  (drop 7 bytes) in
                              let r =
                                emit_au-AudioStep (aac_samples_per_au h.aot) h au_data bridging
                                  announced.0 announced.1 k in
                              rw g (r.0, r.1 ∙ same)
                        ])
                ])
      ]

  emit_pcm-AudioStep :
      (pcm : List ℤ) (state : StreamTranslatorState) (bridging : Bool)
      → AudioStep state (emit_pcm {Instant = Instant} pcm state bridging)
  unfolding emit_pcm
  emit_pcm-AudioStep [] state bridging = (λ o. tt, refl)
  emit_pcm-AudioStep (s ∷ pcm) state bridging =
      let (k, same) = announce-AudioStep (some g711_params) state in
      let ulaw = encode (s ∷ pcm) in
      (
        λ o.
            send_audio-OfCodec o bridging (announce (some g711_params) state).0
              (Dispatch.g711_ulaw ulaw) state.g711_pts_next
              (paced_audio_duration (length ulaw % 4294967296) 8000) Model.g711_ulaw (k o),
        same,
      )

  pub emit_adpcm-AudioStep :
      (r : AdpcmResult) (state : StreamTranslatorState) (bridging : Bool)
      → AudioStep state (emit_adpcm {Instant = Instant} r state bridging)
  unfolding emit_adpcm
  emit_adpcm-AudioStep (decoded pcm) state bridging =
      emit_pcm-AudioStep (decimate_16_to_8 pcm) state bridging
  emit_adpcm-AudioStep too_short state bridging = (λ o. tt, refl)
  emit_adpcm-AudioStep (invalid_step_index index) state bridging = (λ o. tt, refl)
  emit_adpcm-AudioStep panicked state bridging = (λ o. tt, refl)

  -- One packet.
  abbrev pub CodecStep : StreamTranslatorState → Translated Instant → Type 0
  CodecStep state r =
      All (OfCodec r.state.detected_codec) r.emits
      × Latched state.detected_codec r.state.detected_codec

  VideoStep-CodecStep :
      (state : StreamTranslatorState) (r : Translated Instant)
      → VideoStep state r
      → CodecStep state r
  VideoStep-CodecStep state r (v, a, l) = (OfCodec-VideoOnly r.state.detected_codec r.emits v, l)

  AudioStep-CodecStep :
      (state : StreamTranslatorState) (r : List (Emit Instant) × StreamTranslatorState)
      → AudioStep state r
      → CodecStep state (record { emits = r.0; video_pts = none; state = r.1 })
  AudioStep-CodecStep state r (k, same) = (k r.1.detected_codec, inr (sym same))

  pub translate-CodecStep :
      (packet : BcMedia) (state : StreamTranslatorState) (now : Instant) (bridging : Bool)
      → CodecStep state (translate packet state now bridging)
  unfolding translate translate_aac translate_adpcm
  translate-CodecStep (iframe frame) state now bridging =
      VideoStep-CodecStep state (translate_iframe frame state now)
        (translate_iframe-VideoStep Instant frame state now)
  translate-CodecStep (pframe frame) state now bridging =
      VideoStep-CodecStep state (translate_pframe frame state)
        (translate_pframe-VideoStep Instant frame state)
  translate-CodecStep (aac packet) state now bridging =
      AudioStep-CodecStep state (translate_aac packet state bridging)
        (emit_aac-AudioStep (parse_adts packet.payload) packet.payload state bridging)
  translate-CodecStep (adpcm packet) state now bridging =
      AudioStep-CodecStep state (translate_adpcm packet state bridging)
        (emit_adpcm-AudioStep (decode_block packet.payload) state bridging)
  translate-CodecStep (info_v1 info) state now bridging = (tt, inr refl)
  translate-CodecStep (info_v2 info) state now bridging = (tt, inr refl)

  -- Whatever packets come, all video frames, video parameters and bursts that are sent have the
  -- codec that is detected in the end; a codec that was detected at the start stays.
  pub translate_all-OfCodec :
      (packets : List (BcMedia × Instant × Bool)) (state : StreamTranslatorState)
      → let r = translate_all packets state in
        All (OfCodec r.1.detected_codec) (concat r.0)
        × Latched state.detected_codec r.1.detected_codec
  unfolding translate_all
  translate_all-OfCodec [] state = (tt, inr refl)
  translate_all-OfCodec ((packet, now, bridging) ∷ packets) state =
      let r = translate packet state now bridging in
      let rest = translate_all packets r.state in
      let (own, l) = translate-CodecStep packet state now bridging in
      let (more, k) = translate_all-OfCodec packets r.state in
      (
        All-append (OfCodec rest.1.detected_codec) r.emits (concat rest.0)
            (OfCodec-Latched r.state.detected_codec rest.1.detected_codec r.emits k own) more,
        Latched-trans state.detected_codec r.state.detected_codec rest.1.detected_codec l k,
      )
