-- ===== src/Translate/Announced.antt =====
-- The audio parameters are announced once, ahead of the audio.
use bairelay.Base.{
  ℕ, ◌-◌, ◌%◌, ◌≡◌, ◌≢◌, refl, sym, subst, Bool, true, false, ◌||◌, List, [], ◌∷◌, ◌++◌, min, drop,
  length, Option, none, some, ltb, ◌==◌, Bool-cases, inl, inr, arith,
}
use bairelay.Bcmedia.Model.{BcMedia, info_v1, info_v2, iframe, pframe, aac, adpcm}
use bairelay.Base.Int.{ℤ}
use bairelay.Audio.Aac.{
  AdtsHeader, adts_header_len, aac_payload_type, hex_byte, parse_adts,
  build_audio_specific_config_hex,
}
use bairelay.Audio.Aac.Config.{Describes, audio_specific_config-parse_adts}
use bairelay.Audio.Adpcm.{
  AdpcmResult, decoded, too_short, invalid_step_index, panicked, decode_block, decimate_16_to_8,
}
use bairelay.Rtp.Dispatch
use bairelay.Translate.Model
use bairelay.Translate.Model.{
  AudioCodec, Translated, StreamTranslatorState, Emit, video, audio, sdp_video, sdp_audio,
  replace_video_burst, append_pframe, audio_seen, AudioParams,
}
use bairelay.Audio.G711.{encode}
use bairelay.Translate.Audio.{
  paced_audio_duration, send_audio, aac_samples_per_au, g711_params, announce, aac_params, emit_au,
  emit_body, emit_aac, translate_aac, emit_pcm, emit_adpcm, translate_adpcm,
}
use bairelay.Translate.Video.{translate_iframe, translate_pframe}
use bairelay.Translate.VideoOnly.{
  VideoOnly, VideoStep, translate_iframe-VideoStep, translate_pframe-VideoStep,
}
use bairelay.Translate.{translate, translate_all, concat}

module _ {Instant : Type 0} where
  -- Effects that announce the audio only if it was not announced, have audio only once it is, and leave it
  -- announced or not.
  abbrev pub Announced : Bool → List (Emit Instant) → Bool → Type 0
  Announced before [] after = before ≡ after
  Announced before (sdp_audio p ∷ emits) after = (before ≡ false) × Announced true emits after
  Announced before (audio frame pace ∷ emits) after = (before ≡ true) × Announced before emits after
  Announced before (audio_seen codec ∷ emits) after = (before ≡ true) × Announced before emits after
  Announced before (video frame pace ∷ emits) after = Announced before emits after
  Announced before (sdp_video p ∷ emits) after = Announced before emits after
  Announced before (replace_video_burst b ∷ emits) after = Announced before emits after
  Announced before (append_pframe nals ∷ emits) after = Announced before emits after

  Announced-append :
      (x y z : Bool) (a b : List (Emit Instant))
      → Announced x a y
      → Announced y b z
      → Announced x (a ++ b) z
  Announced-append x y z [] b h k = subst (λ s. Announced s b z) (sym h) k
  Announced-append x y z (sdp_audio p ∷ a) b (h, hs) k = (h, Announced-append true y z a b hs k)
  Announced-append x y z (audio frame pace ∷ a) b (h, hs) k = (h, Announced-append x y z a b hs k)
  Announced-append x y z (audio_seen codec ∷ a) b (h, hs) k = (h, Announced-append x y z a b hs k)
  Announced-append x y z (video frame pace ∷ a) b h k = Announced-append x y z a b h k
  Announced-append x y z (sdp_video p ∷ a) b h k = Announced-append x y z a b h k
  Announced-append x y z (replace_video_burst r ∷ a) b h k = Announced-append x y z a b h k
  Announced-append x y z (append_pframe nals ∷ a) b h k = Announced-append x y z a b h k

  VideoOnly-Announced :
      (x : Bool) (detected : Option Dispatch.VideoCodec) (emits : List (Emit Instant))
      → VideoOnly detected emits
      → Announced x emits x
  VideoOnly-Announced x d [] h = refl
  VideoOnly-Announced x d (video frame pace ∷ emits) h = VideoOnly-Announced x d emits h.1
  VideoOnly-Announced x d (sdp_video p ∷ emits) h = VideoOnly-Announced x d emits h.1
  VideoOnly-Announced x d (replace_video_burst r ∷ emits) h = VideoOnly-Announced x d emits h.1
  VideoOnly-Announced x d (append_pframe nals ∷ emits) h = VideoOnly-Announced x d emits h.1
  VideoOnly-Announced x d (audio frame pace ∷ emits) h = absurd h.0
  VideoOnly-Announced x d (audio_seen codec ∷ emits) h = absurd h.0
  VideoOnly-Announced x d (sdp_audio p ∷ emits) h = absurd h.0

module _ (Instant : Type 0) where
  -- A packet's effects and the state it leaves, from a state where the audio is announced or not.
  abbrev Keeps : Bool → List (Emit Instant) × StreamTranslatorState → Type 0
  Keeps before r = Announced before r.0 r.1.sdp_audio_emitted

  announce-Announced :
      (p : AudioParams) (state : StreamTranslatorState)
      → Keeps state.sdp_audio_emitted (announce (some p) state)
        × ((announce {Instant = Instant} (some p) state).1.sdp_audio_emitted ≡ true)
  unfolding announce
  announce-Announced p state = elim (Bool-cases state.sdp_audio_emitted) [
    | inl e ↦ simp (e) (refl, refl)
    | inr e ↦ simp (e) ((refl, refl), refl)
  ]

  aac_params-some : (h : AdtsHeader) → Describes h → (p : AudioParams) × (aac_params h ≡ some p)
  unfolding aac_params build_audio_specific_config_hex
  aac_params-some h d =
      let c = d.2 in
      (
        record {
          codec = Model.aac;
          payload_type = aac_payload_type;
          sample_rate = h.sample_rate;
          channels = h.channels;
          asc_hex = some (hex_byte d.0 ++ hex_byte d.1);
        },
        rw (c, aac_params, build_audio_specific_config_hex) refl,
      )

  -- The audio stands behind the announcement.
  send_audio-Announced :
      (before bridging : Bool) (emits : List (Emit Instant)) (frame : Dispatch.Frame) (pace : ℕ)
      (codec : AudioCodec)
      → Announced before emits true
      → Announced before (emits ++ send_audio bridging frame pace codec) true
  send_audio-Announced before true emits frame pace codec h =
      Announced-append before true true emits [] h refl
  send_audio-Announced before false emits frame pace codec h =
      Announced-append before true true emits (audio frame pace ∷ audio_seen codec ∷ []) h
        (refl, (refl, refl))

  emit_au-Announced :
      (samples : Option ℕ) (h : AdtsHeader) (au_data : List ℕ) (bridging before : Bool)
      (emits : List (Emit Instant)) (state : StreamTranslatorState)
      → Announced before emits state.sdp_audio_emitted
      → state.sdp_audio_emitted ≡ true
      → Keeps before (emit_au samples h au_data bridging emits state)
  unfolding emit_au
  emit_au-Announced none h au_data bridging before emits state k e = k
  emit_au-Announced (some n) h au_data bridging before emits state k e =
      subst (λ s. Announced before (emit_au (some n) h au_data bridging emits state).0 s) (sym e)
        (send_audio-Announced before bridging emits _ _ _ (subst (Announced before emits) e k))

  emit_aac-Announced :
      (header : Option AdtsHeader) (bytes : List ℕ) (state : StreamTranslatorState)
      (bridging : Bool)
      → ((h : AdtsHeader) → header ≡ some h → h.channels ≢ 0 → Describes h)
      → Keeps state.sdp_audio_emitted (emit_aac header bytes state bridging)
  unfolding emit_aac emit_body
  emit_aac-Announced none bytes state bridging described = refl
  emit_aac-Announced (some h) bytes state bridging described = elim (Bool-cases (h.channels == 0)) [
    | inl e ↦ rw e refl
    | inr e ↦
        let (p, params) = aac_params-some h (described h refl (ground (arith, e))) in
        let (k, on) = announce-Announced p state in
        rw (e, params)
          (elim (Bool-cases
            (ltb (length bytes) adts_header_len || ltb h.frame_length adts_header_len)) [
              | inl f ↦ rw f k
              | inr f ↦
                  rw f (elim (Bool-cases (min (h.frame_length - 7) (length (drop 7 bytes)) == 0)) [
                    | inl g ↦ rw g k
                    | inr g ↦ rw g (
                        emit_au-Announced (aac_samples_per_au h.aot) h _ bridging
                          state.sdp_audio_emitted _ _ k on)
                  ])
            ])
  ]

  emit_pcm-Announced :
      (pcm : List ℤ) (state : StreamTranslatorState) (bridging : Bool)
      → Keeps state.sdp_audio_emitted (emit_pcm pcm state bridging)
  unfolding emit_pcm
  emit_pcm-Announced [] state bridging = refl
  emit_pcm-Announced (s ∷ pcm) state bridging =
      let before = state.sdp_audio_emitted in
      let announced = announce {Instant = Instant} (some g711_params) state in
      let (k, on) = announce-Announced g711_params state in
      let ulaw = encode (s ∷ pcm) in
      subst (λ b. Announced before (emit_pcm {Instant = Instant} (s ∷ pcm) state bridging).0 b)
        (sym on)
        (send_audio-Announced before bridging announced.0
          (Dispatch.audio (Dispatch.g711_ulaw ulaw) state.g711_pts_next)
          (paced_audio_duration (length ulaw % 4294967296) 8000) Model.g711_ulaw
          (subst (Announced before announced.0) on k))

  emit_adpcm-Announced :
      (r : AdpcmResult) (state : StreamTranslatorState) (bridging : Bool)
      → Keeps state.sdp_audio_emitted (emit_adpcm r state bridging)
  unfolding emit_adpcm
  emit_adpcm-Announced (decoded pcm) state bridging =
      emit_pcm-Announced (decimate_16_to_8 pcm) state bridging
  emit_adpcm-Announced too_short state bridging = refl
  emit_adpcm-Announced (invalid_step_index index) state bridging = refl
  emit_adpcm-Announced panicked state bridging = refl

  VideoStep-Announced :
      (state : StreamTranslatorState) (r : Translated Instant)
      → VideoStep state r
      → Announced state.sdp_audio_emitted r.emits r.state.sdp_audio_emitted
  VideoStep-Announced state r (v, a, l) =
      subst (Announced state.sdp_audio_emitted r.emits) (sym a)
        (VideoOnly-Announced state.sdp_audio_emitted r.state.detected_codec r.emits v)

  pub translate-Announced :
      (packet : BcMedia) (state : StreamTranslatorState) (now : Instant) (bridging : Bool)
      → let r = translate packet state now bridging in
        Announced state.sdp_audio_emitted r.emits r.state.sdp_audio_emitted
  unfolding translate translate_aac translate_adpcm
  translate-Announced (iframe frame) state now bridging =
      VideoStep-Announced state (translate_iframe frame state now)
        (translate_iframe-VideoStep Instant frame state now)
  translate-Announced (pframe frame) state now bridging =
      VideoStep-Announced state (translate_pframe frame state)
        (translate_pframe-VideoStep Instant frame state)
  translate-Announced (aac packet) state now bridging =
      emit_aac-Announced (parse_adts packet.payload) packet.payload state bridging
        (audio_specific_config-parse_adts packet.payload)
  translate-Announced (adpcm packet) state now bridging =
      emit_adpcm-Announced (decode_block packet.payload) state bridging
  translate-Announced (info_v1 info) state now bridging = refl
  translate-Announced (info_v2 info) state now bridging = refl

  -- Whatever packets come, the audio parameters are announced only if they were not before, so
  -- once at most, every audio frame and every report of one comes behind the announcement, and
  -- sdp_audio_emitted says just whether there was one.
  pub translate_all-Announced :
      (packets : List (BcMedia × Instant × Bool)) (state : StreamTranslatorState)
      → let r = translate_all packets state in
        Announced state.sdp_audio_emitted (concat r.0) r.1.sdp_audio_emitted
  unfolding translate_all
  translate_all-Announced [] state = refl
  translate_all-Announced ((packet, now, bridging) ∷ packets) state =
      let r = translate packet state now bridging in
      let rest = translate_all packets r.state in
      Announced-append state.sdp_audio_emitted r.state.sdp_audio_emitted rest.1.sdp_audio_emitted
        r.emits (concat rest.0) (translate-Announced packet state now bridging)
        (translate_all-Announced packets r.state)
