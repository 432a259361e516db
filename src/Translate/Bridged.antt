-- ===== src/Translate/Bridged.antt =====
-- What the bridging of a gap takes out of a stream.
use bairelay.Base.{
  ℕ, ◌≡◌, refl, sym, ap, ◌-◌, min, drop, not, Bool, true, false, ◌||◌, List, [], ◌∷◌, ◌++◌, filter,
  map, length, Option, none, some, ltb, ◌==◌, Bool-cases, Option-cases, inl, inr,
}
use bairelay.Bcmedia.Model.{BcMedia, info_v1, info_v2, iframe, pframe, aac, adpcm}
use bairelay.Audio.Aac.{parse_adts, AdtsHeader, adts_header_len}
use bairelay.Base.Int.{ℤ}
use bairelay.Audio.Adpcm.{
  AdpcmResult, decoded, too_short, invalid_step_index, panicked, decode_block, decimate_16_to_8,
}
use bairelay.Rtp.Dispatch.{VideoCodec}
use bairelay.Translate.Model.{
  StreamTranslatorState, Emit, video, audio, sdp_video, sdp_audio, replace_video_burst,
  append_pframe, audio_seen, AudioParams,
}
use bairelay.Translate.Audio.{
  g711_params, announce, emit_au, emit_body, emit_aac, translate_aac, emit_pcm, emit_adpcm,
  translate_adpcm,
}
use bairelay.Translate.VideoOnly.{VideoOnly, translate_iframe-VideoStep, translate_pframe-VideoStep}
use bairelay.Translate.{translate, translate_all}

module _ {Instant : Type 0} where
  -- An audio frame or the report of its presence.
  abbrev pub is_audio : Emit Instant → Bool
  is_audio (audio frame pace) = true
  is_audio (audio_seen codec) = true
  is_audio (video frame pace) = false
  is_audio (sdp_video p) = false
  is_audio (sdp_audio p) = false
  is_audio (replace_video_burst b) = false
  is_audio (append_pframe nals) = false

  abbrev pub not_audio : List (Emit Instant) → List (Emit Instant)
  not_audio emits = filter (λ e. not (is_audio e)) emits

  abbrev pub live : BcMedia × Instant × Bool → BcMedia × Instant × Bool
  live (packet, now, bridging) = (packet, now, false)

  -- The effects of a stream without gaps, less the audio of the packets that come in a gap.
  abbrev pub gate :
      List (BcMedia × Instant × Bool) → List (List (Emit Instant)) → List (List (Emit Instant))
  gate [] emits = emits
  gate (packet ∷ packets) [] = []
  gate ((packet, now, true) ∷ packets) (e ∷ emits) = not_audio e ∷ gate packets emits
  gate ((packet, now, false) ∷ packets) (e ∷ emits) = e ∷ gate packets emits

  announce-not_audio :
      (params : Option AudioParams) (state : StreamTranslatorState) (more : List (Emit Instant))
      → not_audio ((announce params state).0 ++ more) ≡ (announce params state).0 ++ not_audio more
  unfolding announce
  announce-not_audio params state more = elim (Bool-cases state.sdp_audio_emitted) [
    | inl e ↦ simp (e)
    | inr e ↦ elim (Option-cases params) [ inl n ↦ simp (e, n) | inr (p, n) ↦ simp (e, n) ]
  ]

  announced-Gated :
      (params : Option AudioParams) (state : StreamTranslatorState)
      → not_audio (announce {Instant = Instant} params state).0 ≡ (announce params state).0
  unfolding announce
  announced-Gated params state = elim (Bool-cases state.sdp_audio_emitted) [
    | inl e ↦ simp (e)
    | inr e ↦ elim (Option-cases params) [ inl n ↦ simp (e, n) | inr (p, n) ↦ simp (e, n) ]
  ]

  abbrev Gated : (Bool → List (Emit Instant) × StreamTranslatorState) → Type 0
  Gated f = ((f true).0 ≡ not_audio (f false).0) × ((f true).1 ≡ (f false).1)

  emit_au-Gated :
      (samples : Option ℕ) (header : AdtsHeader) (au_data : List ℕ) (params : Option AudioParams)
      (state : StreamTranslatorState)
      → let announced = announce {Instant = Instant} params state in
        Gated (λ b. emit_au samples header au_data b announced.0 announced.1)
  unfolding emit_au
  emit_au-Gated none header au_data params state = (sym (announced-Gated params state), refl)
  emit_au-Gated (some n) header au_data params state =
      (sym (announce-not_audio params state _), refl)

  emit_aac-Gated :
      (header : Option AdtsHeader) (bytes : List ℕ) (state : StreamTranslatorState)
      → Gated (emit_aac header bytes state)
  unfolding emit_aac emit_body
  emit_aac-Gated none bytes state = (refl, refl)
  emit_aac-Gated (some header) bytes state = elim (Bool-cases (header.channels == 0)) [
    | inl e ↦ rw e (refl, refl)
    | inr e ↦
        rw e
          (elim (Bool-cases
            (ltb (length bytes) adts_header_len || ltb header.frame_length adts_header_len)) [
              | inl f ↦ rw f (sym (announced-Gated _ state), refl)
              | inr f ↦
                  rw f
                    (elim (Bool-cases
                      (min (header.frame_length - 7) (length (drop 7 bytes)) == 0)) [
                        | inl g ↦ rw g (sym (announced-Gated _ state), refl)
                        | inr g ↦ rw g (emit_au-Gated _ header _ _ state)
                      ])
            ])
  ]

  emit_adpcm-Gated : (r : AdpcmResult) (state : StreamTranslatorState) → Gated (emit_adpcm r state)
  unfolding emit_adpcm
  emit_adpcm-Gated (decoded pcm) state = pcm-Gated (decimate_16_to_8 pcm)
    where
      pcm-Gated : (s : List ℤ) → Gated (emit_pcm s state)
      pcm-Gated [] = (refl, refl)
      pcm-Gated (s ∷ pcm_8k) = (sym (announce-not_audio (some g711_params) state _), refl)
  emit_adpcm-Gated too_short state = (refl, refl)
  emit_adpcm-Gated (invalid_step_index index) state = (refl, refl)
  emit_adpcm-Gated panicked state = (refl, refl)

  not_audio-VideoOnly :
      (detected : Option VideoCodec) (emits : List (Emit Instant))
      → VideoOnly detected emits
      → not_audio emits ≡ emits
  not_audio-VideoOnly d [] h = refl
  not_audio-VideoOnly d (video frame pace ∷ emits) h =
      ap (◌∷◌ (video frame pace)) (not_audio-VideoOnly d emits h.1)
  not_audio-VideoOnly d (sdp_video p ∷ emits) h =
      ap (◌∷◌ (sdp_video p)) (not_audio-VideoOnly d emits h.1)
  not_audio-VideoOnly d (replace_video_burst b ∷ emits) h =
      ap (◌∷◌ (replace_video_burst b)) (not_audio-VideoOnly d emits h.1)
  not_audio-VideoOnly d (append_pframe nals ∷ emits) h =
      ap (◌∷◌ (append_pframe nals)) (not_audio-VideoOnly d emits h.1)
  not_audio-VideoOnly d (audio frame pace ∷ emits) h = absurd h.0
  not_audio-VideoOnly d (audio_seen codec ∷ emits) h = absurd h.0
  not_audio-VideoOnly d (sdp_audio p ∷ emits) h = absurd h.0

  translate-Gated :
      (packet : BcMedia) (state : StreamTranslatorState) (now : Instant)
      → let on = translate packet state now true in
        let off = translate packet state now false in
        (on.emits ≡ not_audio off.emits) × (on.state ≡ off.state)
  unfolding translate translate_aac translate_adpcm
  translate-Gated (iframe frame) state now =
      (sym (not_audio-VideoOnly _ _ (translate_iframe-VideoStep Instant frame state now).0), refl)
  translate-Gated (pframe frame) state now =
      (sym (not_audio-VideoOnly _ _ (translate_pframe-VideoStep Instant frame state).0), refl)
  translate-Gated (aac packet) state now =
      emit_aac-Gated (parse_adts packet.payload) packet.payload state
  translate-Gated (adpcm packet) state now = emit_adpcm-Gated (decode_block packet.payload) state
  translate-Gated (info_v1 info) state now = (refl, refl)
  translate-Gated (info_v2 info) state now = (refl, refl)

  -- Bridging a gap only mutes: whatever packets come, and whenever gaps are bridged, the state
  -- ends as it would without them, timestamps included, and the effects are the same, but that
  -- those of a packet in a gap have no audio frame and no report of one.
  pub translate_all-gate :
      (packets : List (BcMedia × Instant × Bool)) (state : StreamTranslatorState)
      → ((translate_all packets state).0 ≡ gate packets (translate_all (map live packets) state).0)
        × ((translate_all packets state).1 ≡ (translate_all (map live packets) state).1)
  unfolding translate_all
  translate_all-gate [] state = (refl, refl)
  translate_all-gate ((packet, now, false) ∷ packets) state =
      let s = (translate packet state now false).state in
      let e = (translate packet state now false).emits in
      (ap (◌∷◌ e) (translate_all-gate packets s).0, (translate_all-gate packets s).1)
  translate_all-gate ((packet, now, true) ∷ packets) state =
      let (e, f) = translate-Gated packet state now in
      let s = (translate packet state now false).state in
      let kept = not_audio (translate packet state now false).emits in
      rw (e, f) (ap (◌∷◌ kept) (translate_all-gate packets s).0, (translate_all-gate packets s).1)
