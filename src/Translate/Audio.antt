-- ===== src/Translate/Audio.antt =====
-- Audio packets: `translate_aac` and `translate_adpcm` of src/stream_translate.rs. The logging is left out; what it
-- keeps in the state is not.
use bairelay.Base.{
  ℕ, ◌+◌, ◌-◌, ◌*◌, ◌/◌, ◌%◌, min, Bool, true, ◌||◌, List, [], ◌∷◌, ◌++◌, length, take, drop,
  Option, none, some, ltb, ◌==◌, if◌then◌else◌,
}
use bairelay.Bcmedia.Model.{BcMediaAac, BcMediaAdpcm}
use bairelay.Rtp.Dispatch
use bairelay.Audio.Aac.{
  AdtsHeader, parse_adts, build_audio_specific_config_hex, adts_header_len, aac_payload_type,
}
use bairelay.Base.Int.{ℤ}
use bairelay.Audio.Adpcm.{
  AdpcmResult, decoded, too_short, invalid_step_index, panicked, decode_block, decimate_16_to_8,
}
use bairelay.Audio.G711.{encode, g711_payload_type}
use bairelay.Translate.Model.{
  AudioCodec, aac, g711_ulaw, AudioParams, StreamTranslatorState, Emit, audio, sdp_audio,
  audio_seen,
}

unfoldable pub aac_samples_per_au : ℕ → Option ℕ
aac_samples_per_au aot =
    if aot == 2 then some 1024 else if aot == 5 || aot == 29 then some 2048 else none

-- In microseconds.
unfoldable pub paced_audio_duration : ℕ → ℕ → ℕ
paced_audio_duration samples sample_rate =
    if sample_rate == 0 then 0 else min (samples * 1000000) 18446744073709551615 / sample_rate

-- `saturating_mul` and `wrapping_add` of u32.
abbrev pub saturating_mul : ℕ → ℕ → ℕ
saturating_mul a b = min (a * b) 4294967295

abbrev pub wrapping_add : ℕ → ℕ → ℕ
wrapping_add a b = (a + b) % 4294967296

unfoldable pub aac_params : AdtsHeader → Option AudioParams
unfolding build_audio_specific_config_hex
aac_params header =
    elim (build_audio_specific_config_hex header.aot header.sample_rate header.channels) [
      | none ↦ none
      | some asc ↦ some record {
        codec = aac;
        payload_type = aac_payload_type;
        sample_rate = header.sample_rate;
        channels = header.channels;
        asc_hex = some asc;
      }
    ]

abbrev pub g711_params : AudioParams
g711_params = record {
  codec = g711_ulaw;
  payload_type = g711_payload_type;
  sample_rate = 8000;
  channels = 1;
  asc_hex = none;
}

module _ {Instant : Type 0} where
  -- The parameters are announced until that has succeeded once.
  unfoldable pub announce :
      Option AudioParams → StreamTranslatorState → List (Emit Instant) × StreamTranslatorState
  announce params state = if state.sdp_audio_emitted then ([], state) else elim params [
    | none ↦ ([], state)
    | some p ↦ (sdp_audio p ∷ [], record state { sdp_audio_emitted = true })
  ]

  -- The frame and the report of its presence, unless a gap is bridged.
  abbrev pub send_audio : Bool → Dispatch.Frame → ℕ → AudioCodec → List (Emit Instant)
  send_audio bridging frame pace codec =
      if bridging then [] else audio frame pace ∷ audio_seen codec ∷ []

  -- A body that is not empty, behind the announcement, with the samples of an access unit.
  unfoldable pub emit_au :
      Option ℕ
      → AdtsHeader
      → List ℕ
      → Bool
      → List (Emit Instant)
      → StreamTranslatorState
      → List (Emit Instant) × StreamTranslatorState
  unfolding paced_audio_duration
  emit_au none header au_data bridging emits state =
      (emits, record state { aac_aot = some header.aot })
  emit_au (some samples_per_au) header au_data bridging emits state =
      let pts_step = saturating_mul samples_per_au header.aac_frames in
      let payload = Dispatch.aac au_data header.sample_rate header.channels in
      (
        emits
            ++ send_audio bridging (Dispatch.audio payload state.aac_pts_next)
                (paced_audio_duration pts_step header.sample_rate) aac,
        record state {
          aac_aot = some header.aot;
          aac_pts_next = wrapping_add state.aac_pts_next pts_step;
        },
      )

  -- From the body on.
  unfoldable pub emit_body :
      AdtsHeader
      → List ℕ
      → Bool
      → List (Emit Instant)
      → StreamTranslatorState
      → List (Emit Instant) × StreamTranslatorState
  unfolding aac_samples_per_au emit_au
  emit_body header payload bridging emits state =
      let au_bytes_len = min (header.frame_length - adts_header_len) (length payload) in
      if au_bytes_len == 0
      then (emits, state)
      else emit_au (aac_samples_per_au header.aot) header (take au_bytes_len payload) bridging emits
          state

  -- What the parse of the ADTS header leads to.
  unfoldable pub emit_aac :
      Option AdtsHeader
      → List ℕ
      → StreamTranslatorState
      → Bool
      → List (Emit Instant) × StreamTranslatorState
  unfolding announce aac_params emit_body
  emit_aac none bytes state bridging = ([], state)
  emit_aac (some header) bytes state bridging =
      let announced = announce (aac_params header) state in
      if header.channels == 0
      then ([], record state { aac_aot = some header.aot })
      else if ltb (length bytes) adts_header_len || ltb header.frame_length adts_header_len
      then announced
      else emit_body header (drop adts_header_len bytes) bridging announced.0 announced.1

  unfoldable pub translate_aac :
      BcMediaAac → StreamTranslatorState → Bool → List (Emit Instant) × StreamTranslatorState
  unfolding parse_adts emit_aac
  translate_aac packet state bridging =
      emit_aac (parse_adts packet.payload) packet.payload state bridging

  -- The decimated samples.
  unfoldable pub emit_pcm :
      List ℤ → StreamTranslatorState → Bool → List (Emit Instant) × StreamTranslatorState
  unfolding announce paced_audio_duration encode
  emit_pcm [] state bridging = ([], state)
  emit_pcm (s ∷ pcm_8k) state bridging =
      let ulaw = encode (s ∷ pcm_8k) in
      let announced = announce (some g711_params) state in
      let sample_count = length ulaw % 4294967296 in
      (
        announced.0
            ++ send_audio bridging (Dispatch.audio (Dispatch.g711_ulaw ulaw) state.g711_pts_next)
                (paced_audio_duration sample_count 8000) g711_ulaw,
        record announced.1 { g711_pts_next = wrapping_add state.g711_pts_next sample_count },
      )

  -- An error drops the packet. A panic, which leaves nothing to go on with, does not happen.
  unfoldable pub emit_adpcm :
      AdpcmResult → StreamTranslatorState → Bool → List (Emit Instant) × StreamTranslatorState
  unfolding decimate_16_to_8 emit_pcm
  emit_adpcm (decoded pcm_16k) state bridging = emit_pcm (decimate_16_to_8 pcm_16k) state bridging
  emit_adpcm too_short state bridging = ([], state)
  emit_adpcm (invalid_step_index index) state bridging = ([], state)
  emit_adpcm panicked state bridging = ([], state)

  -- A fresh decoder for each packet.
  unfoldable pub translate_adpcm :
      BcMediaAdpcm → StreamTranslatorState → Bool → List (Emit Instant) × StreamTranslatorState
  unfolding decode_block emit_adpcm
  translate_adpcm packet state bridging = emit_adpcm (decode_block packet.payload) state bridging
