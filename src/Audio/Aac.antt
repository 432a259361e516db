-- ===== src/Audio/Aac.antt =====
-- ADTS headers and the AudioSpecificConfig of AAC: src/rtsp/codec/aac.rs. A byte is a number below 256; bits that
-- do not overlap are joined by addition.
pub mod Config
use bairelay.Base.{
  ℕ, ◌+◌, ◌*◌, ◌/◌, ◌%◌, Bool, true, false, not, ◌&&◌, ◌||◌, List, [], ◌∷◌, ◌++◌, Option, none,
  some, get_elem?, ltb, leb, ◌==◌, if◌then◌else◌,
}

unfoldable pub sample_rate_index : ℕ → Option ℕ
sample_rate_index hz =
    if hz == 96000
    then some 0
    else if hz == 88200
    then some 1
    else if hz == 64000
    then some 2
    else if hz == 48000
    then some 3
    else if hz == 44100
    then some 4
    else if hz == 32000
    then some 5
    else if hz == 24000
    then some 6
    else if hz == 22050
    then some 7
    else if hz == 16000
    then some 8
    else if hz == 12000
    then some 9
    else if hz == 11025
    then some 10
    else if hz == 8000
    then some 11
    else if hz == 7350
    then some 12
    else none

-- `{:X}` of a number below 16, as its ASCII byte.
abbrev hex_digit : ℕ → ℕ
hex_digit n = if ltb n 10 then 48 + n else 55 + n

-- `{:02X}`
unfoldable pub hex_byte : ℕ → List ℕ
hex_byte b = hex_digit (b / 16) ∷ hex_digit (b % 16) ∷ []

-- The two bytes of the configuration.
unfoldable pub audio_specific_config : ℕ → ℕ → ℕ → Option (ℕ × ℕ)
unfolding sample_rate_index
audio_specific_config aot sample_rate channels =
    if leb 1 aot && leb aot 29
    then elim (sample_rate_index sample_rate) [
      | none ↦ none
      | some sr_idx ↦
          if channels == 0 || ltb 7 channels
          then none
          else let bits = aot % 32 * 2048 + sr_idx % 16 * 128 + channels % 16 * 8 in
            some (bits / 256 % 256, bits % 256)
    ]
    else none

unfoldable pub build_audio_specific_config_hex : ℕ → ℕ → ℕ → Option (List ℕ)
unfolding audio_specific_config hex_byte
build_audio_specific_config_hex aot sample_rate channels =
    elim (audio_specific_config aot sample_rate channels) [
      | none ↦ none
      | some (b0, b1) ↦ some (hex_byte b0 ++ hex_byte b1)
    ]

pub record AdtsHeader : Type 0 where
  pub aot : ℕ
  pub sample_rate : ℕ
  pub channels : ℕ
  pub frame_length : ℕ
  pub aac_frames : ℕ

abbrev pub adts_header_len : ℕ
adts_header_len = 7

abbrev pub aac_payload_type : ℕ
aac_payload_type = 97

abbrev sample_rates : List ℕ
sample_rates =
    96000 ∷ 88200 ∷ 64000 ∷ 48000 ∷ 44100 ∷ 32000 ∷ 24000 ∷ 22050 ∷ 16000 ∷ 12000 ∷ 11025 ∷ 8000
    ∷ 7350 ∷ []

-- The parse of the seven bytes.
unfoldable pub adts_fields : ℕ → ℕ → ℕ → ℕ → ℕ → ℕ → ℕ → Option AdtsHeader
adts_fields b0 b1 b2 b3 b4 b5 b6 =
    if not (b0 == 0xFF) || not (b1 / 16 * 16 == 0xF0)
    then none
    else let frame_length = b3 % 4 * 2048 + b4 * 8 + b5 / 32 % 8 in
      if ltb frame_length adts_header_len
      then none
      else elim (get_elem? sample_rates (b2 / 4 % 16)) [
        | none ↦ none
        | some sample_rate ↦ some record {
          aot = b2 / 64 % 4 + 1;
          sample_rate = sample_rate;
          channels = b2 % 2 * 4 + b3 / 64 % 4;
          frame_length = frame_length;
          aac_frames = b6 % 4 + 1;
        }
      ]

unfoldable pub parse_adts : List ℕ → Option AdtsHeader
unfolding adts_fields
parse_adts (b0 ∷ b1 ∷ b2 ∷ b3 ∷ b4 ∷ b5 ∷ b6 ∷ body) = adts_fields b0 b1 b2 b3 b4 b5 b6
parse_adts short = none
