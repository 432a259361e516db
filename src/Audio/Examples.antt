-- ===== src/Audio/Examples.antt =====
-- Concrete inputs of the audio codecs.
use bairelay.Base.{ℕ, List, [], ◌∷◌, arith}
use bairelay.Audio.Aac.{AdtsHeader}
use bairelay.Audio.Adpcm.{decode_block}
use bairelay.Audio.Adpcm.Bounds.{Outcome, decode_block-Outcome}

-- AAC-LC, 16 kHz, mono.
abbrev header : AdtsHeader
header = record { aot = 2; sample_rate = 16000; channels = 1; frame_length = 9; aac_frames = 1 }

abbrev block : List ℕ
block = 0x10 ∷ 0xFF ∷ 88 ∷ 0 ∷ 0x7F ∷ 0x80 ∷ []

decode_block-Outcome_example : Outcome block (decode_block block)
decode_block-Outcome_example = decode_block-Outcome block (omega arith)
