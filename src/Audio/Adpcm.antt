-- ===== src/Audio/Adpcm.antt =====
-- The IMA ADPCM decoder of src/rtsp/transcode/adpcm.rs and the decimation of src/rtsp/transcode/resample.rs. A sample
-- is an integer; the step index, which is never negative, is a number.
pub mod Bounds
use bairelay.Base.{
  ℕ, zero, suc, ◌+◌, ◌-◌, ◌*◌, ◌/◌, ◌%◌, ◌≤◌, min, Bool, true, false, List, [], ◌∷◌, Option, none,
  some, get_elem?, ltb, leb, ◌==◌, if◌then◌else◌,
}
use bairelay.Base.Int.{ℤ, pos, negsuc, sub_ℕ, ◌+ℤ◌, ◌-ℤ◌}

abbrev pub step_table : List ℕ
step_table =
    7 ∷ 8 ∷ 9 ∷ 10 ∷ 11 ∷ 12 ∷ 13 ∷ 14 ∷ 16 ∷ 17 ∷ 19 ∷ 21 ∷ 23 ∷ 25 ∷ 28 ∷ 31 ∷ 34 ∷ 37 ∷ 41 ∷ 45
    ∷ 50 ∷ 55 ∷ 60 ∷ 66 ∷ 73 ∷ 80 ∷ 88 ∷ 97 ∷ 107 ∷ 118 ∷ 130 ∷ 143 ∷ 157 ∷ 173 ∷ 190 ∷ 209 ∷ 230
    ∷ 253 ∷ 279 ∷ 307 ∷ 337 ∷ 371 ∷ 408 ∷ 449 ∷ 494 ∷ 544 ∷ 598 ∷ 658 ∷ 724 ∷ 796 ∷ 876 ∷ 963 ∷ 1060
    ∷ 1166 ∷ 1282 ∷ 1411 ∷ 1552 ∷ 1707 ∷ 1878 ∷ 2066 ∷ 2272 ∷ 2499 ∷ 2749 ∷ 3024 ∷ 3327 ∷ 3660
    ∷ 4026 ∷ 4428 ∷ 4871 ∷ 5358 ∷ 5894 ∷ 6484 ∷ 7132 ∷ 7845 ∷ 8630 ∷ 9493 ∷ 10442 ∷ 11487 ∷ 12635
    ∷ 13899 ∷ 15289 ∷ 16818 ∷ 18500 ∷ 20350 ∷ 22385 ∷ 24623 ∷ 27086 ∷ 29794 ∷ 32767 ∷ []

abbrev pub index_table : List ℤ
index_table =
    negsuc 0
    ∷ negsuc 0
    ∷ negsuc 0
    ∷ negsuc 0
    ∷ pos 2
    ∷ pos 4
    ∷ pos 6
    ∷ pos 8
    ∷ negsuc 0
    ∷ negsuc 0
    ∷ negsuc 0
    ∷ negsuc 0
    ∷ pos 2
    ∷ pos 4
    ∷ pos 6
    ∷ pos 8
    ∷ []

pub record AdpcmDecoder : Type 0 where
  pub predictor : ℤ
  pub step_index : ℕ

-- The last constructor is a panic: an index outside a table.
pub data AdpcmResult : Type 0 where
  decoded : List ℤ → AdpcmResult
  too_short : AdpcmResult
  invalid_step_index : ℕ → AdpcmResult
  panicked : AdpcmResult

-- `clamp(i16::MIN as i32, i16::MAX as i32)`
unfoldable pub clamp_i16 : ℤ → ℤ
clamp_i16 (pos n) = pos (min n 32767)
clamp_i16 (negsuc n) = negsuc (min n 32767)

-- `clamp(0, 88)`
unfoldable pub clamp_index : ℤ → ℕ
clamp_index (pos n) = min n 88
clamp_index (negsuc n) = 0

-- What the three bits of the magnitude add up to.
unfoldable pub difference : ℕ → ℕ → ℕ
difference step magnitude =
    step / 8
    + (if magnitude / 4 % 2 == 0 then 0 else step)
    + (if magnitude / 2 % 2 == 0 then 0 else step / 2)
    + (if magnitude % 2 == 0 then 0 else step / 4)

-- The update of the decoder with the two table entries.
unfoldable pub advance : AdpcmDecoder → ℕ → ℤ → ℕ → AdpcmDecoder
unfolding clamp_i16 clamp_index difference ◌+ℤ◌ ◌-ℤ◌
advance d step delta nibble =
    let diff = pos (difference step (nibble % 8)) in
    record {
      predictor = clamp_i16 (if nibble / 8 == 0 then d.predictor +ℤ diff else d.predictor -ℤ diff);
      step_index = clamp_index (pos d.step_index +ℤ delta);
    }

-- The sample is the new predictor.
unfoldable pub decode_nibble : AdpcmDecoder → ℕ → Option AdpcmDecoder
unfolding advance
decode_nibble d byte =
    let nibble = byte % 16 in
    elim (get_elem? step_table d.step_index) [
      | none ↦ none
      | some step ↦ elim (get_elem? index_table nibble) [
        | none ↦ none
        | some delta ↦ some (advance d step delta nibble)
      ]
    ]

-- The loop over the bytes, the low nibble of each first.
unfoldable pub decode_bytes : AdpcmDecoder → List ℕ → Option (List ℤ)
unfolding decode_nibble
decode_bytes d [] = some []
decode_bytes d (byte ∷ bytes) = elim (decode_nibble d (byte % 16)) [
  | none ↦ none
  | some low ↦ elim (decode_nibble low (byte / 16 % 16)) [
    | none ↦ none
    | some high ↦ elim (decode_bytes high bytes) [
      | none ↦ none
      | some out ↦ some (low.predictor ∷ high.predictor ∷ out)
    ]
  ]
]

-- `i16::from_le_bytes`
abbrev pub i16_of_le_bytes : ℕ → ℕ → ℤ
i16_of_le_bytes b0 b1 =
    if ltb (b0 + b1 * 256) 32768 then pos (b0 + b1 * 256) else sub_ℕ (b0 + b1 * 256) 65536

unfoldable pub decode_block : List ℕ → AdpcmResult
unfolding decode_bytes
decode_block (b0 ∷ b1 ∷ b2 ∷ b3 ∷ b4 ∷ bytes) =
    let predictor = i16_of_le_bytes b0 b1 in
    let out = decode_bytes record { predictor = predictor; step_index = b2 } (b4 ∷ bytes) in
    if leb b2 88
    then elim out [ none ↦ panicked | some samples ↦ decoded (predictor ∷ samples) ]
    else invalid_step_index b2
decode_block short = too_short

-- `>> 1` of a signed integer rounds down.
unfoldable pub half : ℤ → ℤ
half (pos n) = pos (n / 2)
half (negsuc n) = negsuc (n / 2)

unfoldable pub decimate_16_to_8 : List ℤ → List ℤ
unfolding half ◌+ℤ◌
decimate_16_to_8 (a ∷ b ∷ pcm) = half (a +ℤ b +ℤ pos 1) ∷ decimate_16_to_8 pcm
decimate_16_to_8 (a ∷ []) = []
decimate_16_to_8 [] = []
