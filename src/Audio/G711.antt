-- ===== src/Audio/G711.antt =====
-- G.711 µ-law: src/rtsp/codec/g711.rs. Bits that do not overlap are joined by addition.
pub mod Requantised
use bairelay.Base.{
  ℕ, zero, suc, ◌+◌, ◌-◌, ◌*◌, ◌/◌, ◌%◌, ◌^◌, min, Bool, true, false, List, [], ◌∷◌, map, ◌==◌,
  if◌then◌else◌,
}
use bairelay.Base.Int.{ℤ, pos, negsuc}

abbrev pub g711_payload_type : ℕ
g711_payload_type = 0

abbrev bias : ℕ
bias = 0x84

abbrev clip : ℕ
clip = 32635

-- The loop, on the exponent that is left and the value shifted so far.
unfoldable pub log2_exp : ℕ → ℕ → ℕ
log2_exp zero val = zero
log2_exp (suc exp) val =
    let shifted = log2_exp exp (val * 2 % 65536) in
    if val / 16384 % 2 == 0 then shifted else suc exp

-- A sample's sign bit and its clipped magnitude.
unfoldable pub encode_magnitude : ℕ → ℕ → ℕ
unfolding log2_exp
encode_magnitude sign sample =
    let biased = min (sample + bias) 32767 in
    let exponent = log2_exp 7 biased in
    let mantissa = biased / 2 ^ (exponent + 3) % 16 in 255 - (sign + exponent * 16 + mantissa)

unfoldable pub encode_sample : ℤ → ℕ
unfolding encode_magnitude
encode_sample (pos n) = encode_magnitude 0 (min n clip)
encode_sample (negsuc n) = encode_magnitude 0x80 (min (suc n) clip)

-- `-s` of a number.
abbrev neg : ℕ → ℤ
neg zero = pos zero
neg (suc n) = negsuc n

unfoldable pub decode_sample : ℕ → ℤ
decode_sample ulaw =
    let u = 255 - ulaw in
    let exponent = u / 16 % 8 in
    let s = min (u % 16 * 2 ^ (exponent + 3) + bias * 2 ^ exponent - bias) 32767 in
    if u / 128 == 0 then pos s else neg s

-- `encode`, with the loop of `encode_into`
unfoldable pub encode : List ℤ → List ℕ
unfolding encode_sample
encode [] = []
encode (s ∷ pcm) = encode_sample s ∷ encode pcm
