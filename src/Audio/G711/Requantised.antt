-- ===== src/Audio/G711/Requantised.antt =====
-- Decoding and encoding again.
use bairelay.Base.{ℕ, ◌<◌, ◌≡◌, ◌≢◌, refl, Bool, true, ◌||◌, ◌==◌, arith}
use bairelay.Base.Bits.{all_below, all_below_sound}
use bairelay.Audio.G711.{log2_exp, encode_magnitude, encode_sample, decode_sample}

kept : ℕ → Bool
kept u = (u == 127) || (encode_sample (decode_sample u) == u)

kept_table : all_below 256 kept ≡ true
unfolding all_below kept encode_sample encode_magnitude log2_exp decode_sample
kept_table = refl

encode_sample-decode_sample : (u : ℕ) → u < 256 → u ≢ 127 → encode_sample (decode_sample u) ≡ u
unfolding kept
encode_sample-decode_sample u h n =
    let k : kept u ≡ true = all_below_sound 256 kept u kept_table h in ground (arith, k, n)
