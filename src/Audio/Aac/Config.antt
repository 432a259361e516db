-- ===== src/Audio/Aac/Config.antt =====
-- The AudioSpecificConfig of a parsed ADTS header.
use bairelay.Base.{
  ℕ, ◌+◌, ◌*◌, ◌/◌, ◌%◌, ◌≤◌, ◌<◌, ◌≡◌, ◌≢◌, refl, ap, subst, Bool, true, false, not, ◌&&◌, ◌||◌,
  List, ◌∷◌, Option, none, some, get_elem?, ◌==◌, ==_iff, leb, ltb, Bool-cases, Option-cases,
  some_eq, inl, inr, arith,
}
use bairelay.Base.Bits.{all_below, all_below_sound}
use bairelay.Audio.Aac.{
  sample_rate_index, audio_specific_config, AdtsHeader, sample_rates, adts_fields, parse_adts,
}

index_agrees : ℕ → Bool
index_agrees i = elim (get_elem? sample_rates i) [
  | none ↦ true
  | some hz ↦ elim (sample_rate_index hz) [ none ↦ false | some j ↦ j == i ]
]

index_table_agrees : all_below 16 index_agrees ≡ true
unfolding all_below index_agrees sample_rate_index
index_table_agrees = refl

-- The two tables are inverse.
sample_rate_index-sample_rates :
    (i hz : ℕ) → i < 16 → get_elem? sample_rates i ≡ some hz → sample_rate_index hz ≡ some i
unfolding index_agrees
sample_rate_index-sample_rates i hz h e =
    let t : index_agrees i ≡ true = all_below_sound 16 index_agrees i index_table_agrees h in
    agreed (sample_rate_index hz) (rw (e, index_agrees) at t)
  where
    agreed :
        (o : Option ℕ)
        → ◌≡◌ {A = Bool} (elim o [ none ↦ false | some j ↦ j == i ]) true
        → o ≡ some i
    agreed none k = cc
    agreed (some j) k = ap some ((==_iff j i).0 k)

-- The fields of a configuration are those of the header.
abbrev pub Describes : AdtsHeader → Type 0
Describes h =
    (b0 : ℕ) × (b1 : ℕ) × (audio_specific_config h.aot h.sample_rate h.channels ≡ some (b0, b1))
    × (b0 < 256)
    × (b1 < 256)
    × (b0 / 8 ≡ h.aot)
    × (get_elem? sample_rates (b0 % 8 * 2 + b1 / 128) ≡ some h.sample_rate)
    × (b1 / 8 % 16 ≡ h.channels)

describes :
    (aot i hz channels frame_length aac_frames : ℕ)
    → 1 ≤ aot
    → aot ≤ 4
    → i < 16
    → get_elem? sample_rates i ≡ some hz
    → 1 ≤ channels
    → channels ≤ 7
    → Describes record {
      aot = aot;
      sample_rate = hz;
      channels = channels;
      frame_length = frame_length;
      aac_frames = aac_frames;
    }
unfolding audio_specific_config
describes aot i hz channels frame_length aac_frames a a' h e c c' =
    let bits = aot % 32 * 2048 + i % 16 * 128 + channels % 16 * 8 in
    let index : bits / 256 % 256 % 8 * 2 + bits % 256 / 128 ≡ i = omega (arith, a', h, c') in
    let low : (leb 1 aot && leb aot 29) ≡ true = ground (arith, a, a') in
    let some_channels : (channels == 0 || ltb 7 channels) ≡ false = ground (arith, c, c') in
    (
      bits / 256 % 256,
      bits % 256,
      rw (low, audio_specific_config)
          (rw (sample_rate_index-sample_rates i hz h e, audio_specific_config)
            (rw (some_channels, audio_specific_config) refl)),
      omega arith,
      omega arith,
      omega (arith, a', h, c'),
      rw index e,
      omega (arith, a', h, c'),
    )

adts_fields-Describes :
    (b0 b1 b2 b3 b4 b5 b6 : ℕ) (h : AdtsHeader)
    → adts_fields b0 b1 b2 b3 b4 b5 b6 ≡ some h
    → h.channels ≢ 0
    → Describes h
unfolding adts_fields
adts_fields-Describes b0 b1 b2 b3 b4 b5 b6 h e n =
    let frame_length = b3 % 4 * 2048 + b4 * 8 + b5 / 32 % 8 in
    elim (Bool-cases (not (b0 == 0xFF) || not (b1 / 16 * 16 == 0xF0))) [
      | inl s ↦ absurd (none-ne (rw (s, adts_fields) at e))
      | inr s ↦ elim (Bool-cases (ltb frame_length 7)) [
        | inl l ↦ absurd (none-ne (rw (s, adts_fields, l) at e))
        | inr l ↦ elim (Option-cases (get_elem? sample_rates (b2 / 4 % 16))) [
          | inl g ↦ absurd (none-ne (rw (s, adts_fields, l, g) at e))
          | inr (hz, g) ↦
              let same = some_eq (rw (s, adts_fields, l, g) at e) in
              subst Describes (same) (
                describes (b2 / 64 % 4 + 1) (b2 / 4 % 16) hz (b2 % 2 * 4 + b3 / 64 % 4) frame_length
                  (b6 % 4 + 1) (omega arith) (omega arith) (omega arith) g (nonzero _ h same n)
                  (omega arith))
        ]
      ]
    ]
  where
    none-ne : {x : AdtsHeader} → none ≡ some x → ⊥
    none-ne k = cc

    nonzero : (g k : AdtsHeader) → g ≡ k → k.channels ≢ 0 → 1 ≤ g.channels
    nonzero g k p q = rw p (omega (arith, q))

-- Every ADTS header that is parsed, unless it has zero channels, has an AudioSpecificConfig: two
-- bytes from whose bit fields the object type, the sample rate (through the table of rates) and
-- the channels are read back.
pub audio_specific_config-parse_adts :
    (buf : List ℕ) (h : AdtsHeader) → parse_adts buf ≡ some h → h.channels ≢ 0 → Describes h
unfolding parse_adts
audio_specific_config-parse_adts (b0 ∷ b1 ∷ b2 ∷ b3 ∷ b4 ∷ b5 ∷ b6 ∷ body) h e n =
    adts_fields-Describes b0 b1 b2 b3 b4 b5 b6 h e n
audio_specific_config-parse_adts _ h e n = absurd (cc)
