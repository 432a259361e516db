-- ===== src/Audio/Adpcm/Bounds.antt =====
-- The decoder never leaves its tables.
use bairelay.Base.{
  ℕ, zero, suc, ◌+◌, ◌-◌, ◌*◌, ◌/◌, ◌%◌, ◌≤◌, ◌<◌, ◌≡◌, ◌⊎◌, inl, inr, refl, List, [], ◌∷◌, some,
  get_elem?, get_or, length, All, leb, Bool-cases, arith,
}
use bairelay.Base.Int.{ℤ, pos, negsuc, IsI16}
use bairelay.Audio.Adpcm.{
  step_table, index_table, AdpcmDecoder, AdpcmResult, decoded, too_short, invalid_step_index,
  clamp_i16, clamp_index, advance, decode_nibble, decode_bytes, i16_of_le_bytes, decode_block,
}

get_elem?-lt {ℓ} :
    {A : Type ℓ} (xs : List A) (i : ℕ) → i < length xs → (x : A) × (get_elem? xs i ≡ some x)
get_elem?-lt [] i h = absurd (omega arith)
get_elem?-lt (x ∷ xs) zero h = (x, refl)
get_elem?-lt (x ∷ xs) (suc i) h = get_elem?-lt xs i (omega arith)

clamp_i16-IsI16 : (a : ℤ) → IsI16 (clamp_i16 a)
unfolding clamp_i16
clamp_i16-IsI16 (pos n) = omega arith
clamp_i16-IsI16 (negsuc n) = omega arith

clamp_index_bound : (a : ℤ) → clamp_index a ≤ 88
unfolding clamp_index
clamp_index_bound (pos n) = omega arith
clamp_index_bound (negsuc n) = omega arith

-- A nibble gives a sample and keeps the step index in range.
decode_nibble_lem :
    (d : AdpcmDecoder) (n : ℕ)
    → d.step_index ≤ 88
    → (d' : AdpcmDecoder) × (decode_nibble d n ≡ some d')
      × (d'.step_index ≤ 88)
      × IsI16 d'.predictor
unfolding decode_nibble advance
decode_nibble_lem d n h =
    let (step, e) = get_elem?-lt step_table d.step_index (omega (arith, h)) in
    let (delta, f) = get_elem?-lt index_table (n % 16) (omega arith) in
    (
      advance d step delta (n % 16),
      rw (e, decode_nibble) (rw (f, decode_nibble) refl),
      clamp_index_bound _,
      clamp_i16-IsI16 _,
    )

decode_bytes_lem :
    (d : AdpcmDecoder) (bytes : List ℕ)
    → d.step_index ≤ 88
    → (out : List ℤ) × (decode_bytes d bytes ≡ some out)
      × (length out ≡ 2 * length bytes)
      × All IsI16 out
unfolding decode_bytes
decode_bytes_lem d [] h = ([], refl, refl, tt)
decode_bytes_lem d (b ∷ bytes) h =
    let (low, e, k, r) = decode_nibble_lem d (b % 16) h in
    let (high, e', k', r') = decode_nibble_lem low (b / 16 % 16) k in
    let (out, f, l, a) = decode_bytes_lem high bytes k' in
    (
      low.predictor ∷ high.predictor ∷ out,
      rw (e, decode_bytes) (rw (e', decode_bytes) (rw (f, decode_bytes) refl)),
      omega (arith, l),
      (r, (r', a)),
    )

i16_of_le_bytes-IsI16 : (b0 b1 : ℕ) → b0 < 256 → b1 < 256 → IsI16 (i16_of_le_bytes b0 b1)
i16_of_le_bytes-IsI16 b0 b1 h k = ground arith

-- The three outcomes of a block.
abbrev pub Outcome : List ℕ → AdpcmResult → Type 0
Outcome block r =
    ((length block < 5) × (r ≡ too_short))
    ⊎ ((5 ≤ length block) × (88 < get_or block 2 0) × (r ≡ invalid_step_index (get_or block 2 0)))
    ⊎ ((5 ≤ length block)
        × (get_or block 2 0 ≤ 88)
        × ((pcm : List ℤ) × (r ≡ decoded pcm)
            × (length pcm ≡ 1 + 2 * (length block - 4))
            × All IsI16 pcm))

-- A block of bytes below 256 is decoded without leaving a table: one of less than 5 bytes is too
-- short, one with a step index above 88 is refused with it, and any other gives one sample and
-- two for each byte behind the header, all of them in the range of an i16.
pub decode_block-Outcome :
    (block : List ℕ) → All (λ b. b < 256) block → Outcome block (decode_block block)
unfolding decode_block
decode_block-Outcome [] h = inl (omega arith, refl)
decode_block-Outcome (a ∷ []) h = inl (omega arith, refl)
decode_block-Outcome (a ∷ b ∷ []) h = inl (omega arith, refl)
decode_block-Outcome (a ∷ b ∷ c ∷ []) h = inl (omega arith, refl)
decode_block-Outcome (a ∷ b ∷ c ∷ d ∷ []) h = inl (omega arith, refl)
decode_block-Outcome (b0 ∷ b1 ∷ b2 ∷ b3 ∷ b4 ∷ bytes) (h0, (h1, hs)) =
    elim (Bool-cases (leb b2 88)) [
      | inr e ↦ inr (inl (omega arith, ground (arith, e), rw e refl))
      | inl e ↦
          let d : AdpcmDecoder = record { predictor = i16_of_le_bytes b0 b1; step_index = b2 } in
          let (out, f, l, a) = decode_bytes_lem d (b4 ∷ bytes) (ground (arith, e)) in
          inr (
            inr (
              omega arith,
              ground (arith, e),
              (
                i16_of_le_bytes b0 b1 ∷ out,
                rw (e, decode_block) (rw (f, decode_block) refl),
                omega (arith, l),
                (i16_of_le_bytes-IsI16 b0 b1 h0 h1, a),
              ),
            ))
    ]
