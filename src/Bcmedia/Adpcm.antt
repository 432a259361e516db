-- ===== src/Bcmedia/Adpcm.antt =====
-- ADPCM frames: the writer pads by the payload's length, the parser by that length plus four.
use bairelay.Base.{
  ℕ, ◌+◌, ◌%◌, ◌<◌, ◌≤◌, ◌≡◌, refl, sym, ap, ◌∙◌, List, [], ◌∷◌, ◌++◌, ◌⊎◌, append_assoc, length,
  length-append, length-replicate, replicate-add, replicate, leb, ◌&&◌, if◌then◌else◌, Bool-cases,
  inl, inr, arith,
}
use bairelay.Wire.Parsed.{done, then_reads}
use bairelay.Wire.Nom.{Nom}
use bairelay.Wire.CookieFactory.{CookieFactory}
use bairelay.Wire.Words.{le_u16-le_u16, le_u32-le_u32, u16_then, verify_then, take_then}
use bairelay.Bcmedia.Model.{BcMediaAdpcm, adpcm}
use bairelay.Bcmedia.Parse.{padding, bcmedia_adpcm, bcmedia, dispatch, is_magic}
use bairelay.Bcmedia.Print.{adpcm_fields, adpcm_bytes, serialize, zero_padding}

module _ (nom : Nom) (cf : CookieFactory) where
  -- The parser reads the payload, and then as many bytes of what follows as its own padding says.
  adpcm_reads :
      (v : BcMediaAdpcm) (pad rest : List ℕ)
      → 4 ≤ length v.payload
      → length v.payload + 4 < 65536
      → padding (length v.payload + 4) ≡ length pad
      → bcmedia nom (adpcm_bytes cf v ++ (v.payload ++ (pad ++ rest))) ≡ done (adpcm v) rest
  unfolding bcmedia adpcm_bytes is_magic dispatch bcmedia_adpcm adpcm_fields
  adpcm_reads v pad rest small fits e = simp append_assoc (
      verify_then nom _ _ _ _ (le_u32-le_u32 nom cf _ _) refl (
        then_reads _ _ _
          (verify_then nom _ _ _ _ (le_u16-le_u16 nom cf _ _) (ground arith) (
            u16_then nom cf _ _ (
              verify_then nom _ _ _ _ (le_u16-le_u16 nom cf _ _) refl (
                u16_then nom cf _ _ (
                  take_then nom _ v.payload _ _ (omega arith)
                    (take_then nom _ pad _ _ (ap padding (omega arith) ∙ e) refl))))))
          refl))

  abbrev pub zeros4 : List ℕ
  zeros4 = 0 ∷ 0 ∷ 0 ∷ 0 ∷ []

  bcmedia-serialize_adpcm_short :
      (v : BcMediaAdpcm) (rest : List ℕ)
      → 4 ≤ length v.payload
      → length v.payload + 4 < 65536
      → 1 ≤ length v.payload % 8
      → length v.payload % 8 ≤ 4
      → bcmedia nom (serialize cf (adpcm v) ++ rest) ≡ done (adpcm v) (zeros4 ++ rest)
  unfolding serialize zero_padding
  bcmedia-serialize_adpcm_short v rest small fits lo hi =
      rw (pads, replicate-add {A = ℕ} k 4 0)
        (simp append_assoc
          (adpcm_reads v (replicate k 0) (zeros4 ++ rest) small fits (sym (length-replicate k 0))))
    where
      k : ℕ
      k = padding (length v.payload + 4)

      pads : padding (length v.payload % 4294967296) ≡ k + 4
      pads = unfold padding in ground arith

  bcmedia-serialize_adpcm_long :
      (v : BcMediaAdpcm) (a b c d : ℕ) (rest : List ℕ)
      → 4 ≤ length v.payload
      → length v.payload + 4 < 65536
      → (length v.payload % 8 ≡ 0) ⊎ (5 ≤ length v.payload % 8)
      → bcmedia nom (serialize cf (adpcm v) ++ (a ∷ b ∷ c ∷ d ∷ rest)) ≡ done (adpcm v) rest
  unfolding serialize zero_padding
  bcmedia-serialize_adpcm_long v a b c d rest small fits cases = simp append_assoc (
      rw (append_assoc (replicate k 0) (a ∷ b ∷ c ∷ d ∷ []) rest) at
        (adpcm_reads v (replicate k 0 ++ (a ∷ b ∷ c ∷ d ∷ [])) rest small fits pads))
    where
      k : ℕ
      k = padding (length v.payload % 4294967296)

      pads : padding (length v.payload + 4) ≡ length (replicate k 0 ++ (a ∷ b ∷ c ∷ d ∷ []))
      pads =
          rw (length-append (replicate k 0) (a ∷ b ∷ c ∷ d ∷ []), length-replicate {A = ℕ} k 0)
            (unfold padding in ground arith)

  -- An ADPCM frame with a payload of at least 4 and below 65532 bytes and at least 4 bytes
  -- behind it is never read back with the right end: where its length is 1 to 4 modulo 8, four
  -- of the padding bytes are left in front of the next frame, and otherwise the first four bytes
  -- of what follows are taken away.
  pub bcmedia-serialize_adpcm :
      (v : BcMediaAdpcm) (a b c d : ℕ) (rest : List ℕ)
      → 4 ≤ length v.payload
      → length v.payload + 4 < 65536
      → let over = length v.payload % 8 in
        let next = a ∷ b ∷ c ∷ d ∷ rest in
        bcmedia nom (serialize cf (adpcm v) ++ next)
        ≡ done (adpcm v) (if leb 1 over && leb over 4 then zeros4 ++ next else rest)
  bcmedia-serialize_adpcm v a b c d rest small fits =
      let over = length v.payload % 8 in
      elim (Bool-cases (leb 1 over && leb over 4)) [
        | inl e ↦ rw e (
            bcmedia-serialize_adpcm_short v (a ∷ b ∷ c ∷ d ∷ rest) small fits (ground arith)
              (ground arith))
        | inr e ↦ rw e (bcmedia-serialize_adpcm_long v a b c d rest small fits (ground arith))
      ]
