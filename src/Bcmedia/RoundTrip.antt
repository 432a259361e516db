-- ===== src/Bcmedia/RoundTrip.antt =====
-- What `serialize` writes, `bcmedia` reads back, for every frame but ADPCM (which Bcmedia.Adpcm is about).
mod Info
mod Frames
use bairelay.Base.{ℕ, ◌≡◌, refl, List, ◌++◌, append_assoc, arith}
use bairelay.Wire.Parsed.{done, then_reads, ok, ◌>>=◌}
use bairelay.Wire.Nom.{Nom}
use bairelay.Wire.CookieFactory.{CookieFactory}
use bairelay.Wire.Words.{le_u32-le_u32, verify_then}
use bairelay.Bcmedia.Model.{BcMedia, info_v1, info_v2, iframe, pframe, aac, adpcm, Fits}
use bairelay.Bcmedia.Parse.{bcmedia, dispatch, is_magic}
use bairelay.Bcmedia.Print.{
  serialize, info_v1_bytes, info_v2_bytes, iframe_bytes, pframe_bytes, aac_bytes,
}
use Info.{bcmedia_info_v1_reads, bcmedia_info_v2_reads}
use Frames.{bcmedia_iframe_reads, bcmedia_pframe_reads, bcmedia_aac_reads}

-- Whether a frame is one of those that both sides lay out alike.
abbrev pub NotAdpcm : BcMedia → Type 0
NotAdpcm (adpcm v) = ⊥
NotAdpcm _ = Unit {0}

module _ (nom : Nom) (cf : CookieFactory) where
  -- Every media frame but ADPCM that fits its wire fields is read back as it was written,
  -- padding included, and whatever follows it in the buffer is left.
  pub bcmedia-serialize :
      (m : BcMedia) (rest : List ℕ)
      → Fits m
      → NotAdpcm m
      → bcmedia nom (serialize cf m ++ rest) ≡ done m rest
  unfolding bcmedia serialize info_v1_bytes info_v2_bytes iframe_bytes pframe_bytes aac_bytes
      is_magic dispatch
  bcmedia-serialize (info_v1 v) rest h n = simp append_assoc (
      verify_then nom _ _ _ _ (le_u32-le_u32 nom cf _ _) refl
        (then_reads _ _ _ (bcmedia_info_v1_reads nom cf v rest h) refl))
  bcmedia-serialize (info_v2 v) rest h n = simp append_assoc (
      verify_then nom _ _ _ _ (le_u32-le_u32 nom cf _ _) refl
        (then_reads _ _ _ (bcmedia_info_v2_reads nom cf v rest h) refl))
  bcmedia-serialize (iframe v) rest h n = simp append_assoc (
      verify_then nom _ _ _ _ (le_u32-le_u32 nom cf _ _) refl
        (then_reads _ _ _ (bcmedia_iframe_reads nom cf v rest h) refl))
  bcmedia-serialize (pframe v) rest h n = simp append_assoc (
      verify_then nom _ _ _ _ (le_u32-le_u32 nom cf _ _) refl
        (then_reads _ _ _ (bcmedia_pframe_reads nom cf v rest h) refl))
  bcmedia-serialize (aac v) rest h n = simp append_assoc (
      verify_then nom _ _ _ _ (le_u32-le_u32 nom cf _ _) refl
        (then_reads _ _ _ (bcmedia_aac_reads nom cf v rest h) refl))
  bcmedia-serialize (adpcm v) rest h n = absurd n
