-- ===== src/Translate.antt =====
-- The translation of decoded media packets into RTSP frames: src/stream_translate.rs.
pub mod Model
pub mod Video
pub mod Audio
pub mod VideoOnly
pub mod Bridged
pub mod Announced
pub mod SameCodec
pub mod Units
mod Examples
use bairelay.Base.{Bool, List, [], ◌∷◌, ◌++◌, none}
use bairelay.Bcmedia.Model.{BcMedia, info_v1, info_v2, iframe, pframe, aac, adpcm}
use bairelay.Translate.Model.{StreamTranslatorState, Emit, Translated}
use bairelay.Translate.Video.{translate_iframe, translate_pframe}
use bairelay.Translate.Audio.{translate_aac, translate_adpcm}

module _ {Instant : Type 0} where
  abbrev no_video : List (Emit Instant) × StreamTranslatorState → Translated Instant
  no_video r = record { emits = r.0; video_pts = none; state = r.1 }

  unfoldable pub translate : BcMedia → StreamTranslatorState → Instant → Bool → Translated Instant
  unfolding translate_iframe translate_pframe translate_aac translate_adpcm
  translate (iframe frame) state now bridging = translate_iframe frame state now
  translate (pframe frame) state now bridging = translate_pframe frame state
  translate (aac packet) state now bridging = no_video (translate_aac packet state bridging)
  translate (adpcm packet) state now bridging = no_video (translate_adpcm packet state bridging)
  translate (info_v1 info) state now bridging = no_video ([], state)
  translate (info_v2 info) state now bridging = no_video ([], state)

  -- A stream of packets, each with its instant and with whether a gap is bridged then.
  unfoldable pub translate_all :
      List (BcMedia × Instant × Bool)
      → StreamTranslatorState
      → List (List (Emit Instant)) × StreamTranslatorState
  unfolding translate
  translate_all [] state = ([], state)
  translate_all ((packet, now, bridging) ∷ packets) state =
      let r = translate packet state now bridging in
      let rest = translate_all packets r.state in (r.emits ∷ rest.0, rest.1)

  -- The effects of all packets in their order.
  abbrev pub concat : List (List (Emit Instant)) → List (Emit Instant)
  concat [] = []
  concat (emits ∷ more) = emits ++ concat more
