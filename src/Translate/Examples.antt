-- ===== src/Translate/Examples.antt =====
-- A short stream of H.264 with AAC audio, and a gap in it.
use bairelay.Base.{
  ℕ, ◌≡◌, refl, Bool, true, false, List, [], ◌∷◌, All, filter, map, none, some, arith,
}
use mathlib.Core.List.{Perm}
use bairelay.Base.HashMap.{starts_with}
use bairelay.Bcmedia.Model.{
  BcMedia, BcMediaIframe, BcMediaPframe, BcMediaAac, iframe, pframe, aac, h264,
}
use bairelay.Nal.{is_decodable_nal}
use bairelay.Nal.Split.{annex_b}
use bairelay.Rtp.{RtpCounters}
use bairelay.Rtp.Dispatch
use bairelay.Rtp.Dispatch.{dispatch}
use bairelay.Rtp.AccessUnit.{Delivered}
use bairelay.Translate.Model.{new_state, video, append_pframe}
use bairelay.Translate.Video.{micros_to_90khz, translate_pframe}
use bairelay.Translate.{translate_all, concat}
use bairelay.Translate.Bridged.{gate, live, translate_all-gate}
use bairelay.Translate.Announced.{Announced, translate_all-Announced}
use bairelay.Translate.VideoOnly.{Latched}
use bairelay.Translate.SameCodec.{OfCodec, translate_all-OfCodec}
use bairelay.Translate.Units.{SlicesLast, translate_pframe-Delivered}

abbrev iframe_packet : BcMediaIframe
iframe_packet = record {
  video_type = h264;
  microseconds = 1000;
  time = none;
  payload = 0 ∷ 0 ∷ 0 ∷ 1 ∷ 0x67 ∷ 7 ∷ 0 ∷ 0 ∷ 0 ∷ 1 ∷ 0x68 ∷ 7 ∷ 0 ∷ 0 ∷ 0 ∷ 1 ∷ 0x65 ∷ 7 ∷ [];
}

abbrev units : List (Bool × List ℕ)
units = (true, 0x41 ∷ 9 ∷ []) ∷ (false, 0x06 ∷ 9 ∷ []) ∷ []

abbrev pframe_packet : BcMediaPframe
pframe_packet = record { video_type = h264; microseconds = 67000; payload = annex_b units }

-- An ADTS packet of 9 bytes: AAC-LC, 16 kHz, mono.
abbrev aac_packet : BcMediaAac
aac_packet = record { payload = 0xFF ∷ 0xF1 ∷ 0x60 ∷ 0x40 ∷ 1 ∷ 0x20 ∷ 0 ∷ 1 ∷ 2 ∷ [] }

abbrev stream : List (BcMedia × ℕ × Bool)
stream =
    (iframe iframe_packet, 0, false)
    ∷ (aac aac_packet, 1, false)
    ∷ (aac aac_packet, 2, true)
    ∷ (pframe pframe_packet, 3, true)
    ∷ (aac aac_packet, 4, false)
    ∷ []

translate_all-gate_example :
    ((translate_all stream new_state).0 ≡ gate stream (translate_all (map live stream) new_state).0)
    × ((translate_all stream new_state).1 ≡ (translate_all (map live stream) new_state).1)
translate_all-gate_example = translate_all-gate stream new_state

translate_all-Announced_example :
    Announced false
      (concat (translate_all stream new_state).0)
      (translate_all stream new_state).1.sdp_audio_emitted
translate_all-Announced_example = translate_all-Announced ℕ stream new_state

translate_all-OfCodec_example :
    All
      (OfCodec (translate_all stream new_state).1.detected_codec)
      (concat (translate_all stream new_state).0)
    × Latched none (translate_all stream new_state).1.detected_codec
translate_all-OfCodec_example = translate_all-OfCodec ℕ stream new_state

abbrev counters : RtpCounters
counters = record { ssrc = 7; seq = 65535 }

-- The slice comes first, and a SEI unit behind it.
translate_pframe-Delivered_example :
    (sent : List (List ℕ)) × (pace : ℕ) × ((translate_pframe {Instant = ℕ} pframe_packet
        (record new_state { detected_codec = some Dispatch.h264 })).emits
      ≡ append_pframe sent
        ∷ video (Dispatch.video Dispatch.h264 sent (micros_to_90khz 67000) false true) pace
        ∷ [])
    × Perm sent (filter (λ n. is_decodable_nal n Dispatch.h264) (map (λ u. u.1) units))
    × SlicesLast Dispatch.h264 sent
    × Delivered Dispatch.h264
        (micros_to_90khz 67000)
        true
        65535
        sent
        (dispatch (Dispatch.video Dispatch.h264 sent (micros_to_90khz 67000) false true) counters).1
unfolding starts_with is_decodable_nal
translate_pframe-Delivered_example =
    translate_pframe-Delivered pframe_packet units Dispatch.h264
      (record new_state { detected_codec = some Dispatch.h264 }) counters refl
      ((refl, λ e. absurd (omega arith)), ((refl, λ e. absurd (omega arith)), tt))
      (omega arith, (omega arith, tt)) refl (λ e. absurd (cc)) (omega arith)
