-- ===== src/Source/Ready.antt =====
-- When audio is reported present, its parameters are there.
use bairelay.FrameBuffer.{LastFrameBuffer}
use bairelay.Base.{ℕ, ◌≡◌, ◌≢◌, ◌⊎◌, inl, inr, refl, Bool, true, List, [], ◌∷◌, Option, none, some}
use bairelay.Translate.Model.{
  AudioCodec, AudioParams, Capture, Emit, video, audio, sdp_video, sdp_audio, replace_video_burst,
  append_pframe, audio_seen,
}
use bairelay.Translate.{translate}
use bairelay.Translate.Announced.{Announced, translate-Announced}
use bairelay.Source.{
  AudioPresence, present, observed, StreamSource, new_source, Pacer, keep_first, apply_emit,
  apply_emits, apply_bcmedia_packet, note_upstream, is_bridging, StreamResult, ok_packet,
  decode_error, finished, process_stream_result, tick_bridging,
}

-- What happens to a source.
pub data Event : Type 0 where
  result : StreamResult → Event
  tick : ℕ → Event

unfoldable pub process_all : List Event → StreamSource → StreamSource
process_all [] s = s
process_all (result r ∷ events) s = process_all events (process_stream_result r s).0
process_all (tick now ∷ events) s = process_all events (tick_bridging now s).0

-- Since the presence was `known`: audio is reported present only with its parameters at hand, or as it was then; and the
-- translator's latch says that they are at hand.
pub record IsReady (known : AudioPresence) (s : StreamSource) : Type 0 where
  pub latched : s.translator.sdp_audio_emitted ≡ true → s.sdp_audio_params ≢ none
  pub heard :
      (codec : AudioCodec)
      → s.audio_presence ≡ present codec
      → (s.sdp_audio_params ≢ none) ⊎ (known ≡ present codec)

-- The same, with the latch apart.
abbrev Ready : AudioPresence → Bool → StreamSource → Type 0
Ready known latch s =
    (latch ≡ true → s.sdp_audio_params ≢ none)
    × ((codec : AudioCodec)
        → s.audio_presence ≡ present codec
        → (s.sdp_audio_params ≢ none) ⊎ (known ≡ present codec))

keep_first-ne-none : (o : Option AudioParams) (p : AudioParams) → keep_first o p ≢ none
keep_first-ne-none none p e = cc
keep_first-ne-none (some old) p e = cc

apply_emits-Ready :
    (k : AudioPresence) (v a : Pacer) (emits : List (Emit ℕ)) (before after : Bool)
    (s : StreamSource)
    → Announced before emits after
    → Ready k before s
    → Ready k after (apply_emits v a emits s).0
unfolding apply_emits apply_emit
apply_emits-Ready k v a [] before after s e r = rw (← e) r
apply_emits-Ready k v a (sdp_audio p ∷ emits) before after s (h, hs) r =
    let s' = record s { sdp_audio_params = keep_first s.sdp_audio_params p } in
    apply_emits-Ready k v a emits true after s' hs (
      λ _. keep_first-ne-none s.sdp_audio_params p,
      λ _ _. inl (keep_first-ne-none s.sdp_audio_params p),
    )
apply_emits-Ready k v a (audio frame pace ∷ emits) before after s (h, hs) r =
    apply_emits-Ready k v a emits before after s hs r
apply_emits-Ready k v a (audio_seen codec ∷ emits) before after s (h, hs) r =
    let s' = record s { audio_presence = observed s.audio_presence codec } in
    apply_emits-Ready k v a emits before after s' hs (r.0, λ _ _. inl (r.0 h))
apply_emits-Ready k v a (video frame pace ∷ emits) before after s h r =
    apply_emits-Ready k v a emits before after s h r
apply_emits-Ready k v a (sdp_video p ∷ emits) before after s h r =
    apply_emits-Ready k v a emits before after (record s { sdp_video_params = some p }) h r
apply_emits-Ready k v a (replace_video_burst b ∷ emits) before after s h r =
    apply_emits-Ready k v a emits before after (apply_emit v a (replace_video_burst b) s).0 h r
apply_emits-Ready k v a (append_pframe nals ∷ emits) before after s h r =
    apply_emits-Ready k v a emits before after (apply_emit v a (append_pframe nals) s).0 h r

-- The effects leave the translator and the policy alone.
pub apply_emits-translator :
    (v a : Pacer) (emits : List (Emit ℕ)) (s : StreamSource)
    → ((apply_emits v a emits s).0.translator ≡ s.translator)
      × ((apply_emits v a emits s).0.policy ≡ s.policy)
unfolding apply_emits apply_emit
apply_emits-translator v a [] s = (refl, refl)
apply_emits-translator v a (sdp_audio p ∷ emits) s =
    apply_emits-translator v a emits (apply_emit v a (sdp_audio p) s).0
apply_emits-translator v a (audio frame pace ∷ emits) s = apply_emits-translator v a emits s
apply_emits-translator v a (audio_seen codec ∷ emits) s =
    apply_emits-translator v a emits (apply_emit v a (audio_seen codec) s).0
apply_emits-translator v a (video frame pace ∷ emits) s = apply_emits-translator v a emits s
apply_emits-translator v a (sdp_video p ∷ emits) s =
    apply_emits-translator v a emits (apply_emit v a (sdp_video p) s).0
apply_emits-translator v a (replace_video_burst b ∷ emits) s =
    apply_emits-translator v a emits (apply_emit v a (replace_video_burst b) s).0
apply_emits-translator v a (append_pframe nals ∷ emits) s =
    apply_emits-translator v a emits (apply_emit v a (append_pframe nals) s).0

process_stream_result-IsReady :
    (k : AudioPresence) (r : StreamResult) (s : StreamSource)
    → IsReady k s
    → IsReady k (process_stream_result r s).0
unfolding process_stream_result apply_bcmedia_packet
process_stream_result-IsReady k (ok_packet v a media t0 t1 t2) s ready =
    let policy = note_upstream media t0 s.policy in
    let r = translate media s.translator t1 (is_bridging policy) in
    let started = record s { policy = policy; translator = r.state } in
    let (l, h) =
      apply_emits-Ready k v a r.emits s.translator.sdp_audio_emitted r.state.sdp_audio_emitted
        started (translate-Announced ℕ media s.translator t1 (is_bridging policy))
        (ready.latched, ready.heard) in
    record { latched = λ e. l (rw (apply_emits-translator v a r.emits started).0 at e); heard = h }
process_stream_result-IsReady k decode_error s ready = ready
process_stream_result-IsReady k finished s ready = ready

-- Results and ticks keep it.
process_all-IsReady :
    (k : AudioPresence) (events : List Event) (s : StreamSource)
    → IsReady k s
    → IsReady k (process_all events s)
unfolding process_all tick_bridging
process_all-IsReady k [] s ready = ready
process_all-IsReady k (result r ∷ events) s ready =
    process_all-IsReady k events (process_stream_result r s).0
      (process_stream_result-IsReady k r s ready)
process_all-IsReady k (tick now ∷ events) s ready =
    process_all-IsReady k events (tick_bridging now s).0
      (record { latched = ready.latched; heard = ready.heard })

-- Over any results of a stream and any replay ticks of a new source, while nothing else writes
-- the presence that the camera keeps, audio is reported present only when the SDP of the source
-- has its audio parameters or where it was reported present with that codec before the source
-- began, and the latch of the translator is set only when the SDP has them.
pub process_all-new_source :
    (events : List Event) (gap_threshold now : ℕ) (last_frame : LastFrameBuffer (Capture ℕ))
    (presence : AudioPresence)
    → IsReady presence (process_all events (new_source gap_threshold now last_frame presence))
unfolding new_source
process_all-new_source events gap_threshold now last_frame presence =
    process_all-IsReady presence events (new_source gap_threshold now last_frame presence)
      record { latched = λ e. absurd (cc); heard = λ codec e. inr e }
