-- ===== src/Source/Gap.antt =====
-- Which packets close a gap, and what is sent then.
use bairelay.Base.{
  ℕ, ◌≡◌, ◌⊎◌, inl, inr, refl, ap, ◌∙◌, true, false, List, [], ◌∷◌, ◌++◌, All, Option, none, some,
  if◌then◌else◌,
}
use bairelay.Bcmedia.Model.{BcMedia}
use bairelay.Rtp.Dispatch
use bairelay.Rtp.Dispatch.{VideoCodec}
use bairelay.Bridging.{BridgingPolicy, on_broadcast}
use bairelay.Translate.Model.{
  Emit, video, audio, sdp_video, sdp_audio, replace_video_burst, append_pframe, audio_seen,
}
use bairelay.Translate.{translate}
use bairelay.Translate.SameCodec.{OfCodec, translate-CodecStep}
use bairelay.Source.{
  StreamSource, Sent, paced, broadcast, Pacer, no_pacer, queue, dispatch_paced, apply_emit,
  apply_emits, apply_bcmedia_packet, is_bridging, note_upstream, note_broadcast, ok_packet,
  process_stream_result,
}
use bairelay.Source.Ready.{apply_emits-translator}
use bairelay.Source.Timed.{video_times, sent_times, takes, to_list, translate-Timed}

sent_times-append : (a b : List Sent) → sent_times (a ++ b) ≡ sent_times a ++ sent_times b
sent_times-append [] b = refl
sent_times-append (paced (Dispatch.video c nals pts k end) d ∷ a) b =
    ap (◌∷◌ pts) (sent_times-append a b)
sent_times-append (paced (Dispatch.audio payload pts) d ∷ a) b = sent_times-append a b
sent_times-append (broadcast (Dispatch.video c nals pts k end) ∷ a) b =
    ap (◌∷◌ pts) (sent_times-append a b)
sent_times-append (broadcast (Dispatch.audio payload pts) ∷ a) b = sent_times-append a b

-- Of the video frames all are sent, or all are dropped.
abbrev kept : Pacer → List ℕ → List ℕ
kept v times = if takes v then times else []

apply_emits-sent_times :
    (o : Option VideoCodec) (v a : Pacer) (emits : List (Emit ℕ)) (s : StreamSource)
    → All (OfCodec o) emits
    → sent_times (apply_emits v a emits s).1 ≡ kept v (video_times emits)
unfolding apply_emits apply_emit dispatch_paced
apply_emits-sent_times o no_pacer a [] s h = refl
apply_emits-sent_times o (queue true) a [] s h = refl
apply_emits-sent_times o (queue false) a [] s h = refl
apply_emits-sent_times o no_pacer a (video (Dispatch.video c nals pts k end) pace ∷ emits) s
      (h, hs) =
    ap (◌∷◌ pts) (apply_emits-sent_times o no_pacer a emits s hs)
apply_emits-sent_times o (queue true) a (video (Dispatch.video c nals pts k end) pace ∷ emits) s
      (h, hs) =
    ap (◌∷◌ pts) (apply_emits-sent_times o (queue true) a emits s hs)
apply_emits-sent_times o (queue false) a (video (Dispatch.video c nals pts k end) pace ∷ emits) s
      (h, hs) =
    apply_emits-sent_times o (queue false) a emits s hs
apply_emits-sent_times o v a (video (Dispatch.audio payload pts) pace ∷ emits) s h = absurd h.0
apply_emits-sent_times o v a (audio (Dispatch.video c nals pts k end) pace ∷ emits) s h = absurd h.0
apply_emits-sent_times o v no_pacer (audio (Dispatch.audio payload pts) pace ∷ emits) s h =
    apply_emits-sent_times o v no_pacer emits s h.1
apply_emits-sent_times o v (queue true) (audio (Dispatch.audio payload pts) pace ∷ emits) s h =
    apply_emits-sent_times o v (queue true) emits s h.1
apply_emits-sent_times o v (queue false) (audio (Dispatch.audio payload pts) pace ∷ emits) s h =
    apply_emits-sent_times o v (queue false) emits s h.1
apply_emits-sent_times o v a (audio_seen codec ∷ emits) s h =
    apply_emits-sent_times o v a emits (apply_emit v a (audio_seen codec) s).0 h.1
apply_emits-sent_times o v a (sdp_audio p ∷ emits) s h =
    apply_emits-sent_times o v a emits (apply_emit v a (sdp_audio p) s).0 h.1
apply_emits-sent_times o v a (sdp_video p ∷ emits) s h =
    apply_emits-sent_times o v a emits (apply_emit v a (sdp_video p) s).0 h.1
apply_emits-sent_times o v a (replace_video_burst b ∷ emits) s h =
    apply_emits-sent_times o v a emits (apply_emit v a (replace_video_burst b) s).0 h.1
apply_emits-sent_times o v a (append_pframe nals ∷ emits) s h =
    apply_emits-sent_times o v a emits (apply_emit v a (append_pframe nals) s).0 h.1

-- From the timestamps of the video frames that the translation has made: none, and then nothing of video is sent and the
-- policy stays; or one, which the pacer may refuse, and then the gap is closed at its timestamp all the same.
abbrev pub Closes : Pacer → List ℕ → BridgingPolicy → ℕ → BridgingPolicy → List Sent → Type 0
Closes v made before at after sent =
    ((made ≡ []) × (sent_times sent ≡ []) × (after ≡ before))
    ⊎ ((pts : ℕ) × (made ≡ pts ∷ [])
        × (sent_times sent ≡ (if takes v then pts ∷ [] else []))
        × (after ≡ on_broadcast before pts at))

-- The translation of a packet makes one video frame at most. Where it makes none, no video frame
-- is sent and the policy stays as the note of the arrival has made it; where it makes one, a
-- video frame with its timestamp is sent, or none if the queue of the video pacer refuses it,
-- and in either case the policy takes note of a broadcast with that timestamp. The reader goes
-- on.
pub process_stream_result-Closes :
    (video_pacer audio_pacer : Pacer) (media : BcMedia) (upstream_at translated_at broadcast_at : ℕ)
    (s : StreamSource)
    → let policy = note_upstream media upstream_at s.policy in
      let made =
        video_times (translate media s.translator translated_at (is_bridging policy)).emits in
      let r =
        process_stream_result
          (ok_packet video_pacer audio_pacer media upstream_at translated_at broadcast_at)
          s in
      Closes video_pacer made policy broadcast_at r.0.policy r.1 × (r.2 ≡ true)
unfolding process_stream_result apply_bcmedia_packet note_broadcast
process_stream_result-Closes v a media t0 t1 t2 s =
    let policy = note_upstream media t0 s.policy in
    let t = translate media s.translator t1 (is_bridging policy) in
    let started = record s { policy = policy; translator = t.state } in
    (
      closes t.video_pts (video_times t.emits) (apply_emits v a t.emits started).0.policy policy
          (apply_emits v a t.emits started).1
          (translate-Timed media s.translator t1 (is_bridging policy))
          (apply_emits-sent_times t.state.detected_codec v a t.emits started
            (translate-CodecStep ℕ media s.translator t1 (is_bridging policy)).0)
          (apply_emits-translator v a t.emits started).1,
      refl,
    )
  where
    nothing : (p : Pacer) → kept p [] ≡ []
    nothing no_pacer = refl
    nothing (queue true) = refl
    nothing (queue false) = refl

    closes :
        (o : Option ℕ) (made : List ℕ) (p q : BridgingPolicy) (sent : List Sent)
        → made ≡ to_list o
        → sent_times sent ≡ kept v made
        → p ≡ q
        → Closes v made q t2 (note_broadcast o t2 p) sent
    closes none made p q sent is e same = inl (is, e ∙ ap (kept v) is ∙ nothing v, same)
    closes (some pts) made p q sent is e same =
        inr (pts, is, e ∙ ap (kept v) is, ap (λ x. on_broadcast x pts t2) same)
