-- ===== src/Source.antt =====
-- Models src/stream_source.rs, its driver, and src/audio_presence.rs: the state under the locks of a source, a result of
-- the camera's stream, and the tick that replays a key frame. A call under its locks is one step, and an instant is a
-- number of nanoseconds. The streams of a camera share the last frame and the audio presence; what another stream writes
-- there between two steps is left out, as are the capture of packets to disk and the logging.
pub mod Ready
pub mod Timed
pub mod Gap
mod Examples
use bairelay.Base.{
  ℕ, Bool, true, false, not, ◌&&◌, List, [], ◌∷◌, ◌++◌, filter, Option, none, some, if◌then◌else◌,
}
use bairelay.Bcmedia.Model.{BcMedia, iframe, pframe, info_v1, info_v2, aac, adpcm}
use bairelay.Nal.{is_decodable_nal}
use bairelay.Rtp.Dispatch
use bairelay.Rtp.Dispatch.{VideoCodec, Frame}
use bairelay.FrameBuffer.{VideoBurst, LastFrameBuffer, replace_video, append_pframe, video_snapshot}
use bairelay.Bridging
use bairelay.Bridging.{
  BridgingPolicy, GapState, new_policy, on_upstream_packet, on_broadcast, on_tick,
}
use bairelay.Translate.Model
use bairelay.Translate.Model.{
  AudioCodec, VideoParams, AudioParams, Capture, StreamTranslatorState, Emit, video, audio,
  sdp_video, sdp_audio, replace_video_burst, audio_seen, new_state,
}
use bairelay.Translate.Video.{is_parameter_set_nal}
use bairelay.Translate.{translate}

pub data AudioPresence : Type 0 where
  unknown : AudioPresence
  present : AudioCodec → AudioPresence
  absent : AudioPresence

-- The first observation wins.
unfoldable pub observed : AudioPresence → AudioCodec → AudioPresence
observed unknown codec = present codec
observed absent codec = present codec
observed (present old) codec = present old

-- What the locks of a source guard.
pub record StreamSource : Type 0 where
  pub last_frame : LastFrameBuffer (Capture ℕ)
  pub sdp_video_params : Option VideoParams
  pub sdp_audio_params : Option AudioParams
  pub audio_presence : AudioPresence
  pub translator : StreamTranslatorState
  pub policy : BridgingPolicy

-- With what the camera shares.
unfoldable pub new_source : ℕ → ℕ → LastFrameBuffer (Capture ℕ) → AudioPresence → StreamSource
unfolding new_policy
new_source gap_threshold now last_frame presence = record {
  last_frame = last_frame;
  sdp_video_params = none;
  sdp_audio_params = none;
  audio_presence = presence;
  translator = new_state;
  policy = new_policy gap_threshold now;
}

-- Where a frame goes: to the queue of a pacer, or to the subscribers.
pub data Sent : Type 0 where
  paced : Frame → (duration : ℕ) → Sent
  broadcast : Frame → Sent

-- There may be no pacer; one there is takes the frame or not, since its queue is full or closed.
pub data Pacer : Type 0 where
  no_pacer : Pacer
  queue : (takes : Bool) → Pacer

-- `dispatch_paced_video` and `dispatch_paced_audio`
unfoldable pub dispatch_paced : Pacer → Frame → ℕ → List Sent
dispatch_paced no_pacer frame duration = broadcast frame ∷ []
dispatch_paced (queue takes) frame duration = if takes then paced frame duration ∷ [] else []

-- An SDP audio entry that is there already is kept.
abbrev pub keep_first : Option AudioParams → AudioParams → Option AudioParams
keep_first none params = some params
keep_first (some old) params = some old

-- One effect. A packet has one video frame and one audio frame at most, so that each pacer is asked once.
unfoldable pub apply_emit : Pacer → Pacer → Emit ℕ → StreamSource → StreamSource × List Sent
unfolding dispatch_paced replace_video append_pframe observed
apply_emit video_pacer audio_pacer (video frame pace) s = (s, dispatch_paced video_pacer frame pace)
apply_emit video_pacer audio_pacer (audio frame pace) s = (s, dispatch_paced audio_pacer frame pace)
apply_emit video_pacer audio_pacer (sdp_video params) s =
    (record s { sdp_video_params = some params }, [])
apply_emit video_pacer audio_pacer (sdp_audio params) s =
    (record s { sdp_audio_params = keep_first s.sdp_audio_params params }, [])
apply_emit video_pacer audio_pacer (replace_video_burst burst) s =
    (record s { last_frame = replace_video s.last_frame burst }, [])
apply_emit video_pacer audio_pacer (Emit.append_pframe nals) s =
    (record s { last_frame = append_pframe s.last_frame nals }, [])
apply_emit video_pacer audio_pacer (audio_seen codec) s =
    (record s { audio_presence = observed s.audio_presence codec }, [])

unfoldable pub apply_emits : Pacer → Pacer → List (Emit ℕ) → StreamSource → StreamSource × List Sent
unfolding apply_emit
apply_emits video_pacer audio_pacer [] s = (s, [])
apply_emits video_pacer audio_pacer (emit ∷ emits) s =
    let r = apply_emit video_pacer audio_pacer emit s in
    let rest = apply_emits video_pacer audio_pacer emits r.0 in (rest.0, r.1 ++ rest.1)

-- The source, what was sent, and the timestamp of the video frame.
unfoldable pub apply_bcmedia_packet :
    Pacer → Pacer → BcMedia → ℕ → Bool → StreamSource → StreamSource × List Sent × Option ℕ
unfolding translate apply_emits
apply_bcmedia_packet video_pacer audio_pacer packet now bridging s =
    let t = translate packet s.translator now bridging in
    let r = apply_emits video_pacer audio_pacer t.emits (record s { translator = t.state }) in
    (r.0, r.1, t.video_pts)

unfoldable pub is_bridging : BridgingPolicy → Bool
is_bridging p = elim p.state [ Bridging.live ↦ false | Bridging.bridging ↦ true ]

-- A video packet shows that the camera is there, also if nothing of it is sent.
unfoldable pub note_upstream : BcMedia → ℕ → BridgingPolicy → BridgingPolicy
unfolding on_upstream_packet
note_upstream (iframe frame) now p = on_upstream_packet p now
note_upstream (pframe frame) now p = on_upstream_packet p now
note_upstream (info_v1 info) now p = p
note_upstream (info_v2 info) now p = p
note_upstream (aac packet) now p = p
note_upstream (adpcm packet) now p = p

unfoldable pub note_broadcast : Option ℕ → ℕ → BridgingPolicy → BridgingPolicy
unfolding on_broadcast
note_broadcast none now p = p
note_broadcast (some pts) now p = on_broadcast p pts now

-- What the camera's stream gives: a packet, with the three times at which the clock is read on its way; an error of
-- the decoder, or its end.
pub data StreamResult : Type 0 where
  ok_packet :
      (video_pacer audio_pacer : Pacer) (media : BcMedia)
      (upstream_at translated_at broadcast_at : ℕ)
      → StreamResult
  decode_error : StreamResult
  finished : StreamResult

-- The last component says whether the reader goes on.
unfoldable pub process_stream_result : StreamResult → StreamSource → StreamSource × List Sent × Bool
unfolding apply_bcmedia_packet is_bridging note_upstream note_broadcast
process_stream_result
      (ok_packet video_pacer audio_pacer media upstream_at translated_at broadcast_at) s =
    let policy = note_upstream media upstream_at s.policy in
    let r =
      apply_bcmedia_packet video_pacer audio_pacer media translated_at (is_bridging policy)
        (record s { policy = policy }) in
    (record r.0 { policy = note_broadcast r.2 broadcast_at r.0.policy }, r.1, true)
process_stream_result decode_error s = (s, [], true)
process_stream_result finished s = (s, [], false)

-- What a burst has to replay.
unfoldable pub replay_nals : VideoBurst (Capture ℕ) → List (List ℕ)
unfolding is_parameter_set_nal is_decodable_nal
replay_nals burst =
    filter
      (λ n.
        not (is_parameter_set_nal n burst.capture.codec) && is_decodable_nal n burst.capture.codec)
      burst.iframe_nals

-- The closure: the codec and the units, with the timestamp of the capture.
unfoldable pub replay_payload :
    LastFrameBuffer (Capture ℕ) → Option (VideoCodec × List (List ℕ) × ℕ)
unfolding video_snapshot replay_nals
replay_payload last_frame = elim (video_snapshot last_frame) [
  | none ↦ none
  | some burst ↦ elim (replay_nals burst) [
    | [] ↦ none
    | nal ∷ nals ↦ some (burst.capture.codec, nal ∷ nals, burst.capture.captured_pts_90khz)
  ]
]

abbrev anchor_of : Option (VideoCodec × List (List ℕ) × ℕ) → Option ℕ
anchor_of none = none
anchor_of (some payload) = some payload.2

abbrev replayed : Option ℕ → Option (VideoCodec × List (List ℕ) × ℕ) → List Sent
replayed none payload = []
replayed (some pts) none = []
replayed (some pts) (some payload) =
    broadcast (Dispatch.video payload.0 payload.1 pts true true) ∷ []

-- The replay goes to the subscribers, past the pacer.
unfoldable pub tick_bridging : ℕ → StreamSource → StreamSource × List Sent
unfolding replay_payload on_tick
tick_bridging now s =
    let payload = replay_payload s.last_frame in
    let r = on_tick s.policy now (anchor_of payload) in
    (record s { policy = r.0 }, replayed r.1 payload)
