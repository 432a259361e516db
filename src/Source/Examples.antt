-- ===== src/Source/Examples.antt =====
-- A key frame with its parameter sets, audio, and a tick.
use bairelay.Base.{◌≡◌, true, false, List, [], ◌∷◌, none}
use bairelay.Bcmedia.Model.{BcMedia, iframe, aac, h264}
use bairelay.FrameBuffer.{new_buffer}
use bairelay.Source.{
  StreamSource, unknown, new_source, no_pacer, queue, ok_packet, is_bridging, note_upstream,
  process_stream_result,
}
use bairelay.Source.Ready.{Event, result, tick, process_all, IsReady, process_all-new_source}
use bairelay.Source.Timed.{video_times}
use bairelay.Translate.{translate}
use bairelay.Source.Gap.{Closes, process_stream_result-Closes}

abbrev key_frame : BcMedia
key_frame = iframe record {
  video_type = h264;
  microseconds = 1000;
  time = none;
  payload = 0 ∷ 0 ∷ 0 ∷ 1 ∷ 0x67 ∷ 7 ∷ 0 ∷ 0 ∷ 0 ∷ 1 ∷ 0x68 ∷ 7 ∷ 0 ∷ 0 ∷ 0 ∷ 1 ∷ 0x65 ∷ 7 ∷ [];
}

abbrev sound : BcMedia
sound = aac record { payload = 0xFF ∷ 0xF1 ∷ 0x60 ∷ 0x40 ∷ 1 ∷ 0x20 ∷ 0 ∷ 1 ∷ 2 ∷ [] }

abbrev events : List Event
events =
    result (ok_packet no_pacer no_pacer key_frame 1 2 3)
    ∷ tick 3000000000
    ∷ result (ok_packet no_pacer (queue true) sound 4 5 6)
    ∷ []

abbrev source : StreamSource
source = new_source 2000000000 0 new_buffer unknown

process_all-new_source_example : IsReady unknown (process_all events source)
process_all-new_source_example = process_all-new_source events 2000000000 0 new_buffer unknown

-- A packet whose video frame is refused.
process_stream_result-Closes_example :
    let policy = note_upstream key_frame 1 source.policy in
    let r = process_stream_result (ok_packet (queue false) no_pacer key_frame 1 2 3) source in
    Closes
      (queue false)
      (video_times (translate key_frame source.translator 2 (is_bridging policy)).emits)
      policy
      3
      r.0.policy
      r.1
    × (r.2 ≡ true)
process_stream_result-Closes_example =
    process_stream_result-Closes (queue false) no_pacer key_frame 1 2 3 source
