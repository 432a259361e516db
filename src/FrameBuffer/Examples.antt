-- ===== src/FrameBuffer/Examples.antt =====
-- A burst of one key frame and two P-frames.
use bairelay.Base.{ℕ, ◌≤◌, ◌≡◌, refl, List, [], ◌∷◌, none, some}
use bairelay.FrameBuffer.{
  VideoBurst, max_pframe_bytes, total_bytes, new_buffer, replace_video, video_snapshot,
}
use bairelay.FrameBuffer.Kept.{fitting_end, append_all, append_all-replace_video}

abbrev burst : VideoBurst ℕ
burst = record {
  capture = 90000;
  parameter_sets = (0x67 ∷ 1 ∷ []) ∷ [];
  iframe_nals = (0x65 ∷ 2 ∷ []) ∷ [];
  pframe_nals = [];
}

abbrev frames : List (List (List ℕ))
frames = ((0x41 ∷ 3 ∷ []) ∷ []) ∷ ((0x41 ∷ 4 ∷ []) ∷ (0x41 ∷ 5 ∷ []) ∷ []) ∷ []

append_all-replace_video_example :
    (video_snapshot (append_all (replace_video new_buffer burst) frames)
      ≡ some (record burst { pframe_nals = fitting_end frames }))
    × (total_bytes (fitting_end frames) ≤ max_pframe_bytes)
    × (video_snapshot (append_all (new_buffer {Capture = ℕ}) frames) ≡ none)
append_all-replace_video_example = append_all-replace_video new_buffer burst frames refl
