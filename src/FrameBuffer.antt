-- ===== src/FrameBuffer.antt =====
-- The last-frame buffer of src/rtsp/buffer.rs: the burst that a new RTSP client is sent first. A call under a lock is
-- one step.
pub mod Kept
mod Examples
use bairelay.Base.{
  ℕ, ◌+◌, ◌-◌, Bool, true, false, List, [], ◌∷◌, ◌++◌, Option, none, some, length, ltb,
  if◌then◌else◌,
}

-- The codec, the instant and the timestamp of the capture are carried along.
pub record VideoBurst (Capture : Type 0) : Type 0 where
  pub capture : Capture
  pub parameter_sets : List (List ℕ)
  pub iframe_nals : List (List ℕ)
  pub pframe_nals : List (List (List ℕ))

pub record LastFrameBuffer (Capture : Type 0) : Type 0 where
  pub video : Option (VideoBurst Capture)
  pub jpeg : Option (List ℕ)

abbrev pub max_pframe_bytes : ℕ
max_pframe_bytes = 8388608

-- `nals.iter().map(|n| n.len()).sum()`
unfoldable pub frame_bytes : List (List ℕ) → ℕ
frame_bytes [] = 0
frame_bytes (n ∷ nals) = length n + frame_bytes nals

unfoldable pub total_bytes : List (List (List ℕ)) → ℕ
unfolding frame_bytes
total_bytes [] = 0
total_bytes (frame ∷ frames) = frame_bytes frame + total_bytes frames

-- `while total > MAX && !pframe_nals.is_empty()`, on what is left of the frames.
unfoldable pub evict : ℕ → List (List (List ℕ)) → List (List (List ℕ))
unfolding frame_bytes
evict total [] = []
evict total (frame ∷ frames) =
    let rest = evict (total - frame_bytes frame) frames in
    if ltb max_pframe_bytes total then rest else frame ∷ frames

unfoldable pub push_pframe : List (List (List ℕ)) → List (List ℕ) → List (List (List ℕ))
unfolding evict total_bytes frame_bytes
push_pframe frames nals =
    let new_bytes = frame_bytes nals in
    let pushed = frames ++ (nals ∷ []) in
    let total = total_bytes pushed in
    if ltb max_pframe_bytes (total + new_bytes) then evict total pushed else pushed

module _ {Capture : Type 0} where
  unfoldable pub new_buffer : LastFrameBuffer Capture
  new_buffer = record { video = none; jpeg = none }

  unfoldable pub replace_video :
      LastFrameBuffer Capture → VideoBurst Capture → LastFrameBuffer Capture
  replace_video b burst = record { video = some burst; jpeg = b.jpeg }

  unfoldable pub append_pframe : LastFrameBuffer Capture → List (List ℕ) → LastFrameBuffer Capture
  unfolding push_pframe
  append_pframe b nals = record {
    video = elim b.video [
      | none ↦ none
      | some burst ↦ some (record burst { pframe_nals = push_pframe burst.pframe_nals nals })
    ];
    jpeg = b.jpeg;
  }

  unfoldable pub video_snapshot : LastFrameBuffer Capture → Option (VideoBurst Capture)
  video_snapshot b = b.video

  unfoldable has_video : LastFrameBuffer Capture → Bool
  has_video b = elim b.video [ none ↦ false | some burst ↦ true ]

  unfoldable set_jpeg : LastFrameBuffer Capture → List ℕ → LastFrameBuffer Capture
  set_jpeg b bytes = record { video = b.video; jpeg = some bytes }
