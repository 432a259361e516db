-- ===== src/FrameBuffer/Kept.antt =====
-- Which P-frames of a burst the buffer keeps.
use bairelay.Base.{
  ℕ, ◌+◌, ◌-◌, ◌≤◌, ◌≡◌, refl, sym, ap, ◌∙◌, true, false, List, [], ◌∷◌, ◌++◌, append-nil,
  append_assoc, none, some, ltb, leb, if◌then◌else◌, Bool-cases, inl, inr, arith,
}
use bairelay.FrameBuffer.{
  VideoBurst, LastFrameBuffer, max_pframe_bytes, frame_bytes, total_bytes, evict, push_pframe,
  new_buffer, replace_video, append_pframe, video_snapshot,
}

-- The longest end of the frames that fits under the cap.
unfoldable pub fitting_end : List (List (List ℕ)) → List (List (List ℕ))
unfolding total_bytes
fitting_end [] = []
fitting_end (frame ∷ frames) =
    let rest = fitting_end frames in
    if leb (total_bytes (frame ∷ frames)) max_pframe_bytes then frame ∷ frames else rest

fitting_end_fits :
    (frames : List (List (List ℕ))) → total_bytes (fitting_end frames) ≤ max_pframe_bytes
unfolding fitting_end total_bytes
fitting_end_fits [] = omega arith
fitting_end_fits (frame ∷ frames) = ground (arith, fitting_end_fits frames)

fitting_end_all :
    (frames : List (List (List ℕ)))
    → total_bytes frames ≤ max_pframe_bytes
    → fitting_end frames ≡ frames
unfolding fitting_end total_bytes
fitting_end_all [] h = refl
fitting_end_all (frame ∷ frames) h = ground arith

evict_lem : (frames : List (List (List ℕ))) → evict (total_bytes frames) frames ≡ fitting_end frames
unfolding evict fitting_end total_bytes
evict_lem [] = refl
evict_lem (frame ∷ frames) =
    let left : frame_bytes frame + total_bytes frames - frame_bytes frame ≡ total_bytes frames =
      omega arith in
    elim (Bool-cases (leb (frame_bytes frame + total_bytes frames) max_pframe_bytes)) [
      | inl e ↦
          let f : ltb max_pframe_bytes (frame_bytes frame + total_bytes frames) ≡ false =
            ground (arith, e) in
          rw (e, f) refl
      | inr e ↦
          let f : ltb max_pframe_bytes (frame_bytes frame + total_bytes frames) ≡ true =
            ground (arith, e) in
          rw (e, f) (ap (λ n. evict n frames) left ∙ evict_lem frames)
    ]

-- A push keeps the longest end that fits: where the guard skips the eviction, all of it fits.
push_pframe_lem :
    (frames : List (List (List ℕ))) (nals : List (List ℕ))
    → push_pframe frames nals ≡ fitting_end (frames ++ (nals ∷ []))
unfolding push_pframe
push_pframe_lem frames nals =
    let pushed = frames ++ (nals ∷ []) in
    elim (Bool-cases (ltb max_pframe_bytes (total_bytes pushed + frame_bytes nals))) [
      | inl e ↦ rw e (evict_lem pushed)
      | inr e ↦ rw e (sym (fitting_end_all pushed (ground (arith, e))))
    ]

total_bytes-append :
    (frames more : List (List (List ℕ)))
    → total_bytes (frames ++ more) ≡ total_bytes frames + total_bytes more
unfolding total_bytes
total_bytes-append [] more = omega arith
total_bytes-append (frame ∷ frames) more = omega (arith, total_bytes-append frames more)

-- Frames dropped earlier would be dropped later too.
fitting_end-append :
    (frames more : List (List (List ℕ)))
    → fitting_end (fitting_end frames ++ more) ≡ fitting_end (frames ++ more)
unfolding fitting_end total_bytes
fitting_end-append [] more = refl
fitting_end-append (frame ∷ frames) more =
    elim (Bool-cases (leb (frame_bytes frame + total_bytes frames) max_pframe_bytes)) [
      | inl e ↦ rw e refl
      | inr e ↦
          let over : leb (frame_bytes frame + total_bytes (frames ++ more)) max_pframe_bytes
              ≡ false =
            ground (arith, e, total_bytes-append frames more) in
          rw e (rw over (fitting_end-append frames more))
    ]

module _ {Capture : Type 0} where
  unfoldable pub append_all :
      LastFrameBuffer Capture → List (List (List ℕ)) → LastFrameBuffer Capture
  append_all b [] = b
  append_all b (nals ∷ frames) = append_all (append_pframe b nals) frames

  append_all_empty :
      (b : LastFrameBuffer Capture) (frames : List (List (List ℕ)))
      → b.video ≡ none
      → video_snapshot (append_all b frames) ≡ none
  unfolding append_all append_pframe video_snapshot
  append_all_empty b [] h = h
  append_all_empty b (nals ∷ frames) h =
      append_all_empty (append_pframe b nals) frames (rw (h, append_pframe) refl)

  append_all_kept :
      (b : LastFrameBuffer Capture) (burst : VideoBurst Capture)
      (before frames : List (List (List ℕ)))
      → b.video ≡ some (record burst { pframe_nals = fitting_end before })
      → video_snapshot (append_all b frames)
        ≡ some (record burst { pframe_nals = fitting_end (before ++ frames) })
  unfolding append_all append_pframe video_snapshot
  append_all_kept b burst before [] h = h ∙ rw append-nil refl
  append_all_kept b burst before (nals ∷ frames) h =
      let e : push_pframe (fitting_end before) nals ≡ fitting_end (before ++ (nals ∷ [])) =
        push_pframe_lem (fitting_end before) nals ∙ fitting_end-append before (nals ∷ []) in
      append_all_kept (append_pframe b nals) burst (before ++ (nals ∷ [])) frames
        (rw (h, append_pframe) (ap (λ p. some (record burst { pframe_nals = p })) e))
      ∙ ap (λ p. some (record burst { pframe_nals = fitting_end p }))
          (append_assoc before (nals ∷ []) frames)

  -- After a new burst without P-frames and any P-frames behind it, the buffer holds the burst
  -- with the longest end of these P-frames that fits in 8 MiB; without a burst it holds nothing.
  pub append_all-replace_video :
      (b : LastFrameBuffer Capture) (burst : VideoBurst Capture) (frames : List (List (List ℕ)))
      → burst.pframe_nals ≡ []
      → (video_snapshot (append_all (replace_video b burst) frames)
          ≡ some (record burst { pframe_nals = fitting_end frames }))
        × (total_bytes (fitting_end frames) ≤ max_pframe_bytes)
        × (video_snapshot (append_all (new_buffer {Capture = Capture}) frames) ≡ none)
  unfolding replace_video new_buffer fitting_end
  append_all-replace_video b burst frames h = (
    append_all_kept (replace_video b burst) burst [] frames
        (ap (λ p. some (record burst { pframe_nals = p })) h),
    fitting_end_fits frames,
    append_all_empty new_buffer frames refl,
  )
