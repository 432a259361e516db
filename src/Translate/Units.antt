-- ===== src/Translate/Units.antt =====
-- What becomes of the units of a P-frame on their way to an RTP receiver.
use bairelay.Base.{
  ℕ, ◌<◌, ◌≡◌, ◌≢◌, ◌⊎◌, refl, sym, ap, ◌∙◌, subst, Bool, true, false, not, List, [], ◌∷◌, ◌++◌,
  map, filter, get_or, All, All-append, some, Bool-cases, inl, inr,
}
use mathlib.Core.List.{Perm, perm_middle}
use mathlib.Core.List.Perm
use bairelay.Bcmedia.Model.{BcMediaPframe}
use bairelay.Nal.{split_annex_b, is_decodable_nal}
use bairelay.Nal.Split.{Clean, annex_b, split_annex_b-annex_b}
use bairelay.Rtp.{RtpCounters}
use bairelay.Rtp.Dispatch
use bairelay.Rtp.Dispatch.{VideoCodec, h264, h265, dispatch}
use bairelay.Rtp.AccessUnit.{IsUnit, Delivered, dispatch-Delivered}
use bairelay.Translate.Model.{StreamTranslatorState, video, append_pframe}
use bairelay.Translate.Video.{
  is_slice_nal, micros_to_90khz, video_frame_duration, reorder, send_video, emit_pframe,
  pframe_units, translate_pframe,
}

-- The first byte of a unit as the standards have it: the forbidden bit of H.264 is clear.
abbrev pub HasHeader : VideoCodec → List ℕ → Type 0
HasHeader h264 nal = get_or nal 0 0 < 128
HasHeader h265 nal = get_or nal 0 0 < 256

-- No unit that is no slice stands behind a slice.
abbrev pub SlicesLast : VideoCodec → List (List ℕ) → Type 0
SlicesLast codec [] = Unit {0}
SlicesLast codec (nal ∷ nals) =
    (is_slice_nal nal codec ≡ false) × SlicesLast codec nals
    ⊎ All (λ n. is_slice_nal n codec ≡ true) (nal ∷ nals)

decodable-IsUnit :
    (codec : VideoCodec) (nal : List ℕ)
    → HasHeader codec nal
    → is_decodable_nal nal codec ≡ true
    → IsUnit codec nal
unfolding is_decodable_nal
decodable-IsUnit codec [] h d = absurd (cc)
decodable-IsUnit h264 (b0 ∷ nal) h d = h
decodable-IsUnit h265 (b0 ∷ []) h d = absurd (cc)
decodable-IsUnit h265 (b0 ∷ b1 ∷ nal) h d = h

decodable-All :
    (codec : VideoCodec) (nals : List (List ℕ))
    → All (HasHeader codec) nals
    → All (IsUnit codec) (filter (λ n. is_decodable_nal n codec) nals)
decodable-All codec [] h = tt
decodable-All codec (nal ∷ nals) (h, hs) = elim (Bool-cases (is_decodable_nal nal codec)) [
  | inl e ↦ rw e (decodable-IsUnit codec nal h e, decodable-All codec nals hs)
  | inr e ↦ rw e (decodable-All codec nals hs)
]

module _ {A : Type 0} (p : A → Bool) where
  All-filter : (P : A → Type 0) (xs : List A) → All P xs → All P (filter p xs)
  All-filter P [] h = tt
  All-filter P (x ∷ xs) (h, hs) = elim (Bool-cases (p x)) [
    | inl e ↦ rw e (h, All-filter P xs hs)
    | inr e ↦ rw e (All-filter P xs hs)
  ]

  filter-All : (xs : List A) → All (λ x. p x ≡ true) (filter p xs)
  filter-All [] = tt
  filter-All (x ∷ xs) = elim (Bool-cases (p x)) [
    | inl e ↦ rw e (e, filter-All xs)
    | inr e ↦ rw e (filter-All xs)
  ]

  partition-perm : (xs : List A) → Perm (filter (λ x. not (p x)) xs ++ filter p xs) xs
  partition-perm [] = Perm.nil
  partition-perm (x ∷ xs) = elim (Bool-cases (p x)) [
    | inl e ↦ rw e (
        Perm.trans (perm_middle (filter (λ y. not (p y)) xs) (filter p xs))
          (Perm.cons x (partition-perm xs)))
    | inr e ↦ rw e (Perm.cons x (partition-perm xs))
  ]

SlicesLast-reorder :
    (codec : VideoCodec) (others slices : List (List ℕ))
    → All (λ n. not (is_slice_nal n codec) ≡ true) others
    → All (λ n. is_slice_nal n codec ≡ true) slices
    → SlicesLast codec (others ++ slices)
SlicesLast-reorder codec [] [] h k = tt
SlicesLast-reorder codec [] (nal ∷ slices) h k = inr k
SlicesLast-reorder codec (nal ∷ others) slices (h, hs) k =
    inl (negated (is_slice_nal nal codec) h, SlicesLast-reorder codec others slices hs k)
  where
    negated : (b : Bool) → not b ≡ true → b ≡ false
    negated true e = absurd (cc)
    negated false e = refl

-- The units that are sent of a frame: a rearrangement of those that decoders take, with the slices last, each of
-- which the fragmenters can carry.
reorder_lem :
    (codec : VideoCodec) (nals : List (List ℕ))
    → All (HasHeader codec) nals
    → Perm (reorder codec nals) (filter (λ n. is_decodable_nal n codec) nals)
      × SlicesLast codec (reorder codec nals)
      × All (IsUnit codec) (reorder codec nals)
unfolding reorder
reorder_lem codec nals h =
    let slice = λ (n : List ℕ). is_slice_nal n codec in
    let kept = filter (λ n. is_decodable_nal n codec) nals in
    let units = decodable-All codec nals h in
    (
      partition-perm slice kept,
      SlicesLast-reorder codec (filter (λ n. not (slice n)) kept) (filter slice kept)
          (filter-All (λ n. not (slice n)) kept) (filter-All slice kept),
      All-append (IsUnit codec) (filter (λ n. not (slice n)) kept) (filter slice kept)
          (All-filter (λ n. not (slice n)) (IsUnit codec) kept units)
          (All-filter slice (IsUnit codec) kept units),
    )

module _ {Instant : Type 0} where
  emit_pframe_lem :
      (codec : VideoCodec) (sent : List (List ℕ)) (pts : ℕ) (state : StreamTranslatorState)
      → sent ≢ []
      → (emit_pframe {Instant = Instant} codec sent pts state).emits
        ≡ append_pframe sent
          ∷ video (Dispatch.video codec sent pts false true) (video_frame_duration state pts)
          ∷ []
  unfolding emit_pframe send_video
  emit_pframe_lem codec [] pts state n = absurd (n refl)
  emit_pframe_lem codec (nal ∷ sent) pts state n = refl

  -- Once the codec is known, a P-frame whose payload joins units by start codes (no unit is
  -- empty, has a start code inside or ends in a zero byte; each has a first byte of its codec,
  -- of H.264 with a clear forbidden bit) becomes, if standard decoders take one of its units,
  -- one addition to the burst and one video frame: its units are a rearrangement of those that
  -- decoders take, with no other unit behind a slice, and the packets made of it, from a
  -- sequence number below 2 ^ 16 on, deliver them to an RTP receiver.
  pub translate_pframe-Delivered :
      (frame : BcMediaPframe) (units : List (Bool × List ℕ)) (codec : VideoCodec)
      (state : StreamTranslatorState) (c : RtpCounters)
      → frame.payload ≡ annex_b units
      → All (λ u. Clean u.1) units
      → All (HasHeader codec) (map (λ u. u.1) units)
      → state.detected_codec ≡ some codec
      → filter (λ n. is_decodable_nal n codec) (map (λ u. u.1) units) ≢ []
      → c.seq < 65536
      → (sent : List (List ℕ)) × (pace : ℕ) × ((translate_pframe {Instant = Instant} frame
            state).emits
          ≡ append_pframe sent
            ∷ video (Dispatch.video codec sent (micros_to_90khz frame.microseconds) false true) pace
            ∷ [])
        × Perm sent (filter (λ n. is_decodable_nal n codec) (map (λ u. u.1) units))
        × SlicesLast codec sent
        × Delivered codec
            (micros_to_90khz frame.microseconds)
            true
            c.seq
            sent
            (dispatch
              (Dispatch.video codec sent (micros_to_90khz frame.microseconds) false true)
              c).1
  unfolding translate_pframe pframe_units
  translate_pframe-Delivered frame units codec state c payload clean headers known some_kept seq =
      let nals = map (λ u. u.1) units in
      let kept = filter (λ n. is_decodable_nal n codec) nals in
      let pts = micros_to_90khz frame.microseconds in
      let split : split_annex_b frame.payload ≡ nals =
        ap split_annex_b payload ∙ split_annex_b-annex_b units clean in
      let (perm, last, carried) = reorder_lem codec nals headers in
      let sent = reorder codec nals in
      (
        sent,
        video_frame_duration state pts,
        ap (λ o. (pframe_units o (split_annex_b frame.payload) pts state).emits) known
            ∙ ap (λ n. (pframe_units (some codec) n pts state).emits) split
            ∙ emit_pframe_lem codec sent pts state
                (λ e. some_kept (sym (Perm.nil-eq (subst (λ s. Perm s kept) e perm)))),
        perm,
        last,
        dispatch-Delivered codec sent pts false true c carried seq,
      )
