-- ===== src/Bridging/First.antt =====
-- The first replay of a source.
use bairelay.Base.{
  ℕ, ◌-◌, ◌<◌, ◌≡◌, refl, List, [], ◌∷◌, map, none, some, ltb, Bool-cases, inl, inr, arith,
}
use bairelay.Bridging.{
  BridgingPolicy, new_policy, delta_90khz, replay_base, advance_replay_pts, detect_gap, bridge,
  on_tick,
}
use bairelay.Bridging.Steady.{tick, run}

-- Nothing was broadcast yet.
record IsSilent (threshold born : ℕ) (s : BridgingPolicy) : Type 0 where
  threshold_is : s.gap_threshold ≡ threshold
  born_is : s.last_upstream_at ≡ born
  no_pts : s.last_emitted_pts_90khz ≡ none
  no_time : s.last_emit_wallclock_at ≡ none

detect_gap-IsSilent :
    (threshold born now : ℕ) (s : BridgingPolicy)
    → IsSilent threshold born s
    → IsSilent threshold born (detect_gap s now)
unfolding detect_gap
detect_gap-IsSilent threshold born now s v =
    elim (Bool-cases (ltb s.gap_threshold (now - s.last_upstream_at))) [
      | inl e ↦ rw e (record {
        threshold_is = v.threshold_is;
        born_is = v.born_is;
        no_pts = v.no_pts;
        no_time = v.no_time;
      })
      | inr e ↦ rw e v
    ]

bridge_nothing : (s : BridgingPolicy) (now : ℕ) → bridge s now none ≡ (s, none)
unfolding bridge
bridge_nothing s now = ground arith

run-IsSilent :
    (threshold born : ℕ) (s : BridgingPolicy) (nows : List ℕ)
    → IsSilent threshold born s
    → IsSilent threshold born (run s (map (λ t. tick t none) nows)).0
unfolding run on_tick
run-IsSilent threshold born s [] v = v
run-IsSilent threshold born s (t ∷ nows) v =
    rw (bridge_nothing (detect_gap s t) t, run)
      (run-IsSilent threshold born (detect_gap s t) nows (detect_gap-IsSilent threshold born t s v))

-- A source that stalls before its first key frame consumes no timestamps: after any ticks with
-- nothing to replay, the first tick past the threshold that has a key frame replays it at the
-- timestamp it was captured with.
on_tick_first :
    (threshold born now anchor : ℕ) (nows : List ℕ)
    → threshold < now - born
    → anchor < 4294967296
    → (on_tick
        (run (new_policy threshold born) (map (λ t. tick t none) nows)).0
        now
        (some anchor)).1
      ≡ some anchor
unfolding on_tick bridge detect_gap advance_replay_pts replay_base delta_90khz
on_tick_first threshold born now anchor nows late fits =
    let v = run-IsSilent threshold born (new_policy threshold born) nows (
      unfold new_policy in
      record { threshold_is = refl; born_is = refl; no_pts = refl; no_time = refl }) in
    ground (arith, v.threshold_is, v.born_is, v.no_pts, v.no_time)
