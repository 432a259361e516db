-- ===== src/Bridging/Examples.antt =====
-- The theorems of gap bridging on concrete sources.
use bairelay.Base.{ℕ, ◌+◌, ◌-◌, ◌*◌, ◌%◌, ◌≤◌, ◌≡◌, refl, [], ◌∷◌, some, arith}
use bairelay.Bridging.{BridgingPolicy, new_policy, bridging}
use bairelay.Bridging.Clock.{replays, replays_clock}

abbrev source : BridgingPolicy
source = new_policy 2000000000 0

abbrev stalled : BridgingPolicy
stalled = record source {
  state = bridging;
  last_emitted_pts_90khz = some 9000;
  last_emit_wallclock_at = some 1000;
}

replays_clock_example :
    (adv : ℕ) × ((replays stalled 5 (200001000 ∷ 400002000 ∷ []) 9000).1
      ≡ (9000 + adv) % 4294967296)
    × (adv * 1000000000 ≤ (400002000 - 1000) * 90000)
    × ((400002000 - 1000) * 90000 ≤ adv * 1000000000 + 2 * 1000000000)
replays_clock_example =
    replays_clock (200001000 ∷ 400002000 ∷ []) stalled 9000 1000 400002000 5
      (record { open_gap = refl; emitted = refl; at_time = refl }) (omega arith)
      (omega arith, (omega arith, refl)) (omega arith)
