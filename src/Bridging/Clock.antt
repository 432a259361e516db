-- ===== src/Bridging/Clock.antt =====
-- The timestamps that src/gap_bridging.rs replays in one gap.
use bairelay.Base.{
  ℕ, ◌+◌, ◌-◌, ◌*◌, ◌/◌, ◌%◌, ◌≤◌, ◌<◌, ◌≡◌, refl, List, [], ◌∷◌, Option, none, some, length, arith,
}
use bairelay.Bridging.{
  bridging, BridgingPolicy, ticks_of, delta_90khz, replay_base, advance_replay_pts, detect_gap,
  bridge, on_tick,
}

-- The timestamp that a tick returned, or the one before.
abbrev pub latest : Option ℕ → ℕ → ℕ
latest (some pts) last = pts
latest none last = last

-- Ticks at the given times, each with something to replay: the state after them, and the last timestamp.
unfoldable pub replays : BridgingPolicy → ℕ → List ℕ → ℕ → BridgingPolicy × ℕ
replays s anchor [] last = (s, last)
replays s anchor (now ∷ nows) last =
    let (s', out) = on_tick s now (some anchor) in replays s' anchor nows (latest out last)

-- Times in order, not before `from` nor after `to`.
abbrev pub Ascending : ℕ → List ℕ → ℕ → Type 0
Ascending from [] to = from ≡ to
Ascending from (t ∷ ts) to = (from ≤ t) × Ascending t ts to

-- The last frame went out at time `at` with timestamp `p`, and a gap is open.
pub record Replaying (s : BridgingPolicy) (p at : ℕ) : Type 0 where
  pub open_gap : s.state ≡ bridging
  pub emitted : s.last_emitted_pts_90khz ≡ some p
  pub at_time : s.last_emit_wallclock_at ≡ some at

detect_gap-Replaying : (s : BridgingPolicy) (p at now : ℕ) → Replaying s p at → detect_gap s now ≡ s
unfolding detect_gap
detect_gap-Replaying s p at now v = ground (arith, v.open_gap)

abbrev next_pts : ℕ → ℕ → ℕ → ℕ
next_pts p at now = (p + ticks_of (now - at)) % 4294967296

on_tick-Replaying :
    (s : BridgingPolicy) (p at now anchor : ℕ)
    → Replaying s p at
    → on_tick s now (some anchor) ≡ (
      record s {
        last_emitted_pts_90khz = some (next_pts p at now);
        last_emit_wallclock_at = some now;
      },
      some (next_pts p at now),
    )
unfolding on_tick bridge advance_replay_pts replay_base delta_90khz
on_tick-Replaying s p at now anchor v =
    rw (detect_gap-Replaying s p at now v) (rw (v.open_gap, v.emitted, v.at_time))

ticks_of_lem : (d : ℕ) → d < 18446744073709551616 → ticks_of d ≡ d * 90000 / 1000000000 % 4294967296
unfolding ticks_of
ticks_of_lem d h = omega arith

Ascending-le : (from to : ℕ) (ts : List ℕ) → Ascending from ts to → from ≤ to
Ascending-le from to [] h = omega arith
Ascending-le from to (t ∷ ts) (h, hs) = omega (arith, Ascending-le t to ts hs)

-- While a gap is bridged, from a last frame on whose time and timestamp are known, the replayed
-- timestamp never goes back and never runs ahead of the wall clock, and n replays cost it n
-- ticks of the 90 kHz clock at most, for tick times in order below 2 ^ 64 nanoseconds.
pub replays_clock :
    (nows : List ℕ) (s : BridgingPolicy) (p at to anchor : ℕ)
    → Replaying s p at
    → p < 4294967296
    → Ascending at nows to
    → to < 18446744073709551616
    → (adv : ℕ) × ((replays s anchor nows p).1 ≡ (p + adv) % 4294967296)
      × (adv * 1000000000 ≤ (to - at) * 90000)
      × ((to - at) * 90000 ≤ adv * 1000000000 + length nows * 1000000000)
unfolding replays
replays_clock [] s p at to anchor v fits asc below =
    (0, omega arith, omega arith, omega (arith, asc))
replays_clock (now ∷ nows) s p at to anchor v fits (h, hs) below =
    let d = now - at in
    let q = d * 90000 / 1000000000 in
    let after = Ascending-le now to nows hs in
    let small = ticks_of_lem d (omega (arith, after)) in
    let step = on_tick-Replaying s p at now anchor v in
    let (adv, last, low, high) =
      replays_clock nows
        (record s {
          last_emitted_pts_90khz = some (next_pts p at now);
          last_emit_wallclock_at = some now;
        })
        (next_pts p at now) now to anchor
        (record { open_gap = v.open_gap; emitted = refl; at_time = refl }) (omega arith) hs below in
    (
      q + adv,
      rw (step, replays) (omega (arith, last, small)),
      omega (arith, low, after),
      omega (arith, high, after),
    )
