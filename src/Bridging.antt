-- ===== src/Bridging.antt =====
-- `BridgingPolicy` of src/gap_bridging.rs. Instants and durations are nanoseconds, and a timestamp is a u32.
pub mod Steady
pub mod Clock
pub mod First
mod Examples
use bairelay.Base.{
  ℕ, ◌+◌, ◌-◌, ◌*◌, ◌/◌, ◌%◌, min, List, [], ◌∷◌, Option, none, some, ltb, if◌then◌else◌,
}

pub data GapState : Type 0 where
  live : GapState
  bridging : GapState

abbrev pub video_clock_hz : ℕ
video_clock_hz = 90000

pub record BridgingPolicy : Type 0 where
  pub gap_threshold : ℕ
  pub state : GapState
  pub last_upstream_at : ℕ
  pub last_emitted_pts_90khz : Option ℕ
  pub last_emit_wallclock_at : Option ℕ

unfoldable pub new_policy : ℕ → ℕ → BridgingPolicy
new_policy gap_threshold now = record {
  gap_threshold = gap_threshold;
  state = live;
  last_upstream_at = now;
  last_emitted_pts_90khz = none;
  last_emit_wallclock_at = none;
}

unfoldable pub on_upstream_packet : BridgingPolicy → ℕ → BridgingPolicy
on_upstream_packet s now = record s { last_upstream_at = now }

unfoldable pub on_broadcast : BridgingPolicy → ℕ → ℕ → BridgingPolicy
on_broadcast s pts_90khz now = record s {
  state = live;
  last_emitted_pts_90khz = some pts_90khz;
  last_emit_wallclock_at = some now;
}

-- `(delta.as_nanos().saturating_mul(90_000) / 1_000_000_000) as u32`, in u128.
unfoldable pub ticks_of : ℕ → ℕ
ticks_of nanos =
    min (nanos * 90000) 340282366920938463463374607431768211455 / 1000000000 % 4294967296

unfoldable pub delta_90khz : BridgingPolicy → ℕ → ℕ
delta_90khz s now = elim s.last_emit_wallclock_at [
  | some last_at ↦ ticks_of (now - last_at)
  | none ↦ 0
]

-- `self.last_emitted_pts_90khz.unwrap_or(anchor)`
unfoldable pub replay_base : BridgingPolicy → ℕ → ℕ
replay_base s anchor = elim s.last_emitted_pts_90khz [ some p ↦ p | none ↦ anchor ]

unfoldable pub advance_replay_pts : BridgingPolicy → ℕ → ℕ → BridgingPolicy × ℕ
advance_replay_pts s anchor now =
    let synth = (replay_base s anchor + delta_90khz s now) % 4294967296 in
    (record s { last_emitted_pts_90khz = some synth; last_emit_wallclock_at = some now }, synth)

-- The first `if` of `on_tick`.
unfoldable pub detect_gap : BridgingPolicy → ℕ → BridgingPolicy
detect_gap s now =
    if ltb s.gap_threshold (now - s.last_upstream_at) then record s { state = bridging } else s

-- The rest of it. The closure `replay_anchor` is its result, which only an open gap looks at.
unfoldable pub bridge : BridgingPolicy → ℕ → Option ℕ → BridgingPolicy × Option ℕ
unfolding advance_replay_pts
bridge s now replay_anchor = elim s.state [
  | live ↦ (s, none)
  | bridging ↦ elim replay_anchor [
    | none ↦ (s, none)
    | some anchor ↦ let (s', synth) = advance_replay_pts s anchor now in (s', some synth)
  ]
]

unfoldable pub on_tick : BridgingPolicy → ℕ → Option ℕ → BridgingPolicy × Option ℕ
unfolding detect_gap bridge
on_tick s now replay_anchor = bridge (detect_gap s now) now replay_anchor
