-- ===== src/Bridging/Steady.antt =====
-- Runs of the policy of src/gap_bridging.rs without a gap.
use bairelay.Base.{ℕ, ◌-◌, ◌≤◌, ◌≡◌, refl, List, [], ◌∷◌, Option, none, All, arith}
use bairelay.Bridging.{
  live, BridgingPolicy, on_upstream_packet, on_broadcast, detect_gap, bridge, on_tick,
}

-- What happens to a source.
pub data Event : Type 0 where
  upstream : ℕ → Event
  broadcast : ℕ → ℕ → Event
  tick : ℕ → Option ℕ → Event

-- The events in turn, with what the ticks return.
unfoldable pub run : BridgingPolicy → List Event → BridgingPolicy × List (Option ℕ)
run s [] = (s, [])
run s (upstream now ∷ es) = run (on_upstream_packet s now) es
run s (broadcast pts now ∷ es) = run (on_broadcast s pts now) es
run s (tick now anchor ∷ es) =
    let (s', out) = on_tick s now anchor in let (s'', outs) = run s' es in (s'', out ∷ outs)

-- Every tick comes within the threshold of the last packet from upstream.
abbrev pub Steady : ℕ → ℕ → List Event → Type 0
Steady threshold last [] = Unit {0}
Steady threshold last (upstream now ∷ es) = Steady threshold now es
Steady threshold last (broadcast pts now ∷ es) = Steady threshold last es
Steady threshold last (tick now anchor ∷ es) = (now - last ≤ threshold) × Steady threshold last es

on_tick_steady :
    (s : BridgingPolicy) (now : ℕ) (anchor : Option ℕ)
    → s.state ≡ live
    → now - s.last_upstream_at ≤ s.gap_threshold
    → on_tick s now anchor ≡ (s, none)
unfolding on_tick detect_gap bridge
on_tick_steady s now anchor e h = ground arith

-- While every tick comes within the threshold of the last packet from upstream, a live source
-- stays live and replays nothing, whatever is broadcast and whatever could be replayed.
run-Steady :
    (s : BridgingPolicy) (es : List Event)
    → s.state ≡ live
    → Steady s.gap_threshold s.last_upstream_at es
    → ((run s es).0.state ≡ live) × All (λ out. out ≡ none) (run s es).1
unfolding run on_upstream_packet on_broadcast
run-Steady s [] e h = (e, tt)
run-Steady s (upstream now ∷ es) e h = run-Steady (on_upstream_packet s now) es e h
run-Steady s (broadcast pts now ∷ es) e h = run-Steady (on_broadcast s pts now) es refl h
run-Steady s (tick now anchor ∷ es) e (h, hs) =
    let rest = run-Steady s es e hs in
    rw (on_tick_steady s now anchor e h, run) (rest.0, (refl, rest.1))
