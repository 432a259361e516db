-- ===== src/MqttBackoff/Examples.antt =====
-- Three errors within two minutes.
use bairelay.Base.{ℕ, ◌≡◌, List, [], ◌∷◌, All, arith}
use bairelay.MqttBackoff.{new_backoff, reset}
use bairelay.MqttBackoff.Logs.{record_all, logged, Spaced, Covered, InBounds, record_all-reset}

abbrev later : List ℕ
later = 30000000000 ∷ 100000000000 ∷ []

record_all-reset_example :
    let rs = record_all (reset new_backoff) (1000 ∷ later) in
    (ls : List ℕ) × (logged (1000 ∷ later) rs ≡ 1000 ∷ ls)
    × Spaced 1000 ls
    × All (Covered (1000 ∷ ls)) later
    × All InBounds rs
record_all-reset_example = record_all-reset new_backoff 1000 later (omega arith, (omega arith, tt))
