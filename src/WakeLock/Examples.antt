-- ===== src/WakeLock/Examples.antt =====
-- The theorems of the wake lock on a lock that was taken and dropped once, while a second thread takes it again.
use bairelay.Base.{◌+◌, ◌≤◌, ◌<◌, ◌≡◌, ◌⊎◌, refl, true, some, arith}
use bairelay.WakeLock.{
  acquire_add, acquire_clear, release_sub, release_stamp, idle_since, idle_for, should_disconnect,
}
use bairelay.WakeLock.Steps.{
  World, start, added_first, cleared, subtracted_last, stamped, passed, add_first, clear, sub_last,
  stamp, pass, Steps, stay, and_then, Reach,
}
use bairelay.WakeLock.Watchdog.{should_disconnect-Steps}
use bairelay.WakeLock.Race.{should_disconnect_race}

abbrev used_once : World
used_once = passed (stamped (subtracted_last (cleared (added_first start))))

used_once-Reach : Reach used_once
unfolding acquire_add acquire_clear release_sub release_stamp
used_once-Reach =
    and_then
      (and_then
        (and_then (and_then (and_then stay (add_first start refl)) (clear _ (omega arith)))
          (sub_last _ (omega arith) refl))
        (stamp _ (omega arith)))
      (pass _)

should_disconnect-Steps_example :
    (true ≡ true)
    × (true ≡ true)
    × (used_once.held ≡ 0)
    × (used_once.clearing ≡ 0)
    × ((0 < used_once.stamping)
        ⊎ (used_once.used_until + 1 ≤ (cleared (added_first used_once)).now))
unfolding acquire_add acquire_clear release_sub release_stamp should_disconnect idle_for idle_since
should_disconnect-Steps_example =
    should_disconnect-Steps used_once (added_first used_once) (cleared (added_first used_once)) true
      true 1 used_once-Reach (and_then stay (add_first used_once refl))
      (and_then stay (clear (added_first used_once) (omega arith))) refl

should_disconnect_race_example :
    (w : World) × Reach w
    × (w.used_until ≡ w.now)
    × (idle_for w.lock w.lock w.now ≡ some 3600000000000)
    × (should_disconnect true true (idle_for w.lock w.lock w.now) 5000000000 ≡ true)
should_disconnect_race_example = should_disconnect_race 3600000000000 5000000000 (omega arith)
