-- ===== src/WakeLock/Race.antt =====
-- The two windows in which the watchdog is misled: between the two steps of a `drop`, and between the two reads of
-- `idle_since`.
use bairelay.Base.{ℕ, zero, suc, ◌≤◌, ◌≡◌, refl, subst, sym, some, true, le→leb, arith}
use bairelay.WakeLock.{
  acquire_add, acquire_clear, release_sub, release_stamp, idle_since, idle_for, should_disconnect,
}
use bairelay.WakeLock.Steps.{
  World, start, added_first, cleared, subtracted_last, stamped, passed, add_first, clear, sub_last,
  stamp, pass, Steps, stay, and_then, Reach,
}

-- A lock that was taken and dropped once.
abbrev used_once : World
used_once = stamped (subtracted_last (cleared (added_first start)))

-- One guard is dropped; before its stamp is written, a second thread takes the lock; then the stamp is
-- written while the second thread holds the lock.
abbrev held_again : World
held_again = stamped (cleared (added_first (subtracted_last (cleared (added_first start)))))

Reach-held_again : Reach held_again
unfolding acquire_add acquire_clear release_sub release_stamp
Reach-held_again =
    and_then
      (and_then
        (and_then
          (and_then (and_then (and_then stay (add_first start refl)) (clear _ (omega arith)))
            (sub_last _ (omega arith) refl))
          (add_first _ refl))
        (clear _ (omega arith)))
      (stamp _ (omega arith))

abbrev pass_times : ℕ → World → World
pass_times zero w = w
pass_times (suc k) w = passed (pass_times k w)

Reach-pass_times : (k : ℕ) (w : World) → Reach w → Reach (pass_times k w)
Reach-pass_times zero w r = r
Reach-pass_times (suc k) w r = and_then (Reach-pass_times k w r) (pass (pass_times k w))

-- The second thread has held the lock for k nanoseconds, and nothing else changed.
record IsHeld (k : ℕ) (w : World) : Type 0 where
  now_is : w.now ≡ k
  count_is : w.lock.count ≡ 1
  held_is : w.held ≡ 1
  stamp_is : w.lock.last_release_at ≡ some 0

pass_times-IsHeld : (k : ℕ) → IsHeld k (pass_times k held_again)
unfolding acquire_add acquire_clear release_sub release_stamp
pass_times-IsHeld zero = record { now_is = refl; count_is = refl; held_is = refl; stamp_is = refl }
pass_times-IsHeld (suc k) =
    let i = pass_times-IsHeld k in
    record {
      now_is = omega (arith, i.now_is);
      count_is = i.count_is;
      held_is = i.held_is;
      stamp_is = i.stamp_is;
    }

-- While a thread is between the two steps of a drop, the idle time can be overestimated: for
-- every k there is a reachable world in which the lock was in use until this very nanosecond,
-- and the watchdog, making its reads at that instant, sees it idle for k and, for any grace up
-- to k, asks for a disconnect.
pub should_disconnect_race :
    (k grace : ℕ)
    → grace ≤ k
    → (w : World) × Reach w
      × (w.used_until ≡ w.now)
      × (idle_for w.lock w.lock w.now ≡ some k)
      × (should_disconnect true true (idle_for w.lock w.lock w.now) grace ≡ true)
unfolding idle_for idle_since release_sub should_disconnect
should_disconnect_race k grace h =
    let w = pass_times k held_again in
    let i = pass_times-IsHeld k in
    let e : idle_for (subtracted_last w).lock (subtracted_last w).lock (subtracted_last w).now
        ≡ some k =
      ground (arith, i.now_is, i.count_is, i.stamp_is) in
    (
      subtracted_last w,
      and_then (Reach-pass_times k held_again Reach-held_again)
          (sub_last w (omega (arith, i.held_is)) i.count_is),
      refl,
      e,
      subst (λ o. should_disconnect true true o grace ≡ true) (sym e) (le→leb grace k h),
    )

-- The lock has been idle for k nanoseconds, and nothing else changed.
record IsIdle (k : ℕ) (w : World) : Type 0 where
  now_is : w.now ≡ k
  count_is : w.lock.count ≡ 0
  held_is : w.held ≡ 0
  clearing_is : w.clearing ≡ 0
  stamping_is : w.stamping ≡ 0
  stamp_is : w.lock.last_release_at ≡ some 0
