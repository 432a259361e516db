-- ===== src/WakeLock/Watchdog.antt =====
-- What the watchdog's decision says of the threads, from the load of the count to the look at the clock.
use bairelay.Base.{
  ℕ, ◌+◌, ◌-◌, ◌≤◌, ◌<◌, ◌≡◌, ◌⊎◌, inl, inr, Bool, true, false, ◌&&◌, ◌==◌, leb, none, some,
  Bool-cases, Option-cases, arith,
}
use bairelay.WakeLock.{idle_since, idle_for, should_disconnect}
use bairelay.WakeLock.Steps.{World, Steps, Reach, Reach-IsSound, Steps-IsAfter, idle_since-Steps}

-- An instant is returned only where the count was 0 at the load.
idle_since-some : (v w : World) (t : ℕ) → idle_since v.lock w.lock ≡ some t → v.lock.count ≡ 0
unfolding idle_since
idle_since-some v w t e = elim (Bool-cases (v.lock.count == 0)) [
  | inl idle ↦ ground (arith, idle)
  | inr used ↦ absurd (none-ne-some (rw (used, idle_since) at e))
]
  where
    none-ne-some : none ≡ some t → ⊥
    none-ne-some f = cc

-- Whatever atomic steps of acquire and drop come before the watchdog loads the count, between
-- that and its read of the timestamp, and before it looks at the clock, it asks for a disconnect
-- only of a connected camera that opted in, and only where at the load no guard was in hand or
-- being handed out and, unless a thread was then between the two steps of a drop, the last use
-- before the load had ended the grace ago at least.
pub should_disconnect-Steps :
    (v w x : World) (idle_disconnect connected : Bool) (grace : ℕ)
    → Reach v
    → Steps v w
    → Steps w x
    → should_disconnect idle_disconnect connected (idle_for v.lock w.lock x.now) grace ≡ true
    → (idle_disconnect ≡ true)
      × (connected ≡ true)
      × (v.held ≡ 0)
      × (v.clearing ≡ 0)
      × ((0 < v.stamping) ⊎ (v.used_until + grace ≤ x.now))
unfolding should_disconnect idle_for
should_disconnect-Steps v w x idle_disconnect connected grace r first second h =
    elim (Option-cases (idle_since v.lock w.lock)) [
      | inl e ↦ absurd (false-ne-true (rw (e, idle_for, should_disconnect) at h))
      | inr (t, e) ↦
          let i = Reach-IsSound r in
          let zero_count = idle_since-some v w t e in
          let asks : (idle_disconnect && connected && leb grace (x.now - t)) ≡ true =
            rw (e, idle_for, should_disconnect) at h in
          let (opted, up, long) = all_true idle_disconnect connected (leb grace (x.now - t)) asks in
          let l1 = (Steps-IsAfter first).later in
          let l2 = (Steps-IsAfter second).later in
          (
            opted,
            up,
            omega (arith, i.counts, zero_count),
            omega (arith, i.counts, zero_count),
            elim (Bool-cases (v.stamping == 0)) [
              | inr busy ↦ inl (ground (arith, busy))
              | inl quiet ↦
                  let used = idle_since-Steps t r first (ground (arith, quiet)) e in
                  let waited : grace ≤ x.now - t = ground (arith, long) in
                  inr (omega (arith, used, waited, i.past, l1, l2))
            ],
          )
    ]
  where
    false-ne-true : false ≡ true → ⊥
    false-ne-true f = cc

    all_true : (a b c : Bool) → (a && b && c) ≡ true → (a ≡ true) × (b ≡ true) × (c ≡ true)
    all_true true true true k = (cc, cc, cc)
    all_true true true false k = absurd (cc)
    all_true true false c k = absurd (cc)
    all_true false b c k = absurd (cc)
