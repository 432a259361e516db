-- ===== src/WakeLock/Steps.antt =====
-- The wake lock under threads: every interleaving of the atomic steps of `acquire`, `drop` and `idle_since`.
use bairelay.Base.{
  ℕ, ◌+◌, ◌-◌, ◌≤◌, ◌<◌, ◌≡◌, ◌≢◌, ◌⊎◌, inl, inr, refl, ◌==◌, none, some, Bool-cases, arith,
}
use bairelay.WakeLock.{
  WakeLock, new_lock, acquire_add, acquire_clear, release_sub, release_stamp, idle_since,
}

-- The lock, the clock, and the threads: guards in hand, threads between the two steps of an `acquire`,
-- and threads between the two steps of a `drop`. `used_until` is when the count last fell to 0.
pub record World : Type 0 where
  pub lock : WakeLock
  pub now : ℕ
  pub held : ℕ
  pub clearing : ℕ
  pub stamping : ℕ
  pub used_until : ℕ

abbrev pub start : World
start = record { lock = new_lock; now = 0; held = 0; clearing = 0; stamping = 0; used_until = 0 }

abbrev pub added_first : World → World
added_first w = record w { lock = acquire_add w.lock; clearing = w.clearing + 1 }

abbrev pub added_more : World → World
added_more w = record w { lock = acquire_add w.lock; held = w.held + 1 }

abbrev pub cleared : World → World
cleared w = record w { lock = acquire_clear w.lock; clearing = w.clearing - 1; held = w.held + 1 }

abbrev pub subtracted_last : World → World
subtracted_last w = record w {
  lock = release_sub w.lock;
  held = w.held - 1;
  stamping = w.stamping + 1;
  used_until = w.now;
}

abbrev pub subtracted_more : World → World
subtracted_more w = record w { lock = release_sub w.lock; held = w.held - 1 }

abbrev pub stamped : World → World
stamped w = record w { lock = release_stamp w.lock w.now; stamping = w.stamping - 1 }

abbrev pub passed : World → World
passed w = record w { now = w.now + 1 }

-- One atomic step of a thread, or of the clock.
pub data Step : World → World → Type 0 where
  add_first : (w : World) → w.lock.count ≡ 0 → Step w (added_first w)
  add_more : (w : World) → w.lock.count ≢ 0 → Step w (added_more w)
  clear : (w : World) → 0 < w.clearing → Step w (cleared w)
  sub_last : (w : World) → 0 < w.held → w.lock.count ≡ 1 → Step w (subtracted_last w)
  sub_more : (w : World) → 0 < w.held → w.lock.count ≢ 1 → Step w (subtracted_more w)
  stamp : (w : World) → 0 < w.stamping → Step w (stamped w)
  pass : (w : World) → Step w (passed w)

-- Any steps, in any order.
pub data Steps (from : World) : World → Type 0 where
  stay : Steps from from
  and_then : {v w : World} → Steps from v → Step v w → Steps from w

-- The worlds that can be reached.
abbrev pub Reach : World → Type 0
Reach w = Steps start w

-- The count is the number of guards in hand or being handed out, and the stamp, while no thread is between the two steps
-- of a `drop`, is not before the last use.
pub record IsSound (w : World) : Type 0 where
  pub counts : w.lock.count ≡ w.held + w.clearing
  pub past : w.used_until ≤ w.now
  pub stamp_is :
      (t : ℕ)
      → w.lock.last_release_at ≡ some t
      → w.lock.count ≡ 0
      → w.stamping ≡ 0
      → w.used_until ≤ t

Step-IsSound : {v w : World} → Step v w → IsSound v → IsSound w
unfolding acquire_add acquire_clear release_sub release_stamp
Step-IsSound (add_first v e) i = record {
  counts = omega (arith, i.counts);
  past = i.past;
  stamp_is = λ t f c z. absurd (omega arith);
}
Step-IsSound (add_more v e) i = record {
  counts = omega (arith, i.counts);
  past = i.past;
  stamp_is = λ t f c z. absurd (omega arith);
}
Step-IsSound (clear v e) i = record {
  counts = omega (arith, i.counts);
  past = i.past;
  stamp_is = λ t f c z. cc;
}
Step-IsSound (sub_last v e f) i = record {
  counts = omega (arith, i.counts);
  past = omega arith;
  stamp_is = λ t g c z. absurd (omega arith);
}
Step-IsSound (sub_more v e f) i = record {
  counts = omega (arith, i.counts);
  past = i.past;
  stamp_is = λ t g c z. absurd (omega (arith, f, i.counts));
}
Step-IsSound (stamp v e) i = record {
  counts = omega (arith, i.counts);
  past = i.past;
  stamp_is = λ t f c z. ground (arith, i.past);
}
Step-IsSound (pass v) i = record {
  counts = i.counts;
  past = omega (arith, i.past);
  stamp_is = λ t f c z. i.stamp_is t f c z;
}

pub Reach-IsSound : {w : World} → Reach w → IsSound w
Reach-IsSound stay = record { counts = refl; past = omega arith; stamp_is = λ t e c z. omega arith }
Reach-IsSound (and_then r step) = Step-IsSound step (Reach-IsSound r)

-- A stamp is either left as it was, or was written since.
pub record IsAfter (v w : World) : Type 0 where
  pub later : v.now ≤ w.now
  pub stamp_since :
      (t : ℕ) → w.lock.last_release_at ≡ some t → (v.lock.last_release_at ≡ some t) ⊎ (v.now ≤ t)

Step-IsAfter : {u v w : World} → Step v w → IsAfter u v → IsAfter u w
unfolding acquire_add acquire_clear release_sub release_stamp
Step-IsAfter (add_first v e) i = record { later = i.later; stamp_since = λ t f. i.stamp_since t f }
Step-IsAfter (add_more v e) i = record { later = i.later; stamp_since = λ t f. i.stamp_since t f }
Step-IsAfter (clear v e) i = record { later = i.later; stamp_since = λ t f. cc }
Step-IsAfter (sub_last v e f) i = record { later = i.later; stamp_since = λ t g. i.stamp_since t g }
Step-IsAfter (sub_more v e f) i = record { later = i.later; stamp_since = λ t g. i.stamp_since t g }
Step-IsAfter (stamp v e) i = record {
  later = i.later;
  stamp_since = λ t f. inr (ground (arith, i.later));
}
Step-IsAfter (pass v) i = record {
  later = omega (arith, i.later);
  stamp_since = λ t f. i.stamp_since t f;
}

pub Steps-IsAfter : {v w : World} → Steps v w → IsAfter v w
Steps-IsAfter stay = record { later = omega arith; stamp_since = λ t e. inl e }
Steps-IsAfter (and_then r step) = Step-IsAfter step (Steps-IsAfter r)

-- Where no thread is between the two steps of a drop when idle_since loads the count, it does not overestimate the idle
-- time up to that load, whatever steps come before it reads the timestamp.
pub idle_since-Steps :
    {v w : World} (t : ℕ)
    → Reach v
    → Steps v w
    → v.stamping ≡ 0
    → idle_since v.lock w.lock ≡ some t
    → v.used_until ≤ t
unfolding idle_since
idle_since-Steps {v} {w} t r steps quiet e =
    let i = Reach-IsSound r in
    elim (Bool-cases (v.lock.count == 0)) [
      | inr used ↦ absurd (none-ne-some (rw (used, idle_since) at e))
      | inl idle ↦ elim ((Steps-IsAfter steps).stamp_since t (rw (idle, idle_since) at e)) [
        | inl old ↦ i.stamp_is t old (ground (arith, idle)) quiet
        | inr new ↦ omega (arith, i.past, new)
      ]
    ]
  where
    none-ne-some : none ≢ some t
    none-ne-some f = cc
