-- ===== src/WakeLock.antt =====
-- The wake lock of src/wake_lock.rs, and the watchdog's test of src/watchdog.rs that reads it. Times are nanoseconds.
-- `count` is the number of guards alive, which memory keeps below the width of a usize. An operation
-- that takes several atomic steps is the composition of them; WakeLock/Steps interleaves them, those of `idle_since`
-- included.
pub mod Steps
pub mod Watchdog
pub mod Race
mod Examples
use bairelay.Base.{
  ℕ, ◌+◌, ◌-◌, Bool, true, false, ◌&&◌, Option, none, some, leb, ◌==◌, if◌then◌else◌,
}

pub record WakeLock : Type 0 where
  pub count : ℕ
  pub last_release_at : Option ℕ
  pub acquire_permit : Bool
  pub release_permit : Bool

abbrev pub new_lock : WakeLock
new_lock = record {
  count = 0;
  last_release_at = none;
  acquire_permit = false;
  release_permit = false;
}

-- `count.fetch_add(1)`
unfoldable pub acquire_add : WakeLock → WakeLock
acquire_add s = record s { count = s.count + 1 }

-- What `acquire` does after a transition from 0 to 1.
unfoldable pub acquire_clear : WakeLock → WakeLock
acquire_clear s = record s { last_release_at = none; acquire_permit = true }

unfoldable pub acquire : WakeLock → WakeLock
unfolding acquire_add acquire_clear
acquire s = if s.count == 0 then acquire_clear (acquire_add s) else acquire_add s

-- `count.fetch_sub(1)`
unfoldable pub release_sub : WakeLock → WakeLock
release_sub s = record s { count = s.count - 1 }

-- What `drop` does after a transition from 1 to 0.
unfoldable pub release_stamp : WakeLock → ℕ → WakeLock
release_stamp s now = record s { last_release_at = some now; release_permit = true }

unfoldable pub drop_guard : WakeLock → ℕ → WakeLock
unfolding release_sub release_stamp
drop_guard s now = if s.count == 1 then release_stamp (release_sub s) now else release_sub s

abbrev pub is_idle : WakeLock → Bool
is_idle s = s.count == 0

-- The count is loaded before the timestamp is read, and threads may run in between: the lock at the load, and the lock
-- at the read.
unfoldable pub idle_since : WakeLock → WakeLock → Option ℕ
idle_since at_load at_read = if is_idle at_load then at_read.last_release_at else none

-- `idle_since().map(|t| t.elapsed())`, where `now` is the time of `elapsed`, which stops at zero.
unfoldable pub idle_for : WakeLock → WakeLock → ℕ → Option ℕ
unfolding idle_since
idle_for at_load at_read now = elim (idle_since at_load at_read) [
  | none ↦ none
  | some t ↦ some (now - t)
]

unfoldable pub should_disconnect : Bool → Bool → Option ℕ → ℕ → Bool
should_disconnect idle_disconnect connected none grace = false
should_disconnect idle_disconnect connected (some idle) grace =
    idle_disconnect && connected && leb grace idle
