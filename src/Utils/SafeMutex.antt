-- ===== src/Utils/SafeMutex.antt =====
-- utils/lock.go: `SafeMutex`, a read-write mutex that counts its holders and asserts on them.
pub mod Holding
use autumn.Prelude.{ℕ, ◌+◌, ◌-◌, Bool, ◌||◌, ltb, ◌==◌, if◌then◌else◌}
use autumn.Manager.Handler.{Reply, done, crashed, hung}

-- The holders of the mutex. The counters of the source follow its sync.RWMutex.
pub record SafeMutex : Type 0 where
  pub writer : ℕ
  pub readers : ℕ

abbrev pub free : SafeMutex
free = record { writer = 0; readers = 0 }

unfoldable pub already_locked : SafeMutex → Bool
already_locked m = ltb 0 m.writer

-- `hung`: with no other thread to unlock it, a held mutex blocks for ever.
unfoldable pub lock : SafeMutex → Reply SafeMutex
lock m =
    if ltb 0 m.writer || ltb 0 m.readers
    then hung
    else if m.writer + 1 == 1
    then done (record m { writer = m.writer + 1 })
    else crashed

-- The assertion that the count falls to 0, before the mutex itself is unlocked.
unfoldable pub unlock : SafeMutex → Reply SafeMutex
unlock m = if m.writer == 1 then done (record m { writer = 0 }) else crashed

unfoldable pub r_lock : SafeMutex → Reply SafeMutex
r_lock m = if ltb 0 m.writer then hung else done (record m { readers = m.readers + 1 })

-- `RUnlock` of a mutex with no reader is a fatal error.
unfoldable pub r_unlock : SafeMutex → Reply SafeMutex
r_unlock m = if ltb 0 m.readers then done (record m { readers = m.readers - 1 }) else crashed

unfoldable pub assert_lock : SafeMutex → Reply (Unit {0})
unfolding already_locked
assert_lock m = if already_locked m then done tt else crashed

unfoldable pub assert_r_lock : SafeMutex → Reply (Unit {0})
assert_r_lock m = if ltb 0 m.readers || m.writer == 1 then done tt else crashed
