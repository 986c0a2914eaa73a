-- ===== src/Utils/SafeMutex/Holding.antt =====
-- What a held `SafeMutex` allows.
use autumn.Prelude.{◌≡◌, arith}
use autumn.Manager.Handler.{done, crashed, hung}
use autumn.Utils.SafeMutex.{SafeMutex, lock, unlock, r_lock, r_unlock, assert_lock}

-- After `Lock`, another `Lock` and an `RLock` block, `AssertLock` passes, and `Unlock` leads back.
pub unlock-lock :
    (m m' : SafeMutex)
    → lock m ≡ done m'
    → (lock m' ≡ hung) × (r_lock m' ≡ hung) × (assert_lock m' ≡ done tt) × (unlock m' ≡ done m)
unfolding lock unlock r_lock assert_lock
unlock-lock m m' h = (ground (arith, h), ground (arith, h), ground (arith, h), ground (arith, h))

-- After `RLock`, a `Lock` blocks, `Unlock` fails its assertion, and `RUnlock` leads back.
pub unlock-r_lock :
    (m m' : SafeMutex)
    → r_lock m ≡ done m'
    → (lock m' ≡ hung) × (unlock m' ≡ crashed) × (r_unlock m' ≡ done m)
unfolding lock unlock r_lock r_unlock
unlock-r_lock m m' h = (ground (arith, h), ground (arith, h), ground (arith, h))
