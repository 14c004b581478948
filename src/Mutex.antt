-- ===== src/Mutex.antt =====
-- The scoped locks of gwn/mutex.h. What a guard calls on its mutex is a list of calls, in their
-- order: `lock`, `rdlock` or `wrlock`, by the class of the guard, and `unlock`.
pub mod Guards
pub mod Locks
pub mod Semaphore
use gwn_framwork.Base.{Bool, true, false, List, [], ◌∷◌, ◌++◌, if◌then◌else◌}

-- `ScopedLockImpl`, `ReadScopedLockImpl` and `WriteScopedLockImpl`.
pub data Class : Type 0 where
  scoped reading writing : Class

-- The calls on the mutex.
pub data Call : Type 0 where
  lock rdlock wrlock unlock : Call

unfoldable pub acquire : Class → Call
acquire scoped = lock
acquire reading = rdlock
acquire writing = wrlock

-- A guard with its `m_locked`, and the calls that it has made.
pub record Guard : Type 0 where
  pub class : Class
  pub locked : Bool
  pub calls : List Call

-- The constructor.
unfoldable pub new_guard : Class → Guard
unfolding acquire
new_guard c = record { class = c; locked = true; calls = acquire c ∷ [] }

-- `lock()`.
unfoldable pub lock_again : Guard → Guard
unfolding acquire
lock_again g =
    if g.locked then g else record g { locked = true; calls = g.calls ++ acquire g.class ∷ [] }

-- `unlock()`.
unfoldable pub release : Guard → Guard
release g = if g.locked then record g { locked = false; calls = g.calls ++ unlock ∷ [] } else g

-- The destructor.
unfoldable pub destroy_guard : Guard → Guard
unfolding release
destroy_guard g = release g

-- What the scope of a guard does with it: any number of `lock()`, for true, and `unlock()`.
unfoldable pub use_guard : List Bool → Guard → Guard
unfolding lock_again release
use_guard [] g = g
use_guard (true ∷ uses) g = use_guard uses (lock_again g)
use_guard (false ∷ uses) g = use_guard uses (release g)
