-- ===== src/Mutex/Locks.antt =====
-- The lock classes of gwn/mutex.h, which call functions of the system, and the guards that their
-- typedefs name.
use gwn_framwork.Base.{
  ℕ, zero, suc, ◌≡◌, refl, ap, ◌∙◌, Bool, List, [], ◌∷◌, Option, none, some, and_then,
}
use gwn_framwork.Mutex.{
  Class, scoped, reading, writing, Call, lock, rdlock, wrlock, unlock, acquire, new_guard,
  use_guard, destroy_guard,
}
use gwn_framwork.Mutex.Guards.{pairs, destroy_guard_lem}

-- The classes.
pub data Kind : Type 0 where
  mutex rwmutex spinlock : Kind

-- The functions of the system: `pthread_mutex_lock` and so on.
pub data Function : Type 0 where
  mutex_init mutex_destroy mutex_lock mutex_unlock : Function
  rwlock_init rwlock_destroy rwlock_rdlock rwlock_wrlock rwlock_unlock : Function
  spin_init spin_destroy spin_lock spin_unlock : Function

-- The constructors and the destructors.
unfoldable pub construct : Kind → Function
construct mutex = mutex_init
construct rwmutex = rwlock_init
construct spinlock = spin_init

unfoldable pub destruct : Kind → Function
destruct mutex = mutex_destroy
destruct rwmutex = rwlock_destroy
destruct spinlock = spin_destroy

-- The methods; `none` where the class has no such one.
unfoldable pub method : Kind → Call → Option Function
method mutex lock = some mutex_lock
method mutex unlock = some mutex_unlock
method rwmutex rdlock = some rwlock_rdlock
method rwmutex wrlock = some rwlock_wrlock
method rwmutex unlock = some rwlock_unlock
method spinlock lock = some spin_lock
method spinlock unlock = some spin_unlock
method k c = none

-- The typedefs `Lock`, `ReadLock` and `WriteLock`.
pub data Typedef : Kind → Class → Type 0 where
  mutex_lock_type : Typedef mutex scoped
  read_lock_type : Typedef rwmutex reading
  write_lock_type : Typedef rwmutex writing
  spin_lock_type : Typedef spinlock scoped

-- What the calls of a guard call.
unfoldable pub functions : Kind → List Call → Option (List Function)
unfolding method
functions k [] = some []
functions k (c ∷ cs) = and_then (method k c) (λ f. and_then (functions k cs) (λ fs. some (f ∷ fs)))

-- The function that acquires, and the one that releases, for each typedef.
abbrev pub acquires : {k : Kind} {c : Class} → Typedef k c → Function
acquires mutex_lock_type = mutex_lock
acquires read_lock_type = rwlock_rdlock
acquires write_lock_type = rwlock_wrlock
acquires spin_lock_type = spin_lock

abbrev pub releases : Kind → Function
releases mutex = mutex_unlock
releases rwmutex = rwlock_unlock
releases spinlock = spin_unlock

abbrev pub function_pairs : Function → Function → ℕ → List Function
function_pairs f g zero = []
function_pairs f g (suc n) = f ∷ g ∷ function_pairs f g n

functions-pairs :
    {k : Kind} {c : Class} (t : Typedef k c) (n : ℕ)
    → functions k (pairs c n) ≡ some (function_pairs (acquires t) (releases k) n)
unfolding functions acquire
functions-pairs t zero = refl
functions-pairs mutex_lock_type (suc n) = rw (functions-pairs mutex_lock_type n) refl
functions-pairs read_lock_type (suc n) = rw (functions-pairs read_lock_type n) refl
functions-pairs write_lock_type (suc n) = rw (functions-pairs write_lock_type n) refl
functions-pairs spin_lock_type (suc n) = rw (functions-pairs spin_lock_type n) refl

-- Each guard that a lock class names calls only methods that the class has, whatever its scope does
-- with it, and from its constructor to its destructor the system gets pairs of the function that
-- acquires, for reading or for writing as the guard says, and the one that releases, at least one.
pub guard_functions :
    {k : Kind} {c : Class} (t : Typedef k c) (uses : List Bool)
    → (n : ℕ) × (functions k (destroy_guard (use_guard uses (new_guard c))).calls
        ≡ some (function_pairs (acquires t) (releases k) (suc n)))
guard_functions {k} {c} t uses =
    let (n, e) = destroy_guard_lem c uses in (n, ap (functions k) e ∙ functions-pairs t (suc n))
