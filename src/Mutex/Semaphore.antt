-- ===== src/Mutex/Semaphore.antt =====
-- `Semaphore` of gwn/mutex.h and gwn/mutex.cc, over the numbers that sem_init, sem_wait and sem_post
-- return: 0, or the number of an error, such as the interruption of a wait by a signal handler.
use gwn_framwork.Base.{ℕ, zero, suc, Text, codes}

-- A call comes to its end with this count, or throws `std::logic_error`.
pub data Outcome : Type 0 where
  counts : ℕ → Outcome
  throws : Text → Outcome

-- A wait can block as well.
pub data Waited : Type 0 where
  blocks : Waited
  comes_to : Outcome → Waited

-- The constructor.
unfoldable pub new_semaphore : ℕ → ℕ → Outcome
new_semaphore zero count = counts count
new_semaphore (suc e) count = throws (codes "sem_init error")

-- `wait`.
unfoldable pub wait : ℕ → ℕ → Waited
wait zero zero = blocks
wait zero (suc n) = comes_to (counts n)
wait (suc e) n = comes_to (throws (codes "sem_wait error"))

-- `notify`; its text names sem_wait.
unfoldable pub notify : ℕ → ℕ → Outcome
notify zero n = counts (suc n)
notify (suc e) n = throws (codes "sem_wait error")
