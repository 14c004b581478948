-- ===== src/Scheduler/Control.antt =====
-- The life cycle of gwn/scheduler.cc: the constructor, `start` and `stop`. The thread that calls is
-- named by its id; `GetThis()` is told by whether it is this scheduler, or any.
use gwn_framwork.Base.{
  ℕ, zero, suc, ◌-◌, ◌≡◌, refl, Bool, true, false, not, ◌&&◌, ◌||◌, List, [], ◌∷◌, ◌++◌, Option,
  none, some, arith, ◌==◌, if◌then◌else◌, is_empty, ltb,
}
use gwn_framwork.Fiber.{
  init, term, state_eq, run, Result, ok, ◌>>=◌, ◌>>◌, assert, Fibers, Tls, read, get_this,
  new_fiber,
}
use gwn_framwork.Scheduler.{Sched, tickle, tickle_if, is_some, stopping}

-- `Scheduler::Scheduler`. `other` is `GetThis() != nullptr`.
managed : ℕ → Bool → ℕ → Fibers → Tls → Result (Sched × Tls)
unfolding get_this new_fiber
managed me other threads fs t = do
  let (a, fs', t') = get_this fs t
  assert (not other)
  let (r, fs'') = new_fiber run 0 true fs'
  ok (
    record {
      fibers = fs'';
      queue = [];
      active = 0;
      idle_count = 0;
      is_stopping = true;
      auto_stop = false;
      thread_count = threads - 1;
      thread_ids = me ∷ [];
      root_thread = some me;
      root_fiber = some r;
      threads = 0;
      tickles = 0;
    },
    record t' { scheduler_fiber = some r },
  )

unfoldable pub new_scheduler : ℕ → Bool → Bool → ℕ → Fibers → Tls → Result (Sched × Tls)
unfolding managed
new_scheduler threads cur_managed other me fs t =
    assert (ltb 0 threads)
    >> (if cur_managed
        then managed me other threads fs t
        else ok (
          record {
            fibers = fs;
            queue = [];
            active = 0;
            idle_count = 0;
            is_stopping = true;
            auto_stop = false;
            thread_count = threads;
            thread_ids = [];
            root_thread = none;
            root_fiber = none;
            threads = 0;
            tickles = 0;
          },
          t,
        ))

-- The ids of the first `n` threads that the system makes.
unfoldable pub ids_from : (ℕ → ℕ) → ℕ → ℕ → List ℕ
ids_from id i zero = []
ids_from id i (suc n) = id i ∷ ids_from id (suc i) n

-- `Scheduler::start`: `id i` is the id of the thread that is made `i`-th.
unfoldable pub start : (ℕ → ℕ) → Sched → Result Sched
unfolding ids_from
start id s =
    if not s.is_stopping
    then ok s
    else (assert (s.threads == 0)
        >> ok (record s {
          is_stopping = false;
          threads = s.thread_count;
          thread_ids = s.thread_ids ++ ids_from id 0 s.thread_count;
        }))

-- What `stop` does after its requests: it returns, calls the root fiber and joins, or joins.
pub data Next : Type 0 where
  returns calls_root joins : Next

-- `m_rootFiber && m_threadCount == 0 && (getState() == TERM || getState() == INIT)`.
root_idle : Sched → Option ℕ → Result Bool
unfolding state_eq
root_idle s none = ok false
root_idle s (some r) = do
  f ← read s.fibers r
  ok (s.thread_count == 0 && (state_eq f.state term || state_eq f.state init))

tickles : ℕ → Sched → Sched
tickles zero s = s
tickles (suc n) s = tickles n (tickle s)

-- `stop` behind its first test. `current` is `GetThis() == this`.
request : Bool → Sched → Result (Sched × Next)
unfolding tickles stopping
request current s = do
  assert (if is_some s.root_thread then current else not current)
  let s₁ = tickles s.thread_count (record s { is_stopping = true })
  let s₂ = tickle_if (is_some s.root_fiber) s₁
  ok (s₂, if is_some s.root_fiber && not (stopping s₂) then calls_root else joins)

-- `Scheduler::stop`, up to the call of the root fiber or the joins.
unfoldable pub stop : Bool → Sched → Result (Sched × Next)
unfolding root_idle request stopping
stop current s = do
  let s₁ = record s { auto_stop = true }
  idle ← root_idle s₁ s₁.root_fiber
  let s₂ = record s₁ { is_stopping = true }
  if idle && stopping s₂ then ok (s₂, returns) else request current (if idle then s₂ else s₁)

-- The end of `stop`: the threads are taken out of the scheduler and joined.
unfoldable pub join_threads : Sched → Sched
join_threads s = record s { threads = 0 }

tickles-keeps :
    (n : ℕ) (s : Sched)
    → ((tickles n s).auto_stop ≡ s.auto_stop)
      × ((tickles n s).is_stopping ≡ s.is_stopping)
      × ((tickles n s).queue ≡ s.queue)
      × ((tickles n s).active ≡ s.active)
unfolding tickles
tickles-keeps zero s = (refl, refl, refl, refl)
tickles-keeps (suc n) s = tickles-keeps n (tickle s)

-- Whatever branch `stop` takes without a fault, it keeps the queue and the count of active threads,
-- and from then on `stopping` asks only whether the queue is empty and no thread is active.
pub stop-stopping :
    (current : Bool) (s s' : Sched) (next : Next)
    → stop current s ≡ ok (s', next)
    → (s'.queue ≡ s.queue)
      × (s'.active ≡ s.active)
      × (stopping s' ≡ (is_empty s.queue && s.active == 0))
unfolding stop stopping
stop-stopping current s s' next h =
    ground (arith, tickles-keeps s.thread_count (record s { auto_stop = true; is_stopping = true }))

pub stop-is_stopping :
    (current : Bool) (s s' : Sched) (next : Next)
    → stop current s ≡ ok (s', next)
    → s'.is_stopping ≡ true
unfolding stop
stop-is_stopping current s s' next h =
    ground (arith, tickles-keeps s.thread_count (record s { auto_stop = true; is_stopping = true }))

-- A scheduler that is started and not stopped stays as it is at another start.
pub start_again : (id id' : ℕ → ℕ) (s s' : Sched) → start id s ≡ ok s' → start id' s' ≡ ok s'
unfolding start
start_again id id' s s' h = ground arith

tickles-fibers : (n : ℕ) (s : Sched) → (tickles n s).fibers ≡ s.fibers
unfolding tickles
tickles-fibers zero s = refl
tickles-fibers (suc n) s = tickles-fibers n (tickle s)

pub stop-fibers :
    (current : Bool) (s s' : Sched) (next : Next)
    → stop current s ≡ ok (s', next)
    → s'.fibers ≡ s.fibers
unfolding stop
stop-fibers current s s' next h =
    ground
      (arith, tickles-fibers s.thread_count (record s { auto_stop = true; is_stopping = true }))

pub start-keeps :
    (id : ℕ → ℕ) (s s' : Sched) → start id s ≡ ok s' → (s'.queue ≡ s.queue) × (s'.fibers ≡ s.fibers)
unfolding start
start-keeps id s s' h = ground arith
