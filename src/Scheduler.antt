-- ===== src/Scheduler.antt =====
-- gwn/scheduler.h and gwn/scheduler.cc: the state of a scheduler, the task queue with its two
-- critical sections, and the life cycle (constructor, `start`, `stop`, `stopping`). A scheduler is
-- one object, and a section under its mutex is one function. `tickle` writes a log line: its calls
-- are counted.
pub mod Queue
pub mod Worker
pub mod Balance
pub mod Control
pub mod System
pub mod Drain
pub mod This
pub mod Whole
pub mod Crew
pub mod Tally
use gwn_framwork.Base.{
  ℕ, ◌+◌, Bool, true, false, not, ◌&&◌, ◌||◌, List, [], ◌∷◌, ◌++◌, Option, none, some, ◌==◌,
  if◌then◌else◌, is_empty,
}
use gwn_framwork.Fiber.{exec, state_eq, Code, Result, ok, ◌>>=◌, assert, Fibers, read, inc64}

-- `FiberAndThread`; the thread -1, which stands for any, is `none`.
pub record Task : Type 0 where
  pub fiber : Option ℕ
  pub cb : Option Code
  pub thread : Option ℕ

-- `FiberAndThread()` and `FiberAndThread::reset`.
abbrev pub no_task : Task
no_task = record { fiber = none; cb = none; thread = none }

pub record Sched : Type 0 where
  pub fibers : Fibers
  pub queue : List Task
  pub active : ℕ
  pub idle_count : ℕ
  pub is_stopping : Bool
  pub auto_stop : Bool
  pub thread_count : ℕ
  pub thread_ids : List ℕ
  pub root_thread : Option ℕ
  pub root_fiber : Option ℕ
  pub threads : ℕ
  pub tickles : ℕ

-- `Scheduler::tickle`.
abbrev pub tickle : Sched → Sched
tickle s = record s { tickles = s.tickles + 1 }

abbrev pub tickle_if : Bool → Sched → Sched
tickle_if b s = if b then tickle s else s

abbrev pub is_some {ℓ} : {A : Type ℓ} → Option A → Bool
is_some none = false
is_some (some a) = true

-- `ft.fiber || ft.cb`.
abbrev pub has_work : Task → Bool
has_work ft = is_some ft.fiber || is_some ft.cb

-- `scheduleNoLock`: the new state, and `need_tickle`.
unfoldable pub schedule_no_lock : Task → Sched → Sched × Bool
schedule_no_lock ft s =
    (if has_work ft then record s { queue = s.queue ++ ft ∷ [] } else s, is_empty s.queue)

-- `schedule(fc, thread)`.
unfoldable pub schedule : Task → Sched → Sched
unfolding schedule_no_lock
schedule ft s = let (s', need_tickle) = schedule_no_lock ft s in tickle_if need_tickle s'

-- The loop of `schedule(begin, end)`, over callbacks or fibers whose pointers are taken.
unfoldable pub schedule_loop : List Task → Sched → Bool → Sched × Bool
schedule_loop [] s need_tickle = (s, need_tickle)
schedule_loop (ft ∷ fts) s need_tickle =
    schedule_loop fts (schedule_no_lock ft s).0 ((schedule_no_lock ft s).1 || need_tickle)

-- `schedule(begin, end)`: each item is for any thread.
unfoldable pub schedule_all : List Task → Sched → Sched
schedule_all fts s = let (s', need_tickle) = schedule_loop fts s false in tickle_if need_tickle s'

-- `it->thread != -1 && it->thread != gwn::GetThreadId()`.
unfoldable pub is_foreign : ℕ → Option ℕ → Bool
is_foreign me none = false
is_foreign me (some t) = not (t == me)

-- `it->fiber && it->fiber->getState() == Fiber::EXEC`.
unfoldable pub is_executing : Fibers → Option ℕ → Result Bool
unfolding state_eq
is_executing fs none = ok false
is_executing fs (some a) = do f ← read fs a; ok (state_eq f.state exec)

-- What the search in `run` finds: the task taken, the queue without it, and `tickle_me`.
pub record Pick : Type 0 where
  pub task : Option Task
  pub rest : List Task
  pub tickle_me : Bool

-- An entry is passed over.
abbrev pub keep : Task → Bool → Pick → Pick
keep ft foreign p = record p { rest = ft ∷ p.rest; tickle_me = foreign || p.tickle_me }

-- At an entry for this thread: one whose fiber is executing is passed over, any other is taken.
pick_own : Task → List Task → Result Pick → Bool → Result Pick
pick_own ft fts later true = do p ← later; ok (keep ft false p)
pick_own ft fts later false =
    ok (record { task = some ft; rest = fts; tickle_me = not (is_empty fts) })

-- The loop over `m_fibers` under the lock, and the test `it != m_fibers.end()` behind it: if an
-- entry is taken, `it` stands on the one behind it.
unfoldable pub search_queue : ℕ → Fibers → List Task → Result Pick
unfolding is_foreign is_executing pick_own
search_queue me fs [] = ok (record { task = none; rest = []; tickle_me = false })
search_queue me fs (ft ∷ fts) =
    let later = search_queue me fs fts in
    if is_foreign me ft.thread
    then later >>= (λ p. ok (keep ft true p))
    else assert (has_work ft) >>= λ _.
        is_executing fs ft.fiber >>= λ executing. pick_own ft fts later executing

abbrev after_pick : Sched → Pick → Sched × Task
after_pick s p = elim p.task [
  | none ↦ (tickle_if p.tickle_me s, no_task)
  | some ft ↦ (tickle_if p.tickle_me (record s { queue = p.rest; active = inc64 s.active }), ft)
]

-- One round's critical section in `run`, and the tickle behind it: the task is empty if none is
-- taken.
unfoldable pub take_task : ℕ → Sched → Result (Sched × Task)
unfolding search_queue inc64
take_task me s = do p ← search_queue me s.fibers s.queue; ok (after_pick s p)

-- `Scheduler::stopping`.
unfoldable pub stopping : Sched → Bool
stopping s = s.auto_stop && (s.is_stopping && (is_empty s.queue && s.active == 0))
