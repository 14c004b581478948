-- ===== src/Scheduler/Whole.antt =====
-- The whole life of a scheduler of gwn/scheduler.cc whose only thread is the one that makes it:
-- constructor, `start`, `schedule`, `stop` with the run of the root fiber, and destructor.
pub mod Leaving
pub mod Root
pub mod Ends
use gwn_framwork.Base.{ℕ, Bool, true, false, List, [], ◌∷◌, Option, none, some, endless}
use gwn_framwork.Fiber.{
  term, Code, run, Entry, caller_main_func, ended, Fibers, Tls, Result, ok, fault, assertion,
  null_pointer, ◌>>=◌, read, write, call, back,
}
use gwn_framwork.Scheduler.{Task, Sched, schedule}
use gwn_framwork.Scheduler.Worker.{Pc, stopped, Worker, enter_run, next_code}
use gwn_framwork.Scheduler.Control.{
  Next, returns, calls_root, joins, new_scheduler, start, stop, join_threads,
}
use gwn_framwork.Scheduler.This.{destroy, is_this, set_this, get_this}
use gwn_framwork.Scheduler.Drain.{works, begun}

-- The end of `CallerMainFunc` around `Scheduler::run`: the fiber that it has read at its beginning is
-- left. `n` steps were not enough if the loop has not been left.
unfoldable pub end_root : ℕ → Pc → Sched → Worker → Result (Sched × Tls)
end_root r stopped s w = do
  f ← read s.fibers r
  (fs, t) ← back r ended (write s.fibers r (record f { state = term; cb = none })) w.tls
  ok (record s { fibers = fs }, t)
end_root r pc s w = fault endless

-- What the switch into the root fiber executes; the constructor makes it with `Scheduler::run`. Told
-- with it are the callbacks that are begun.
unfoldable pub root_body : ℕ → ℕ → ℕ → Entry → Code → Sched → Tls → Result (List Code × Sched × Tls)
root_body n me r caller_main_func run s t = do
  let (s₁, w) = enter_run me s t
  (s₂, w₂) ← works n s₁ w
  (s', t') ← end_root r w₂.pc s₂ w₂
  ok (begun n s₁ w, s', t')
root_body n me r e c s t = fault assertion

-- `m_rootFiber->call()`, with `n` steps of the thread in `run`.
unfoldable pub run_root : ℕ → ℕ → ℕ → Sched → Tls → Result (List Code × Sched × Tls)
unfolding next_code call
run_root n me r s t = do
  f ← read s.fibers r
  (e, c) ← next_code f f.ctx
  (fs, t₁) ← call r s.fibers t
  root_body n me r e c (record s { fibers = fs }) t₁

unfoldable pub call_root : ℕ → ℕ → Option ℕ → Sched → Tls → Result (List Code × Sched × Tls)
call_root n me none s t = fault null_pointer
call_root n me (some r) s t = run_root n me r s t

unfoldable pub after_stop : ℕ → ℕ → Next → Sched → Tls → Result (List Code × Sched × Tls)
unfolding join_threads
after_stop n me returns s t = ok ([], s, t)
after_stop n me joins s t = ok ([], join_threads s, t)
after_stop n me calls_root s t = do
  (cs, s', t') ← call_root n me s.root_fiber s t
  ok (cs, join_threads s', t')

-- The whole of `Scheduler::stop`. The threads that are joined have left `run`.
unfoldable pub stop_all : ℕ → ℕ → Bool → Sched → Tls → Result (List Code × Sched × Tls)
stop_all n me current s t = do (s', next) ← stop current s; after_stop n me next s' t

-- `schedule(fc, thread)` for each task.
unfoldable pub schedule_each : List Task → Sched → Sched
schedule_each [] s = s
schedule_each (ft ∷ fts) s = schedule_each fts (schedule ft s)

-- A program with the scheduler `self`, on a thread with no other scheduler.
unfoldable pub use_scheduler :
    ℕ → ℕ → ℕ → (ℕ → ℕ) → List Task → Fibers → Tls → Result (List Code × Sched × Option ℕ)
use_scheduler n me self id fts fs t = do
  (s, t₁) ← new_scheduler 1 true false me fs t
  let current = set_this self none
  s₁ ← start id s
  (cs, s₂, t₂) ← stop_all n me (is_this self (get_this current)) (schedule_each fts s₁) t₁
  after ← destroy self s₂ current
  ok (cs, s₂, after)
