-- ===== src/Scheduler/Tally.antt =====
-- The tasks that go through a scheduler, gwn/scheduler.cc: which ones a step of a thread in `run`
-- puts into the queue, which one it begins, and which one it drops.
pub mod Begins
pub mod Queues
pub mod Steps
pub mod Runs
pub mod Order
use gwn_framwork.Base.{ℕ, ◌+◌, Bool, List, [], ◌∷◌, ◌++◌, Option, none, some, if◌then◌else◌}
use gwn_framwork.Fiber.{
  ready, state_eq, Code, schedule_cb, schedule_fiber, Entry, Fiber, Fibers, Result, ok, fault,
  ◌>>=◌, read,
}
use gwn_framwork.Scheduler.{Task, Sched}
use gwn_framwork.Scheduler.Queue.{with_work}
use gwn_framwork.Scheduler.Worker.{
  as_fiber, as_cb, Pc, holding, running, settling, Worker, fiber_task, next_code,
}
use gwn_framwork.Scheduler.System.{System, Step, works, schedules, schedules_all, Run, here, more}

-- How many tasks of a list a test holds of.
abbrev pub count : (Task → Bool) → List Task → ℕ
count p [] = 0
count p (ft ∷ fts) = (if p ft then 1 else 0) + count p fts

-- The task of the next call of a callback, if that is a call of `schedule`.
abbrev pub call_tasks : Code → List Task
call_tasks (schedule_cb c th k) = record { fiber = none; cb = some c; thread = th } ∷ []
call_tasks (schedule_fiber b th k) = record { fiber = some b; cb = none; thread = th } ∷ []
call_tasks _ = []

abbrev pub next_tasks : Result (Entry × Code) → List Task
next_tasks (ok (e, c)) = call_tasks c
next_tasks (fault e) = []

-- A fiber that has come back ready is scheduled again.
abbrev pub again_tasks : ℕ → Result Fiber → List Task
again_tasks a (ok f) = if state_eq f.state ready then fiber_task a ∷ [] else []
again_tasks a (fault e) = []

-- The tasks that the next step of a thread schedules.
abbrev pub scheduled_by : Pc → Sched → List Task
scheduled_by (running kind a) s = next_tasks (read s.fibers a >>= λ f. next_code f f.ctx)
scheduled_by (settling kind a) s = again_tasks a (read s.fibers a)
scheduled_by _ s = []

-- What the thread executes that switches into a fiber.
abbrev pub code_of : Result (Entry × Code) → Option Code
code_of (ok (e, c)) = some c
code_of (fault e) = none

abbrev pub code_at : Fibers → ℕ → Option Code
code_at fs a = code_of (read fs a >>= λ f. next_code f f.ctx)

-- The task that a thread has begun which held `ft`, by where it stands behind the step: it is in
-- the task's fiber, or in one that executes the task's callback.
abbrev pub begun_by : Pc → Sched → Pc → List Task
begun_by (holding ft) s (running as_fiber a) = record ft { fiber = some a } ∷ []
begun_by (holding ft) s (running as_cb a) = record ft { cb = code_at s.fibers a } ∷ []
begun_by _ s _ = []

-- The task that it has dropped: it held one and is in the idle fiber, or out of its loop.
abbrev pub lost_by : Pc → Pc → List Task
lost_by (holding ft) (running as_fiber a) = []
lost_by (holding ft) (running as_cb a) = []
lost_by (holding ft) _ = with_work (ft ∷ [])
lost_by _ _ = []

-- The task that a thread has taken and not begun yet.
abbrev pub held : Pc → List Task
held (holding ft) = with_work (ft ∷ [])
held _ = []

abbrev pub all_held : List Worker → List Task
all_held [] = []
all_held (w ∷ ws) = held w.pc ++ all_held ws

-- What goes into the queue, is begun, and is dropped in a step of the system.
abbrev pub step_scheduled : {x y : System} {lost : ℕ} → Step x lost y → List Task
step_scheduled {x} (works i w w' s' _ _ _ _) = scheduled_by w.pc x.sched
step_scheduled (schedules ft _ _) = with_work (ft ∷ [])
step_scheduled (schedules_all fts _ _) = with_work fts
step_scheduled _ = []

abbrev pub step_begun : {x y : System} {lost : ℕ} → Step x lost y → List Task
step_begun {x} (works i w w' s' _ _ _ _) = begun_by w.pc s' w'.pc
step_begun _ = []

abbrev pub step_lost : {x y : System} {lost : ℕ} → Step x lost y → List Task
step_lost {x} (works i w w' s' _ _ _ _) = lost_by w.pc w'.pc
step_lost _ = []

-- In a run, in the order of its steps.
abbrev pub scheduled : {x y : System} {n : ℕ} → Run x n y → List Task
scheduled here = []
scheduled (more r st e) = scheduled r ++ step_scheduled st

abbrev pub begun : {x y : System} {n : ℕ} → Run x n y → List Task
begun here = []
begun (more r st e) = begun r ++ step_begun st

abbrev pub lost : {x y : System} {n : ℕ} → Run x n y → List Task
lost here = []
lost (more r st e) = lost r ++ step_lost st
