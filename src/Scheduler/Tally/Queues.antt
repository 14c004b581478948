-- ===== src/Scheduler/Tally/Queues.antt =====
-- The queue behind a step of a thread in `Scheduler::run` of gwn/scheduler.cc that takes no task:
-- what the step schedules stands at its end.
use gwn_framwork.Base.{ℕ, ◌≡◌, List, [], ◌∷◌, ◌++◌, none, some, arith, append-nil}
use gwn_framwork.Fiber.{Code, schedule_cb, schedule_fiber, idle, Entry, ok, read, >>=-eq-ok}
use gwn_framwork.Scheduler.{Task, Sched, schedule, schedule_all}
use gwn_framwork.Scheduler.Queue.{with_work, schedule_lem, schedule_all_lem}
use gwn_framwork.Scheduler.Worker.{
  Kind, as_cb, as_idle, running, settling, Worker, next_code, act, run_fiber, count_down, settle,
  fiber_task,
}
use gwn_framwork.Scheduler.Tally.{call_tasks, scheduled_by, held}

pub schedule-queue :
    (ft : Task) (s : Sched) → (schedule ft s).queue ≡ s.queue ++ with_work (ft ∷ [])
schedule-queue ft s = rw schedule_lem (ground arith)

pub schedule_all-queue :
    (fts : List Task) (s : Sched) → (schedule_all fts s).queue ≡ s.queue ++ with_work fts
schedule_all-queue fts s = rw schedule_all_lem (ground arith)

act-queue :
    (kind : Kind) (a : ℕ) (e : Entry) (c : Code) (s : Sched) (w : Worker) {s' : Sched} {w' : Worker}
    → act kind a e c s w ≡ ok (s', w')
    → w.pc ≡ running kind a
    → (s'.queue ≡ s.queue ++ call_tasks c) × (held w'.pc ≡ [])
unfolding act
act-queue kind a e (schedule_cb c th k) s w h i =
    ground (arith, schedule-queue (record { fiber = none; cb = some c; thread = th }) s)
act-queue kind a e (schedule_fiber b th k) s w h i =
    ground (arith, schedule-queue (record { fiber = some b; cb = none; thread = th }) s)
act-queue kind a e idle s w h i = ground (arith, append-nil s.queue)
act-queue kind a e _ s w h i = ground (arith, append-nil s.queue)

pub run_fiber-queue :
    (kind : Kind) (a : ℕ) (s : Sched) (w : Worker) {s' : Sched} {w' : Worker}
    → run_fiber kind a s w ≡ ok (s', w')
    → w.pc ≡ running kind a
    → (s'.queue ≡ s.queue ++ scheduled_by (running kind a) s) × (held w'.pc ≡ [])
unfolding run_fiber
run_fiber-queue kind a s w h i =
    let (f, e₁, h') = >>=-eq-ok (read s.fibers a) _ h in
    let ((e, c), e₂, h'') = >>=-eq-ok (next_code f f.ctx) _ h' in
    rw (e₁, e₂) (act-queue kind a e c s w h'' i)

pub settle-queue :
    (kind : Kind) (a : ℕ) (s : Sched) (w : Worker) {s' : Sched} {w' : Worker}
    → settle kind a s w ≡ ok (s', w')
    → (s'.queue ≡ s.queue ++ scheduled_by (settling kind a) s) × (held w'.pc ≡ [])
unfolding settle
settle-queue as_cb a s w h = ground (arith, schedule-queue (fiber_task a) s, append-nil s.queue)
settle-queue _ a s w h = ground (arith, schedule-queue (fiber_task a) s, append-nil s.queue)

pub count_down-queue :
    (kind : Kind) (a : ℕ) (s : Sched) (w : Worker) {s' : Sched} {w' : Worker}
    → count_down kind a s w ≡ ok (s', w')
    → (s'.queue ≡ s.queue) × (held w'.pc ≡ [])
unfolding count_down
count_down-queue as_idle a s w h = ground arith
count_down-queue _ a s w h = ground arith
