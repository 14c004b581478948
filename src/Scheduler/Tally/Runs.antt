-- ===== src/Scheduler/Tally/Runs.antt =====
-- The tasks of a whole run of the threads in `Scheduler::run` of gwn/scheduler.cc.
use gwn_framwork.Base.{
  ℕ, zero, suc, ◌+◌, ◌^◌, ◌<◌, ◌≡◌, refl, sym, ◌∙◌, ap, Bool, true, List, [], ◌∷◌, ◌++◌, some, ok,
  arith, length, length-append, get_elem?, set, is_empty,
}
use gwn_framwork.Fiber.{Tls}
use gwn_framwork.Scheduler.{Task, Sched, stopping}
use gwn_framwork.Scheduler.Worker.{Pc, picking, holding, Worker, enter_run, work}
use gwn_framwork.Scheduler.Control.{stop-stopping, start-keeps}
use gwn_framwork.Scheduler.Balance.{weight, lost_weight}
use gwn_framwork.Scheduler.System.{
  System, Step, works, enters, schedules, schedules_all, starts, stops, Run, here, more, total,
  IsBalanced, stopping-idle,
}
use gwn_framwork.Scheduler.Tally.{
  count, lost_by, held, all_held, step_scheduled, step_begun, step_lost, scheduled, begun, lost,
}
use gwn_framwork.Scheduler.Tally.Begins.{dispatch-Parts}
use gwn_framwork.Scheduler.Tally.Steps.{count-append, count-longer, work-count}
use gwn_framwork.Scheduler.Tally.Queues.{schedule-queue, schedule_all-queue}
use gwn_framwork.Scheduler.Queue.{with_work}

enter_run-empty :
    (me : ℕ) (s : Sched) (t : Tls)
    → ((enter_run me s t).0.queue ≡ s.queue) × ((enter_run me s t).1.pc ≡ picking)
unfolding enter_run
enter_run-empty me s t = ground arith

module _ (p : Task → Bool) where
  all_held-set :
      (ws : List Worker) (i : ℕ) (w w' : Worker)
      → get_elem? ws i ≡ some w
      → count p (all_held (set ws i w')) + count p (held w.pc)
        ≡ count p (all_held ws) + count p (held w'.pc)
  all_held-set [] i w w' h = ground arith
  all_held-set (x ∷ ws) zero w w' h =
      ground
        (arith, count-append p (held w.pc) (all_held ws), count-append p (held w'.pc) (all_held ws))
  all_held-set (x ∷ ws) (suc i) w w' h = omega (
    arith,
    all_held-set ws i w w' h,
    count-append p (held x.pc) (all_held ws),
    count-append p (held x.pc) (all_held (set ws i w')),
  )

  all_held-append :
      (ws vs : List Worker)
      → count p (all_held (ws ++ vs)) ≡ count p (all_held ws) + count p (all_held vs)
  all_held-append [] vs = omega arith
  all_held-append (w ∷ ws) vs = omega (
    arith,
    all_held-append ws vs,
    count-append p (held w.pc) (all_held ws),
    count-append p (held w.pc) (all_held (ws ++ vs)),
  )

  held-weight : (pc : Pc) → weight pc ≡ 0 → count p (held pc) ≡ 0
  held-weight (holding ft) h = ground arith
  held-weight _ h = refl

  all_held-total : (ws : List Worker) → total ws ≡ 0 → count p (all_held ws) ≡ 0
  all_held-total [] h = refl
  all_held-total (w ∷ ws) h = omega (
    arith,
    count-append p (held w.pc) (all_held ws),
    held-weight w.pc (omega arith),
    all_held-total ws (omega arith),
  )

  -- The tasks in the queue and in the hands of the threads.
  abbrev present : System → ℕ
  present x = count p x.sched.queue + count p (all_held x.workers)

  Step-count :
      {x y : System} {n : ℕ} (st : Step x n y)
      → present x + count p (step_scheduled st)
        ≡ present y + count p (step_begun st) + count p (step_lost st)
  Step-count {x} (works i w w' s' g h l e) =
      rw e (omega (arith, work-count p w.pc x.sched w refl h, all_held-set x.workers i w w' g))
  Step-count {x} (enters me tls l e) =
      let (q, i) = enter_run-empty me x.sched tls in
      let v = (enter_run me x.sched tls).1 in
      rw e (
        omega (
          arith,
          ap (count p) q,
          all_held-append x.workers (v ∷ []),
          count-append p (held v.pc) [],
          ap (count p) (ap held i),
        ))
  Step-count {x} (schedules ft l e) = rw e (
      omega (arith, count-longer p x.sched.queue (with_work (ft ∷ [])) (schedule-queue ft x.sched)))
  Step-count {x} (schedules_all fts l e) =
      rw e (
        omega
          (arith, count-longer p x.sched.queue (with_work fts) (schedule_all-queue fts x.sched)))
  Step-count {x} (starts id s' h l e) =
      let (q, fi) = start-keeps id x.sched s' h in rw (e, q) (omega arith)
  Step-count {x} (stops c s' k h l e) =
      let q = (stop-stopping c x.sched s' k h).0 in rw (e, q) (omega arith)

  Run-count :
      {x y : System} {n : ℕ} (r : Run x n y)
      → present x + count p (scheduled r) ≡ present y + count p (begun r) + count p (lost r)
  Run-count here = omega arith
  Run-count (more r st e) = omega (
    arith,
    Run-count r,
    Step-count st,
    count-append p (scheduled r) (step_scheduled st),
    count-append p (begun r) (step_begun st),
    count-append p (lost r) (step_lost st),
  )

-- A thread drops its task exactly if that is a fiber that is over, with no callback.
lost_by-length :
    (pc : Pc) (s : Sched) (w : Worker) {s' : Sched} {w' : Worker}
    → work pc s w ≡ ok (s', w')
    → length (lost_by pc w'.pc) ≡ lost_weight s.fibers pc
unfolding work
lost_by-length (holding ft) s w h = (dispatch-Parts ft s w h).3
lost_by-length _ s w h = refl

step_lost-length : {x y : System} {n : ℕ} (st : Step x n y) → length (step_lost st) ≡ n
step_lost-length {x} (works i w w' s' g h l e) = lost_by-length w.pc x.sched w h ∙ sym l
step_lost-length (enters me tls l e) = sym l
step_lost-length (schedules ft l e) = sym l
step_lost-length (schedules_all fts l e) = sym l
step_lost-length (starts id s' h l e) = sym l
step_lost-length (stops c s' k h l e) = sym l

lost-length : {x y : System} {n : ℕ} (r : Run x n y) → length (lost r) ≡ n
lost-length here = refl
lost-length (more r st e) =
    omega (arith, length-append {0} (lost r) (step_lost st), lost-length r, step_lost-length st)

count-is_empty : (p : Task → Bool) (q : List Task) → is_empty q ≡ true → count p q ≡ 0
count-is_empty p [] h = refl
count-is_empty p (ft ∷ q) h = ground arith

count-length : (p : Task → Bool) (q : List Task) → length q ≡ 0 → count p q ≡ 0
count-length p [] h = refl
count-length p (ft ∷ q) h = absurd (omega arith)

-- Whatever the threads do and in whatever order, and whatever test of tasks is counted by: in every
-- run, the tasks that were in the queue or in the hands of a thread before it, and those that were
-- scheduled in it, are as many as those that are in the queue or in the hands of a thread behind it,
-- those that a thread began in it, and those that a thread dropped in it. Those that were dropped
-- are as many as the run counts.
pub Run-tally :
    {x y : System} {n : ℕ} (r : Run x n y)
    → ((p : Task → Bool)
        → count p x.sched.queue + count p (all_held x.workers) + count p (scheduled r)
          ≡ count p y.sched.queue
            + count p (all_held y.workers)
            + count p (begun r)
            + count p (lost r))
      × (length (lost r) ≡ n)
Run-tally r = (λ p. Run-count p r, lost-length r)

-- A scheduler that begins with no task, no count of active threads and no thread in `run`: after a
-- run in which no task was dropped, with fewer threads than the counter holds, if `stopping` is true
-- then, whatever test of tasks is counted by, as many were begun as were scheduled.
pub stopping-begun :
    {x y : System} (r : Run x 0 y) (p : Task → Bool)
    → x.sched.queue ≡ []
    → x.sched.active ≡ 0
    → x.workers ≡ []
    → length y.workers + 1 < 2 ^ 64
    → stopping y.sched ≡ true
    → count p (begun r) ≡ count p (scheduled r)
stopping-begun {x} {y} r p no_tasks none_active no_workers small h =
    let balance : IsBalanced x 0 = rw (none_active, no_workers) refl in
    let (over, resting) = stopping-idle r balance small h in
    let (tally, dropped) = Run-tally r in
    let nobody : count p (all_held x.workers) ≡ 0 = rw no_workers refl in
    let nothing : count p x.sched.queue ≡ 0 = rw no_tasks refl in
    omega (
      arith,
      tally p,
      nobody,
      nothing,
      count-is_empty p y.sched.queue over,
      all_held-total p y.workers resting,
      count-length p (lost r) dropped,
    )
