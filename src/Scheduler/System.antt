-- ===== src/Scheduler/System.antt =====
-- A scheduler with the threads that are in its `run`: any thread may make the next step, and
-- between two steps other parts of the program may schedule, start, stop, or bring a thread in.
use gwn_framwork.Base.{
  ℕ, zero, suc, ◌+◌, ◌^◌, ◌<◌, ◌≤◌, ◌≡◌, refl, ap, Bool, true, false, List, [], ◌∷◌, ◌++◌, some,
  arith, length, length-append, length-set, get_elem?, set, is_empty,
}
use gwn_framwork.Fiber.{Tls, ok}
use gwn_framwork.Scheduler.{Task, Sched, schedule, schedule_all, stopping}
use gwn_framwork.Scheduler.Queue.{schedule_lem, schedule_all_lem}
use gwn_framwork.Scheduler.Worker.{Pc, Worker, picking, enter_run, work}
use gwn_framwork.Scheduler.Control.{Next, start, stop, stop-stopping}
use gwn_framwork.Scheduler.Balance.{weight, lost_weight, work-active}

pub record System : Type 0 where
  pub sched : Sched
  pub workers : List Worker

-- One step of the system, in which `lost` tasks are dropped.
pub data Step (x : System) (lost : ℕ) (y : System) : Type 0 where
  works :
      (i : ℕ) (w w' : Worker) (s' : Sched)
      → get_elem? x.workers i ≡ some w
      → work w.pc x.sched w ≡ ok (s', w')
      → lost ≡ lost_weight x.sched.fibers w.pc
      → y ≡ record { sched = s'; workers = set x.workers i w' }
      → Step x lost y
  enters :
      (me : ℕ) (tls : Tls)
      → lost ≡ 0
      → y ≡ record {
        sched = (enter_run me x.sched tls).0;
        workers = x.workers ++ (enter_run me x.sched tls).1 ∷ [];
      }
      → Step x lost y
  schedules : (ft : Task) → lost ≡ 0 → y ≡ record x { sched = schedule ft x.sched } → Step x lost y
  schedules_all :
      (fts : List Task)
      → lost ≡ 0
      → y ≡ record x { sched = schedule_all fts x.sched }
      → Step x lost y
  starts :
      (id : ℕ → ℕ) (s' : Sched)
      → start id x.sched ≡ ok s'
      → lost ≡ 0
      → y ≡ record x { sched = s' }
      → Step x lost y
  stops :
      (current : Bool) (s' : Sched) (next : Next)
      → stop current x.sched ≡ ok (s', next)
      → lost ≡ 0
      → y ≡ record x { sched = s' }
      → Step x lost y

-- Any number of steps, in which `n` tasks are dropped.
pub data Run (x : System) : ℕ → System → Type 0 where
  here : Run x 0 x
  more : {m n lost : ℕ} {y z : System} → Run x m y → Step y lost z → n ≡ m + lost → Run x n z

-- The sum of the threads' shares.
abbrev pub total : List Worker → ℕ
total [] = 0
total (w ∷ ws) = weight w.pc + total ws

-- The count of active threads is the number of threads that have taken a task and not counted down
-- again, and the number of dropped tasks.
abbrev pub IsBalanced : System → ℕ → Type 0
IsBalanced x lost = x.sched.active ≡ total x.workers + lost

total-set :
    (ws : List Worker) (i : ℕ) (w w' : Worker)
    → get_elem? ws i ≡ some w
    → total (set ws i w') + weight w.pc ≡ total ws + weight w'.pc
total-set [] i w w' h = ground arith
total-set (x ∷ ws) zero w w' h = ground arith
total-set (x ∷ ws) (suc i) w w' h = omega (arith, total-set ws i w w' h)

total-append : (ws vs : List Worker) → total (ws ++ vs) ≡ total ws + total vs
total-append [] vs = omega arith
total-append (w ∷ ws) vs = omega (arith, total-append ws vs)

weight-le-one : (pc : Pc) → weight pc ≤ 1
weight-le-one pc = ground arith

total-le-length : (ws : List Worker) → total ws ≤ length ws
total-le-length [] = omega arith
total-le-length (w ∷ ws) = omega (arith, total-le-length ws, weight-le-one w.pc)

weight-le-total :
    (ws : List Worker) (i : ℕ) (w : Worker) → get_elem? ws i ≡ some w → weight w.pc ≤ total ws
weight-le-total [] i w h = ground arith
weight-le-total (x ∷ ws) zero w h = ground arith
weight-le-total (x ∷ ws) (suc i) w h = omega (arith, weight-le-total ws i w h)

-- A step does not take a thread out of the list of threads.
Step-length : {x y : System} {lost : ℕ} → Step x lost y → length x.workers ≤ length y.workers
Step-length {x} (works i w w' s' _ _ _ e) = rw e (omega (arith, length-set x.workers i w'))
Step-length {x} (enters me tls _ e) =
    rw e (omega (arith, length-append {0} x.workers ((enter_run me x.sched tls).1 ∷ [])))
Step-length (schedules ft _ e) = rw e (omega arith)
Step-length (schedules_all fts _ e) = rw e (omega arith)
Step-length (starts id s' _ _ e) = rw e (omega arith)
Step-length (stops c s' n _ _ e) = rw e (omega arith)

enter_run-active :
    (me : ℕ) (s : Sched) (t : Tls)
    → ((enter_run me s t).0.active ≡ s.active) × ((enter_run me s t).1.pc ≡ picking)
unfolding enter_run
enter_run-active me s t = ground arith

start-active : (id : ℕ → ℕ) (s s' : Sched) → start id s ≡ ok s' → s'.active ≡ s.active
unfolding start
start-active id s s' h = ground arith

schedule-active : (ft : Task) (s : Sched) → (schedule ft s).active ≡ s.active
schedule-active ft s = rw schedule_lem (ground arith)

schedule_all-active : (fts : List Task) (s : Sched) → (schedule_all fts s).active ≡ s.active
schedule_all-active fts s = rw schedule_all_lem (ground arith)

-- A step keeps the balance, with the tasks that it drops.
Step-IsBalanced :
    {x y : System} {lost : ℕ} (n : ℕ)
    → Step x lost y
    → IsBalanced x n
    → length x.workers + n + 1 < 2 ^ 64
    → IsBalanced y (n + lost)
Step-IsBalanced {x} n (works i w w' s' g h l e) b small = rw e (
    omega (
      arith,
      work-active w.pc x.sched w refl h (omega (arith, weight-le-total x.workers i w g))
          (omega (arith, total-le-length x.workers)),
      total-set x.workers i w w' g,
    ))
Step-IsBalanced {x} n (enters me tls l e) b small =
    let (a, p) = enter_run-active me x.sched tls in
    let v = (enter_run me x.sched tls).1 in
    rw e (omega (arith, total-append x.workers (v ∷ []), ap weight p))
Step-IsBalanced {x} n (schedules ft l e) b small = rw e (omega (arith, schedule-active ft x.sched))
Step-IsBalanced {x} n (schedules_all fts l e) b small =
    rw e (omega (arith, schedule_all-active fts x.sched))
Step-IsBalanced {x} n (starts id s' h l e) b small =
    rw e (omega (arith, start-active id x.sched s' h))
Step-IsBalanced {x} n (stops c s' k h l e) b small =
    rw e (omega (arith, (stop-stopping c x.sched s' k h).1))

Run-length : {x y : System} {n : ℕ} → Run x n y → length x.workers ≤ length y.workers
Run-length here = omega arith
Run-length (more r st e) = omega (arith, Run-length r, Step-length st)

-- In every run the count of active threads is the number of threads that have taken a task and not
-- counted down again, and one more for each task that was dropped, as long as these numbers stay
-- below the size of the counter.
pub Run-IsBalanced :
    {x y : System} {n : ℕ} (k : ℕ)
    → Run x n y
    → IsBalanced x k
    → length y.workers + (k + n) + 1 < 2 ^ 64
    → IsBalanced y (k + n)
Run-IsBalanced k here b small = omega arith
Run-IsBalanced k (more {m} {n} {lost} r st e) b small =
    let before = Run-IsBalanced k r b (omega (arith, Step-length st)) in
    omega (arith, Step-IsBalanced (k + m) st before (omega (arith, Step-length st)))

-- After a run in which a task was dropped, from a state in which none was, and with fewer threads and
-- dropped tasks than the counter holds, `stopping` is false.
pub dropped_never_stops :
    {x y : System} {n : ℕ}
    → Run x n y
    → IsBalanced x 0
    → length y.workers + n + 1 < 2 ^ 64
    → 0 < n
    → stopping y.sched ≡ false
unfolding stopping
dropped_never_stops {y = y} r b small pos =
    let balance = Run-IsBalanced 0 r b (omega arith) in
    let busy : 0 < y.sched.active = omega arith in ground arith

-- After a run in which no task was dropped, if `stopping` is true then the queue is empty and no
-- thread has a task that it took and has not counted down.
pub stopping-idle :
    {x y : System}
    → Run x 0 y
    → IsBalanced x 0
    → length y.workers + 1 < 2 ^ 64
    → stopping y.sched ≡ true
    → (is_empty y.sched.queue ≡ true) × (total y.workers ≡ 0)
unfolding stopping
stopping-idle {y = y} r b small h = let balance = Run-IsBalanced 0 r b (omega arith) in ground arith
