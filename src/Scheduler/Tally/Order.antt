-- ===== src/Scheduler/Tally/Order.antt =====
-- The order in which the threads in `Scheduler::run` of gwn/scheduler.cc take the tasks.
use gwn_framwork.Base.{
  ℕ, ◌≡◌, refl, sym, ◌∙◌, ap, true, List, [], ◌∷◌, ◌++◌, none, some, ok, arith, append-nil,
  append_assoc, All, All-append, subst, >>=-eq-ok,
}
use gwn_framwork.Fiber.{Fibers, Tls}
use gwn_framwork.Scheduler.{Task, Sched, take_task, search_queue, Pick, after_pick, has_work}
use gwn_framwork.Scheduler.Queue.{with_work}
use gwn_framwork.Scheduler.Worker.{
  Pc, picking, holding, running, returned, settling, stopped, Worker, enter_run, work,
}
use gwn_framwork.Scheduler.Control.{stop-stopping, start-keeps}
use gwn_framwork.Scheduler.System.{
  System, Step, works, enters, schedules, schedules_all, starts, stops, Run, here, more,
}
use gwn_framwork.Scheduler.Tally.{scheduled_by, step_scheduled, scheduled}
use gwn_framwork.Scheduler.Tally.Begins.{dispatch-Parts}
use gwn_framwork.Scheduler.Tally.Queues.{
  schedule-queue, schedule_all-queue, run_fiber-queue, settle-queue, count_down-queue,
}

-- A callback that any thread may run.
abbrev pub IsForAny : Task → Type 0
IsForAny ft = (ft.thread ≡ none) × (ft.fiber ≡ none)

-- The task that a thread takes in its critical section.
abbrev pub taken_by : Pc → Pc → List Task
taken_by picking (holding ft) = with_work (ft ∷ [])
taken_by _ _ = []

abbrev pub step_taken : {x y : System} {lost : ℕ} → Step x lost y → List Task
step_taken (works i w w' s' _ _ _ _) = taken_by w.pc w'.pc
step_taken _ = []

abbrev pub taken : {x y : System} {n : ℕ} → Run x n y → List Task
taken here = []
taken (more r st e) = taken r ++ step_taken st

All-behind : (P : Task → Type 0) (xs ys : List Task) → All P (xs ++ ys) → All P ys
All-behind P [] ys h = h
All-behind P (x ∷ xs) ys h = All-behind P xs ys h.1

All-before : (P : Task → Type 0) (xs ys : List Task) → All P (xs ++ ys) → All P xs
All-before P [] ys h = tt
All-before P (x ∷ xs) ys h = (h.0, All-before P xs ys h.1)

search_none : (me : ℕ) (fs : Fibers) (r : Pick) → search_queue me fs [] ≡ ok r → r.task ≡ none
unfolding search_queue
search_none me fs r h = ground arith

search_first :
    (me : ℕ) (fs : Fibers) (x : Task) (q : List Task) (r : Pick)
    → IsForAny x
    → search_queue me fs (x ∷ q) ≡ ok r
    → (r.task ≡ some x) × (r.rest ≡ q) × (has_work x ≡ true)
unfolding search_queue
search_first me fs x q r (any, no_fiber) h = ground arith

-- The first entry is taken, if there is one.
take_task-order :
    (me : ℕ) (s : Sched) (q : List Task) {s' : Sched} {ft : Task}
    → s.queue ≡ q
    → All IsForAny q
    → take_task me s ≡ ok (s', ft)
    → q ≡ with_work (ft ∷ []) ++ s'.queue
unfolding take_task
take_task-order me s [] {s'} {ft} e any h =
    let (r, e₁, e₂) = >>=-eq-ok (search_queue me s.fibers s.queue) (λ r. ok (after_pick s r)) h in
    let nothing = search_none me s.fibers r (ap (search_queue me s.fibers) (sym e) ∙ e₁) in
    ground arith
take_task-order me s (x ∷ q) {s'} {ft} e any h =
    let (r, e₁, e₂) = >>=-eq-ok (search_queue me s.fibers s.queue) (λ r. ok (after_pick s r)) h in
    let (took, rest, work) =
      search_first me s.fibers x q r any.0 (ap (search_queue me s.fibers) (sym e) ∙ e₁) in
    ground arith

-- What a step takes stood at the head of the queue, and what it schedules stands at its end.
work-order :
    (pc : Pc) (s : Sched) (w : Worker) {s' : Sched} {w' : Worker}
    → w.pc ≡ pc
    → All IsForAny s.queue
    → work pc s w ≡ ok (s', w')
    → s.queue ++ scheduled_by pc s ≡ taken_by pc w'.pc ++ s'.queue
unfolding work
work-order picking s w e any h =
    let ((t, ft), h₁, h₂) = >>=-eq-ok (take_task w.thread_id s) _ h in
    ground (arith, take_task-order w.thread_id s s.queue refl any h₁, append-nil s.queue)
work-order (holding ft) s w e any h = append-nil s.queue ∙ sym (dispatch-Parts ft s w h).0
work-order (running kind a) s w e any h = sym (run_fiber-queue kind a s w h e).0
work-order (returned kind a) s w e any h =
    append-nil s.queue ∙ sym (count_down-queue kind a s w h).0
work-order (settling kind a) s w e any h = sym (settle-queue kind a s w h).0
work-order stopped s w e any h = ground (arith, append-nil s.queue)

enter_run-queue : (me : ℕ) (s : Sched) (t : Tls) → (enter_run me s t).0.queue ≡ s.queue
unfolding enter_run
enter_run-queue me s t = ground arith

Step-order :
    {x y : System} {n : ℕ} (st : Step x n y)
    → All IsForAny x.sched.queue
    → x.sched.queue ++ step_scheduled st ≡ step_taken st ++ y.sched.queue
Step-order {x} (works i w w' s' g h l e) any = rw e (work-order w.pc x.sched w refl any h)
Step-order {x} (enters me tls l e) any =
    rw e (append-nil x.sched.queue ∙ sym (enter_run-queue me x.sched tls))
Step-order {x} (schedules ft l e) any = rw e (sym (schedule-queue ft x.sched))
Step-order {x} (schedules_all fts l e) any = rw e (sym (schedule_all-queue fts x.sched))
Step-order {x} (starts id s' h l e) any =
    rw e (append-nil x.sched.queue ∙ sym (start-keeps id x.sched s' h).0)
Step-order {x} (stops c s' k h l e) any =
    rw e (append-nil x.sched.queue ∙ sym (stop-stopping c x.sched s' k h).0)

-- If every task of the queue and every task that is scheduled is a callback for any thread, then
-- the threads take the tasks in the order in which they were scheduled, whatever the order of the
-- threads' steps: the queue before the run, and behind it what was scheduled in the run, is what
-- was taken in the run, and behind it the queue after the run.
pub Run-order :
    {x y : System} {n : ℕ} (r : Run x n y)
    → All IsForAny x.sched.queue
    → All IsForAny (scheduled r)
    → x.sched.queue ++ scheduled r ≡ taken r ++ y.sched.queue
Run-order {x} here any plain = append-nil x.sched.queue
Run-order {x} (more {y = y} {z = z} r st e) any plain =
    let q = x.sched.queue in
    let new = scheduled r in
    let last = step_scheduled st in
    let new_any = All-before IsForAny new last plain in
    let before = Run-order r any new_any in
    let now_any : All IsForAny y.sched.queue =
      All-behind IsForAny (taken r) y.sched.queue
        (subst (All IsForAny) before (All-append IsForAny q new any new_any)) in
    sym (append_assoc q new last)
    ∙ ap (λ l. l ++ last) before
    ∙ append_assoc (taken r) y.sched.queue last
    ∙ ap (λ l. taken r ++ l) (Step-order st now_any)
    ∙ sym (append_assoc (taken r) (step_taken st) z.sched.queue)
