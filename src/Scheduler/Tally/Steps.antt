-- ===== src/Scheduler/Tally/Steps.antt =====
-- The tasks before and behind one step of a thread in `Scheduler::run` of gwn/scheduler.cc.
use gwn_framwork.Base.{
  ℕ, ◌+◌, ◌≡◌, refl, ◌∙◌, ap, inl, inr, Bool, List, [], ◌∷◌, ◌++◌, none, some, arith, Option-cases,
}
use gwn_framwork.Fiber.{Fibers, ok, fault, >>=-eq-ok}
use gwn_framwork.Scheduler.{Task, Sched, take_task, Pick, search_queue, after_pick}
use gwn_framwork.Scheduler.Queue.{with_work}
use gwn_framwork.Scheduler.Worker.{
  Pc, picking, holding, running, returned, settling, stopped, Worker, dispatch, work,
}
use gwn_framwork.Scheduler.Tally.{count, scheduled_by, begun_by, lost_by, held}
use gwn_framwork.Scheduler.Tally.Begins.{dispatch-Parts}
use gwn_framwork.Scheduler.Tally.Queues.{run_fiber-queue, count_down-queue, settle-queue}

module _ (p : Task → Bool) where
  pub count-append : (xs ys : List Task) → count p (xs ++ ys) ≡ count p xs + count p ys
  count-append [] ys = omega arith
  count-append (x ∷ xs) ys = omega (arith, count-append xs ys)

  -- A queue with more tasks at its end.
  pub count-longer :
      (q : List Task) {q' : List Task} (more : List Task)
      → q' ≡ q ++ more
      → count p q' ≡ count p q + count p more
  count-longer q more e = ap (count p) e ∙ count-append q more

  search-count :
      (me : ℕ) (fs : Fibers) (q : List Task) (r : Pick)
      → search_queue me fs q ≡ ok r
      → count p q
        ≡ count p r.rest + count p (elim r.task [ none ↦ [] | some ft ↦ with_work (ft ∷ []) ])
  unfolding search_queue
  search-count me fs [] r e = ground arith
  search-count me fs (x ∷ q) r e =
      elim (search_queue me fs q)
          as (λ z.
            search_queue me fs q ≡ z
            → count p (x ∷ q)
              ≡ count p r.rest
                + count p (elim r.task [ none ↦ [] | some ft ↦ with_work (ft ∷ []) ])) [
                  | ok z ↦ λ ez. ground (arith, search-count me fs q z)
                  | fault z ↦ λ ez. ground arith
                ]
        refl

  dispatch-count :
      (ft : Task) (s : Sched) (w : Worker) {s' : Sched} {w' : Worker}
      → dispatch ft s w ≡ ok (s', w')
      → count p s.queue + count p (with_work (ft ∷ []))
        ≡ count p s'.queue
          + count p (held w'.pc)
          + count p (begun_by (holding ft) s' w'.pc)
          + count p (lost_by (holding ft) w'.pc)
  dispatch-count ft s w {s'} {w'} h =
      let (q, hands, parts, n) = dispatch-Parts ft s w h in
      let begins = begun_by (holding ft) s' w'.pc in
      let loses = lost_by (holding ft) w'.pc in
      rw (q, hands) (omega (arith, ap (count p) parts, count-append begins loses))

  take_task-count :
      (me : ℕ) (s : Sched) {s' : Sched} {ft : Task}
      → take_task me s ≡ ok (s', ft)
      → count p s.queue ≡ count p s'.queue + count p (with_work (ft ∷ []))
  unfolding take_task
  take_task-count me s {s'} {ft} h =
      let (r, e, r') = >>=-eq-ok (search_queue me s.fibers s.queue) (λ r. ok (after_pick s r)) h in
      elim (Option-cases r.task) [
        | inl t ↦ ground arith
        | inr (x, t) ↦ ground (arith, search-count me s.fibers s.queue r e)
      ]

  -- A step of a thread moves the tasks: what is in the queue or in its hands, and what it
  -- schedules, is in the queue or in its hands behind the step, or is begun or dropped by it.
  pub work-count :
      (pc : Pc) (s : Sched) (w : Worker) {s' : Sched} {w' : Worker}
      → w.pc ≡ pc
      → work pc s w ≡ ok (s', w')
      → count p s.queue + count p (held pc) + count p (scheduled_by pc s)
        ≡ count p s'.queue
          + count p (held w'.pc)
          + count p (begun_by pc s' w'.pc)
          + count p (lost_by pc w'.pc)
  unfolding work
  work-count picking s w e h =
      let ((t, ft), h₁, h₂) = >>=-eq-ok (take_task w.thread_id s) _ h in
      ground (arith, take_task-count w.thread_id s h₁)
  work-count (holding ft) s w e h = omega (arith, dispatch-count ft s w h)
  work-count (running kind a) s w e h =
      let (q, hands) = run_fiber-queue kind a s w h e in
      rw (hands) (omega (arith, count-longer s.queue (scheduled_by (running kind a) s) q))
  work-count (returned kind a) s w e h = ground (arith, count_down-queue kind a s w h)
  work-count (settling kind a) s w e h =
      let (q, hands) = settle-queue kind a s w h in
      rw (hands) (omega (arith, count-longer s.queue (scheduled_by (settling kind a) s) q))
  work-count stopped s w e h = ground arith
