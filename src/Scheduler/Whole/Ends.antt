-- ===== src/Scheduler/Whole/Ends.antt =====
-- A scheduler whose only thread is the one that makes it comes to its end.
use gwn_framwork.Base.{
  ℕ, ◌+◌, ◌≡◌, refl, ◌∙◌, true, false, List, [], ◌∷◌, none, ==_iff, All, append_assoc, append-nil,
  is_empty, Bool, ◌++◌,
}
use gwn_framwork.Fiber.{Code, Fibers, Tls, ok}
use gwn_framwork.Scheduler.{Task, Sched, schedule, tickle_if, has_work}
use gwn_framwork.Scheduler.Control.{join_threads}
use gwn_framwork.Scheduler.This.{destroy, is_this, set_this}
use gwn_framwork.Scheduler.Drain.{IsSimpleTask, InOrder, done, cbs}
use gwn_framwork.Scheduler.Queue.{schedule_lem, with_work}
use gwn_framwork.Scheduler.Whole.{call_root, after_stop, stop_all, use_scheduler, schedule_each}
use gwn_framwork.Scheduler.Whole.Root.{
  asked, made, new_scheduler_lem, start_lem, stop_empty, stop_waiting, run_root_lem,
}

tickle_if-Counts : (b : Bool) (s : Sched) → (k : ℕ) × (tickle_if b s ≡ record s { tickles = k })
tickle_if-Counts true s = (s.tickles + 1, refl)
tickle_if-Counts false s = (s.tickles, refl)

schedule_simple :
    (me : ℕ) (ft : Task) (s : Sched)
    → IsSimpleTask me ft
    → (k : ℕ) × (schedule ft s ≡ record s { queue = s.queue ++ ft ∷ []; tickles = k })
schedule_simple me ft s (c, no_fiber, has_cb, own, simple) =
    let works : has_work ft ≡ true = rw (no_fiber, has_cb) refl in
    let (k, e) =
      tickle_if-Counts (is_empty s.queue) (record s { queue = s.queue ++ with_work (ft ∷ []) }) in
    (k, schedule_lem ft s ∙ e ∙ rw (works) refl)

schedule_each_lem :
    (me : ℕ) (fts : List Task) (s : Sched)
    → All (IsSimpleTask me) fts
    → (k : ℕ) × (schedule_each fts s ≡ record s { queue = s.queue ++ fts; tickles = k })
unfolding schedule_each
schedule_each_lem me [] s h = (s.tickles, rw (append-nil s.queue) refl)
schedule_each_lem me (ft ∷ fts) s (h, hs) =
    let (k, e) = schedule_simple me ft s h in
    let (l, e') =
      schedule_each_lem me fts (record s { queue = s.queue ++ ft ∷ []; tickles = k }) hs in
    (l, rw (e) (e' ∙ rw (append_assoc s.queue (ft ∷ []) fts) refl))

module _ (me self : ℕ) (id : ℕ → ℕ) (fs : Fibers) (t : Tls) where
  -- What is left when the program is over.
  abbrev pub Ends : ℕ → List Task → Type 0
  Ends n fts =
      (cs : List Code) × (s : Sched) × (use_scheduler n me self id fts fs t ≡ ok (cs, s, none))
      × InOrder (cbs fts) cs
      × (s.queue ≡ [])
      × (s.active ≡ 0)

  -- A program that makes a scheduler for its own thread only, on a thread with no fiber and no
  -- scheduler before, starts it, schedules callbacks, for this thread or for any, that return, throw or
  -- yield and schedule only such callbacks, and then stops and destroys it, comes to its end with no
  -- fault: `stop` begins these callbacks and all that they schedule, and resumes those that have called
  -- `YieldToReady`, in the order of a queue, and leaves the queue empty and no task under way; the
  -- destructor leaves no scheduler to the thread.
  pub use_scheduler-Ends :
      (fts : List Task) → t.fiber ≡ none → All (IsSimpleTask me) fts → (n : ℕ) × Ends n fts
  unfolding use_scheduler stop_all after_stop call_root join_threads destroy is_this set_this cbs
  use_scheduler-Ends [] no_fiber simple =
      let (k, e) = schedule_each_lem me [] (record (made me fs t) { is_stopping = false }) simple in
      (
        0,
        (
          [],
          asked me fs t k [],
          rw
              (
                new_scheduler_lem me fs t no_fiber,
                start_lem me fs t id,
                e,
                (==_iff self self).1 refl,
                stop_empty me fs t k,
              )
              refl,
          done,
          refl,
          refl,
        ),
      )
  use_scheduler-Ends (ft ∷ fts) no_fiber simple =
      let (k, e) =
        schedule_each_lem me (ft ∷ fts) (record (made me fs t) { is_stopping = false }) simple in
      let (n, cs, s', t', run', order, queue, active, stopping') =
        run_root_lem me fs t (k + 1) (ft ∷ fts) simple in
      (
        n,
        (
          cs,
          join_threads s',
          rw
              (
                new_scheduler_lem me fs t no_fiber,
                start_lem me fs t id,
                e,
                (==_iff self self).1 refl,
                stop_waiting me fs t k ft fts,
                run',
                stopping',
              )
              refl,
          order,
          queue,
          active,
        ),
      )
