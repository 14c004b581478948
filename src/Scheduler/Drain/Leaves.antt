-- ===== src/Scheduler/Drain/Leaves.antt =====
-- The switch back of a fiber to its thread, and the count behind it.
use gwn_framwork.Base.{
  ℕ, ◌≡◌, ◌≢◌, refl, ap, ◌∙◌, Bool, true, List, [], Option, some, ok, get_elem?, get_elem?-lt,
  get_elem?-set_self,
}
use gwn_framwork.Fiber.{Code, Fiber, Fibers, write, set_this, dec64}
use gwn_framwork.Scheduler.{Sched}
use gwn_framwork.Scheduler.Worker.{
  Worker, Kind, as_cb, as_fiber, as_idle, returned, settling, work, run_fiber, come_back,
  count_down,
}
use gwn_framwork.Fiber.States.{Leaving, left}
use gwn_framwork.Scheduler.Drain.{
  works, begun, begins, IsSimple, IsFree, IsFreeOf, IsQueue, Home, IsApart, RunsAs, IsRunning,
}
use gwn_framwork.Scheduler.Drain.Queues.{IsQueue-write, IsApart-write}
use gwn_framwork.Scheduler.Drain.Starts.{RunsAs-write}
use gwn_framwork.Scheduler.Drain.Callbacks.{code_of, leave_lem, act_leave}

-- A thread whose task's fiber has left by `l`, behind the count.
pub record IsLeft (h : Home) (kind : Kind) (l : Leaving) (a : ℕ) (g : Fiber) (cs : List Code)
    (s : Sched) (w : Worker) : Type 0 where
  pub at : w.pc ≡ settling kind a
  pub active : s.active ≡ 0
  pub auto : s.auto_stop ≡ true
  pub asked : s.is_stopping ≡ true
  pub queue : IsQueue w.thread_id s.fibers s.queue cs
  pub free : IsFree a s.queue
  pub free_idle : IsFree w.idle_fiber s.queue
  pub free_cb : IsFreeOf w.cb_fiber s.queue
  pub goes_on : IsSimple w.thread_id (code_of l)
  pub scheduler : w.tls.scheduler_fiber ≡ some h.address
  pub main : w.tls.thread_fiber ≡ h.main
  pub apart : IsApart h s.fibers w.idle_fiber
  pub not_home : a ≢ h.address
  pub other : a ≢ w.idle_fiber
  pub runs_as : RunsAs kind a g.stack h.address s.fibers w.idle_fiber w.cb_fiber
  pub there : get_elem? s.fibers.heap a ≡ some (left l g)

count_down_lem :
    (kind : Kind) (a : ℕ) (stack : Bool) (h : ℕ) (fs : Fibers) (i : ℕ) (o : Option ℕ) (s : Sched)
    (w : Worker)
    → RunsAs kind a stack h fs i o
    → count_down kind a s w
      ≡ ok (record s { active = dec64 s.active }, record w { pc = settling kind a })
unfolding count_down
count_down_lem as_cb a stack h fs i o s w r = refl
count_down_lem as_fiber a stack h fs i o s w r = refl
count_down_lem as_idle a stack h fs i o s w r = absurd r

-- The switch back and the count, in two steps.
pub step_leave :
    (h : Home) (kind : Kind) (l : Leaving) (a : ℕ) (g : Fiber) (cs : List Code) (s : Sched)
    (w : Worker)
    → IsRunning h kind (code_of l) a g cs s w
    → (s' : Sched) × (w' : Worker) × (works 2 s w ≡ ok (s', w'))
      × (begun 2 s w ≡ [])
      × IsLeft h kind l a g cs s' w'
unfolding works work run_fiber come_back dec64 begun begins
step_leave h kind l a g cs s w r =
    let e = r.entered in
    let me = w.thread_id in
    let fs₁ = write s.fibers a (left l g) in
    let s₁ = record s { fibers = fs₁ } in
    let w₁ = record w { tls = set_this w.tls.thread_fiber w.tls; pc = returned kind a } in
    let first : work w.pc s w ≡ ok (s₁, w₁) =
      ap (λ pc. work pc s w) r.at
      ∙ rw
          (
            e.there,
            e.next,
            act_leave l kind a s w,
            leave_lem l a h.address g s.fibers w.tls e.there r.executing r.this e.scheduler,
          )
          refl in
    let second =
      count_down_lem kind a g.stack h.address s.fibers w.idle_fiber w.cb_fiber s₁ w₁ e.runs_as in
    (
      record s₁ { active = dec64 s.active },
      record w₁ { pc = settling kind a },
      rw (first, second) refl,
      rw (first, r.at, second) refl,
      record {
        at = refl;
        active = rw (e.active) refl;
        auto = e.auto;
        asked = e.asked;
        queue = IsQueue-write me s.fibers a (left l g) s.queue cs e.free e.queue;
        free = e.free;
        free_idle = e.free_idle;
        free_cb = e.free_cb;
        goes_on = e.goes_on;
        scheduler = e.scheduler;
        main = e.main;
        apart = IsApart-write h s.fibers w.idle_fiber a (left l g) e.not_home e.other e.apart;
        not_home = e.not_home;
        other = e.other;
        runs_as =
            RunsAs-write kind a g.stack h.address s.fibers w.idle_fiber w.cb_fiber (left l g)
              e.runs_as;
        there =
            get_elem?-set_self s.fibers.heap a (left l g) (get_elem?-lt s.fibers.heap a e.there);
      },
    )
