-- ===== src/Scheduler/Drain/Picks.antt =====
-- A thread takes the first task of the queue and starts it.
use gwn_framwork.Base.{ℕ, ◌≡◌, refl, ap, ◌∙◌, subst, List, [], ◌∷◌, ◌++◌, ok, fault}
use gwn_framwork.Fiber.{Code, Fiber, Fibers}
use gwn_framwork.Scheduler.{Task, Sched}
use gwn_framwork.Scheduler.Worker.{Worker, Kind, picking, holding, work, dispatch, pick}
use gwn_framwork.Scheduler.Drain.{
  works, resumed, begun, begins, IsJob, is_callback, is_fiber, IsFree, IsFreeOf, IsQueue, Home,
  IsReady, IsRunning,
}
use gwn_framwork.Scheduler.Drain.Starts.{take_task_first}
use gwn_framwork.Scheduler.Drain.Enters.{start_job}

resumed-job :
    (me : ℕ) (fs : Fibers) (ft : Task) (c : Code)
    → IsJob me fs ft c
    → resumed fs ft.fiber ft.cb ≡ c ∷ []
unfolding resumed
resumed-job me fs ft c (is_callback no_fiber has_cb own) = rw (no_fiber, has_cb) refl
resumed-job me fs ft c (is_fiber a g has own there waits next) = rw (has, there, next) refl

begun_first :
    (ft : Task) (c : Code) (s s₁ s₂ : Sched) (w w₁ w₂ : Worker)
    → w.pc ≡ picking
    → work w.pc s w ≡ ok (s₁, w₁)
    → w₁.pc ≡ holding ft
    → resumed s₁.fibers ft.fiber ft.cb ≡ c ∷ []
    → dispatch ft s₁ w₁ ≡ ok (s₂, w₂)
    → begun 2 s w ≡ c ∷ []
unfolding begun begins work
begun_first ft c s s₁ s₂ w w₁ w₂ at first at₁ goes_on second =
    rw (first, at)
      (ap (λ pc. begins s₁.fibers pc ++ elim (work pc s₁ w₁) [ ok r ↦ [] | fault e ↦ [] ]) at₁
        ∙ rw (second, goes_on) refl)

-- The first task of the queue is started, in two steps.
pub step_start :
    (h : Home) (ft : Task) (fts : List Task) (c : Code) (cs : List Code) (s : Sched) (w : Worker)
    → IsReady h (c ∷ cs) s w
    → s.queue ≡ ft ∷ fts
    → (kind : Kind) × (a : ℕ) × (g : Fiber) × (s' : Sched) × (w' : Worker) × (works 2 s w
        ≡ ok (s', w'))
      × (begun 2 s w ≡ c ∷ [])
      × (s'.queue ≡ fts)
      × IsRunning h kind c a g cs s' w'
unfolding works work pick
step_start h ft fts c cs s w r queue =
    let me = w.thread_id in
    let (job, simple, free, rest) = subst (λ q. IsQueue me s.fibers q (c ∷ cs)) queue r.queue in
    let (s₁, took, queue₁, active₁, fibers₁, auto₁, asked₁) =
      take_task_first ft c fts s w queue r.active job in
    let w₁ = record w { pc = holding ft } in
    let job₁ : IsJob me s₁.fibers ft c = rw (fibers₁) job in
    let (kind, a, g, s₂, w₂, second, queue₂, running₂) =
      start_job h c ft cs s₁ w₁
        (record {
          active = active₁;
          auto = auto₁ ∙ r.auto;
          asked = asked₁ ∙ r.asked;
          job = job₁;
          goes_on = simple;
          free = rw (queue₁) free;
          queue = rw (queue₁, fibers₁) rest;
          free_idle = rw (queue₁) (subst (IsFree w.idle_fiber) queue r.free_idle);
          free_cb = rw (queue₁) (subst (IsFreeOf w.cb_fiber) queue r.free_cb);
          scheduler = r.scheduler;
          main = r.main;
          apart = rw (fibers₁) r.apart;
          has_cb = rw (fibers₁) r.has_cb;
        })
        job₁ in
    let first : work w.pc s w ≡ ok (s₁, w₁) = ap (λ pc. work pc s w) r.at ∙ rw (took) refl in
    (
      kind,
      a,
      g,
      s₂,
      w₂,
      rw (first, second) refl,
      begun_first ft c s s₁ s₂ w w₁ w₂ r.at first refl (resumed-job me s₁.fibers ft c job₁) second,
      queue₂ ∙ queue₁,
      running₂,
    )
