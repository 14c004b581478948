-- ===== src/Scheduler/Drain/Ending.antt =====
-- The end of the thread, at an empty queue.
use gwn_framwork.Base.{
  ◌≡◌, refl, ap, ◌∙◌, true, false, [], some, ok, get_elem?, get_elem?-lt, get_elem?-set_self,
  get_elem?-set_ne, sym,
}
use gwn_framwork.Fiber.{exec, main_func, write, set_this, finish, inc64, dec64}
use gwn_framwork.Scheduler.{Sched, take_task, stopping, no_task}
use gwn_framwork.Scheduler.Worker.{
  Worker, as_idle, picking, holding, running, returned, stopped, work, run_fiber, act, come_back,
  count_down, dispatch, pick, start_idle,
}
use gwn_framwork.Scheduler.Drain.{Home, works, begun, begins, IsReady, IsDrained}
use gwn_framwork.Fiber.States.{returns, left, leave_by}
use gwn_framwork.Scheduler.Drain.Callbacks.{leave_lem}
use gwn_framwork.Scheduler.Drain.Starts.{next_code_exec}

pick_nothing :
    (s : Sched) (w : Worker)
    → w.pc ≡ picking
    → s.queue ≡ []
    → work w.pc s w ≡ ok (s, record w { pc = holding no_task })
unfolding work pick take_task
pick_nothing s w at queue = ap (λ pc. work pc s w) at ∙ rw (queue) refl

dispatch_nothing : (s : Sched) (w : Worker) → dispatch no_task s w ≡ start_idle s w
unfolding dispatch
dispatch_nothing s w = refl

-- With an empty queue the idle fiber ends, and the thread leaves the loop.
pub step_stop :
    (h : Home) (s : Sched) (w : Worker)
    → IsReady h [] s w
    → s.queue ≡ []
    → (s' : Sched) × (w' : Worker) × (works 6 s w ≡ ok (s', w'))
      × (begun 6 s w ≡ [])
      × IsDrained h s' w'
unfolding works work begun begins
step_stop h s w r queue =
    let m = h.address in
    let sf = r.scheduler in
    let other = λ (e : w.idle_fiber ≡ m). r.apart.not_idle (sym e) in
    let i = w.idle_fiber in
    let (f, there, (not_exec, not_term, next)) = r.apart.has_idle in
    let below = get_elem?-lt s.fibers.heap i there in
    let f₁ = record f { state = exec } in
    let fs₁ = write s.fibers i f₁ in
    let at_i : get_elem? fs₁.heap i ≡ some f₁ = get_elem?-set_self s.fibers.heap i _ below in
    let fs₂ = write fs₁ i (left returns f₁) in
    let at_i' : get_elem? fs₂.heap i ≡ some (left returns f₁) =
      get_elem?-set_self fs₁.heap i _ (get_elem?-lt fs₁.heap i at_i) in
    let s₂ = record s { fibers = fs₁; idle_count = inc64 s.idle_count } in
    let w₁ = record w { pc = holding no_task } in
    let w₂ = record w { tls = set_this (some i) w.tls; pc = running as_idle i } in
    let s₃ = record s₂ { fibers = fs₂ } in
    let w₃ = record w { tls = set_this w.tls.thread_fiber w.tls; pc = returned as_idle i } in
    let s₄ = record s₃ { idle_count = dec64 s₃.idle_count } in
    let w₄ = record w₃ { pc = picking } in
    let first = pick_nothing s w r.at queue in
    let second : start_idle s w₁ ≡ ok (s₂, w₂) =
      unfold start_idle in rw (there, not_term, not_exec, sf) refl in
    let finished : finish false main_func fs₁ w₂.tls ≡ ok (fs₂, w₃.tls) =
      unfold leave_by in leave_lem returns i m f₁ fs₁ w₂.tls at_i refl refl sf in
    let stops : stopping s₂ ≡ true =
      unfold stopping in rw (r.auto, r.asked, queue, r.active) refl in
    let third : run_fiber as_idle i s₂ w₂ ≡ ok (s₃, w₃) =
      unfold run_fiber act come_back in
      rw (at_i, next_code_exec f f.ctx, next, stops, finished) refl in
    let fourth : count_down as_idle i s₃ w₃ ≡ ok (s₄, w₄) = unfold count_down in rw (at_i') refl in
    let fifth = pick_nothing s₄ w₄ refl queue in
    let sixth : start_idle s₄ (record w₄ { pc = holding no_task })
        ≡ ok (s₄, record w₄ { pc = stopped }) =
      unfold start_idle in rw (at_i') refl in
    (
      s₄,
      record w₄ { pc = stopped },
      rw
          (
            first,
            dispatch_nothing s w₁,
            second,
            third,
            fourth,
            fifth,
            dispatch_nothing s₄ (record w₄ { pc = holding no_task }),
            sixth,
          )
          refl,
      rw
          (
            first,
            r.at,
            dispatch_nothing s w₁,
            second,
            third,
            fourth,
            fifth,
            dispatch_nothing s₄ (record w₄ { pc = holding no_task }),
            sixth,
          )
          refl,
      record {
        at = refl;
        queue = queue;
        active = r.active;
        auto = r.auto;
        asked = r.asked;
        main = r.main;
        home =
            get_elem?-set_ne fs₁.heap i m _ other
            ∙ get_elem?-set_ne s.fibers.heap i m _ other
            ∙ r.apart.home;
      },
    )
