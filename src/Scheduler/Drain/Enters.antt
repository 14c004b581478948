-- ===== src/Scheduler/Drain/Enters.antt =====
-- The ways into a fiber: a new fiber or the one for callbacks with a callback, or a fiber that waits.
use gwn_framwork.Base.{
  ℕ, ◌%◌, ◌^◌, ◌≡◌, refl, sym, ap, ◌∙◌, subst, true, false, List, ◌∷◌, Option, none, some, ok,
  arith, length, get_elem?, get_elem?-lt, get_elem?-set_self, get_elem?-append_self,
}
use gwn_framwork.Fiber.{
  init, state_eq, Code, main_func, fresh, Fiber, Result, write, new_fiber, reset, inc64,
}
use gwn_framwork.Scheduler.{Task, Sched}
use gwn_framwork.Scheduler.Worker.{
  Worker, Kind, as_cb, as_fiber, next_code, start_cb, switch_to, dispatch, fiber_alive, is_alive,
}
use gwn_framwork.Scheduler.Drain.{
  IsSimple, is_waiting, IsJob, is_callback, is_fiber, IsFree, IsFreeOf, IsQueue, Home, IsApart,
  HasCbFiber, IsRunning,
}
use gwn_framwork.Scheduler.Drain.Queues.{
  IsQueue-Keeps, IsQueue-write, busy-ne, IsApart-write, append-Keeps, IsApart-append, new-IsFree,
  IsFreeOf-cons,
}
use gwn_framwork.Scheduler.Drain.Starts.{
  waiting-not_exec, waiting-is_alive, enter_lem, executing, after_switch, in_fiber,
}

-- A thread that holds a task.
pub record IsHolding (h : Home) (c : Code) (ft : Task) (cs : List Code) (s : Sched) (w : Worker)
    : Type 0 where
  pub active : s.active ≡ 1
  pub auto : s.auto_stop ≡ true
  pub asked : s.is_stopping ≡ true
  pub job : IsJob w.thread_id s.fibers ft c
  pub goes_on : IsSimple w.thread_id c
  pub free : IsFreeOf ft.fiber s.queue
  pub queue : IsQueue w.thread_id s.fibers s.queue cs
  pub free_idle : IsFree w.idle_fiber (ft ∷ s.queue)
  pub free_cb : IsFreeOf w.cb_fiber (ft ∷ s.queue)
  pub scheduler : w.tls.scheduler_fiber ≡ some h.address
  pub main : w.tls.thread_fiber ≡ h.main
  pub apart : IsApart h s.fibers w.idle_fiber
  pub has_cb : HasCbFiber h.address s.fibers w.idle_fiber w.cb_fiber

-- What a start leads to: the thread is in a fiber that goes on with `c`.
abbrev pub Enters : Home → Code → List Code → List Task → Result (Sched × Worker) → Type 0
Enters h c cs q r =
    (kind : Kind) × (a : ℕ) × (g : Fiber) × (s' : Sched) × (w' : Worker) × (r ≡ ok (s', w'))
    × (s'.queue ≡ q)
    × IsRunning h kind c a g cs s' w'

module _ (h : Home) (c : Code) (ft : Task) (cs : List Code) (s : Sched) (w : Worker)
    (p : IsHolding h c ft cs s w) where
  start_new : w.cb_fiber ≡ none → Enters h c cs s.queue (start_cb c s w)
  unfolding start_cb new_fiber
  start_new none_yet =
      let a = length s.fibers.heap in
      let (n, fs) = new_fiber c 0 false s.fibers in
      let g : Fiber = record {
        id = inc64 s.fibers.last_id;
        stacksize = s.fibers.stack_size % 2 ^ 32;
        state = init;
        ctx = fresh main_func;
        stack = true;
        cb = some c;
      } in
      let s₁ = record s { fibers = fs } in
      let w₁ = record w { cb_fiber = some a } in
      let free = new-IsFree w.thread_id s.fibers s.queue cs p.queue in
      let (f, idle_there, idles) = p.apart.has_idle in
      let home_below = get_elem?-lt s.fibers.heap h.address p.apart.home in
      let idle_below = get_elem?-lt s.fibers.heap w.idle_fiber idle_there in
      let (switched, runs) =
        enter_lem h as_cb c a g cs s₁ w₁
          (record {
            active = p.active;
            auto = p.auto;
            asked = p.asked;
            queue =
                IsQueue-Keeps w.thread_id s.fibers fs s.queue cs (append-Keeps s.fibers fs g refl)
                  p.queue;
            free = free;
            free_idle = p.free_idle.1;
            free_cb = free;
            goes_on = p.goes_on;
            scheduler = p.scheduler;
            main = p.main;
            apart = IsApart-append s.fibers fs g refl h w.idle_fiber p.apart;
            not_home = λ e. absurd (omega arith);
            other = λ e. absurd (omega arith);
            runs_as = (refl, refl);
            there = get_elem?-append_self s.fibers.heap g;
            next = unfold next_code in refl;
          })
          (unfold state_eq in refl) in
      (
        as_cb,
        a,
        executing h as_cb c a g cs s₁ w₁,
        after_switch h as_cb c a g cs s₁ w₁,
        in_fiber h as_cb c a g cs s₁ w₁,
        rw (none_yet, switched) refl,
        refl,
        runs,
      )

  start_reused : (a : ℕ) → w.cb_fiber ≡ some a → Enters h c cs s.queue (start_cb c s w)
  unfolding start_cb reset
  start_reused a has =
      let (g₀, other, not_home, there, stack, over) =
        subst (HasCbFiber h.address s.fibers w.idle_fiber) has p.has_cb in
      let g = record g₀ { cb = some c; ctx = fresh main_func; state = init; stack = true } in
      let fs = write s.fibers a g in
      let s₁ = record s { fibers = fs } in
      let w₁ = record w { cb_fiber = some a } in
      let free : IsFree a s.queue = (subst (λ o. IsFreeOf o (ft ∷ s.queue)) has p.free_cb).1 in
      let (switched, runs) =
        enter_lem h as_cb c a g cs s₁ w₁
          (record {
            active = p.active;
            auto = p.auto;
            asked = p.asked;
            queue = IsQueue-write w.thread_id s.fibers a g s.queue cs free p.queue;
            free = free;
            free_idle = p.free_idle.1;
            free_cb = free;
            goes_on = p.goes_on;
            scheduler = p.scheduler;
            main = p.main;
            apart = IsApart-write h s.fibers w.idle_fiber a g not_home other p.apart;
            not_home = not_home;
            other = other;
            runs_as = (refl, refl);
            there = get_elem?-set_self s.fibers.heap a g (get_elem?-lt s.fibers.heap a there);
            next = unfold next_code in refl;
          })
          (unfold state_eq in refl) in
      (
        as_cb,
        a,
        executing h as_cb c a g cs s₁ w₁,
        after_switch h as_cb c a g cs s₁ w₁,
        in_fiber h as_cb c a g cs s₁ w₁,
        rw (has, there, stack, over, switched) refl,
        refl,
        runs,
      )

  dispatch_fiber :
      (a : ℕ) (g : Fiber)
      → ft.fiber ≡ some a
      → get_elem? s.fibers.heap a ≡ some g
      → is_alive g.state ≡ true
      → dispatch ft s w ≡ switch_to as_fiber a s w
  unfolding dispatch fiber_alive
  dispatch_fiber a g has there alive = rw (has, there, alive) refl

  dispatch_cb : ft.fiber ≡ none → ft.cb ≡ some c → dispatch ft s w ≡ start_cb c s w
  unfolding dispatch
  dispatch_cb no_fiber has_cb = rw (no_fiber, has_cb) refl

  start_fiber_lem :
      (a : ℕ) (g : Fiber)
      → ft.fiber ≡ some a
      → get_elem? s.fibers.heap a ≡ some g
      → is_waiting g.state ≡ true
      → next_code g g.ctx ≡ ok (main_func, c)
      → Enters h c cs s.queue (dispatch ft s w)
  start_fiber_lem a g has there waits next =
      let not_home = busy-ne s.fibers h.address a h.fiber g p.apart.home p.apart.busy there waits in
      let (not_cb, free_cb) = IsFreeOf-cons w.cb_fiber ft s.queue p.free_cb in
      let (switched, runs) =
        enter_lem h as_fiber c a g cs s w
          (record {
            active = p.active;
            auto = p.auto;
            asked = p.asked;
            queue = p.queue;
            free = subst (λ o. IsFreeOf o s.queue) has p.free;
            free_idle = p.free_idle.1;
            free_cb = free_cb;
            goes_on = p.goes_on;
            scheduler = p.scheduler;
            main = p.main;
            apart = p.apart;
            not_home = λ e. not_home (sym e);
            other = λ e. p.free_idle.0 (has ∙ ap some e);
            runs_as = (p.has_cb, λ e. not_cb a e has);
            there = there;
            next = next;
          })
          (waiting-not_exec g.state waits) in
      (
        as_fiber,
        a,
        executing h as_fiber c a g cs s w,
        after_switch h as_fiber c a g cs s w,
        in_fiber h as_fiber c a g cs s w,
        dispatch_fiber a g has there (waiting-is_alive g.state waits) ∙ switched,
        refl,
        runs,
      )

  start_cb_lem : (o : Option ℕ) → w.cb_fiber ≡ o → Enters h c cs s.queue (start_cb c s w)
  start_cb_lem none e = start_new e
  start_cb_lem (some a) e = start_reused a e

  -- The thread starts its task.
  pub start_job : IsJob w.thread_id s.fibers ft c → Enters h c cs s.queue (dispatch ft s w)
  start_job (is_callback no_fiber has_cb own) =
      subst (Enters h c cs s.queue) (sym (dispatch_cb no_fiber has_cb))
        (start_cb_lem w.cb_fiber refl)
  start_job (is_fiber a g has own there waits next) = start_fiber_lem a g has there waits next
