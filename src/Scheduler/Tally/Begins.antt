-- ===== src/Scheduler/Tally/Begins.antt =====
-- What a thread in `Scheduler::run` of gwn/scheduler.cc does with the task that it holds.
use gwn_framwork.Base.{
  ℕ, ◌%◌, ◌^◌, ◌≡◌, refl, sym, ◌⊎◌, inl, inr, ◌∙◌, ap, Bool, true, false, [], ◌∷◌, ◌++◌, Option,
  none, some, arith, if◌then◌else◌, length, get_elem?, get_elem?-lt, get_elem?-set_self,
  get_elem?-append_self, >>=-eq-ok, ok,
}
use gwn_framwork.Fiber.{
  Code, Fibers, Fiber, exec, Tls, write, swap_in, new_fiber, reset, init, fresh, main_func, inc64,
}
use gwn_framwork.Scheduler.{Task, Sched}
use gwn_framwork.Scheduler.Queue.{with_work}
use gwn_framwork.Scheduler.Worker.{
  Kind, as_fiber, as_cb, as_idle, Pc, running, holding, stopped, Worker, fiber_alive, switch_to,
  cb_fiber_for, start_cb, start_idle, start_fiber, start_other, dispatch, next_code,
}
use gwn_framwork.Scheduler.Balance.{lost_weight}
use gwn_framwork.Scheduler.Drain.Starts.{next_code_exec}
use gwn_framwork.Scheduler.Tally.{code_of, code_at, begun_by, lost_by, held}

code_at_lem :
    (fs : Fibers) (a : ℕ) (f : Fiber)
    → get_elem? fs.heap a ≡ some f
    → code_at fs a ≡ code_of (next_code f f.ctx)
code_at_lem fs a f h = rw h refl

code_at-write :
    (fs : Fibers) (a : ℕ) (f g : Fiber)
    → get_elem? fs.heap a ≡ some f
    → code_at (write fs a g) a ≡ code_of (next_code g g.ctx)
code_at-write fs a f g h =
    code_at_lem (write fs a g) a g (get_elem?-set_self fs.heap a g (get_elem?-lt fs.heap a h))

swap_in-code_at :
    (a : ℕ) (fs fs' : Fibers) (t t' : Tls)
    → swap_in a fs t ≡ ok (fs', t')
    → code_at fs' a ≡ code_at fs a
unfolding swap_in
swap_in-code_at a fs fs' t t' h =
    elim (get_elem? fs.heap a) as (λ o. get_elem? fs.heap a ≡ o → code_at fs' a ≡ code_at fs a) [
      | none ↦ λ e. ground arith
      | some f ↦ λ e. ground (
        arith,
        code_at-write fs a f (record f { state = exec }) e,
        next_code_exec f f.ctx,
        code_at_lem fs a f e,
      )
    ]
      refl

new_fiber-code_at :
    (c : Code) (fs : Fibers) → code_at (new_fiber c 0 false fs).1 (length fs.heap) ≡ some c
unfolding new_fiber next_code
new_fiber-code_at c fs =
    let g : Fiber = record {
      id = inc64 fs.last_id;
      stacksize = fs.stack_size % 2 ^ 32;
      state = init;
      ctx = fresh main_func;
      stack = true;
      cb = some c;
    } in
    code_at_lem (new_fiber c 0 false fs).1 (length fs.heap) g (get_elem?-append_self fs.heap g)

cb_fiber_for-code_at :
    (c : Code) (o : Option ℕ) (fs : Fibers) {a : ℕ} {fs' : Fibers}
    → cb_fiber_for c o fs ≡ ok (a, fs')
    → code_at fs' a ≡ some c
unfolding cb_fiber_for reset next_code
cb_fiber_for-code_at c none fs h = unfold new_fiber in ground (arith, new_fiber-code_at c fs)
cb_fiber_for-code_at c (some b) fs {a} {fs'} h =
    elim (get_elem? fs.heap b) as (λ o. get_elem? fs.heap b ≡ o → code_at fs' a ≡ some c) [
      | none ↦ λ e. ground arith
      | some f ↦ λ e. ground (
        arith,
        code_at-write fs b f (record f { cb = some c; ctx = fresh main_func; state = init }) e,
      )
    ]
      refl

start_cb-begins :
    (c : Code) (s : Sched) (w : Worker) {s' : Sched} {w' : Worker}
    → start_cb c s w ≡ ok (s', w')
    → (a : ℕ) × (w'.pc ≡ running as_cb a) × (code_at s'.fibers a ≡ some c) × (s'.queue ≡ s.queue)
unfolding start_cb switch_to
start_cb-begins c s w {s'} {w'} h =
    let ((a, fs), e₁, h₁) = >>=-eq-ok (cb_fiber_for c w.cb_fiber s.fibers) _ h in
    let ((fs', t), e₂, h₂) = >>=-eq-ok (swap_in a fs w.tls) _ h₁ in
    let q : s'.queue ≡ s.queue = cc in
    let i : w'.pc ≡ running as_cb a = cc in
    let f : fs' ≡ s'.fibers = cc in
    (
      a,
      i,
      ap (λ fs. code_at fs a) (sym f)
          ∙ swap_in-code_at a fs fs' w.tls t e₂
          ∙ cb_fiber_for-code_at c w.cb_fiber s.fibers e₁,
      q,
    )

switch_to-begins :
    (kind : Kind) (a : ℕ) (s : Sched) (w : Worker) {s' : Sched} {w' : Worker}
    → switch_to kind a s w ≡ ok (s', w')
    → (w'.pc ≡ running kind a) × (s'.queue ≡ s.queue)
unfolding switch_to
switch_to-begins kind a s w h = ground arith

-- The thread that was in no task's fiber is in the idle fiber, or out of its loop.
start_idle-begins :
    (s : Sched) (w : Worker) {s' : Sched} {w' : Worker}
    → start_idle s w ≡ ok (s', w')
    → ((w'.pc ≡ running as_idle w.idle_fiber) ⊎ (w'.pc ≡ stopped)) × (s'.queue ≡ s.queue)
unfolding start_idle
start_idle-begins s w h = ground arith

-- What becomes of the task that the thread held.
abbrev pub Parts : Task → Sched → Sched → Pc → Type 0
Parts ft s s' pc =
    (s'.queue ≡ s.queue)
    × (held pc ≡ [])
    × (with_work (ft ∷ []) ≡ begun_by (holding ft) s' pc ++ lost_by (holding ft) pc)
    × (length (lost_by (holding ft) pc) ≡ lost_weight s.fibers (holding ft))

module _ (ft : Task) (s s' : Sched) where
  idle-Parts :
      (pc : Pc) (a : ℕ)
      → (pc ≡ running as_idle a) ⊎ (pc ≡ stopped)
      → s'.queue ≡ s.queue
      → length (with_work (ft ∷ [])) ≡ lost_weight s.fibers (holding ft)
      → Parts ft s s' pc
  idle-Parts pc a (inl e) q n = rw e (q, refl, refl, n)
  idle-Parts pc a (inr e) q n = rw e (q, refl, refl, n)

dispatch_cases :
    (alive : Bool) (o : Option ℕ) (c : Option Code) (th : Option ℕ) (s : Sched) (w : Worker)
    {s' : Sched} {w' : Worker}
    → fiber_alive s.fibers o ≡ ok alive
    → (if alive then start_fiber o s w else start_other c s w) ≡ ok (s', w')
    → Parts (record { fiber = o; cb = c; thread = th }) s s' w'.pc
unfolding start_fiber start_other
dispatch_cases true (some a) c th s w {s'} {w'} e h =
    let (i, q) = switch_to-begins as_fiber a s w h in rw i (q, refl, refl, ground (arith, e))
dispatch_cases true none c th s w e h = unfold fiber_alive in ground arith
dispatch_cases false o (some c) th s w {s'} {w'} e h =
    let (a, i, code, q) = start_cb-begins c s w h in
    rw (i, code) (q, refl, ground arith, ground arith)
dispatch_cases false (some a) none th s w {s'} {w'} e h =
    let (i, q) = start_idle-begins s w h in
    idle-Parts (record { fiber = some a; cb = none; thread = th }) s s' w'.pc w.idle_fiber i q
      (rw e refl)
dispatch_cases false none none th s w {s'} {w'} e h =
    let (i, q) = start_idle-begins s w h in
    idle-Parts (record { fiber = none; cb = none; thread = th }) s s' w'.pc w.idle_fiber i q refl

pub dispatch-Parts :
    (ft : Task) (s : Sched) (w : Worker) {s' : Sched} {w' : Worker}
    → dispatch ft s w ≡ ok (s', w')
    → Parts ft s s' w'.pc
unfolding dispatch
dispatch-Parts ft s w h =
    let (alive, e, r) =
      >>=-eq-ok (fiber_alive s.fibers ft.fiber)
        (λ alive. if alive then start_fiber ft.fiber s w else start_other ft.cb s w) h in
    dispatch_cases alive ft.fiber ft.cb ft.thread s w e r
