-- ===== src/Scheduler/Drain.antt =====
-- One thread that works off the queue of a scheduler that is asked to stop, to its end.
pub mod Queues
pub mod Starts
pub mod Enters
pub mod Picks
pub mod Callbacks
pub mod Leaves
pub mod Settles
pub mod Ending
pub mod Stops
use gwn_framwork.Base.{
  ℕ, zero, suc, ◌≡◌, ◌≢◌, refl, sym, subst, >>=-eq-ok, Bool, true, false, List, [], ◌∷◌, ◌++◌,
  Option, none, some, ok, fault, arith, if◌then◌else◌, ◌>>=◌, get_elem?, All, append_assoc,
}
use gwn_framwork.Fiber.{
  State, init, hold, exec, term, ready, state_eq, is_over, Code, ret, throw, idle, schedule_cb,
  yield_ready, yield_hold, main_func, Entry, Fiber, Result, Fibers, read,
}
use gwn_framwork.Scheduler.{Task, Sched, is_foreign, tickle_if}
use gwn_framwork.Scheduler.Worker.{
  Worker, Kind, Pc, as_cb, as_fiber, as_idle, picking, holding, running, stopped, next_code, work,
}

-- Any number of steps of a thread.
unfoldable pub works : ℕ → Sched → Worker → Result (Sched × Worker)
works zero s w = ok (s, w)
works (suc n) s w = work w.pc s w >>= λ (s', w'). works n s' w'

-- For the thread `me`, or for any.
abbrev pub IsOwn : ℕ → Option ℕ → Type 0
IsOwn me none = Unit
IsOwn me (some t) = t ≡ me

-- A callback that returns, throws, or yields, before or after that schedules callbacks like it for
-- this thread or any, and goes on like it behind `YieldToReady`. What stands behind `YieldToHold` is
-- not reached, since nobody schedules the fiber again.
abbrev pub IsSimple : ℕ → Code → Type 0
IsSimple me ret = Unit
IsSimple me throw = Unit
IsSimple me (yield_ready k) = IsSimple me k
IsSimple me (yield_hold k) = Unit
IsSimple me (schedule_cb c th k) = IsSimple me c × IsOwn me th × IsSimple me k
IsSimple me _ = ⊥

abbrev pub IsSimpleTask : ℕ → Task → Type 0
IsSimpleTask me ft =
    (c : Code) × (ft.fiber ≡ none) × (ft.cb ≡ some c) × IsOwn me ft.thread × IsSimple me c

-- A fiber that a round may switch into.
unfoldable pub is_waiting : State → Bool
is_waiting init = true
is_waiting hold = true
is_waiting ready = true
is_waiting _ = false

-- What a task of this thread, or of any, goes on with: a callback, or a fiber that waits.
pub data IsJob (me : ℕ) (fs : Fibers) (ft : Task) (c : Code) : Type 0 where
  is_callback : ft.fiber ≡ none → ft.cb ≡ some c → IsOwn me ft.thread → IsJob me fs ft c
  is_fiber :
      (a : ℕ) (g : Fiber)
      → ft.fiber ≡ some a
      → IsOwn me ft.thread
      → get_elem? fs.heap a ≡ some g
      → is_waiting g.state ≡ true
      → next_code g g.ctx ≡ ok (main_func, c)
      → IsJob me fs ft c

-- No task has this fiber.
abbrev pub IsFree : ℕ → List Task → Type 0
IsFree a fts = All (λ ft. ft.fiber ≢ some a) fts

abbrev pub IsFreeOf : Option ℕ → List Task → Type 0
IsFreeOf none fts = Unit
IsFreeOf (some a) fts = IsFree a fts

-- A queue of simple tasks, no fiber twice, with what each goes on with.
abbrev pub IsQueue : ℕ → Fibers → List Task → List Code → Type 0
IsQueue me fs [] [] = Unit
IsQueue me fs (ft ∷ fts) (c ∷ cs) =
    IsJob me fs ft c × IsSimple me c × IsFreeOf ft.fiber fts × IsQueue me fs fts cs
IsQueue me fs _ _ = ⊥

-- The idle fiber before its end.
abbrev pub IsIdle : Fiber → Type 0
IsIdle f =
    (state_eq f.state exec ≡ false)
    × (state_eq f.state term ≡ false)
    × (next_code f f.ctx ≡ ok (main_func, idle))

abbrev pub HasIdle : Fibers → ℕ → Type 0
HasIdle fs i = (f : Fiber) × (get_elem? fs.heap i ≡ some f) × IsIdle f

-- Where the thread comes back to: its scheduling fiber, and its main fiber.
pub record Home : Type 0 where
  pub address : ℕ
  pub fiber : Fiber
  pub main : Option ℕ

-- The scheduling fiber and the idle fiber are there, and are not the same.
pub record IsApart (h : Home) (fs : Fibers) (i : ℕ) : Type 0 where
  pub home : get_elem? fs.heap h.address ≡ some h.fiber
  pub busy : is_waiting h.fiber.state ≡ false
  pub not_idle : h.address ≢ i
  pub has_idle : HasIdle fs i

-- The fiber for callbacks can be reset, and is neither the idle fiber nor the scheduling fiber.
abbrev pub HasCbFiber : ℕ → Fibers → ℕ → Option ℕ → Type 0
HasCbFiber h fs i none = Unit
HasCbFiber h fs i (some a) =
    (g : Fiber) × (a ≢ i)
    × (a ≢ h)
    × (get_elem? fs.heap a ≡ some g)
    × (g.stack ≡ true)
    × (is_over g.state ≡ true)

-- A thread at the beginning of a round, alone at a scheduler that is asked to stop.
pub record IsReady (h : Home) (cs : List Code) (s : Sched) (w : Worker) : Type 0 where
  pub at : w.pc ≡ picking
  pub active : s.active ≡ 0
  pub auto : s.auto_stop ≡ true
  pub asked : s.is_stopping ≡ true
  pub queue : IsQueue w.thread_id s.fibers s.queue cs
  pub free_idle : IsFree w.idle_fiber s.queue
  pub free_cb : IsFreeOf w.cb_fiber s.queue
  pub scheduler : w.tls.scheduler_fiber ≡ some h.address
  pub main : w.tls.thread_fiber ≡ h.main
  pub apart : IsApart h s.fibers w.idle_fiber
  pub has_cb : HasCbFiber h.address s.fibers w.idle_fiber w.cb_fiber

-- What the fiber that is run has to do with the fiber for callbacks.
abbrev RunsAs : Kind → ℕ → Bool → ℕ → Fibers → ℕ → Option ℕ → Type 0
RunsAs as_cb a stack h fs i o = (o ≡ some a) × (stack ≡ true)
RunsAs as_fiber a stack h fs i o = HasCbFiber h fs i o × (o ≢ some a)
RunsAs as_idle a stack h fs i o = ⊥

-- A thread that has taken a task, to go on with `c` in the fiber at `a`; the fiber is not entered yet.
record IsEntering (h : Home) (kind : Kind) (c : Code) (a : ℕ) (g : Fiber) (cs : List Code)
    (s : Sched) (w : Worker) : Type 0 where
  active : s.active ≡ 1
  auto : s.auto_stop ≡ true
  asked : s.is_stopping ≡ true
  queue : IsQueue w.thread_id s.fibers s.queue cs
  free : IsFree a s.queue
  free_idle : IsFree w.idle_fiber s.queue
  free_cb : IsFreeOf w.cb_fiber s.queue
  goes_on : IsSimple w.thread_id c
  scheduler : w.tls.scheduler_fiber ≡ some h.address
  main : w.tls.thread_fiber ≡ h.main
  apart : IsApart h s.fibers w.idle_fiber
  not_home : a ≢ h.address
  other : a ≢ w.idle_fiber
  runs_as : RunsAs kind a g.stack h.address s.fibers w.idle_fiber w.cb_fiber
  there : get_elem? s.fibers.heap a ≡ some g
  next : next_code g g.ctx ≡ ok (main_func, c)

-- A thread in that fiber.
record IsRunning (h : Home) (kind : Kind) (c : Code) (a : ℕ) (g : Fiber) (cs : List Code)
    (s : Sched) (w : Worker) : Type 0 where
  at : w.pc ≡ running kind a
  entered : IsEntering h kind c a g cs s w
  this : w.tls.fiber ≡ some a
  executing : g.state ≡ exec

own-not_foreign : (me : ℕ) (t : Option ℕ) → IsOwn me t → is_foreign me t ≡ false
unfolding is_foreign
own-not_foreign me none h = refl
own-not_foreign me (some t) h = ground arith

pub tickle_if-keeps :
    (b : Bool) (s : Sched)
    → ((tickle_if b s).queue ≡ s.queue)
      × ((tickle_if b s).active ≡ s.active)
      × ((tickle_if b s).fibers ≡ s.fibers)
      × ((tickle_if b s).auto_stop ≡ s.auto_stop)
      × ((tickle_if b s).is_stopping ≡ s.is_stopping)
tickle_if-keeps true s = (refl, refl, refl, refl, refl)
tickle_if-keeps false s = (refl, refl, refl, refl, refl)

-- The thread has left the loop, with nothing left to do, and its scheduling fiber is as it was.
pub record IsDrained (h : Home) (s : Sched) (w : Worker) : Type 0 where
  pub at : w.pc ≡ stopped
  pub queue : s.queue ≡ []
  pub active : s.active ≡ 0
  pub auto : s.auto_stop ≡ true
  pub asked : s.is_stopping ≡ true
  pub main : w.tls.thread_fiber ≡ h.main
  pub home : get_elem? s.fibers.heap h.address ≡ some h.fiber

-- What a thread that holds a task goes on with: the fiber, or the callback.
abbrev told : Result (Entry × Code) → List Code
told (ok r) = r.1 ∷ []
told (fault e) = []

unfoldable pub resumed : Fibers → Option ℕ → Option Code → List Code
unfolding next_code
resumed fs none o = elim o [ none ↦ [] | some c ↦ c ∷ [] ]
resumed fs (some a) o = told (read fs a >>= λ f. next_code f f.ctx)

unfoldable pub begins : Fibers → Pc → List Code
unfolding resumed
begins fs (holding ft) = resumed fs ft.fiber ft.cb
begins fs _ = []

-- What the steps of a thread begin or resume, in their order.
unfoldable pub begun : ℕ → Sched → Worker → List Code
begun zero s w = []
begun (suc n) s w =
    begins s.fibers w.pc ++ elim (work w.pc s w) [ ok r ↦ begun n r.0 r.1 | fault e ↦ [] ]

-- What a callback puts into the queue until it yields or ends: the callbacks that it schedules, and
-- its own rest behind `YieldToReady`.
unfoldable pub children : Code → List Code
children (schedule_cb c th k) = c ∷ children k
children (yield_ready k) = k ∷ []
children _ = []

-- The order of a queue: the first one is run, and what it puts into the queue stands behind the others.
pub data InOrder : List Code → List Code → Type 0 where
  done : InOrder [] []
  next : {c : Code} {q cs : List Code} → InOrder (q ++ children c) cs → InOrder (c ∷ q) (c ∷ cs)

-- The callbacks of a queue.
unfoldable pub cbs : List Task → List Code
cbs [] = []
cbs (ft ∷ fts) = elim ft.cb [ none ↦ cbs fts | some c ↦ c ∷ cbs fts ]

-- To the end of the loop, with these begun or resumed.
abbrev pub Leaves : Home → Sched → Worker → List Code → Type 0
Leaves h s w cs =
    (n : ℕ) × (s' : Sched) × (w' : Worker) × (works n s w ≡ ok (s', w'))
    × (begun n s w ≡ cs)
    × IsDrained h s' w'

abbrev pub Drains : Home → Sched → Worker → List Code → Type 0
Drains h s w q = (cs : List Code) × InOrder q cs × Leaves h s w cs

module _ (h : Home) where
  Leaves-step :
      (s s' : Sched) (w w' : Worker) (cs : List Code)
      → work w.pc s w ≡ ok (s', w')
      → Leaves h s' w' cs
      → Leaves h s w (begins s.fibers w.pc ++ cs)
  unfolding works begun
  Leaves-step s s' w w' cs e₁ (n, s'', w'', e, t, d) =
      (suc n, s'', w'', rw (e₁) e, rw (e₁, t) refl, d)

  Leaves-works :
      (m : ℕ) (s s' : Sched) (w w' : Worker) (cs : List Code)
      → works m s w ≡ ok (s', w')
      → Leaves h s' w' cs
      → Leaves h s w (begun m s w ++ cs)
  unfolding works begun
  Leaves-works zero s s' w w' cs e d =
      let same : ◌≡◌ {A = Sched × Worker} (s, w) (s', w') = cc in
      subst (λ (p : Sched × Worker). Leaves h p.0 p.1 cs) (sym same) d
  Leaves-works (suc m) s s' w w' cs e d =
      let ((s₁, w₁), e₁, e₂) = >>=-eq-ok (work w.pc s w) (λ (s', w'). works m s' w') e in
      let step =
        Leaves-step s s₁ w w₁ (begun m s₁ w₁ ++ cs) e₁ (Leaves-works m s₁ s' w₁ w' cs e₂ d) in
      rw (e₁, append_assoc (begins s.fibers w.pc) (begun m s₁ w₁) cs) step
