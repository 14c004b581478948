-- ===== src/Scheduler/Drain/Stops.antt =====
-- The whole run of the thread.
use gwn_framwork.Base.{
  ℕ, zero, suc, ◌+◌, ◌≤◌, ◌<◌, ◌≡◌, refl, subst, List, [], ◌∷◌, ◌++◌, append_assoc, arith,
}
use gwn_framwork.Fiber.{
  Code, ret, throw, idle, schedule_cb, run, yield_ready, yield_hold, schedule_fiber, Fiber,
}
use gwn_framwork.Fiber.States.{yields_ready, yields_hold, returns, throws, Leaving}
use gwn_framwork.Scheduler.{Task, Sched}
use gwn_framwork.Scheduler.Worker.{Worker, Kind}
use gwn_framwork.Scheduler.Drain.{
  Home, IsReady, IsRunning, Drains, Leaves, Leaves-step, Leaves-works, InOrder, done, next,
  children,
}
use gwn_framwork.Scheduler.Drain.Callbacks.{step_schedule, code_of, rest_of}
use gwn_framwork.Scheduler.Drain.Settles.{end-Drains}
use gwn_framwork.Scheduler.Drain.Picks.{step_start}
use gwn_framwork.Scheduler.Drain.Ending.{step_stop}

-- The calls of a callback and of all that it schedules.
size : Code → ℕ
size (schedule_cb c th k) = suc (size c + size k)
size (yield_ready k) = suc (size k)
size _ = 1

total : List Code → ℕ
unfolding size
total [] = 0
total (c ∷ cs) = size c + total cs

total-append : (xs ys : List Code) → total (xs ++ ys) ≡ total xs + total ys
unfolding total
total-append [] ys = omega arith
total-append (x ∷ xs) ys = omega (arith, total-append xs ys)

size_pos : (c : Code) → 0 < size c
unfolding size
size_pos (schedule_cb c th k) = omega arith
size_pos (yield_ready k) = omega arith
size_pos _ = omega arith

module _ (h : Home) where
  -- What a thread in a callback needs.
  abbrev RunsOut : ℕ → Type 0
  RunsOut m =
      (kind : Kind) (c : Code) (a : ℕ) (g : Fiber) (cs : List Code) (s : Sched) (w : Worker)
      → IsRunning h kind c a g cs s w
      → size c + total cs ≤ m
      → Drains h s w (cs ++ children c)

  ready-Drains :
      (m : ℕ) (s : Sched) (w : Worker) (cs : List Code) (q : List Task)
      → RunsOut m
      → IsReady h cs s w
      → s.queue ≡ q
      → total cs ≤ m
      → Drains h s w cs
  unfolding total
  ready-Drains m s w [] [] out r queue le =
      let (s', w', e, t, d) = step_stop h s w r queue in ([], done, (6, s', w', e, t, d))
  ready-Drains m s w (c ∷ cs) (ft ∷ fts) out r queue le =
      let (kind, a, g, s', w', e, t, queue', running') = step_start h ft fts c cs s w r queue in
      let (told, order, leaves) = out kind c a g cs s' w' running' le in
      (
        c ∷ told,
        next order,
        subst (λ xs. Leaves h s w (xs ++ told)) t (Leaves-works h 2 s s' w w' told e leaves),
      )
  ready-Drains m s w [] (ft ∷ fts) out r queue le = absurd (rw queue at r.queue)
  ready-Drains m s w (c ∷ cs) [] out r queue le = absurd (rw queue at r.queue)

  leaving-Drains :
      (l : Leaving) (m : ℕ) (kind : Kind) (a : ℕ) (g : Fiber) (cs : List Code) (s : Sched)
      (w : Worker)
      → RunsOut m
      → IsRunning h kind (code_of l) a g cs s w
      → total (cs ++ rest_of l) ≤ m
      → Drains h s w (cs ++ rest_of l)
  leaving-Drains l m kind a g cs s w out r le =
      end-Drains h kind l a g cs (cs ++ rest_of l) s w r
        λ s' w' r'. ready-Drains m s' w' (cs ++ rest_of l) s'.queue out r' refl le

  running-Drains : (m : ℕ) → RunsOut m
  unfolding size total children
  running-Drains zero kind c a g cs s w r le = absurd (omega (arith, size_pos c))
  running-Drains (suc m) kind ret a g cs s w r le =
      leaving-Drains returns m kind a g cs s w (running-Drains m) r
        (omega (arith, total-append cs []))
  running-Drains (suc m) kind throw a g cs s w r le =
      leaving-Drains throws m kind a g cs s w (running-Drains m) r
        (omega (arith, total-append cs []))
  running-Drains (suc m) kind (yield_hold k) a g cs s w r le =
      leaving-Drains (yields_hold k) m kind a g cs s w (running-Drains m) r
        (omega (arith, total-append cs []))
  running-Drains (suc m) kind (yield_ready k) a g cs s w r le =
      leaving-Drains (yields_ready k) m kind a g cs s w (running-Drains m) r
        (omega (arith, total-append cs (k ∷ [])))
  running-Drains (suc m) kind (schedule_cb c th k) a g cs s w r le =
      let (g', s', e, t, r') = step_schedule h kind c th k a g cs s w r in
      let (told, order, leaves) =
        running-Drains m kind k a g' (cs ++ c ∷ []) s' w r'
          (omega (arith, total-append cs (c ∷ []))) in
      (
        told,
        subst (λ q. InOrder q told) (append_assoc cs (c ∷ []) (children k)) order,
        subst (λ xs. Leaves h s w (xs ++ told)) t (Leaves-step h s s' w w told e leaves),
      )
  running-Drains (suc m) kind idle a g cs s w r le = absurd r.entered.goes_on
  running-Drains (suc m) kind run a g cs s w r le = absurd r.entered.goes_on
  running-Drains (suc m) kind (schedule_fiber b th k) a g cs s w r le = absurd r.entered.goes_on

  -- A thread at the beginning of a round, alone at a scheduler that was asked to stop and that has no
  -- task under way. Its queue has callbacks and waiting fibers for this thread or for any, no fiber
  -- twice, that return, throw, yield, and schedule callbacks like them. After finitely many of its
  -- steps, with no fault, it has left `run`, the queue is empty, no task is under way, and its
  -- scheduling fiber is as it was. What it has begun or resumed, each once for its place in the queue,
  -- is in the order of a queue, where what a callback schedules, and its own rest behind
  -- `YieldToReady`, stand behind the others. Its idle fiber has not ended, the fiber that it keeps for
  -- callbacks can be reset, and its scheduling fiber is neither.
  pub IsReady-Drains :
      (cs : List Code) (s : Sched) (w : Worker) → IsReady h cs s w → Drains h s w cs
  IsReady-Drains cs s w r =
      ready-Drains (total cs) s w cs s.queue (running-Drains (total cs)) r refl (omega arith)
