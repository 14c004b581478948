-- ===== src/Scheduler/Crew/Entering.antt =====
-- A thread of a crew switches into a fiber: the one of its task, or its idle fiber.
use gwn_framwork.Base.{
  ℕ, ◌≡◌, ◌≢◌, refl, sym, ap, ◌∙◌, Bool, true, false, Option, none, some, ok, get_elem?,
  get_elem?-lt, get_elem?-set_self, get_elem?-set_ne,
}
use gwn_framwork.Fiber.{exec, state_eq, Code, main_func, Fiber, Fibers, Result, write, set_this}
use gwn_framwork.Fiber.States.{swap_in_lem}
use gwn_framwork.Scheduler.{Sched}
use gwn_framwork.Scheduler.Worker.{
  Worker, Kind, as_fiber, as_cb, as_idle, running, next_code, switch_to,
}
use gwn_framwork.Scheduler.Drain.{is_waiting}
use gwn_framwork.Scheduler.Drain.Starts.{waiting-not_exec, next_code_exec}
use gwn_framwork.Scheduler.Crew.{
  queued, of, Owners, IsPlain, IsQueue, HasRest, HasCb, AsKind, HasTask, in_task,
}
use gwn_framwork.Scheduler.Crew.Frames.{Keeps, write-Keeps, IsQueue-Keeps}
use gwn_framwork.Scheduler.Crew.Queues.{Stepped}

-- The fibers of a thread but the one that it writes.
module _ (own : Owners) (fs : Fibers) (j i a : ℕ) (g : Fiber) where
  pub HasRest-write : a ≢ i → HasRest own fs j i → HasRest own (write fs a g) j i
  HasRest-write ne (f, owned, there, rest) =
      (f, owned, get_elem?-set_ne fs.heap a i g ne ∙ there, rest)

  pub HasCb-write :
      (o : Option ℕ) → o ≢ some a → HasCb own fs j i o → HasCb own (write fs a g) j i o
  HasCb-write none ne h = tt
  HasCb-write (some b) ne (f, owned, there, not_i, stack, over) =
      let other : a ≢ b = λ e. ne (ap some (sym e)) in
      (f, owned, get_elem?-set_ne fs.heap a b g other ∙ there, not_i, stack, over)

  pub AsKind-write :
      (o : Option ℕ) (kind : Kind) (stack : Bool)
      → AsKind own fs j i o kind a stack
      → AsKind own (write fs a g) j i o kind a stack
  AsKind-write o as_cb stack h = h
  AsKind-write o as_fiber stack (cb, ne) = (HasCb-write o ne cb, ne)
  AsKind-write o as_idle stack h = h

pub of_ne : {j k : ℕ} → k ≢ j → of j ≢ of k
of_ne {j} {k} ne e = ne (sym (of_inj e))
  where
    of_inj : of j ≡ of k → j ≡ k
    of_inj e = cc

-- A step behind others that the other threads do not notice.
pub Stepped-behind :
    (j : ℕ) (own own₁ : Owners) (s s₁ : Sched) (r r₁ : Result (Sched × Worker))
    → r ≡ r₁
    → ((k : ℕ) → k ≢ j → Keeps (of k) own s.fibers own₁ s₁.fibers)
    → Stepped j own₁ s₁ r₁
    → Stepped j own s r
Stepped-behind j own own₁ s s₁ r r₁ e keeps (own', s', w', e', queue, member, keeps') = (
  own',
  s',
  w',
  e ∙ e',
  queue,
  member,
  λ k ne b g owned there.
      let (owned₁, there₁) = keeps k ne b g owned there in keeps' k ne b g owned₁ there₁,
)

module _ (own : Owners) (j : ℕ) (s : Sched) (w : Worker) (m : ℕ)
    (scheduler : w.tls.scheduler_fiber ≡ some m) (queue : IsQueue own s.fibers s.queue) where
  pub switch_lem :
      (kind : Kind) (a : ℕ) (f : Fiber)
      → get_elem? s.fibers.heap a ≡ some f
      → state_eq f.state exec ≡ false
      → switch_to kind a s w
        ≡ ok (
          record s { fibers = write s.fibers a (record f { state = exec }) },
          record w { tls = set_this (some a) w.tls; pc = running kind a },
        )
  unfolding switch_to
  switch_lem kind a f there not_exec =
      rw (swap_in_lem a f s.fibers w.tls m there scheduler not_exec) refl

  pub task_step :
      (kind : Kind) (a : ℕ) (f : Fiber) (c : Code)
      → HasRest own s.fibers j w.idle_fiber
      → HasTask own s.fibers j w kind a f
      → is_waiting f.state ≡ true
      → next_code f f.ctx ≡ ok (main_func, c)
      → IsPlain c
      → Stepped j own s (switch_to kind a s w)
  task_step kind a f c rest (owned, there, ne, its) waits next plain =
      let f' = record f { state = exec } in
      let fs' = write s.fibers a f' in
      (
        own,
        record s { fibers = fs' },
        record w { tls = set_this (some a) w.tls; pc = running kind a },
        switch_lem kind a f there (waiting-not_exec f.state waits),
        IsQueue-Keeps own own s.fibers fs' s.queue
            (write-Keeps own s.fibers queued a (of j) f' owned (λ e. cc)) queue,
        record {
          home = m;
          scheduler = scheduler;
          place =
              in_task kind a f' c refl (HasRest-write own s.fibers j w.idle_fiber a f' ne rest)
                (
                  owned,
                  get_elem?-set_self s.fibers.heap a f' (get_elem?-lt s.fibers.heap a there),
                  ne,
                  AsKind-write own s.fibers j w.idle_fiber a f' w.cb_fiber kind f.stack its,
                )
                refl (next_code_exec f f.ctx ∙ next) plain refl;
        },
        λ k ne'. write-Keeps own s.fibers (of k) a (of j) f' owned (of_ne ne'),
      )
