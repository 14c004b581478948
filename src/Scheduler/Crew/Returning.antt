-- ===== src/Scheduler/Crew/Returning.antt =====
-- A thread of a crew is back from a fiber: the counts.
use gwn_framwork.Base.{
  unsome, ℕ, ◌≡◌, ◌≢◌, refl, ◌∙◌, inl, inr, Bool, true, Option, none, some, ok, get_elem?,
  get_elem?-lt, get_elem?-set_self,
}
use gwn_framwork.Fiber.{
  hold, state_eq, fresh, suspended, ended, thread_stack, Context, Fiber, Result, write, set_state,
  dec64,
}
use gwn_framwork.Fiber.States.{Leaving, left}
use gwn_framwork.Scheduler.{Sched}
use gwn_framwork.Scheduler.Worker.{
  Worker, Kind, as_idle, as_cb, as_fiber, picking, settling, next_code, count_down, is_alive,
}
use gwn_framwork.Scheduler.Drain.{is_waiting}
use gwn_framwork.Scheduler.Drain.Callbacks.{code_of}
use gwn_framwork.Scheduler.Drain.Starts.{waiting-is_alive}
use gwn_framwork.Scheduler.Crew.{
  queued, of, Owners, IsPlain, IsQueue, HasRest, HasCb, AsKind, HasTask, at_pick, from_task,
}
use gwn_framwork.Scheduler.Crew.Frames.{write-Keeps, IsQueue-Keeps}
use gwn_framwork.Scheduler.Crew.Queues.{Stepped}
use gwn_framwork.Scheduler.Crew.Entering.{of_ne, HasCb-write}

next_code_hold :
    (f : Fiber) (ctx : Context) → next_code (record f { state = hold }) ctx ≡ next_code f ctx
unfolding next_code
next_code_hold f (fresh e) = refl
next_code_hold f (suspended e c) = refl
next_code_hold f ended = refl
next_code_hold f thread_stack = refl

module _ (own : Owners) (j : ℕ) (s : Sched) (w : Worker) (m : ℕ)
    (scheduler : w.tls.scheduler_fiber ≡ some m) (queue : IsQueue own s.fibers s.queue) where
  pub not_idle_cb : (o : Option ℕ) → HasCb own s.fibers j w.idle_fiber o → o ≢ some w.idle_fiber
  not_idle_cb none h e = cc
  not_idle_cb (some b) (g, o, t, ne, stack, over) e = ne (unsome e)

  -- The next round, when one of the thread's fibers has been written.
  pub written :
      (a : ℕ) (g : Fiber) (o : Option ℕ) (n idlers : ℕ)
      → own a ≡ some (of j)
      → HasRest own (write s.fibers a g) j w.idle_fiber
      → HasCb own (write s.fibers a g) j w.idle_fiber o
      → (r : Result (Sched × Worker))
      → r
        ≡ ok (
          record s { fibers = write s.fibers a g; active = n; idle_count = idlers },
          record w { cb_fiber = o; pc = picking },
        )
      → Stepped j own s r
  written a g o n idlers owned rest cb r e = (
    own,
    record s { fibers = write s.fibers a g; active = n; idle_count = idlers },
    record w { cb_fiber = o; pc = picking },
    e,
    IsQueue-Keeps own own s.fibers (write s.fibers a g) s.queue
        (write-Keeps own s.fibers queued a (of j) g owned (λ e. cc)) queue,
    record { home = m; scheduler = scheduler; place = at_pick refl rest cb },
    λ k ne. write-Keeps own s.fibers (of k) a (of j) g owned (of_ne ne),
  )

  pub idle_back_step :
      HasRest own s.fibers j w.idle_fiber
      → HasCb own s.fibers j w.idle_fiber w.cb_fiber
      → Stepped j own s (count_down as_idle w.idle_fiber s w)
  unfolding count_down set_state state_eq is_alive
  idle_back_step (f, owned, there, inl (waits, next)) cb =
      let i = w.idle_fiber in
      let f' = record f { state = hold } in
      written i f' w.cb_fiber s.active (dec64 s.idle_count) owned
        (
          f',
          owned,
          get_elem?-set_self s.fibers.heap i f' (get_elem?-lt s.fibers.heap i there),
          inl (unfold is_waiting in refl, next_code_hold f f.ctx ∙ next),
        )
        (HasCb-write own s.fibers j i i f' w.cb_fiber (not_idle_cb w.cb_fiber cb) cb)
        (count_down as_idle i s w) (idle_alive f there (waiting-is_alive f.state waits))
    where
      idle_alive :
          (f : Fiber)
          → get_elem? s.fibers.heap w.idle_fiber ≡ some f
          → is_alive f.state ≡ true
          → count_down as_idle w.idle_fiber s w
            ≡ ok (
              record s {
                fibers = write s.fibers w.idle_fiber (record f { state = hold });
                idle_count = dec64 s.idle_count;
              },
              record w { pc = picking },
            )
      idle_alive f there alive = rw (there, alive) refl
  idle_back_step (f, owned, there, inr over) cb = (
    own,
    record s { idle_count = dec64 s.idle_count },
    record w { pc = picking },
    rw (there, over) refl,
    queue,
    record { home = m; scheduler = scheduler; place = at_pick refl (f, owned, there, inr over) cb },
    λ k ne b g owned there. (owned, there),
  )

  module _ (kind : Kind) (a : ℕ) (f : Fiber) (l : Leaving)
      (rest : HasRest own s.fibers j w.idle_fiber)
      (task : HasTask own s.fibers j w kind a (left l f)) (plain : IsPlain (code_of l)) where
    count_lem :
        (kind : Kind) (o : Option ℕ) (stack : Bool)
        → AsKind own s.fibers j w.idle_fiber o kind a stack
        → count_down kind a s w
          ≡ ok (record s { active = dec64 s.active }, record w { pc = settling kind a })
    unfolding count_down
    count_lem as_cb o stack h = refl
    count_lem as_fiber o stack h = refl
    count_lem as_idle o stack h = absurd h

    pub task_back_step : Stepped j own s (count_down kind a s w)
    task_back_step = (
      own,
      record s { active = dec64 s.active },
      record w { pc = settling kind a },
      count_lem kind w.cb_fiber (left l f).stack task.3,
      queue,
      record {
        home = m;
        scheduler = scheduler;
        place = from_task kind a f l (inr refl) rest task plain;
      },
      λ k ne b g owned there. (owned, there),
    )
