-- ===== src/Scheduler/Crew/Settling.antt =====
-- What a thread of a crew does with the fiber of its task that has come back.
use gwn_framwork.Base.{
  ℕ, ◌≡◌, ◌≢◌, refl, sym, ap, ◌∙◌, true, false, Option, none, some, ok, subst, get_elem?,
  get_elem?-lt, get_elem?-set_self,
}
use gwn_framwork.Fiber.{
  init, ready, state_eq, is_over, Code, main_func, fresh, Fiber, Result, write, set_state, reset,
}
use gwn_framwork.Fiber.States.{Leaving, yields_ready, yields_hold, returns, throws, left}
use gwn_framwork.Scheduler.{Sched, schedule}
use gwn_framwork.Scheduler.Worker.{
  Worker, Kind, as_idle, as_cb, as_fiber, picking, next_code, settle, fiber_task, is_alive,
}
use gwn_framwork.Scheduler.Drain.{is_waiting}
use gwn_framwork.Scheduler.Drain.Callbacks.{schedule-keeps, code_of}
use gwn_framwork.Scheduler.Crew.{
  queued, of, Owners, give, IsPlain, is_fiber, IsWork, IsQueue, HasRest, HasCb, HasTask, at_pick,
}
use gwn_framwork.Scheduler.Crew.Frames.{give_self, give_ne, give-Keeps}
use gwn_framwork.Scheduler.Crew.Queues.{Stepped, KeepsBut, IsQueue-but, IsQueue-snoc, owned-IsFree}
use gwn_framwork.Scheduler.Crew.Entering.{of_ne, HasRest-write, HasCb-write}
use gwn_framwork.Scheduler.Crew.Returning.{written}

module _ (own : Owners) (j : ℕ) (s : Sched) (w : Worker) (m : ℕ)
    (scheduler : w.tls.scheduler_fiber ≡ some m) (queue : IsQueue own s.fibers s.queue) where
  -- The fiber is scheduled again, and belongs to the queue.
  scheduled :
      (a : ℕ) (f : Fiber) (k : Code) (o : Option ℕ)
      → own a ≡ some (of j)
      → get_elem? s.fibers.heap a ≡ some (left (yields_ready k) f)
      → IsPlain k
      → HasRest own s.fibers j w.idle_fiber
      → a ≢ w.idle_fiber
      → HasCb own s.fibers j w.idle_fiber o
      → o ≢ some a
      → (r : Result (Sched × Worker))
      → r ≡ ok (schedule (fiber_task a) s, record w { cb_fiber = o; pc = picking })
      → Stepped j own s r
  scheduled a f k o owned there plain (g, owned_i, there_i, rests) ne cb not_cb r e =
      let ft = fiber_task a in
      let own' = give a queued own in
      let fs = s.fibers in
      let (q, ac, fi, au, st) = schedule-keeps ft s refl in
      let free = owned-IsFree own fs a j s.queue owned queue in
      let but : KeepsBut a own fs own' fs =
        λ b h ne owned' there'. (give_ne a b queued own ne ∙ owned', there') in
      let others = IsQueue-but own own' fs fs a but s.queue free queue in
      let again : IsWork own' fs queued ft =
        is_fiber a (left (yields_ready k) f) k refl (give_self a queued own) there
          (unfold is_waiting in refl) (unfold next_code in refl) plain in
      (
        own',
        schedule ft s,
        record w { cb_fiber = o; pc = picking },
        e,
        rw (q, fi) (IsQueue-snoc own' fs s.queue ft others free again),
        record {
          home = m;
          scheduler = scheduler;
          place = rw (fi) (
              at_pick refl
                (g, give_ne a w.idle_fiber queued own (λ x. ne (sym x)) ∙ owned_i, there_i, rests)
                (cb_give o not_cb cb));
        },
        λ k' ne'. rw (fi) (give-Keeps own fs (of k') a (of j) queued owned (of_ne ne')),
      )
    where
      cb_give :
          (o : Option ℕ)
          → o ≢ some a
          → HasCb own s.fibers j w.idle_fiber o
          → HasCb (give a queued own) s.fibers j w.idle_fiber o
      cb_give none ne h = tt
      cb_give (some b) ne (g, owned, there, not_i, stack, over) =
          (g, give_ne a b queued own (λ x. ne (ap some x)) ∙ owned, there, not_i, stack, over)

  settle_ready :
      (kind : Kind) (a : ℕ) (f : Fiber) (k : Code)
      → HasRest own s.fibers j w.idle_fiber
      → HasTask own s.fibers j w kind a (left (yields_ready k) f)
      → IsPlain k
      → Stepped j own s (settle kind a s w)
  unfolding settle state_eq
  settle_ready as_cb a f k rest (owned, there, ne, its) plain =
      scheduled a f k none owned there plain rest ne tt (λ e. cc) (settle as_cb a s w)
        (rw (there) refl)
  settle_ready as_fiber a f k rest (owned, there, ne, (cb, not_cb)) plain =
      scheduled a f k w.cb_fiber owned there plain rest ne cb not_cb (settle as_fiber a s w)
        (rw (there) refl)
  settle_ready as_idle a f k rest (owned, there, ne, its) plain = absurd its

  settle_hold :
      (kind : Kind) (a : ℕ) (f : Fiber) (k : Code)
      → HasRest own s.fibers j w.idle_fiber
      → HasTask own s.fibers j w kind a (left (yields_hold k) f)
      → Stepped j own s (settle kind a s w)
  unfolding settle state_eq is_alive set_state
  settle_hold as_cb a f k rest (owned, there, ne, its) =
      let g = left (yields_hold k) f in
      written own j s w m scheduler queue a g none s.active s.idle_count owned
        (HasRest-write own s.fibers j w.idle_fiber a g ne rest) tt (settle as_cb a s w)
        (rw (there) refl)
  settle_hold as_fiber a f k rest (owned, there, ne, (cb, not_cb)) =
      let g = left (yields_hold k) f in
      written own j s w m scheduler queue a g w.cb_fiber s.active s.idle_count owned
        (HasRest-write own s.fibers j w.idle_fiber a g ne rest)
        (HasCb-write own s.fibers j w.idle_fiber a g w.cb_fiber not_cb cb) (settle as_fiber a s w)
        (rw (there) refl)
  settle_hold as_idle a f k rest (owned, there, ne, its) = absurd its

  settle_over :
      (kind : Kind) (a : ℕ) (f : Fiber)
      → HasRest own s.fibers j w.idle_fiber
      → HasTask own s.fibers j w kind a f
      → state_eq f.state ready ≡ false
      → is_alive f.state ≡ false
      → is_over f.state ≡ true
      → Stepped j own s (settle kind a s w)
  unfolding settle reset
  settle_over as_cb a f rest (owned, there, ne, (its, stack)) not_ready not_alive over =
      let g = record f { cb = none; ctx = fresh main_func; state = init } in
      let at_a = get_elem?-set_self s.fibers.heap a g (get_elem?-lt s.fibers.heap a there) in
      written own j s w m scheduler queue a g w.cb_fiber s.active s.idle_count owned
        (HasRest-write own s.fibers j w.idle_fiber a g ne rest)
        (subst (HasCb own (write s.fibers a g) j w.idle_fiber) (sym its)
          (g, owned, at_a, ne, stack, unfold is_over state_eq in refl))
        (settle as_cb a s w) (rw (there, not_ready, not_alive, stack, over) refl)
  settle_over as_fiber a f rest (owned, there, ne, (cb, not_cb)) not_ready not_alive over = (
    own,
    s,
    record w { pc = picking },
    rw (there, not_ready, not_alive) refl,
    queue,
    record { home = m; scheduler = scheduler; place = at_pick refl rest cb },
    λ k ne b g owned there. (owned, there),
  )
  settle_over as_idle a f rest (owned, there, ne, its) not_ready not_alive over = absurd its

  -- What the thread does with the fiber of its task.
  pub settle_step :
      (kind : Kind) (a : ℕ) (f : Fiber) (l : Leaving)
      → HasRest own s.fibers j w.idle_fiber
      → HasTask own s.fibers j w kind a (left l f)
      → IsPlain (code_of l)
      → Stepped j own s (settle kind a s w)
  unfolding state_eq is_alive is_over
  settle_step kind a f (yields_ready k) rest task plain = settle_ready kind a f k rest task plain
  settle_step kind a f (yields_hold k) rest task plain = settle_hold kind a f k rest task
  settle_step kind a f returns rest task plain =
      settle_over kind a (left returns f) rest task refl refl refl
  settle_step kind a f throws rest task plain =
      settle_over kind a (left throws f) rest task refl refl refl
