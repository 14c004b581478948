-- ===== src/Scheduler/Crew/Running.antt =====
-- A thread of a crew in a fiber: the calls of a callback, and the idle fiber.
use gwn_framwork.Base.{
  ℕ, ◌≡◌, ◌≢◌, refl, inl, inr, Bool-cases, [], ◌∷◌, ◌++◌, Option, none, some, ok, get_elem?,
  get_elem?-lt, get_elem?-set_self, ◌>>=◌,
}
use gwn_framwork.Fiber.{
  exec, Code, ret, throw, idle, run, yield_ready, yield_hold, schedule_cb, schedule_fiber,
  main_func, suspended, Fiber, Fibers, write, set_this,
}
use gwn_framwork.Fiber.States.{Leaving, yields_ready, yields_hold, returns, throws, leave_by, left}
use gwn_framwork.Scheduler.{Task, Sched, schedule, stopping}
use gwn_framwork.Scheduler.Worker.{
  Worker, Kind, as_idle, running, returned, next_code, run_fiber, act, come_back,
}
use gwn_framwork.Scheduler.Drain.{is_waiting}
use gwn_framwork.Scheduler.Drain.Callbacks.{schedule-keeps, code_of, leave_lem, act_leave}
use gwn_framwork.Scheduler.Crew.{
  queued, of, Owners, IsPlain, is_callback, IsQueue, HasRest, HasCb, AsKind, HasTask, IsRest,
  from_idle, from_task, in_task,
}
use gwn_framwork.Scheduler.Crew.Frames.{Keeps, write-Keeps, IsQueue-Keeps}
use gwn_framwork.Scheduler.Crew.Queues.{Stepped, IsQueue-snoc}
use gwn_framwork.Scheduler.Crew.Entering.{of_ne, HasRest-write, HasCb-write, AsKind-write}

module _ (own : Owners) (j : ℕ) (s : Sched) (w : Worker) (m : ℕ)
    (scheduler : w.tls.scheduler_fiber ≡ some m) (queue : IsQueue own s.fibers s.queue) where
  module _ (kind : Kind) (a : ℕ) (f : Fiber) (owned : own a ≡ some (of j))
      (there : get_elem? s.fibers.heap a ≡ some f) (executing : f.state ≡ exec)
      (this : w.tls.fiber ≡ some a) where
    -- The switch back.
    left_fibers : Leaving → Fibers
    left_fibers l = write s.fibers a (left l f)

    back_in : Worker
    back_in = record w { tls = set_this w.tls.thread_fiber w.tls; pc = returned kind a }

    leaves :
        (l : Leaving)
        → next_code f f.ctx ≡ ok (main_func, code_of l)
        → run_fiber kind a s w ≡ ok (record s { fibers = left_fibers l }, back_in)
    unfolding run_fiber come_back left_fibers back_in
    leaves l next =
        rw
          (
            there,
            next,
            act_leave l kind a s w,
            leave_lem l a m f s.fibers w.tls there executing this scheduler,
          )
          refl

    left_there : (l : Leaving) → get_elem? (left_fibers l).heap a ≡ some (left l f)
    unfolding left_fibers
    left_there l =
        get_elem?-set_self s.fibers.heap a (left l f) (get_elem?-lt s.fibers.heap a there)

    left_queue : (l : Leaving) → IsQueue own (left_fibers l) s.queue
    unfolding left_fibers
    left_queue l =
        IsQueue-Keeps own own s.fibers (left_fibers l) s.queue
          (write-Keeps own s.fibers queued a (of j) (left l f) owned (λ e. cc)) queue

    left-Keeps : (l : Leaving) (k : ℕ) → k ≢ j → Keeps (of k) own s.fibers own (left_fibers l)
    unfolding left_fibers
    left-Keeps l k ne = write-Keeps own s.fibers (of k) a (of j) (left l f) owned (of_ne ne)

    task_leaves :
        (l : Leaving)
        → next_code f f.ctx ≡ ok (main_func, code_of l)
        → HasRest own s.fibers j w.idle_fiber
        → HasTask own s.fibers j w kind a f
        → IsPlain (code_of l)
        → Stepped j own s (run_fiber kind a s w)
    unfolding left_fibers back_in
    task_leaves l next rest (owned', there', ne, its) plain = (
      own,
      record s { fibers = left_fibers l },
      back_in,
      leaves l next,
      left_queue l,
      record {
        home = m;
        scheduler = scheduler;
        place =
            from_task kind a f l (inl refl)
              (HasRest-write own s.fibers j w.idle_fiber a (left l f) ne rest)
              (
                owned,
                left_there l,
                ne,
                AsKind-write own s.fibers j w.idle_fiber a (left l f) w.cb_fiber kind
                    (left l f).stack (left_kind l its),
              )
              plain;
      },
      left-Keeps l,
    )
      where
        left_kind :
            (l : Leaving)
            → AsKind own s.fibers j w.idle_fiber w.cb_fiber kind a f.stack
            → AsKind own s.fibers j w.idle_fiber w.cb_fiber kind a (left l f).stack
        left_kind (yields_ready k) h = h
        left_kind (yields_hold k) h = h
        left_kind returns h = h
        left_kind throws h = h

    task_schedules :
        (d : Code) (th : Option ℕ) (k : Code)
        → next_code f f.ctx ≡ ok (main_func, schedule_cb d th k)
        → w.pc ≡ running kind a
        → HasRest own s.fibers j w.idle_fiber
        → HasTask own s.fibers j w kind a f
        → IsPlain d × IsPlain k
        → Stepped j own s (run_fiber kind a s w)
    unfolding run_fiber
    task_schedules d th k next at rest (owned', there', ne, its) (plain_d, plain_k) =
        let ft : Task = record { fiber = none; cb = some d; thread = th } in
        let f' = record f { ctx = suspended main_func k } in
        let later = schedule ft s in
        let (q, ac, fi, au, st) = schedule-keeps ft s refl in
        let later_there : get_elem? later.fibers.heap a ≡ some f = rw (fi) there in
        let fs' = write s.fibers a f' in
        let more =
          IsQueue-snoc own s.fibers s.queue ft queue tt (is_callback d refl refl plain_d) in
        (
          own,
          record later { fibers = write later.fibers a f' },
          w,
          rw (there, next, later_there) refl,
          rw (q, fi)
              (IsQueue-Keeps own own s.fibers fs' (s.queue ++ ft ∷ [])
                (write-Keeps own s.fibers queued a (of j) f' owned (λ e. cc)) more),
          record {
            home = m;
            scheduler = scheduler;
            place = rw (fi) (
                in_task kind a f' k at (HasRest-write own s.fibers j w.idle_fiber a f' ne rest)
                  (
                    owned,
                    get_elem?-set_self s.fibers.heap a f' (get_elem?-lt s.fibers.heap a there),
                    ne,
                    AsKind-write own s.fibers j w.idle_fiber a f' w.cb_fiber kind f.stack its,
                  )
                  executing (unfold next_code in refl) plain_k this);
          },
          λ k' ne'. rw (fi) (write-Keeps own s.fibers (of k') a (of j) f' owned (of_ne ne')),
        )

    -- A call of a callback.
    pub run_step :
        (c : Code)
        → next_code f f.ctx ≡ ok (main_func, c)
        → w.pc ≡ running kind a
        → HasRest own s.fibers j w.idle_fiber
        → HasTask own s.fibers j w kind a f
        → IsPlain c
        → Stepped j own s (run_fiber kind a s w)
    run_step ret next at rest task plain = task_leaves returns next rest task tt
    run_step throw next at rest task plain = task_leaves throws next rest task tt
    run_step (yield_ready k) next at rest task plain =
        task_leaves (yields_ready k) next rest task plain
    run_step (yield_hold k) next at rest task plain =
        task_leaves (yields_hold k) next rest task plain
    run_step (schedule_cb d th k) next at rest task plain =
        task_schedules d th k next at rest task plain
    run_step idle next at rest task plain = absurd plain
    run_step run next at rest task plain = absurd plain
    run_step (schedule_fiber b th k) next at rest task plain = absurd plain

  module _ (f : Fiber) (owned : own w.idle_fiber ≡ some (of j))
      (there : get_elem? s.fibers.heap w.idle_fiber ≡ some f) (executing : f.state ≡ exec)
      (this : w.tls.fiber ≡ some w.idle_fiber) (cb : HasCb own s.fibers j w.idle_fiber w.cb_fiber)
      (not_cb : w.cb_fiber ≢ some w.idle_fiber)
      (next : next_code f f.ctx ≡ ok (main_func, idle)) where
    idle_leaves :
        (l : Leaving)
        → IsRest (left l f)
        → run_fiber as_idle w.idle_fiber s w
          ≡ ok (
            record s { fibers = left_fibers as_idle w.idle_fiber f owned there executing this l },
            back_in as_idle w.idle_fiber f owned there executing this,
          )
        → Stepped j own s (run_fiber as_idle w.idle_fiber s w)
    unfolding left_fibers back_in
    idle_leaves l rest e =
        let i = w.idle_fiber in
        (
          own,
          record s { fibers = write s.fibers i (left l f) },
          record w { tls = set_this w.tls.thread_fiber w.tls; pc = returned as_idle i },
          e,
          left_queue as_idle i f owned there executing this l,
          record {
            home = m;
            scheduler = scheduler;
            place =
                from_idle refl
                  (left l f, owned, left_there as_idle i f owned there executing this l, rest)
                  (HasCb-write own s.fibers j i i (left l f) w.cb_fiber not_cb cb);
          },
          left-Keeps as_idle i f owned there executing this l,
        )

    idle_act :
        (l : Leaving)
        → act as_idle w.idle_fiber main_func idle s w
          ≡ (leave_by l s.fibers w.tls >>= λ r. ok (come_back as_idle w.idle_fiber s w r))
        → run_fiber as_idle w.idle_fiber s w
          ≡ ok (
            record s { fibers = left_fibers as_idle w.idle_fiber f owned there executing this l },
            back_in as_idle w.idle_fiber f owned there executing this,
          )
    unfolding run_fiber come_back left_fibers back_in
    idle_act l e =
        rw
          (
            there,
            next,
            e,
            leave_lem l w.idle_fiber m f s.fibers w.tls there executing this scheduler,
          )
          refl

    -- The idle fiber asks whether to stop, and ends or yields.
    pub idle_run_step : Stepped j own s (run_fiber as_idle w.idle_fiber s w)
    idle_run_step = elim (Bool-cases (stopping s)) [
      | inl stops ↦
          idle_leaves returns (inr refl) (idle_act returns (unfold act leave_by in rw (stops) refl))
      | inr goes_on ↦
          idle_leaves (yields_hold idle) (inl (unfold is_waiting in refl, unfold next_code in refl))
            (idle_act (yields_hold idle) (unfold act leave_by in rw (goes_on) refl))
    ]
