-- ===== src/Scheduler/Drain/Settles.antt =====
-- What a thread does with the fiber of its task that has come back.
use gwn_framwork.Base.{
  unsome, append-nil, ℕ, ◌≡◌, ◌≢◌, refl, sym, ap, ◌∙◌, subst, true, false, List, [], ◌∷◌, ◌++◌,
  Option, none, some, ok, get_elem?-lt, get_elem?-set_self,
}
use gwn_framwork.Fiber.{
  init, ready, state_eq, is_over, Code, main_func, fresh, Fiber, Result, write, reset, set_state,
}
use gwn_framwork.Scheduler.{Sched, schedule}
use gwn_framwork.Scheduler.Worker.{
  Worker, Kind, as_cb, as_fiber, as_idle, picking, next_code, work, fiber_task, is_alive, settle,
}
use gwn_framwork.Fiber.States.{Leaving, yields_ready, yields_hold, returns, throws, left}
use gwn_framwork.Scheduler.Drain.{
  begins, Drains, Leaves, Leaves-step, Leaves-works, is_waiting, IsJob, is_fiber, IsFreeOf, Home,
  HasCbFiber, IsReady, IsRunning,
}
use gwn_framwork.Scheduler.Drain.Queues.{
  IsQueue-write, IsQueue-snoc, IsFreeOf-snoc, IsApart-write, HasCbFiber-write,
}
use gwn_framwork.Scheduler.Drain.Callbacks.{schedule-keeps, code_of, rest_of}
use gwn_framwork.Scheduler.Drain.Leaves.{IsLeft, step_leave}

-- Where the thread is behind the round.
abbrev Settles : Home → List Code → Sched → Worker → Result (Sched × Worker) → Type 0
Settles h cs s w r = (s' : Sched) × (w' : Worker) × (r ≡ ok (s', w')) × IsReady h cs s' w'

module _ (h : Home) (a : ℕ) (g : Fiber) (cs : List Code) (s : Sched) (w : Worker) where
  -- The fiber behind a write, with `o` as the fiber for callbacks.
  written-IsReady :
      (kind : Kind) (l : Leaving) (f : Fiber) (o : Option ℕ)
      → IsLeft h kind l a g cs s w
      → IsFreeOf o s.queue
      → HasCbFiber h.address (write s.fibers a f) w.idle_fiber o
      → IsReady h cs
          (record s { fibers = write s.fibers a f })
          (record w { cb_fiber = o; pc = picking })
  written-IsReady kind l f o e free_o has_cb = record {
    at = refl;
    active = e.active;
    auto = e.auto;
    asked = e.asked;
    queue = IsQueue-write w.thread_id s.fibers a f s.queue cs e.free e.queue;
    free_idle = e.free_idle;
    free_cb = free_o;
    scheduler = e.scheduler;
    main = e.main;
    apart = IsApart-write h s.fibers w.idle_fiber a f e.not_home e.other e.apart;
    has_cb = has_cb;
  }

  -- It is scheduled again.
  schedule-IsReady :
      (kind : Kind) (k : Code) (o : Option ℕ)
      → IsLeft h kind (yields_ready k) a g cs s w
      → IsFreeOf o s.queue
      → ((b : ℕ) → o ≡ some b → a ≢ b)
      → HasCbFiber h.address s.fibers w.idle_fiber o
      → IsReady h
          (cs ++ k ∷ [])
          (schedule (fiber_task a) s)
          (record w { cb_fiber = o; pc = picking })
  schedule-IsReady kind k o e free_o other has_cb =
      let ft = fiber_task a in
      let (q, ac, fi, au, st) = schedule-keeps ft s refl in
      let job : IsJob w.thread_id s.fibers ft k =
        is_fiber a (left (yields_ready k) g) refl tt e.there (unfold is_waiting in refl)
          (unfold next_code in refl) in
      let not_other = λ (b : ℕ) (x : o ≡ some b) (y : some a ≡ some b). other b x (unsome y) in
      record {
        at = refl;
        active = ac ∙ e.active;
        auto = au ∙ e.auto;
        asked = st ∙ e.asked;
        queue =
            rw (q, fi)
              (IsQueue-snoc w.thread_id s.fibers s.queue cs ft k e.queue e.free job e.goes_on);
        free_idle = rw (q) (
            IsFreeOf-snoc (some w.idle_fiber) s.queue ft e.free_idle
              (λ b x y. e.other (unsome (y ∙ sym x))));
        free_cb = rw (q) (IsFreeOf-snoc o s.queue ft free_o not_other);
        scheduler = e.scheduler;
        main = e.main;
        apart = rw (fi) e.apart;
        has_cb = rw (fi) has_cb;
      }

  settle_ready :
      (kind : Kind) (k : Code)
      → IsLeft h kind (yields_ready k) a g cs s w
      → Settles h (cs ++ k ∷ []) s w (settle kind a s w)
  unfolding settle state_eq
  settle_ready as_cb k e = (
    schedule (fiber_task a) s,
    record w { cb_fiber = none; pc = picking },
    rw (e.there) refl,
    schedule-IsReady as_cb k none e tt (λ b x. cc) tt,
  )
  settle_ready as_fiber k e = (
    schedule (fiber_task a) s,
    record w { pc = picking },
    rw (e.there) refl,
    schedule-IsReady as_fiber k w.cb_fiber e e.free_cb (λ b x y. e.runs_as.1 (x ∙ ap some (sym y)))
        e.runs_as.0,
  )
  settle_ready as_idle k e = absurd e.runs_as

  settle_hold :
      (kind : Kind) (k : Code)
      → IsLeft h kind (yields_hold k) a g cs s w
      → Settles h cs s w (settle kind a s w)
  unfolding settle state_eq is_alive set_state
  settle_hold as_cb k e =
      let f = left (yields_hold k) g in
      (
        record s { fibers = write s.fibers a f },
        record w { cb_fiber = none; pc = picking },
        rw (e.there) refl,
        written-IsReady as_cb (yields_hold k) f none e tt tt,
      )
  settle_hold as_fiber k e =
      let f = left (yields_hold k) g in
      (
        record s { fibers = write s.fibers a f },
        record w { pc = picking },
        rw (e.there) refl,
        written-IsReady as_fiber (yields_hold k) f w.cb_fiber e e.free_cb (
            HasCbFiber-write h.address s.fibers w.idle_fiber a f w.cb_fiber e.runs_as.1
              e.runs_as.0),
      )
  settle_hold as_idle k e = absurd e.runs_as

  -- It can be reset, for the next callback.
  blank-HasCbFiber :
      (l : Leaving) (f : Fiber)
      → IsLeft h as_cb l a g cs s w
      → f.stack ≡ true
      → is_over f.state ≡ true
      → HasCbFiber h.address (write s.fibers a f) w.idle_fiber w.cb_fiber
  blank-HasCbFiber l f e stack over =
      subst (HasCbFiber h.address (write s.fibers a f) w.idle_fiber) (sym e.runs_as.0) (
        f,
        e.other,
        e.not_home,
        get_elem?-set_self s.fibers.heap a f (get_elem?-lt s.fibers.heap a e.there),
        stack,
        over,
      )

  settle_cb :
      (l : Leaving)
      → IsLeft h as_cb l a g cs s w
      → (left l g).stack ≡ g.stack
      → state_eq (left l g).state ready ≡ false
      → is_alive (left l g).state ≡ false
      → is_over (left l g).state ≡ true
      → Settles h cs s w (settle as_cb a s w)
  unfolding settle reset
  settle_cb l e same not_ready not_alive over =
      let f = record (left l g) { cb = none; ctx = fresh main_func; state = init } in
      let stack = same ∙ e.runs_as.1 in
      (
        record s { fibers = write s.fibers a f },
        record w { pc = picking },
        rw (e.there, not_ready, not_alive, stack, over) refl,
        written-IsReady as_cb l f w.cb_fiber e e.free_cb
            (blank-HasCbFiber l f e stack (unfold is_over in refl)),
      )

  settle_fiber :
      (l : Leaving)
      → IsLeft h as_fiber l a g cs s w
      → state_eq (left l g).state ready ≡ false
      → is_alive (left l g).state ≡ false
      → Settles h cs s w (settle as_fiber a s w)
  unfolding settle
  settle_fiber l e not_ready not_alive = (
    s,
    record w { pc = picking },
    rw (e.there, not_ready, not_alive) refl,
    record {
      at = refl;
      active = e.active;
      auto = e.auto;
      asked = e.asked;
      queue = e.queue;
      free_idle = e.free_idle;
      free_cb = e.free_cb;
      scheduler = e.scheduler;
      main = e.main;
      apart = e.apart;
      has_cb = e.runs_as.0;
    },
  )

  settle_lem :
      (kind : Kind) (l : Leaving)
      → IsLeft h kind l a g cs s w
      → Settles h (cs ++ rest_of l) s w (settle kind a s w)
  unfolding state_eq is_alive is_over
  settle_lem kind (yields_ready k) e = settle_ready kind k e
  settle_lem kind (yields_hold k) e =
      subst (λ q. Settles h q s w (settle kind a s w)) (sym (append-nil cs)) (settle_hold kind k e)
  settle_lem as_cb returns e =
      subst (λ q. Settles h q s w (settle as_cb a s w)) (sym (append-nil cs))
        (settle_cb returns e refl refl refl refl)
  settle_lem as_cb throws e =
      subst (λ q. Settles h q s w (settle as_cb a s w)) (sym (append-nil cs))
        (settle_cb throws e refl refl refl refl)
  settle_lem as_fiber returns e =
      subst (λ q. Settles h q s w (settle as_fiber a s w)) (sym (append-nil cs))
        (settle_fiber returns e refl refl)
  settle_lem as_fiber throws e =
      subst (λ q. Settles h q s w (settle as_fiber a s w)) (sym (append-nil cs))
        (settle_fiber throws e refl refl)
  settle_lem as_idle l e = absurd e.runs_as

-- The end of a callback, or its yielding: the thread drains the queue if it does so from the next
-- round on.
pub end-Drains :
    (h : Home) (kind : Kind) (l : Leaving) (a : ℕ) (g : Fiber) (cs q : List Code) (s : Sched)
    (w : Worker)
    → IsRunning h kind (code_of l) a g cs s w
    → ((s' : Sched) (w' : Worker) → IsReady h (cs ++ rest_of l) s' w' → Drains h s' w' q)
    → Drains h s w q
unfolding begins work
end-Drains h kind l a g cs q s w r later =
    let (s₁, w₁, e, t, left₁) = step_leave h kind l a g cs s w r in
    let (s₂, w₂, e', ready₂) = settle_lem h a g cs s₁ w₁ kind l left₁ in
    let (told, order, leaves) = later s₂ w₂ ready₂ in
    let settles : work w₁.pc s₁ w₁ ≡ ok (s₂, w₂) = ap (λ pc. work pc s₁ w₁) left₁.at ∙ e' in
    let nothing : begins s₁.fibers w₁.pc ≡ [] = ap (begins s₁.fibers) left₁.at in
    let leaves₁ =
      subst (λ xs. Leaves h s₁ w₁ (xs ++ told)) nothing
        (Leaves-step h s₁ s₂ w₁ w₂ told settles leaves) in
    (
      told,
      order,
      subst (λ xs. Leaves h s w (xs ++ told)) t (Leaves-works h 2 s s₁ w w₁ told e leaves₁),
    )
