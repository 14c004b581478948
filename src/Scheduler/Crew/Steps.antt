-- ===== src/Scheduler/Crew/Steps.antt =====
-- Any step of a thread of a crew, and a thread that comes in.
use gwn_framwork.Base.{
  ◌%◌, ◌^◌, ℕ, ◌≡◌, ◌≢◌, refl, sym, ap, ◌∙◌, inl, inr, ◌⊎◌, Bool-cases, true, false, Option, none,
  some, subst, length, get_elem?-append_self, get_elem?-append_left, ◌==◌, ==_iff,
}
use gwn_framwork.Fiber.{
  init, idle, main_func, fresh, Fiber, Fibers, Tls, get_this, new_main, new_fiber, inc64,
}
use gwn_framwork.Scheduler.{Sched}
use gwn_framwork.Scheduler.Worker.{Worker, picking, next_code, work, enter_run}
use gwn_framwork.Scheduler.Drain.{is_waiting}
use gwn_framwork.Scheduler.Crew.{
  Owner, queued, of, Owners, give, IsQueue, at_pick, at_hold, in_idle, in_task, from_idle,
  from_task, at_end, Place, IsMember,
}
use gwn_framwork.Scheduler.Crew.Frames.{Keeps, give_self, append-Keeps, Keeps-trans, IsQueue-Keeps}
use gwn_framwork.Scheduler.Crew.Queues.{Stepped}
use gwn_framwork.Scheduler.Crew.Picking.{pick_step}
use gwn_framwork.Scheduler.Crew.Starting.{dispatch_step}
use gwn_framwork.Scheduler.Crew.Running.{run_step, idle_run_step}
use gwn_framwork.Scheduler.Crew.Returning.{idle_back_step, task_back_step, not_idle_cb}
use gwn_framwork.Scheduler.Crew.Settling.{settle_step}

module _ (own : Owners) (j : ℕ) (s : Sched) (w : Worker) (m : ℕ)
    (scheduler : w.tls.scheduler_fiber ≡ some m) (queue : IsQueue own s.fibers s.queue) where
  place_step : Place own s.fibers j w → Stepped j own s (work w.pc s w)
  unfolding work
  place_step (at_pick at rest cb) =
      subst (λ pc. Stepped j own s (work pc s w)) (sym at)
        (pick_step own j s w m scheduler rest cb queue)
  place_step (at_hold ft at rest cb held) =
      subst (λ pc. Stepped j own s (work pc s w)) (sym at)
        (dispatch_step own j s w m scheduler queue cb ft rest held)
  place_step (in_idle f at owned there executing next this cb) =
      subst (λ pc. Stepped j own s (work pc s w)) (sym at)
        (idle_run_step own j s w m scheduler queue f owned there executing this cb
          (not_idle_cb own j s w m scheduler queue w.cb_fiber cb) next)
  place_step (in_task kind a f c at rest task executing next plain this) =
      subst (λ pc. Stepped j own s (work pc s w)) (sym at)
        (run_step own j s w m scheduler queue kind a f task.0 task.1 executing this c next at rest
          task plain)
  place_step (from_idle at rest cb) =
      subst (λ pc. Stepped j own s (work pc s w)) (sym at)
        (idle_back_step own j s w m scheduler queue rest cb)
  place_step (from_task kind a g l (inl at) rest task plain) =
      subst (λ pc. Stepped j own s (work pc s w)) (sym at)
        (task_back_step own j s w m scheduler queue kind a g l rest task plain)
  place_step (from_task kind a g l (inr at) rest task plain) =
      subst (λ pc. Stepped j own s (work pc s w)) (sym at)
        (settle_step own j s w m scheduler queue kind a g l rest task plain)
  place_step (at_end at) =
      subst (λ pc. Stepped j own s (work pc s w)) (sym at)
        (
          own,
          s,
          w,
          refl,
          queue,
          record { home = m; scheduler = scheduler; place = at_end at },
          λ k ne b g owned there. (owned, there),
        )

-- Every step of a thread.
pub member_step :
    (own : Owners) (j : ℕ) (s : Sched) (w : Worker)
    → IsQueue own s.fibers s.queue
    → IsMember own s.fibers j w
    → Stepped j own s (work w.pc s w)
member_step own j s w queue p = place_step own j s w p.home p.scheduler queue p.place

-- A thread has a scheduling fiber when it comes in, or makes one of its main fiber.
abbrev pub HasHome : ℕ → Sched → Tls → Type 0
HasHome me s t = (s.root_thread ≢ some me) ⊎ ((m : ℕ) × (t.scheduler_fiber ≡ some m))

-- The thread as it comes in, with the fibers before its idle fiber is made.
abbrev ComesIn : ℕ → Sched → Tls → Type 0
ComesIn me s t =
    (fs : Fibers) × (t' : Tls) × (m : ℕ) × ((o : Owner) (own : Owners)
      → Keeps o own s.fibers own fs)
    × (enter_run me s t ≡ (
      record s { fibers = (new_fiber idle 0 false fs).1 },
      record {
        thread_id = me;
        tls = t';
        idle_fiber = length fs.heap;
        cb_fiber = none;
        pc = picking;
      },
    ))
    × (t'.scheduler_fiber ≡ some m)

module _ (me : ℕ) (s : Sched) (t : Tls) where
  abbrev main_address : ℕ
  main_address = length s.fibers.heap

  abbrev with_main : Fibers
  with_main = (new_main s.fibers t).1

  abbrev main_tls : Tls
  main_tls = record t {
    fiber = some main_address;
    thread_fiber = some main_address;
    scheduler_fiber = some main_address;
  }

  main-Keeps : (o : Owner) (own : Owners) → Keeps o own s.fibers own with_main
  unfolding new_main
  main-Keeps o own b g owned there = (owned, get_elem?-append_left s.fibers.heap _ b there)

  stays : (o : Owner) (own : Owners) → Keeps o own s.fibers own s.fibers
  stays o own b g owned there = (owned, there)

  other-ComesIn :
      (o : Option ℕ)
      → t.fiber ≡ o
      → (s.root_thread ≡ none) ⊎ ((r : ℕ) × (s.root_thread ≡ some r) × ((r == me) ≡ false))
      → ComesIn me s t
  unfolding enter_run get_this new_main
  other-ComesIn none e (inl no_root) =
      (with_main, main_tls, main_address, main-Keeps, rw (no_root, e) refl, refl)
  other-ComesIn none e (inr (r, root, other)) =
      (with_main, main_tls, main_address, main-Keeps, rw (root, other, e) refl, refl)
  other-ComesIn (some a) e (inl no_root) =
      (s.fibers, record t { scheduler_fiber = some a }, a, stays, rw (no_root, e) refl, refl)
  other-ComesIn (some a) e (inr (r, root, other)) =
      (s.fibers, record t { scheduler_fiber = some a }, a, stays, rw (root, other, e) refl, refl)

  root-ComesIn :
      (r m : ℕ)
      → s.root_thread ≡ some r
      → (r == me) ≡ true
      → t.scheduler_fiber ≡ some m
      → ComesIn me s t
  unfolding enter_run
  root-ComesIn r m root same home = (s.fibers, t, m, stays, rw (root, same) refl, home)

  some-ComesIn : (o : Option ℕ) → s.root_thread ≡ o → HasHome me s t → ComesIn me s t
  some-ComesIn none e home = other-ComesIn t.fiber refl (inl e)
  some-ComesIn (some r) e home = elim (Bool-cases (r == me)) [
    | inl same ↦ elim home [
      | inl other ↦ absurd (other (e ∙ ap some ((==_iff r me).0 same)))
      | inr (m, has) ↦ root-ComesIn r m e same has
    ]
    | inr differs ↦ other-ComesIn t.fiber refl (inr (r, e, differs))
  ]

  abbrev idle_of : Fibers → Fiber
  idle_of fs = record {
    id = inc64 fs.last_id;
    stacksize = fs.stack_size % 2 ^ 32;
    state = init;
    ctx = fresh main_func;
    stack = true;
    cb = some idle;
  }

  -- A thread that comes in as the `j`-th.
  pub enter_step :
      (own : Owners) (j : ℕ)
      → IsQueue own s.fibers s.queue
      → HasHome me s t
      → (own' : Owners) × IsQueue own' (enter_run me s t).0.fibers (enter_run me s t).0.queue
        × IsMember own' (enter_run me s t).0.fibers j (enter_run me s t).1
        × ((k : ℕ) → k ≢ j → Keeps (of k) own s.fibers own' (enter_run me s t).0.fibers)
  unfolding new_fiber
  enter_step own j queue home =
      let (fs, t', m, keeps, e, scheduler) = some-ComesIn s.root_thread refl home in
      let fs' = (new_fiber idle 0 false fs).1 in
      let own' = give (length fs.heap) (of j) own in
      let keeps' = λ (o : Owner).
        Keeps-trans o own own own' s.fibers fs fs' (keeps o own)
          (append-Keeps own fs o fs' (idle_of fs) (of j) refl) in
      (
        own',
        rw (e) (IsQueue-Keeps own own' s.fibers fs' s.queue (keeps' queued) queue),
        rw (e) (record {
          home = m;
          scheduler = scheduler;
          place =
              at_pick refl
                (
                  idle_of fs,
                  give_self (length fs.heap) (of j) own,
                  get_elem?-append_self fs.heap (idle_of fs),
                  inl (unfold is_waiting in refl, unfold next_code in refl),
                )
                tt;
        }),
        λ k ne. rw (e) (keeps' (of k)),
      )
