-- ===== src/Scheduler/Drain/Callbacks.antt =====
-- The calls of a callback on a thread that drains the queue, up to the switch back.
use gwn_framwork.Base.{
  ℕ, is_empty, ◌≡◌, refl, ◌∙◌, true, List, [], ◌∷◌, ◌++◌, Option, none, some, ok, ◌>>=◌, get_elem?,
  get_elem?-lt, get_elem?-set_self, set-set,
}
use gwn_framwork.Fiber.{
  hold, exec, term, ready, except, state_eq, Code, ret, throw, schedule_cb, yield_ready, yield_hold,
  main_func, suspended, Fiber, Fibers, Tls, write, set_this,
}
use gwn_framwork.Scheduler.{Task, Sched, schedule, has_work}
use gwn_framwork.Scheduler.Worker.{Worker, Kind, next_code, work, run_fiber, act, come_back}
use gwn_framwork.Fiber.States.{Leaving, yields_ready, yields_hold, returns, throws, leave_by, left}
use gwn_framwork.Scheduler.Drain.{works, begins, is_callback, Home, IsRunning, tickle_if-keeps}
use gwn_framwork.Scheduler.Drain.Queues.{IsQueue-write, IsQueue-snoc, IsFreeOf-snoc, IsApart-write}
use gwn_framwork.Scheduler.Drain.Starts.{RunsAs-write}

pub schedule-keeps :
    (ft : Task) (s : Sched)
    → has_work ft ≡ true
    → ((schedule ft s).queue ≡ s.queue ++ ft ∷ [])
      × ((schedule ft s).active ≡ s.active)
      × ((schedule ft s).fibers ≡ s.fibers)
      × ((schedule ft s).auto_stop ≡ s.auto_stop)
      × ((schedule ft s).is_stopping ≡ s.is_stopping)
unfolding schedule
schedule-keeps ft s works =
    rw (works) (tickle_if-keeps (is_empty s.queue) (record s { queue = s.queue ++ ft ∷ [] }))

module _ (h : Home) (kind : Kind) (d : Code) (th : Option ℕ) (k : Code) (a : ℕ) (g : Fiber)
    (cs : List Code) (s : Sched) (w : Worker) where
  abbrev pub cb_task : Task
  cb_task = record { fiber = none; cb = some d; thread = th }

  -- A call of `schedule` in a callback.
  pub step_schedule :
      IsRunning h kind (schedule_cb d th k) a g cs s w
      → (g' : Fiber) × (s' : Sched) × (work w.pc s w ≡ ok (s', w))
        × (begins s.fibers w.pc ≡ [])
        × IsRunning h kind k a g' (cs ++ d ∷ []) s' w
  unfolding work run_fiber begins
  step_schedule r =
      let e = r.entered in
      let me = w.thread_id in
      let g' = record g { ctx = suspended main_func k } in
      let later = schedule cb_task s in
      let (q, ac, fi, au, st) = schedule-keeps cb_task s refl in
      let there : get_elem? later.fibers.heap a ≡ some g = rw (fi) e.there in
      let (simple_d, own, simple_k) = e.goes_on in
      let free = IsFreeOf-snoc (some a) s.queue cb_task e.free (λ b e e'. cc) in
      let more =
        IsQueue-snoc me s.fibers s.queue cs cb_task d e.queue tt (is_callback refl refl own)
          simple_d in
      (
        g',
        record later { fibers = write later.fibers a g' },
        rw (r.at, e.there, e.next, there) refl,
        rw (r.at) refl,
        record {
          at = r.at;
          this = r.this;
          executing = r.executing;
          entered = record {
            active = ac ∙ e.active;
            auto = au ∙ e.auto;
            asked = st ∙ e.asked;
            queue =
                rw (q, fi)
                  (IsQueue-write me s.fibers a g' (s.queue ++ cb_task ∷ []) (cs ++ d ∷ []) free
                    more);
            free = rw (q) free;
            free_idle =
                rw (q)
                  (IsFreeOf-snoc (some w.idle_fiber) s.queue cb_task e.free_idle (λ b e e'. cc));
            free_cb = rw (q) (IsFreeOf-snoc w.cb_fiber s.queue cb_task e.free_cb (λ b e e'. cc));
            goes_on = simple_k;
            scheduler = e.scheduler;
            main = e.main;
            apart = rw (fi) (IsApart-write h s.fibers w.idle_fiber a g' e.not_home e.other e.apart);
            not_home = e.not_home;
            other = e.other;
            runs_as = rw (fi) (
                RunsAs-write kind a g.stack h.address s.fibers w.idle_fiber w.cb_fiber g'
                  e.runs_as);
            there =
                get_elem?-set_self later.fibers.heap a g' (get_elem?-lt later.fibers.heap a there);
            next = unfold next_code in refl;
          };
        },
      )

-- The call that ends a callback or that yields, and what is put into the queue for it.
abbrev pub code_of : Leaving → Code
code_of (yields_ready k) = yield_ready k
code_of (yields_hold k) = yield_hold k
code_of returns = ret
code_of throws = throw

abbrev pub rest_of : Leaving → List Code
rest_of (yields_ready k) = k ∷ []
rest_of _ = []

pub leave_lem :
    (l : Leaving) (a m : ℕ) (g : Fiber) (fs : Fibers) (t : Tls)
    → get_elem? fs.heap a ≡ some g
    → g.state ≡ exec
    → t.fiber ≡ some a
    → t.scheduler_fiber ≡ some m
    → leave_by l fs t ≡ ok (write fs a (left l g), set_this t.thread_fiber t)
unfolding leave_by state_eq
leave_lem (yields_ready k) a m g fs t there executing this sf =
    let after =
      get_elem?-set_self fs.heap a (record g { state = ready }) (get_elem?-lt fs.heap a there) in
    rw (this, there, executing, after, sf, set-set fs.heap a) refl
leave_lem (yields_hold k) a m g fs t there executing this sf =
    let after =
      get_elem?-set_self fs.heap a (record g { state = hold }) (get_elem?-lt fs.heap a there) in
    rw (this, there, executing, after, sf, set-set fs.heap a) refl
leave_lem returns a m g fs t there executing this sf =
    let after =
      get_elem?-set_self fs.heap a (record g { state = term; cb = none })
        (get_elem?-lt fs.heap a there) in
    rw (this, there, after, sf, set-set fs.heap a) refl
leave_lem throws a m g fs t there executing this sf =
    let after =
      get_elem?-set_self fs.heap a (record g { state = except }) (get_elem?-lt fs.heap a there) in
    rw (this, there, after, sf, set-set fs.heap a) refl

pub act_leave :
    (l : Leaving) (kind : Kind) (a : ℕ) (s : Sched) (w : Worker)
    → act kind a main_func (code_of l) s w
      ≡ (leave_by l s.fibers w.tls >>= λ r. ok (come_back kind a s w r))
unfolding act leave_by
act_leave (yields_ready k) kind a s w = refl
act_leave (yields_hold k) kind a s w = refl
act_leave returns kind a s w = refl
act_leave throws kind a s w = refl
