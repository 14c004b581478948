-- ===== src/Scheduler/Crew/Starting.antt =====
-- A thread of a crew does with its task, or without one, what `run` does.
use gwn_framwork.Base.{
  unsome, ℕ, ◌%◌, ◌^◌, ◌≡◌, ◌≢◌, refl, ◌∙◌, inl, inr, ◌⊎◌, true, false, Option, none, some, ok,
  arith, subst, length, get_elem?, get_elem?-lt, get_elem?-set_self, get_elem?-append_self,
}
use gwn_framwork.Fiber.{
  State, init, hold, ready, except, exec, term, state_eq, Code, idle, main_func, fresh, Fiber,
  write, set_this, new_fiber, reset, inc64,
}
use gwn_framwork.Scheduler.{Task, Sched}
use gwn_framwork.Scheduler.Worker.{
  Worker, as_fiber, as_cb, as_idle, running, stopped, next_code, switch_to, start_cb, start_idle,
  dispatch, fiber_alive,
}
use gwn_framwork.Scheduler.Drain.{is_waiting}
use gwn_framwork.Scheduler.Drain.Starts.{waiting-not_exec, waiting-is_alive, next_code_exec}
use gwn_framwork.Scheduler.Crew.{
  Owner, queued, of, Owners, give, IsPlain, IsWork, is_callback, is_fiber, IsQueue, HasRest, HasCb,
  IsNothing, in_idle, at_end,
}
use gwn_framwork.Scheduler.Crew.Frames.{
  give_self, write-Keeps, append-Keeps, IsQueue-Keeps, HasRest-Keeps,
}
use gwn_framwork.Scheduler.Crew.Queues.{Stepped}
use gwn_framwork.Scheduler.Crew.Entering.{
  of_ne, Stepped-behind, task_step, HasCb-write, HasRest-write,
}

waiting-not_term : (st : State) → is_waiting st ≡ true → state_eq st term ≡ false
unfolding is_waiting state_eq
waiting-not_term init h = refl
waiting-not_term hold h = refl
waiting-not_term ready h = refl
waiting-not_term exec h = ground arith
waiting-not_term term h = ground arith
waiting-not_term except h = refl

module _ (own : Owners) (j : ℕ) (s : Sched) (w : Worker) (m : ℕ)
    (scheduler : w.tls.scheduler_fiber ≡ some m) (queue : IsQueue own s.fibers s.queue)
    (cb : HasCb own s.fibers j w.idle_fiber w.cb_fiber) where
  start_idle_waiting :
      (f : Fiber)
      → own w.idle_fiber ≡ some (of j)
      → get_elem? s.fibers.heap w.idle_fiber ≡ some f
      → is_waiting f.state ≡ true
      → next_code f f.ctx ≡ ok (main_func, idle)
      → state_eq f.state term ≡ false
      → Stepped j own s (start_idle s w)
  unfolding start_idle
  start_idle_waiting f owned there waits next not_term =
      let i = w.idle_fiber in
      let f' = record f { state = exec } in
      let s₁ = record s { idle_count = inc64 s.idle_count } in
      let fs' = write s.fibers i f' in
      (
        own,
        record s₁ { fibers = fs' },
        record w { tls = set_this (some i) w.tls; pc = running as_idle i },
        rw (there, not_term, waiting-not_exec f.state waits, scheduler) refl,
        IsQueue-Keeps own own s.fibers fs' s.queue
            (write-Keeps own s.fibers queued i (of j) f' owned (λ e. cc)) queue,
        record {
          home = m;
          scheduler = scheduler;
          place =
              in_idle f' refl owned
                (get_elem?-set_self s.fibers.heap i f' (get_elem?-lt s.fibers.heap i there)) refl
                (next_code_exec f f.ctx ∙ next) refl
                (HasCb-write own s.fibers j i i f' w.cb_fiber (not_idle w.cb_fiber cb) cb);
        },
        λ k ne. write-Keeps own s.fibers (of k) i (of j) f' owned (of_ne ne),
      )
    where
      not_idle : (o : Option ℕ) → HasCb own s.fibers j w.idle_fiber o → o ≢ some w.idle_fiber
      not_idle none h e = cc
      not_idle (some b) (g, o, t, ne, stack, over) e = ne (unsome e)

  start_idle_over :
      (f : Fiber)
      → get_elem? s.fibers.heap w.idle_fiber ≡ some f
      → f.state ≡ term
      → Stepped j own s (start_idle s w)
  unfolding start_idle state_eq
  start_idle_over f there over = (
    own,
    s,
    record w { pc = stopped },
    rw (there, over) refl,
    queue,
    record { home = m; scheduler = scheduler; place = at_end refl },
    λ k ne b g owned there. (owned, there),
  )

  idle_step : HasRest own s.fibers j w.idle_fiber → Stepped j own s (start_idle s w)
  idle_step (f, owned, there, inl (waits, next)) =
      start_idle_waiting f owned there waits next (waiting-not_term f.state waits)
  idle_step (f, owned, there, inr over) = start_idle_over f there over

  new_step :
      (c : Code)
      → HasRest own s.fibers j w.idle_fiber
      → IsPlain c
      → w.cb_fiber ≡ none
      → Stepped j own s (start_cb c s w)
  unfolding start_cb new_fiber
  new_step c (f, owned, there, rest) plain none_yet =
      let a = length s.fibers.heap in
      let (n, fs) = new_fiber c 0 false s.fibers in
      let g : Fiber = record {
        id = inc64 s.fibers.last_id;
        stacksize = s.fibers.stack_size % 2 ^ 32;
        state = init;
        ctx = fresh main_func;
        stack = true;
        cb = some c;
      } in
      let own₁ = give a (of j) own in
      let s₁ = record s { fibers = fs } in
      let w₁ = record w { cb_fiber = some a } in
      let keeps = λ (o : Owner). append-Keeps own s.fibers o fs g (of j) refl in
      let below = get_elem?-lt s.fibers.heap w.idle_fiber there in
      let queue₁ = IsQueue-Keeps own own₁ s.fibers fs s.queue (keeps queued) queue in
      Stepped-behind j own own₁ s s₁ (start_cb c s w) (switch_to as_cb a s₁ w₁) (rw (none_yet) refl)
        (λ k ne. keeps (of k))
        (task_step own₁ j s₁ w₁ m scheduler queue₁ as_cb a g c
          (HasRest-Keeps own own₁ s.fibers fs j w.idle_fiber (keeps (of j)) (f, owned, there, rest))
          (
            give_self a (of j) own,
            get_elem?-append_self s.fibers.heap g,
            λ e. absurd (omega arith),
            (refl, refl),
          )
          (unfold is_waiting in refl) (unfold next_code in refl) plain)

  reused_step :
      (c : Code) (a : ℕ)
      → HasRest own s.fibers j w.idle_fiber
      → IsPlain c
      → w.cb_fiber ≡ some a
      → Stepped j own s (start_cb c s w)
  unfolding start_cb reset
  reused_step c a rest plain has =
      let (g₀, owned, there, ne, stack, over) = subst (HasCb own s.fibers j w.idle_fiber) has cb in
      let g = record g₀ { cb = some c; ctx = fresh main_func; state = init; stack = true } in
      let fs = write s.fibers a g in
      let s₁ = record s { fibers = fs } in
      let w₁ = record w { cb_fiber = some a } in
      let queue₁ =
        IsQueue-Keeps own own s.fibers fs s.queue
          (write-Keeps own s.fibers queued a (of j) g owned (λ e. cc)) queue in
      Stepped-behind j own own s s₁ (start_cb c s w) (switch_to as_cb a s₁ w₁)
        (rw (has, there, stack, over) refl)
        (λ k ne'. write-Keeps own s.fibers (of k) a (of j) g owned (of_ne ne'))
        (task_step own j s₁ w₁ m scheduler queue₁ as_cb a g c
          (HasRest-write own s.fibers j w.idle_fiber a g ne rest)
          (
            owned,
            get_elem?-set_self s.fibers.heap a g (get_elem?-lt s.fibers.heap a there),
            ne,
            (refl, refl),
          )
          (unfold is_waiting in refl) (unfold next_code in refl) plain)

  cb_step :
      (c : Code) (o : Option ℕ)
      → HasRest own s.fibers j w.idle_fiber
      → IsPlain c
      → w.cb_fiber ≡ o
      → Stepped j own s (start_cb c s w)
  cb_step c none rest plain e = new_step c rest plain e
  cb_step c (some a) rest plain e = reused_step c a rest plain e

  -- The thread goes on with its task, or with the idle fiber.
  pub dispatch_step :
      (ft : Task)
      → HasRest own s.fibers j w.idle_fiber
      → IsNothing ft
        ⊎ (IsWork own s.fibers (of j) ft
            × ((a : ℕ) → ft.fiber ≡ some a → (a ≢ w.idle_fiber) × (w.cb_fiber ≢ some a)))
      → Stepped j own s (dispatch ft s w)
  unfolding dispatch fiber_alive
  dispatch_step ft rest (inl (no_fiber, no_cb)) =
      Stepped-behind j own own s s (dispatch ft s w) (start_idle s w) (rw (no_fiber, no_cb) refl)
        (λ k ne b g owned there. (owned, there)) (idle_step rest)
  dispatch_step ft rest (inr (is_callback c no_fiber has_cb plain, ne)) =
      Stepped-behind j own own s s (dispatch ft s w) (start_cb c s w) (rw (no_fiber, has_cb) refl)
        (λ k ne b g owned there. (owned, there)) (cb_step c w.cb_fiber rest plain refl)
  dispatch_step ft rest (inr (is_fiber a g c has owned there waits next plain, ne)) =
      let (not_idle, not_cb) = ne a has in
      Stepped-behind j own own s s (dispatch ft s w) (switch_to as_fiber a s w)
        (rw (has, there, waiting-is_alive g.state waits) refl)
        (λ k ne b g owned there. (owned, there))
        (task_step own j s w m scheduler queue as_fiber a g c rest
          (owned, there, not_idle, (cb, not_cb)) waits next plain)
