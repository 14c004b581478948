-- ===== src/Scheduler/Crew/Safety.antt =====
-- No thread of a crew ever stops at a fault, whatever the order of the steps.
use gwn_framwork.Base.{
  ℕ, zero, suc, ◌≡◌, ◌≢◌, refl, sym, ap, ◌∙◌, inl, inr, ◌⊎◌, Bool, true, List, [], ◌∷◌, ◌++◌, none,
  some, Result, ok, arith, subst, length, get_elem?, set,
}
use gwn_framwork.Fiber.{Tls}
use gwn_framwork.Scheduler.{Task, Sched, schedule, has_work}
use gwn_framwork.Scheduler.Worker.{Worker, work, enter_run}
use gwn_framwork.Scheduler.Control.{Next, start, stop, stop-stopping, stop-fibers, start-keeps}
use gwn_framwork.Scheduler.System.{System}
use gwn_framwork.Scheduler.Drain.{IsFreeOf}
use gwn_framwork.Scheduler.Drain.Callbacks.{schedule-keeps}
use gwn_framwork.Scheduler.Crew.{of, Owners, IsPlainTask, is_callback, IsQueue, IsMember}
use gwn_framwork.Scheduler.Crew.Frames.{Keeps, IsMember-Keeps}
use gwn_framwork.Scheduler.Crew.Queues.{IsQueue-snoc}
use gwn_framwork.Scheduler.Crew.Steps.{HasHome, member_step, enter_step}

-- A step of one of the threads, a thread that comes in, or a call of the rest of the program, which
-- schedules plain callbacks.
pub data Move (x y : System) : Type 0 where
  works :
      (j : ℕ) (w w' : Worker) (s' : Sched)
      → get_elem? x.workers j ≡ some w
      → work w.pc x.sched w ≡ ok (s', w')
      → y ≡ record { sched = s'; workers = set x.workers j w' }
      → Move x y
  enters :
      (me : ℕ) (t : Tls)
      → HasHome me x.sched t
      → y ≡ record {
        sched = (enter_run me x.sched t).0;
        workers = x.workers ++ (enter_run me x.sched t).1 ∷ [];
      }
      → Move x y
  schedules : (ft : Task) → IsPlainTask ft → y ≡ record x { sched = schedule ft x.sched } → Move x y
  starts :
      (id : ℕ → ℕ) (s' : Sched) → start id x.sched ≡ ok s' → y ≡ record x { sched = s' } → Move x y
  stops :
      (current : Bool) (s' : Sched) (next : Next)
      → stop current x.sched ≡ ok (s', next)
      → y ≡ record x { sched = s' }
      → Move x y

-- Any number of them.
pub data Moves (x : System) : System → Type 0 where
  here : Moves x x
  more : {y z : System} → Moves x y → Move y z → Moves x z

record IsSound (x : System) : Type 0 where
  own : Owners
  queue : IsQueue own x.sched.fibers x.sched.queue
  members : (j : ℕ) (w : Worker) → get_elem? x.workers j ≡ some w → IsMember own x.sched.fibers j w

get_elem?-set_cases :
    (ws : List Worker) (j k : ℕ) (w v : Worker)
    → get_elem? (set ws j w) k ≡ some v
    → ((k ≡ j) × (v ≡ w)) ⊎ ((k ≢ j) × (get_elem? ws k ≡ some v))
get_elem?-set_cases [] j k w v h = ground arith
get_elem?-set_cases (x ∷ ws) zero zero w v h = inl (refl, cc)
get_elem?-set_cases (x ∷ ws) zero (suc k) w v h = inr (λ e. absurd (omega arith), h)
get_elem?-set_cases (x ∷ ws) (suc j) zero w v h = inr (λ e. absurd (omega arith), h)
get_elem?-set_cases (x ∷ ws) (suc j) (suc k) w v h = elim (get_elem?-set_cases ws j k w v h) [
  | inl (e, same) ↦ inl (ap suc e, same)
  | inr (ne, there) ↦ inr (λ e. ne (omega arith), there)
]

get_elem?-snoc_cases :
    (ws : List Worker) (k : ℕ) (w v : Worker)
    → get_elem? (ws ++ w ∷ []) k ≡ some v
    → ((k ≡ length ws) × (v ≡ w)) ⊎ ((k ≢ length ws) × (get_elem? ws k ≡ some v))
get_elem?-snoc_cases [] zero w v h = inl (refl, cc)
get_elem?-snoc_cases [] (suc k) w v h = ground arith
get_elem?-snoc_cases (x ∷ ws) zero w v h = inr (λ e. absurd (omega arith), h)
get_elem?-snoc_cases (x ∷ ws) (suc k) w v h = elim (get_elem?-snoc_cases ws k w v h) [
  | inl (e, same) ↦ inl (ap suc e, same)
  | inr (ne, there) ↦ inr (λ e. ne (omega arith), there)
]

-- The threads behind a step of the `j`-th one, which is `w` then.
after_step :
    (x : System) (p : IsSound x) (j : ℕ) (w : Worker) (own' : Owners) (s' : Sched)
    (ws : List Worker)
    → IsQueue own' s'.fibers s'.queue
    → IsMember own' s'.fibers j w
    → ((k : ℕ) → k ≢ j → Keeps (of k) p.own x.sched.fibers own' s'.fibers)
    → ((k : ℕ) (v : Worker)
        → get_elem? ws k ≡ some v
        → ((k ≡ j) × (v ≡ w)) ⊎ ((k ≢ j) × (get_elem? x.workers k ≡ some v)))
    → IsSound (record { sched = s'; workers = ws })
after_step x p j w own' s' ws queue member keeps cases = record {
  own = own';
  queue = queue;
  members = λ k v there. elim (cases k v there) [
    | inl (e, same) ↦ rw (e, same) member
    | inr (ne, before) ↦
        IsMember-Keeps p.own own' x.sched.fibers s'.fibers k v (keeps k ne) (p.members k v before)
  ];
}

-- A change of the scheduler that keeps the heap.
same_fibers :
    (x : System) (p : IsSound x) (s' : Sched)
    → s'.fibers ≡ x.sched.fibers
    → IsQueue p.own x.sched.fibers s'.queue
    → IsSound (record x { sched = s' })
same_fibers x p s' fi queue = record {
  own = p.own;
  queue = rw (fi) queue;
  members = λ k v there. rw (fi) (p.members k v there);
}

Move-IsSound : {x y : System} → Move x y → IsSound x → IsSound y
Move-IsSound {x} (works j w w' s' there e same) p =
    let (own', s₁, w₁, e₁, queue, member, keeps) =
      member_step p.own j x.sched w p.queue (p.members j w there) in
    let pair : ◌≡◌ {A = Result (Sched × Worker)} (ok (s₁, w₁)) (ok (s', w')) = sym e₁ ∙ e in
    let sched' : s₁ ≡ s' = cc in
    let worker' : w₁ ≡ w' = cc in
    subst IsSound
      (ap (λ (s : Sched). record { sched = s; workers = set x.workers j w₁ }) sched'
        ∙ ap (λ (v : Worker). record { sched = s'; workers = set x.workers j v }) worker'
        ∙ sym same)
      (after_step x p j w₁ own' s₁ (set x.workers j w₁) queue member keeps
        (λ k v. get_elem?-set_cases x.workers j k w₁ v))
Move-IsSound {x} (enters me t home same) p =
    let (own', queue, member, keeps) =
      enter_step me x.sched t p.own (length x.workers) p.queue home in
    let (s', w') = enter_run me x.sched t in
    subst IsSound (sym same) (
      after_step x p (length x.workers) w' own' s' (x.workers ++ w' ∷ []) queue member keeps
        (λ k v. get_elem?-snoc_cases x.workers k w' v))
Move-IsSound {x} (schedules ft (c, no_fiber, has_cb, plain) same) p =
    let works : has_work ft ≡ true = rw (no_fiber, has_cb) refl in
    let (q, ac, fi, au, st) = schedule-keeps ft x.sched works in
    let free = subst (λ o. IsFreeOf o x.sched.queue) (sym no_fiber) tt in
    subst IsSound (sym same) (
      same_fibers x p (schedule ft x.sched) fi (
        rw (q) (
          IsQueue-snoc p.own x.sched.fibers x.sched.queue ft p.queue free
            (is_callback c no_fiber has_cb plain))))
Move-IsSound {x} (starts id s' e same) p =
    let (q, fi) = start-keeps id x.sched s' e in
    subst IsSound (sym same) (same_fibers x p s' fi (rw (q) p.queue))
Move-IsSound {x} (stops current s' next e same) p =
    let q = (stop-stopping current x.sched s' next e).0 in
    subst IsSound (sym same)
      (same_fibers x p s' (stop-fibers current x.sched s' next e) (rw (q) p.queue))

Moves-IsSound : {x y : System} → Moves x y → IsSound x → IsSound y
Moves-IsSound here p = p
Moves-IsSound (more ms m) p = Move-IsSound m (Moves-IsSound ms p)

-- A scheduler with no task yet and no thread in `run`, whatever fibers there are, whatever threads
-- come in, in whatever order the threads make their steps, with calls of `start`, `stop` and
-- `schedule` in between, for callbacks that return, throw, yield, and schedule such callbacks: no
-- thread ever stops at a failed assertion or reads a null pointer.
pub Moves-work :
    (x y : System) (j : ℕ) (w : Worker)
    → x.workers ≡ []
    → x.sched.queue ≡ []
    → Moves x y
    → get_elem? y.workers j ≡ some w
    → (s' : Sched) × (w' : Worker) × (work w.pc y.sched w ≡ ok (s', w'))
Moves-work x y j w no_workers no_tasks ms there =
    let begins : IsSound x = record {
      own = λ a. none;
      queue = rw (no_tasks) tt;
      members =
          λ k v there'. absurd (nobody k v (ap (λ ws. get_elem? ws k) (sym no_workers) ∙ there'));
    } in
    let p = Moves-IsSound ms begins in
    let (own', s', w', e, queue, member, keeps) =
      member_step p.own j y.sched w p.queue (p.members j w there) in
    (s', w', e)
  where
    nobody : (k : ℕ) (v : Worker) → get_elem? [] k ≡ some v → ⊥
    nobody k v h = ground arith
