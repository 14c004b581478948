-- ===== src/Scheduler/Crew/Queues.antt =====
-- The queue of a crew of threads: what a thread takes out of it, and what it puts into it.
use gwn_framwork.Base.{
  unsome, ℕ, ◌≡◌, ◌≢◌, refl, sym, ap, ◌∙◌, false, List, [], ◌∷◌, ◌++◌, Option, none, some, ok,
  get_elem?, All,
}
use gwn_framwork.Fiber.{Result, Fiber, Fibers}
use gwn_framwork.Scheduler.{Task, Sched, is_executing}
use gwn_framwork.Scheduler.Queue.{IsSound}
use gwn_framwork.Scheduler.Worker.{Worker}
use gwn_framwork.Scheduler.Drain.{IsFree, IsFreeOf}
use gwn_framwork.Scheduler.Drain.Queues.{IsFreeOf-snoc, IsFreeOf-cons, IsFreeOf-nil}
use gwn_framwork.Scheduler.Drain.Starts.{waiting-not_exec}
use gwn_framwork.Scheduler.Crew.{
  queued, of, Owners, IsWork, is_callback, is_fiber, IsQueue, IsMember,
}
use gwn_framwork.Scheduler.Crew.Frames.{Keeps}

-- What a step of the `j`-th thread leads to: it ends with no fault, the queue and the thread are as
-- they should be, and the other threads keep what they have.
abbrev pub Stepped : ℕ → Owners → Sched → Result (Sched × Worker) → Type 0
Stepped j own s r =
    (own' : Owners) × (s' : Sched) × (w' : Worker) × (r ≡ ok (s', w'))
    × IsQueue own' s'.fibers s'.queue
    × IsMember own' s'.fibers j w'
    × ((k : ℕ) → k ≢ j → Keeps (of k) own s.fibers own' s'.fibers)

-- The queued fibers but one are as they were.
abbrev pub KeepsBut : ℕ → Owners → Fibers → Owners → Fibers → Type 0
KeepsBut a own fs own' fs' =
    (b : ℕ) (g : Fiber)
    → b ≢ a
    → own b ≡ some queued
    → get_elem? fs.heap b ≡ some g
    → (own' b ≡ some queued) × (get_elem? fs'.heap b ≡ some g)

module _ (own own' : Owners) (fs fs' : Fibers) (a : ℕ) (k : KeepsBut a own fs own' fs') where
  IsWork-but : (ft : Task) → ft.fiber ≢ some a → IsWork own fs queued ft → IsWork own' fs' queued ft
  IsWork-but ft ne (is_callback c no_fiber has_cb plain) = is_callback c no_fiber has_cb plain
  IsWork-but ft ne (is_fiber b g c has owned there waits next plain) =
      let (owned', there') = k b g (λ e. ne (has ∙ ap some e)) owned there in
      is_fiber b g c has owned' there' waits next plain

  pub IsQueue-but : (q : List Task) → IsFree a q → IsQueue own fs q → IsQueue own' fs' q
  IsQueue-but [] free h = tt
  IsQueue-but (ft ∷ q) (ne, free) (work, of_ft, rest) =
      (IsWork-but ft ne work, of_ft, IsQueue-but q free rest)

free_around :
    (o : Option ℕ) (before behind : List Task) (ft : Task)
    → IsFreeOf o (before ++ ft ∷ behind)
    → ((a : ℕ) → o ≡ some a → ft.fiber ≢ some a) × IsFreeOf o (before ++ behind)
free_around o [] behind ft h = IsFreeOf-cons o ft behind h
free_around none (x ∷ before) behind ft h = (λ a e. cc, tt)
free_around (some b) (x ∷ before) behind ft (ne, h) =
    let (ne', h') = free_around (some b) before behind ft h in (ne', (ne, h'))

free_cons :
    (o : Option ℕ) (x : Task) (q : List Task)
    → ((a : ℕ) → o ≡ some a → x.fiber ≢ some a)
    → IsFreeOf o q
    → IsFreeOf o (x ∷ q)
free_cons none x q ne h = tt
free_cons (some a) x q ne h = (ne a refl, h)

-- One of the tasks, and the others.
pub IsQueue-around :
    (own : Owners) (fs : Fibers) (before behind : List Task) (ft : Task)
    → IsQueue own fs (before ++ ft ∷ behind)
    → IsWork own fs queued ft
      × IsFreeOf ft.fiber (before ++ behind)
      × IsQueue own fs (before ++ behind)
IsQueue-around own fs [] behind ft h = h
IsQueue-around own fs (x ∷ before) behind ft (work, free, rest) =
    let (work', free', rest') = IsQueue-around own fs before behind ft rest in
    let (ne, frees) = free_around x.fiber before behind ft free in
    (
      work',
      free_cons ft.fiber x (before ++ behind) (λ a e e'. ne a e' e) free',
      (work, frees, rest'),
    )

-- A task behind the others.
pub IsQueue-snoc :
    (own : Owners) (fs : Fibers) (q : List Task) (ft : Task)
    → IsQueue own fs q
    → IsFreeOf ft.fiber q
    → IsWork own fs queued ft
    → IsQueue own fs (q ++ ft ∷ [])
IsQueue-snoc own fs [] ft h free work = (work, IsFreeOf-nil ft.fiber, tt)
IsQueue-snoc own fs (x ∷ q) ft (work', of_x, rest) free work =
    let (ne, frees) = IsFreeOf-cons ft.fiber x q free in
    (
      work',
      IsFreeOf-snoc x.fiber q ft of_x (λ a e e'. ne a e' e),
      IsQueue-snoc own fs q ft rest frees work,
    )

work-ne :
    (own : Owners) (fs : Fibers) (a j : ℕ) (ft : Task)
    → own a ≡ some (of j)
    → IsWork own fs queued ft
    → ft.fiber ≢ some a
work-ne own fs a j ft owned (is_callback c no_fiber has_cb plain) e = cc
work-ne own fs a j ft owned (is_fiber b g c has owned' there waits next plain) e =
    let same : a ≡ b = unsome (sym e ∙ has) in
    let clash : some (of j) ≡ some queued = sym owned ∙ ap own same ∙ owned' in cc

-- No task has a fiber that a thread has.
pub owned-IsFree :
    (own : Owners) (fs : Fibers) (a j : ℕ) (q : List Task)
    → own a ≡ some (of j)
    → IsQueue own fs q
    → IsFree a q
owned-IsFree own fs a j [] owned h = tt
owned-IsFree own fs a j (ft ∷ q) owned (work, free, rest) =
    (work-ne own fs a j ft owned work, owned-IsFree own fs a j q owned rest)

work-IsSound : (own : Owners) (fs : Fibers) (ft : Task) → IsWork own fs queued ft → IsSound fs ft
unfolding is_executing
work-IsSound own fs ft (is_callback c no_fiber has_cb plain) =
    (rw (no_fiber, has_cb) refl, (false, rw (no_fiber) refl))
work-IsSound own fs ft (is_fiber a g c has owned there waits next plain) =
    (rw (has) refl, (false, rw (has, there, waiting-not_exec g.state waits) refl))

pub queue-IsSound :
    (own : Owners) (fs : Fibers) (q : List Task) → IsQueue own fs q → All (IsSound fs) q
queue-IsSound own fs [] h = tt
queue-IsSound own fs (ft ∷ q) (work, free, rest) =
    (work-IsSound own fs ft work, queue-IsSound own fs q rest)
