-- ===== src/Scheduler/Queue.antt =====
-- The task queue of a scheduler: `schedule` and `schedule(begin, end)` in gwn/scheduler.h, and the
-- critical section of `Scheduler::run` in gwn/scheduler.cc.
use gwn_framwork.Base.{
  ℕ, ◌≡◌, refl, ◌∙◌, ap, ◌⊎◌, inl, inr, Bool, true, false, not, ◌&&◌, ◌||◌, List, [], ◌∷◌, ◌++◌,
  none, some, arith, if◌then◌else◌, All, is_empty, append_assoc, append-nil, Bool-cases,
}
use gwn_framwork.Fiber.{Fibers, ok, inc64}
use gwn_framwork.Scheduler.{
  Task, Sched, Pick, has_work, tickle_if, schedule_no_lock, schedule, schedule_loop, schedule_all,
  is_foreign, is_executing, keep, pick_own, search_queue, after_pick, take_task, no_task,
}

-- The entries that `scheduleNoLock` pushes.
abbrev pub with_work : List Task → List Task
with_work [] = []
with_work (ft ∷ fts) = if has_work ft then ft ∷ with_work fts else with_work fts

abbrev enqueue : List Task → Sched → Sched
enqueue fts s = record s { queue = s.queue ++ fts }

-- An entry that this thread passes over: it is for another thread, or its fiber is executing.
abbrev pub Passed : ℕ → Fibers → Task → Type 0
Passed me fs ft = (is_foreign me ft.thread ≡ true) ⊎ (is_executing fs ft.fiber ≡ ok true)

abbrev pub any_foreign : ℕ → List Task → Bool
any_foreign me [] = false
any_foreign me (ft ∷ fts) = is_foreign me ft.thread || any_foreign me fts

-- An entry with something to run, whose fiber pointer can be read.
abbrev pub IsSound : Fibers → Task → Type 0
IsSound fs ft = (has_work ft ≡ true) × ((b : Bool) × (is_executing fs ft.fiber ≡ ok b))

-- The search takes nothing, and every entry is passed over; or it takes the first entry that is
-- not. It tells others if an entry for another thread was passed over or entries are left behind.
pub data Finds (me : ℕ) (fs : Fibers) (q : List Task) (p : Pick) : Type 0 where
  nothing :
      p.task ≡ none
      → p.rest ≡ q
      → All (Passed me fs) q
      → p.tickle_me ≡ any_foreign me q
      → Finds me fs q p
  first :
      (before behind : List Task) (ft : Task)
      → q ≡ before ++ ft ∷ behind
      → p.task ≡ some ft
      → p.rest ≡ before ++ behind
      → All (Passed me fs) before
      → is_foreign me ft.thread ≡ false
      → is_executing fs ft.fiber ≡ ok false
      → p.tickle_me ≡ (any_foreign me before || not (is_empty behind))
      → Finds me fs q p

module _ (me : ℕ) (fs : Fibers) where
  Finds-keep :
      (ft : Task) (q : List Task) (p : Pick) (foreign : Bool)
      → is_foreign me ft.thread ≡ foreign
      → Passed me fs ft
      → Finds me fs q p
      → Finds me fs (ft ∷ q) (keep ft foreign p)
  Finds-keep ft q p foreign e passed (nothing t r a k) =
      nothing t (ap (◌∷◌ ft) r) (passed, a) (ground arith)
  Finds-keep ft q p foreign e passed (first before behind g eq t r a fg x k) =
      first (ft ∷ before) behind g (ap (◌∷◌ ft) eq) t (ap (◌∷◌ ft) r) (passed, a) fg x
        (ground arith)

  search_nil : search_queue me fs [] ≡ ok (record { task = none; rest = []; tickle_me = false })
  unfolding search_queue
  search_nil = refl

  search_foreign :
      (ft : Task) (fts : List Task) (p : Pick)
      → search_queue me fs fts ≡ ok p
      → is_foreign me ft.thread ≡ true
      → search_queue me fs (ft ∷ fts) ≡ ok (keep ft true p)
  unfolding search_queue
  search_foreign ft fts p e foreign = rw (foreign, e)

  search_own :
      (ft : Task) (fts : List Task) (p : Pick) (b : Bool)
      → search_queue me fs fts ≡ ok p
      → is_foreign me ft.thread ≡ false
      → has_work ft ≡ true
      → is_executing fs ft.fiber ≡ ok b
      → search_queue me fs (ft ∷ fts) ≡ pick_own ft fts (ok p) b
  unfolding search_queue
  search_own ft fts p b e own work x = rw (own, work, x, e)

  search_own-Finds :
      (ft : Task) (fts : List Task) (p : Pick) (b : Bool)
      → is_foreign me ft.thread ≡ false
      → is_executing fs ft.fiber ≡ ok b
      → Finds me fs fts p
      → (r : Pick) × (pick_own ft fts (ok p) b ≡ ok r) × Finds me fs (ft ∷ fts) r
  unfolding pick_own
  search_own-Finds ft fts p true own x f =
      (keep ft false p, refl, Finds-keep ft fts p false own (inr x) f)
  search_own-Finds ft fts p false own x f = (_, refl, first [] fts ft refl refl refl tt own x refl)

  -- In a queue of sound entries the search ends with no fault, and finds the first entry that this
  -- thread may run, if there is one; the others stay in their order.
  pub search_queue-Finds :
      (q : List Task)
      → All (IsSound fs) q
      → (p : Pick) × (search_queue me fs q ≡ ok p) × Finds me fs q p
  search_queue-Finds [] h = (_, search_nil, nothing refl refl tt refl)
  search_queue-Finds (ft ∷ fts) h =
      let (p, e, f) = search_queue-Finds fts h.1 in
      elim (Bool-cases (is_foreign me ft.thread)) [
        | inl foreign ↦ (
          keep ft true p,
          search_foreign ft fts p e foreign,
          Finds-keep ft fts p true foreign (inl foreign) f,
        )
        | inr own ↦
            let (r, e', f') = search_own-Finds ft fts p h.0.1.0 own h.0.1.1 f in
            (r, search_own ft fts p h.0.1.0 e own h.0.0 h.0.1.1 ∙ e', f')
      ]

-- What `take_task` gives: no task and only a tickle, if every entry is passed over; or the first
-- entry that is not, which leaves the queue, with the count of active threads raised.
pub data Takes (me : ℕ) (s s' : Sched) (ft : Task) : Type 0 where
  nothing :
      ft ≡ no_task
      → All (Passed me s.fibers) s.queue
      → s' ≡ tickle_if (any_foreign me s.queue) s
      → Takes me s s' ft
  takes :
      (before behind : List Task)
      → s.queue ≡ before ++ ft ∷ behind
      → All (Passed me s.fibers) before
      → is_foreign me ft.thread ≡ false
      → is_executing s.fibers ft.fiber ≡ ok false
      → s'
        ≡ tickle_if
            (any_foreign me before || not (is_empty behind))
            (record s { queue = before ++ behind; active = inc64 s.active })
      → Takes me s s' ft

after_pick-Takes :
    (me : ℕ) (s : Sched) (p : Pick)
    → Finds me s.fibers s.queue p
    → Takes me s (after_pick s p).0 (after_pick s p).1
after_pick-Takes me s p (nothing t r a k) = rw (t, k) (nothing refl a refl)
after_pick-Takes me s p (first before behind ft q t r a own x k) =
    rw (t, k, r) (takes before behind q a own x refl)

-- In a queue of sound entries the critical section of a round ends with no fault. It takes the
-- first entry that is for this thread, or for any, and whose fiber is not executing; it keeps the
-- other entries in their order, raises the count of active threads by one, and tells the other
-- threads if it passed an entry for another thread or left entries behind the one it took. If
-- there is no such entry it changes nothing, and tells the others if an entry is for one of them.
pub take_task-Takes :
    (me : ℕ) (s : Sched)
    → All (IsSound s.fibers) s.queue
    → (s' : Sched) × (ft : Task) × (take_task me s ≡ ok (s', ft)) × Takes me s s' ft
take_task-Takes me s h =
    let (p, e, f) = search_queue-Finds me s.fibers s.queue h in
    ((after_pick s p).0, (after_pick s p).1, unfold take_task in rw e, after_pick-Takes me s p f)

schedule_no_lock_lem :
    (ft : Task) (s : Sched)
    → schedule_no_lock ft s ≡ (enqueue (with_work (ft ∷ [])) s, is_empty s.queue)
unfolding schedule_no_lock
schedule_no_lock_lem ft s = ground (arith, append-nil s.queue)

-- One `schedule` call puts its task at the end of the queue, unless the task is empty, and wakes
-- another thread exactly if the queue was empty.
pub schedule_lem :
    (ft : Task) (s : Sched)
    → schedule ft s ≡ tickle_if (is_empty s.queue) (enqueue (with_work (ft ∷ [])) s)
unfolding schedule
schedule_lem ft s = ground (arith, append-nil s.queue)

is_empty-append {ℓ} :
    {A : Type ℓ} (xs ys : List A) → is_empty (xs ++ ys) ≡ (is_empty xs && is_empty ys)
is_empty-append [] ys = refl
is_empty-append (x ∷ xs) ys = refl

need_tickle_lem : (e b n w : Bool) → ((e || b) || (n && (e && w))) ≡ (b || (true && e))
need_tickle_lem e b n w = ground arith

with_work-cons :
    (ft : Task) (fts : List Task) → with_work (ft ∷ []) ++ with_work fts ≡ with_work (ft ∷ fts)
with_work-cons ft fts = ground arith

schedule_loop_lem :
    (fts : List Task) (s : Sched) (b : Bool)
    → schedule_loop fts s b
      ≡ (enqueue (with_work fts) s, (b || (not (is_empty fts) && is_empty s.queue)))
unfolding schedule_loop
schedule_loop_lem [] s b = ground (arith, append-nil s.queue)
schedule_loop_lem (ft ∷ fts) s b =
    let one : List Task = with_work (ft ∷ []) in
    rw (schedule_no_lock_lem ft s) (
      schedule_loop_lem fts (enqueue one s) (is_empty s.queue || b)
      ∙ rw
          (
            append_assoc s.queue one (with_work fts),
            with_work-cons ft fts,
            is_empty-append s.queue one,
          )
          (ap (λ (t : Bool). (enqueue (with_work (ft ∷ fts)) s, t))
            (need_tickle_lem (is_empty s.queue) b (not (is_empty fts)) (is_empty one))))

-- A batch puts its tasks at the end of the queue in their order, without the empty ones, and wakes
-- another thread once at most: exactly if the batch has an item and the queue was empty before it.
pub schedule_all_lem :
    (fts : List Task) (s : Sched)
    → schedule_all fts s
      ≡ tickle_if (not (is_empty fts) && is_empty s.queue) (enqueue (with_work fts) s)
unfolding schedule_all
schedule_all_lem fts s = rw (schedule_loop_lem fts s false)
