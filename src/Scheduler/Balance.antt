-- ===== src/Scheduler/Balance.antt =====
-- `m_activeThreadCount` of gwn/scheduler.cc against what the threads in `run` are doing: each step
-- of a thread keeps the balance, except that the round in which a thread takes a fiber that is
-- over raises the count for good.
use gwn_framwork.Base.{
  ℕ, ◌+◌, ◌^◌, ◌<◌, ◌≤◌, ◌≡◌, refl, inl, inr, Bool, true, false, not, ◌&&◌, ◌||◌, List, [], ◌∷◌,
  Option, none, some, arith, if◌then◌else◌, Option-cases,
}
use gwn_framwork.Fiber.{
  Code, ret, idle, Entry, Fibers, Result, ok, fault, read, >>=-eq-ok, inc64, dec64,
}
use gwn_framwork.Scheduler.{
  Task, Sched, has_work, take_task, Pick, search_queue, after_pick, is_some,
}
use gwn_framwork.Scheduler.Worker.{
  Kind, as_fiber, as_cb, as_idle, Pc, picking, holding, running, returned, settling, stopped,
  Worker, fiber_alive, switch_to, start_cb, start_idle, start_fiber, start_other, dispatch,
  next_code, act, run_fiber, count_down, settle, work,
}

pub inc64_lem : (n : ℕ) → n + 1 < 2 ^ 64 → inc64 n ≡ n + 1
unfolding inc64
inc64_lem n h = omega arith

pub dec64_lem : (n : ℕ) → 0 < n → n < 2 ^ 64 → dec64 n + 1 ≡ n
unfolding dec64
dec64_lem n p h = omega arith

abbrev kind_weight : Kind → ℕ
kind_weight as_idle = 0
kind_weight as_fiber = 1
kind_weight as_cb = 1

abbrev task_weight : Task → ℕ
task_weight ft = if has_work ft then 1 else 0

-- One for a thread that has taken a task and has not counted down again.
abbrev pub weight : Pc → ℕ
weight picking = 0
weight (holding ft) = task_weight ft
weight (running kind a) = kind_weight kind
weight (returned kind a) = kind_weight kind
weight (settling kind a) = 0
weight stopped = 0

abbrev pub is_dead : Result Bool → Bool
is_dead (ok b) = not b
is_dead (fault e) = false

-- One for a thread that is about to drop its task: no branch of the round runs and counts down a
-- fiber that is over, with no callback.
abbrev pub lost_weight : Fibers → Pc → ℕ
lost_weight fs (holding ft) =
    if is_some ft.fiber && (not (is_some ft.cb) && is_dead (fiber_alive fs ft.fiber)) then 1 else 0
lost_weight fs _ = 0

switch_to-active :
    (kind : Kind) (a : ℕ) (s : Sched) (w : Worker) {s' : Sched} {w' : Worker}
    → switch_to kind a s w ≡ ok (s', w')
    → (s'.active ≡ s.active) × (w'.pc ≡ running kind a)
unfolding switch_to
switch_to-active kind a s w h = ground arith

start_cb-active :
    (c : Code) (s : Sched) (w : Worker) {s' : Sched} {w' : Worker}
    → start_cb c s w ≡ ok (s', w')
    → (s'.active ≡ s.active) × (weight w'.pc ≡ 1)
unfolding start_cb
start_cb-active c s w h = ground arith

start_idle-active :
    (s : Sched) (w : Worker) {s' : Sched} {w' : Worker}
    → start_idle s w ≡ ok (s', w')
    → (s'.active ≡ s.active) × (weight w'.pc ≡ 0)
unfolding start_idle
start_idle-active s w h = ground arith

count_down-active :
    (kind : Kind) (a : ℕ) (s : Sched) (w : Worker) {s' : Sched} {w' : Worker}
    → count_down kind a s w ≡ ok (s', w')
    → kind_weight kind ≤ s.active
    → s.active < 2 ^ 64
    → (s'.active + kind_weight kind ≡ s.active) × (weight w'.pc ≡ 0)
unfolding count_down
count_down-active as_idle a s w h p b = ground arith
count_down-active _ a s w h p b = ground (arith, dec64_lem s.active)

settle-active :
    (kind : Kind) (a : ℕ) (s : Sched) (w : Worker) {s' : Sched} {w' : Worker}
    → settle kind a s w ≡ ok (s', w')
    → (s'.active ≡ s.active) × (weight w'.pc ≡ 0)
unfolding settle
settle-active as_cb a s w h = ground arith
settle-active _ a s w h = ground arith

act-active :
    (kind : Kind) (a : ℕ) (e : Entry) (c : Code) (s : Sched) (w : Worker) {s' : Sched} {w' : Worker}
    → act kind a e c s w ≡ ok (s', w')
    → w.pc ≡ running kind a
    → (s'.active ≡ s.active) × (weight w'.pc ≡ kind_weight kind)
unfolding act
act-active kind a e ret s w h p = ground arith
act-active kind a e idle s w h p = ground arith
act-active kind a e _ s w h p = ground arith

search-has_work :
    (me : ℕ) (fs : Fibers) (q : List Task) (p : Pick) (ft : Task)
    → search_queue me fs q ≡ ok p
    → p.task ≡ some ft
    → has_work ft ≡ true
unfolding search_queue
search-has_work me fs [] p ft e t = ground arith
search-has_work me fs (x ∷ q) p ft e t =
    elim (search_queue me fs q) as (λ r. search_queue me fs q ≡ r → has_work ft ≡ true) [
      | ok r ↦ λ er. ground (arith, search-has_work me fs q r ft)
      | fault z ↦ λ er. ground arith
    ]
      refl

take_task-active :
    (me : ℕ) (s : Sched) {s' : Sched} {ft : Task}
    → take_task me s ≡ ok (s', ft)
    → s.active + 1 < 2 ^ 64
    → s'.active ≡ s.active + task_weight ft
unfolding take_task
take_task-active me s {s'} {ft} h b =
    let (p, e, r) = >>=-eq-ok (search_queue me s.fibers s.queue) (λ p. ok (after_pick s p)) h in
    elim (Option-cases p.task) [
      | inl t ↦ ground arith
      | inr (x, t) ↦ ground (arith, search-has_work me s.fibers s.queue p x e t, inc64_lem s.active)
    ]

abbrev lost_if : Option ℕ → Option Code → Result Bool → ℕ
lost_if o c r = if is_some o && (not (is_some c) && is_dead r) then 1 else 0

dispatch_cases :
    (alive : Bool) (o : Option ℕ) (c : Option Code) (s : Sched) (w : Worker) {s' : Sched}
    {w' : Worker}
    → fiber_alive s.fibers o ≡ ok alive
    → (if alive then start_fiber o s w else start_other c s w) ≡ ok (s', w')
    → (s'.active ≡ s.active)
      × ((if is_some o || is_some c then 1 else 0)
          ≡ weight w'.pc + lost_if o c (fiber_alive s.fibers o))
unfolding start_fiber start_other
dispatch_cases true (some a) c s w e h = ground (arith, switch_to-active as_fiber a s w h)
dispatch_cases true none c s w e h = unfold fiber_alive in ground arith
dispatch_cases false o (some c) s w e h = ground (arith, start_cb-active c s w h)
dispatch_cases false (some a) none s w e h = ground (arith, start_idle-active s w h)
dispatch_cases false none none s w e h = ground (arith, start_idle-active s w h)

dispatch-active :
    (ft : Task) (s : Sched) (w : Worker) {s' : Sched} {w' : Worker}
    → dispatch ft s w ≡ ok (s', w')
    → w.pc ≡ holding ft
    → (s'.active ≡ s.active) × (task_weight ft ≡ weight w'.pc + lost_weight s.fibers (holding ft))
unfolding dispatch
dispatch-active ft s w {s'} {w'} h p =
    let (alive, e, r) =
      >>=-eq-ok (fiber_alive s.fibers ft.fiber)
        (λ alive. if alive then start_fiber ft.fiber s w else start_other ft.cb s w) h in
    dispatch_cases alive ft.fiber ft.cb s w e r

run_fiber-active :
    (kind : Kind) (a : ℕ) (s : Sched) (w : Worker) {s' : Sched} {w' : Worker}
    → run_fiber kind a s w ≡ ok (s', w')
    → w.pc ≡ running kind a
    → (s'.active ≡ s.active) × (weight w'.pc ≡ kind_weight kind)
unfolding run_fiber
run_fiber-active kind a s w h p =
    let (f, _, h') = >>=-eq-ok (read s.fibers a) _ h in
    let ((e, c), _, h'') = >>=-eq-ok (next_code f f.ctx) _ h' in act-active kind a e c s w h'' p

-- A step of a thread changes the count of active threads by as much as it changes the thread's own
-- share of it, but for a task that the step drops: its one stays in the count.
pub work-active :
    (pc : Pc) (s : Sched) (w : Worker) {s' : Sched} {w' : Worker}
    → w.pc ≡ pc
    → work pc s w ≡ ok (s', w')
    → weight pc ≤ s.active
    → s.active + 1 < 2 ^ 64
    → s'.active + weight pc ≡ s.active + (weight w'.pc + lost_weight s.fibers pc)
unfolding work
work-active picking s w e h p b =
    let ((t, ft), h₁, h₂) = >>=-eq-ok (take_task w.thread_id s) _ h in
    ground (arith, take_task-active w.thread_id s h₁ b)
work-active (holding ft) s w e h p b = ground (arith, dispatch-active ft s w h e)
work-active (running kind a) s w e h p b = ground (arith, run_fiber-active kind a s w h e)
work-active (returned kind a) s w e h p b =
    ground (arith, count_down-active kind a s w h p (omega arith))
work-active (settling kind a) s w e h p b = ground (arith, settle-active kind a s w h)
work-active stopped s w e h p b = ground arith
