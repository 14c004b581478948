-- ===== src/Scheduler/Worker.antt =====
-- `Scheduler::run` of gwn/scheduler.cc, as the steps of one thread. Between two steps other threads
-- may run. The steps of a round: the critical section, the choice of what to run with the switch
-- into it, the calls of the running callback one by one, `--m_activeThreadCount`, and what is done
-- by the state in which the fiber came back.
use gwn_framwork.Base.{ℕ, ◌==◌, Bool, true, false, not, ◌||◌, Option, none, some, if◌then◌else◌}
use gwn_framwork.Fiber.{
  State, hold, term, ready, except, state_eq, Code, ret, throw, idle, run, yield_ready, yield_hold,
  schedule_cb, schedule_fiber, Entry, fresh, suspended, ended, thread_stack, Context, Fiber,
  assertion, Result, ok, fault, ◌>>=◌, Fibers, Tls, read, write, get_this, new_fiber, inc64, dec64,
  reset, swap_in, set_state, yield_to, finish,
}
use gwn_framwork.Scheduler.{Task, Sched, schedule, take_task, stopping}

-- What a fiber is run as: a task of its own, a task that is a callback, or the idle fiber.
pub data Kind : Type 0 where
  as_fiber as_cb as_idle : Kind

-- Where a thread stands in `run`.
pub data Pc : Type 0 where
  picking : Pc
  holding : Task → Pc
  running : Kind → ℕ → Pc
  returned : Kind → ℕ → Pc
  settling : Kind → ℕ → Pc
  stopped : Pc

-- The local variables of `run`, with the thread's id and thread-local pointers.
pub record Worker : Type 0 where
  pub thread_id : ℕ
  pub tls : Tls
  pub idle_fiber : ℕ
  pub cb_fiber : Option ℕ
  pub pc : Pc

abbrev with_fibers : Sched → Fibers → Sched
with_fibers s fs = record s { fibers = fs }

is_root : ℕ → Option ℕ → Bool
is_root me none = false
is_root me (some r) = r == me

this_fiber : Bool → Fibers → Tls → Fibers × Tls
unfolding get_this
this_fiber true fs t = (fs, t)
this_fiber false fs t =
    let (a, fs', t') = get_this fs t in (fs', record t' { scheduler_fiber = some a })

-- The beginning of `run`: the scheduling fiber of the thread, unless it is the root thread, and
-- the idle fiber.
unfoldable pub enter_run : ℕ → Sched → Tls → Sched × Worker
unfolding is_root this_fiber new_fiber
enter_run me s t =
    let (fs, t') = this_fiber (is_root me s.root_thread) s.fibers t in
    let (a, fs') = new_fiber idle 0 false fs in
    (
      with_fibers s fs',
      record { thread_id = me; tls = t'; idle_fiber = a; cb_fiber = none; pc = picking },
    )

-- `getState() != TERM && getState() != EXCEPT`.
unfoldable pub is_alive : State → Bool
unfolding state_eq
is_alive st = not (state_eq st term || state_eq st except)

unfoldable pub fiber_alive : Fibers → Option ℕ → Result Bool
unfolding is_alive
fiber_alive fs none = ok false
fiber_alive fs (some a) = do f ← read fs a; ok (is_alive f.state)

-- `swapIn`, and the thread goes on in the fiber.
unfoldable pub switch_to : Kind → ℕ → Sched → Worker → Result (Sched × Worker)
unfolding swap_in
switch_to kind a s w = do
  (fs, t) ← swap_in a s.fibers w.tls
  ok (with_fibers s fs, record w { tls = t; pc = running kind a })

-- `cb_fiber->reset(ft.cb)`, or a new fiber.
unfoldable pub cb_fiber_for : Code → Option ℕ → Fibers → Result (ℕ × Fibers)
unfolding reset new_fiber
cb_fiber_for c (some a) fs = do fs' ← reset a (some c) fs; ok (a, fs')
cb_fiber_for c none fs = ok (new_fiber c 0 false fs)

unfoldable pub start_cb : Code → Sched → Worker → Result (Sched × Worker)
unfolding cb_fiber_for switch_to
start_cb c s w = do
  (a, fs) ← cb_fiber_for c w.cb_fiber s.fibers
  switch_to as_cb a (with_fibers s fs) (record w { cb_fiber = some a })

-- The last branch: nothing to run.
unfoldable pub start_idle : Sched → Worker → Result (Sched × Worker)
unfolding state_eq switch_to inc64
start_idle s w = do
  f ← read s.fibers w.idle_fiber
  if state_eq f.state term
      then ok (s, record w { pc = stopped })
      else switch_to as_idle w.idle_fiber (record s { idle_count = inc64 s.idle_count }) w

unfoldable pub start_other : Option Code → Sched → Worker → Result (Sched × Worker)
unfolding start_cb start_idle
start_other (some c) s w = start_cb c s w
start_other none s w = start_idle s w

unfoldable pub start_fiber : Option ℕ → Sched → Worker → Result (Sched × Worker)
unfolding switch_to start_idle
start_fiber (some a) s w = switch_to as_fiber a s w
start_fiber none s w = start_idle s w

-- The three branches of `run`, on the task that the thread holds.
unfoldable pub dispatch : Task → Sched → Worker → Result (Sched × Worker)
unfolding start_other start_fiber fiber_alive
dispatch ft s w = do
  alive ← fiber_alive s.fibers ft.fiber
  if alive then start_fiber ft.fiber s w else start_other ft.cb s w

-- What a switch into a fiber executes. An empty callback throws `std::bad_function_call`. Behind
-- the last switch of the entry function stands an assertion that fails.
unfoldable pub next_code : Fiber → Context → Result (Entry × Code)
next_code f (fresh e) = elim f.cb [ none ↦ ok (e, throw) | some c ↦ ok (e, c) ]
next_code f (suspended e c) = ok (e, c)
next_code f ended = fault assertion
next_code f thread_stack = fault assertion

-- The fiber has come back to the thread's scheduling fiber.
unfoldable pub come_back : Kind → ℕ → Sched → Worker → Fibers × Tls → Sched × Worker
come_back kind a s w (fs, t) = (with_fibers s fs, record w { tls = t; pc = returned kind a })

-- The fiber goes on with the rest of its callback.
unfoldable pub go_on : ℕ → Entry → Code → Sched → Worker → Result (Sched × Worker)
go_on a e rest s w = do
  f ← read s.fibers a
  ok (with_fibers s (write s.fibers a (record f { ctx = suspended e rest })), w)

-- One call of a running callback. `Scheduler::run` inside a fiber of the same scheduler is not
-- modelled.
unfoldable pub act : Kind → ℕ → Entry → Code → Sched → Worker → Result (Sched × Worker)
unfolding finish yield_to come_back go_on schedule stopping
act kind a e ret s w = do r ← finish false e s.fibers w.tls; ok (come_back kind a s w r)
act kind a e throw s w = do r ← finish true e s.fibers w.tls; ok (come_back kind a s w r)
act kind a e (yield_ready k) s w = do
  r ← yield_to ready e k s.fibers w.tls
  ok (come_back kind a s w r)
act kind a e (yield_hold k) s w = do
  r ← yield_to hold e k s.fibers w.tls
  ok (come_back kind a s w r)
act kind a e (schedule_cb c th k) s w =
    go_on a e k (schedule (record { fiber = none; cb = some c; thread = th }) s) w
act kind a e (schedule_fiber b th k) s w =
    go_on a e k (schedule (record { fiber = some b; cb = none; thread = th }) s) w
act kind a e idle s w = do
  r ← if stopping s then finish false e s.fibers w.tls else yield_to hold e idle s.fibers w.tls
  ok (come_back kind a s w r)
act kind a e run s w = fault assertion

unfoldable pub run_fiber : Kind → ℕ → Sched → Worker → Result (Sched × Worker)
unfolding next_code act
run_fiber kind a s w = do f ← read s.fibers a; (e, c) ← next_code f f.ctx; act kind a e c s w

-- Back in `run`, where the fiber was run as a task: `--m_activeThreadCount`. As the idle fiber:
-- `--m_idleThreadCount`, and the state HOLD unless it is over.
unfoldable pub count_down : Kind → ℕ → Sched → Worker → Result (Sched × Worker)
unfolding dec64 is_alive set_state
count_down as_idle a s w = do
  f ← read s.fibers a
  fs ← if is_alive f.state then set_state a hold s.fibers else ok s.fibers
  ok (record s { fibers = fs; idle_count = dec64 s.idle_count }, record w { pc = picking })
count_down kind a s w = ok (record s { active = dec64 s.active }, record w { pc = settling kind a })

-- `schedule(fiber)`: on any thread.
abbrev pub fiber_task : ℕ → Task
fiber_task a = record { fiber = some a; cb = none; thread = none }

-- What is done by the state in which a task's fiber came back.
unfoldable pub settle : Kind → ℕ → Sched → Worker → Result (Sched × Worker)
unfolding state_eq is_alive schedule set_state reset
settle as_cb a s w = do
  f ← read s.fibers a
  if state_eq f.state ready
      then ok (schedule (fiber_task a) s, record w { cb_fiber = none; pc = picking })
      else if not (is_alive f.state)
      then (reset a none s.fibers >>= λ fs. ok (with_fibers s fs, record w { pc = picking }))
      else (set_state a hold s.fibers >>= λ fs.
          ok (with_fibers s fs, record w { cb_fiber = none; pc = picking }))
settle kind a s w = do
  f ← read s.fibers a
  if state_eq f.state ready
      then ok (schedule (fiber_task a) s, record w { pc = picking })
      else if is_alive f.state
      then (set_state a hold s.fibers >>= λ fs. ok (with_fibers s fs, record w { pc = picking }))
      else ok (s, record w { pc = picking })

unfoldable pub pick : Sched → Worker → Result (Sched × Worker)
unfolding take_task
pick s w = do (s', ft) ← take_task w.thread_id s; ok (s', record w { pc = holding ft })

-- One step of a thread in `run`; a thread that has left the loop does nothing.
unfoldable pub work : Pc → Sched → Worker → Result (Sched × Worker)
unfolding pick
work picking s w = pick s w
work (holding ft) s w = dispatch ft s w
work (running kind a) s w = run_fiber kind a s w
work (returned kind a) s w = count_down kind a s w
work (settling kind a) s w = settle kind a s w
work stopped s w = ok (s, w)
