-- ===== src/Scheduler/Drain/Starts.antt =====
-- The first task of the queue of a thread that drains it: it is taken, and entered.
use gwn_framwork.Base.{
  ℕ, is_empty, ◌≡◌, refl, ◌∙◌, Bool, true, false, not, List, ◌∷◌, Option, some, ok, arith,
  get_elem?-lt, get_elem?-set_self,
}
use gwn_framwork.Fiber.{
  State, init, hold, exec, term, ready, except, state_eq, Code, fresh, suspended, ended,
  thread_stack, Context, Fiber, Fibers, write, set_this, inc64,
}
use gwn_framwork.Fiber.States.{swap_in_lem}
use gwn_framwork.Scheduler.{Task, Sched, take_task, is_foreign, is_executing, has_work, tickle_if}
use gwn_framwork.Scheduler.Worker.{
  Worker, Kind, as_cb, as_fiber, as_idle, running, next_code, work, switch_to, is_alive,
}
use gwn_framwork.Scheduler.Drain.{
  is_waiting, IsJob, is_callback, is_fiber, Home, RunsAs, IsEntering, IsRunning, own-not_foreign,
  tickle_if-keeps,
}
use gwn_framwork.Scheduler.Drain.Queues.{IsQueue-write, IsApart-write, HasCbFiber-write}

pub waiting-not_exec : (st : State) → is_waiting st ≡ true → state_eq st exec ≡ false
unfolding is_waiting state_eq
waiting-not_exec init h = refl
waiting-not_exec hold h = refl
waiting-not_exec ready h = refl
waiting-not_exec exec h = ground arith
waiting-not_exec term h = ground arith
waiting-not_exec except h = ground arith

pub waiting-is_alive : (st : State) → is_waiting st ≡ true → is_alive st ≡ true
unfolding is_waiting is_alive
waiting-is_alive init h = refl
waiting-is_alive hold h = refl
waiting-is_alive ready h = refl
waiting-is_alive exec h = ground arith
waiting-is_alive term h = ground arith
waiting-is_alive except h = ground arith

job_can_be_taken :
    (me : ℕ) (fs : Fibers) (ft : Task) (c : Code)
    → IsJob me fs ft c
    → (is_foreign me ft.thread ≡ false)
      × (has_work ft ≡ true)
      × (is_executing fs ft.fiber ≡ ok false)
unfolding is_executing
job_can_be_taken me fs ft c (is_callback no_fiber has_cb own) =
    (own-not_foreign me ft.thread own, rw (no_fiber, has_cb) refl, rw (no_fiber) refl)
job_can_be_taken me fs ft c (is_fiber a g has own there waits next) = (
  own-not_foreign me ft.thread own,
  rw (has) refl,
  rw (has, there, waiting-not_exec g.state waits) refl,
)

-- The first entry of a queue of jobs is taken.
pub take_task_first :
    (ft : Task) (c : Code) (fts : List Task) (s : Sched) (w : Worker)
    → s.queue ≡ ft ∷ fts
    → s.active ≡ 0
    → IsJob w.thread_id s.fibers ft c
    → (s' : Sched) × (take_task w.thread_id s ≡ ok (s', ft))
      × (s'.queue ≡ fts)
      × (s'.active ≡ 1)
      × (s'.fibers ≡ s.fibers)
      × (s'.auto_stop ≡ s.auto_stop)
      × (s'.is_stopping ≡ s.is_stopping)
unfolding take_task inc64
take_task_first ft c fts s w queue active job =
    let (own, work, free) = job_can_be_taken w.thread_id s.fibers ft c job in
    let taken = record s { queue = fts; active = inc64 s.active } in
    let (q, a, f, au, st) = tickle_if-keeps (not (is_empty fts)) taken in
    (
      tickle_if (not (is_empty fts)) taken,
      rw (queue, own, work, free) refl,
      q,
      a ∙ rw (active) refl,
      f,
      au,
      st,
    )

pub RunsAs-write :
    (kind : Kind) (a : ℕ) (stack : Bool) (h : ℕ) (fs : Fibers) (i : ℕ) (o : Option ℕ) (g : Fiber)
    → RunsAs kind a stack h fs i o
    → RunsAs kind a stack h (write fs a g) i o
RunsAs-write as_cb a stack h fs i o g r = r
RunsAs-write as_fiber a stack h fs i o g (cb, ne) = (HasCbFiber-write h fs i a g o ne cb, ne)
RunsAs-write as_idle a stack h fs i o g r = r

pub next_code_exec :
    (f : Fiber) (ctx : Context) → next_code (record f { state = exec }) ctx ≡ next_code f ctx
unfolding next_code
next_code_exec f (fresh e) = refl
next_code_exec f (suspended e c) = refl
next_code_exec f ended = refl
next_code_exec f thread_stack = refl

module _ (h : Home) (kind : Kind) (c : Code) (a : ℕ) (g : Fiber) (cs : List Code) (s : Sched)
    (w : Worker) where
  abbrev pub executing : Fiber
  executing = record g { state = exec }

  abbrev pub after_switch : Sched
  after_switch = record s { fibers = write s.fibers a executing }

  abbrev pub in_fiber : Worker
  in_fiber = record w { tls = set_this (some a) w.tls; pc = running kind a }

  -- The fiber is entered.
  pub enter_lem :
      IsEntering h kind c a g cs s w
      → state_eq g.state exec ≡ false
      → (switch_to kind a s w ≡ ok (after_switch, in_fiber))
        × IsRunning h kind c a executing cs after_switch in_fiber
  unfolding switch_to
  enter_lem e not_exec = (
    rw (swap_in_lem a g s.fibers w.tls h.address e.there e.scheduler not_exec) refl,
    record {
      at = refl;
      this = refl;
      executing = refl;
      entered = record {
        active = e.active;
        auto = e.auto;
        asked = e.asked;
        queue = IsQueue-write w.thread_id s.fibers a executing s.queue cs e.free e.queue;
        free = e.free;
        free_idle = e.free_idle;
        free_cb = e.free_cb;
        goes_on = e.goes_on;
        scheduler = e.scheduler;
        main = e.main;
        apart = IsApart-write h s.fibers w.idle_fiber a executing e.not_home e.other e.apart;
        not_home = e.not_home;
        other = e.other;
        runs_as =
            RunsAs-write kind a g.stack h.address s.fibers w.idle_fiber w.cb_fiber executing
              e.runs_as;
        there = get_elem?-set_self s.fibers.heap a executing (get_elem?-lt s.fibers.heap a e.there);
        next = next_code_exec g g.ctx ∙ e.next;
      };
    },
  )
