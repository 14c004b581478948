-- ===== src/Scheduler/Whole/Root.antt =====
-- A scheduler of the calling thread only, gwn/scheduler.cc, from its constructor to the end of the
-- root fiber's run in `stop`.
use gwn_framwork.Base.{
  ℕ, ◌+◌, ◌%◌, ◌^◌, ◌≡◌, refl, true, false, List, [], ◌∷◌, ◌++◌, none, some, arith, ==_iff, length,
  get_elem?, set, All, get_elem?-lt, get_elem?-set_self, get_elem?-append_self,
  get_elem?-append_left,
}
use gwn_framwork.Fiber.{
  init, exec, state_eq, Code, run, idle, main_func, caller_main_func, fresh, thread_stack, Fiber,
  Fibers, Tls, ok, set_this, call, new_fiber, inc64,
}
use gwn_framwork.Scheduler.{Task, Sched, stopping}
use gwn_framwork.Scheduler.Worker.{picking, Worker, enter_run, next_code}
use gwn_framwork.Scheduler.Control.{returns, calls_root, new_scheduler, start, stop}
use gwn_framwork.Scheduler.Drain.{Home, IsSimpleTask, IsReady, InOrder, cbs, is_waiting}
use gwn_framwork.Scheduler.Drain.Queues.{simple-IsQueue, simple-IsFree}
use gwn_framwork.Scheduler.Drain.Stops.{IsReady-Drains}
use gwn_framwork.Scheduler.Whole.Leaving.{end_root_lem}
use gwn_framwork.Scheduler.Whole.{root_body, run_root}

module _ (me : ℕ) (fs : Fibers) (t : Tls) where
  -- The thread's main fiber and the root fiber, which the constructor makes.
  abbrev main_fiber : Fiber
  main_fiber = record {
    id = 0;
    stacksize = 0;
    state = exec;
    ctx = thread_stack;
    stack = false;
    cb = none;
  }

  abbrev root_fiber : Fiber
  root_fiber = record {
    id = inc64 fs.last_id;
    stacksize = fs.stack_size % 2 ^ 32;
    state = init;
    ctx = fresh caller_main_func;
    stack = true;
    cb = some run;
  }

  abbrev with_main : List Fiber
  with_main = fs.heap ++ main_fiber ∷ []

  abbrev root : ℕ
  root = length with_main

  abbrev made_fibers : Fibers
  made_fibers = record fs {
    heap = with_main ++ root_fiber ∷ [];
    last_id = inc64 fs.last_id;
    count = inc64 (inc64 fs.count);
  }

  abbrev pub made : Sched
  made = record {
    fibers = made_fibers;
    queue = [];
    active = 0;
    idle_count = 0;
    is_stopping = true;
    auto_stop = false;
    thread_count = 0;
    thread_ids = me ∷ [];
    root_thread = some me;
    root_fiber = some root;
    threads = 0;
    tickles = 0;
  }

  abbrev pub made_tls : Tls
  made_tls = record {
    fiber = some (length fs.heap);
    thread_fiber = some (length fs.heap);
    scheduler_fiber = some root;
  }

  pub new_scheduler_lem : t.fiber ≡ none → new_scheduler 1 true false me fs t ≡ ok (made, made_tls)
  unfolding new_scheduler
  new_scheduler_lem no_fiber = rw (no_fiber) refl

  pub start_lem : (id : ℕ → ℕ) → start id made ≡ ok (record made { is_stopping = false })
  unfolding start
  start_lem id = refl

  -- The scheduler when the root fiber is called, with these tasks.
  abbrev pub asked : ℕ → List Task → Sched
  asked k q = record made { queue = q; auto_stop = true; tickles = k }

  pub stop_empty :
      (k : ℕ)
      → stop true (record made { is_stopping = false; tickles = k }) ≡ ok (asked k [], returns)
  unfolding stop stopping
  stop_empty k = rw (get_elem?-append_self with_main root_fiber) refl

  pub stop_waiting :
      (k : ℕ) (ft : Task) (q : List Task)
      → stop true (record made { is_stopping = false; queue = ft ∷ q; tickles = k })
        ≡ ok (asked (k + 1) (ft ∷ q), calls_root)
  unfolding stop stopping
  stop_waiting k ft q = rw (get_elem?-append_self with_main root_fiber) refl

  -- The root fiber in its run, and the idle fiber that it makes.
  abbrev called : Fiber
  called = record root_fiber { state = exec }

  abbrev called_fibers : Fibers
  called_fibers = record made_fibers { heap = set (with_main ++ root_fiber ∷ []) root called }

  abbrev called_tls : Tls
  called_tls = set_this (some root) made_tls

  abbrev idle_fiber : Fiber
  idle_fiber = record {
    id = inc64 called_fibers.last_id;
    stacksize = fs.stack_size % 2 ^ 32;
    state = init;
    ctx = fresh main_func;
    stack = true;
    cb = some idle;
  }

  abbrev entered : ℕ → List Task → Sched
  entered k q = record (asked k q) {
    fibers = record called_fibers {
      heap = called_fibers.heap ++ idle_fiber ∷ [];
      last_id = inc64 called_fibers.last_id;
      count = inc64 called_fibers.count;
    };
  }

  abbrev worker : Worker
  worker = record {
    thread_id = me;
    tls = called_tls;
    idle_fiber = length called_fibers.heap;
    cb_fiber = none;
    pc = picking;
  }

  enter_run_lem :
      (k : ℕ) (q : List Task)
      → enter_run me (record (asked k q) { fibers = called_fibers }) called_tls
        ≡ (entered k q, worker)
  unfolding enter_run new_fiber
  enter_run_lem k q = rw ((==_iff me me).1 refl) refl

  abbrev home : Home
  home = record { address = root; fiber = called; main = some (length fs.heap) }

  root_there : get_elem? called_fibers.heap root ≡ some called
  root_there = get_elem?-set_self (with_main ++ root_fiber ∷ []) root called (
      get_elem?-lt (with_main ++ root_fiber ∷ []) root (get_elem?-append_self with_main root_fiber))

  entered-IsReady :
      (k : ℕ) (q : List Task) → All (IsSimpleTask me) q → IsReady home (cbs q) (entered k q) worker
  unfolding next_code state_eq is_waiting
  entered-IsReady k q simple =
      let below = get_elem?-lt called_fibers.heap root root_there in
      record {
        at = refl;
        active = refl;
        auto = refl;
        asked = refl;
        queue = simple-IsQueue me (entered k q).fibers q simple;
        free_idle = simple-IsFree me worker.idle_fiber q simple;
        free_cb = tt;
        scheduler = refl;
        main = refl;
        apart = record {
          home = get_elem?-append_left called_fibers.heap (idle_fiber ∷ []) root root_there;
          busy = refl;
          not_idle = λ e. absurd (omega arith);
          has_idle =
              (idle_fiber, get_elem?-append_self called_fibers.heap idle_fiber, (refl, refl, refl));
        };
        has_cb = tt;
      }

  -- The root fiber runs the loop, to its end.
  pub run_root_lem :
      (k : ℕ) (q : List Task)
      → All (IsSimpleTask me) q
      → (n : ℕ) × (cs : List Code) × (s' : Sched) × (t' : Tls) × (run_root n me root
            (asked k q)
            made_tls
          ≡ ok (cs, s', t'))
        × InOrder (cbs q) cs
        × (s'.queue ≡ [])
        × (s'.active ≡ 0)
        × (s'.is_stopping ≡ true)
  unfolding run_root root_body next_code call state_eq
  run_root_lem k q simple =
      let (cs, order, (n, s₁, w₁, e, trace, d)) =
        IsReady-Drains home (cbs q) (entered k q) worker (entered-IsReady k q simple) in
      let (s', t', e', queue, active, stopping') =
        end_root_lem root (length fs.heap) called s₁ w₁ d in
      (
        n,
        cs,
        s',
        t',
        rw (get_elem?-append_self with_main root_fiber, enter_run_lem k q, e, e', trace) refl,
        order,
        queue,
        active,
        stopping',
      )
