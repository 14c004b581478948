-- ===== src/Tests/Draining.antt =====
-- Tasks to run, on a thread that drains the queue and in a whole program.
use gwn_framwork.Base.{unsome, ℕ, List, All, ◌++◌, refl, arith, [], ◌∷◌, none, some}
use gwn_framwork.Fiber.{
  Code, Fiber, main_func, suspended, ready, yield_ready, yield_hold, Fibers, Tls, state_eq, ret,
  throw, schedule_cb,
}
use gwn_framwork.Scheduler.{Task, Sched}
use gwn_framwork.Scheduler.Worker.{next_code}
use gwn_framwork.Scheduler.Drain.{
  Home, IsReady, Drains, IsSimpleTask, is_callback, is_fiber, is_waiting,
}
use gwn_framwork.Scheduler.Drain.Stops.{IsReady-Drains}
use gwn_framwork.Scheduler.Whole.Ends.{Ends, use_scheduler-Ends}
use gwn_framwork.Tests.Scheduling.{main_fiber, quiet, three_fibers, idle_fiber, worker}

-- A callback that schedules one that throws and yields, one for this thread, and a fiber that waits.
abbrev two_callbacks : List Task
two_callbacks =
    record { fiber = none; cb = some (schedule_cb throw (some 7) (yield_ready ret)); thread = none }
    ∷ record { fiber = none; cb = some ret; thread = some 7 }
    ∷ []

abbrev paused : Fiber
paused = record idle_fiber { id = 3; state = ready; ctx = suspended main_func (yield_hold ret) }

abbrev three_tasks : Sched
three_tasks = record quiet {
  fibers = record three_fibers { heap = three_fibers.heap ++ paused ∷ [] };
  queue = two_callbacks ++ record { fiber = some 3; cb = none; thread = none } ∷ [];
}

abbrev home : Home
home = record { address = 0; fiber = main_fiber; main = some 0 }

abbrev codes : List Code
codes = schedule_cb throw (some 7) (yield_ready ret) ∷ ret ∷ yield_hold ret ∷ []

three_tasks-IsReady : IsReady home codes three_tasks worker
unfolding next_code state_eq is_waiting
three_tasks-IsReady = record {
  at = refl;
  active = refl;
  auto = refl;
  asked = refl;
  queue = (
    is_callback refl refl tt,
    (tt, refl, tt),
    tt,
    (is_callback refl refl refl, tt, tt, (is_fiber 3 paused refl tt refl refl refl, tt, tt, tt)),
  );
  free_idle = (λ e. cc, (λ e. cc, (λ e. absurd (omega (arith, unsome e)), tt)));
  free_cb = tt;
  scheduler = refl;
  main = refl;
  apart = record {
    home = refl;
    busy = refl;
    not_idle = λ e. absurd (omega arith);
    has_idle = (idle_fiber, refl, (refl, refl, refl));
  };
  has_cb = tt;
}

IsReady-Drains_example : Drains home three_tasks worker codes
IsReady-Drains_example = IsReady-Drains home codes three_tasks worker three_tasks-IsReady

two_callbacks-IsSimple : All (IsSimpleTask 7) two_callbacks
two_callbacks-IsSimple = (
  (schedule_cb throw (some 7) (yield_ready ret), refl, refl, tt, (tt, refl, tt)),
  ((ret, refl, refl, refl, tt), tt),
)

-- The same callbacks on a thread with no fiber yet, in a program from constructor to destructor.
abbrev no_fibers : Fibers
no_fibers = record { heap = []; last_id = 0; count = 0; stack_size = 1024 }

abbrev no_tls : Tls
no_tls = record { fiber = none; thread_fiber = none; scheduler_fiber = none }

use_scheduler-Ends_example : (n : ℕ) × Ends 7 100 (λ i. i) no_fibers no_tls n two_callbacks
use_scheduler-Ends_example =
    use_scheduler-Ends 7 100 (λ i. i) no_fibers no_tls two_callbacks refl two_callbacks-IsSimple
