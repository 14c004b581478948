-- ===== src/Tests/Tally.antt =====
-- The tasks of two runs, at concrete inputs: one that drops a task, and one to its end.
use gwn_framwork.Base.{
  ℕ, zero, suc, ◌+◌, ◌≡◌, refl, Bool, [], ◌∷◌, ◌++◌, none, some, arith, ok, fault, length,
}
use gwn_framwork.Fiber.{ret, throw}
use gwn_framwork.Scheduler.{Task, Sched, is_some, schedule, stopping}
use gwn_framwork.Scheduler.Worker.{Worker, work, dispatch, run_fiber, count_down, settle, enter_run}
use gwn_framwork.Scheduler.System.{System, works, schedules, enters, Run, here, more}
use gwn_framwork.Scheduler.Tally.{count, all_held, scheduled, begun, lost}
use gwn_framwork.Scheduler.Tally.Runs.{Run-tally, stopping-begun}
use gwn_framwork.Scheduler.Tally.Order.{taken, Run-order}
use gwn_framwork.Tests.Scheduling.{quiet, main_tls, alone, after_drop, drop-Run}

Run-tally_example :
    ((p : Task → Bool)
      → count p alone.sched.queue + count p (all_held alone.workers) + count p (scheduled drop-Run)
        ≡ count p after_drop.sched.queue
          + count p (all_held after_drop.workers)
          + count p (begun drop-Run)
          + count p (lost drop-Run))
    × (length (lost drop-Run) ≡ 1)
Run-tally_example = Run-tally drop-Run

-- A callback that throws, and a thread that works it off.
abbrev thrower : Task
thrower = record { fiber = none; cb = some throw; thread = none }

abbrev next : Sched × Worker → Sched × Worker
next (s, w) = elim (work w.pc s w) [ ok r ↦ r | fault e ↦ (s, w) ]

abbrev at : ℕ → Sched × Worker
at zero = enter_run 7 (schedule thrower quiet) main_tls
at (suc n) = next (at n)

abbrev behind : ℕ → System
behind n = record { sched = (at n).0; workers = (at n).1 ∷ [] }

entering : Run alone 0 (behind 0)
entering = more (more here (schedules thrower refl refl) refl) (enters 7 main_tls refl refl) refl

-- It takes the task, begins it, runs it, counts down, and looks at the state of its fiber.
to_end : Run alone 0 (behind 5)
unfolding schedule enter_run work dispatch run_fiber count_down settle
to_end =
    more
      (more
        (more
          (more (more entering (works 0 (at 0).1 (at 1).1 (at 1).0 refl refl refl refl) refl)
            (works 0 (at 1).1 (at 2).1 (at 2).0 refl refl refl refl) refl)
          (works 0 (at 2).1 (at 3).1 (at 3).0 refl refl refl refl) refl)
        (works 0 (at 3).1 (at 4).1 (at 4).0 refl refl refl refl) refl)
      (works 0 (at 4).1 (at 5).1 (at 5).0 refl refl refl refl) refl

stopping-begun_example :
    count (λ ft. is_some ft.cb) (begun to_end) ≡ count (λ ft. is_some ft.cb) (scheduled to_end)
unfolding schedule enter_run work dispatch run_fiber count_down settle stopping
stopping-begun_example =
    stopping-begun to_end (λ ft. is_some ft.cb) refl refl refl (omega arith) refl

-- Two callbacks, of which the thread takes the first one.
abbrev second : Task
second = record { fiber = none; cb = some ret; thread = none }

abbrev looking : Sched × Worker
looking = enter_run 7 (schedule second (schedule thrower quiet)) main_tls

abbrev holding_first : System
holding_first = record { sched = (next looking).0; workers = (next looking).1 ∷ [] }

taking : Run alone 0 holding_first
unfolding schedule enter_run work
taking =
    more
      (more (more (more here (schedules thrower refl refl) refl) (schedules second refl refl) refl)
        (enters 7 main_tls refl refl) refl)
      (works 0 looking.1 (next looking).1 (next looking).0 refl refl refl refl) refl

Run-order_example :
    alone.sched.queue ++ scheduled taking ≡ taken taking ++ holding_first.sched.queue
unfolding taking
Run-order_example = Run-order taking tt ((refl, refl), ((refl, refl), tt))
