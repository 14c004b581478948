-- ===== src/Tests/Crew.antt =====
-- A crew of two threads and a callback, at a concrete input.
use gwn_framwork.Base.{◌≡◌, refl, [], ◌∷◌, ◌++◌, none, some, inl}
use gwn_framwork.Fiber.{ok, ret, yield_ready}
use gwn_framwork.Scheduler.{Task, Sched, schedule}
use gwn_framwork.Scheduler.Worker.{Worker, work, enter_run}
use gwn_framwork.Scheduler.System.{System}
use gwn_framwork.Scheduler.Crew.Safety.{Moves, here, more, schedules, enters, Moves-work}
use gwn_framwork.Tests.Scheduling.{quiet, main_tls}

abbrev yielding : Task
yielding = record { fiber = none; cb = some (yield_ready ret); thread = none }

abbrev nobody : System
nobody = record { sched = quiet; workers = [] }

abbrev waiting : System
waiting = record { sched = schedule yielding quiet; workers = [] }

abbrev one_in : System
one_in = record {
  sched = (enter_run 7 waiting.sched main_tls).0;
  workers = (enter_run 7 waiting.sched main_tls).1 ∷ [];
}

abbrev two_in : System
two_in = record {
  sched = (enter_run 8 one_in.sched main_tls).0;
  workers = one_in.workers ++ (enter_run 8 one_in.sched main_tls).1 ∷ [];
}

two_in-Moves : Moves nobody two_in
unfolding schedule enter_run
two_in-Moves =
    more
      (more (more here (schedules yielding (yield_ready ret, refl, refl, tt) refl))
        (enters 7 main_tls (inl (λ e. cc)) refl))
      (enters 8 main_tls (inl (λ e. cc)) refl)

Moves-work_example :
    (s' : Sched) × (w' : Worker) × (work
        (enter_run 8 one_in.sched main_tls).1.pc
        two_in.sched
        (enter_run 8 one_in.sched main_tls).1
      ≡ ok (s', w'))
Moves-work_example =
    Moves-work nobody two_in 1 (enter_run 8 one_in.sched main_tls).1 refl refl two_in-Moves refl
