-- ===== src/Tests/Scheduling.antt =====
-- A scheduler with one thread, at concrete inputs.
use gwn_framwork.Base.{◌+◌, ◌≡◌, refl, true, false, [], ◌∷◌, none, some, arith}
use gwn_framwork.Fiber.{
  exec, term, init, ret, fresh, idle, main_func, ended, thread_stack, Fiber, Fibers, Tls, ok, inc64,
  set_this,
}
use gwn_framwork.Scheduler.{Task, Sched, schedule, take_task, stopping}
use gwn_framwork.Scheduler.Queue.{Takes, take_task-Takes}
use gwn_framwork.Scheduler.Worker.{
  as_idle, picking, holding, running, Worker, enter_run, work, dispatch,
}
use gwn_framwork.Scheduler.System.{
  System, Step, works, enters, schedules, Run, here, more, total, Run-IsBalanced,
  dropped_never_stops,
}

abbrev pub main_fiber : Fiber
main_fiber = record {
  id = 0;
  stacksize = 0;
  state = exec;
  ctx = thread_stack;
  stack = false;
  cb = none;
}

-- A fiber that has ended.
abbrev pub over : Fiber
over = record { id = 1; stacksize = 1024; state = term; ctx = ended; stack = true; cb = none }

abbrev pub idle_fiber : Fiber
idle_fiber = record {
  id = 2;
  stacksize = 1024;
  state = init;
  ctx = fresh main_func;
  stack = true;
  cb = some idle;
}

abbrev pub two_fibers : Fibers
two_fibers = record { heap = main_fiber ∷ over ∷ []; last_id = 1; count = 2; stack_size = 1024 }

abbrev pub three_fibers : Fibers
three_fibers = record {
  heap = main_fiber ∷ over ∷ idle_fiber ∷ [];
  last_id = 2;
  count = 3;
  stack_size = 1024;
}

abbrev pub main_tls : Tls
main_tls = record { fiber = some 0; thread_fiber = some 0; scheduler_fiber = none }

abbrev pub tls : Tls
tls = record main_tls { scheduler_fiber = some 0 }

abbrev pub quiet : Sched
quiet = record {
  fibers = two_fibers;
  queue = [];
  active = 0;
  idle_count = 0;
  is_stopping = true;
  auto_stop = true;
  thread_count = 0;
  thread_ids = [];
  root_thread = none;
  root_fiber = none;
  threads = 0;
  tickles = 0;
}

abbrev pub over_task : Task
over_task = record { fiber = some 1; cb = none; thread = none }

abbrev cb_task : Task
cb_task = record { fiber = none; cb = some ret; thread = some 7 }

abbrev other_task : Task
other_task = record { fiber = none; cb = some ret; thread = some 8 }

abbrev pub worker : Worker
worker = record { thread_id = 7; tls = tls; idle_fiber = 2; cb_fiber = none; pc = picking }

abbrev pub alone : System
alone = record { sched = quiet; workers = [] }

-- The ended fiber is scheduled, a thread comes in, takes it, and drops it.
abbrev scheduled : Sched
scheduled = record quiet { queue = over_task ∷ []; tickles = 1 }

abbrev entered : Sched
entered = record scheduled { fibers = three_fibers }

abbrev taken : Sched
taken = record entered { queue = []; active = 1 }

abbrev idling : Sched
idling = record taken {
  fibers = record three_fibers {
    heap = main_fiber ∷ over ∷ record idle_fiber { state = exec } ∷ [];
  };
  idle_count = 1;
}

abbrev idler : Worker
idler = record worker { tls = set_this (some 2) tls; pc = running as_idle 2 }

abbrev pub after_drop : System
after_drop = record { sched = idling; workers = idler ∷ [] }

schedule-Step : Step alone 0 (record { sched = scheduled; workers = [] })
schedule-Step = schedules over_task refl (unfold schedule in refl)

enter-Step :
    Step
      (record { sched = scheduled; workers = [] })
      0
      (record { sched = entered; workers = worker ∷ [] })
unfolding inc64
enter-Step = enters 7 main_tls refl (unfold enter_run in refl)

take-Step :
    Step
      (record { sched = entered; workers = worker ∷ [] })
      0
      (record { sched = taken; workers = record worker { pc = holding over_task } ∷ [] })
take-Step =
    works 0 worker (record worker { pc = holding over_task }) taken refl (unfold work in refl) refl
      refl

drop-Step :
    Step
      (record { sched = taken; workers = record worker { pc = holding over_task } ∷ [] })
      1
      after_drop
unfolding work dispatch
drop-Step = works 0 (record worker { pc = holding over_task }) idler idling refl refl refl refl

pub drop-Run : Run alone 1 after_drop
drop-Run =
    more (more (more (more here schedule-Step refl) enter-Step refl) take-Step refl) drop-Step refl

Run-IsBalanced_example : idling.active ≡ total (idler ∷ []) + 1
Run-IsBalanced_example = Run-IsBalanced 0 drop-Run refl (omega arith)

dropped_never_stops_example : stopping idling ≡ false
dropped_never_stops_example = dropped_never_stops drop-Run refl (omega arith) (omega arith)

-- An entry for another thread, and one for this thread behind it.
abbrev busy : Sched
busy = record quiet { queue = other_task ∷ cb_task ∷ [] }

take_task-Takes_example :
    (s' : Sched) × (ft : Task) × (take_task 7 busy ≡ ok (s', ft)) × Takes 7 busy s' ft
unfolding take_task
take_task-Takes_example =
    take_task-Takes 7 busy ((refl, (false, refl)), ((refl, (false, refl)), tt))

abbrev holder : Worker
holder = record worker { pc = holding over_task }

drop_work : work holder.pc taken holder ≡ ok (idling, idler)
unfolding work dispatch
drop_work = refl
