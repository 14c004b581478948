-- ===== src/Tests/Fibers.antt =====
-- Switches of one fiber, at concrete inputs.
use gwn_framwork.Base.{◌≡◌, refl, true, false, [], ◌∷◌, none, some}
use gwn_framwork.Fiber.{
  exec, init, ready, ret, fresh, suspended, main_func, thread_stack, Fiber, Fibers, Tls, ok, fault,
  null_pointer, ◌>>=◌, state_eq, write, swap_in, get_this, new_fiber,
}
use gwn_framwork.Fiber.States.{yields_ready, leave_by, swap_in-leave_by, swap_in_without_scheduler}

abbrev main_fiber : Fiber
main_fiber = record {
  id = 0;
  stacksize = 0;
  state = exec;
  ctx = thread_stack;
  stack = false;
  cb = none;
}

abbrev new : Fiber
new = record {
  id = 1;
  stacksize = 1024;
  state = init;
  ctx = fresh main_func;
  stack = true;
  cb = some ret;
}

abbrev fibers : Fibers
fibers = record { heap = main_fiber ∷ new ∷ []; last_id = 1; count = 2; stack_size = 1024 }

abbrev tls : Tls
tls = record { fiber = some 0; thread_fiber = some 0; scheduler_fiber = some 0 }

swap_in-leave_by_example :
    (swap_in 1 fibers tls >>= λ (fs', t'). leave_by (yields_ready ret) fs' t')
    ≡ ok (write fibers 1 (record new { state = ready; ctx = suspended main_func ret }), tls)
unfolding state_eq
swap_in-leave_by_example = swap_in-leave_by 1 new fibers tls 0 (yields_ready ret) refl refl refl

abbrev bare : Tls
bare = record { fiber = none; thread_fiber = none; scheduler_fiber = none }

swap_in_without_scheduler_example :
    (let (m, fs', t') = get_this fibers bare in
      let (a, fs'') = new_fiber ret 0 false fs' in swap_in a fs'' t')
    ≡ fault null_pointer
swap_in_without_scheduler_example = swap_in_without_scheduler ret 0 false fibers bare refl
