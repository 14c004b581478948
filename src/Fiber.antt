-- ===== src/Fiber.antt =====
-- gwn/fiber.h and gwn/fiber.cc: fibers, the thread-local pointers, and the switches between them.
-- A fiber is named by its address in a heap. A callback is a script of the calls that it makes
-- into this library. `getcontext`, `makecontext`, `swapcontext` and `malloc` succeed.
pub mod States
use gwn_framwork.Base.{
  ℕ, ◌+◌, ◌-◌, ◌%◌, ◌^◌, Bool, true, false, not, ◌&&◌, ◌||◌, List, [], ◌∷◌, ◌++◌, Option, none,
  some, ◌==◌, if◌then◌else◌, length, get_elem?, set,
}
pub use gwn_framwork.Base.{
  Fault, assertion, null_pointer, Result, ok, fault, ◌>>=◌, ◌>>◌, >>=-eq-ok, assert, deref,
}

-- `Fiber::State`.
pub data State : Type 0 where
  init hold exec term ready except : State

unfoldable pub state_eq : State → State → Bool
state_eq init init = true
state_eq hold hold = true
state_eq exec exec = true
state_eq term term = true
state_eq ready ready = true
state_eq except except = true
state_eq _ _ = false

-- What a callback does: it returns, throws, yields and goes on, or schedules a callback or a fiber,
-- on a given thread or on any (`none`, for -1), and goes on. `idle` is `Scheduler::idle`, and `run`
-- is `Scheduler::run`.
pub data Code : Type 0 where
  ret throw idle run : Code
  yield_ready yield_hold : Code → Code
  schedule_cb : Code → Option ℕ → Code → Code
  schedule_fiber : ℕ → Option ℕ → Code → Code

-- The function that `makecontext` sets.
pub data Entry : Type 0 where
  main_func caller_main_func : Entry

-- Where a switch into a fiber goes on: at its entry function, in its callback, behind the last
-- switch of its entry function, or in a thread's own stack.
pub data Context : Type 0 where
  fresh : Entry → Context
  suspended : Entry → Code → Context
  ended : Context
  thread_stack : Context

pub record Fiber : Type 0 where
  pub id : ℕ
  pub stacksize : ℕ
  pub state : State
  pub ctx : Context
  pub stack : Bool
  pub cb : Option Code

-- The heap of fibers, `s_fiber_id`, `s_fiber_count` and the configured stack size.
pub record Fibers : Type 0 where
  pub heap : List Fiber
  pub last_id : ℕ
  pub count : ℕ
  pub stack_size : ℕ

-- `t_fiber`, `t_threadFiber` and the scheduler's `t_scheduler_fiber` of one thread.
pub record Tls : Type 0 where
  pub fiber : Option ℕ
  pub thread_fiber : Option ℕ
  pub scheduler_fiber : Option ℕ

abbrev pub read : Fibers → ℕ → Result Fiber
read fs a = deref (get_elem? fs.heap a)

abbrev pub write : Fibers → ℕ → Fiber → Fibers
write fs a f = record fs { heap = set fs.heap a f }

-- `++` and `--` on a uint64_t.
unfoldable pub inc64 : ℕ → ℕ
inc64 n = (n + 1) % 2 ^ 64

unfoldable pub dec64 : ℕ → ℕ
dec64 n = (n + 2 ^ 64 - 1) % 2 ^ 64

id_or_zero : Fibers → Option ℕ → Result ℕ
id_or_zero fs none = ok 0
id_or_zero fs (some a) = do f ← read fs a; ok f.id

-- `Fiber::GetFiberId`.
pub get_fiber_id : Fibers → Tls → Result ℕ
unfolding id_or_zero
get_fiber_id fs t = id_or_zero fs t.fiber

-- `Fiber::SetThis`.
abbrev pub set_this : Option ℕ → Tls → Tls
set_this f t = record t { fiber = f }

-- The constructor of a thread's main fiber.
unfoldable pub new_main : Fibers → Tls → ℕ × Fibers × Tls
new_main fs t =
    let a = length fs.heap in
    (
      a,
      record fs {
        heap =
            fs.heap
            ++ (record {
              id = 0;
              stacksize = 0;
              state = exec;
              ctx = thread_stack;
              stack = false;
              cb = none;
            }
                ∷ []);
        count = inc64 fs.count;
      },
      set_this (some a) t,
    )

this_or_main : Fibers → Tls → Option ℕ → ℕ × Fibers × Tls
this_or_main fs t (some a) = (a, fs, t)
this_or_main fs t none =
    let (a, fs', t') = new_main fs t in (a, fs', record t' { thread_fiber = some a })

-- `Fiber::GetThis`: it makes the thread's main fiber at the first call.
unfoldable pub get_this : Fibers → Tls → ℕ × Fibers × Tls
unfolding this_or_main new_main
get_this fs t = this_or_main fs t t.fiber

-- The constructor with a callback. `m_stacksize` is a uint32_t.
unfoldable pub new_fiber : Code → ℕ → Bool → Fibers → ℕ × Fibers
new_fiber cb stacksize use_caller fs = (
  length fs.heap,
  record fs {
    heap =
        fs.heap
        ++ (record {
          id = inc64 fs.last_id;
          stacksize = (if stacksize == 0 then fs.stack_size else stacksize) % 2 ^ 32;
          state = init;
          ctx = fresh (if use_caller then caller_main_func else main_func);
          stack = true;
          cb = some cb;
        }
            ∷ []);
    last_id = inc64 fs.last_id;
    count = inc64 fs.count;
  },
)

-- `m_state == TERM || m_state == EXCEPT || m_state == INIT`.
unfoldable pub is_over : State → Bool
unfolding state_eq
is_over s = state_eq s term || state_eq s except || state_eq s init

-- `Fiber::reset`.
unfoldable pub reset : ℕ → Option Code → Fibers → Result Fibers
unfolding is_over
reset a cb fs = do
  f ← read fs a
  assert f.stack
  assert (is_over f.state)
  ok (write fs a (record f { cb = cb; ctx = fresh main_func; state = init }))

-- `Fiber::swapIn`, up to the switch. The context of the thread's scheduling fiber is written.
unfoldable pub swap_in : ℕ → Fibers → Tls → Result (Fibers × Tls)
unfolding state_eq
swap_in a fs t = do
  f ← read fs a
  assert (not (state_eq f.state exec))
  s ← deref t.scheduler_fiber
  ok (write fs a (record f { state = exec }), set_this (some a) t)

-- `Fiber::swapOut` from a fiber that goes on at `ctx` when it is next switched to.
unfoldable pub swap_out : ℕ → Context → Fibers → Tls → Result (Fibers × Tls)
swap_out a ctx fs t = do
  f ← read fs a
  s ← deref t.scheduler_fiber
  ok (write fs a (record f { ctx = ctx }), set_this t.thread_fiber t)

-- `Fiber::call`, up to the switch.
unfoldable pub call : ℕ → Fibers → Tls → Result (Fibers × Tls)
unfolding state_eq
call a fs t = do
  f ← read fs a
  assert (not (state_eq f.state exec))
  m ← deref t.thread_fiber
  ok (write fs a (record f { state = exec }), set_this (some a) t)

-- `Fiber::back`.
unfoldable pub back : ℕ → Context → Fibers → Tls → Result (Fibers × Tls)
back a ctx fs t = do
  f ← read fs a
  m ← deref t.thread_fiber
  ok (write fs a (record f { ctx = ctx }), set_this t.thread_fiber t)

-- `Fiber::setState`.
unfoldable pub set_state : ℕ → State → Fibers → Result Fibers
set_state a s fs = do f ← read fs a; ok (write fs a (record f { state = s }))

-- The common body of `YieldToReady` and `YieldToHold`: the running fiber, which goes on with `rest`.
unfoldable pub yield_to : State → Entry → Code → Fibers → Tls → Result (Fibers × Tls)
unfolding get_this state_eq swap_out
yield_to s entry rest fs t = do
  let (a, fs', t') = get_this fs t
  f ← read fs' a
  assert (state_eq f.state exec)
  swap_out a (suspended entry rest) (write fs' a (record f { state = s })) t'

leave : Entry → ℕ → Fibers → Tls → Result (Fibers × Tls)
unfolding swap_out back
leave main_func a fs t = swap_out a ended fs t
leave caller_main_func a fs t = back a ended fs t

-- The end of `MainFunc` and `CallerMainFunc`: the callback returned, or it threw.
unfoldable pub finish : Bool → Entry → Fibers → Tls → Result (Fibers × Tls)
unfolding get_this leave
finish threw entry fs t = do
  let (a, fs', t') = get_this fs t
  f ← read fs' a
  leave entry a
      (write fs' a
        (if threw then record f { state = except } else record f { state = term; cb = none }))
      t'

is_this : Option ℕ → ℕ → Bool
is_this none a = false
is_this (some b) a = b == a

no_cb : Option Code → Bool
no_cb none = true
no_cb (some c) = false

-- `Fiber::~Fiber`, at the fiber's last reference: the count, the assertions, and `t_fiber`, which
-- a main fiber clears. The heap cell is left as it is.
unfoldable pub destroy : ℕ → Fibers → Tls → Result (Fibers × Tls)
unfolding is_over state_eq is_this no_cb
destroy a fs t = do
  f ← read fs a
  let main = not f.stack
  assert (if main then no_cb f.cb && state_eq f.state exec else is_over f.state)
  ok (
    record fs { count = dec64 fs.count },
    if main && is_this t.fiber a then set_this none t else t,
  )

-- `Fiber::TotalFibers`.
unfoldable pub total_fibers : Fibers → ℕ
total_fibers fs = fs.count
