-- ===== src/Scheduler/Crew.antt =====
-- The threads in `run` of gwn/scheduler.cc with the fibers that each of them has in hand.
pub mod Frames
pub mod Queues
pub mod Picking
pub mod Entering
pub mod Starting
pub mod Running
pub mod Returning
pub mod Settling
pub mod Steps
pub mod Safety
use gwn_framwork.Base.{
  ℕ, ◌≡◌, ◌≢◌, ◌⊎◌, ◌==◌, if◌then◌else◌, Bool, true, List, [], ◌∷◌, Option, none, some, ok,
  get_elem?,
}
use gwn_framwork.Fiber.{
  exec, term, is_over, Code, ret, throw, idle, yield_ready, yield_hold, schedule_cb, main_func,
  Fiber, Fibers,
}
use gwn_framwork.Fiber.States.{Leaving, left}
use gwn_framwork.Scheduler.{Task}
use gwn_framwork.Scheduler.Worker.{
  Worker, Kind, as_cb, as_fiber, as_idle, picking, holding, running, returned, settling, stopped,
  next_code,
}
use gwn_framwork.Scheduler.Drain.{is_waiting, IsFreeOf}
use gwn_framwork.Scheduler.Drain.Callbacks.{code_of}

-- Who may write a fiber: nobody while it is in the queue, or the thread that entered `run` as the
-- `j`-th one.
pub data Owner : Type 0 where
  queued : Owner
  of : ℕ → Owner

abbrev pub Owners : Type 0
Owners = ℕ → Option Owner

abbrev pub give : ℕ → Owner → Owners → Owners
give a o own b = if b == a then some o else own b

-- A callback that returns, throws, yields, and schedules callbacks like it for any thread.
abbrev pub IsPlain : Code → Type 0
IsPlain ret = Unit
IsPlain throw = Unit
IsPlain (yield_ready k) = IsPlain k
IsPlain (yield_hold k) = Unit
IsPlain (schedule_cb c th k) = IsPlain c × IsPlain k
IsPlain _ = ⊥

abbrev pub IsPlainTask : Task → Type 0
IsPlainTask ft = (c : Code) × (ft.fiber ≡ none) × (ft.cb ≡ some c) × IsPlain c

-- A task whose fiber `o` has: a callback, or a fiber that waits.
pub data IsWork (own : Owners) (fs : Fibers) (o : Owner) (ft : Task) : Type 0 where
  is_callback : (c : Code) → ft.fiber ≡ none → ft.cb ≡ some c → IsPlain c → IsWork own fs o ft
  is_fiber :
      (a : ℕ) (g : Fiber) (c : Code)
      → ft.fiber ≡ some a
      → own a ≡ some o
      → get_elem? fs.heap a ≡ some g
      → is_waiting g.state ≡ true
      → next_code g g.ctx ≡ ok (main_func, c)
      → IsPlain c
      → IsWork own fs o ft

-- A queue of such tasks, no fiber twice.
abbrev pub IsQueue : Owners → Fibers → List Task → Type 0
IsQueue own fs [] = Unit
IsQueue own fs (ft ∷ fts) = IsWork own fs queued ft × IsFreeOf ft.fiber fts × IsQueue own fs fts

-- The idle fiber when it does not run: before its end, or at its end.
abbrev pub IsRest : Fiber → Type 0
IsRest f =
    ((is_waiting f.state ≡ true) × (next_code f f.ctx ≡ ok (main_func, idle))) ⊎ (f.state ≡ term)

abbrev pub HasRest : Owners → Fibers → ℕ → ℕ → Type 0
HasRest own fs j i = (f : Fiber) × (own i ≡ some (of j)) × (get_elem? fs.heap i ≡ some f) × IsRest f

-- The fiber for callbacks can be reset.
abbrev pub HasCb : Owners → Fibers → ℕ → ℕ → Option ℕ → Type 0
HasCb own fs j i none = Unit
HasCb own fs j i (some a) =
    (g : Fiber) × (own a ≡ some (of j))
    × (get_elem? fs.heap a ≡ some g)
    × (a ≢ i)
    × (g.stack ≡ true)
    × (is_over g.state ≡ true)

abbrev pub AsKind : Owners → Fibers → ℕ → ℕ → Option ℕ → Kind → ℕ → Bool → Type 0
AsKind own fs j i o as_cb a stack = (o ≡ some a) × (stack ≡ true)
AsKind own fs j i o as_fiber a stack = HasCb own fs j i o × (o ≢ some a)
AsKind own fs j i o as_idle a stack = ⊥

-- The fiber of the task that the thread is at.
abbrev pub HasTask : Owners → Fibers → ℕ → Worker → Kind → ℕ → Fiber → Type 0
HasTask own fs j w kind a f =
    (own a ≡ some (of j))
    × (get_elem? fs.heap a ≡ some f)
    × (a ≢ w.idle_fiber)
    × AsKind own fs j w.idle_fiber w.cb_fiber kind a f.stack

abbrev pub IsNothing : Task → Type 0
IsNothing ft = (ft.fiber ≡ none) × (ft.cb ≡ none)

-- What a thread has at each place of `run`.
pub data Place (own : Owners) (fs : Fibers) (j : ℕ) (w : Worker) : Type 0 where
  at_pick :
      w.pc ≡ picking
      → HasRest own fs j w.idle_fiber
      → HasCb own fs j w.idle_fiber w.cb_fiber
      → Place own fs j w
  at_hold :
      (ft : Task)
      → w.pc ≡ holding ft
      → HasRest own fs j w.idle_fiber
      → HasCb own fs j w.idle_fiber w.cb_fiber
      → IsNothing ft
        ⊎ (IsWork own fs (of j) ft
            × ((a : ℕ) → ft.fiber ≡ some a → (a ≢ w.idle_fiber) × (w.cb_fiber ≢ some a)))
      → Place own fs j w
  in_idle :
      (f : Fiber)
      → w.pc ≡ running as_idle w.idle_fiber
      → own w.idle_fiber ≡ some (of j)
      → get_elem? fs.heap w.idle_fiber ≡ some f
      → f.state ≡ exec
      → next_code f f.ctx ≡ ok (main_func, idle)
      → w.tls.fiber ≡ some w.idle_fiber
      → HasCb own fs j w.idle_fiber w.cb_fiber
      → Place own fs j w
  in_task :
      (kind : Kind) (a : ℕ) (f : Fiber) (c : Code)
      → w.pc ≡ running kind a
      → HasRest own fs j w.idle_fiber
      → HasTask own fs j w kind a f
      → f.state ≡ exec
      → next_code f f.ctx ≡ ok (main_func, c)
      → IsPlain c
      → w.tls.fiber ≡ some a
      → Place own fs j w
  from_idle :
      w.pc ≡ returned as_idle w.idle_fiber
      → HasRest own fs j w.idle_fiber
      → HasCb own fs j w.idle_fiber w.cb_fiber
      → Place own fs j w
  from_task :
      (kind : Kind) (a : ℕ) (g : Fiber) (l : Leaving)
      → (w.pc ≡ returned kind a) ⊎ (w.pc ≡ settling kind a)
      → HasRest own fs j w.idle_fiber
      → HasTask own fs j w kind a (left l g)
      → IsPlain (code_of l)
      → Place own fs j w
  at_end : w.pc ≡ stopped → Place own fs j w

pub record IsMember (own : Owners) (fs : Fibers) (j : ℕ) (w : Worker) : Type 0 where
  pub home : ℕ
  pub scheduler : w.tls.scheduler_fiber ≡ some home
  pub place : Place own fs j w
