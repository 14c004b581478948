-- ===== src/Scheduler/This.antt =====
-- The thread-local pointer `t_scheduler` of gwn/scheduler.cc, and the destructor. A scheduler is named
-- by its address.
use gwn_framwork.Base.{
  ℕ, ◌≡◌, refl, Bool, false, Option, none, some, ◌==◌, ==_iff, if◌then◌else◌, arith,
}
use gwn_framwork.Fiber.{Result, ok, fault, assertion, ◌>>◌, assert}
use gwn_framwork.Scheduler.{Sched}
use gwn_framwork.Scheduler.Control.{Next, start, stop, stop-is_stopping}

-- `Scheduler::GetThis`, and `Scheduler::setThis`.
abbrev pub get_this : Option ℕ → Option ℕ
get_this current = current

unfoldable pub set_this : ℕ → Option ℕ → Option ℕ
set_this self current = some self

-- `GetThis() == this`.
unfoldable pub is_this : ℕ → Option ℕ → Bool
is_this self none = false
is_this self (some a) = a == self

-- `Scheduler::~Scheduler`: what it leaves in `t_scheduler`.
unfoldable pub destroy : ℕ → Sched → Option ℕ → Result (Option ℕ)
unfolding is_this
destroy self s current =
    assert s.is_stopping >> ok (if is_this self (get_this current) then none else current)

start-is_stopping : (id : ℕ → ℕ) (s s' : Sched) → start id s ≡ ok s' → s'.is_stopping ≡ false
unfolding start
start-is_stopping id s s' h = ground arith

-- A scheduler cannot be destroyed behind `start`: the destructor stops at its assertion. Behind a
-- `stop` that ends it can, on any thread; the pointer of a thread that names it is null afterwards,
-- and that of any other thread is as before.
pub destroy-start-stop :
    (self : ℕ) (id : ℕ → ℕ) (current : Option ℕ) (s started s' : Sched) (next : Next)
    → start id s ≡ ok started
    → stop (is_this self (get_this current)) started ≡ ok (s', next)
    → (destroy self started current ≡ fault assertion)
      × (destroy self s' current ≡ ok (if is_this self (get_this current) then none else current))
      × (destroy self s' (set_this self current) ≡ ok none)
unfolding destroy set_this
destroy-start-stop self id current s started s' next starts stops =
    let running = start-is_stopping id s started starts in
    let asked = stop-is_stopping (is_this self (get_this current)) started s' next stops in
    (rw (running) refl, rw (asked) refl, rw (asked, (==_iff self self).1 refl) refl)
