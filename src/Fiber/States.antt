-- ===== src/Fiber/States.antt =====
-- The state machine of a fiber: a switch into it with the switch that it makes back, and which
-- states `reset`, the destructor and the next switch accept afterwards.
use gwn_framwork.Base.{
  ℕ, ◌≡◌, Bool, true, false, Option, none, some, arith, if◌then◌else◌, get_elem?,
  get_elem?-set_self, get_elem?-lt, set-set, get_elem?-append_self,
}
use gwn_framwork.Fiber.{
  init, hold, exec, term, ready, except, state_eq, Code, main_func, fresh, suspended, ended, Fiber,
  Result, ok, fault, assertion, null_pointer, ◌>>=◌, Fibers, Tls, write, set_this, new_fiber,
  get_this, reset, swap_in, yield_to, finish, destroy, dec64,
}

-- What a running fiber does last before it switches back: it yields, or its callback ends.
pub data Leaving : Type 0 where
  yields_ready yields_hold : Code → Leaving
  returns throws : Leaving

-- The switch back that the fiber makes, by `YieldToReady`, `YieldToHold` or the end of `MainFunc`.
unfoldable pub leave_by : Leaving → Fibers → Tls → Result (Fibers × Tls)
unfolding yield_to finish
leave_by (yields_ready k) fs t = yield_to ready main_func k fs t
leave_by (yields_hold k) fs t = yield_to hold main_func k fs t
leave_by returns fs t = finish false main_func fs t
leave_by throws fs t = finish true main_func fs t

-- The fiber after that switch.
abbrev pub left : Leaving → Fiber → Fiber
left (yields_ready k) f = record f { state = ready; ctx = suspended main_func k }
left (yields_hold k) f = record f { state = hold; ctx = suspended main_func k }
left returns f = record f { state = term; ctx = ended; cb = none }
left throws f = record f { state = except; ctx = ended }

module _ (a : ℕ) (f : Fiber) (fs : Fibers) (t : Tls) (s : ℕ) where
  pub swap_in_lem :
      get_elem? fs.heap a ≡ some f
      → t.scheduler_fiber ≡ some s
      → state_eq f.state exec ≡ false
      → swap_in a fs t ≡ ok (write fs a (record f { state = exec }), set_this (some a) t)
  unfolding swap_in
  swap_in_lem h hs hx = rw (h, hs, hx)

  leave_by_lem :
      (l : Leaving)
      → get_elem? fs.heap a ≡ some f
      → t.scheduler_fiber ≡ some s
      → leave_by l (write fs a (record f { state = exec })) (set_this (some a) t)
        ≡ ok (write fs a (left l f), set_this t.thread_fiber t)
  unfolding leave_by
  leave_by_lem (yields_ready k) h hs =
      let below = get_elem?-lt fs.heap a h in
      let before = get_elem?-set_self fs.heap a (record f { state = exec }) below in
      let after = get_elem?-set_self fs.heap a (record f { state = ready }) below in
      rw (before, set-set fs.heap a, after, hs, set-set fs.heap a)
  leave_by_lem (yields_hold k) h hs =
      let below = get_elem?-lt fs.heap a h in
      let before = get_elem?-set_self fs.heap a (record f { state = exec }) below in
      let after = get_elem?-set_self fs.heap a (record f { state = hold }) below in
      rw (before, set-set fs.heap a, after, hs, set-set fs.heap a)
  leave_by_lem returns h hs =
      let below = get_elem?-lt fs.heap a h in
      let before = get_elem?-set_self fs.heap a (record f { state = exec }) below in
      let after = get_elem?-set_self fs.heap a (record f { state = term; cb = none }) below in
      rw (before, set-set fs.heap a, after, hs, set-set fs.heap a)
  leave_by_lem throws h hs =
      let below = get_elem?-lt fs.heap a h in
      let before = get_elem?-set_self fs.heap a (record f { state = exec }) below in
      let after = get_elem?-set_self fs.heap a (record f { state = except }) below in
      rw (before, set-set fs.heap a, after, hs, set-set fs.heap a)

  -- A switch into a fiber that is not executing, on a thread with a scheduling fiber, and the switch
  -- back that the fiber makes, leave the fiber in the state and at the place that it left from, and
  -- change no other fiber; the thread's main fiber is the current one again.
  pub swap_in-leave_by :
      (l : Leaving)
      → get_elem? fs.heap a ≡ some f
      → t.scheduler_fiber ≡ some s
      → state_eq f.state exec ≡ false
      → (swap_in a fs t >>= λ (fs', t'). leave_by l fs' t')
        ≡ ok (write fs a (left l f), set_this t.thread_fiber t)
  swap_in-leave_by l h hs hx = rw (swap_in_lem h hs hx) (leave_by_lem l h hs)

abbrev pub ends : Leaving → Bool
ends (yields_ready k) = false
ends (yields_hold k) = false
ends returns = true
ends throws = true

-- A fiber with a stack that has ended can be reset, to a new callback at its entry, and destroyed;
-- one that has yielded can be neither: both stop at an assertion.
pub left-reset-destroy :
    (l : Leaving) (a : ℕ) (f : Fiber) (cb : Option Code) (fs : Fibers) (t : Tls)
    → get_elem? fs.heap a ≡ some (left l f)
    → f.stack ≡ true
    → (reset a cb fs ≡ (
        if ends l
        then ok (write fs a (record (left l f) { cb = cb; ctx = fresh main_func; state = init }))
        else fault assertion))
      × (destroy a fs t
          ≡ (if ends l then ok (record fs { count = dec64 fs.count }, t) else fault assertion))
unfolding reset destroy
left-reset-destroy (yields_ready k) a f cb fs t h st = (rw (h, st), rw (h, st))
left-reset-destroy (yields_hold k) a f cb fs t h st = (rw (h, st), rw (h, st))
left-reset-destroy returns a f cb fs t h st = (rw (h, st), rw (h, st))
left-reset-destroy throws a f cb fs t h st = (rw (h, st), rw (h, st))

get_this-scheduler : (fs : Fibers) (t : Tls) → (get_this fs t).2.scheduler_fiber ≡ t.scheduler_fiber
unfolding get_this
get_this-scheduler fs t = ground arith

-- On a thread with no scheduler a new fiber cannot be switched into, also after `GetThis` has made
-- the thread's main fiber: `swapIn` reads the thread's scheduling fiber, which is null.
pub swap_in_without_scheduler :
    (c : Code) (stacksize : ℕ) (use_caller : Bool) (fs : Fibers) (t : Tls)
    → t.scheduler_fiber ≡ none
    → (let (m, fs', t') = get_this fs t in
        let (a, fs'') = new_fiber c stacksize use_caller fs' in swap_in a fs'' t')
      ≡ fault null_pointer
swap_in_without_scheduler c stacksize use_caller fs t h =
    let (m, fs', t') = get_this fs t in
    unfold new_fiber swap_in in rw (get_elem?-append_self fs'.heap, get_this-scheduler fs t, h)
