-- ===== src/Scheduler/Whole/Leaving.antt =====
-- The end of `CallerMainFunc` of gwn/fiber.cc around `Scheduler::run`.
use gwn_framwork.Base.{
  ℕ, ◌≡◌, refl, ap, ◌∙◌, true, [], none, some, get_elem?, set, get_elem?-lt, get_elem?-set_self,
}
use gwn_framwork.Fiber.{term, ended, Fiber, Tls, ok, write, set_this, back}
use gwn_framwork.Scheduler.{Sched}
use gwn_framwork.Scheduler.Worker.{Worker}
use gwn_framwork.Scheduler.Drain.{IsDrained}
use gwn_framwork.Scheduler.Whole.{end_root}

pub end_root_lem :
    (r m : ℕ) (f : Fiber) (s : Sched) (w : Worker)
    → IsDrained (record { address = r; fiber = f; main = some m }) s w
    → (s' : Sched) × (t' : Tls) × (end_root r w.pc s w ≡ ok (s', t'))
      × (s'.queue ≡ [])
      × (s'.active ≡ 0)
      × (s'.is_stopping ≡ true)
unfolding end_root back
end_root_lem r m f s w d =
    let g = record f { state = term; cb = none } in
    let there : get_elem? (set s.fibers.heap r g) r ≡ some g =
      get_elem?-set_self s.fibers.heap r g (get_elem?-lt s.fibers.heap r d.home) in
    (
      record s { fibers = write (write s.fibers r g) r (record g { ctx = ended }) },
      set_this w.tls.thread_fiber w.tls,
      ap (λ pc. end_root r pc s w) d.at ∙ rw (d.home, there, d.main) refl,
      d.queue,
      d.active,
      d.asked,
    )
