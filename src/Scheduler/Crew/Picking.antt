-- ===== src/Scheduler/Crew/Picking.antt =====
-- A thread of a crew takes a task.
use gwn_framwork.Base.{
  unsome, ℕ, ◌≡◌, ◌≢◌, refl, sym, ap, ◌∙◌, inl, inr, not, ◌||◌, List, ◌++◌, Option, none, some, ok,
  subst, is_empty,
}
use gwn_framwork.Fiber.{Fibers, inc64}
use gwn_framwork.Scheduler.{Task, Sched, take_task}
use gwn_framwork.Scheduler.Queue.{Takes, nothing, takes, take_task-Takes, any_foreign}
use gwn_framwork.Scheduler.Worker.{Worker, holding, pick}
use gwn_framwork.Scheduler.Drain.{IsFreeOf, tickle_if-keeps}
use gwn_framwork.Scheduler.Crew.{
  queued, of, Owners, give, IsWork, is_callback, is_fiber, IsQueue, HasRest, HasCb, at_hold,
  IsMember,
}
use gwn_framwork.Scheduler.Crew.Frames.{
  Keeps, give_self, give_ne, give-Keeps, HasRest-Keeps, HasCb-Keeps, other_address,
}
use gwn_framwork.Scheduler.Crew.Queues.{
  Stepped, KeepsBut, IsQueue-but, IsQueue-around, queue-IsSound,
}

cb_ne :
    (own : Owners) (fs : Fibers) (j i a : ℕ) (o : Option ℕ)
    → own a ≡ some queued
    → HasCb own fs j i o
    → o ≢ some a
cb_ne own fs j i a none owned h e = cc
cb_ne own fs j i a (some b) owned (g, owned', there, ne, stack, over) e =
    let clash : some queued ≡ some (of j) = sym owned ∙ ap own (sym (unsome e)) ∙ owned' in cc

module _ (own : Owners) (j : ℕ) (s : Sched) (w : Worker) (m : ℕ)
    (scheduler : w.tls.scheduler_fiber ≡ some m) (rest : HasRest own s.fibers j w.idle_fiber)
    (cb : HasCb own s.fibers j w.idle_fiber w.cb_fiber) where
  -- The thread with a task in hand, when the heap is as it was.
  holds :
      (s' : Sched) (ft : Task) (before behind : List Task)
      → s'.queue ≡ before ++ behind
      → s'.fibers ≡ s.fibers
      → IsWork own s.fibers queued ft
      → IsFreeOf ft.fiber (before ++ behind)
      → IsQueue own s.fibers (before ++ behind)
      → (own' : Owners) × IsQueue own' s'.fibers s'.queue
        × IsMember own' s'.fibers j (record w { pc = holding ft })
        × ((k : ℕ) → k ≢ j → Keeps (of k) own s.fibers own' s'.fibers)
  holds s' ft before behind queue fibers (is_callback c no_fiber has_cb plain) free others = (
    own,
    rw (queue, fibers) others,
    record {
      home = m;
      scheduler = scheduler;
      place =
          rw (fibers)
            (at_hold ft refl rest cb (inr (is_callback c no_fiber has_cb plain, λ a e. cc)));
    },
    λ k ne. rw (fibers) (λ b g owned there. (owned, there)),
  )
  holds s' ft before behind queue fibers (is_fiber a g c has owned there waits next plain) free
        others =
      let own' = give a (of j) own in
      let keeps = give-Keeps own s.fibers (of j) a queued (of j) owned (λ e. cc) in
      let but : KeepsBut a own s.fibers own' s.fibers =
        λ b f ne owned' there'. (give_ne a b (of j) own ne ∙ owned', there') in
      let apart = other_address own a w.idle_fiber (of j) queued owned rest.1 (λ e. cc) in
      (
        own',
        rw (queue, fibers)
            (IsQueue-but own own' s.fibers s.fibers a but (before ++ behind)
              (subst (λ o. IsFreeOf o (before ++ behind)) has free) others),
        record {
          home = m;
          scheduler = scheduler;
          place = rw (fibers) (
              at_hold ft refl (HasRest-Keeps own own' s.fibers s.fibers j w.idle_fiber keeps rest)
                (HasCb-Keeps own own' s.fibers s.fibers j w.idle_fiber keeps w.cb_fiber cb)
                (inr (
                  is_fiber a g c has (give_self a (of j) own) there waits next plain,
                  λ b e. (
                    λ x. apart (sym x ∙ unsome (sym e ∙ has)),
                    λ x. cb_ne own s.fibers j w.idle_fiber a w.cb_fiber owned cb (x ∙ sym e ∙ has),
                  ),
                )));
        },
        λ k ne. rw (fibers) (give-Keeps own s.fibers (of k) a queued (of j) owned (λ e. cc)),
      )

  pick_takes :
      (s' : Sched) (ft : Task)
      → Takes w.thread_id s s' ft
      → take_task w.thread_id s ≡ ok (s', ft)
      → IsQueue own s.fibers s.queue
      → Stepped j own s (pick s w)
  unfolding pick
  pick_takes s' ft (nothing is_no_task all same) e queue =
      let (q, ac, fi, au, st) = tickle_if-keeps (any_foreign w.thread_id s.queue) s in
      let fibers : s'.fibers ≡ s.fibers = ap (λ (x : Sched). x.fibers) same ∙ fi in
      let queue' : s'.queue ≡ s.queue = ap (λ (x : Sched). x.queue) same ∙ q in
      (
        own,
        s',
        record w { pc = holding ft },
        rw (e) refl,
        rw (queue', fibers) queue,
        record {
          home = m;
          scheduler = scheduler;
          place = rw (fibers) (
              at_hold ft refl rest cb
                (inl (ap (λ (x : Task). x.fiber) is_no_task, ap (λ (x : Task). x.cb) is_no_task)));
        },
        λ k ne. rw (fibers) (λ b g owned there. (owned, there)),
      )
  pick_takes s' ft (takes before behind split passed own_task free_fiber same) e queue =
      let b = any_foreign w.thread_id before || not (is_empty behind) in
      let s₁ = record s { queue = before ++ behind; active = inc64 s.active } in
      let (q, ac, fi, au, st) = tickle_if-keeps b s₁ in
      let (work_ft, free, others) =
        IsQueue-around own s.fibers before behind ft (subst (IsQueue own s.fibers) split queue) in
      let (own', queue', member, keeps) =
        holds s' ft before behind (ap (λ (x : Sched). x.queue) same ∙ q)
          (ap (λ (x : Sched). x.fibers) same ∙ fi) work_ft free others in
      (own', s', record w { pc = holding ft }, rw (e) refl, queue', member, keeps)

  pub pick_step : IsQueue own s.fibers s.queue → Stepped j own s (pick s w)
  pick_step queue =
      let (s', ft, e, t) =
        take_task-Takes w.thread_id s (queue-IsSound own s.fibers s.queue queue) in
      pick_takes s' ft t e queue
