-- ===== src/Scheduler/Crew/Frames.antt =====
-- Which steps of a thread keep what the queue and the other threads have.
use gwn_framwork.Base.{
  ℕ, ◌≡◌, ◌≢◌, refl, sym, ap, ◌∙◌, inl, inr, Bool, List, [], ◌∷◌, ◌++◌, Option, none, some, arith,
  ==_iff, length, get_elem?, get_elem?-lt, get_elem?-set_ne, get_elem?-append_left,
}
use gwn_framwork.Fiber.{Fiber, Fibers, write}
use gwn_framwork.Fiber.States.{left}
use gwn_framwork.Scheduler.{Task}
use gwn_framwork.Scheduler.Worker.{Worker, Kind, as_cb, as_fiber, as_idle}
use gwn_framwork.Scheduler.Crew.{
  Owner, queued, of, Owners, give, IsWork, is_callback, is_fiber, IsQueue, HasRest, HasCb, AsKind,
  HasTask, Place, at_pick, at_hold, in_idle, in_task, from_idle, from_task, at_end, IsMember,
}

-- What `o` has is as it was.
abbrev pub Keeps : Owner → Owners → Fibers → Owners → Fibers → Type 0
Keeps o own fs own' fs' =
    (b : ℕ) (g : Fiber)
    → own b ≡ some o
    → get_elem? fs.heap b ≡ some g
    → (own' b ≡ some o) × (get_elem? fs'.heap b ≡ some g)

pub give_self : (a : ℕ) (o : Owner) (own : Owners) → give a o own a ≡ some o
give_self a o own = rw ((==_iff a a).1 refl) refl

pub give_ne : (a b : ℕ) (o : Owner) (own : Owners) → b ≢ a → give a o own b ≡ own b
give_ne a b o own ne = ground arith

pub other_address :
    (own : Owners) (a b : ℕ) (o p : Owner) → own a ≡ some p → own b ≡ some o → p ≢ o → b ≢ a
other_address own a b o p ha hb ne e =
    let same : some p ≡ some o = sym ha ∙ ap own (sym e) ∙ hb in let same' : p ≡ o = cc in ne same'

module _ (own : Owners) (fs : Fibers) (o : Owner) where
  pub write-Keeps :
      (a : ℕ) (p : Owner) (g : Fiber) → own a ≡ some p → p ≢ o → Keeps o own fs own (write fs a g)
  write-Keeps a p g ha ne b f hb there =
      let other = other_address own a b o p ha hb ne in
      (hb, get_elem?-set_ne fs.heap a b g (λ e. other (sym e)) ∙ there)

  pub give-Keeps : (a : ℕ) (p q : Owner) → own a ≡ some p → p ≢ o → Keeps o own fs (give a q own) fs
  give-Keeps a p q ha ne b f hb there =
      (give_ne a b q own (other_address own a b o p ha hb ne) ∙ hb, there)

  pub append-Keeps :
      (fs' : Fibers) (g : Fiber) (q : Owner)
      → fs'.heap ≡ fs.heap ++ g ∷ []
      → Keeps o own fs (give (length fs.heap) q own) fs'
  append-Keeps fs' g q longer b f hb there =
      let below = get_elem?-lt fs.heap b there in
      (
        give_ne (length fs.heap) b q own (λ e. absurd (omega arith)) ∙ hb,
        ap (λ l. get_elem? l b) longer ∙ get_elem?-append_left fs.heap (g ∷ []) b there,
      )

pub Keeps-trans :
    (o : Owner) (own own' own'' : Owners) (fs fs' fs'' : Fibers)
    → Keeps o own fs own' fs'
    → Keeps o own' fs' own'' fs''
    → Keeps o own fs own'' fs''
Keeps-trans o own own' own'' fs fs' fs'' h k b g hb there =
    let (hb', there') = h b g hb there in k b g hb' there'

module _ (own own' : Owners) (fs fs' : Fibers) where
  pub IsWork-Keeps :
      (o : Owner) (ft : Task) → Keeps o own fs own' fs' → IsWork own fs o ft → IsWork own' fs' o ft
  IsWork-Keeps o ft k (is_callback c no_fiber has_cb plain) = is_callback c no_fiber has_cb plain
  IsWork-Keeps o ft k (is_fiber a g c has owned there waits next plain) =
      let (owned', there') = k a g owned there in is_fiber a g c has owned' there' waits next plain

  pub IsQueue-Keeps :
      (q : List Task) → Keeps queued own fs own' fs' → IsQueue own fs q → IsQueue own' fs' q
  IsQueue-Keeps [] k h = tt
  IsQueue-Keeps (ft ∷ q) k (work, free, rest) =
      (IsWork-Keeps queued ft k work, free, IsQueue-Keeps q k rest)

  module _ (j i : ℕ) (k : Keeps (of j) own fs own' fs') where
    pub HasRest-Keeps : HasRest own fs j i → HasRest own' fs' j i
    HasRest-Keeps (f, owned, there, rest) =
        let (owned', there') = k i f owned there in (f, owned', there', rest)

    pub HasCb-Keeps : (o : Option ℕ) → HasCb own fs j i o → HasCb own' fs' j i o
    HasCb-Keeps none h = tt
    HasCb-Keeps (some a) (g, owned, there, ne, stack, over) =
        let (owned', there') = k a g owned there in (g, owned', there', ne, stack, over)

    pub AsKind-Keeps :
        (o : Option ℕ) (kind : Kind) (a : ℕ) (stack : Bool)
        → AsKind own fs j i o kind a stack
        → AsKind own' fs' j i o kind a stack
    AsKind-Keeps o as_cb a stack h = h
    AsKind-Keeps o as_fiber a stack (cb, ne) = (HasCb-Keeps o cb, ne)
    AsKind-Keeps o as_idle a stack h = h

  module _ (j : ℕ) (w : Worker) (k : Keeps (of j) own fs own' fs') where
    HasTask-Keeps :
        (kind : Kind) (a : ℕ) (f : Fiber)
        → HasTask own fs j w kind a f
        → HasTask own' fs' j w kind a f
    HasTask-Keeps kind a f (owned, there, ne, its) =
        let (owned', there') = k a f owned there in
        (owned', there', ne, AsKind-Keeps j w.idle_fiber k w.cb_fiber kind a f.stack its)

    Place-Keeps : Place own fs j w → Place own' fs' j w
    Place-Keeps (at_pick at rest cb) =
        at_pick at (HasRest-Keeps j w.idle_fiber k rest)
          (HasCb-Keeps j w.idle_fiber k w.cb_fiber cb)
    Place-Keeps (at_hold ft at rest cb (inl nothing)) =
        at_hold ft at (HasRest-Keeps j w.idle_fiber k rest)
          (HasCb-Keeps j w.idle_fiber k w.cb_fiber cb) (inl nothing)
    Place-Keeps (at_hold ft at rest cb (inr (work, ne))) =
        at_hold ft at (HasRest-Keeps j w.idle_fiber k rest)
          (HasCb-Keeps j w.idle_fiber k w.cb_fiber cb) (inr (IsWork-Keeps (of j) ft k work, ne))
    Place-Keeps (in_idle f at owned there executing next this cb) =
        let (owned', there') = k w.idle_fiber f owned there in
        in_idle f at owned' there' executing next this (HasCb-Keeps j w.idle_fiber k w.cb_fiber cb)
    Place-Keeps (in_task kind a f c at rest task executing next plain this) =
        in_task kind a f c at (HasRest-Keeps j w.idle_fiber k rest) (HasTask-Keeps kind a f task)
          executing next plain this
    Place-Keeps (from_idle at rest cb) =
        from_idle at (HasRest-Keeps j w.idle_fiber k rest)
          (HasCb-Keeps j w.idle_fiber k w.cb_fiber cb)
    Place-Keeps (from_task kind a g l at rest task plain) =
        from_task kind a g l at (HasRest-Keeps j w.idle_fiber k rest)
          (HasTask-Keeps kind a (left l g) task) plain
    Place-Keeps (at_end at) = at_end at

    pub IsMember-Keeps : IsMember own fs j w → IsMember own' fs' j w
    IsMember-Keeps m = record {
      home = m.home;
      scheduler = m.scheduler;
      place = Place-Keeps m.place;
    }
