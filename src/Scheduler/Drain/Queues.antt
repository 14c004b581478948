-- ===== src/Scheduler/Drain/Queues.antt =====
-- Which steps keep the queue of a thread that drains it, and its other fibers.
use gwn_framwork.Base.{
  ℕ, ◌≡◌, ◌≢◌, refl, sym, ap, ◌∙◌, subst, true, false, List, [], ◌∷◌, ◌++◌, Option, none, some,
  arith, length, get_elem?, All, All-append, get_elem?-lt, get_elem?-set_ne, get_elem?-append_left,
}
use gwn_framwork.Fiber.{Code, Fiber, Fibers, write}
use gwn_framwork.Scheduler.{Task}
use gwn_framwork.Scheduler.Drain.{
  IsSimple, IsSimpleTask, is_waiting, IsJob, is_callback, is_fiber, IsFree, IsFreeOf, IsQueue, Home,
  IsApart, HasCbFiber, cbs,
}

-- Every fiber that waits is left as it is.
abbrev pub Keeps : Fibers → Fibers → Type 0
Keeps fs fs' =
    (b : ℕ) (g : Fiber)
    → get_elem? fs.heap b ≡ some g
    → is_waiting g.state ≡ true
    → get_elem? fs'.heap b ≡ some g

pub busy-ne :
    (fs : Fibers) (a b : ℕ) (f g : Fiber)
    → get_elem? fs.heap a ≡ some f
    → is_waiting f.state ≡ false
    → get_elem? fs.heap b ≡ some g
    → is_waiting g.state ≡ true
    → a ≢ b
busy-ne fs a b f g at_a busy at_b waits e =
    let same : some f ≡ some g = sym at_a ∙ ap (get_elem? fs.heap) e ∙ at_b in
    let same' : f ≡ g = cc in
    let clash : true ≡ false =
      sym waits ∙ ap (λ (x : Fiber). is_waiting x.state) (sym same') ∙ busy in
    cc

pub write-Keeps :
    (fs : Fibers) (a : ℕ) (f g : Fiber)
    → get_elem? fs.heap a ≡ some f
    → is_waiting f.state ≡ false
    → Keeps fs (write fs a g)
write-Keeps fs a f g at_a busy b g' at_b waits =
    get_elem?-set_ne fs.heap a b g (busy-ne fs a b f g' at_a busy at_b waits) ∙ at_b

IsJob-Keeps :
    (me : ℕ) (fs fs' : Fibers) (ft : Task) (c : Code)
    → Keeps fs fs'
    → IsJob me fs ft c
    → IsJob me fs' ft c
IsJob-Keeps me fs fs' ft c k (is_callback no_fiber has_cb own) = is_callback no_fiber has_cb own
IsJob-Keeps me fs fs' ft c k (is_fiber a g has own there waits next) =
    is_fiber a g has own (k a g there waits) waits next

pub IsQueue-Keeps :
    (me : ℕ) (fs fs' : Fibers) (q : List Task) (cs : List Code)
    → Keeps fs fs'
    → IsQueue me fs q cs
    → IsQueue me fs' q cs
IsQueue-Keeps me fs fs' [] [] k h = h
IsQueue-Keeps me fs fs' [] (c ∷ cs) k h = absurd h
IsQueue-Keeps me fs fs' (ft ∷ q) [] k h = absurd h
IsQueue-Keeps me fs fs' (ft ∷ q) (c ∷ cs) k (job, simple, free, rest) =
    (IsJob-Keeps me fs fs' ft c k job, simple, free, IsQueue-Keeps me fs fs' q cs k rest)

IsJob-write :
    (me : ℕ) (fs : Fibers) (a : ℕ) (f : Fiber) (ft : Task) (c : Code)
    → ft.fiber ≢ some a
    → IsJob me fs ft c
    → IsJob me (write fs a f) ft c
IsJob-write me fs a f ft c free (is_callback no_fiber has_cb own) = is_callback no_fiber has_cb own
IsJob-write me fs a f ft c free (is_fiber b g has own there waits next) =
    let other : a ≢ b = λ e. free (has ∙ ap some (sym e)) in
    is_fiber b g has own (get_elem?-set_ne fs.heap a b f other ∙ there) waits next

-- A fiber that no task has may be written.
pub IsQueue-write :
    (me : ℕ) (fs : Fibers) (a : ℕ) (f : Fiber) (q : List Task) (cs : List Code)
    → IsFree a q
    → IsQueue me fs q cs
    → IsQueue me (write fs a f) q cs
IsQueue-write me fs a f [] [] free h = h
IsQueue-write me fs a f [] (c ∷ cs) free h = absurd h
IsQueue-write me fs a f (ft ∷ q) [] free h = absurd h
IsQueue-write me fs a f (ft ∷ q) (c ∷ cs) (free, frees) (job, simple, of, rest) =
    (IsJob-write me fs a f ft c free job, simple, of, IsQueue-write me fs a f q cs frees rest)

pub job-ne :
    (me : ℕ) (fs : Fibers) (a : ℕ) (f : Fiber) (ft : Task) (c : Code)
    → get_elem? fs.heap a ≡ some f
    → is_waiting f.state ≡ false
    → IsJob me fs ft c
    → ft.fiber ≢ some a
job-ne me fs a f ft c at_a busy (is_callback no_fiber has_cb own) e = cc
job-ne me fs a f ft c at_a busy (is_fiber b g has own there waits next) e =
    let same : some b ≡ some a = sym has ∙ e in
    let same' : a ≡ b = cc in absurd (busy-ne fs a b f g at_a busy there waits same')

-- No task has a fiber that does not wait.
pub busy-IsFree :
    (me : ℕ) (fs : Fibers) (a : ℕ) (f : Fiber) (q : List Task) (cs : List Code)
    → get_elem? fs.heap a ≡ some f
    → is_waiting f.state ≡ false
    → IsQueue me fs q cs
    → IsFree a q
busy-IsFree me fs a f [] [] at_a busy h = tt
busy-IsFree me fs a f [] (c ∷ cs) at_a busy h = absurd h
busy-IsFree me fs a f (ft ∷ q) [] at_a busy h = absurd h
busy-IsFree me fs a f (ft ∷ q) (c ∷ cs) at_a busy (job, simple, of, rest) =
    (job-ne me fs a f ft c at_a busy job, busy-IsFree me fs a f q cs at_a busy rest)

pub IsFreeOf-snoc :
    (o : Option ℕ) (q : List Task) (ft : Task)
    → IsFreeOf o q
    → ((a : ℕ) → o ≡ some a → ft.fiber ≢ some a)
    → IsFreeOf o (q ++ ft ∷ [])
IsFreeOf-snoc none q ft h k = tt
IsFreeOf-snoc (some a) q ft h k = All-append (λ x. x.fiber ≢ some a) q (ft ∷ []) h (k a refl, tt)

pub IsFreeOf-nil : (o : Option ℕ) → IsFreeOf o []
IsFreeOf-nil none = tt
IsFreeOf-nil (some a) = tt

pub IsFreeOf-cons :
    (o : Option ℕ) (x : Task) (q : List Task)
    → IsFreeOf o (x ∷ q)
    → ((a : ℕ) → o ≡ some a → x.fiber ≢ some a) × IsFreeOf o q
IsFreeOf-cons none x q h = (λ a e. cc, tt)
IsFreeOf-cons (some b) x q (ne, frees) = (λ a e e'. ne (e' ∙ sym e), frees)

-- A task behind the others.
pub IsQueue-snoc :
    (me : ℕ) (fs : Fibers) (q : List Task) (cs : List Code) (ft : Task) (c : Code)
    → IsQueue me fs q cs
    → IsFreeOf ft.fiber q
    → IsJob me fs ft c
    → IsSimple me c
    → IsQueue me fs (q ++ ft ∷ []) (cs ++ c ∷ [])
IsQueue-snoc me fs [] [] ft c h free job simple = (job, simple, IsFreeOf-nil ft.fiber, tt)
IsQueue-snoc me fs [] (c' ∷ cs) ft c h free job simple = absurd h
IsQueue-snoc me fs (x ∷ q) [] ft c h free job simple = absurd h
IsQueue-snoc me fs (x ∷ q) (c' ∷ cs) ft c (job', simple', of, rest) free job simple =
    let (ne, frees) = IsFreeOf-cons ft.fiber x q free in
    (
      job',
      simple',
      IsFreeOf-snoc x.fiber q ft of (λ a e e'. ne a e' e),
      IsQueue-snoc me fs q cs ft c rest frees job simple,
    )

cbs-cons : (ft : Task) (c : Code) (fts : List Task) → ft.cb ≡ some c → cbs (ft ∷ fts) ≡ c ∷ cbs fts
unfolding cbs
cbs-cons ft c fts h = rw (h) refl

-- A queue of callbacks.
pub simple-IsQueue :
    (me : ℕ) (fs : Fibers) (q : List Task) → All (IsSimpleTask me) q → IsQueue me fs q (cbs q)
unfolding cbs
simple-IsQueue me fs [] h = tt
simple-IsQueue me fs (ft ∷ q) ((c, no_fiber, has_cb, own, simple), h) =
    let rest = simple-IsQueue me fs q h in
    subst (IsQueue me fs (ft ∷ q)) (sym (cbs-cons ft c q has_cb))
      (is_callback no_fiber has_cb own, simple, subst (λ o. IsFreeOf o q) (sym no_fiber) tt, rest)

pub simple-IsFree : (me a : ℕ) (q : List Task) → All (IsSimpleTask me) q → IsFree a q
simple-IsFree me a [] h = tt
simple-IsFree me a (ft ∷ q) ((c, no_fiber, has_cb, own, simple), h) =
    (λ e. cc, simple-IsFree me a q h)

pub IsApart-write :
    (h : Home) (fs : Fibers) (i a : ℕ) (g : Fiber)
    → a ≢ h.address
    → a ≢ i
    → IsApart h fs i
    → IsApart h (write fs a g) i
IsApart-write h fs i a g not_home other p =
    let (f, there, idles) = p.has_idle in
    record {
      home = get_elem?-set_ne fs.heap a h.address g not_home ∙ p.home;
      busy = p.busy;
      not_idle = p.not_idle;
      has_idle = (f, get_elem?-set_ne fs.heap a i g other ∙ there, idles);
    }

pub HasCbFiber-write :
    (h : ℕ) (fs : Fibers) (i a : ℕ) (g : Fiber) (o : Option ℕ)
    → o ≢ some a
    → HasCbFiber h fs i o
    → HasCbFiber h (write fs a g) i o
HasCbFiber-write h fs i a g none ne p = tt
HasCbFiber-write h fs i a g (some b) ne (f, not_idle, not_home, there, stack, over) =
    let other : a ≢ b = λ e. ne (ap some (sym e)) in
    (f, not_idle, not_home, get_elem?-set_ne fs.heap a b g other ∙ there, stack, over)

-- A new fiber behind the others.
module _ (fs fs' : Fibers) (g : Fiber) (longer : fs'.heap ≡ fs.heap ++ g ∷ []) where
  there_still : (b : ℕ) {f : Fiber} → get_elem? fs.heap b ≡ some f → get_elem? fs'.heap b ≡ some f
  there_still b at_b =
      ap (λ l. get_elem? l b) longer ∙ get_elem?-append_left fs.heap (g ∷ []) b at_b

  pub append-Keeps : Keeps fs fs'
  append-Keeps b f at_b waits = there_still b at_b

  pub IsApart-append : (h : Home) (i : ℕ) → IsApart h fs i → IsApart h fs' i
  IsApart-append h i p =
      let (f, there, idles) = p.has_idle in
      record {
        home = there_still h.address p.home;
        busy = p.busy;
        not_idle = p.not_idle;
        has_idle = (f, there_still i there, idles);
      }

new_job-ne :
    (me : ℕ) (fs : Fibers) (ft : Task) (c : Code)
    → IsJob me fs ft c
    → ft.fiber ≢ some (length fs.heap)
new_job-ne me fs ft c (is_callback no_fiber has_cb own) e = cc
new_job-ne me fs ft c (is_fiber b g has own there waits next) e =
    let below = get_elem?-lt fs.heap b there in
    let same : some b ≡ some (length fs.heap) = sym has ∙ e in
    let same' : b ≡ length fs.heap = cc in absurd (omega arith)

-- No task has the fiber that is made next.
pub new-IsFree :
    (me : ℕ) (fs : Fibers) (q : List Task) (cs : List Code)
    → IsQueue me fs q cs
    → IsFree (length fs.heap) q
new-IsFree me fs [] [] h = tt
new-IsFree me fs [] (c ∷ cs) h = absurd h
new-IsFree me fs (ft ∷ q) [] h = absurd h
new-IsFree me fs (ft ∷ q) (c ∷ cs) (job, simple, of, rest) =
    (new_job-ne me fs ft c job, new-IsFree me fs q cs rest)
