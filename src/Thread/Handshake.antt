-- ===== src/Thread/Handshake.antt =====
-- The constructor of `Thread` of gwn/thread.cc against the thread that it makes.
use gwn_framwork.Base.{
  ℕ, zero, suc, ◌≡◌, refl, subst, sym, ap, ◌∙◌, ◌⊎◌, List, Bool-cases, inl, inr, [], ◌∷◌, Option,
  none, some, arith, if◌then◌else◌, is_empty, Text, codes,
}
use gwn_framwork.Thread.{
  wait, notify, new_thread, creating, waiting, built, failed, Runner, absent, begun, named, swapped,
  posted, ended, calling, Use, reads, renames, Callback, use_object, rename, uses, returns, State,
  begin, create, finish_construction, set_id, swap_cb, post, call_cb, Step, creates, waits, begins,
  swaps, posts, calls, Reached, here, more,
}

-- The name that the object has from its constructor on.
abbrev pub name_of : Text → Text
name_of name = if is_empty name then codes "UNKNOW" else name

-- What each place of the new thread says of the object, of the calls, and of the semaphore's count
-- and the constructor.
abbrev pub Fits : ℕ → Callback → Text → Runner → State → Type 0
Fits me cb name absent x =
    (x.object.cb ≡ some cb)
    × (x.called ≡ [])
    × (x.object.count ≡ 0)
    × ((x.creator ≡ creating) ⊎ (x.creator ≡ failed))
Fits me cb name begun x =
    (x.object.cb ≡ some cb) × (x.called ≡ []) × (x.object.count ≡ 0) × (x.creator ≡ waiting)
Fits me cb name named x =
    (x.object.cb ≡ some cb)
    × (x.called ≡ [])
    × (x.object.count ≡ 0)
    × (x.creator ≡ waiting)
    × (x.object.id ≡ some me)
    × (x.thread_name ≡ name_of name)
Fits me cb name (swapped c) x =
    (c ≡ some cb)
    × (x.object.cb ≡ none)
    × (x.called ≡ [])
    × (x.object.count ≡ 0)
    × (x.creator ≡ waiting)
    × (x.object.id ≡ some me)
    × (x.thread_name ≡ name_of name)
Fits me cb name (posted c) x =
    (c ≡ some cb)
    × (x.object.cb ≡ none)
    × (x.called ≡ [])
    × (((x.object.count ≡ 1) × (x.creator ≡ waiting))
        ⊎ ((x.object.count ≡ 0) × (x.creator ≡ built)))
    × (x.object.id ≡ some me)
    × (x.thread_name ≡ name_of name)
Fits me cb name (calling c rest) x =
    (c ≡ some cb)
    × (x.object.cb ≡ none)
    × (x.called ≡ some cb ∷ [])
    × (((x.object.count ≡ 1) × (x.creator ≡ waiting))
        ⊎ ((x.object.count ≡ 0) × (x.creator ≡ built)))
    × (x.object.id ≡ some me)
    × (x.thread_name ≡ x.object.name)
Fits me cb name (ended c) x =
    (c ≡ some cb)
    × (x.object.cb ≡ none)
    × (x.called ≡ some cb ∷ [])
    × (((x.object.count ≡ 1) × (x.creator ≡ waiting))
        ⊎ ((x.object.count ≡ 0) × (x.creator ≡ built)))
    × (x.object.id ≡ some me)
    × (x.thread_name ≡ x.object.name)

-- Before the callback is called the object has the name from its constructor.
abbrev pub IsNamed : Text → Runner → State → Type 0
IsNamed name (calling c rest) x = Unit
IsNamed name (ended c) x = Unit
IsNamed name _ x = x.object.name ≡ name_of name

abbrev pub IsConsistent : ℕ → Callback → Text → State → Type 0
IsConsistent me cb name x = IsNamed name x.runner x × Fits me cb name x.runner x

-- The constructor behind its wait.
abbrev after : ℕ → State → State
after m x = record x { object = record x.object { count = m }; creator = built }

wait_lem :
    (x y : State) (n : ℕ)
    → x.object.count ≡ n
    → finish_construction x ≡ some y
    → (m : ℕ) × (n ≡ suc m) × (y ≡ after m x)
unfolding finish_construction wait
wait_lem x y zero e h = ground arith
wait_lem x y (suc m) e h = (m, refl, ground arith)

wait_passes :
    (x : State) (m : ℕ) → x.object.count ≡ suc m → finish_construction x ≡ some (after m x)
unfolding finish_construction wait
wait_passes x m e = rw (e) refl

module _ (me : ℕ) (cb : Callback) (name : Text) where
  begin-IsConsistent : IsConsistent me cb name (begin cb name)
  unfolding new_thread
  begin-IsConsistent = (refl, (refl, refl, refl, inl refl))

  create-Fits :
      (r : Option ℕ) (x : State) (k : Runner)
      → x.runner ≡ k
      → x.creator ≡ creating
      → Fits me cb name k x
      → Fits me cb name (create r x).runner (create r x)
  unfolding create
  create-Fits none x absent e p (c, l, n, o) =
      subst (λ (k : Runner). Fits me cb name k (create none x)) (sym e) (c, l, n, inr refl)
  create-Fits (some t) x absent e p (c, l, n, o) = (c, l, n, refl)
  create-Fits r x begun e p h = ground arith
  create-Fits r x named e p h = ground arith
  create-Fits r x (swapped c) e p h = ground arith
  create-Fits r x (posted c) e p h = ground arith
  create-Fits r x (calling c rest) e p h = ground arith
  create-Fits r x (ended c) e p h = ground arith

  waited-IsNamed : (x : State) (m : ℕ) (k : Runner) → IsNamed name k x → IsNamed name k (after m x)
  waited-IsNamed x m (calling c rest) n = tt
  waited-IsNamed x m (ended c) n = tt
  waited-IsNamed x m absent n = n
  waited-IsNamed x m begun n = n
  waited-IsNamed x m named n = n
  waited-IsNamed x m (swapped c) n = n
  waited-IsNamed x m (posted c) n = n

  waited-Fits :
      (x : State) (m : ℕ) (k : Runner)
      → x.creator ≡ waiting
      → x.object.count ≡ suc m
      → Fits me cb name k x
      → Fits me cb name k (after m x)
  waited-Fits x m absent p q h = ground arith
  waited-Fits x m begun p q h = ground arith
  waited-Fits x m named p q h = ground arith
  waited-Fits x m (swapped c) p q h = ground arith
  waited-Fits x m (posted c) p q (o, b, l, n, i, t) = (o, b, l, inr (ground arith, refl), i, t)
  waited-Fits x m (calling c rest) p q (o, b, l, n, i, t) =
      (o, b, l, inr (ground arith, refl), i, t)
  waited-Fits x m (ended c) p q (o, b, l, n, i, t) = (o, b, l, inr (ground arith, refl), i, t)

  wait-Fits :
      (x y : State) (k : Runner)
      → x.runner ≡ k
      → x.creator ≡ waiting
      → finish_construction x ≡ some y
      → IsNamed name k x × Fits me cb name k x
      → IsConsistent me cb name y
  wait-Fits x y k e p h (n, f) =
      let (m, q, g) = wait_lem x y x.object.count refl h in
      rw (g) (
        subst (λ (k : Runner). IsNamed name k (after m x) × Fits me cb name k (after m x)) (sym e)
          (waited-IsNamed x m k n, waited-Fits x m k p q f))

  create-IsNamed :
      (r : Option ℕ) (x : State) (k : Runner)
      → x.runner ≡ k
      → x.creator ≡ creating
      → IsNamed name k x
      → Fits me cb name k x
      → IsNamed name (create r x).runner (create r x)
  unfolding create
  create-IsNamed none x absent e p n f =
      subst (λ (k : Runner). IsNamed name k (create none x)) (sym e) n
  create-IsNamed (some t) x absent e p n f = n
  create-IsNamed r x begun e p n f = ground arith
  create-IsNamed r x named e p n f = ground arith
  create-IsNamed r x (swapped c) e p n f = ground arith
  create-IsNamed r x (posted c) e p n f = ground arith
  create-IsNamed r x (calling c rest) e p n f = ground arith
  create-IsNamed r x (ended c) e p n f = ground arith

  used-Fits :
      (x : State) (c : Option Callback) (u : Use) (rest : List Use)
      → Fits me cb name (calling c (u ∷ rest)) x
      → Fits me cb name (calling c rest) (use_object c u rest x)
  unfolding use_object rename
  used-Fits x c reads rest f = f
  used-Fits x c (renames t) rest f = elim (Bool-cases (is_empty t)) [
    | inl e ↦ rw (e) f
    | inr e ↦ let (o, b, l, n, i, s) = f in rw (e) (o, b, l, n, i, refl)
  ]

  used_runner :
      (x : State) (c : Option Callback) (u : Use) (rest : List Use)
      → (use_object c u rest x).runner ≡ calling c rest
  unfolding use_object
  used_runner x c reads rest = refl
  used_runner x c (renames t) rest = refl

  at_place :
      (x : State) {k : Runner}
      → x.runner ≡ k
      → IsConsistent me cb name x
      → IsNamed name k x × Fits me cb name k x
  at_place x p h = subst (λ (k : Runner). IsNamed name k x × Fits me cb name k x) p h

  Step-IsConsistent :
      {x y : State} → Step me x y → IsConsistent me cb name x → IsConsistent me cb name y
  Step-IsConsistent {x} (creates r p e) h =
      rw (e) (create-IsNamed r x x.runner refl p h.0 h.1, create-Fits r x x.runner refl p h.1)
  Step-IsConsistent {x} {y} (waits p e) h = wait-Fits x y x.runner refl p e h
  Step-IsConsistent {x} (begins p e) h =
      let (a, (c, l, n, w)) = at_place x p h in rw (e) (unfold set_id in (a, (c, l, n, w, refl, a)))
  Step-IsConsistent {x} (swaps p e) h =
      let (a, (c, l, n, w, i, t)) = at_place x p h in
      rw (e) (unfold swap_cb in (a, (c, refl, l, n, w, i, t)))
  Step-IsConsistent {x} (posts c p e) h =
      let (a, (o, b, l, n, w, i, t)) = at_place x p h in
      rw (e) (unfold post notify in (a, (o, b, l, inl (ap suc n, w), i, t)))
  Step-IsConsistent {x} (calls c p e) h =
      let (a, (o, b, l, n, i, t)) = at_place x p h in
      rw (e) (unfold call_cb in (tt, (o, b, rw (l, o) refl, n, i, t ∙ sym a)))
  Step-IsConsistent {x} {y} (uses c u rest p e) h =
      let f = used-Fits x c u rest (at_place x p h).1 in
      rw (e) (
        subst
          (λ (k : Runner).
            IsNamed name k (use_object c u rest x) × Fits me cb name k (use_object c u rest x))
          (sym (used_runner x c u rest)) (tt, f))
  Step-IsConsistent {x} (returns c p e) h = rw (e) (tt, (at_place x p h).1)

  pub Reached-IsConsistent : {x : State} → Reached me cb name x → IsConsistent me cb name x
  Reached-IsConsistent here = begin-IsConsistent
  Reached-IsConsistent (more r st) = Step-IsConsistent st (Reached-IsConsistent r)

-- `run` itself has no access to the object left: it has posted, and is about to call the callback,
-- with the object's name as the constructor made it; or it is in the callback, or behind it.
abbrev pub IsDone : Callback → Text → State → Type 0
IsDone cb name x =
    ((x.runner ≡ posted (some cb)) × (x.called ≡ []) × (x.object.name ≡ name_of name))
    ⊎ ((rest : List Use) × (x.runner ≡ calling (some cb) rest) × (x.called ≡ some cb ∷ []))
    ⊎ ((x.runner ≡ ended (some cb)) × (x.called ≡ some cb ∷ []))

built-Fits :
    (me : ℕ) (cb : Callback) (name : Text) (x : State) (k : Runner)
    → x.runner ≡ k
    → x.creator ≡ built
    → IsNamed name k x × Fits me cb name k x
    → (x.object.id ≡ some me)
      × (x.object.cb ≡ none)
      × (x.thread_name ≡ x.object.name)
      × IsDone cb name x
built-Fits me cb name x absent e p h = ground arith
built-Fits me cb name x begun e p h = ground arith
built-Fits me cb name x named e p h = ground arith
built-Fits me cb name x (swapped c) e p h = ground arith
built-Fits me cb name x (posted c) e p (a, (o, b, l, n, i, t)) =
    (i, b, t ∙ sym a, inl (e ∙ ap posted o, l, a))
built-Fits me cb name x (calling c rest) e p (a, (o, b, l, n, i, t)) =
    (i, b, t, inr (inl (rest, e ∙ ap (λ c. calling c rest) o, l)))
built-Fits me cb name x (ended c) e p (a, (o, b, l, n, i, t)) =
    (i, b, t, inr (inr (e ∙ ap ended o, l)))

-- When the constructor of `Thread` has come to its end, the object has the id of the new thread and no
-- callback any more, and the new thread's own name is the object's. `run` itself has no access to the
-- object left: it is about to call the callback, and the object has then the name from its
-- constructor, or it has called the callback once. Accesses that are left are those that the
-- callback makes through `t_thread`.
pub built-IsDone :
    (me : ℕ) (cb : Callback) (name : Text) (x : State)
    → Reached me cb name x
    → x.creator ≡ built
    → (x.object.id ≡ some me)
      × (x.object.cb ≡ none)
      × (x.thread_name ≡ x.object.name)
      × IsDone cb name x
built-IsDone me cb name x r p =
    built-Fits me cb name x x.runner refl p (Reached-IsConsistent me cb name r)

progress-Fits :
    (me : ℕ) (cb : Callback) (name : Text) (x : State) (k : Runner)
    → x.runner ≡ k
    → x.creator ≡ waiting
    → Fits me cb name k x
    → (y : State) × Step me x y
progress-Fits me cb name x absent e p h = ground arith
progress-Fits me cb name x begun e p h = (set_id me x, begins e refl)
progress-Fits me cb name x named e p h = (swap_cb x, swaps e refl)
progress-Fits me cb name x (swapped c) e p h = (post c x, posts c e refl)
progress-Fits me cb name x (posted c) e p h = (call_cb c x, calls c e refl)
progress-Fits me cb name x (calling c []) e p h = (record x { runner = ended c }, returns c e refl)
progress-Fits me cb name x (calling c (u ∷ rest)) e p h =
    (use_object c u rest x, uses c u rest e refl)
progress-Fits me cb name x (ended c) e p (o, b, l, n, i, t) = elim n [
  | inl (q, w) ↦ (after 0 x, waits w (wait_passes x 0 q))
  | inr (q, w) ↦ ground arith
]

-- While the constructor waits, one of the two threads can make a step: the wait is no deadlock.
pub waiting_steps :
    (me : ℕ) (cb : Callback) (name : Text) (x : State)
    → Reached me cb name x
    → x.creator ≡ waiting
    → (y : State) × Step me x y
waiting_steps me cb name x r p =
    progress-Fits me cb name x x.runner refl p (Reached-IsConsistent me cb name r).1
