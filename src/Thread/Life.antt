-- ===== src/Thread/Life.antt =====
-- The handle of the new thread in gwn/thread.cc, which `join` or the destructor releases, and the
-- name of the current thread. What `pthread_join` returns is a parameter: true for 0.
use gwn_framwork.Base.{
  ℕ, ◌≡◌, refl, ap, ◌∙◌, Bool, true, false, List, [], ◌∷◌, ◌++◌, append_assoc, Option, none, some,
  if◌then◌else◌, is_empty, Text, Bool-cases, inl, inr,
}
use gwn_framwork.Thread.{Thread}

-- The calls on the handle.
pub data HandleCall : Type 0 where
  joined join_failed detached : ℕ → HandleCall

pub record Life : Type 0 where
  pub object : Thread
  pub calls : List HandleCall

join_handle : Option ℕ → Bool → Life → Bool × Life
join_handle none done l = (false, l)
join_handle (some t) true l = (
  false,
  record l { object = record l.object { thread = none }; calls = l.calls ++ joined t ∷ [] },
)
join_handle (some t) false l = (true, record l { calls = l.calls ++ join_failed t ∷ [] })

-- `Thread::join`: whether it throws, and what it leaves.
unfoldable pub join : Bool → Life → Bool × Life
unfolding join_handle
join done l = join_handle l.object.thread done l

destroy_handle : Option ℕ → Life → List HandleCall
destroy_handle none l = l.calls
destroy_handle (some t) l = l.calls ++ detached t ∷ []

-- `Thread::~Thread`: the calls over the whole life of the object.
unfoldable pub destroy : Life → List HandleCall
unfolding destroy_handle
destroy l = destroy_handle l.object.thread l

-- Calls of `join`, whether they throw or not.
unfoldable pub joins : List Bool → Life → Life
unfolding join
joins [] l = l
joins (done ∷ rs) l = joins rs (join done l).1

-- The failures before the first success, and the release.
abbrev pub released : ℕ → List Bool → List HandleCall
released t [] = detached t ∷ []
released t (true ∷ rs) = joined t ∷ []
released t (false ∷ rs) = join_failed t ∷ released t rs

joins_released :
    (rs : List Bool) (l : Life) → l.object.thread ≡ none → destroy (joins rs l) ≡ l.calls
unfolding destroy joins
joins_released [] l h = rw (h) refl
joins_released (done ∷ rs) l h =
    let same : (join done l).1 ≡ l = unfold join in rw (h) refl in
    ap (λ l. destroy (joins rs l)) same ∙ joins_released rs l h

joins_held :
    (t : ℕ) (rs : List Bool) (l : Life)
    → l.object.thread ≡ some t
    → destroy (joins rs l) ≡ l.calls ++ released t rs
unfolding destroy joins
joins_held t [] l h = rw (h) refl
joins_held t (true ∷ rs) l h =
    let l' = record l {
      object = record l.object { thread = none };
      calls = l.calls ++ joined t ∷ [];
    } in
    let same : (join true l).1 ≡ l' = unfold join in rw (h) refl in
    ap (λ l. destroy (joins rs l)) same ∙ joins_released rs l' refl
joins_held t (false ∷ rs) l h =
    let l' = record l { calls = l.calls ++ join_failed t ∷ [] } in
    let same : (join false l).1 ≡ l' = unfold join in rw (h) refl in
    ap (λ l. destroy (joins rs l)) same
    ∙ joins_held t rs l' h
    ∙ append_assoc l.calls (join_failed t ∷ []) (released t rs)

-- Over the life of an object whose thread was created, from any calls of `join` to the destructor, the
-- handle is released exactly once: by the first `pthread_join` that succeeds, behind which no call
-- is made any more, or else by the detach in the destructor. Before it are only the failed calls of
-- `pthread_join`.
pub destroy-joins :
    (t : ℕ) (rs : List Bool) (x : Thread)
    → x.thread ≡ some t
    → destroy (joins rs (record { object = x; calls = [] })) ≡ released t rs
destroy-joins t rs x h = joins_held t rs (record { object = x; calls = [] }) h

-- `t_thread` and `t_thread_name` of one thread.
pub record Current : Type 0 where
  pub thread : Option Thread
  pub thread_name : Text

-- `Thread::GetThis` and `Thread::GetName`.
abbrev pub get_this : Current → Option Thread
get_this x = x.thread

abbrev pub get_name : Current → Text
get_name x = x.thread_name

renamed : Text → Option Thread → Option Thread
renamed name none = none
renamed name (some x) = some (record x { name = name })

-- `Thread::SetName`.
unfoldable pub set_name : Text → Current → Current
unfolding renamed
set_name name x =
    if is_empty name then x else record x { thread = renamed name x.thread; thread_name = name }

-- The object of the current thread, if it has one, has its name.
abbrev pub Agrees : Option Thread → Text → Type 0
Agrees none name = Unit
Agrees (some x) name = x.name ≡ name

renamed-Agrees : (name : Text) (o : Option Thread) → Agrees (renamed name o) name
unfolding renamed
renamed-Agrees name none = tt
renamed-Agrees name (some x) = refl

-- `GetName` returns the name that `SetName` got, and the one before if it was empty; and the object of
-- the current thread, where it has one, keeps having that name.
pub set_name_lem :
    (name : Text) (x : Current)
    → Agrees (get_this x) (get_name x)
    → (get_name (set_name name x) ≡ (if is_empty name then get_name x else name))
      × Agrees (get_this (set_name name x)) (get_name (set_name name x))
unfolding set_name
set_name_lem name x h = elim (Bool-cases (is_empty name)) [
  | inl p ↦ rw (p) (refl, h)
  | inr p ↦ rw (p) (refl, renamed-Agrees name x.thread)
]
