-- ===== src/Thread/Interrupts.antt =====
-- The constructor of `Thread` of gwn/thread.cc when its wait at the semaphore fails.
use gwn_framwork.Base.{ℕ, zero, suc, ◌≡◌, ◌<◌, refl, ◌∙◌, sym, Option, none, some, arith, Text}
use gwn_framwork.Mutex.Semaphore.{Outcome, counts, throws, Waited, blocks, comes_to, wait}
use gwn_framwork.Thread.{
  waiting, built, failed, Runner, absent, begun, named, swapped, posted, ended, calling, Callback,
  State, finish_construction, wait as wait_for, Reached,
}
use gwn_framwork.Thread.Handshake.{Fits, Reached-IsConsistent}

after_outcome : Outcome → State → State
after_outcome (counts n) x = record x { object = record x.object { count = n }; creator = built }
after_outcome (throws e) x = record x { creator = failed }

after_wait : Waited → State → Option State
unfolding after_outcome
after_wait blocks x = none
after_wait (comes_to o) x = some (after_outcome o x)

-- `m_semaphore.wait()` in the constructor, where sem_wait returns `rt`: the exception leaves the
-- constructor.
unfoldable pub construct : ℕ → State → Option State
unfolding after_wait wait
construct rt x = after_wait (wait rt x.object.count) x

-- The steps of `run` itself that are left and that use the object; what the callback does is not
-- counted.
unfoldable pub accesses : Runner → ℕ
accesses begun = 3
accesses named = 2
accesses (swapped c) = 1
accesses _ = 0

construct_success : (x : State) (n : ℕ) → x.object.count ≡ n → construct 0 x ≡ finish_construction x
unfolding construct finish_construction wait_for
construct_success x zero e = rw (e) refl
construct_success x (suc n) e = rw (e) refl

construct_failure :
    (e n : ℕ) (x : State)
    → x.object.count ≡ n
    → construct (suc e) x ≡ some (record x { creator = failed })
unfolding construct
construct_failure e zero x h = rw (h) refl
construct_failure e (suc n) x h = rw (h) refl

waits_with_none : (x : State) (n : ℕ) → x.object.count ≡ n → finish_construction x ≡ none → n ≡ 0
unfolding finish_construction wait_for
waits_with_none x zero e h = refl
waits_with_none x (suc n) e h = ground arith

blocked-accesses :
    (me : ℕ) (cb : Callback) (name : Text) (x : State) (k : Runner)
    → x.creator ≡ waiting
    → x.object.count ≡ 0
    → Fits me cb name k x
    → 0 < accesses k
unfolding accesses
blocked-accesses me cb name x absent p q h = ground arith
blocked-accesses me cb name x begun p q h = omega arith
blocked-accesses me cb name x named p q h = omega arith
blocked-accesses me cb name x (swapped c) p q h = omega arith
blocked-accesses me cb name x (posted c) p q h = ground arith
blocked-accesses me cb name x (calling c rest) p q h = ground arith
blocked-accesses me cb name x (ended c) p q h = ground arith

-- Wherever the wait in the constructor of `Thread` blocks, sem_wait may come back with an error, as
-- it does when a signal handler interrupts it. The constructor then fails, so that there is no
-- object any more, and the new thread has steps left that use the object.
pub construct-accesses :
    (me : ℕ) (cb : Callback) (name : Text) (x : State) (e : ℕ)
    → Reached me cb name x
    → x.creator ≡ waiting
    → construct 0 x ≡ none
    → (y : State) × (construct (suc e) x ≡ some y) × (y.creator ≡ failed) × (0 < accesses y.runner)
construct-accesses me cb name x e r p h =
    let none_left =
      waits_with_none x x.object.count refl (sym (construct_success x x.object.count refl) ∙ h) in
    (
      record x { creator = failed },
      construct_failure e x.object.count x refl,
      refl,
      blocked-accesses me cb name x x.runner p none_left (Reached-IsConsistent me cb name r).1,
    )
