-- ===== src/Thread.antt =====
-- gwn/thread.h and gwn/thread.cc: the constructor of `Thread` and the function `run` that the new
-- thread executes, with the semaphore of gwn/mutex.cc between them. Each access of one thread to
-- the shared object is a step, those that the callback makes through `t_thread` too.
pub mod Handshake
pub mod Life
pub mod Interrupts
use gwn_framwork.Base.{
  ℕ, zero, suc, ◌≡◌, List, [], ◌∷◌, ◌++◌, Option, none, some, if◌then◌else◌, is_empty, Text, codes,
}

-- What a callback does with the object of its thread: it reads from it, by `Thread::GetThis`, or calls
-- `Thread::SetName`.
pub data Use : Type 0 where
  reads : Use
  renames : Text → Use

-- The callback that is given, with its uses of the object in order.
pub record Callback : Type 0 where
  pub key : ℕ
  pub uses : List Use

abbrev pub uses_of : Option Callback → List Use
uses_of none = []
uses_of (some c) = c.uses

-- The object. The id -1 is `none`, and so is the pthread_t 0; `count` is the semaphore's.
pub record Thread : Type 0 where
  pub id : Option ℕ
  pub thread : Option ℕ
  pub cb : Option Callback
  pub name : Text
  pub count : ℕ

-- `Semaphore::wait`: `none` while it blocks.
unfoldable pub wait : ℕ → Option ℕ
wait zero = none
wait (suc n) = some n

-- `Semaphore::notify`.
unfoldable pub notify : ℕ → ℕ
notify n = suc n

-- The constructor's initialisers and its first test.
unfoldable pub new_thread : Callback → Text → Thread
new_thread cb name = record {
  id = none;
  thread = none;
  cb = some cb;
  name = if is_empty name then codes "UNKNOW" else name;
  count = 0;
}

-- Where the constructor stands: before `pthread_create`, before `m_semaphore.wait()`, at its end, or
-- behind the exception.
pub data Creator : Type 0 where
  creating waiting built failed : Creator

-- Where the new thread stands in `run`: not made, at the beginning, before `cb.swap`, before
-- `m_semaphore.notify()`, before `cb()`, in `cb()` with the uses of the object that are left, and at
-- the end.
pub data Runner : Type 0 where
  absent begun named : Runner
  swapped posted ended : Option Callback → Runner
  calling : Option Callback → List Use → Runner

-- `t_thread_name` of the new thread, and the callbacks that were called.
pub record State : Type 0 where
  pub object : Thread
  pub creator : Creator
  pub runner : Runner
  pub thread_name : Text
  pub called : List (Option Callback)

abbrev pub begin : Callback → Text → State
begin cb name = record {
  object = new_thread cb name;
  creator = creating;
  runner = absent;
  thread_name = [];
  called = [];
}

-- `pthread_create`, with the handle of the new thread, or its failure.
unfoldable pub create : Option ℕ → State → State
create none x = record x { creator = failed }
create (some t) x = record x {
  object = record x.object { thread = some t };
  creator = waiting;
  runner = begun;
}

after_wait : Option ℕ → State → Option State
after_wait none x = none
after_wait (some n) x = some (record x { object = record x.object { count = n }; creator = built })

-- `m_semaphore.wait()` in the constructor.
unfoldable pub finish_construction : State → Option State
unfolding after_wait wait
finish_construction x = after_wait (wait x.object.count) x

-- The first lines of `run`, up to the thread's id.
unfoldable pub set_id : ℕ → State → State
set_id me x = record x {
  object = record x.object { id = some me };
  runner = named;
  thread_name = x.object.name;
}

-- `cb.swap(thread->m_cb)`.
unfoldable pub swap_cb : State → State
swap_cb x = record x { object = record x.object { cb = none }; runner = swapped x.object.cb }

-- `thread->m_semaphore.notify()`.
unfoldable pub post : Option Callback → State → State
unfolding notify
post c x = record x {
  object = record x.object { count = notify x.object.count };
  runner = posted c;
}

-- `cb()`.
unfoldable pub call_cb : Option Callback → State → State
call_cb c x = record x { runner = calling c (uses_of c); called = x.called ++ c ∷ [] }

-- `Thread::SetName` on the new thread, whose `t_thread` is the object.
unfoldable pub rename : Text → State → State
rename t x =
    if is_empty t then x else record x { object = record x.object { name = t }; thread_name = t }

-- The next use of the object by the callback.
unfoldable pub use_object : Option Callback → Use → List Use → State → State
unfolding rename
use_object c reads rest x = record x { runner = calling c rest }
use_object c (renames t) rest x = record (rename t x) { runner = calling c rest }

-- A step of one of the two threads; the new one has the id `me`.
pub data Step (me : ℕ) (x y : State) : Type 0 where
  creates : (r : Option ℕ) → x.creator ≡ creating → y ≡ create r x → Step me x y
  waits : x.creator ≡ waiting → finish_construction x ≡ some y → Step me x y
  begins : x.runner ≡ begun → y ≡ set_id me x → Step me x y
  swaps : x.runner ≡ named → y ≡ swap_cb x → Step me x y
  posts : (c : Option Callback) → x.runner ≡ swapped c → y ≡ post c x → Step me x y
  calls : (c : Option Callback) → x.runner ≡ posted c → y ≡ call_cb c x → Step me x y
  uses :
      (c : Option Callback) (u : Use) (rest : List Use)
      → x.runner ≡ calling c (u ∷ rest)
      → y ≡ use_object c u rest x
      → Step me x y
  returns :
      (c : Option Callback)
      → x.runner ≡ calling c []
      → y ≡ record x { runner = ended c }
      → Step me x y

-- The states that the two threads reach from the beginning of the constructor.
pub data Reached (me : ℕ) (cb : Callback) (name : Text) : State → Type 0 where
  here : Reached me cb name (begin cb name)
  more : {x y : State} → Reached me cb name x → Step me x y → Reached me cb name y
