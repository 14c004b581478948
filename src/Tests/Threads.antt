-- ===== src/Tests/Threads.antt =====
-- A thread that is made, and a guard, at concrete inputs.
use gwn_framwork.Base.{◌<◌, ◌≡◌, refl, [], ◌∷◌, none, some, codes}
use gwn_framwork.Thread.{
  waiting, failed, built, begun, named, swapped, posted, ended, Callback, reads, renames, calls,
  uses, returns, call_cb, use_object, rename, State, create, finish_construction, set_id, swap_cb,
  post, notify, new_thread, Step, creates, waits, begins, swaps, posts, Reached, here, more, wait,
}
use gwn_framwork.Thread.Interrupts.{construct, accesses, construct-accesses}
use gwn_framwork.Mutex.Semaphore.{wait as wait_now}
use gwn_framwork.Thread.Handshake.{IsDone, built-IsDone, waiting_steps}

-- A callback that reads from its thread's object and renames it.
abbrev job : Callback
job = record { key = 3; uses = reads ∷ renames (codes "u") ∷ [] }

-- The constructor has made the thread 7 for the callback, and waits.
abbrev made : State
made = record {
  object = record { id = none; thread = some 1; cb = some job; name = codes "t"; count = 0 };
  creator = waiting;
  runner = begun;
  thread_name = [];
  called = [];
}

made-Reached : Reached 7 job (codes "t") made
unfolding new_thread create
made-Reached = more here (creates (some 1) refl refl)

abbrev with_id : State
with_id = record made {
  object = record made.object { id = some 7 };
  runner = named;
  thread_name = codes "t";
}

abbrev without_cb : State
without_cb = record with_id {
  object = record with_id.object { cb = none };
  runner = swapped (some job);
}

abbrev notified : State
notified = record without_cb {
  object = record without_cb.object { count = 1 };
  runner = posted (some job);
}

abbrev finished : State
finished = record notified { object = record notified.object { count = 0 }; creator = built }

swap-Step : Step 7 with_id without_cb
swap-Step = swaps refl (unfold swap_cb in refl)

post-Step : Step 7 without_cb notified
post-Step = posts (some job) refl (unfold post notify in refl)

-- The callback has run to its end meanwhile.
abbrev returned : State
returned = record finished {
  object = record finished.object { name = codes "u" };
  thread_name = codes "u";
  runner = ended (some job);
  called = some job ∷ [];
}

returned-Reached : Reached 7 job (codes "t") returned
unfolding set_id finish_construction wait call_cb use_object rename
returned-Reached =
    more
      (more
        (more
          (more
            (more (more (more (more made-Reached (begins refl refl)) swap-Step) post-Step)
              (waits refl refl))
            (calls (some job) refl refl))
          (uses (some job) reads (renames (codes "u") ∷ []) refl refl))
        (uses (some job) (renames (codes "u")) [] refl refl))
      (returns (some job) refl refl)

built-IsDone_example :
    (returned.object.id ≡ some 7)
    × (returned.object.cb ≡ none)
    × (returned.thread_name ≡ returned.object.name)
    × IsDone job (codes "t") returned
built-IsDone_example = built-IsDone 7 job (codes "t") returned returned-Reached refl

waiting_steps_example : (y : State) × Step 7 made y
waiting_steps_example = waiting_steps 7 job (codes "t") made made-Reached refl

-- The wait is interrupted at once, with EINTR.
construct-accesses_example :
    (y : State) × (construct 4 made ≡ some y) × (y.creator ≡ failed) × (0 < accesses y.runner)
construct-accesses_example =
    construct-accesses 7 job (codes "t") made 3 made-Reached refl
      (unfold construct wait_now in refl)
