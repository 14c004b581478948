-- ===== src/Tests/Utilities.antt =====
-- The backtrace, the life of a thread's handle, the name of a thread, the locks, and a value that goes
-- from one variable to another, at concrete inputs.
use gwn_framwork.Base.{
  ℕ, suc, ◌-◌, ◌≤◌, ◌≡◌, refl, ap, sym, zero, ◌∙◌, List, [], ◌∷◌, ◌++◌, none, some, ok, length,
  Text, codes, ℤ, arith, true, false,
}
use mathlib.Core.Option.{some-injective}
use gwn_framwork.Util.{
  Execinfo, IsDocumented, Traced, backtrace, backtrace_to_string, lines, to_size,
}
use gwn_framwork.Util.Bounds.{added, unfreed, backtrace_bounds}
use gwn_framwork.Thread.{Thread}
use gwn_framwork.Thread.Life.{Current}
use gwn_framwork.Mutex.{writing, new_guard, use_guard, destroy_guard}
use gwn_framwork.Mutex.Locks.{
  rwmutex, write_lock_type, functions, function_pairs, acquires, releases, guard_functions,
}

-- A stack of two calls, each with its address for a text.
texts : List ℕ → List Text
texts [] = []
texts (a ∷ as') = (a ∷ []) ∷ texts as'

length-texts : (as' : List ℕ) → length (texts as') ≡ length as'
unfolding texts
length-texts [] = refl
length-texts (a ∷ as') = omega (arith, length-texts as')

fit : ℕ → List ℕ → List ℕ
fit zero l = []
fit (suc n) [] = []
fit (suc n) (a ∷ l) = a ∷ fit n l

length-fit : (n : ℕ) (l : List ℕ) → length (fit n l) ≤ n
unfolding fit
length-fit zero l = omega arith
length-fit (suc n) [] = omega arith
length-fit (suc n) (a ∷ l) = omega (arith, length-fit n l)

abbrev stack : Execinfo
stack = record {
  backtrace = λ n. fit n (b'm' ∷ b'f' ∷ []);
  backtrace_symbols = λ as'. some (texts as');
}

stack-IsDocumented : IsDocumented stack
stack-IsDocumented = record {
  in_array = λ n. length-fit n _;
  for_each = λ as' ts e. ap length (some-injective ts _ (sym e)) ∙ length-texts as';
}

backtrace_bounds_example :
    let more = added (to_size (ℤ.pos 1)) (stack.backtrace_symbols (stack.backtrace 64)) in
    (r : Traced) × (backtrace stack [] 64 (ℤ.pos 1) ≡ ok r)
    × (r.bt ≡ [] ++ more)
    × (length more ≤ 64 - to_size (ℤ.pos 1))
    × (r.blocks ≡ unfreed (stack.backtrace_symbols (stack.backtrace 64)))
    × (backtrace_to_string stack 64 (ℤ.pos 1) (codes "  ") ≡ ok (lines (codes "  ") more))
backtrace_bounds_example = backtrace_bounds stack [] 64 (ℤ.pos 1) (codes "  ") stack-IsDocumented

abbrev thread : Thread
thread = record { id = some 7; thread = some 1; cb = none; name = codes "t"; count = 0 }

abbrev current : Current
current = record { thread = some thread; thread_name = codes "t" }

guard_functions_example :
    (n : ℕ) × (functions rwmutex
        (destroy_guard (use_guard (false ∷ true ∷ []) (new_guard writing))).calls
      ≡ some (function_pairs (acquires write_lock_type) (releases rwmutex) (suc n)))
guard_functions_example = guard_functions write_lock_type (false ∷ true ∷ [])
