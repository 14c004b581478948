-- ===== src/Util.antt =====
-- gwn/util.cc: the backtrace, and the id of the running fiber. What `backtrace` and `backtrace_symbols` return is a parameter; log
-- lines are left out.
pub mod Bounds
use gwn_framwork.Base.{
  ℕ, ◌%◌, zero, suc, ◌+◌, ◌-◌, ◌^◌, ◌≤◌, ◌≡◌, Bool, List, [], ◌∷◌, ◌++◌, Option, none, some, Result,
  ok, fault, out_of_bounds, endless, ◌>>=◌, ltb, if◌then◌else◌, length, get_elem?, Text, codes, ℤ,
}
use gwn_framwork.Fiber.{Fibers, Tls, get_fiber_id as fiber_id}

-- `GetFiberId`, where the uint64_t becomes a uint32_t.
abbrev pub get_fiber_id : Fibers → Tls → Result ℕ
get_fiber_id fs t = do id ← fiber_id fs t; ok (id % 2 ^ 32)

-- The addresses that `backtrace` puts into an array of a size, and the texts of `backtrace_symbols`:
-- `none` is a null pointer.
pub record Execinfo : Type 0 where
  pub backtrace : ℕ → List ℕ
  pub backtrace_symbols : List ℕ → Option (List Text)

-- The documented behaviour: no more addresses than the array takes, and a text for each.
pub record IsDocumented (x : Execinfo) : Type 0 where
  pub in_array : (size : ℕ) → length (x.backtrace size) ≤ size
  pub for_each :
      (as' : List ℕ) (ts : List Text) → x.backtrace_symbols as' ≡ some ts → length ts ≡ length as'

-- The conversion of an int to a size_t.
abbrev pub to_size : ℤ → ℕ
to_size (ℤ.pos n) = n
to_size (ℤ.negsuc n) = 2 ^ 64 - suc n

-- The vector, and the blocks of memory that were allocated and not freed.
pub record Traced : Type 0 where
  pub bt : List Text
  pub blocks : ℕ

-- `bt.push_back(strings[i])`.
read : Option Text → List Text → Result (List Text)
read none bt = fault out_of_bounds
read (some t) bt = ok (bt ++ t ∷ [])

-- The loop over `strings`; `s` rounds are enough.
unfoldable pub collect : ℕ → ℕ → ℕ → List Text → List Text → Result (List Text)
unfolding read
collect zero i s strings bt = if ltb i s then fault endless else ok bt
collect (suc n) i s strings bt =
    let next = read (get_elem? strings i) bt >>= λ bt'. collect n (suc i) s strings bt' in
    if ltb i s then next else ok bt

-- Behind `backtrace_symbols`: with a null pointer the function returns, and `array` is not freed.
unfoldable pub with_strings : ℕ → ℕ → Option (List Text) → List Text → Result Traced
unfolding collect
with_strings skip s none bt = ok (record { bt = bt; blocks = 1 })
with_strings skip s (some strings) bt =
    collect s skip s strings bt >>= λ bt'. ok (record { bt = bt'; blocks = 0 })

-- `Backtrace`, for a size that is not negative, where `malloc` gives the block.
unfoldable pub backtrace : Execinfo → List Text → ℕ → ℤ → Result Traced
unfolding with_strings
backtrace x bt size skip =
    let array = x.backtrace size in
    with_strings (to_size skip) (length array) (x.backtrace_symbols array) bt

-- The loop of `BacktraceToString`.
unfoldable pub lines : Text → List Text → Text
lines prefix [] = []
lines prefix (t ∷ bt) = prefix ++ (t ++ (codes "\n" ++ lines prefix bt))

-- `BacktraceToString`.
unfoldable pub backtrace_to_string : Execinfo → ℕ → ℤ → Text → Result Text
unfolding backtrace lines
backtrace_to_string x size skip prefix = backtrace x [] size skip >>= λ r. ok (lines prefix r.bt)
