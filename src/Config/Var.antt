-- ===== src/Config/Var.antt =====
-- `ConfigVarBase` and `ConfigVar` of gwn/config.h. A callback is a value of the type `C`; the calls
-- that are made are listed with their arguments. Log lines are left out.
pub mod Listeners
pub mod Transfer
use gwn_framwork.Base.{
  ℕ, ◌+◌, Bool, true, false, ◌&&◌, List, [], ◌∷◌, map, Option, none, some, ◌==◌, ltb, leb,
  if◌then◌else◌, Text,
}
use gwn_framwork.Fiber.{inc64}

-- `::tolower`.
unfoldable pub tolower : ℕ → ℕ
tolower c = if leb b'A' c && leb c b'Z' then c + 32 else c

-- The type's `==`, `FromStr` and `ToStr`; `none` is a `std::exception`, as the conversions of the
-- library throw.
pub record ConfigType (T : Type 0) : Type 0 where
  pub eq : T → T → Bool
  pub from_str : Text → Option T
  pub to_str : T → Option Text

-- `m_cbs` is ordered by the keys.
pub record ConfigVar (T C : Type 0) : Type 0 where
  pub name : Text
  pub description : Text
  pub val : T
  pub cbs : List (ℕ × C)

-- A call of a callback with the old and the new value.
pub record Call (T C : Type 0) : Type 0 where
  pub callback : C
  pub old_value : T
  pub new_value : T

-- How a call of a callback ends: it returns, or it throws a `std::exception` or something else.
pub data Ending : Type 0 where
  completes std_exception other_exception : Ending

-- What `fromString` returns, or that an exception leaves it.
pub data Returned : Type 0 where
  yields : Bool → Returned
  escapes : Returned

-- `fromString` catches a `std::exception`, and no other one.
abbrev pub caught : Ending → Returned
caught completes = yields true
caught std_exception = yields false
caught other_exception = escapes

-- What `setValue` leaves: the variable, the calls made, and how it ends.
pub record Outcome (T C : Type 0) : Type 0 where
  pub var : ConfigVar T C
  pub calls : List (Call T C)
  pub ending : Ending

module _ {C : Type 0} where
  -- `m_cbs[key] = cb`, in an ordered map.
  unfoldable pub insert : ℕ → C → List (ℕ × C) → List (ℕ × C)
  insert k c [] = (k, c) ∷ []
  insert k c ((j, d) ∷ m) =
      let rest = insert k c m in
      if k == j then (k, c) ∷ m else if ltb k j then (k, c) ∷ (j, d) ∷ m else (j, d) ∷ rest

  unfoldable pub erase : ℕ → List (ℕ × C) → List (ℕ × C)
  erase k [] = []
  erase k ((j, d) ∷ m) = if k == j then m else (j, d) ∷ erase k m

  unfoldable pub find : ℕ → List (ℕ × C) → Option C
  find k [] = none
  find k ((j, d) ∷ m) = if k == j then some d else find k m

module _ {T C : Type 0} where
  -- The constructors of `ConfigVarBase` and `ConfigVar`.
  unfoldable pub new_var : Text → T → Text → ConfigVar T C
  unfolding tolower
  new_var name default_value description = record {
    name = map tolower name;
    description = description;
    val = default_value;
    cbs = [];
  }

  call_of : T → T → C → Call T C
  call_of old new c = record { callback = c; old_value = old; new_value = new }

  -- The loop goes on behind a call that returns.
  abbrev pub go_on : Ending → Call T C → List (Call T C) × Ending → List (Call T C) × Ending
  go_on completes c (calls, e) = (c ∷ calls, e)
  go_on std_exception c rest = (c ∷ [], std_exception)
  go_on other_exception c rest = (c ∷ [], other_exception)

  -- The loop over `m_cbs`, up to a callback that throws.
  unfoldable pub notify : (Call T C → Ending) → T → T → List (ℕ × C) → List (Call T C) × Ending
  unfolding call_of
  notify ends old new [] = ([], completes)
  notify ends old new ((k, c) ∷ cbs) =
      go_on (ends (call_of old new c)) (call_of old new c) (notify ends old new cbs)

  -- `m_val = v`, which an exception of the loop passes over.
  abbrev pub assigned : Ending → T → ConfigVar T C → ConfigVar T C
  assigned completes v x = record x { val = v }
  assigned _ v x = x

  -- `setValue`; `ends` tells how each call of a callback ends.
  unfoldable pub set_value : ConfigType T → (Call T C → Ending) → T → ConfigVar T C → Outcome T C
  set_value t ends v x =
      if t.eq v x.val
      then record { var = x; calls = []; ending = completes }
      else (let (calls, e) = notify ends x.val v x.cbs in
          record { var = assigned e v x; calls = calls; ending = e })

  -- The body of `fromString` on what `FromStr` returns, or its `std::exception`.
  unfoldable pub set_read :
      ConfigType T → (Call T C → Ending) → ConfigVar T C → Option T → Returned × Outcome T C
  set_read t ends x none = (yields false, record { var = x; calls = []; ending = std_exception })
  set_read t ends x (some v) = let o = set_value t ends v x in (caught o.ending, o)

  -- `fromString`: its result, and what `setValue` leaves.
  unfoldable pub from_string :
      ConfigType T → (Call T C → Ending) → Text → ConfigVar T C → Returned × Outcome T C
  unfolding set_read
  from_string t ends s x = set_read t ends x (t.from_str s)

  -- `toString`: the empty text at an exception.
  unfoldable pub to_string : ConfigType T → ConfigVar T C → Text
  to_string t x = elim (t.to_str x.val) [ none ↦ [] | some s ↦ s ]

  -- `addListener`: `id` is the type's static `s_fun_id`; the new id is returned.
  unfoldable pub add_listener : ℕ → C → ConfigVar T C → ℕ × ConfigVar T C
  unfolding insert inc64
  add_listener id c x = (inc64 id, record x { cbs = insert (inc64 id) c x.cbs })

  -- `delListener`.
  unfoldable pub del_listener : ℕ → ConfigVar T C → ConfigVar T C
  unfolding erase
  del_listener k x = record x { cbs = erase k x.cbs }

  -- `getListener`.
  unfoldable pub get_listener : ℕ → ConfigVar T C → Option C
  unfolding find
  get_listener k x = find k x.cbs

  -- `clearListener`.
  unfoldable pub clear_listener : ConfigVar T C → ConfigVar T C
  clear_listener x = record x { cbs = [] }
