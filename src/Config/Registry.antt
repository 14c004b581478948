-- ===== src/Config/Registry.antt =====
-- The registry of `Config` in gwn/config.h and gwn/config.cc. A variable of any type is a pair of the
-- type's number and the `ConfigVar`; pointers to variables are addresses in a store. Log lines and
-- the registry's lock are left out.
pub mod Names
use gwn_framwork.Base.{
  ℕ, Bool, true, false, List, [], ◌∷◌, ◌++◌, Option, none, some, ◌==◌, if◌then◌else◌, length,
  get_elem?, Text, codes, find_name,
}
use gwn_framwork.Config.Var.{ConfigType, ConfigVar, new_var}

-- The types that variables are made of, and their conversions.
pub record Types : Type 1 where
  pub el : ℕ → Type 0
  pub config_type : (t : ℕ) → ConfigType (el t)
  pub callback : Type 0

-- `ConfigVarBase`.
pub record AnyVar (u : Types) : Type 0 where
  pub type : ℕ
  pub var : ConfigVar (u.el type) u.callback

-- The variables that are there, and `s_datas`.
pub record Registry (u : Types) : Type 0 where
  pub vars : List (AnyVar u)
  pub datas : List (Text × ℕ)

-- What `LookUp` returns or throws.
pub data LookedUp : Type 0 where
  pointer : Option ℕ → LookedUp
  invalid_argument : Text → LookedUp

abbrev pub name_chars : Text
name_chars = codes "abcdefghikjlmnopqrstuvwxyz._012345678"

abbrev pub has_char : ℕ → Text → Bool
has_char c [] = false
has_char c (d ∷ s) = if c == d then true else has_char c s

unfoldable pub is_name_char : ℕ → Bool
is_name_char c = has_char c name_chars

-- `find_first_not_of(name_chars) == npos`.
unfoldable pub is_valid_name : Text → Bool
unfolding is_name_char
is_valid_name [] = true
is_valid_name (c ∷ s) = if is_name_char c then is_valid_name s else false

module _ {u : Types} where
  abbrev pub has_type : ℕ → Option (AnyVar u) → Bool
  has_type t none = false
  has_type t (some x) = t == x.type

  -- `std::dynamic_pointer_cast<ConfigVar<T>>`.
  unfoldable pub dynamic_cast : Registry u → ℕ → ℕ → Option ℕ
  dynamic_cast r t a = if has_type t (get_elem? r.vars a) then some a else none

  -- `LookUp` of a name with a default value, on what `find` returns.
  unfoldable pub found_or_created :
      (t : ℕ) → Text → u.el t → Text → Registry u → Option ℕ → LookedUp × Registry u
  unfolding dynamic_cast
  found_or_created t name default_value description r (some a) = (pointer (dynamic_cast r t a), r)
  found_or_created t name default_value description r none =
      if is_valid_name name
      then (
        pointer (some (length r.vars)),
        record {
          vars = r.vars ++ record { type = t; var = new_var name default_value description } ∷ [];
          datas = (name, length r.vars) ∷ r.datas;
        },
      )
      else (invalid_argument name, r)

  -- `LookUp(name, default_value, description)`.
  unfoldable pub look_up_or_create :
      (t : ℕ) → Text → u.el t → Text → Registry u → LookedUp × Registry u
  unfolding found_or_created
  look_up_or_create t name default_value description r =
      found_or_created t name default_value description r (find_name name r.datas)

  -- `LookupBase`.
  unfoldable pub lookup_base : Text → Registry u → Option ℕ
  lookup_base name r = find_name name r.datas

  -- `LookUp(name)`, on what `find` returns.
  unfoldable pub cast_found : ℕ → Registry u → Option ℕ → Option ℕ
  unfolding dynamic_cast
  cast_found t r none = none
  cast_found t r (some a) = dynamic_cast r t a

  -- `LookUp(name)`.
  unfoldable pub look_up : ℕ → Text → Registry u → Option ℕ
  unfolding cast_found
  look_up t name r = cast_found t r (find_name name r.datas)
