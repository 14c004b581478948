-- ===== src/Config/Yaml.antt =====
-- `ListAllMember` and `Config::LoadFromYaml` of gwn/config.cc. `YAML::Node` is a parameter. The
-- recursion over nodes has fuel. What the callbacks of the variables do is left out, but for
-- how they end.
pub mod Members
pub mod Load
use gwn_framwork.Base.{
  ℕ, zero, suc, ◌<◌, Bool, true, false, List, [], ◌∷◌, ◌++◌, map, Option, none, some, Result, ok,
  fault, endless, ◌>>=◌, if◌then◌else◌, get_elem?, set, is_empty, Text, codes, Memᴰ,
}
use gwn_framwork.Yaml.{Yaml}
use gwn_framwork.Config.Var.{tolower, from_string, Call, Ending, Returned, yields, escapes}
use gwn_framwork.Config.Registry.{Types, AnyVar, Registry, is_valid_name, lookup_base}

-- No node holds itself, which a document without recursive aliases grants: `depth` bounds how far
-- down the maps go.
pub record IsFinite (y : Yaml) : Type 0 where
  pub depth : y.node → ℕ
  pub member_depth : (n : y.node) (e : Text × y.node) → Memᴰ e (y.members n) → depth e.1 < depth n

module _ {ℓ κ} {A : Type ℓ} {B : Type κ} where
  -- The outputs of a loop's steps, in order.
  abbrev pub gather : (A → Result (List B)) → List A → Result (List B)
  gather f [] = ok []
  gather f (a ∷ l) = f a >>= λ out. gather f l >>= λ rest. ok (out ++ rest)

-- The name of a member.
unfoldable pub join : Text → Text → Text
join [] key = key
join (c ∷ prefix) key = c ∷ prefix ++ codes "." ++ key

module _ (y : Yaml) where
  -- `ListAllMember`: the pairs that it appends to `output`.
  unfoldable pub list_all_member : ℕ → Text → y.node → Result (List (Text × y.node))
  unfolding join
  list_all_member zero prefix node = fault endless
  list_all_member (suc n) prefix node =
      let below = gather (λ e. list_all_member n (join prefix e.0) e.1) (y.members node) in
      if is_valid_name prefix
      then (if y.is_map node
          then (below >>= λ out. ok ((prefix, node) ∷ out))
          else ok ((prefix, node) ∷ []))
      else ok []

  -- The text that `fromString` gets.
  abbrev pub text_of : y.node → Text
  text_of node = if y.is_scalar node then y.scalar node else y.emit node

abbrev pub is_escape : Returned → Bool
is_escape (yields b) = false
is_escape escapes = true

-- The registry, and whether an exception has left `fromString`.
module _ {u : Types} (ends : (t : ℕ) → Call (u.el t) u.callback → Ending) where
  abbrev pub read_into : Text → Option (AnyVar u) → ℕ → Registry u → Registry u × Bool
  read_into s none a r = (r, false)
  read_into s (some x) a r =
      let (returned, o) = from_string (u.config_type x.type) (ends x.type) s x.var in
      (record r { vars = set r.vars a (record { type = x.type; var = o.var }) }, is_escape returned)

  -- `var->fromString`, when `var` is not null.
  unfoldable pub set_var : Text → Option ℕ → Registry u → Registry u × Bool
  set_var s none r = (r, false)
  set_var s (some a) r = read_into s (get_elem? r.vars a) a r

module _ {u : Types} (y : Yaml) (ends : (t : ℕ) → Call (u.el t) u.callback → Ending) where
  -- The body of the loop of `LoadFromYaml`.
  unfoldable pub load_one : Text → y.node → Registry u → Registry u × Bool
  unfolding set_var lookup_base
  load_one key node r =
      if is_empty key
      then (r, false)
      else set_var ends (text_of y node) (lookup_base (map tolower key) r) r

  -- The loop, which an exception leaves.
  unfoldable pub load_all : List (Text × y.node) → Registry u → Registry u × Bool
  unfolding load_one
  load_all [] r = (r, false)
  load_all ((key, node) ∷ nodes) r =
      let (r', escaped) = load_one key node r in
      let rest = load_all nodes r' in if escaped then (r', true) else rest

  -- `LoadFromYaml`.
  unfoldable pub load_from_yaml : ℕ → y.node → Registry u → Result (Registry u × Bool)
  unfolding list_all_member load_all
  load_from_yaml fuel root r = list_all_member y fuel [] root >>= λ nodes. ok (load_all nodes r)
