-- ===== src/Config/Cast.antt =====
-- The specialisations of `LexicalCast` in gwn/config.h: containers from and to a text of YAML. A
-- `std::set` is a list in increasing order, a `std::map` one of pairs in the order of their keys,
-- and an unordered container a list in the order of its iteration, in which a new element goes to
-- the end. `none` is an exception.
pub mod Ordered
pub mod Sequences
pub mod Sets
pub mod Lookup
pub mod Maps
use gwn_framwork.Base.{
  ℕ, Bool, true, false, List, [], ◌∷◌, ◌++◌, Option, none, some, and_then, if◌then◌else◌, Text,
  text_eq, text_lt,
}
use gwn_framwork.Yaml.{Yaml}

module _ {T : Type 0} where
  -- `insert` of a `std::set`, and of a `std::map` on pairs: an equivalent element stays.
  unfoldable pub insert_set : (T → T → Bool) → T → List T → List T
  insert_set lt x [] = x ∷ []
  insert_set lt x (a ∷ s) =
      let rest = insert_set lt x s in
      if lt x a then x ∷ a ∷ s else if lt a x then a ∷ rest else a ∷ s

  -- `insert` of an unordered container.
  unfoldable pub insert_unordered : (T → T → Bool) → T → List T → List T
  insert_unordered eq x [] = x ∷ []
  insert_unordered eq x (a ∷ s) =
      let rest = insert_unordered eq x s in if eq a x then a ∷ s else a ∷ rest

  -- The order and the equality of the keys of pairs.
  abbrev pub key_lt : Text × T → Text × T → Bool
  key_lt p q = text_lt p.0 q.0

  abbrev pub key_eq : Text × T → Text × T → Bool
  key_eq p q = text_eq p.0 q.0

module _ (y : Yaml) {T : Type 0} where
  -- The loop over `node[i]`, into a vector or a list.
  unfoldable pub read_items : (Text → Option T) → List y.node → Option (List T)
  read_items from [] = some []
  read_items from (n ∷ ns) =
      and_then (from (y.emit n)) (λ v. and_then (read_items from ns) (λ vs. some (v ∷ vs)))

  -- The loop over `node[i]`, into a set.
  unfoldable pub insert_items :
      (T → List T → List T) → (Text → Option T) → List y.node → List T → Option (List T)
  insert_items insert from [] s = some s
  insert_items insert from (n ∷ ns) s =
      and_then (from (y.emit n)) (λ v. insert_items insert from ns (insert v s))

  -- The loop over the pairs, into a map.
  unfoldable pub insert_pairs :
      (Text × T → List (Text × T) → List (Text × T))
      → (Text → Option T)
      → List (Text × y.node)
      → List (Text × T)
      → Option (List (Text × T))
  insert_pairs insert from [] m = some m
  insert_pairs insert from ((k, n) ∷ ns) m =
      and_then (from (y.emit n)) (λ v. insert_pairs insert from ns (insert (k, v) m))

  -- The loop of `node.push_back(YAML::Load(...))`.
  unfoldable pub push_items : (T → Option Text) → List T → y.node → Option y.node
  push_items to [] n = some n
  push_items to (v ∷ vs) n =
      and_then (to v) (λ s. and_then (y.load s) (λ m. push_items to vs (y.push_back n m)))

  -- The loop of `node[i.first] = YAML::Load(...)`.
  unfoldable pub assign_pairs : (T → Option Text) → List (Text × T) → y.node → Option y.node
  assign_pairs to [] n = some n
  assign_pairs to ((k, v) ∷ vs) n =
      and_then (to v) (λ s. and_then (y.load s) (λ m. assign_pairs to vs (y.assign n k m)))

  -- `std::string` to `std::vector<T>`, `std::list<T>`, `std::set<T>`, `std::unordered_set<T>`,
  -- `std::map` and `std::unordered_map` of `std::string` and `T`.
  unfoldable pub read_vector : (Text → Option T) → Text → Option (List T)
  unfolding read_items
  read_vector from v = and_then (y.load v) (λ node. read_items from (y.items node))

  unfoldable pub read_list : (Text → Option T) → Text → Option (List T)
  unfolding read_items
  read_list from v = and_then (y.load v) (λ node. read_items from (y.items node))

  unfoldable pub read_set : (T → T → Bool) → (Text → Option T) → Text → Option (List T)
  unfolding insert_items insert_set
  read_set lt from v =
      and_then (y.load v) (λ node. insert_items (insert_set lt) from (y.items node) [])

  unfoldable pub read_unordered_set : (T → T → Bool) → (Text → Option T) → Text → Option (List T)
  unfolding insert_items insert_unordered
  read_unordered_set eq from v =
      and_then (y.load v) (λ node. insert_items (insert_unordered eq) from (y.items node) [])

  unfoldable pub read_map : (Text → Option T) → Text → Option (List (Text × T))
  unfolding insert_pairs insert_set
  read_map from v =
      and_then (y.load v) (λ node. insert_pairs (insert_set key_lt) from (y.members node) [])

  unfoldable pub read_unordered_map : (Text → Option T) → Text → Option (List (Text × T))
  unfolding insert_pairs insert_unordered
  read_unordered_map from v =
      and_then (y.load v) (λ node. insert_pairs (insert_unordered key_eq) from (y.members node) [])

  -- And back.
  unfoldable pub show_vector : (T → Option Text) → List T → Option Text
  unfolding push_items
  show_vector to v = and_then (push_items to v y.sequence) (λ node. some (y.emit node))

  unfoldable pub show_list : (T → Option Text) → List T → Option Text
  unfolding push_items
  show_list to v = and_then (push_items to v y.sequence) (λ node. some (y.emit node))

  unfoldable pub show_set : (T → Option Text) → List T → Option Text
  unfolding push_items
  show_set to v = and_then (push_items to v y.sequence) (λ node. some (y.emit node))

  unfoldable pub show_unordered_set : (T → Option Text) → List T → Option Text
  unfolding push_items
  show_unordered_set to v = and_then (push_items to v y.sequence) (λ node. some (y.emit node))

  unfoldable pub show_map : (T → Option Text) → List (Text × T) → Option Text
  unfolding assign_pairs
  show_map to v = and_then (assign_pairs to v y.mapping) (λ node. some (y.emit node))

  unfoldable pub show_unordered_map : (T → Option Text) → List (Text × T) → Option Text
  unfolding assign_pairs
  show_unordered_map to v = and_then (assign_pairs to v y.mapping) (λ node. some (y.emit node))
