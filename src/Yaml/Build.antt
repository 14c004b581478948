-- ===== src/Yaml/Build.antt =====
-- Nodes that are built by a loop.
use gwn_framwork.Base.{◌≡◌, sym, false, List, [], ◌∷◌, ◌++◌, Text, append_assoc, append-nil}
use gwn_framwork.Yaml.{Yaml, IsLawful, IsItems, IsMembers, has_key}

module _ (y : Yaml) where
  -- `push_back` of each item.
  unfoldable pub push_all : List y.node → y.node → y.node
  push_all [] n = n
  push_all (m ∷ l) n = push_all l (y.push_back n m)

  -- An assignment of each pair.
  unfoldable pub assign_all : List (Text × y.node) → y.node → y.node
  assign_all [] n = n
  assign_all ((k, m) ∷ l) n = assign_all l (y.assign n k m)

  -- The keys of the second list are all different, and none is in the first one.
  abbrev pub AreNew : List (Text × y.node) → List (Text × y.node) → Type 0
  AreNew old [] = Unit
  AreNew old ((k, m) ∷ l) = (has_key y k old ≡ false) × AreNew (old ++ (k, m) ∷ []) l

module _ (y : Yaml) (lawful : IsLawful y) where
  pub push_all-IsItems :
      (l old : List y.node) (n : y.node) → IsItems y n old → IsItems y (push_all y l n) (old ++ l)
  unfolding push_all
  push_all-IsItems [] old n h = rw (append-nil old) h
  push_all-IsItems (m ∷ l) old n h =
      rw (sym (append_assoc old (m ∷ []) l))
        (push_all-IsItems l (old ++ m ∷ []) (y.push_back n m) (lawful.push_items n m old h))

  pub assign_all-IsMembers :
      (l old : List (Text × y.node)) (n : y.node)
      → IsMembers y n old
      → AreNew y old l
      → IsMembers y (assign_all y l n) (old ++ l)
  unfolding assign_all
  assign_all-IsMembers [] old n h a = rw (append-nil old) h
  assign_all-IsMembers ((k, m) ∷ l) old n h (new, a) = rw (sym (append_assoc old ((k, m) ∷ []) l)) (
      assign_all-IsMembers l (old ++ (k, m) ∷ []) (y.assign n k m)
        (lawful.assign_members n k m old h new) a)
