-- ===== src/Yaml.antt =====
-- What the code uses of the library yaml-cpp, as an interface: `YAML::Node`, `YAML::Load`, and `<<`
-- into a stream. A node is a value; `none` is an exception.
pub mod Build
use gwn_framwork.Base.{
  ◌≡◌, Bool, true, false, List, [], ◌∷◌, ◌++◌, Option, none, some, if◌then◌else◌, Text, text_eq,
}

pub record Yaml : Type 1 where
  pub node : Type 0
  -- `IsMap`, `IsScalar`, and `IsSequence`.
  pub is_map : node → Bool
  pub is_scalar : node → Bool
  pub is_sequence : node → Bool
  -- The pairs of `it->first.Scalar()` and `it->second`.
  pub members : node → List (Text × node)
  -- What `size()` and `n[i]` give.
  pub items : node → List node
  -- `n[key]`, when it is defined.
  pub field : node → Text → Option node
  -- `Scalar()`, and `as<std::string>()`.
  pub scalar : node → Text
  pub as_string : node → Option Text
  -- What `<<` writes, and `YAML::Load`.
  pub emit : node → Text
  pub load : Text → Option node
  -- `Node()`, `Node(NodeType::Sequence)`, `Node(NodeType::Map)`, and the node of a string.
  pub null : node
  pub sequence : node
  pub mapping : node
  pub text : Text → node
  -- `n.push_back(m)`, and `n[key] = m`.
  pub push_back : node → node → node
  pub assign : node → Text → node → node

module _ (y : Yaml) where
  abbrev pub has_key : Text → List (Text × y.node) → Bool
  has_key k [] = false
  has_key k ((j, m) ∷ l) = if text_eq j k then true else has_key k l

  -- A sequence of these items.
  abbrev pub IsItems : y.node → List y.node → Type 0
  IsItems n l = (y.is_sequence n ≡ true) × (y.items n ≡ l)

  -- A map of these pairs.
  abbrev pub IsMembers : y.node → List (Text × y.node) → Type 0
  IsMembers n l = (y.is_map n ≡ true) × (y.members n ≡ l)

-- The documented behaviour of building nodes. An assignment to a map sets the field and leaves the
-- others; one of a new key adds the pair at the end.
pub record IsLawful (y : Yaml) : Type 0 where
  pub string_text : (t : Text) → y.as_string (y.text t) ≡ some t
  pub null_field : (k : Text) → y.field y.null k ≡ none
  pub null_not_scalar : y.is_scalar y.null ≡ false
  pub map_not_scalar : (n : y.node) → y.is_map n ≡ true → y.is_scalar n ≡ false
  pub sequence_items : IsItems y y.sequence []
  pub push_null : (m : y.node) → IsItems y (y.push_back y.null m) (m ∷ [])
  pub push_items :
      (n m : y.node) (l : List y.node) → IsItems y n l → IsItems y (y.push_back n m) (l ++ m ∷ [])
  pub mapping_members : IsMembers y y.mapping []
  pub assign_null : (k : Text) (m : y.node) → y.is_map (y.assign y.null k m) ≡ true
  pub assign_null_field :
      (k j : Text) (m : y.node)
      → y.field (y.assign y.null k m) j ≡ (if text_eq k j then some m else none)
  pub assign_map :
      (n : y.node) (k : Text) (m : y.node) → y.is_map n ≡ true → y.is_map (y.assign n k m) ≡ true
  pub assign_field :
      (n : y.node) (k j : Text) (m : y.node)
      → y.is_map n ≡ true
      → y.field (y.assign n k m) j ≡ (if text_eq k j then some m else y.field n j)
  pub assign_members :
      (n : y.node) (k : Text) (m : y.node) (l : List (Text × y.node))
      → IsMembers y n l
      → has_key y k l ≡ false
      → IsMembers y (y.assign n k m) (l ++ (k, m) ∷ [])

-- The node is written as a text from which it is loaded again.
abbrev pub Survives : (y : Yaml) → y.node → Type 0
Survives y n = y.load (y.emit n) ≡ some n
