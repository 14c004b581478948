-- ===== src/Tests/Documents.antt =====
-- Documents of YAML for the tests: an instance of the interface, with its laws. A document is loaded
-- from its text when it is one of a given list.
use gwn_framwork.Base.{
  ℕ, suc, ◌+◌, ◌<◌, ◌≡◌, refl, ◌∙◌, ◌⊎◌, inl, inr, Bool, true, false, List, [], ◌∷◌, ◌++◌, Option,
  none, some, if◌then◌else◌, Text, codes, text_eq, text_eq_iff, Memᴰ, Bool-cases, arith,
}
use mathlib.Core.List.Memᴰ.{head, tail}
use gwn_framwork.Yaml.{Yaml, IsLawful, IsMembers, has_key}
use gwn_framwork.Config.Yaml.{IsFinite}

-- `item` puts a node at the end of a sequence, and `pair` a pair at the end of a map.
pub data Doc : Type 0 where
  null empty_sequence empty_map : Doc
  leaf : Text → Doc
  item : Doc → Doc → Doc
  pair : Doc → Text → Doc → Doc

abbrev is_pair : Doc → Bool
is_pair empty_map = true
is_pair (pair n k m) = true
is_pair _ = false

abbrev is_item : Doc → Bool
is_item empty_sequence = true
is_item (item n m) = true
is_item _ = false

abbrev is_leaf : Doc → Bool
is_leaf (leaf t) = true
is_leaf _ = false

abbrev pairs : Doc → List (Text × Doc)
pairs (pair n k m) = pairs n ++ (k, m) ∷ []
pairs _ = []

abbrev parts : Doc → List Doc
parts (item n m) = parts n ++ m ∷ []
parts _ = []

unfoldable pub field_of : Doc → Text → Option Doc
field_of (pair n k m) j = if text_eq k j then some m else field_of n j
field_of _ j = none

abbrev leaf_text : Doc → Text
leaf_text (leaf t) = t
leaf_text _ = []

abbrev string_of : Doc → Option Text
string_of (leaf t) = some t
string_of _ = none

unfoldable pub emit : Doc → Text
emit null = codes "~"
emit empty_sequence = codes "[]"
emit empty_map = codes "{}"
emit (leaf t) = t
emit (item n m) = emit n ++ codes "-" ++ emit m
emit (pair n k m) = emit n ++ codes ";" ++ k ++ codes ":" ++ emit m

unfoldable pub load_from : List Doc → Text → Option Doc
unfolding text_eq emit
load_from [] t = none
load_from (d ∷ known) t = if text_eq (emit d) t then some d else load_from known t

unfoldable pub has : Doc → Text → Bool
has (pair n k m) j = if text_eq k j then true else has n j
has _ j = false

unfoldable pub replace : Doc → Text → Doc → Doc
replace (pair n k m) j x = if text_eq k j then pair n k x else pair (replace n j x) k m
replace n j x = n

abbrev put : Doc → Text → Doc → Doc
put n k m = if has n k then replace n k m else pair n k m

abbrev pub documents : List Doc → Yaml
documents known = record {
  node = Doc;
  is_map = is_pair;
  is_scalar = is_leaf;
  is_sequence = is_item;
  members = pairs;
  items = parts;
  field = field_of;
  scalar = leaf_text;
  as_string = string_of;
  emit = emit;
  load = load_from known;
  null = null;
  sequence = empty_sequence;
  mapping = empty_map;
  text = leaf;
  push_back = item;
  assign = put;
}

has_key-append :
    (known : List Doc) (k j : Text) (m : Doc) (l : List (Text × Doc))
    → has_key (documents known) k (l ++ (j, m) ∷ [])
      ≡ (if text_eq j k then true else has_key (documents known) k l)
has_key-append known k j m [] = refl
has_key-append known k j m ((i, x) ∷ l) = ground (arith, has_key-append known k j m l)

has-has_key :
    (known : List Doc) (k : Text) (n : Doc) → has n k ≡ has_key (documents known) k (pairs n)
unfolding has
has-has_key known k (pair n j m) =
    rw (has_key-append known k j m (pairs n), has-has_key known k n) refl
has-has_key known k null = refl
has-has_key known k empty_sequence = refl
has-has_key known k empty_map = refl
has-has_key known k (leaf t) = refl
has-has_key known k (item n m) = refl

replace-is_pair : (n : Doc) (k : Text) (m : Doc) → is_pair n ≡ true → is_pair (replace n k m) ≡ true
unfolding replace
replace-is_pair (pair n j x) k m h = ground arith
replace-is_pair empty_map k m h = refl
replace-is_pair null k m h = cc
replace-is_pair empty_sequence k m h = cc
replace-is_pair (leaf t) k m h = cc
replace-is_pair (item n x) k m h = cc

put-is_pair : (n : Doc) (k : Text) (m : Doc) → is_pair n ≡ true → is_pair (put n k m) ≡ true
put-is_pair n k m h = ground (arith, replace-is_pair n k m)

field_of-replace :
    (n : Doc) (k j : Text) (m : Doc)
    → has n k ≡ true
    → field_of (replace n k m) j ≡ (if text_eq k j then some m else field_of n j)
unfolding has replace field_of
field_of-replace (pair n i x) k j m h =
    ground (arith, text_eq_iff i k, text_eq_iff i j, text_eq_iff k j, field_of-replace n k j m)
field_of-replace empty_map k j m h = cc
field_of-replace null k j m h = cc
field_of-replace empty_sequence k j m h = cc
field_of-replace (leaf t) k j m h = cc
field_of-replace (item n x) k j m h = cc

put-field_of :
    (n : Doc) (k j : Text) (m : Doc)
    → field_of (put n k m) j ≡ (if text_eq k j then some m else field_of n j)
unfolding field_of
put-field_of n k j m = elim (Bool-cases (has n k)) [
  | inl p ↦ rw (p) (field_of-replace n k j m p)
  | inr p ↦ rw (p) refl
]

put-pairs :
    (known : List Doc) (n : Doc) (k : Text) (m : Doc) (l : List (Text × Doc))
    → IsMembers (documents known) n l
    → has_key (documents known) k l ≡ false
    → IsMembers (documents known) (put n k m) (l ++ (k, m) ∷ [])
put-pairs known n k m l (is_map, e) new =
    let absent : has n k ≡ false = has-has_key known k n ∙ rw e new in rw (absent) (refl, rw e refl)

pair-is_leaf : (n : Doc) → is_pair n ≡ true → is_leaf n ≡ false
pair-is_leaf null h = refl
pair-is_leaf empty_sequence h = refl
pair-is_leaf empty_map h = refl
pair-is_leaf (leaf t) h = ground arith
pair-is_leaf (item n m) h = refl
pair-is_leaf (pair n k m) h = refl

-- The documents behave as the library documents it.
pub documents-IsLawful : (known : List Doc) → IsLawful (documents known)
unfolding field_of has
documents-IsLawful known = record {
  string_text = λ t. refl;
  null_field = λ k. refl;
  null_not_scalar = refl;
  map_not_scalar = pair-is_leaf;
  sequence_items = (refl, refl);
  push_null = λ m. (refl, refl);
  push_items = λ n m l h. (refl, rw (h.1) refl);
  mapping_members = (refl, refl);
  assign_null = λ k m. refl;
  assign_null_field = λ k j m. refl;
  assign_map = λ n k m h. put-is_pair n k m h;
  assign_field = λ n k j m h. put-field_of n k j m;
  assign_members = λ n k m l h new. put-pairs known n k m l h new;
}

unfoldable pub height : Doc → ℕ
height (item n m) = suc (height n + height m)
height (pair n k m) = suc (height n + height m)
height _ = 0

Memᴰ-last : (e p : Text × Doc) (l : List (Text × Doc)) → Memᴰ e (l ++ p ∷ []) → Memᴰ e l ⊎ (e ≡ p)
Memᴰ-last e p [] (head q) = inr q
Memᴰ-last e p [] (tail m) = elim m [ ]
Memᴰ-last e p (x ∷ l) (head q) = inl (head q)
Memᴰ-last e p (x ∷ l) (tail m) = elim (Memᴰ-last e p l m) [
  | inl old ↦ inl (tail old)
  | inr last ↦ inr last
]

pub member-height : (n : Doc) (e : Text × Doc) → Memᴰ e (pairs n) → height e.1 < height n
unfolding height
member-height (pair n k m) e h = elim (Memᴰ-last e (k, m) (pairs n) h) [
  | inl old ↦ omega (arith, member-height n e old)
  | inr last ↦ rw last (omega arith)
]
member-height null e h = elim h [ ]
member-height empty_sequence e h = elim h [ ]
member-height empty_map e h = elim h [ ]
member-height (leaf t) e h = elim h [ ]
member-height (item n m) e h = elim h [ ]

abbrev pub documents-IsFinite : (known : List Doc) → IsFinite (documents known)
documents-IsFinite known = record { depth = height; member_depth = member-height }
