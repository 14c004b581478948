-- ===== src/Tests/Casts.antt =====
-- Containers of texts to YAML and back, at concrete documents.
use gwn_framwork.Base.{
  ◌≡◌, refl, subst, List, [], ◌∷◌, some, and_then, Text, codes, text_eq, text_lt,
}
use mathlib.Core.Option.{some-injective}
use gwn_framwork.Yaml.{Yaml}
use gwn_framwork.Config.Cast.{
  read_vector, show_vector, read_list, show_list, read_set, read_map, show_map, read_unordered_set,
  read_unordered_map, insert_set, insert_unordered, push_items, assign_pairs, key_lt,
}
use gwn_framwork.Config.Cast.Ordered.{IsIncreasing, insert_all}
use gwn_framwork.Config.Cast.Sequences.{Converts, read_vector-show_vector}
use gwn_framwork.Config.Cast.Sets.{read_set-read_vector}
use gwn_framwork.Config.Cast.Lookup.{find_key}
use gwn_framwork.Config.Cast.Maps.{find_key-read_map, read_map-show_map, read_pairs}
use gwn_framwork.Tests.Documents.{
  Doc, empty_sequence, empty_map, leaf, item, pair, documents, documents-IsLawful, load_from, has,
}

abbrev a_b : Doc
a_b = item (item empty_sequence (leaf (codes "a"))) (leaf (codes "b"))

abbrev a_is_b : Doc
a_is_b = pair empty_map (codes "a") (leaf (codes "b"))

abbrev yaml : Yaml
yaml = documents (leaf (codes "a") ∷ leaf (codes "b") ∷ a_b ∷ a_is_b ∷ [])

a-Converts : Converts yaml some some (codes "a")
unfolding load_from
a-Converts = (codes "a", leaf (codes "a"), refl, refl, refl)

b-Converts : Converts yaml some some (codes "b")
unfolding load_from
b-Converts = (codes "b", leaf (codes "b"), refl, refl, refl)

abbrev two : List Text
two = codes "a" ∷ codes "b" ∷ []

abbrev one : List (Text × Text)
one = (codes "a", codes "b") ∷ []

two_nodes :
    (n : Doc) → push_items yaml some two empty_sequence ≡ some n → yaml.load (yaml.emit n) ≡ some n
unfolding push_items load_from
two_nodes n h = subst (λ n. yaml.load (yaml.emit n) ≡ some n) (some-injective _ _ h) refl

one_node :
    (n : Doc) → assign_pairs yaml some one empty_map ≡ some n → yaml.load (yaml.emit n) ≡ some n
unfolding assign_pairs load_from has
one_node n h = subst (λ n. yaml.load (yaml.emit n) ≡ some n) (some-injective _ _ h) refl

two-IsIncreasing : IsIncreasing text_lt two
unfolding text_lt
two-IsIncreasing = ((refl, tt), (tt, tt))

read_vector-show_vector_example :
    (t : Text) × (show_vector yaml some two ≡ some t)
    × (read_vector yaml some t ≡ some two)
    × (show_list yaml some two ≡ some t)
    × (read_list yaml some t ≡ some two)
read_vector-show_vector_example =
    read_vector-show_vector yaml some some two (documents-IsLawful _) (a-Converts, (b-Converts, tt))
      two_nodes

read_set-read_vector_example :
    (read_set yaml text_lt some (codes "[]-a-b")
      ≡ and_then
          (read_vector yaml some (codes "[]-a-b"))
          (λ vs. some (insert_all (insert_set text_lt) vs [])))
    × (read_unordered_set yaml text_eq some (codes "[]-a-b")
        ≡ and_then
            (read_vector yaml some (codes "[]-a-b"))
            (λ vs. some (insert_all (insert_unordered text_eq) vs [])))
read_set-read_vector_example = read_set-read_vector yaml some text_lt text_eq (codes "[]-a-b")

read_map-show_map_example :
    (t : Text) × (show_map yaml some one ≡ some t) × (read_map yaml some t ≡ some one)
read_map-show_map_example =
    read_map-show_map yaml some some one (documents-IsLawful _) (tt, tt) (b-Converts, tt) one_node

find_key-read_map_example :
    (n : Doc) × (vs : List (Text × Text)) × (m' : List (Text × Text)) × (yaml.load (codes "{};a:b")
      ≡ some n)
    × (read_pairs yaml some (yaml.members n) ≡ some vs)
    × (read_unordered_map yaml some (codes "{};a:b") ≡ some m')
    × IsIncreasing key_lt one
    × ((j : Text) → (find_key j one ≡ find_key j vs) × (find_key j m' ≡ find_key j vs))
find_key-read_map_example =
    find_key-read_map yaml some (codes "{};a:b") one (unfold read_map load_from in refl)
