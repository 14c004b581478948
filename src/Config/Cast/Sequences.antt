-- ===== src/Config/Cast/Sequences.antt =====
-- Vectors and lists to YAML and back.
use gwn_framwork.Base.{◌≡◌, refl, List, [], ◌∷◌, Option, some, Text, All}
use gwn_framwork.Yaml.{Yaml, IsLawful, Survives}
use gwn_framwork.Yaml.Build.{push_all, push_all-IsItems}
use gwn_framwork.Config.Cast.{
  read_items, push_items, read_vector, show_vector, read_list, show_list,
}

module _ (y : Yaml) {T : Type 0} (to : T → Option Text) (from : Text → Option T) where
  -- The conversion of the element gives a text of YAML, and what is written of the node that is
  -- loaded from it is converted back.
  abbrev pub Converts : T → Type 0
  Converts v =
      (s : Text) × (n : y.node) × (to v ≡ some s) × (y.load s ≡ some n) × (from (y.emit n) ≡ some v)

  -- The nodes that are pushed, and what is read from them.
  pub push_items-push_all :
      (vs : List T) (n : y.node)
      → All Converts vs
      → (ns : List y.node) × (push_items y to vs n ≡ some (push_all y ns n))
        × (read_items y from ns ≡ some vs)
  unfolding push_items push_all read_items
  push_items-push_all [] n h = ([], refl, refl)
  push_items-push_all (v ∷ vs) n ((s, m, a, b, c), h) =
      let (ns, p, q) = push_items-push_all vs (y.push_back n m) h in
      (m ∷ ns, rw (a, b) p, rw (c, q) refl)

  -- What a sequence is written to, from a list of elements.
  pub push_items-read_items :
      (vs : List T)
      → IsLawful y
      → All Converts vs
      → (n : y.node) × (push_items y to vs y.sequence ≡ some n)
        × (read_items y from (y.items n) ≡ some vs)
  push_items-read_items vs lawful h =
      let (ns, p, q) = push_items-push_all vs y.sequence h in
      let (is_sequence, e) = push_all-IsItems y lawful ns [] y.sequence lawful.sequence_items in
      (push_all y ns y.sequence, p, rw e q)

  -- Where each element converts and the sequence of them survives being written and loaded, a
  -- vector, or a list, is written without an exception, and is read back from the text.
  pub read_vector-show_vector :
      (vs : List T)
      → IsLawful y
      → All Converts vs
      → ((n : y.node) → push_items y to vs y.sequence ≡ some n → Survives y n)
      → (t : Text) × (show_vector y to vs ≡ some t)
        × (read_vector y from t ≡ some vs)
        × (show_list y to vs ≡ some t)
        × (read_list y from t ≡ some vs)
  unfolding show_vector read_vector show_list read_list
  read_vector-show_vector vs lawful h survives =
      let (n, p, q) = push_items-read_items vs lawful h in
      let l = survives n p in (y.emit n, rw p refl, rw l q, rw p refl, rw l q)
