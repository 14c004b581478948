-- ===== src/Config/Cast/Sets.antt =====
-- Sets from and to YAML.
use gwn_framwork.Base.{
  ◌≡◌, refl, Bool, List, [], ◌∷◌, Option, none, some, and_then, and_then-some, Text, All, subst,
}
use mathlib.Core.Option.{some-injective}
use gwn_framwork.Yaml.{Yaml, IsLawful, Survives}
use gwn_framwork.Config.Cast.{
  insert_set, insert_unordered, read_items, insert_items, push_items, read_vector, read_set,
  read_unordered_set, show_set,
}
use gwn_framwork.Config.Cast.Ordered.{
  IsOrder, IsIncreasing, insert_all, insert_all-IsIncreasing, insert_all-eq, collect_then_insert,
}
use gwn_framwork.Config.Cast.Sequences.{Converts, push_items-read_items}

module _ (y : Yaml) {T : Type 0} (from : Text → Option T) where
  -- The loop that inserts is the loop that collects, and then the insertions; an exception ends
  -- both.
  insert_items-read_items :
      (insert : T → List T → List T) (ns : List y.node) (s : List T)
      → insert_items y insert from ns s
        ≡ and_then (read_items y from ns) (λ vs. some (insert_all insert vs s))
  unfolding insert_items read_items insert_all
  insert_items-read_items insert [] s = refl
  insert_items-read_items insert (n ∷ ns) s =
      collect_then_insert insert s (λ v. v) (read_items y from ns) (from (y.emit n))
        (λ v. insert_items y insert from ns (insert v s))
        (λ v. insert_items-read_items insert ns (insert v s))

  -- From every text, with every order and every equality of the elements, a set is read as a vector
  -- is whose elements are then inserted one by one, and it is read exactly when the vector is. So is
  -- an unordered set.
  pub read_set-read_vector :
      (lt eq : T → T → Bool) (t : Text)
      → (read_set y lt from t
          ≡ and_then (read_vector y from t) (λ vs. some (insert_all (insert_set lt) vs [])))
        × (read_unordered_set y eq from t
            ≡ and_then (read_vector y from t) (λ vs. some (insert_all (insert_unordered eq) vs [])))
  unfolding read_set read_unordered_set read_vector
  read_set-read_vector lt eq t =
      (by_load (insert_set lt) (y.load t), by_load (insert_unordered eq) (y.load t))
    where
      by_load :
          (insert : T → List T → List T) (o : Option y.node)
          → and_then o (λ n. insert_items y insert from (y.items n) [])
            ≡ and_then
                (and_then o (λ n. read_items y from (y.items n)))
                (λ vs. some (insert_all insert vs []))
      by_load insert none = refl
      by_load insert (some n) = insert_items-read_items insert (y.items n) []

  -- A set that is read is in increasing order, so that no two of its elements are equivalent,
  -- whatever the text repeats.
  pub read_set-IsIncreasing :
      (lt : T → T → Bool) (t : Text) (s : List T)
      → IsOrder lt
      → read_set y lt from t ≡ some s
      → IsIncreasing lt s
  read_set-IsIncreasing lt t s order h =
      let (vs, p, q) =
        and_then-some (read_vector y from t) (λ vs. some (insert_all (insert_set lt) vs []))
          (rw ((read_set-read_vector lt lt t).0) at h) in
      subst (IsIncreasing lt) (some-injective _ _ q) (insert_all-IsIncreasing lt order vs [] tt)

  -- Where each element converts and the sequence of them survives being written and loaded, a set is
  -- read back from the text that it is written to.
  pub read_set-show_set :
      (lt : T → T → Bool) (to : T → Option Text) (s : List T)
      → IsLawful y
      → IsOrder lt
      → IsIncreasing lt s
      → All (Converts y to from) s
      → ((n : y.node) → push_items y to s y.sequence ≡ some n → Survives y n)
      → (t : Text) × (show_set y to s ≡ some t) × (read_set y lt from t ≡ some s)
  unfolding show_set read_set
  read_set-show_set lt to s lawful order increasing h survives =
      let (n, p, q) = push_items-read_items y to from s lawful h in
      let l = survives n p in
      (
        y.emit n,
        rw p refl,
        rw
            (
              l,
              insert_items-read_items (insert_set lt) (y.items n) [],
              q,
              insert_all-eq lt order s increasing,
            )
            refl,
      )
