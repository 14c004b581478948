-- ===== src/Config/Cast/Maps.antt =====
-- Maps from and to YAML.
use gwn_framwork.Base.{
  ◌≡◌, refl, arith, true, false, List, [], ◌∷◌, ◌++◌, Option, some, and_then, and_then-some, Text,
  text_eq, text_eq_iff, All, subst,
}
use mathlib.Core.Option.{some-injective}
use gwn_framwork.Yaml.{Yaml, IsLawful, Survives, has_key}
use gwn_framwork.Yaml.Build.{assign_all, assign_all-IsMembers, AreNew}
use gwn_framwork.Config.Cast.{
  insert_set, insert_unordered, insert_pairs, assign_pairs, key_lt, key_eq, read_map, show_map,
  read_unordered_map,
}
use gwn_framwork.Config.Cast.Ordered.{
  IsIncreasing, insert_all, insert_all-IsIncreasing, insert_all-eq, collect_then_insert,
  key_lt-IsOrder, text_lt_irrefl,
}
use gwn_framwork.Config.Cast.Sequences.{Converts}
use gwn_framwork.Config.Cast.Lookup.{
  find_key, find_key-insert_all_set, find_key-insert_all_unordered,
}

module _ (y : Yaml) {T : Type 0} (from : Text → Option T) where
  -- The pairs of a node with their values converted.
  unfoldable pub read_pairs : List (Text × y.node) → Option (List (Text × T))
  read_pairs [] = some []
  read_pairs ((k, n) ∷ ns) =
      and_then (from (y.emit n)) (λ v. and_then (read_pairs ns) (λ vs. some ((k, v) ∷ vs)))

  pub insert_pairs-read_pairs :
      (insert : Text × T → List (Text × T) → List (Text × T)) (ns : List (Text × y.node))
      (m : List (Text × T))
      → insert_pairs y insert from ns m
        ≡ and_then (read_pairs ns) (λ vs. some (insert_all insert vs m))
  unfolding insert_pairs read_pairs insert_all
  insert_pairs-read_pairs insert [] m = refl
  insert_pairs-read_pairs insert ((k, n) ∷ ns) m =
      collect_then_insert insert m (λ v. (k, v)) (read_pairs ns) (from (y.emit n))
        (λ v. insert_pairs y insert from ns (insert (k, v) m))
        (λ v. insert_pairs-read_pairs insert ns (insert (k, v) m))

module _ (y : Yaml) {T : Type 0} (from : Text → Option T) where
  -- Where a text is read as a map, it is a document whose pairs all convert, and it is read as an
  -- unordered map as well. The map is in the order of its keys, and in both maps a key has the value
  -- of the first pair of it in the document.
  pub find_key-read_map :
      (t : Text) (m : List (Text × T))
      → read_map y from t ≡ some m
      → (n : y.node) × (vs : List (Text × T)) × (m' : List (Text × T)) × (y.load t ≡ some n)
        × (read_pairs y from (y.members n) ≡ some vs)
        × (read_unordered_map y from t ≡ some m')
        × IsIncreasing key_lt m
        × ((j : Text) → (find_key j m ≡ find_key j vs) × (find_key j m' ≡ find_key j vs))
  unfolding read_map read_unordered_map find_key
  find_key-read_map t m h =
      let (n, loaded, h') =
        and_then-some (y.load t)
          (λ node. insert_pairs y (insert_set key_lt) from (y.members node) []) h in
      let (vs, read, q) =
        and_then-some (read_pairs y from (y.members n))
          (λ vs. some (insert_all (insert_set key_lt) vs []))
          (rw (insert_pairs-read_pairs y from (insert_set key_lt) (y.members n) []) at h') in
      let e = some-injective _ _ q in
      let other : read_unordered_map y from t ≡ some (insert_all (insert_unordered key_eq) vs []) =
        rw (loaded, insert_pairs-read_pairs y from (insert_unordered key_eq) (y.members n) [], read)
          refl in
      (
        n,
        vs,
        insert_all (insert_unordered key_eq) vs [],
        loaded,
        read,
        other,
        subst (IsIncreasing key_lt) e (insert_all-IsIncreasing key_lt key_lt-IsOrder vs [] tt),
        λ j. (
          subst (λ m. find_key j m ≡ find_key j vs) e (find_key-insert_all_set j vs [] tt),
          find_key-insert_all_unordered j vs [],
        ),
      )

  has_key-append :
      (j k : Text) (n : y.node) (l : List (Text × y.node))
      → has_key y j l ≡ false
      → text_eq k j ≡ false
      → has_key y j (l ++ (k, n) ∷ []) ≡ false
  has_key-append j k n [] h e = rw (e) refl
  has_key-append j k n ((i, m) ∷ l) h e = ground (arith, has_key-append j k n l)

  -- The keys above a key are not that key.
  All-new :
      (k : Text) (v : T) (n : y.node) (old : List (Text × y.node)) (vs : List (Text × T))
      → All (λ w. key_lt (k, v) w ≡ true) vs
      → All (λ (w : Text × T). has_key y w.0 old ≡ false) vs
      → All (λ (w : Text × T). has_key y w.0 (old ++ (k, n) ∷ []) ≡ false) vs
  All-new k v n old [] h new = tt
  All-new k v n old ((j, w) ∷ vs) (lt, h) (e, new) =
      let other : text_eq k j ≡ false = ground (arith, text_lt_irrefl j, text_eq_iff k j) in
      (has_key-append j k n old e other, All-new k v n old vs h new)

  -- The nodes that are assigned, and what is read from them.
  assign_pairs-assign_all :
      (to : T → Option Text) (vs : List (Text × T)) (n : y.node) (old : List (Text × y.node))
      → IsIncreasing key_lt vs
      → All (λ (w : Text × T). Converts y to from w.1) vs
      → All (λ (w : Text × T). has_key y w.0 old ≡ false) vs
      → (ns : List (Text × y.node)) × (assign_pairs y to vs n ≡ some (assign_all y ns n))
        × (read_pairs y from ns ≡ some vs)
        × AreNew y old ns
  unfolding assign_pairs assign_all read_pairs
  assign_pairs-assign_all to [] n old i h new = ([], refl, refl, tt)
  assign_pairs-assign_all to ((k, v) ∷ vs) n old (above, i) ((s, m, a, b, c), h) (e, new) =
      let (ns, p, q, r) =
        assign_pairs-assign_all to vs (y.assign n k m) (old ++ (k, m) ∷ []) i h
          (All-new k v m old vs above new) in
      ((k, m) ∷ ns, rw (a, b) p, rw (c, q) refl, (e, r))

  All-unit : (vs : List (Text × T)) → All (λ (w : Text × T). has_key y w.0 [] ≡ false) vs
  All-unit [] = tt
  All-unit (v ∷ vs) = (refl, All-unit vs)

  -- Where each value converts and the map of them survives being written and loaded, a map in the
  -- order of its keys is written without an exception, and is read back from the text.
  pub read_map-show_map :
      (to : T → Option Text) (m : List (Text × T))
      → IsLawful y
      → IsIncreasing key_lt m
      → All (λ (w : Text × T). Converts y to from w.1) m
      → ((n : y.node) → assign_pairs y to m y.mapping ≡ some n → Survives y n)
      → (t : Text) × (show_map y to m ≡ some t) × (read_map y from t ≡ some m)
  unfolding show_map read_map
  read_map-show_map to m lawful increasing h survives =
      let (ns, p, q, new) = assign_pairs-assign_all to m y.mapping [] increasing h (All-unit m) in
      let (is_map, e) = assign_all-IsMembers y lawful ns [] y.mapping lawful.mapping_members new in
      let l = survives (assign_all y ns y.mapping) p in
      (
        y.emit (assign_all y ns y.mapping),
        rw p refl,
        rw
            (
              l,
              insert_pairs-read_pairs y from (insert_set key_lt) _ [],
              e,
              q,
              insert_all-eq key_lt key_lt-IsOrder m increasing,
            )
            refl,
      )
