-- ===== src/Config/Cast/Lookup.antt =====
-- What is found in a map after insertions.
use gwn_framwork.Base.{
  ◌≡◌, refl, ap, sym, ◌∙◌, arith, Bool, true, false, List, [], ◌∷◌, Option, none, some, Text,
  text_eq, text_eq_iff, text_lt, All, All-mono, if◌then◌else◌, Bool-cases, inl, inr,
}
use gwn_framwork.Config.Cast.{insert_set, insert_unordered, key_lt, key_eq}
use gwn_framwork.Config.Cast.Ordered.{
  IsIncreasing, insert_all, insert_set-IsIncreasing, key_lt-IsOrder, text_lt_irrefl, text_lt-total,
}

module _ {T : Type 0} where
  -- `find` of a map.
  unfoldable pub find_key : Text → List (Text × T) → Option T
  find_key j [] = none
  find_key j ((k, v) ∷ m) = if text_eq k j then some v else find_key j m

  abbrev pub or_else : Option T → Option T → Option T
  or_else none o = o
  or_else (some v) o = some v

  or_else_assoc : (a b c : Option T) → or_else (or_else a b) c ≡ or_else a (or_else b c)
  or_else_assoc none b c = refl
  or_else_assoc (some v) b c = refl

  or_else-none : (o : Option T) → or_else o none ≡ o
  or_else-none none = refl
  or_else-none (some v) = refl

  or_else-if :
      (b : Bool) (v : T) (o : Option T)
      → or_else (if b then some v else none) o ≡ (if b then some v else o)
  or_else-if true v o = refl
  or_else-if false v o = refl

  find_key-above :
      (j : Text) (m : List (Text × T)) (p : Text × T)
      → All (λ q. key_lt p q ≡ true) m
      → text_eq p.0 j ≡ true
      → find_key j m ≡ none
  unfolding find_key
  find_key-above j [] p h e = refl
  find_key-above j ((k, v) ∷ m) p (h, hs) e =
      let same : p.0 ≡ j = (text_eq_iff p.0 j).0 e in
      elim (Bool-cases (text_eq k j)) [
        | inl q ↦
            let same' : k ≡ j = (text_eq_iff k j).0 q in absurd (ground (arith, text_lt_irrefl j))
        | inr q ↦ rw (q) (find_key-above j m p hs e)
      ]

  -- An insertion is found, unless the key was there.
  find_key-insert_set :
      (j k : Text) (v : T) (m : List (Text × T))
      → IsIncreasing key_lt m
      → find_key j (insert_set key_lt (k, v) m)
        ≡ or_else (find_key j m) (if text_eq k j then some v else none)
  unfolding find_key insert_set
  find_key-insert_set j k v [] h = refl
  find_key-insert_set j k v ((i, w) ∷ m) (h, hs) =
      let ih = find_key-insert_set j k v m hs in
      elim (Bool-cases (text_lt k i)) [
        | inl p ↦ rw (p) (
            ground (
              arith,
              text_lt_irrefl j,
              text_eq_iff i j,
              text_eq_iff k j,
              find_key-above j m (k, v)
                  (All-mono _ _ m (λ q l. key_lt-IsOrder.trans (k, v) (i, w) q p l) h),
              or_else-none (find_key j m),
            ))
        | inr p ↦ elim (Bool-cases (text_lt i k)) [
          | inl q ↦ rw (p, q) (ground arith)
          | inr q ↦ rw (p, q) (ground (arith, text_lt-total k i p q, or_else-none (find_key j m)))
        ]
      ]

  find_key-insert_unordered :
      (j k : Text) (v : T) (m : List (Text × T))
      → find_key j (insert_unordered key_eq (k, v) m)
        ≡ or_else (find_key j m) (if text_eq k j then some v else none)
  unfolding find_key insert_unordered
  find_key-insert_unordered j k v [] = refl
  find_key-insert_unordered j k v ((i, w) ∷ m) =
      let ih = find_key-insert_unordered j k v m in
      ground (arith, text_eq_iff i k, text_eq_iff i j, text_eq_iff k j)

  -- After all insertions the first of the pairs of a key is found.
  pub find_key-insert_all_set :
      (j : Text) (vs m : List (Text × T))
      → IsIncreasing key_lt m
      → find_key j (insert_all (insert_set key_lt) vs m) ≡ or_else (find_key j m) (find_key j vs)
  unfolding insert_all find_key
  find_key-insert_all_set j [] m h = sym (or_else-none (find_key j m))
  find_key-insert_all_set j ((k, v) ∷ vs) m h =
      find_key-insert_all_set j vs (insert_set key_lt (k, v) m)
        (insert_set-IsIncreasing key_lt key_lt-IsOrder (k, v) m h)
      ∙ rw (find_key-insert_set j k v m h) (
          or_else_assoc (find_key j m) (if text_eq k j then some v else none) (find_key j vs)
          ∙ ap (or_else (find_key j m)) (or_else-if (text_eq k j) v (find_key j vs)))

  pub find_key-insert_all_unordered :
      (j : Text) (vs m : List (Text × T))
      → find_key j (insert_all (insert_unordered key_eq) vs m)
        ≡ or_else (find_key j m) (find_key j vs)
  unfolding insert_all find_key
  find_key-insert_all_unordered j [] m = sym (or_else-none (find_key j m))
  find_key-insert_all_unordered j ((k, v) ∷ vs) m =
      find_key-insert_all_unordered j vs (insert_unordered key_eq (k, v) m)
      ∙ rw (find_key-insert_unordered j k v m) (
          or_else_assoc (find_key j m) (if text_eq k j then some v else none) (find_key j vs)
          ∙ ap (or_else (find_key j m)) (or_else-if (text_eq k j) v (find_key j vs)))
