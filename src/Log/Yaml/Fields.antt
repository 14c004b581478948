-- ===== src/Log/Yaml/Fields.antt =====
-- The entries of the nodes that are written, as they are read.
use gwn_framwork.Base.{
  ◌≡◌, refl, sym, ◌∙◌, ◌⊎◌, inl, inr, Bool, true, false, List, [], ◌∷◌, ◌++◌, none, some,
  append-nil, append_assoc, if◌then◌else◌, Text, codes, text_eq,
}
use gwn_framwork.Yaml.{Yaml, IsLawful, IsItems}
use gwn_framwork.Log.Level.{
  Level, unknow, debug, info, warn, error, fatal, to_ℕ, to_string, from_string,
  from_string-to_string,
}
use gwn_framwork.Log.Yaml.{entry, settings, is_known, push_appender, push_appenders, or_null}
use gwn_framwork.Log.Define.Reading.{text_or_empty, items_of}

module _ (y : Yaml) where
  -- A node to which pairs can be assigned.
  abbrev pub IsOpen : y.node → Type 0
  IsOpen n = (n ≡ y.null) ⊎ (y.is_map n ≡ true)

  -- The items that `n["appenders"]` has.
  abbrev pub Appends : y.node → List y.node → Type 0
  Appends n l =
      ((y.field n (codes "appenders") ≡ none) × (l ≡ []))
      ⊎ ((s : y.node) × (y.field n (codes "appenders") ≡ some s) × IsItems y s l)

same_if {ℓ} : {A : Type ℓ} (b : Bool) (a : A) → (if b then a else a) ≡ a
same_if true a = refl
same_if false a = refl

-- The level that is read of the text is the level that is written.
pub from_string-known : (l : Level) → from_string (if is_known l then to_string l else []) ≡ l
unfolding to_ℕ from_string text_eq
from_string-known unknow = refl
from_string-known debug = from_string-to_string debug
from_string-known info = from_string-to_string info
from_string-known warn = from_string-to_string warn
from_string-known error = from_string-to_string error
from_string-known fatal = from_string-to_string fatal

module _ (y : Yaml) (lawful : IsLawful y) where
  pub IsOpen-not_scalar : (n : y.node) → IsOpen y n → y.is_scalar n ≡ false
  IsOpen-not_scalar n (inl e) = rw (e) lawful.null_not_scalar
  IsOpen-not_scalar n (inr is_map) = lawful.map_not_scalar n is_map

  pub assign_lem :
      (n m : y.node) (k : Text)
      → IsOpen y n
      → (y.is_map (y.assign n k m) ≡ true)
        × ((j : Text) → y.field (y.assign n k m) j ≡ (if text_eq k j then some m else y.field n j))
  assign_lem n m k (inr is_map) =
      (lawful.assign_map n k m is_map, λ j. lawful.assign_field n k j m is_map)
  assign_lem n m k (inl e) =
      rw (e)
        (lawful.assign_null k m, λ j. rw (lawful.null_field j) (lawful.assign_null_field k j m))

  pub entry_lem :
      (given : Bool) (k t : Text) (n : y.node)
      → IsOpen y n
      → IsOpen y (entry y given k t n)
        × ((j : Text)
            → y.field (entry y given k t n) j ≡ (
                if given
                then (if text_eq k j then some (y.text t) else y.field n j)
                else y.field n j))
  unfolding entry
  entry_lem false k t n h = (h, λ j. refl)
  entry_lem true k t n h = let (is_map, e) = assign_lem n (y.text t) k h in (inr is_map, e)

  -- What is read of an entry that is written.
  pub text_or_empty-entry :
      (given : Bool) (t : Text)
      → text_or_empty y (if given then some (y.text t) else none) ≡ some (if given then t else [])
  unfolding text_or_empty
  text_or_empty-entry true t = lawful.string_text t
  text_or_empty-entry false t = refl

  -- The level and the formatter that are read, and the other entries.
  pub settings_lem :
      (l : Level) (given : Bool) (t : Text) (n : y.node)
      → IsOpen y n
      → y.field n (codes "level") ≡ none
      → y.field n (codes "formatter") ≡ none
      → IsOpen y (settings y l given t n)
        × (text_or_empty y (y.field (settings y l given t n) (codes "level"))
            ≡ some (if is_known l then to_string l else []))
        × (text_or_empty y (y.field (settings y l given t n) (codes "formatter"))
            ≡ some (if given then t else []))
        × ((j : Text)
            → text_eq (codes "level") j ≡ false
            → text_eq (codes "formatter") j ≡ false
            → y.field (settings y l given t n) j ≡ y.field n j)
  unfolding settings text_eq
  settings_lem l given t n h no_level no_formatter =
      let (open₁, f₁) = entry_lem (is_known l) (codes "level") (to_string l) n h in
      let (open₂, f₂) =
        entry_lem given (codes "formatter") t (entry y (is_known l) (codes "level") (to_string l) n)
          open₁ in
      let no_formatter' = f₁ (codes "formatter") ∙ same_if (is_known l) _ ∙ no_formatter in
      let level_field = f₂ (codes "level") ∙ same_if given _ ∙ f₁ (codes "level") in
      (
        open₂,
        rw (level_field, no_level) (text_or_empty-entry (is_known l) (to_string l)),
        rw (f₂ (codes "formatter"), no_formatter') (text_or_empty-entry given t),
        λ j not_level not_formatter.
            f₂ j
            ∙ rw (not_formatter) (same_if given _)
            ∙ f₁ j
            ∙ rw (not_level) (same_if (is_known l) _),
      )

  push_appender_lem :
      (m n : y.node) (old : List y.node)
      → IsOpen y n
      → Appends y n old
      → IsOpen y (push_appender y m n)
        × Appends y (push_appender y m n) (old ++ m ∷ [])
        × ((j : Text)
            → text_eq (codes "appenders") j ≡ false
            → y.field (push_appender y m n) j ≡ y.field n j)
  unfolding push_appender text_eq
  push_appender_lem m n old opened h =
      let s = y.push_back (or_null y (y.field n (codes "appenders"))) m in
      let (is_map, f) = assign_lem n s (codes "appenders") opened in
      (inr is_map, inr (s, f (codes "appenders"), pushed h), λ j other. f j ∙ rw (other) refl)
    where
      pushed :
          Appends y n old
          → IsItems y (y.push_back (or_null y (y.field n (codes "appenders"))) m) (old ++ m ∷ [])
      pushed (inl (e, e')) = rw (e, e') (lawful.push_null m)
      pushed (inr (s, e, h)) = rw (e) (lawful.push_items s m old h)

  pub push_appenders_lem :
      (l old : List y.node) (n : y.node)
      → IsOpen y n
      → Appends y n old
      → Appends y (push_appenders y l n) (old ++ l)
        × ((j : Text)
            → text_eq (codes "appenders") j ≡ false
            → y.field (push_appenders y l n) j ≡ y.field n j)
  unfolding push_appenders
  push_appenders_lem [] old n opened h = (rw (append-nil old) h, λ j other. refl)
  push_appenders_lem (m ∷ l) old n opened h =
      let (opened', h', kept) = push_appender_lem m n old opened h in
      let (h'', kept') = push_appenders_lem l (old ++ m ∷ []) (push_appender y m n) opened' h' in
      (rw (sym (append_assoc old (m ∷ []) l)) h'', λ j other. kept' j other ∙ kept j other)

  pub items_of-Appends :
      (n : y.node) (l : List y.node)
      → Appends y n l
      → items_of y (y.field n (codes "appenders")) ≡ l
  unfolding items_of
  items_of-Appends n l (inl (e, e')) = rw (e) (sym e')
  items_of-Appends n l (inr (s, e, h)) = rw (e) h.1
