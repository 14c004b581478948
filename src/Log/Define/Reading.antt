-- ===== src/Log/Define/Reading.antt =====
-- `LexicalCast<std::string, LogDefine>` of gwn/log.cc: how a definition of a logger is read from
-- YAML. `none` is an exception. The messages to `std::cout` are left out.
use gwn_framwork.Base.{
  and_then, and_then-some, ℕ, ◌≡◌, refl, ◌⊎◌, inl, inr, List, [], ◌∷◌, Option, none, some,
  if◌then◌else◌, Text, codes, text_eq, All, Bool-cases, arith, subst,
}
use mathlib.Core.Option.{some-injective}
use gwn_framwork.Yaml.{Yaml}
use gwn_framwork.Log.Level.{unknow, from_string}
use gwn_framwork.Log.Define.{LogAppenderDefine, LogDefine}
use gwn_framwork.Log.Define.Setup.{IsTyped}

-- An appender of the given type; the level stays what it is by default.
abbrev pub appender : ℕ → Text → Text → LogAppenderDefine
appender type file formatter = record {
  type = type;
  level = unknow;
  formatter = formatter;
  file = file;
}

unfoldable pub push : Option LogAppenderDefine → List LogAppenderDefine → List LogAppenderDefine
push none l = l
push (some d) l = d ∷ l

module _ (y : Yaml) where
  -- `if(n[key].IsDefined()) ... as<std::string>()`, and the empty text else.
  unfoldable pub text_or_empty : Option y.node → Option Text
  text_or_empty none = some []
  text_or_empty (some m) = y.as_string m

  -- The branch of `FileLogAppender`: with no file the appender is passed over.
  unfoldable pub read_file : y.node → Option y.node → Option (Option LogAppenderDefine)
  unfolding text_or_empty
  read_file a none = some none
  read_file a (some m) = and_then (y.as_string m) (λ file.
      and_then (text_or_empty (y.field a (codes "formatter")))
        (λ f. some (some (appender 1 file f))))

  unfoldable pub read_typed : y.node → Text → Option (Option LogAppenderDefine)
  unfolding read_file
  read_typed a type =
      if text_eq type (codes "FileLogAppender")
      then read_file a (y.field a (codes "file"))
      else if text_eq type (codes "StdoutLogAppender")
      then and_then (text_or_empty (y.field a (codes "formatter")))
          (λ f. some (some (appender 2 [] f)))
      else some none

  -- One item of `appenders`, with its type; `some none` is `continue`.
  unfoldable pub read_kind : y.node → Option y.node → Option (Option LogAppenderDefine)
  unfolding read_typed
  read_kind a none = some none
  read_kind a (some m) = and_then (y.as_string m) (read_typed a)

  -- One item of `appenders`: `a["type"]` of a scalar throws `YAML::BadSubscript`.
  unfoldable pub read_appender : y.node → Option (Option LogAppenderDefine)
  unfolding read_kind
  read_appender a = if y.is_scalar a then none else read_kind a (y.field a (codes "type"))

  -- The loop over `appenders`.
  unfoldable pub read_appenders : List y.node → Option (List LogAppenderDefine)
  unfolding read_appender push
  read_appenders [] = some []
  read_appenders (a ∷ items) =
      and_then (read_appender a) (λ o. and_then (read_appenders items) (λ l. some (push o l)))

  unfoldable pub items_of : Option y.node → List y.node
  items_of none = []
  items_of (some m) = y.items m

  -- The whole: `none` in the name throws, and so does `n["name"]` of a scalar.
  unfoldable pub read_named : y.node → Option y.node → Option LogDefine
  unfolding read_appenders items_of
  read_named n none = none
  read_named n (some m) = and_then (y.as_string m) (λ name.
      and_then (text_or_empty (y.field n (codes "level"))) (λ level.
        and_then (text_or_empty (y.field n (codes "formatter"))) (λ formatter.
          and_then (read_appenders (items_of (y.field n (codes "appenders")))) (λ l. some (record {
            name = name;
            level = from_string level;
            formatter = formatter;
            appenders = l;
          })))))

  unfoldable pub read_define : y.node → Option LogDefine
  unfolding read_named
  read_define n = read_named n (y.field n (codes "name"))

-- A file or a console appender, with the level that the definition has by default.
abbrev pub IsRead : LogAppenderDefine → Type 0
IsRead d = IsTyped d × (d.level ≡ unknow)

abbrev AllRead : Option LogAppenderDefine → Type 0
AllRead none = Unit
AllRead (some d) = IsRead d

module _ (y : Yaml) where
  made-AllRead :
      (a : y.node) (type : ℕ) (file : Text) (o : Option LogAppenderDefine) (r : Option Text)
      → (type ≡ 1) ⊎ (type ≡ 2)
      → and_then r (λ f. some (some (appender type file f))) ≡ some o
      → AllRead o
  made-AllRead a type file o r t h =
      let (f, e, k) = and_then-some r (λ f. some (some (appender type file f))) h in
      subst AllRead (some-injective _ _ k) (t, refl)

  read_file-AllRead :
      (a : y.node) (m : Option y.node) (o : Option LogAppenderDefine)
      → read_file y a m ≡ some o
      → AllRead o
  unfolding read_file
  read_file-AllRead a none o h = subst AllRead (some-injective _ _ h) tt
  read_file-AllRead a (some m) o h =
      let (file, e, k) =
        and_then-some (y.as_string m)
          (λ file.
            and_then (text_or_empty y (y.field a (codes "formatter")))
              (λ f. some (some (appender 1 file f))))
          h in
      made-AllRead a 1 file o (text_or_empty y (y.field a (codes "formatter"))) (inl refl) k

  read_typed-AllRead :
      (a : y.node) (type : Text) (o : Option LogAppenderDefine)
      → read_typed y a type ≡ some o
      → AllRead o
  unfolding read_typed
  read_typed-AllRead a type o h = elim (Bool-cases (text_eq type (codes "FileLogAppender"))) [
    | inl p ↦ read_file-AllRead a (y.field a (codes "file")) o (rw (p) at h)
    | inr p ↦ elim (Bool-cases (text_eq type (codes "StdoutLogAppender"))) [
      | inl q ↦
          made-AllRead a 2 [] o (text_or_empty y (y.field a (codes "formatter"))) (inr refl)
            (rw (p, q) at h)
      | inr q ↦ subst AllRead (some-injective _ _ (rw (p, q) at h)) tt
    ]
  ]

  read_kind-AllRead :
      (a : y.node) (m : Option y.node) (o : Option LogAppenderDefine)
      → read_kind y a m ≡ some o
      → AllRead o
  unfolding read_kind
  read_kind-AllRead a none o h = subst AllRead (some-injective _ _ h) tt
  read_kind-AllRead a (some m) o h =
      let (type, e, k) = and_then-some (y.as_string m) (read_typed y a) h in
      read_typed-AllRead a type o k

  read_appender-AllRead :
      (a : y.node) (o : Option LogAppenderDefine) → read_appender y a ≡ some o → AllRead o
  unfolding read_appender
  read_appender-AllRead a o h = elim (Bool-cases (y.is_scalar a)) [
    | inl p ↦ let k = rw (p) at h in cc
    | inr p ↦ read_kind-AllRead a (y.field a (codes "type")) o (rw (p) at h)
  ]

  push-All :
      (o : Option LogAppenderDefine) (l : List LogAppenderDefine)
      → AllRead o
      → All IsRead l
      → All IsRead (push o l)
  unfolding push
  push-All none l a h = h
  push-All (some d) l a h = (a, h)

  read_appenders-All :
      (items : List y.node) (l : List LogAppenderDefine)
      → read_appenders y items ≡ some l
      → All IsRead l
  unfolding read_appenders
  read_appenders-All [] l h = subst (All IsRead) (some-injective _ _ h) tt
  read_appenders-All (a ∷ items) l h =
      let (o, e, k) =
        and_then-some (read_appender y a)
          (λ o. and_then (read_appenders y items) (λ l. some (push o l))) h in
      let (rest, e', k') = and_then-some (read_appenders y items) (λ l. some (push o l)) k in
      subst (All IsRead) (some-injective _ _ k')
        (push-All o rest (read_appender-AllRead a o e) (read_appenders-All items rest e'))

  read_named-All :
      (n : y.node) (m : Option y.node) (d : LogDefine)
      → read_named y n m ≡ some d
      → All IsRead d.appenders
  unfolding read_named
  read_named-All n none d h = ground arith
  read_named-All n (some m) d h =
      let (name, _, h₁) = and_then-some (y.as_string m) _ h in
      let (level, _, h₂) = and_then-some (text_or_empty y (y.field n (codes "level"))) _ h₁ in
      let (f, _, h₃) = and_then-some (text_or_empty y (y.field n (codes "formatter"))) _ h₂ in
      let (l, e, h₄) =
        and_then-some (read_appenders y (items_of y (y.field n (codes "appenders")))) _ h₃ in
      subst (λ (d : LogDefine). All IsRead d.appenders) (some-injective _ _ h₄)
        (read_appenders-All (items_of y (y.field n (codes "appenders"))) l e)

-- Every appender of a definition that is read from YAML without an exception is a file or a console
-- appender, and has the level UNKNOW, whatever level the document gives it.
pub read_define-IsRead :
    (y : Yaml) (n : y.node) (d : LogDefine) → read_define y n ≡ some d → All IsRead d.appenders
unfolding read_define
read_define-IsRead y n d h = read_named-All y n (y.field n (codes "name")) d h
